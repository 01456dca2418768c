-- ===== src/Wire/RoundTrip.antt =====
-- Messages of src/bake-rpc.h sent and received.
use mochi_bake.Prelude.{
  ℕ, zero, suc, ◌+◌, ◌*◌, ◌/◌, ◌%◌, ◌^◌, ◌≤◌, ◌<◌, ◌≡◌, refl, ap, false, ℤ, some, List, [], ◌∷◌,
  ◌++◌, append_assoc, arith, length, length-append, take, drop, ltb, ◌==◌, if◌then◌else◌, All,
  take-append,
}
use mochi_bake.Ids.{RegionId, region_id_data_size}
use mochi_bake.Wire.{
  Proc, target_id_size, get_raw, get_buffer, put_buffer, EagerWrite, EagerCreateWritePersist,
  EagerReadOut, ProbeOut, put_each, get_each, put_region_id, get_region_id, put_target_id,
  get_target_id, put_eager_write, get_eager_write, put_eager_create_write_persist,
  get_eager_create_write_persist, low_word, put_eager_read_out, get_eager_read_out, put_probe_out,
  get_probe_out,
}

-- The encoders of Mercury give back what fits in their width.
pub record IsProc (proc : Proc) : Type 0 where
  pub u8 : (v : ℕ) (s : List ℕ) → v < 2 ^ 8 → proc.get_u8 (proc.put_u8 v ++ s) ≡ some (v, s)
  pub u32 : (v : ℕ) (s : List ℕ) → v < 2 ^ 32 → proc.get_u32 (proc.put_u32 v ++ s) ≡ some (v, s)
  pub i32 : (v : ℤ) (s : List ℕ) → proc.get_i32 (proc.put_i32 v ++ s) ≡ some (v, s)
  pub u64 : (v : ℕ) (s : List ℕ) → v < 2 ^ 64 → proc.get_u64 (proc.put_u64 v ++ s) ≡ some (v, s)

drop-append : (n : ℕ) (xs ys : List ℕ) → length xs ≡ n → drop n (xs ++ ys) ≡ ys
drop-append zero [] ys h = refl
drop-append zero (x ∷ xs) ys h = absurd (omega arith)
drop-append (suc n) [] ys h = absurd (omega arith)
drop-append (suc n) (x ∷ xs) ys h = drop-append n xs ys (omega arith)

take-all : (n : ℕ) (xs : List ℕ) → length xs ≡ n → take n xs ≡ xs
take-all zero [] h = refl
take-all zero (x ∷ xs) h = absurd (omega arith)
take-all (suc n) [] h = absurd (omega arith)
take-all (suc n) (x ∷ xs) h = ap (λ (t : List ℕ). x ∷ t) (take-all n xs (omega arith))

not_short : (n m : ℕ) → n ≤ m → ltb m n ≡ false
not_short n m h = ground arith

suc-eq-zero : (n : ℕ) → (suc n == 0) ≡ false
suc-eq-zero n = ground arith

get_raw_lem : (n : ℕ) (xs s : List ℕ) → length xs ≡ n → get_raw n (xs ++ s) ≡ some (xs, s)
unfolding get_raw
get_raw_lem n xs s h =
    rw (not_short n (length (xs ++ s)) (omega (arith, length-append xs s)))
      (rw (take-append n xs s h, drop-append n xs s h) refl)

get_buffer_lem :
    (n : ℕ) (old buffer s : List ℕ)
    → length buffer ≡ n
    → get_buffer n old (put_buffer n buffer ++ s) ≡ some (if n == 0 then old else buffer, s)
unfolding get_buffer
get_buffer_lem zero old buffer s h = refl
get_buffer_lem (suc n) old buffer s h =
    rw (suc-eq-zero n) (rw (take-all (suc n) buffer h) (get_raw_lem (suc n) buffer s h))

take-append_le :
    (n : ℕ) (xs ys : List ℕ)
    → n ≤ length xs
    → (take n (xs ++ ys) ≡ take n xs) × (drop n (xs ++ ys) ≡ drop n xs ++ ys)
take-append_le zero xs ys h = (refl, refl)
take-append_le (suc n) [] ys h = absurd (omega arith)
take-append_le (suc n) (x ∷ xs) ys h =
    let (front, back) = take-append_le n xs ys (omega arith) in
    (ap (λ (t : List ℕ). x ∷ t) front, back)

put_buffer-all : (n : ℕ) (buffer : List ℕ) → length buffer ≡ n → put_buffer n buffer ≡ buffer
put_buffer-all zero [] h = refl
put_buffer-all zero (x ∷ xs) h = absurd (omega arith)
put_buffer-all (suc n) buffer h = rw (suc-eq-zero n) (take-all (suc n) buffer h)

-- A receiver that expects the first bytes only.
get_buffer_part :
    (n size : ℕ) (buffer s : List ℕ)
    → length buffer ≡ size
    → n ≤ size
    → get_buffer n [] (put_buffer size buffer ++ s) ≡ some (take n buffer, drop n buffer ++ s)
unfolding get_buffer get_raw
get_buffer_part zero size buffer s h le = rw (put_buffer-all size buffer h) refl
get_buffer_part (suc n) size buffer s h le =
    let (front, back) = take-append_le (suc n) buffer s (omega arith) in
    rw (put_buffer-all size buffer h, suc-eq-zero n)
      (rw (not_short (suc n) (length (buffer ++ s)) (omega (arith, length-append buffer s)))
        (rw (front, back) refl))

low_half : (n : ℕ) → 0 / 2 ^ 32 * 2 ^ 32 + n ≡ n
low_half n = omega arith

get_buffer_half :
    (n size : ℕ) (buffer s : List ℕ)
    → length buffer ≡ size
    → n ≤ size
    → get_buffer (0 / 2 ^ 32 * 2 ^ 32 + n) [] (put_buffer size buffer ++ s)
      ≡ some (take n buffer, drop n buffer ++ s)
get_buffer_half n size buffer s h le = rw (low_half n) (get_buffer_part n size buffer s h le)

module _ (proc : Proc) (laws : IsProc proc) where
  get_each_lem :
      (n : ℕ) (bs s : List ℕ)
      → length bs ≡ n
      → All (λ b. b < 2 ^ 8) bs
      → get_each proc n (put_each proc bs ++ s) ≡ some (bs, s)
  unfolding get_each put_each
  get_each_lem zero [] s h v = refl
  get_each_lem zero (b ∷ bs) s h v = absurd (omega arith)
  get_each_lem (suc n) [] s h v = absurd (omega arith)
  get_each_lem (suc n) (b ∷ bs) s h v =
      rw (append_assoc (proc.put_u8 b) (put_each proc bs) s) (
        rw (laws.u8 b (put_each proc bs ++ s) v.0)
          (rw (get_each_lem n bs s (omega arith) v.1) refl))

  -- A region id that fits in its fields.
  pub record IsRegionId (rid : RegionId) : Type 0 where
    pub type : rid.type < 2 ^ 32
    pub size : length rid.content ≡ region_id_data_size
    pub bytes : All (λ b. b < 2 ^ 8) rid.content

  get_region_id_lem :
      (rid : RegionId) (s : List ℕ)
      → IsRegionId rid
      → get_region_id proc (put_region_id proc rid ++ s) ≡ some (rid, s)
  unfolding get_region_id put_region_id
  get_region_id_lem rid s v =
      rw (append_assoc (proc.put_u32 rid.type) (put_each proc rid.content) s) (
        rw (laws.u32 rid.type (put_each proc rid.content ++ s) v.type)
          (rw (get_each_lem region_id_data_size rid.content s v.size v.bytes) refl))

  -- A target id of 16 bytes.
  abbrev IsTargetId : List ℕ → Type 0
  IsTargetId bti = length bti ≡ target_id_size

  get_target_id_lem :
      (bti s : List ℕ)
      → IsTargetId bti
      → get_target_id proc (put_target_id proc bti ++ s) ≡ some (bti, s)
  get_target_id_lem bti s h =
      rw (take-all target_id_size bti h) (get_raw_lem target_id_size bti s h)

  -- Messages whose ids and numbers fit in their fields, and whose size is that of their buffer.
  pub record IsEagerWrite (i : EagerWrite) : Type 0 where
    pub bti : length i.bti ≡ target_id_size
    pub rid : IsRegionId i.rid
    pub region_offset : i.region_offset < 2 ^ 64
    pub size : i.size < 2 ^ 64
    pub buffer : length i.buffer ≡ i.size

  pub record IsEagerCreateWritePersist (i : EagerCreateWritePersist) : Type 0 where
    pub bti : length i.bti ≡ target_id_size
    pub size : i.size < 2 ^ 64
    pub buffer : length i.buffer ≡ i.size

  pub record IsProbeOut (o : ProbeOut) : Type 0 where
    pub num_targets : o.num_targets < 2 ^ 64
    pub targets : length o.targets ≡ o.num_targets * target_id_size

  get_eager_write-put :
      (i : EagerWrite) (old s : List ℕ)
      → IsEagerWrite i
      → get_eager_write proc old (put_eager_write proc i ++ s)
        ≡ some (record i { buffer = if i.size == 0 then old else i.buffer }, s)
  unfolding get_eager_write put_eager_write
  get_eager_write-put i old s v =
      let b = put_buffer i.size i.buffer in
      let c = proc.put_u64 i.size in
      let d = proc.put_u64 i.region_offset in
      let e = put_region_id proc i.rid in
      rw (append_assoc (put_target_id proc i.bti) (e ++ (d ++ (c ++ b))) s) (
        rw (get_target_id_lem i.bti ((e ++ (d ++ (c ++ b))) ++ s) v.bti) (
          rw (append_assoc e (d ++ (c ++ b)) s) (
            rw (get_region_id_lem i.rid ((d ++ (c ++ b)) ++ s) v.rid) (
              rw (append_assoc d (c ++ b) s) (
                rw (laws.u64 i.region_offset ((c ++ b) ++ s) v.region_offset) (
                  rw (append_assoc c b s) (
                    rw (laws.u64 i.size (b ++ s) v.size)
                      (rw (get_buffer_lem i.size old i.buffer s v.buffer) refl))))))))

  get_eager_create_write_persist-put :
      (i : EagerCreateWritePersist) (old s : List ℕ)
      → IsEagerCreateWritePersist i
      → get_eager_create_write_persist proc old (put_eager_create_write_persist proc i ++ s)
        ≡ some (record i { buffer = if i.size == 0 then old else i.buffer }, s)
  unfolding get_eager_create_write_persist put_eager_create_write_persist
  get_eager_create_write_persist-put i old s v =
      let b = put_buffer i.size i.buffer in
      let c = proc.put_u64 i.size in
      rw (append_assoc (put_target_id proc i.bti) (c ++ b) s) (
        rw (get_target_id_lem i.bti ((c ++ b) ++ s) v.bti) (
          rw (append_assoc c b s) (
            rw (laws.u64 i.size (b ++ s) v.size)
              (rw (get_buffer_lem i.size old i.buffer s v.buffer) refl))))

  get_targets :
      (n : ℕ) (old targets s : List ℕ)
      → length targets ≡ n * target_id_size
      → (if n == 0
          then some (old, (if n == 0 then [] else take (n * target_id_size) targets) ++ s)
          else get_raw
              (n * target_id_size)
              ((if n == 0 then [] else take (n * target_id_size) targets) ++ s))
        ≡ some (if n == 0 then old else targets, s)
  get_targets zero old targets s h = refl
  get_targets (suc n) old targets s h = rw (suc-eq-zero n) (
      rw (take-all (suc n * target_id_size) targets h)
        (get_raw_lem (suc n * target_id_size) targets s h))

  get_probe_out-put :
      (o : ProbeOut) (old s : List ℕ)
      → IsProbeOut o
      → get_probe_out proc old (put_probe_out proc o ++ s)
        ≡ some (record o { targets = if o.num_targets == 0 then old else o.targets }, s)
  unfolding get_probe_out put_probe_out
  get_probe_out-put o old s v =
      let b : List ℕ =
        if o.num_targets == 0 then [] else take (o.num_targets * target_id_size) o.targets in
      let c = proc.put_u64 o.num_targets in
      rw (append_assoc (proc.put_i32 o.ret) (c ++ b) s) (
        rw (laws.i32 o.ret ((c ++ b) ++ s)) (
          rw (append_assoc c b s) (
            rw (laws.u64 o.num_targets (b ++ s) v.num_targets)
              (rw (get_targets o.num_targets old o.targets s v.targets) refl))))

  -- An eager write, an eager create-write-persist and the reply of a probe arrive as they were sent,
  -- with what follows them in the stream left alone, if ids and numbers fit in their fields and the
  -- buffer has the size that is sent with it. Where that size is 0, the pointer to the buffer is left
  -- as the receiver had it.
  pub messages_round_trip :
      (i : EagerWrite) (j : EagerCreateWritePersist) (o : ProbeOut) (old s : List ℕ)
      → IsEagerWrite i
      → IsEagerCreateWritePersist j
      → IsProbeOut o
      → (get_eager_write proc old (put_eager_write proc i ++ s)
          ≡ some (record i { buffer = if i.size == 0 then old else i.buffer }, s))
        × (get_eager_create_write_persist proc old (put_eager_create_write_persist proc j ++ s)
            ≡ some (record j { buffer = if j.size == 0 then old else j.buffer }, s))
        × (get_probe_out proc old (put_probe_out proc o ++ s)
            ≡ some (record o { targets = if o.num_targets == 0 then old else o.targets }, s))
  messages_round_trip i j o old s u v w = (
    get_eager_write-put i old s u,
    get_eager_create_write_persist-put j old s v,
    get_probe_out-put o old s w,
  )

  -- The reply of an eager read whose buffer has the size that it says: where the receiver has set its
  -- own size to 0, as `bake_eager_read` does, there arrive the size modulo 2 ^ 32 and as many bytes,
  -- so all of them below 2 ^ 32; the other bytes are left in the stream.
  pub eager_read_out_low :
      (o : EagerReadOut) (s : List ℕ)
      → length o.buffer ≡ o.size
      → get_eager_read_out proc
          (record { ret = o.ret; size = 0; buffer = [] })
          (put_eager_read_out proc o ++ s)
        ≡ some (
          record o { size = o.size % 2 ^ 32; buffer = take (o.size % 2 ^ 32) o.buffer },
          drop (o.size % 2 ^ 32) o.buffer ++ s,
        )
  unfolding get_eager_read_out put_eager_read_out
  eager_read_out_low o s h =
      let b = put_buffer o.size o.buffer in
      let c = proc.put_u32 (low_word o.size) in
      rw (append_assoc (proc.put_i32 o.ret) (c ++ b) s) (
        rw (laws.i32 o.ret ((c ++ b) ++ s)) (
          rw (append_assoc c b s) (
            rw (laws.u32 (low_word o.size) (b ++ s) (omega arith)) (
              rw
                (
                  get_buffer_half (o.size % 2 ^ 32) o.size o.buffer s h (omega arith),
                  low_half (o.size % 2 ^ 32),
                )
                refl))))
