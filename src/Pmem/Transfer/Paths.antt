-- ===== src/Pmem/Transfer/Paths.antt =====
-- The two paths of `write_transfer_data` in src/bake-pmem-backend.c.
use mochi_bake.Prelude.{
  ℕ, zero, suc, ◌+◌, ◌-◌, ◌^◌, ◌≤◌, ◌<◌, ◌≡◌, refl, sym, ap, ◌∙◌, ◌⊎◌, inl, inr, Bool, true, false,
  some, arith, take, ltb, Bool-cases,
}
use mochi_bake.ReturnCode.{success}
use mochi_bake.Host.Disk.{slice, length-slice, take-slice}
use mochi_bake.FileBackend.{u64}
use mochi_bake.Backend.{Platform}
use mochi_bake.Pmem.{Pmemobj}
use mochi_bake.Pmem.Memory.{Memory, Pulls, get_or-slice}
use mochi_bake.Pmem.Transfer.{
  PmemXfer, this_size, count_pmem_ults, pmem_xfer_loop, pipelined, unpipelined,
}

-- A transfer as far as it goes, with no number that wraps.
record IsPmemXfer (x : PmemXfer) : Type 0 where
  pub issued : x.bytes_issued ≤ x.bulk_size
  pub local : x.local_ptr + x.bulk_size < 2 ^ 64
  pub remote : x.remote_offset + x.bulk_size < 2 ^ 64
  pub positive : 0 < x.poolset_max_size

this_size-fits :
    (x : PmemXfer)
    → IsPmemXfer x
    → x.bytes_issued < x.bulk_size
    → (0 < this_size x) × (x.bytes_issued + this_size x ≤ x.bulk_size)
unfolding this_size
this_size-fits x v h = ground arith

pub less : (n m : ℕ) → ltb n m ≡ true → n < m
less n m h = ground arith

not_less : (n m : ℕ) → ltb n m ≡ false → m ≤ n
not_less n m h = ground arith

small_word : (n : ℕ) → n < 2 ^ 64 → u64 n ≡ n
small_word n h = omega arith

count_pmem_ults-some :
    (fuel i size max : ℕ)
    → 0 < max
    → size + max < 2 ^ 64
    → 0 < fuel
    → size < fuel + i
    → (n : ℕ) × (count_pmem_ults fuel i size max ≡ some n)
unfolding count_pmem_ults
count_pmem_ults-some zero i size max p small f h = absurd (omega arith)
count_pmem_ults-some (suc fuel) i size max p small f h = elim (Bool-cases (ltb i size)) [
  | inl more ↦
      let lt = less i size more in
      let (n, e) =
        count_pmem_ults-some fuel (u64 (i + max)) size max p small (omega (arith, lt))
          (omega (arith, lt)) in
      (suc n, rw more (rw e refl))
  | inr over ↦ (0, rw over refl)
]

pub count_pmem_ults-suc :
    (fuel size max : ℕ)
    → 0 < max
    → size + max < 2 ^ 64
    → 0 < size
    → size < fuel
    → (n : ℕ) × (count_pmem_ults fuel 0 size max ≡ some (suc n))
unfolding count_pmem_ults
count_pmem_ults-suc zero size max p small some_bytes h = absurd (omega arith)
count_pmem_ults-suc (suc fuel) size max p small some_bytes h =
    let (n, e) =
      count_pmem_ults-some fuel (u64 (0 + max)) size max p small (omega arith) (omega arith) in
    let more : ltb 0 size ≡ true = ground arith in (n, rw more (rw e refl))

add_zero : (n : ℕ) → n + 0 ≡ n
add_zero n = omega arith

zero_add : (n : ℕ) → 0 + n ≡ n
zero_add n = omega arith

module _ {platform : Platform} (pmem : Pmemobj platform) (sizecheck : Bool) (mem : Memory pmem)
    (ctx : Platform.Context platform) (addr : Platform.Addr platform)
    (bulk : Platform.Bulk platform) (works : Pulls pmem ctx addr bulk) where
  open platform use {World}
  open mem use {byte}

  -- The bytes from `from` up to `to` of a range of memory are those of the remote range, and no other
  -- byte has changed.
  pub record Copied (w w' : World) (ptr offset from to : ℕ) : Type 0 where
    pub inside : (i : ℕ) → from ≤ i → i < to → byte w' (ptr + i) ≡ works.remote (offset + i)
    pub outside : (p : ℕ) → (p < ptr + from) ⊎ (ptr + to ≤ p) → byte w' p ≡ byte w p

  stored-Copied :
      (w : World) (ptr offset from n : ℕ)
      → Copied w
          (pmem.store w (ptr + from) (take n (slice works.remote (offset + from) n)))
          ptr
          offset
          from
          (from + n)
  stored-Copied w ptr offset from n =
      let whole = take-slice works.remote (offset + from) n n (omega arith) in
      let len = length-slice works.remote (offset + from) n in
      rw whole (record {
        inside = λ i low high.
            ap (byte (pmem.store w (ptr + from) (slice works.remote (offset + from) n)))
              (omega arith)
            ∙ mem.store_byte w (ptr + from) (slice works.remote (offset + from) n) (i - from)
                (omega (arith, len))
            ∙ get_or-slice works.remote (offset + from) n (i - from) (omega arith)
            ∙ ap works.remote (omega arith);
        outside = λ p h.
            mem.store_other w (ptr + from) (slice works.remote (offset + from) n) p
              (elim h [ inl before ↦ inl before | inr behind ↦ inr (omega (arith, len)) ]);
      })

  Copied-trans :
      (w w₁ w' : World) (ptr offset from mid to : ℕ)
      → from ≤ mid
      → mid ≤ to
      → Copied w w₁ ptr offset from mid
      → Copied w₁ w' ptr offset mid to
      → Copied w w' ptr offset from to
  Copied-trans w w₁ w' ptr offset from mid to le le' first rest = record {
    inside = λ i low high. elim (Bool-cases (ltb i mid)) [
      | inl early ↦
          rest.outside (ptr + i) (inl (omega (arith, less i mid early)))
          ∙ first.inside i low (less i mid early)
      | inr late ↦ rest.inside i (not_less i mid late) high
    ];
    outside = λ p h. elim h [
      | inl before ↦ rest.outside p (inl (omega arith)) ∙ first.outside p (inl before)
      | inr behind ↦ rest.outside p (inr behind) ∙ first.outside p (inr (omega arith))
    ];
  }

  -- Nothing is left to copy.
  Copied-none : (w : World) (ptr offset from to : ℕ) → to ≤ from → Copied w w ptr offset from to
  Copied-none w ptr offset from to h = record {
    inside = λ i low high. absurd (omega arith);
    outside = λ p k. refl;
  }

  -- The thread takes the next piece.
  abbrev taken : PmemXfer → PmemXfer
  taken x = record x {
    bytes_issued = x.bytes_issued + this_size x;
    bytes_retired = u64 (x.bytes_retired + this_size x);
  }

  pmem_xfer_loop-ok :
      (fuel : ℕ) (w : World) (x : PmemXfer)
      → IsPmemXfer x
      → x.bulk_size - x.bytes_issued < fuel
      → (w' : World) × (pmem_xfer_loop pmem sizecheck fuel w ctx addr bulk x ≡ some (success, w'))
        × Copied w w' x.local_ptr x.remote_offset x.bytes_issued x.bulk_size
  unfolding pmem_xfer_loop
  pmem_xfer_loop-ok zero w x v h = absurd (omega arith)
  pmem_xfer_loop-ok (suc fuel) w x v h = elim (Bool-cases (ltb x.bytes_issued x.bulk_size)) [
    | inl more ↦
        let (positive, fits) = this_size-fits x v (less _ _ more) in
        let n = this_size x in
        let w₁ =
          pmem.store w (x.local_ptr + x.bytes_issued)
            (take n (slice works.remote (x.remote_offset + x.bytes_issued) n)) in
        let (w', ran, rest) =
          pmem_xfer_loop-ok fuel w₁ (taken x)
            (record { issued = fits; local = v.local; remote = v.remote; positive = v.positive })
            (omega arith) in
        let at =
          small_word (x.remote_offset + x.bytes_issued) (omega (arith, v.remote, v.issued)) in
        let to = small_word (x.local_ptr + x.bytes_issued) (omega (arith, v.local, v.issued)) in
        let next = small_word (x.bytes_issued + n) (omega (arith, v.local)) in
        (
          w',
          rw (more, works.pool_ok w n, at)
              (rw (works.pull_ok w (x.remote_offset + x.bytes_issued) n) (rw (to, next) ran)),
          Copied-trans w w₁ w' x.local_ptr x.remote_offset x.bytes_issued (x.bytes_issued + n)
              x.bulk_size (omega arith) fits
              (stored-Copied w x.local_ptr x.remote_offset x.bytes_issued n) rest,
        )
    | inr over ↦ (
      w,
      rw over refl,
      Copied-none w x.local_ptr x.remote_offset x.bytes_issued x.bulk_size (not_less _ _ over),
    )
  ]

  Copied-unique :
      (w a b : World) (ptr offset size : ℕ)
      → Copied w a ptr offset 0 size
      → Copied w b ptr offset 0 size
      → (p : ℕ) → byte a p ≡ byte b p
  Copied-unique w a b ptr offset size left right p = elim (Bool-cases (ltb p ptr)) [
    | inl before ↦
        let out = less p ptr before in
        left.outside p (inl (omega arith)) ∙ sym (right.outside p (inl (omega arith)))
    | inr from ↦ elim (Bool-cases (ltb p (ptr + size))) [
      | inl to ↦
          let low = not_less p ptr from in
          let high = less p (ptr + size) to in
          let here : ptr + (p - ptr) ≡ p = omega (arith, low) in
          let a_i = left.inside (p - ptr) (omega arith) (omega (arith, low, high)) in
          let b_i = right.inside (p - ptr) (omega arith) (omega (arith, low, high)) in
          sym (ap (byte a) here) ∙ a_i ∙ sym b_i ∙ ap (byte b) here
      | inr behind ↦
          let high = not_less p (ptr + size) behind in
          left.outside p (inr high) ∙ sym (right.outside p (inr high))
    ]
  ]

  unpipelined-ok :
      (w : World) (ptr offset size : ℕ)
      → ((unpipelined pmem sizecheck w ptr bulk offset size addr).0 ≡ success)
        × Copied w (unpipelined pmem sizecheck w ptr bulk offset size addr).1 ptr offset 0 size
  unfolding unpipelined
  unpipelined-ok w ptr offset size =
      let stored = stored-Copied w ptr offset 0 size in
      (
        rw (works.create_ok w ptr size) (rw (works.pull_ok w offset size) refl),
        rw (works.create_ok w ptr size) (
            rw (works.pull_ok w offset size)
              (rw (add_zero ptr, add_zero offset, zero_add size) at stored)),
      )

  -- A transfer that works does the same on both paths of `write_transfer_data`: through buffers of the
  -- poolset, or in one piece. Both return success and leave the same bytes in memory, which are those
  -- of the remote range in the region's range, and the old ones elsewhere. The path with buffers comes
  -- to its end, for any size of the buffers but 0, with as much fuel as there are bytes and one more.
  pub pipelined-unpipelined :
      (fuel : ℕ) (w : World) (ptr offset size : ℕ)
      → 0 < size
      → 0 < pmem.poolset_max ctx
      → size + pmem.poolset_max ctx < 2 ^ 64
      → ptr + size < 2 ^ 64
      → offset + size < 2 ^ 64
      → size < fuel
      → (w' : World) × (pipelined pmem sizecheck fuel w ctx ptr bulk offset size addr
          ≡ some (success, w'))
        × ((unpipelined pmem sizecheck w ptr bulk offset size addr).0 ≡ success)
        × ((p : ℕ) → byte w' p ≡ byte (unpipelined pmem sizecheck w ptr bulk offset size addr).1 p)
        × Copied w w' ptr offset 0 size
  unfolding pipelined
  pipelined-unpipelined fuel w ptr offset size some_bytes some_room counts local remote enough =
      let (n, counted) =
        count_pmem_ults-suc fuel size (pmem.poolset_max ctx) some_room counts some_bytes enough in
      let (w', ran, copied) =
        pmem_xfer_loop-ok fuel w
          (record {
            remote_offset = offset;
            bulk_size = size;
            local_ptr = ptr;
            bytes_issued = 0;
            bytes_retired = 0;
            poolset_max_size = pmem.poolset_max ctx;
          })
          (record { issued = omega arith; local = local; remote = remote; positive = some_room })
          (omega arith) in
      let (direct_ok, direct) = unpipelined-ok w ptr offset size in
      (w', rw counted ran, direct_ok, Copied-unique w w' _ ptr offset size copied direct, copied)
