-- ===== src/FileBackend/Transfer/Written.antt =====
-- What a bulk write of src/bake-file-backend.c leaves on a disk that works, when one thread does it.
use native.Mathlib.Decide.{dec_lt}
use mochi_bake.Prelude.{
  ℕ, zero, suc, ◌+◌, ◌-◌, ◌^◌, ◌≤◌, ◌<◌, ◌≡◌, refl, ap, ◌∙◌, ◌⊎◌, inl, ℤ, true, false, Option, none,
  some, List, ◌++◌, arith, length, get_or, take, drop, length-take, length-append, length-drop,
  as_int-small, get_or-take, get_or-append_left,
}
use mochi_bake.ReturnCode.{success}
use mochi_bake.Host.{Host}
use mochi_bake.Host.Disk.{Disk, max_count, slice, length-slice}
use mochi_bake.Host.Remote.{Remote}
use mochi_bake.FileBackend.{u64}
use mochi_bake.FileBackend.Transfer.{
  Op, write, Xfer, Chunk, has_work, take_chunk, transfer_chunk, xfer_loop,
}
use mochi_bake.FileBackend.Transfer.Chunks.{
  IsXfer, take_chunk-lem, take_chunk-IsXfer, IsXfer-status,
}

get_or-slice : (f : ℕ → ℕ) (o n i : ℕ) → i < n → get_or (slice f o n) i 0 ≡ f (o + i)
get_or-slice f o zero i h = absurd (omega arith)
get_or-slice f o (suc n) zero h = ap f (omega arith)
get_or-slice f o (suc n) (suc i) h = get_or-slice f (o + 1) n i (omega arith) ∙ ap f (omega arith)

module _ (host : Host) (disk : Disk host) (remote : Remote host) where
  open host use {World, pwrite, poolset_get}
  open disk use {byte}
  open remote use {memory}

  module _ (w : World) (c : Chunk) (fits : c.transmit_size ≤ c.log_size)
      (low : c.log_offset + c.log_size < 2 ^ 63) (few : c.log_size < 2 ^ 30) where
    -- The buffer that is written: what was pulled, and what the buffer held behind it.
    buffer : List ℕ
    buffer = take c.log_size (
        take c.transmit_size (slice (memory w) c.remote_offset c.transmit_size)
        ++ drop c.transmit_size (poolset_get w c.log_size).1)

    length-buffer : length buffer ≡ c.log_size
    unfolding buffer
    length-buffer =
        let pool = (poolset_get w c.log_size).1 in
        let range = slice (memory w) c.remote_offset c.transmit_size in
        omega (
          arith,
          length-take c.log_size (take c.transmit_size range ++ drop c.transmit_size pool),
          length-append (take c.transmit_size range) (drop c.transmit_size pool),
          length-take c.transmit_size range,
          length-slice (memory w) c.remote_offset c.transmit_size,
          length-drop c.transmit_size pool,
          remote.pool_length w c.log_size,
        )

    buffer-front :
        (i : ℕ) → i < c.transmit_size → get_or buffer i 0 ≡ memory w (c.remote_offset + i)
    unfolding buffer
    buffer-front i h =
        let pool = (poolset_get w c.log_size).1 in
        let range = slice (memory w) c.remote_offset c.transmit_size in
        get_or-take c.log_size (take c.transmit_size range ++ drop c.transmit_size pool) i 0
          (omega arith)
        ∙ get_or-append_left (take c.transmit_size range) (drop c.transmit_size pool) i 0 (
            omega (
              arith,
              length-take c.transmit_size range,
              length-slice (memory w) c.remote_offset c.transmit_size,
            ))
        ∙ get_or-take c.transmit_size range i 0 h
        ∙ get_or-slice (memory w) c.remote_offset c.transmit_size i h

    in_log : c.log_offset + length buffer < 2 ^ 63
    in_log = omega (arith, length-buffer)

    counted : length buffer ≤ max_count
    counted = omega (arith, length-buffer)

    transfer_chunk-writes : transfer_chunk host write w c ≡ (none, (pwrite w buffer c.log_offset).1)
    unfolding transfer_chunk buffer
    transfer_chunk-writes =
        rw (remote.pool_ok w c.log_size, remote.pull_ok w c.remote_offset c.transmit_size)
          (rw
            (
              disk.pwrite_ret w buffer c.log_offset counted in_log,
              length-buffer,
              as_int-small c.log_size (omega arith),
            )
            (ground arith))

    chunk_byte :
        (i : ℕ)
        → i < c.transmit_size
        → byte (pwrite w buffer c.log_offset).1 (c.log_offset + i) ≡ memory w (c.remote_offset + i)
    chunk_byte i h =
        disk.pwrite_byte w buffer c.log_offset i counted in_log (omega (arith, length-buffer))
        ∙ buffer-front i h

    chunk_other :
        (p : ℕ)
        → (p < c.log_offset) ⊎ (c.log_offset + c.log_size ≤ p)
        → byte (pwrite w buffer c.log_offset).1 p ≡ byte w p
    chunk_other p h =
        disk.pwrite_other w buffer c.log_offset p counted in_log (ground (arith, length-buffer, h))

  -- From any round of the loop on: the loop ends with the code 0, what was still to be transmitted
  -- stands in the log, and what was written before, or lies outside the extent, is unchanged.
  pub record Wrote (w : World) (x : Xfer) (w' : World) (x' : Xfer) : Type 0 where
    pub code : x'.ret ≡ success
    pub bytes :
        (i : ℕ)
        → x.transmit_issued ≤ i
        → i < x.transmit_size
        → byte w' (x.log_entry_offset + i) ≡ memory w (x.remote_offset + i)
    pub others :
        (p : ℕ)
        → (p < x.log_entry_offset + x.log_issued) ⊎ (x.log_entry_offset + x.log_entry_size ≤ p)
        → byte w' p ≡ byte w p

  loop_stops :
      (fuel : ℕ) (w : World) (x : Xfer)
      → has_work x ≡ false
      → xfer_loop host (suc fuel) w x ≡ some (w, x)
  unfolding xfer_loop
  loop_stops fuel w x h = rw (xfer_loop, h) refl

  -- The state when a chunk is done.
  after_chunk : Xfer → Xfer
  after_chunk x =
      let (c, x₁) = take_chunk x in record x₁ { log_retired = u64 (x₁.log_retired + c.log_size) }

  loop_goes_on :
      (fuel : ℕ) (w w₁ : World) (x : Xfer)
      → has_work x ≡ true
      → transfer_chunk host x.op w (take_chunk x).0 ≡ (none, w₁)
      → xfer_loop host (suc fuel) w x ≡ xfer_loop host fuel w₁ (after_chunk x)
  unfolding xfer_loop after_chunk take_chunk
  loop_goes_on fuel w w₁ x h e =
      rw (xfer_loop, h)
        (rw e (
          ap (λ (t : World). xfer_loop host fuel t (after_chunk x))
            (ap (λ (r : Option ℤ × World). r.1) e)))

  after_chunk-IsXfer :
      (x : Xfer) → IsXfer x → x.log_issued < x.log_entry_size → IsXfer (after_chunk x)
  unfolding after_chunk
  after_chunk-IsXfer x v work =
      let x₁ = (take_chunk x).1 in
      IsXfer-status x₁ _ x₁.ret x₁.ults_active (take_chunk-IsXfer x v work)

  after_chunk_kept :
      (x : Xfer)
      → let x₂ = after_chunk x in
        (x₂.op ≡ x.op)
        × (x₂.ret ≡ x.ret)
        × (x₂.transmit_offset_in_log ≡ x.transmit_offset_in_log)
        × (x₂.log_entry_offset ≡ x.log_entry_offset)
        × (x₂.log_entry_size ≡ x.log_entry_size)
        × (x₂.remote_offset ≡ x.remote_offset)
        × (x₂.transmit_size ≡ x.transmit_size)
        × (x₂.log_issued ≡ (take_chunk x).1.log_issued)
        × (x₂.transmit_issued ≡ (take_chunk x).1.transmit_issued)
        × (x₂.poolset_max_size ≡ x.poolset_max_size)
  unfolding after_chunk take_chunk
  after_chunk_kept x = (refl, refl, refl, refl, refl, refl, refl, refl, refl, refl)

  working : (x : Xfer) → x.ret ≡ success → x.log_issued < x.log_entry_size → has_work x ≡ true
  working x z h = rw z (ground arith)

  idle : (x : Xfer) → ¬ x.log_issued < x.log_entry_size → has_work x ≡ false
  idle x h = ground arith

  -- One chunk before the rest of the loop.
  Wrote-step :
      (w : World) (x : Xfer) (w' : World) (x' : Xfer) (v : IsXfer x)
      (start : x.transmit_offset_in_log ≡ 0) (work : x.log_issued < x.log_entry_size)
      (fits : (take_chunk x).0.transmit_size ≤ (take_chunk x).0.log_size)
      (low : (take_chunk x).0.log_offset + (take_chunk x).0.log_size < 2 ^ 63)
      (few : (take_chunk x).0.log_size < 2 ^ 30)
      → Wrote
          (pwrite w (buffer w (take_chunk x).0 fits low few) (take_chunk x).0.log_offset).1
          (after_chunk x)
          w'
          x'
      → Wrote w x w' x'
  Wrote-step w x w' x' v start work fits low few rest =
      let c = (take_chunk x).0 in
      let x₂ = after_chunk x in
      let (at, _, _, issued, from, sent, _, _) = take_chunk-lem x v work in
      let (_, _, k₂, k₃, k₄, k₅, k₆, k₇, k₈, _) = after_chunk_kept x in
      let v₂ = after_chunk-IsXfer x v work in
      record {
        code = rest.code;
        bytes = λ i a b. elim (dec_lt i x₂.transmit_issued) [
          | yes now ↦
              ap (byte w') (omega (arith, v.issued, start, a, at))
              ∙ rest.others (c.log_offset + (i - x.transmit_issued)) (
                  inl (
                    omega
                      (arith, v.issued, v₂.issued, start, k₂, k₃, k₇, k₈, at, a, b, issued, sent)))
              ∙ chunk_byte w c fits low few (i - x.transmit_issued)
                  (omega (arith, k₈, sent, a, now))
              ∙ ap (memory w) (omega (arith, from, a))
          | no later ↦
              ap (byte w') (omega (arith, k₃))
              ∙ rest.bytes i (omega arith) (omega (arith, k₆, b))
              ∙ remote.memory-pwrite w (buffer w c fits low few) c.log_offset (x₂.remote_offset + i)
              ∙ ap (memory w) (omega (arith, k₅))
        ];
        others = λ p q.
            rest.others p (ground (arith, k₃, k₄, k₇, issued, q))
            ∙ chunk_other w c fits low few p
                (ground (arith, k₃, k₄, k₇, issued, at, v₂.issued_le, q));
      }

  pub xfer_loop-Wrote :
      (fuel : ℕ) (w : World) (x : Xfer)
      → IsXfer x
      → x.op ≡ write
      → x.ret ≡ success
      → x.transmit_offset_in_log ≡ 0
      → x.log_entry_size < x.log_issued + fuel
      → x.log_entry_size + x.poolset_max_size < 2 ^ 31
      → (w' : World) × (x' : Xfer) × (xfer_loop host fuel w x ≡ some (w', x')) × Wrote w x w' x'
  xfer_loop-Wrote zero w x v o z start h small = absurd (omega (arith, v.issued_le))
  xfer_loop-Wrote (suc fuel) w x v o z start h small = elim (dec_lt x.log_issued x.log_entry_size) [
    | no done ↦ (
      w,
      x,
      loop_stops fuel w x (idle x done),
      record {
        code = z;
        bytes = λ i a b. absurd (omega (arith, v.issued, v.contained));
        others = λ p q. refl;
      },
    )
    | yes work ↦
        let c = (take_chunk x).0 in
        let (at, positive, pooled, issued, _, _, fits, _) = take_chunk-lem x v work in
        let (k₀, k₁, k₂, k₃, k₄, k₅, k₆, k₇, k₈, k₉) = after_chunk_kept x in
        let v₂ = after_chunk-IsXfer x v work in
        let within : c.transmit_size ≤ c.log_size = omega (arith, fits) in
        let low : c.log_offset + c.log_size < 2 ^ 63 =
          omega (arith, at, issued, k₇, k₄, v₂.issued_le, v.log_in_range) in
        let few : c.log_size < 2 ^ 30 =
          omega (arith, pooled, issued, k₇, k₄, v₂.issued_le, small) in
        let w₁ = (pwrite w (buffer w c within low few) c.log_offset).1 in
        let (w', x', runs, wrote) =
          xfer_loop-Wrote fuel w₁ (after_chunk x) v₂ (k₀ ∙ o) (k₁ ∙ z) (k₂ ∙ start)
            (omega (arith, k₄, k₇, issued, positive)) (omega (arith, k₄, k₉, small)) in
        (
          w',
          x',
          loop_goes_on fuel w w₁ x (working x z work) (
                ap (λ (t : Op). transfer_chunk host t w c) o
                ∙ transfer_chunk-writes w c within low few)
              ∙ runs,
          Wrote-step w x w' x' v start work within low few wrote,
        )
  ]
