-- ===== src/FileBackend/Transfer/Setup.antt =====
-- What `transfer_data` of src/bake-file-backend.c hands to its threads, and when it has none.
use native.Mathlib.Decide.{dec_lt}
use mochi_bake.Prelude.{ℕ, zero, suc, ◌+◌, ◌-◌, ◌%◌, ◌^◌, ◌≤◌, ◌<◌, ◌≡◌, refl, ap, ◌∙◌, inl, arith}
use mochi_bake.Host.{Host}
use mochi_bake.FileBackend.{u64, sub64, FileRegion, Entry, align_up, align_down}
use mochi_bake.FileBackend.Align.{
  IsAlignment, IsAlignment-pos, le-align_up, align_up-lt, align_up_self, align_down-eq,
  align_up-multiple, multiples_apart, sub_mod-mod, add_mod-mod,
}
use mochi_bake.FileBackend.Raw.{IsRegion, rounding_fits}
use mochi_bake.FileBackend.Transfer.{
  Op, Xfer, start_xfer, count_ults, waits_forever, run_xfer, transfer_data,
}
use mochi_bake.FileBackend.Transfer.Crew.Complete.{IsFresh}

module _ (entry : Entry) (frid : FileRegion) (r : IsRegion entry.log_alignment frid)
    (region_offset skip bulk_size max : ℕ) (op : Op)
    (inside : region_offset + bulk_size ≤ frid.log_entry_size) (skipped : skip < bulk_size) where
  open entry use {log_alignment as a}

  s : ℕ
  s = frid.log_entry_offset + region_offset

  positive : 0 < a
  positive = IsAlignment-pos r.alignment

  below : s % a < a
  below = omega (arith, positive)

  le : s % a ≤ s
  le = grind arith

  s-le : frid.log_entry_offset ≤ s
  unfolding s
  s-le = omega arith

  within : s + (bulk_size - skip) ≤ frid.log_entry_offset + frid.log_entry_size
  unfolding s
  within = omega arith

  x : Xfer
  x = start_xfer entry frid region_offset skip bulk_size max op

  start-eq : x.log_entry_offset ≡ s - s % a
  unfolding x s start_xfer
  start-eq =
      ap (λ (t : ℕ). align_down t a) (omega (arith, r.in_range))
      ∙ align_down-eq r.alignment s (omega (arith, r.in_range))

  small_end : s + (bulk_size - skip) + a ≤ 2 ^ 64
  unfolding s
  small_end = omega (arith, r.in_range)

  rounded_end :
      (sub64 (u64 (u64 (frid.log_entry_offset + region_offset) + bulk_size)) skip)
      ≡ s + (bulk_size - skip)
  unfolding s
  rounded_end = omega (arith, r.in_range)

  size-eq : x.log_entry_size ≡ align_up (s + (bulk_size - skip)) a - (s - s % a)
  unfolding x start_xfer
  size-eq =
      ap (λ (t : ℕ). sub64 (align_up t a) x.log_entry_offset) rounded_end
      ∙ ap (λ (t : ℕ). sub64 (align_up (s + (bulk_size - skip)) a) t) start-eq
      ∙ omega (
        arith,
        small_end,
        le-align_up r.alignment (s + (bulk_size - skip)) small_end,
        align_up-lt r.alignment (s + (bulk_size - skip)) small_end,
      )

  transmit-eq : x.transmit_size ≡ bulk_size - skip
  unfolding x start_xfer
  transmit-eq = omega (arith, r.in_range)

  -- The rest of the block in which the range begins.
  skip-eq : x.transmit_offset_in_log ≡ s % a
  unfolding x start_xfer s
  skip-eq =
      ap (λ (t : ℕ). sub64 (u64 (frid.log_entry_offset + region_offset)) t) start-eq
      ∙ omega (arith, r.in_range, below, le)

  first : frid.log_entry_offset ≤ s - s % a
  first = elim (dec_lt (s - s % a) frid.log_entry_offset) [
    | yes p ↦ absurd (
        omega (
          arith,
          multiples_apart a (s - s % a) frid.log_entry_offset positive (sub_mod-mod s a)
              r.offset_aligned p,
          below,
          s-le,
        ))
    | no p ↦ omega arith
  ]

  last : align_up (s + (bulk_size - skip)) a ≤ frid.log_entry_offset + frid.log_entry_size
  last =
      rounding_fits r.alignment (s + (bulk_size - skip))
        (frid.log_entry_offset + frid.log_entry_size) (omega (arith, r.in_range)) within
        (add_mod-mod a frid.log_entry_offset frid.log_entry_size positive r.offset_aligned
          r.size_aligned)

  -- From the start of the region nothing is skipped.
  pub start_xfer-front :
      region_offset ≡ 0
      → let x = start_xfer entry frid region_offset skip bulk_size max op in
        (x.transmit_offset_in_log ≡ 0) × (x.log_entry_offset ≡ frid.log_entry_offset)
  unfolding x s
  start_xfer-front h =
      let whole : s % a ≡ 0 = ap (λ (t : ℕ). t % a) (omega arith) ∙ r.offset_aligned in
      (skip-eq ∙ whole, omega (arith, start-eq, whole))

  -- A bulk request for a range in a region, with a buffer of at least a block and an offset in the
  -- caller's memory below the size of the request, makes a transfer that has not begun. Its log extent
  -- lies in the region and is the whole blocks around the bytes that are moved: it begins and ends at
  -- multiples of the alignment, the bytes begin in its first block, where the request says, and end in
  -- its last. The range of the caller's memory begins at the given offset there, and is shorter by that
  -- offset than the request.
  pub start_xfer-IsFresh :
      a ≤ max
      → max < 2 ^ 63
      → let x = start_xfer entry frid region_offset skip bulk_size max op in
        IsFresh x
        × (frid.log_entry_offset ≤ x.log_entry_offset)
        × (x.log_entry_offset + x.log_entry_size ≤ frid.log_entry_offset + frid.log_entry_size)
        × (x.remote_offset ≡ skip)
        × (x.transmit_size ≡ bulk_size - skip)
        × (x.log_entry_offset % a ≡ 0)
        × ((x.log_entry_offset + x.log_entry_size) % a ≡ 0)
        × (x.log_entry_offset + x.transmit_offset_in_log ≡ frid.log_entry_offset + region_offset)
        × (x.transmit_offset_in_log < a)
        × (x.log_entry_size < x.transmit_offset_in_log + (bulk_size - skip) + a)
  unfolding x start_xfer s
  start_xfer-IsFresh big word =
      let end : x.log_entry_offset + x.log_entry_size ≡ align_up (s + (bulk_size - skip)) a =
        omega (
          arith,
          start-eq,
          size-eq,
          le-align_up r.alignment (s + (bulk_size - skip)) small_end,
          le,
        ) in
      (
        record {
          valid = record {
            nonempty = omega (arith, transmit-eq);
            log_in_range = omega (arith, end, last, r.in_range);
            remote_in_range = omega (arith, transmit-eq, r.in_range);
            contained = omega (
              arith,
              transmit-eq,
              skip-eq,
              size-eq,
              le-align_up r.alignment (s + (bulk_size - skip)) small_end,
              le,
            );
            first_chunk = omega (arith, skip-eq, below);
            pool_in_range = word;
            issued_le = omega arith;
            skipped = inl refl;
            issued = omega arith;
          };
          not_issued = refl;
          not_retired = refl;
        },
        omega (arith, start-eq, first),
        omega (arith, end, last),
        refl,
        transmit-eq,
        ap (λ (t : ℕ). t % a) start-eq ∙ sub_mod-mod s a,
        ap (λ (t : ℕ). t % a) end
            ∙ align_up-multiple r.alignment (s + (bulk_size - skip)) small_end,
        omega (arith, start-eq, skip-eq, le),
        omega (arith, skip-eq, below),
        omega (
          arith,
          size-eq,
          skip-eq,
          le,
          align_up-lt r.alignment (s + (bulk_size - skip)) small_end,
        ),
      )

empty_extent :
    {a : ℕ} (al : IsAlignment a) (o : ℕ)
    → o % a ≡ 0
    → o + a < 2 ^ 63
    → sub64 (align_up (sub64 (u64 (u64 (o + 0) + 0)) 0) a) (align_down (u64 (o + 0)) a) ≡ 0
empty_extent {a} al o m h =
    let up : align_up (sub64 (u64 (u64 (o + 0) + 0)) 0) a ≡ o =
      ap (λ (t : ℕ). align_up t a) (omega arith) ∙ align_up_self al o (omega arith) m in
    let down : align_down (u64 (o + 0)) a ≡ o =
      ap (λ (t : ℕ). align_down t a) (omega arith)
      ∙ align_down-eq al o (omega arith)
      ∙ omega (arith, m) in
    omega (arith, up, down)

-- A bulk request for no bytes at the start of a region makes no thread, and then waits for ever for one
-- to set the eventual.
pub transfer_data-empty :
    (host : Host) (fuel : ℕ) (entry : Entry) (w : Host.World host) (frid : FileRegion) (max : ℕ)
    (op : Op)
    → IsRegion entry.log_alignment frid
    → 0 < fuel
    → transfer_data host fuel entry w frid 0 0 0 max op ≡ waits_forever
unfolding transfer_data start_xfer run_xfer count_ults
transfer_data-empty host zero entry w frid max op r h = elim h [ ]
transfer_data-empty host (suc fuel) entry w frid max op r h =
    rw (empty_extent r.alignment frid.log_entry_offset r.offset_aligned (omega (arith, r.in_range)))
      (ground arith)
