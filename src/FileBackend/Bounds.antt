-- ===== src/FileBackend/Bounds.antt =====
-- The bounds checks of the file backend, src/bake-file-backend.c.
use mathlib.Core.Logic.{◌≢◌}
use mochi_bake.Prelude.{
  ℕ, ℤ, ◌+◌, ◌^◌, ◌≤◌, ◌<◌, ◌≡◌, refl, ◌⊎◌, inl, inr, ltb, Bool, true, false, none, List, arith,
  Bool-cases, if◌then◌else◌, not, is_zero, is_pos, as_int, some, take, drop, ◌++◌,
}
use mochi_bake.ReturnCode.{success, err_io, err_out_of_bounds}
use mochi_bake.Host.{Host}
use mochi_bake.FileBackend.{
  u64, sub64, align_up, align_down, FileRegion, Entry, file_write_raw, file_read_raw,
}
use mochi_bake.FileBackend.Transfer.{returns, file_write_bulk, file_read_bulk}

-- Behind the check there are no other codes than these.
other_code :
    {B : Type 0} (b c : Bool) (x y z : B) (o : ℤ × B)
    → o ≡ (if b then (err_io, x) else if c then (success, y) else (err_io, z))
    → o.0 ≢ err_out_of_bounds
other_code true c x y z o e h = cc
other_code false true x y z o e h = cc
other_code false false x y z o e h = cc

module _ (host : Host) (entry : Entry) (w : Host.World host) (frid : FileRegion) where
  open host use {memalign, pread, pwrite, World}

  file_read_raw-fits :
      (offset n : ℕ)
      → ltb frid.log_entry_size (u64 (n + offset)) ≡ false
      → (file_read_raw host entry w frid offset n).0 ≢ err_out_of_bounds
  unfolding file_read_raw
  file_read_raw-fits offset n fits =
      let a = entry.log_alignment in
      let start = u64 (frid.log_entry_offset + offset) in
      let first = align_down start a in
      let size = sub64 (align_up (u64 (start + n)) a) first in
      let got = pread w size first in
      other_code (not (is_zero (memalign w a size).0)) (is_pos (as_int got.0) a) none
        (some (drop (sub64 start first) got.1, n)) none (file_read_raw host entry w frid offset n)
        (rw fits refl)

  file_write_raw-fits :
      (n : ℕ) (bytes : List ℕ)
      → ltb frid.log_entry_size (u64 (n + 0)) ≡ false
      → (file_write_raw host entry w frid 0 n bytes).0 ≢ err_out_of_bounds
  unfolding file_write_raw
  file_write_raw-fits n bytes fits =
      let a = entry.log_alignment in
      let bounce = memalign w a (align_up n a) in
      let written =
        pwrite w (take (align_up n a) (take n bytes ++ drop n bounce.1)) frid.log_entry_offset in
      other_code (not (is_zero bounce.0)) (is_pos (as_int written.0) a) w written.1 written.1
        (file_write_raw host entry w frid 0 n bytes) (rw fits refl)

-- Whatever the disk does, the operations that move data refuse the requests that reach beyond the
-- region, as long as offset and size do not wrap: they return BAKE_ERR_OUT_OF_BOUNDS, write nothing,
-- deliver nothing and count nothing. Eager reads and writes return this code for no other request.
-- Writes begin at the offset 0.
pub refused_beyond :
    (host : Host) (fuel : ℕ) (entry : Entry) (w : Host.World host) (frid : FileRegion)
    (offset n m bulk_offset max : ℕ) (bytes : List ℕ)
    → n + offset < 2 ^ 64
    → m < 2 ^ 64
    → (((n + offset ≤ frid.log_entry_size)
          × ((file_read_raw host entry w frid offset n).0 ≢ err_out_of_bounds))
        ⊎ ((frid.log_entry_size < n + offset)
            × (file_read_raw host entry w frid offset n ≡ (err_out_of_bounds, none))))
      × (((m ≤ frid.log_entry_size)
            × ((file_write_raw host entry w frid 0 m bytes).0 ≢ err_out_of_bounds))
          ⊎ ((frid.log_entry_size < m)
              × (file_write_raw host entry w frid 0 m bytes ≡ (err_out_of_bounds, w))))
      × ((n + offset ≤ frid.log_entry_size)
          ⊎ (file_read_bulk host fuel entry w frid offset n bulk_offset max
              ≡ (returns err_out_of_bounds w, 0)))
      × ((m ≤ frid.log_entry_size)
          ⊎ (file_write_bulk host fuel entry w frid 0 m bulk_offset max
              ≡ returns err_out_of_bounds w))
unfolding file_write_raw file_read_raw file_write_bulk file_read_bulk
refused_beyond host fuel entry w frid offset n m bulk_offset max bytes word word' = (
  elim (Bool-cases (ltb frid.log_entry_size (u64 (n + offset)))) [
    | inl over ↦ inr (ground (arith, over), rw over refl)
    | inr fits ↦ inl (ground (arith, fits), file_read_raw-fits host entry w frid offset n fits)
  ],
  elim (Bool-cases (ltb frid.log_entry_size (u64 (m + 0)))) [
    | inl over ↦ inr (ground (arith, over), rw over refl)
    | inr fits ↦ inl (ground (arith, fits), file_write_raw-fits host entry w frid m bytes fits)
  ],
  elim (Bool-cases (ltb frid.log_entry_size (u64 (n + offset)))) [
    | inl over ↦ inr (rw over refl)
    | inr fits ↦ inl (ground (arith, fits))
  ],
  elim (Bool-cases (ltb frid.log_entry_size (u64 (m + 0)))) [
    | inl over ↦ inr (rw over refl)
    | inr fits ↦ inl (ground (arith, fits))
  ],
)
