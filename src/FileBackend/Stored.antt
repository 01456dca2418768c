-- ===== src/FileBackend/Stored.antt =====
-- A region from its creation to its first read, src/bake-file-backend.c.
use native.Mathlib.Nat.{mod-eq_of_lt}
use mochi_bake.Prelude.{
  ℕ, ◌+◌, ◌*◌, ◌%◌, ◌^◌, ◌≤◌, ◌<◌, ◌≡◌, refl, ◌∙◌, List, arith, length, take, drop, some,
}
use mochi_bake.ReturnCode.{success}
use mochi_bake.Host.{Host}
use mochi_bake.Host.Disk.{Disk, slice-part}
use mochi_bake.FileBackend.{
  FileRegion, Entry, align_up, reserve, file_create, file_write_raw, file_persist, file_read_raw,
}
use mochi_bake.FileBackend.Align.{align_up-multiple, align_up-lt}
use mochi_bake.FileBackend.Layout.{IsAligned}
use mochi_bake.FileBackend.Create.{sync_log-ok, file_create-ok}
use mochi_bake.FileBackend.Raw.{IsRegion, block_count, file_write_raw-ok}
use mochi_bake.FileBackend.Read.{file_read_raw-ok}

module _ (host : Host) (disk : Disk host) where
  open host use {World}
  open disk use {byte, size}

  -- A write of at most a block, a flush, and a read of any part of it.
  persisted_read :
      (entry : Entry) (w : World) (frid : FileRegion) (bytes : List ℕ) (offset n : ℕ)
      → IsRegion entry.log_alignment frid
      → frid.log_entry_offset + frid.log_entry_size ≤ size w
      → length bytes ≤ frid.log_entry_size
      → length bytes ≤ entry.log_alignment
      → 8 ≤ entry.log_alignment
      → 0 < n
      → offset + n ≤ length bytes
      → let (ret₁, w₁) = file_write_raw host entry w frid 0 (length bytes) bytes in
        let (ret₂, w₂) = file_persist host entry w₁ frid 0 (length bytes) in
        (ret₁ ≡ success)
        × (ret₂ ≡ success)
        × (buf : List ℕ) × (file_read_raw host entry w₂ frid offset n ≡ (success, some (buf, n)))
        × (take n buf ≡ take n (drop offset bytes))
  unfolding file_persist
  persisted_read entry w frid bytes offset n r stored fits small wide positive part =
      let (ret, holds, _, grown) =
        file_write_raw-ok host disk entry w frid r wide bytes fits
          (block_count r.alignment (length bytes) (omega arith) small) (omega arith) small in
      let w₁ = (file_write_raw host entry w frid 0 (length bytes) bytes).1 in
      let (flushed, kept, sized) = sync_log-ok host disk entry w₁ in
      let w₂ = (file_persist host entry w₁ frid 0 (length bytes)).1 in
      let (buf, got, front) =
        file_read_raw-ok host disk entry w₂ frid r offset n (omega arith)
          (omega (arith, sized, grown)) wide positive (omega (arith, offset_small)) in
      (
        ret,
        flushed,
        buf,
        got,
        front
            ∙ slice-part (byte w₂) frid.log_entry_offset bytes offset n
                (λ i h. kept (frid.log_entry_offset + i) ∙ holds i h) part,
      )
    where
      offset_small : offset % entry.log_alignment ≡ offset
      offset_small = mod-eq_of_lt (omega arith)

  file_create-alignment :
      (entry : Entry) (w : World) (n : ℕ)
      → (file_create host entry w n).2.log_alignment ≡ entry.log_alignment
  unfolding file_create reserve
  file_create-alignment entry w n = refl

  module _ (entry : Entry) (w : World) (v : IsAligned entry) (wide : 8 ≤ entry.log_alignment)
      (low : entry.log_alignment ≤ entry.log_offset)
      (room : entry.log_offset + 3 * entry.log_alignment < 2 ^ 63) (bytes : List ℕ)
      (positive : 0 < length bytes) (small : length bytes ≤ entry.log_alignment) where
    rounded : align_up (length bytes) entry.log_alignment < length bytes + entry.log_alignment
    rounded = align_up-lt v.alignment (length bytes) (omega arith)

    created-IsRegion :
        let (_, frid, entry', _) = file_create host entry w (length bytes) in
        IsRegion entry'.log_alignment frid
    created-IsRegion =
        let (_, at, sized, _, _, _, _) =
          file_create-ok host disk entry w v wide low (length bytes) positive (omega arith) in
        rw (file_create-alignment entry w (length bytes)) (record {
          alignment = v.alignment;
          offset_aligned = rw at v.aligned;
          size_aligned = rw sized (align_up-multiple v.alignment (length bytes) (omega arith));
          in_range = omega (arith, at, sized, rounded);
        })

    -- On a disk that works, a region that is created for the bytes of at most one block, written with
    -- them and persisted, reads back as these bytes, in whole or in any part, and all four calls
    -- succeed.
    pub created_read :
        (offset n : ℕ)
        → 0 < n
        → offset + n ≤ length bytes
        → let (ret, frid, entry', w₁) = file_create host entry w (length bytes) in
          let (ret₁, w₂) = file_write_raw host entry' w₁ frid 0 (length bytes) bytes in
          let (ret₂, w₃) = file_persist host entry' w₂ frid 0 (length bytes) in
          (ret ≡ success)
          × (ret₁ ≡ success)
          × (ret₂ ≡ success)
          × (buf : List ℕ) × (file_read_raw host entry' w₃ frid offset n ≡ (success, some (buf, n)))
          × (take n buf ≡ take n (drop offset bytes))
    created_read offset n h part =
        let (ret, at, sized, fits, next, _, grown) =
          file_create-ok host disk entry w v wide low (length bytes) positive (omega arith) in
        let (_, frid, entry', w₁) = file_create host entry w (length bytes) in
        let (written, flushed, buf, got, front) =
          persisted_read entry' w₁ frid bytes offset n created-IsRegion
            (omega (arith, grown, next, at)) fits
            (omega (arith, small, file_create-alignment entry w (length bytes)))
            (omega (arith, wide, file_create-alignment entry w (length bytes))) h part in
        (ret, written, flushed, buf, got, front)
