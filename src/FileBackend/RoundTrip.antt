-- ===== src/FileBackend/RoundTrip.antt =====
-- Eager writes and reads of a region together, and the reads that the bounds check lets out of it.
use native.Mathlib.Nat.{mod-eq_of_lt, mod-eq-sub-mod}
use mochi_bake.Prelude.{
  ℕ, ◌+◌, ◌-◌, ◌%◌, ◌^◌, ◌≤◌, ◌<◌, ◌≡◌, sym, ap, ◌∙◌, List, arith, length, take, drop, some,
}
use mochi_bake.ReturnCode.{success}
use mochi_bake.Host.{Host}
use mochi_bake.Host.Disk.{Disk, slice, slice-part, take-slice}
use mochi_bake.FileBackend.{FileRegion, Entry, align_up, align_down, file_write_raw, file_read_raw}
use mochi_bake.FileBackend.Align.{
  IsAlignment-pos, IsAlignment-le, align_up_self, align_down-block, multiples_apart,
}
use mochi_bake.FileBackend.Raw.{IsRegion, block_count, file_write_raw-ok, file_read_raw-eq}
use mochi_bake.FileBackend.Read.{file_read_raw-ok}

module _ (host : Host) (disk : Disk host) where
  open host use {World}
  open disk use {byte, size}

  -- For an alignment of at least the size of a pointer, what an eager write of at most one block stored
  -- is what an eager read of any part of it
  -- delivers.
  pub file_read_raw-file_write_raw :
      (entry : Entry) (w : World) (frid : FileRegion) (bytes : List ℕ) (offset n : ℕ)
      → IsRegion entry.log_alignment frid
      → frid.log_entry_offset + frid.log_entry_size ≤ size w
      → length bytes ≤ frid.log_entry_size
      → length bytes ≤ entry.log_alignment
      → 8 ≤ entry.log_alignment
      → 0 < n
      → offset + n ≤ length bytes
      → let (ret, w') = file_write_raw host entry w frid 0 (length bytes) bytes in
        (ret ≡ success)
        × (buf : List ℕ) × (file_read_raw host entry w' frid offset n ≡ (success, some (buf, n)))
        × (take n buf ≡ take n (drop offset bytes))
  file_read_raw-file_write_raw entry w frid bytes offset n r stored fits small wide positive part =
      let (ret, holds, _, grown) =
        file_write_raw-ok host disk entry w frid r wide bytes fits
          (block_count r.alignment (length bytes) (omega arith) small) (omega arith) small in
      let w' = (file_write_raw host entry w frid 0 (length bytes) bytes).1 in
      let (buf, got, front) =
        file_read_raw-ok host disk entry w' frid r offset n (omega arith) (omega arith) wide
          positive (omega (arith, offset_small)) in
      (ret, buf, got, front ∙ slice-part (byte w') frid.log_entry_offset bytes offset n holds part)
    where
      offset_small : offset % entry.log_alignment ≡ offset
      offset_small = mod-eq_of_lt (omega arith)

  -- The bounds check of `bake_file_read_raw` adds in 64 bits and can be passed from outside: a read
  -- of `n` bytes at the offset `2 ^ 64 - n` succeeds with the `n` bytes before the region, which
  -- belong to another region or to the superblock.
  file_read_raw-before :
      (entry : Entry) (w : World) (frid : FileRegion) (n : ℕ)
      → IsRegion entry.log_alignment frid
      → frid.log_entry_offset ≤ size w
      → 8 ≤ entry.log_alignment
      → 0 < n
      → n ≤ entry.log_alignment
      → n ≤ frid.log_entry_offset
      → (buf : List ℕ) × (file_read_raw host entry w frid (2 ^ 64 - n) n ≡ (success, some (buf, n)))
        × (take n buf ≡ slice (byte w) (frid.log_entry_offset - n) n)
  file_read_raw-before entry w frid n r stored wide positive small above = (
    slice (byte w) s (o - s),
    file_read_raw-eq host disk entry w frid r.alignment (2 ^ 64 - n) n s (omega (arith, r.in_range))
          (omega (arith, small_align)) (omega (arith, r.in_range)) (omega (arith, last)) wide
          (omega (arith, last, first, block, IsAlignment-le r.alignment))
        ∙ rw (last, first) (ground (arith, block)),
    take-slice (byte w) s n (o - s) (omega arith),
  )
    where
      open entry use {log_alignment as a}
      open frid use {log_entry_offset as o}

      s : ℕ
      s = o - n

      small_align : a < 2 ^ 31
      small_align = r.alignment.small

      block : a ≤ o
      block = omega (
        arith,
        multiples_apart a 0 o (IsAlignment-pos r.alignment) (omega arith) r.offset_aligned
            (omega arith),
      )

      last : align_up (s + n) a ≡ o
      last =
          ap (λ (t : ℕ). align_up t a) (omega arith)
          ∙ align_up_self r.alignment o (omega (arith, r.in_range)) r.offset_aligned

      first : align_down s a ≡ o - a
      first =
          ap (λ (t : ℕ). align_down t a) (omega (arith, block))
          ∙ align_down-block r.alignment (o - a) (a - n) (omega (arith, r.in_range))
              (sym (mod-eq-sub-mod block) ∙ r.offset_aligned) (omega arith)
