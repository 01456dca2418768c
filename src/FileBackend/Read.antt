-- ===== src/FileBackend/Read.antt =====
-- What `bake_file_read_raw` delivers from a region, on a disk that works.
use mochi_bake.Prelude.{
  ℕ, ◌+◌, ◌-◌, ◌%◌, ◌≤◌, ◌<◌, ◌≡◌, ap, ◌∙◌, List, arith, take, none, some, ◌==◌, if◌then◌else◌,
}
use mochi_bake.ReturnCode.{success, err_io}
use mochi_bake.Host.{Host}
use mochi_bake.Host.Disk.{Disk, max_count, slice, take-slice}
use mochi_bake.FileBackend.{FileRegion, Entry, align_up, align_down, file_read_raw}
use mochi_bake.FileBackend.Align.{
  IsAlignment-pos, IsAlignment-le, align_up-lt, le-align_up, align_up-block, align_down-block,
  add_mod-mod, sub_mod-mod,
}
use mochi_bake.FileBackend.Raw.{IsRegion, rounding_fits, file_read_raw-eq}

module _ (host : Host) (disk : Disk host) where
  open host use {World}
  open disk use {byte, size}

  -- A range of a region, and the block in which it begins.
  module _ (entry : Entry) (w : World) (frid : FileRegion) (r : IsRegion entry.log_alignment frid)
      (offset n : ℕ) (in_region : offset + n ≤ frid.log_entry_size)
      (stored : frid.log_entry_offset + frid.log_entry_size ≤ size w)
      (wide : 8 ≤ entry.log_alignment) where
    open entry use {log_alignment}
    open frid use {log_entry_offset, log_entry_size}

    block : ℕ
    block = log_entry_offset + (offset - offset % log_alignment)

    block-multiple : block % log_alignment ≡ 0
    unfolding block
    block-multiple =
        add_mod-mod log_alignment log_entry_offset (offset - offset % log_alignment)
          (IsAlignment-pos r.alignment) r.offset_aligned (sub_mod-mod offset log_alignment)

    start : log_entry_offset + offset ≡ block + offset % log_alignment
    unfolding block
    start = omega arith

    last_stored : align_up (log_entry_offset + offset + n) log_alignment ≤ size w
    last_stored = omega (
      arith,
      rounding_fits r.alignment (log_entry_offset + offset + n) (log_entry_offset + log_entry_size)
          (omega (arith, r.in_range)) (omega arith)
          (add_mod-mod log_alignment log_entry_offset log_entry_size (IsAlignment-pos r.alignment)
            r.offset_aligned r.size_aligned),
    )

    read_extent :
        (align_up (log_entry_offset + offset + n) log_alignment
            - align_down (log_entry_offset + offset) log_alignment
          ≤ max_count)
        → file_read_raw host entry w frid offset n ≡ (
            if align_up (log_entry_offset + offset + n) log_alignment
                - align_down (log_entry_offset + offset) log_alignment
              == log_alignment
            then (
              success,
              some (
                slice (byte w) (log_entry_offset + offset) (
                    align_up (log_entry_offset + offset + n) log_alignment
                    - (log_entry_offset + offset)),
                n,
              ),
            )
            else (err_io, none))
    read_extent counted =
        file_read_raw-eq host disk entry w frid r.alignment offset n (log_entry_offset + offset)
          (omega (arith, r.in_range)) (omega (arith, r.in_range)) (omega (arith, r.in_range))
          last_stored wide counted

    first-eq : align_down (log_entry_offset + offset) log_alignment ≡ block
    first-eq =
        ap (λ (t : ℕ). align_down t log_alignment) start
        ∙ align_down-block r.alignment block (offset % log_alignment)
            (omega (arith, start, r.in_range)) block-multiple
            (omega (arith, IsAlignment-pos r.alignment))

    last-eq :
        0 < n
        → offset % log_alignment + n ≤ log_alignment
        → align_up (log_entry_offset + offset + n) log_alignment ≡ block + log_alignment
    last-eq positive one =
        ap (λ (t : ℕ). align_up t log_alignment) (omega (arith, start))
        ∙ align_up-block r.alignment block (offset % log_alignment + n)
            (omega (arith, start, r.in_range)) block-multiple (omega arith) one

    -- A read that stays in one block succeeds with the size asked for, and the buffer begins with
    -- the bytes of that range of the region.
    pub file_read_raw-ok :
        0 < n
        → offset % log_alignment + n ≤ log_alignment
        → (buf : List ℕ) × (file_read_raw host entry w frid offset n ≡ (success, some (buf, n)))
          × (take n buf ≡ slice (byte w) (log_entry_offset + offset) n)
    file_read_raw-ok positive one =
        let s = log_entry_offset + offset in
        let n' = align_up (s + n) log_alignment - s in
        let counted : align_up (log_entry_offset + offset + n) log_alignment
              - align_down (log_entry_offset + offset) log_alignment
            ≤ max_count =
          omega (arith, first-eq, last-eq positive one, IsAlignment-le r.alignment) in
        (
          slice (byte w) s n',
          rw (read_extent counted, first-eq, last-eq positive one)
              (ground (arith, IsAlignment-pos r.alignment)),
          take-slice (byte w) s n n'
              (omega (arith, le-align_up r.alignment (s + n) (omega (arith, r.in_range)))),
        )

    -- A read that crosses a block boundary fails with an I/O error, though it lies in the region and
    -- the disk delivers all of it, which a single call can transfer, and the alignment is at least the
    -- size of a pointer: the count that `pread` returns is compared with the alignment.
    pub file_read_raw-across :
        log_alignment < offset % log_alignment + n
        → n + log_alignment + log_alignment ≤ max_count
        → file_read_raw host entry w frid offset n ≡ (err_io, none)
    file_read_raw-across across counted =
        let up =
          le-align_up r.alignment (log_entry_offset + offset + n) (omega (arith, r.in_range)) in
        let below =
          align_up-lt r.alignment (log_entry_offset + offset + n) (omega (arith, r.in_range)) in
        let few : align_up (log_entry_offset + offset + n) log_alignment
              - align_down (log_entry_offset + offset) log_alignment
            ≤ max_count =
          omega (arith, first-eq, below, start, counted, IsAlignment-pos r.alignment) in
        rw (read_extent few, first-eq) (ground (arith, up, start))
