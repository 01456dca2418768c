-- ===== src/FileBackend/Create.antt =====
-- What `bake_file_create` leaves on a disk that works.
use mochi_bake.Prelude.{
  ℕ, ◌+◌, ◌-◌, ◌^◌, ◌≤◌, ◌<◌, ◌≡◌, refl, ap, ◌∙◌, inl, inr, List, arith, max, length, take, get_or,
  length-take, get_or-take, as_int-small, ◌⊎◌, Bool-cases,
}
use mochi_bake.ReturnCode.{success}
use mochi_bake.Host.{Host}
use mochi_bake.Host.Disk.{Disk, max_count}
use mochi_bake.FileBackend.{u64, sub64, Entry, align_up, reserve, sync_log, extend_log, file_create}
use mochi_bake.FileBackend.Align.{
  IsAlignment, IsAlignment-pos, IsAlignment-le, le-align_up, align_up-lt, align_up-multiple,
  align_up_self, multiples_apart,
}
use mochi_bake.FileBackend.Layout.{IsAligned, reserve-log_offset}

module _ (host : Host) (disk : Disk host) where
  open host use {World, memalign, pwrite, fdatasync}
  open disk use {byte, size}

  -- `fdatasync` changes nothing that can be read.
  pub sync_log-ok :
      (entry : Entry) (w : World)
      → ((sync_log host entry w).0 ≡ success)
        × ((p : ℕ) → byte (sync_log host entry w).1 p ≡ byte w p)
        × (size (sync_log host entry w).1 ≡ size w)
  unfolding sync_log
  sync_log-ok entry w = elim (Bool-cases entry.sync) [
    | inl on ↦ rw (on, disk.sync_ret w) (refl, disk.sync_byte w, disk.sync_size w)
    | inr off ↦ rw off (refl, λ p. refl, refl)
  ]

  module _ (entry : Entry) (w : World) (al : IsAlignment entry.log_alignment)
      (low : entry.log_alignment ≤ entry.log_offset) (high : entry.log_offset < 2 ^ 63)
      (wide : 8 ≤ entry.log_alignment) where
    open entry use {log_offset, log_alignment}

    block : List ℕ
    block = take log_alignment (memalign w log_alignment log_alignment).1

    length-block : length block ≡ log_alignment
    unfolding block
    length-block = omega (
      arith,
      length-take log_alignment (memalign w log_alignment log_alignment).1,
      disk.memalign_length w log_alignment log_alignment,
    )

    last_block : sub64 log_offset log_alignment ≡ log_offset - log_alignment
    last_block = omega arith

    below_max : log_offset - log_alignment + length block < 2 ^ 63
    below_max = omega (arith, length-block)

    counted : length block ≤ max_count
    counted = omega (arith, length-block, IsAlignment-le al)

    extend_log-writes :
        extend_log host entry w
        ≡ sync_log host entry (pwrite w block (log_offset - log_alignment)).1
    unfolding extend_log block
    extend_log-writes =
        rw
          (
            disk.memalign_ok w log_alignment al.k log_alignment al.log2 wide al.small al.small,
            last_block,
            disk.pwrite_ret w block (log_offset - log_alignment) counted below_max,
            length-block,
            as_int-small log_alignment al.small,
          )
          (ground arith)

    -- The block before `log_offset` gets what the fresh memory held, all else stays, and the file
    -- then reaches `log_offset`.
    pub extend_log-ok :
        ((extend_log host entry w).0 ≡ success)
        × ((i : ℕ)
            → i < log_alignment
            → byte (extend_log host entry w).1 (log_offset - log_alignment + i)
              ≡ get_or (memalign w log_alignment log_alignment).1 i 0)
        × ((p : ℕ)
            → (p + log_alignment < log_offset) ⊎ (log_offset ≤ p)
            → byte (extend_log host entry w).1 p ≡ byte w p)
        × (size (extend_log host entry w).1 ≡ max (size w) log_offset)
    unfolding block
    extend_log-ok =
        let w' = (pwrite w block (log_offset - log_alignment)).1 in
        let (ret, same, sized) = sync_log-ok entry w' in
        rw extend_log-writes (
          ret,
          λ i h.
              same (log_offset - log_alignment + i)
              ∙ disk.pwrite_byte w block (log_offset - log_alignment) i counted below_max
                  (omega (arith, length-block))
              ∙ get_or-take log_alignment (memalign w log_alignment log_alignment).1 i 0 h,
          λ p h.
              same p
              ∙ disk.pwrite_other w block (log_offset - log_alignment) p counted below_max
                  (omega (arith, length-block)),
          sized
              ∙ disk.pwrite_size w block (log_offset - log_alignment) counted below_max
                  (omega (arith, length-block, IsAlignment-pos al))
              ∙ ap (max (size w)) (omega (arith, length-block)),
        )

  module _ (entry : Entry) (w : World) (v : IsAligned entry) (wide : 8 ≤ entry.log_alignment)
      (low : entry.log_alignment ≤ entry.log_offset) where
    open entry use {log_offset, log_alignment}

    -- On a disk that works, and with an alignment of at least the size of a pointer, the creation of a
    -- region of positive size succeeds while the log stays below 2^63. The region is the
    -- extent from the old end of the log, `size` rounded up; every byte below it, so every region
    -- handed out before, is unchanged; and the file then reaches to the end of the region, so that
    -- a target that is attached again goes on behind it.
    pub file_create-ok :
        (n : ℕ)
        → 0 < n
        → log_offset + (n + log_alignment) < 2 ^ 63
        → let (ret, frid, entry', w') = file_create host entry w n in
          (ret ≡ success)
          × (frid.log_entry_offset ≡ log_offset)
          × (frid.log_entry_size ≡ align_up n log_alignment)
          × (n ≤ frid.log_entry_size)
          × (entry'.log_offset ≡ log_offset + frid.log_entry_size)
          × ((p : ℕ) → p < log_offset → byte w' p ≡ byte w p)
          × (size w' ≡ max (size w) entry'.log_offset)
    unfolding file_create reserve
    file_create-ok n positive h =
        let entry' = (reserve entry n).1 in
        let e = reserve-log_offset entry n v (omega arith) in
        let small : n + log_alignment ≤ 2 ^ 64 = omega arith in
        let up = le-align_up v.alignment n small in
        let over = align_up-lt v.alignment n small in
        let one_block =
          multiples_apart log_alignment 0 (align_up n log_alignment) (IsAlignment-pos v.alignment)
            (omega arith) (align_up-multiple v.alignment n small) (omega arith) in
        let (ret, _, same, sized) =
          extend_log-ok entry' w v.alignment (omega arith) (omega arith) wide in
        (ret, refl, refl, up, e, λ p lt. same p (omega arith), sized)

    -- On a disk that works, and with an alignment of at least the size of a pointer, the creation of a
    -- region of size 0 succeeds and hands out no byte, but it overwrites the last
    -- block of the log, which belongs to the region before or is the superblock, with what a fresh
    -- allocation happened to hold.
    pub file_create-zero :
        log_offset < 2 ^ 63
        → let (ret, frid, entry', w') = file_create host entry w 0 in
          (ret ≡ success)
          × (frid.log_entry_size ≡ 0)
          × (entry'.log_offset ≡ log_offset)
          × ((i : ℕ)
              → i < log_alignment
              → byte w' (log_offset - log_alignment + i)
                ≡ get_or (memalign w log_alignment log_alignment).1 i 0)
    unfolding file_create reserve
    file_create-zero h =
        let none_needed = align_up_self v.alignment 0 (omega arith) (omega arith) in
        let e : u64 (log_offset + align_up 0 log_alignment) ≡ log_offset =
          omega (arith, none_needed) in
        let (ret, block, _, _) =
          extend_log-ok (reserve entry 0).1 w v.alignment (omega (arith, e)) (omega (arith, e))
            wide in
        (ret, none_needed, e, λ i lt. ap (byte _) (omega (arith, e)) ∙ block i lt)
