-- ===== src/FileBackend/Raw.antt =====
-- The eager path: `bake_file_write_raw` and `bake_file_read_raw` on a disk that works.
use mochi_bake.Prelude.{
  ℕ, ◌+◌, ◌-◌, ◌%◌, ◌^◌, ◌≤◌, ◌<◌, ◌≡◌, refl, ap, ◌∙◌, false, List, ◌++◌, arith, length, take, drop,
  get_or, as_int-small, length-take, get_or-take, get_or-append_left, length-drop, length-append,
  ◌⊎◌, none, some, ltb, ◌==◌, if◌then◌else◌,
}
use native.Mathlib.Decide.{dec_lt}
use mochi_bake.ReturnCode.{success, err_io}
use mochi_bake.Host.{Host}
use mochi_bake.Host.Disk.{Disk, max_count, slice, drop-slice}
use mochi_bake.FileBackend.{
  u64, sub64, FileRegion, Entry, align_up, align_down, file_write_raw, file_read_raw,
}
use mochi_bake.FileBackend.Align.{
  IsAlignment, IsAlignment-pos, IsAlignment-le, le-align_up, align_up-lt, align_up-multiple,
  align_up-block, align_down-eq, multiples_apart,
}

u64_small : (x : ℕ) → x < 2 ^ 63 → u64 x ≡ x
u64_small x h = omega arith

-- A request within a region of whole blocks also fits when it is rounded up.
pub rounding_fits :
    {a : ℕ} (al : IsAlignment a) (n size : ℕ)
    → size + a ≤ 2 ^ 64
    → n ≤ size
    → size % a ≡ 0
    → align_up n a ≤ size
rounding_fits {a} al n size small h m = elim (dec_lt size (align_up n a)) [
  | yes p ↦ absurd (
      omega (
        arith,
        multiples_apart a size (align_up n a) (IsAlignment-pos al) m
            (align_up-multiple al n (omega arith)) p,
        align_up-lt al n (omega arith),
      ))
  | no p ↦ omega arith
]

pub block_count : {a : ℕ} (al : IsAlignment a) (n : ℕ) → 0 < n → n ≤ a → align_up n a ≤ max_count
block_count {a} al n positive small = omega (
  arith,
  IsAlignment-le al,
  ap (λ (t : ℕ). align_up t a) (add_nothing n),
  align_up-block al 0 n (omega (arith, al.small)) (omega arith) positive small,
)
  where
    add_nothing : (m : ℕ) → 0 + m ≡ m
    add_nothing m = omega arith

-- A region that `bake_file_create` made: whole blocks, and small enough for an `off_t`.
pub record IsRegion (a : ℕ) (frid : FileRegion) : Type 0 where
  pub alignment : IsAlignment a
  pub offset_aligned : frid.log_entry_offset % a ≡ 0
  pub size_aligned : frid.log_entry_size % a ≡ 0
  pub in_range : frid.log_entry_offset + frid.log_entry_size + a < 2 ^ 63

module _ (host : Host) (disk : Disk host) where
  open host use {World, memalign, pwrite, pread}
  open disk use {byte, size}

  module _ (entry : Entry) (w : World) (frid : FileRegion) (r : IsRegion entry.log_alignment frid)
      (wide : 8 ≤ entry.log_alignment) (bytes : List ℕ) (fits : length bytes ≤ frid.log_entry_size)
      (counted : align_up (length bytes) entry.log_alignment ≤ max_count) where
    open entry use {log_alignment}
    open frid use {log_entry_offset, log_entry_size}

    n : ℕ
    n = length bytes

    buffer : List ℕ
    unfolding n
    buffer =
        take (align_up n log_alignment)
          (take n bytes ++ drop n (memalign w log_alignment (align_up n log_alignment)).1)

    written : World
    written = (pwrite w buffer log_entry_offset).1

    rounded_le : align_up n log_alignment ≤ log_entry_size
    unfolding n
    rounded_le =
        rounding_fits r.alignment n log_entry_size (omega (arith, r.in_range)) fits r.size_aligned

    length-buffer : length buffer ≡ align_up n log_alignment
    unfolding buffer
    length-buffer =
        let fresh = (memalign w log_alignment (align_up n log_alignment)).1 in
        omega (
          arith,
          length-take (align_up n log_alignment) (take n bytes ++ drop n fresh),
          length-append (take n bytes) (drop n fresh),
          length-take n bytes,
          length-drop n fresh,
          disk.memalign_length w log_alignment (align_up n log_alignment),
          le-align_up r.alignment n (omega (arith, r.in_range)),
        )

    in_log : log_entry_offset + length buffer < 2 ^ 63
    in_log = omega (arith, length-buffer, rounded_le, r.in_range)

    buffer_counted : length buffer ≤ max_count
    unfolding n
    buffer_counted = omega (arith, length-buffer, counted)

    in_bounds : ltb log_entry_size (u64 (n + 0)) ≡ false
    unfolding n
    in_bounds = ground (arith, r.in_range)

    -- The bytes reach the log whatever the code says, and the code is right for one block only.
    file_write_raw-writes :
        file_write_raw host entry w frid 0 n bytes
        ≡ ((if align_up n log_alignment == log_alignment then success else err_io), written)
    unfolding file_write_raw written buffer n
    file_write_raw-writes =
        rw
          (
            in_bounds,
            disk.memalign_ok w log_alignment r.alignment.k (align_up n log_alignment)
                r.alignment.log2 wide r.alignment.small (omega (arith, counted)),
            disk.pwrite_ret w buffer log_entry_offset buffer_counted in_log,
            length-buffer,
            as_int-small (align_up n log_alignment) (omega (arith, counted)),
          )
          (ground arith)

    written_bytes : (i : ℕ) → i < n → byte written (log_entry_offset + i) ≡ get_or bytes i 0
    unfolding written buffer n
    written_bytes i h =
        let fresh = (memalign w log_alignment (align_up n log_alignment)).1 in
        disk.pwrite_byte w buffer log_entry_offset i buffer_counted in_log
          (omega (arith, length-buffer, le-align_up r.alignment n (omega (arith, r.in_range))))
        ∙ get_or-take (align_up n log_alignment) (take n bytes ++ drop n fresh) i 0
            (omega (arith, le-align_up r.alignment n (omega (arith, r.in_range))))
        ∙ get_or-append_left (take n bytes) (drop n fresh) i 0 (omega (arith, length-take n bytes))
        ∙ get_or-take n bytes i 0 h

    written_other :
        (p : ℕ)
        → (p < log_entry_offset) ⊎ (log_entry_offset + log_entry_size ≤ p)
        → byte written p ≡ byte w p
    unfolding written
    written_other p h =
        disk.pwrite_other w buffer log_entry_offset p buffer_counted in_log
          (omega (arith, length-buffer, rounded_le))

    written_size : 0 < n → size w ≤ size written
    unfolding written n
    written_size positive = omega (
      arith,
      disk.pwrite_size w buffer log_entry_offset buffer_counted in_log
          (omega (arith, length-buffer, le-align_up r.alignment n (omega (arith, r.in_range)))),
    )

    one_block : 0 < n → n ≤ log_alignment → align_up n log_alignment ≡ log_alignment
    one_block positive small =
        ap (λ (t : ℕ). align_up t log_alignment) (omega arith)
        ∙ align_up-block r.alignment 0 n (omega (arith, r.alignment.small)) (omega arith) positive
            small
        ∙ omega arith

    -- An eager write of at most one block succeeds: the region then begins with the bytes, and no
    -- byte outside the region has changed; the file does not shrink.
    pub file_write_raw-ok :
        0 < length bytes
        → length bytes ≤ log_alignment
        → let (ret, w') = file_write_raw host entry w frid 0 (length bytes) bytes in
          (ret ≡ success)
          × ((i : ℕ) → i < length bytes → byte w' (log_entry_offset + i) ≡ get_or bytes i 0)
          × ((p : ℕ)
              → (p < log_entry_offset) ⊎ (log_entry_offset + log_entry_size ≤ p)
              → byte w' p ≡ byte w p)
          × (size w ≤ size w')
    unfolding n
    file_write_raw-ok positive small =
        rw (file_write_raw-writes, one_block positive small)
          (ground arith, written_bytes, written_other, written_size positive)

    -- An eager write of more than one block that lies in its region, on blocks that a single call can
    -- transfer, reports an I/O error though every byte of it has reached the log, where the alignment is
    -- at least the size of a pointer: the count that `pwrite` returns is compared with the alignment.
    pub file_write_raw-large :
        log_alignment < length bytes
        → let (ret, w') = file_write_raw host entry w frid 0 (length bytes) bytes in
          (ret ≡ err_io)
          × ((i : ℕ) → i < length bytes → byte w' (log_entry_offset + i) ≡ get_or bytes i 0)
    unfolding n
    file_write_raw-large large =
        rw file_write_raw-writes
          (ground (arith, le-align_up r.alignment n (omega (arith, r.in_range))), written_bytes)

  -- The log extent of a read from `s`, where neither the sum nor the rounding wraps.
  module _ (entry : Entry) (w : World) (frid : FileRegion) (al : IsAlignment entry.log_alignment)
      (offset n s : ℕ) (start : u64 (frid.log_entry_offset + offset) ≡ s)
      (admitted : u64 (n + offset) ≤ frid.log_entry_size)
      (low : s + n + entry.log_alignment < 2 ^ 63)
      (present : align_up (s + n) entry.log_alignment ≤ size w) (wide : 8 ≤ entry.log_alignment)
      (counted : align_up (s + n) entry.log_alignment - align_down s entry.log_alignment
        ≤ max_count) where
    open entry use {log_alignment}

    first : ℕ
    first = align_down s log_alignment

    last : ℕ
    last = align_up (s + n) log_alignment

    first_le : first ≤ s
    unfolding first
    first_le = omega (arith, align_down-eq al s (omega arith))

    le_last : s + n ≤ last
    unfolding last
    le_last = le-align_up al (s + n) (omega arith)

    last_lt : last < 2 ^ 63
    unfolding last
    last_lt = omega (arith, align_up-lt al (s + n) (omega arith))

    extent : sub64 last first ≡ last - first
    extent = omega (arith, first_le, le_last, last_lt)

    skipped : sub64 s first ≡ s - first
    skipped = omega (arith, first_le, le_last, last_lt)

    inside : first + (last - first) ≤ size w
    unfolding last
    inside = omega (arith, first_le, le_last)

    guard : ltb frid.log_entry_size (u64 (n + offset)) ≡ false
    guard = ground arith

    delivered : drop (s - first) (slice (byte w) first (last - first)) ≡ slice (byte w) s (last - s)
    delivered =
        drop-slice (byte w) first (s - first) (last - first) (omega (arith, first_le, le_last))
        ∙ ap (λ (t : ℕ). slice (byte w) t (last - first - (s - first))) (omega (arith, first_le))
        ∙ ap (slice (byte w) s) (omega (arith, first_le, le_last))

    file_read_raw-extent : file_read_raw host entry w frid offset n ≡ (
        if last - first == log_alignment
        then (success, some (slice (byte w) s (last - s), n))
        else (err_io, none))
    unfolding file_read_raw first last
    file_read_raw-extent =
        rw
          (
            guard,
            start,
            u64_small (s + n) (omega arith),
            extent,
            skipped,
            disk.memalign_ok w log_alignment al.k (last - first) al.log2 wide al.small
                (omega (arith, counted)),
            disk.pread_ret w (last - first) first counted inside,
            disk.pread_bytes w (last - first) first counted inside,
            as_int-small (last - first) (omega (arith, counted)),
            delivered,
          )
          refl

    -- The read succeeds when the extent between the rounded ends is one block, and fails otherwise.
    pub file_read_raw-eq : file_read_raw host entry w frid offset n ≡ (
        if align_up (s + n) log_alignment - align_down s log_alignment == log_alignment
        then (success, some (slice (byte w) s (align_up (s + n) log_alignment - s), n))
        else (err_io, none))
    unfolding first last
    file_read_raw-eq = file_read_raw-extent
