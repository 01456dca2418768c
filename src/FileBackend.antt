-- ===== src/FileBackend.antt =====
-- src/bake-file-backend.c: the state of a target, and its operations but the bulk transfers.
-- The functions of abt-io and `posix_memalign` come from a `Host`. Sizes and offsets are 64-bit
-- words; an `off_t` is its bit pattern.
pub mod Align
pub mod Layout
pub mod Create
pub mod Raw
pub mod Read
pub mod RoundTrip
pub mod Race
pub mod Transfer
pub mod Pool
pub mod Stored
pub mod Bounds
use mochi_bake.Prelude.{
  ℕ, ◌+◌, ◌-◌, ◌%◌, ◌^◌, bit_and, ℤ, pos, is_pos, is_zero, as_int, Bool, true, false, not, Option,
  none, some, List, [], ◌++◌, ltb, ◌==◌, if◌then◌else◌, length, take, drop,
}
use mochi_bake.ReturnCode.{success, err_io, err_op_unsupported, err_out_of_bounds}
use mochi_bake.Host.{Host}

abbrev pub u64 : ℕ → ℕ
u64 x = x % 2 ^ 64

-- a - b on uint64_t.
abbrev pub sub64 : ℕ → ℕ → ℕ
sub64 a b = (a + 2 ^ 64 - b) % 2 ^ 64

-- The word that the non-negative int `a` gives in `_alignment - 1`, sign-extended if `a` is 0.
abbrev pub pred_word : ℕ → ℕ
pred_word a = sub64 a 1

-- `~(_alignment - 1)`, which is `-_alignment`, as a word.
abbrev pub mask_word : ℕ → ℕ
mask_word a = sub64 0 a

-- `BAKE_ALIGN_UP`.
unfoldable pub align_up : ℕ → ℕ → ℕ
align_up x a = bit_and (u64 (x + pred_word a)) (mask_word a)

-- `BAKE_ALIGN_DOWN`.
unfoldable pub align_down : ℕ → ℕ → ℕ
align_down x a = bit_and x (mask_word a)

-- `BAKE_SUPERBLOCK_SIZE`.
abbrev pub superblock_size : ℕ
superblock_size = 4096

-- `file_region_id_t`.
pub record FileRegion : Type 0 where
  pub log_entry_offset : ℕ
  pub log_entry_size : ℕ

-- `bake_file_entry_t`, as far as the operations on regions read it.
pub record Entry : Type 0 where
  pub log_offset : ℕ
  pub log_alignment : ℕ
  pub sync : Bool

-- What the section under `log_offset_mutex` does: the extent that is handed out, and the entry.
unfoldable pub reserve : Entry → ℕ → FileRegion × Entry
unfolding align_up
reserve entry size =
    let size' = align_up size entry.log_alignment in
    (
      record { log_entry_offset = entry.log_offset; log_entry_size = size' },
      record entry { log_offset = u64 (entry.log_offset + size') },
    )

module _ (host : Host) where
  open host use {World, memalign, pwrite, pread, fdatasync, punch_hole}

  unfoldable pub sync_log : Entry → World → ℤ × World
  sync_log entry w =
      if entry.sync
      then if is_zero (fdatasync w).0 then (success, (fdatasync w).1) else (err_io, (fdatasync w).1)
      else (success, w)

  -- What `bake_file_create` does behind the section: a block is written at the end of the log, as
  -- `entry->log_offset` stands then.
  unfoldable pub extend_log : Entry → World → ℤ × World
  unfolding sync_log
  extend_log entry w =
      let a = entry.log_alignment in
      let block = memalign w a a in
      let written = pwrite w (take a block.1) (sub64 entry.log_offset a) in
      if not (is_zero block.0)
      then (err_io, w)
      else if is_pos (as_int written.0) a
      then sync_log entry written.1
      else (err_io, written.1)

  -- `bake_file_create`: code, region, entry and world. No other call runs in between.
  unfoldable pub file_create : Entry → World → ℕ → ℤ × FileRegion × Entry × World
  unfolding reserve extend_log
  file_create entry w size =
      let (frid, entry') = reserve entry size in
      let (ret, w') = extend_log entry' w in (ret, frid, entry', w')

  -- `bake_file_write_raw`.
  unfoldable pub file_write_raw : Entry → World → FileRegion → ℕ → ℕ → List ℕ → ℤ × World
  unfolding align_up
  file_write_raw entry w frid offset size bytes =
      let a = entry.log_alignment in
      let bounce = memalign w a (align_up size a) in
      let buffer = take size bytes ++ drop size bounce.1 in
      let written = pwrite w (take (align_up size a) buffer) frid.log_entry_offset in
      if not (offset == 0)
      then (err_op_unsupported, w)
      else if ltb frid.log_entry_size (u64 (size + offset))
      then (err_out_of_bounds, w)
      else if not (is_zero bounce.0)
      then (err_io, w)
      else if is_pos (as_int written.0) a
      then (success, written.1)
      else (err_io, written.1)

  -- `bake_file_read_raw`: the code, and the bytes at `*data` with `*data_size` of them, if these
  -- are set.
  unfoldable pub file_read_raw : Entry → World → FileRegion → ℕ → ℕ → ℤ × Option (List ℕ × ℕ)
  unfolding align_up align_down
  file_read_raw entry w frid offset size =
      let a = entry.log_alignment in
      let natural_start = u64 (frid.log_entry_offset + offset) in
      let natural_end = u64 (natural_start + size) in
      let log_start = align_down natural_start a in
      let log_end = align_up natural_end a in
      let bounce = memalign w a (sub64 log_end log_start) in
      let got = pread w (sub64 log_end log_start) log_start in
      if ltb frid.log_entry_size (u64 (size + offset))
      then (err_out_of_bounds, none)
      else if not (is_zero bounce.0)
      then (err_io, none)
      else if is_pos (as_int got.0) a
      then (success, some (drop (sub64 natural_start log_start) got.1, size))
      else (err_io, none)

  -- `bake_file_persist`: the offset and the size of the range do not matter.
  unfoldable pub file_persist : Entry → World → FileRegion → ℕ → ℕ → ℤ × World
  unfolding sync_log
  file_persist entry w frid offset size = sync_log entry w

  -- `bake_file_remove`: the hole leaves the other regions where they are.
  unfoldable pub file_remove : Entry → World → FileRegion → ℤ × World
  file_remove entry w frid = punch_hole w frid.log_entry_offset frid.log_entry_size

-- `bake_file_get_region_size`, `bake_file_get_region_data` and `bake_file_migrate_region`.
abbrev pub file_get_region_size : ℤ
file_get_region_size = err_op_unsupported

abbrev pub file_get_region_data : ℤ
file_get_region_data = err_op_unsupported

abbrev pub file_migrate_region : ℤ
file_migrate_region = err_op_unsupported
