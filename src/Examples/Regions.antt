-- ===== src/Examples/Regions.antt =====
-- Regions of a small log: the operations of src/bake-file-backend.c at concrete inputs.
use mochi_bake.Prelude.{ℕ, ◌+◌, ◌≤◌, ◌<◌, ◌⊎◌, ◌≡◌, refl, none, List, [], ◌∷◌, arith}
use mochi_bake.ReturnCode.{success, err_io, err_out_of_bounds}
use mochi_bake.Host.Disk.{max_count}
use mochi_bake.FileBackend.{
  align_up, reserve, extend_log, file_create, file_write_raw, file_read_raw,
}
use mochi_bake.FileBackend.Layout.{reserve_all, Tiles, reserve_all-Tiles}
use mochi_bake.FileBackend.Create.{file_create-ok, file_create-zero}
use mochi_bake.FileBackend.Raw.{file_write_raw-large}
use mochi_bake.FileBackend.Read.{file_read_raw-across}
use mochi_bake.FileBackend.RoundTrip.{file_read_raw-file_write_raw}
use mochi_bake.FileBackend.Race.{create_race}
use mochi_bake.FileBackend.Bounds.{refused_beyond}
use mochi_bake.FileBackend.Transfer.{
  write, returns, file_write_bulk, waits_forever, start_xfer, transfer_data,
}
use mochi_bake.FileBackend.Transfer.Bulk.{file_write_bulk-ok}
use mochi_bake.FileBackend.Transfer.Setup.{start_xfer-IsFresh, transfer_data-empty}
use mochi_bake.Examples.Machine.{
  File, machine, machine-Disk, machine-Remote, log, region, blank, log-IsAligned, region-IsRegion,
}

-- A creation of 9 bytes takes two blocks behind the old end of the log.
reserve_test : reserve log 9 ≡ (region, record log { log_offset = 32 })
unfolding reserve
reserve_test = refl

abbrev three : List ℕ
three = 5 ∷ 6 ∷ 7 ∷ []

abbrev ten : List ℕ
ten = 1 ∷ 2 ∷ 3 ∷ 4 ∷ 5 ∷ 6 ∷ 7 ∷ 8 ∷ 9 ∷ 10 ∷ []

ten_counted : align_up 10 8 ≤ max_count
unfolding align_up
ten_counted = omega arith

reserve_all-Tiles_example :
    Tiles 8 16
      (9 ∷ 1 ∷ [])
      (reserve_all log (9 ∷ 1 ∷ [])).0
      (reserve_all log (9 ∷ 1 ∷ [])).1.log_offset
reserve_all-Tiles_example = reserve_all-Tiles log (9 ∷ 1 ∷ []) log-IsAligned (omega arith)

file_create-ok_example : (file_create machine log blank 9).0 ≡ success
file_create-ok_example =
    (file_create-ok machine machine-Disk log blank log-IsAligned (omega arith) (omega arith) 9
      (omega arith) (omega arith)).0

file_create-zero_example : (file_create machine log blank 0).1.log_entry_size ≡ 0
file_create-zero_example =
    (file_create-zero machine machine-Disk log blank log-IsAligned (omega arith) (omega arith)
      (omega arith)).1

file_write_raw-large_example : (file_write_raw machine log blank region 0 10 ten).0 ≡ err_io
file_write_raw-large_example =
    (file_write_raw-large machine machine-Disk log blank region region-IsRegion (omega arith) ten
      (omega arith) ten_counted (omega arith)).0

file_read_raw-across_example : file_read_raw machine log blank region 7 2 ≡ (err_io, none)
file_read_raw-across_example =
    file_read_raw-across machine machine-Disk log blank region region-IsRegion 7 2 (omega arith)
      (omega arith) (omega arith) (omega arith) (omega arith)

file_read_raw-file_write_raw_example :
    (file_write_raw machine log blank region 0 3 three).0 ≡ success
file_read_raw-file_write_raw_example =
    (file_read_raw-file_write_raw machine machine-Disk log blank region three 1 2 region-IsRegion
      (omega arith) (omega arith) (omega arith) (omega arith) (omega arith) (omega arith)).0

create_race_example : (extend_log machine (reserve (reserve log 9).1 3).1 blank).0 ≡ success
create_race_example =
    (create_race machine machine-Disk log blank 9 3 three log-IsAligned (omega arith) (omega arith)
      (omega arith) (omega arith) (omega arith) (omega arith) (omega arith)).0

refused_beyond_example :
    (9 ≤ 16)
    ⊎ (file_write_bulk machine 5 log blank region 0 9 0 8 ≡ returns err_out_of_bounds blank)
refused_beyond_example =
    (refused_beyond machine 5 log blank region 1 17 9 0 8 ten (omega arith) (omega arith)).3

start_xfer-IsFresh_example : (start_xfer log region 1 2 6 8 write).transmit_size ≡ 4
start_xfer-IsFresh_example =
    (start_xfer-IsFresh log region region-IsRegion 1 2 6 8 write (omega arith) (omega arith)
      (omega arith) (omega arith)).4

transfer_data-empty_example : transfer_data machine 5 log blank region 0 0 0 8 write ≡ waits_forever
transfer_data-empty_example =
    transfer_data-empty machine 5 log blank region 8 write region-IsRegion (omega arith)

file_write_bulk-ok_example :
    (w' : File) × (file_write_bulk machine 30 log blank region 0 5 0 8 ≡ returns success w')
    × ((i : ℕ) → i < 5 → w'.byte (16 + i) ≡ 7)
    × ((p : ℕ) → (p < 16) ⊎ (16 + 16 ≤ p) → w'.byte p ≡ 1)
file_write_bulk-ok_example =
    file_write_bulk-ok machine machine-Disk machine-Remote log blank region 5 8 30 region-IsRegion
      (omega arith) (omega arith) (omega arith) (omega arith) (omega arith)
