-- ===== src/FileBackend/Transfer.antt =====
-- The bulk transfers of src/bake-file-backend.c: `transfer_data`, `xfer_ult`, and the two operations
-- that use them. The threads of one transfer pull chunks of the log extent under a mutex; what one
-- thread does with its chunk is `transfer_chunk`. `Steps` has the threads side by side.
pub mod Chunks
pub mod Crew
pub mod Setup
pub mod Written
pub mod Bulk
use mathlib.Core.Option
use mochi_bake.Prelude.{
  ℕ, zero, suc, ◌+◌, ◌-◌, ◌%◌, ◌^◌, ℤ, pos, is_pos, is_zero, as_int, Bool, true, false, not, ◌&&◌,
  Option, none, some, List, [], ◌∷◌, ◌++◌, ltb, ◌==◌, if◌then◌else◌, take, drop,
}
use mochi_bake.ReturnCode.{success, err_op_unsupported, err_out_of_bounds}
use mochi_bake.Host.{Host}
use mochi_bake.FileBackend.{u64, sub64, FileRegion, Entry, align_up, align_down}

-- `TRANSFER_DATA_READ` and `TRANSFER_DATA_WRITE`.
pub data Op : Type 0 where
  read write : Op

-- The state of a transfer in `struct xfer_args`, but the mutex and the eventual.
pub record Xfer : Type 0 where
  pub remote_offset : ℕ
  pub log_entry_offset : ℕ
  pub log_entry_size : ℕ
  pub log_issued : ℕ
  pub log_retired : ℕ
  pub transmit_size : ℕ
  pub transmit_offset_in_log : ℕ
  pub transmit_issued : ℕ
  pub poolset_max_size : ℕ
  pub ret : ℤ
  pub ults_active : ℕ
  pub op : Op

-- The variables with the prefix `this_` of `xfer_ult`.
pub record Chunk : Type 0 where
  pub log_offset : ℕ
  pub log_size : ℕ
  pub remote_offset : ℕ
  pub transmit_size : ℕ
  pub transmit_offset_in_log : ℕ

-- The word that an int variable gives after an assignment from a word.
abbrev pub int_word : ℕ → ℕ
int_word x = let y = x % 2 ^ 32 in if ltb y (2 ^ 31) then y else y + (2 ^ 64 - 2 ^ 32)

-- `for (i = 0; i < size; i += max) ults_active++`, from `i` on, on fuel.
unfoldable pub count_ults : ℕ → ℕ → ℕ → ℕ → Option ℕ
count_ults zero i size step = none
count_ults (suc fuel) i size step =
    let rest = Option.map suc (count_ults fuel (int_word (i + step)) size step) in
    if ltb i size then rest else some 0

-- How `transfer_data` sets up a transfer behind its bounds check, but the number of ULTs.
unfoldable pub start_xfer : Entry → FileRegion → ℕ → ℕ → ℕ → ℕ → Op → Xfer
unfolding align_up align_down
start_xfer entry frid region_offset remote_bulk_offset bulk_size max op =
    let a = entry.log_alignment in
    let log_end =
      align_up
        (sub64 (u64 (u64 (frid.log_entry_offset + region_offset) + bulk_size)) remote_bulk_offset)
        a in
    let log_start = align_down (u64 (frid.log_entry_offset + region_offset)) a in
    record {
      remote_offset = remote_bulk_offset;
      log_entry_offset = log_start;
      log_entry_size = sub64 log_end log_start;
      log_issued = 0;
      log_retired = 0;
      transmit_size = sub64 bulk_size remote_bulk_offset;
      transmit_offset_in_log = sub64 (u64 (frid.log_entry_offset + region_offset)) log_start;
      transmit_issued = 0;
      poolset_max_size = max;
      ret = success;
      ults_active = 0;
      op = op;
    }

-- The condition of the loop in `xfer_ult`.
abbrev pub has_work : Xfer → Bool
has_work x = ltb x.log_issued x.log_entry_size && is_zero x.ret

-- `this_log_size`, and `this_transmit_size` before it is cut off at the end.
unfoldable pub chunk_size : Xfer → ℕ
chunk_size x =
    if ltb x.poolset_max_size (sub64 x.log_entry_size x.log_issued)
    then x.poolset_max_size
    else sub64 x.log_entry_size x.log_issued

unfoldable pub chunk_skip : Xfer → ℕ
chunk_skip x = if x.transmit_issued == 0 then x.transmit_offset_in_log else 0

unfoldable pub chunk_transmit : Xfer → ℕ
chunk_transmit x =
    let whole = sub64 (chunk_size x) (chunk_skip x) in
    if ltb x.transmit_size (u64 (whole + x.transmit_issued))
    then sub64 x.transmit_size x.transmit_issued
    else whole

-- One round of the loop up to where it drops the mutex.
unfoldable pub take_chunk : Xfer → Chunk × Xfer
take_chunk x = (
  record {
    log_offset = u64 (x.log_entry_offset + x.log_issued);
    log_size = chunk_size x;
    remote_offset = u64 (x.remote_offset + x.transmit_issued);
    transmit_size = chunk_transmit x;
    transmit_offset_in_log = chunk_skip x;
  },
  record x {
    log_issued = u64 (x.log_issued + chunk_size x);
    transmit_issued = u64 (x.transmit_issued + chunk_transmit x);
  },
)

module _ (host : Host) where
  open host use {World, pwrite, pread, poolset_get, bulk_pull, bulk_push}

  -- What `xfer_ult` does with a chunk while it does not hold the mutex, where no other thread has
  -- failed: `none` if the chunk is done, and the code that goes to `args->ret` at `goto finished`.
  unfoldable pub transfer_chunk : Op → World → Chunk → Option ℤ × World
  transfer_chunk write w c =
      let buf = poolset_get w c.log_size in
      let pulled = bulk_pull w c.remote_offset c.transmit_size in
      let local = take c.transmit_size pulled.1 ++ drop c.transmit_size buf.1 in
      let written = pwrite w (take c.log_size local) c.log_offset in
      if not (is_zero buf.0)
      then (some buf.0, w)
      else if not (is_zero pulled.0)
      then (some pulled.0, w)
      else if is_pos (as_int written.0) c.log_size
      then (none, written.1)
      else (some written.0, written.1)
  transfer_chunk read w c =
      let buf = poolset_get w c.log_size in
      let got = pread w c.log_size c.log_offset in
      let sent =
        bulk_push w (take c.transmit_size (drop c.transmit_offset_in_log got.1)) c.remote_offset in
      if not (is_zero buf.0)
      then (some buf.0, w)
      else if not (is_pos (as_int got.0) c.log_size)
      then (some got.0, w)
      else if is_zero sent.0
      then (none, sent.1)
      else (some sent.0, sent.1)

  -- The loop of `xfer_ult`, run by one thread to its end, on fuel. The other threads of the transfer
  -- then find nothing to do.
  unfoldable pub xfer_loop : ℕ → World → Xfer → Option (World × Xfer)
  unfolding chunk_size chunk_skip chunk_transmit take_chunk transfer_chunk
  xfer_loop zero w x = none
  xfer_loop (suc fuel) w x =
      let c = (take_chunk x).0 in
      let x' = (take_chunk x).1 in
      let (end, w') = transfer_chunk x.op w c in
      let next =
        xfer_loop fuel w' (record x' { log_retired = u64 (x'.log_retired + c.log_size) }) in
      let step : Option (World × Xfer) = elim end [
        | none ↦ next
        | some code ↦ some (w', record x' { ret = code })
      ] in
      if has_work x then step else some (w, x)

  -- What becomes of a transfer.
  pub data Outcome : Type 0 where
    returns : ℤ → World → Outcome
    -- `ABT_eventual_wait` with no thread that would set the eventual.
    waits_forever : Outcome
    out_of_fuel : Outcome

  abbrev outcome : Option (World × Xfer) → Outcome
  outcome none = out_of_fuel
  outcome (some (w, x)) = returns x.ret w

  run_xfer : ℕ → Option ℕ → World → Xfer → Outcome
  unfolding xfer_loop
  run_xfer fuel none w x = out_of_fuel
  run_xfer fuel (some zero) w x = waits_forever
  run_xfer fuel (some (suc n)) w x = outcome (xfer_loop fuel w (record x { ults_active = suc n }))

  -- `transfer_data`, with the first thread doing all the work.
  unfoldable pub transfer_data : ℕ → Entry → World → FileRegion → ℕ → ℕ → ℕ → ℕ → Op → Outcome
  unfolding start_xfer count_ults run_xfer
  transfer_data fuel entry w frid region_offset remote_bulk_offset bulk_size max op =
      let x = start_xfer entry frid region_offset remote_bulk_offset bulk_size max op in
      let run = run_xfer fuel (count_ults fuel 0 x.log_entry_size x.poolset_max_size) w x in
      if ltb frid.log_entry_size (u64 (bulk_size + region_offset))
      then returns err_out_of_bounds w
      else run

  -- `bake_file_write_bulk`.
  unfoldable pub file_write_bulk : ℕ → Entry → World → FileRegion → ℕ → ℕ → ℕ → ℕ → Outcome
  unfolding transfer_data
  file_write_bulk fuel entry w frid region_offset size bulk_offset max =
      let run = transfer_data fuel entry w frid region_offset bulk_offset size max write in
      if not (region_offset == 0) then returns err_op_unsupported w else run

  -- `bake_file_read_bulk`: the outcome, and `*bytes_read`.
  abbrev read_bulk_count : ℕ → Outcome → Outcome × ℕ
  read_bulk_count size (returns ret w) = (returns ret w, if is_zero ret then size else 0)
  read_bulk_count size waits_forever = (waits_forever, 0)
  read_bulk_count size out_of_fuel = (out_of_fuel, 0)

  unfoldable pub file_read_bulk : ℕ → Entry → World → FileRegion → ℕ → ℕ → ℕ → ℕ → Outcome × ℕ
  unfolding transfer_data
  file_read_bulk fuel entry w frid region_offset size bulk_offset max =
      read_bulk_count size (transfer_data fuel entry w frid region_offset bulk_offset size max read)
