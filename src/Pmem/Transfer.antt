-- ===== src/Pmem/Transfer.antt =====
-- Bulk transfers of src/bake-pmem-backend.c: `write_transfer_data` with its `xfer_ult`, run by one
-- thread, and the operations that use it. `none` is a call that does not come back.
pub mod Paths
pub mod Ends
use mathlib.Core.Option
use mochi_bake.Prelude.{
  ℕ, zero, suc, ◌+◌, ◌-◌, ℤ, is_zero, Bool, true, false, not, ◌&&◌, Option, none, some, List, [],
  ◌∷◌, if◌then◌else◌, take, ltb, ◌>>=◌, ◌==◌,
}
use mochi_bake.ReturnCode.{success, err_pmem, err_mercury, err_out_of_bounds, err_unknown_region}
use mochi_bake.FileBackend.{u64, sub64}
use mochi_bake.Backend.{Platform}
use mochi_bake.Pmem.{Pmemobj, region_size, region_bytes, content_size, size_to_read, word_bytes}

-- `xfer_args`, for what a thread reads and changes.
pub record PmemXfer : Type 0 where
  pub remote_offset : ℕ
  pub bulk_size : ℕ
  pub local_ptr : ℕ
  pub bytes_issued : ℕ
  pub bytes_retired : ℕ
  pub poolset_max_size : ℕ

-- `this_size`
unfoldable pub this_size : PmemXfer → ℕ
this_size x =
    if ltb x.poolset_max_size (sub64 x.bulk_size x.bytes_issued)
    then x.poolset_max_size
    else sub64 x.bulk_size x.bytes_issued

-- The loop `for (i = 0; i < bulk_size; i += max) ults_active++`, on fuel.
unfoldable pub count_pmem_ults : ℕ → ℕ → ℕ → ℕ → Option ℕ
count_pmem_ults zero i bulk_size max = none
count_pmem_ults (suc fuel) i bulk_size max =
    let rest = Option.map suc (count_pmem_ults fuel (u64 (i + max)) bulk_size max) in
    if ltb i bulk_size then rest else some 0

module _ {platform : Platform} (pmem : Pmemobj platform) (sizecheck : Bool) where
  open platform use {World, Context, Bulk, Addr}
  open pmem use {
    Oid, alloc, direct, flush, load, store, bulk_create, bulk_pull, bulk_push, poolset_get,
    poolset_max, pipeline,
  }

  -- The loop of `xfer_ult`, where no other thread has failed: `args->ret` at its end.
  unfoldable pub pmem_xfer_loop : ℕ → World → Context → Addr → Bulk → PmemXfer → Option (ℤ × World)
  unfolding this_size
  pmem_xfer_loop zero w ctx addr bulk x = none
  pmem_xfer_loop (suc fuel) w ctx addr bulk x =
      let n = this_size x in
      let got = poolset_get w ctx n in
      let pulled = bulk_pull w addr bulk (u64 (x.remote_offset + x.bytes_issued)) n in
      let w' = store w (u64 (x.local_ptr + x.bytes_issued)) (take n pulled.1) in
      let rest = pmem_xfer_loop fuel w' ctx addr bulk (record x {
        bytes_issued = u64 (x.bytes_issued + n);
        bytes_retired = u64 (x.bytes_retired + n);
      }) in
      let round =
        if not (is_zero got)
        then some (got, w)
        else if not (is_zero pulled.0)
        then some (pulled.0, w)
        else rest in
      if ltb x.bytes_issued x.bulk_size then round else some (success, w)

  -- The threads of a transfer: without one, `ABT_eventual_wait` waits for ever.
  abbrev pub with_ults : Option ℕ → Option (ℤ × World) → Option (ℤ × World)
  with_ults none run = none
  with_ults (some zero) run = none
  with_ults (some (suc n)) run = run

  -- The path with intermediate buffers.
  unfoldable pub pipelined : ℕ → World → Context → ℕ → Bulk → ℕ → ℕ → Addr → Option (ℤ × World)
  unfolding pmem_xfer_loop count_pmem_ults
  pipelined fuel w ctx memory bulk bulk_offset size addr =
      let max = poolset_max ctx in
      with_ults (count_pmem_ults fuel 0 size max) (
        pmem_xfer_loop fuel w ctx addr bulk (record {
          remote_offset = bulk_offset;
          bulk_size = size;
          local_ptr = memory;
          bytes_issued = 0;
          bytes_retired = 0;
          poolset_max_size = max;
        }))

  -- The path without: the bytes that have come stand in the region also where the transfer fails.
  unfoldable pub unpipelined : World → ℕ → Bulk → ℕ → ℕ → Addr → ℤ × World
  unpipelined w memory bulk bulk_offset size addr =
      let created = bulk_create w memory size in
      let pulled = bulk_pull w addr bulk bulk_offset size in
      if not (is_zero created)
      then (err_mercury, w)
      else if not (is_zero pulled.0)
      then (err_mercury, store w memory (take size pulled.1))
      else (success, store w memory (take size pulled.1))

  -- `write_transfer_data`, with what `pmemobj_direct` gives.
  abbrev pub transfer_at :
      ℕ → World → Context → ℕ → Bulk → ℕ → ℕ → Addr → Option ℕ → Option (ℤ × World)
  transfer_at fuel w ctx region_offset bulk bulk_offset size addr none =
      some (err_unknown_region, w)
  transfer_at fuel w ctx region_offset bulk bulk_offset size addr (some region) =
      let memory = u64 (region_bytes pmem sizecheck region + region_offset) in
      if sizecheck && ltb (region_size pmem sizecheck w region) (u64 (region_offset + size))
      then some (err_out_of_bounds, w)
      else if not (pipeline w ctx)
      then some (unpipelined w memory bulk bulk_offset size addr)
      else pipelined fuel w ctx memory bulk bulk_offset size addr

  -- `write_transfer_data`.
  unfoldable pub write_transfer_data :
      ℕ → World → Context → Oid → ℕ → Bulk → ℕ → ℕ → Addr → Option (ℤ × World)
  write_transfer_data fuel w ctx oid region_offset bulk bulk_offset size addr =
      transfer_at fuel w ctx region_offset bulk bulk_offset size addr (direct w oid)

  -- `bake_pmem_write_bulk`.
  unfoldable pub pmem_write_bulk :
      ℕ → World → Context → Oid → ℕ → ℕ → Bulk → Addr → ℕ → Option (ℤ × World)
  unfolding write_transfer_data
  pmem_write_bulk fuel w ctx oid region_offset size bulk addr bulk_offset =
      write_transfer_data fuel w ctx oid region_offset bulk bulk_offset size addr

  -- `bake_pmem_read_bulk`: the code, `*bytes_read`, and the new state.
  unfoldable pub pmem_read_bulk : World → Oid → ℕ → ℕ → Bulk → Addr → ℕ → ℤ × ℕ × World
  unfolding size_to_read
  pmem_read_bulk w oid region_offset size bulk addr bulk_offset = elim (direct w oid) [
    | none ↦ (err_unknown_region, 0, w)
    | some region ↦ elim (size_to_read pmem sizecheck w region region_offset size) [
      | none ↦ (err_out_of_bounds, 0, w)
      | some n ↦
          let memory = u64 (region_bytes pmem sizecheck region + region_offset) in
          let created = bulk_create w memory n in
          let pushed = bulk_push w addr bulk bulk_offset (load w memory n) in
          if not (is_zero created)
          then (err_mercury, 0, w)
          else if not (is_zero pushed.0)
          then (err_mercury, 0, pushed.1)
          else (success, n, pushed.1)
    ]
  ]

  -- The end of `bake_pmem_create_write_persist_bulk`: where the transfer has failed, its code is not
  -- returned.
  abbrev pub flushed_at : Oid → ℕ → World → Option ℕ → ℤ × Oid × World
  flushed_at oid size w none = (err_pmem, oid, w)
  flushed_at oid size w (some region) =
      let w' = if sizecheck then store w region (word_bytes 8 size) else w in
      (success, oid, flush w' region (content_size pmem sizecheck size))

  abbrev pub after_transfer : Oid → ℕ → ℤ × World → ℤ × Oid × World
  after_transfer oid size (ret, w) =
      if is_zero ret then flushed_at oid size w (direct w oid) else (success, oid, w)

  abbrev pub moved_into :
      ℕ → Context → Bulk → Addr → ℕ → ℕ → ℤ × Oid × World → Option (ℤ × Oid × World)
  moved_into fuel ctx bulk addr bulk_offset size (code, oid, w) =
      let moved = write_transfer_data fuel w ctx oid 0 bulk bulk_offset size addr in
      if not (is_zero code)
      then some (err_pmem, oid, w)
      else (moved >>= λ end. some (after_transfer oid size end))

  -- `bake_pmem_create_write_persist_bulk`.
  unfoldable pub pmem_create_write_persist_bulk :
      ℕ → World → Context → Bulk → Addr → ℕ → ℕ → Option (ℤ × Oid × World)
  unfolding write_transfer_data
  pmem_create_write_persist_bulk fuel w ctx bulk addr bulk_offset size =
      moved_into fuel ctx bulk addr bulk_offset size
        (alloc w ctx (content_size pmem sizecheck size))
