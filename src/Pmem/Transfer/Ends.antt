-- ===== src/Pmem/Transfer/Ends.antt =====
-- Bulk writes of src/bake-pmem-backend.c come back, whatever the calls of Margo return.
use mochi_bake.Prelude.{
  ℕ, zero, suc, ◌+◌, ◌^◌, ◌≤◌, ◌<◌, ◌≡◌, refl, inl, inr, ℤ, is_zero, not, ◌&&◌, Bool, true, false,
  Option, none, some, arith, take, ltb, Bool-cases, if◌then◌else◌,
}
use mochi_bake.ReturnCode.{success, err_out_of_bounds, err_unknown_region}
use mochi_bake.FileBackend.{u64}
use mochi_bake.Backend.{Platform}
use mochi_bake.Pmem.{Pmemobj, region_size, region_bytes}
use mochi_bake.Pmem.Transfer.{
  PmemXfer, this_size, pmem_xfer_loop, pipelined, unpipelined, transfer_at, write_transfer_data,
  pmem_write_bulk,
}
use mochi_bake.Pmem.Transfer.Paths.{count_pmem_ults-suc, less}

this_size-moves :
    (x : PmemXfer)
    → x.bytes_issued < x.bulk_size
    → x.bulk_size < 2 ^ 64
    → 0 < x.poolset_max_size
    → (0 < this_size x) × (x.bytes_issued + this_size x ≤ x.bulk_size)
unfolding this_size
this_size-moves x more small positive = ground arith

-- A call comes back.
abbrev Returns : {A : Type 0} → Option A → Type 0
Returns {A} o = (a : A) × (o ≡ some a)

if_Returns :
    {A : Type 0} (b : Bool) (x y : Option A) → Returns x → Returns y → Returns (if b then x else y)
if_Returns true x y h k = h
if_Returns false x y h k = k

module _ {platform : Platform} (pmem : Pmemobj platform) (sizecheck : Bool) where
  open platform use {World, Context, Bulk, Addr}

  pmem_xfer_loop-Returns :
      (fuel : ℕ) (w : World) (ctx : Context) (addr : Addr) (bulk : Bulk) (x : PmemXfer)
      → x.bytes_issued ≤ x.bulk_size
      → x.bulk_size < 2 ^ 64
      → 0 < x.poolset_max_size
      → x.bulk_size < fuel + x.bytes_issued
      → Returns (pmem_xfer_loop pmem sizecheck fuel w ctx addr bulk x)
  unfolding pmem_xfer_loop
  pmem_xfer_loop-Returns zero w ctx addr bulk x issued small positive enough = absurd (omega arith)
  pmem_xfer_loop-Returns (suc fuel) w ctx addr bulk x issued small positive enough =
      elim (Bool-cases (ltb x.bytes_issued x.bulk_size)) [
        | inl more ↦
            let (moves, fits) = this_size-moves x (less _ _ more) small positive in
            let n = this_size x in
            let pulled = pmem.bulk_pull w addr bulk (u64 (x.remote_offset + x.bytes_issued)) n in
            let next = record x {
              bytes_issued = u64 (x.bytes_issued + n);
              bytes_retired = u64 (x.bytes_retired + n);
            } in
            let w' = pmem.store w (u64 (x.local_ptr + x.bytes_issued)) (take n pulled.1) in
            let rest = pmem_xfer_loop pmem sizecheck fuel w' ctx addr bulk next in
            rw more (
              if_Returns (not (is_zero (pmem.poolset_get w ctx n)))
                (some (pmem.poolset_get w ctx n, w))
                (if not (is_zero pulled.0) then some (pulled.0, w) else rest)
                ((pmem.poolset_get w ctx n, w), refl)
                (if_Returns (not (is_zero pulled.0)) (some (pulled.0, w)) rest ((pulled.0, w), refl)
                  (pmem_xfer_loop-Returns fuel w' ctx addr bulk next (omega (arith, moves, fits))
                    small positive (omega (arith, moves, fits, small)))))
        | inr done ↦ rw done ((success, w), refl)
      ]

  pipelined-Returns :
      (fuel : ℕ) (w : World) (ctx : Context) (memory : ℕ) (bulk : Bulk) (bulk_offset size : ℕ)
      (addr : Addr)
      → 0 < size
      → 0 < pmem.poolset_max ctx
      → size + pmem.poolset_max ctx < 2 ^ 64
      → size < fuel
      → Returns (pipelined pmem sizecheck fuel w ctx memory bulk bulk_offset size addr)
  unfolding pipelined
  pipelined-Returns fuel w ctx memory bulk bulk_offset size addr some_bytes some_room counts
        enough =
      let (n, counted) =
        count_pmem_ults-suc fuel size (pmem.poolset_max ctx) some_room counts some_bytes enough in
      rw counted (
        pmem_xfer_loop-Returns fuel w ctx addr bulk
          (record {
            remote_offset = bulk_offset;
            bulk_size = size;
            local_ptr = memory;
            bytes_issued = 0;
            bytes_retired = 0;
            poolset_max_size = pmem.poolset_max ctx;
          })
          (omega arith) (omega arith) some_room (omega arith))

  transfer_at-Returns :
      (fuel : ℕ) (w : World) (ctx : Context) (region_offset : ℕ) (bulk : Bulk)
      (bulk_offset size : ℕ) (addr : Addr) (at : Option ℕ)
      → 0 < size
      → 0 < pmem.poolset_max ctx
      → size + pmem.poolset_max ctx < 2 ^ 64
      → size < fuel
      → Returns (transfer_at pmem sizecheck fuel w ctx region_offset bulk bulk_offset size addr at)
  transfer_at-Returns fuel w ctx region_offset bulk bulk_offset size addr none some_bytes some_room
        counts enough =
      ((err_unknown_region, w), refl)
  transfer_at-Returns fuel w ctx region_offset bulk bulk_offset size addr (some region) some_bytes
        some_room counts enough =
      let memory = u64 (region_bytes pmem sizecheck region + region_offset) in
      let short = unpipelined pmem sizecheck w memory bulk bulk_offset size addr in
      let long = pipelined pmem sizecheck fuel w ctx memory bulk bulk_offset size addr in
      if_Returns
        (sizecheck && ltb (region_size pmem sizecheck w region) (u64 (region_offset + size)))
        (some (err_out_of_bounds, w)) (if not (pmem.pipeline w ctx) then some short else long)
        ((err_out_of_bounds, w), refl)
        (if_Returns (not (pmem.pipeline w ctx)) (some short) long (short, refl)
          (pipelined-Returns fuel w ctx memory bulk bulk_offset size addr some_bytes some_room
            counts enough))

  -- A bulk write of at least one byte comes back with as much fuel as there are bytes and one more, on
  -- either path and whatever the calls of Margo and libpmemobj return, where the largest buffer of the
  -- poolset holds at least one byte and its size and the number of bytes together stay below 2^64.
  pub pmem_write_bulk-returns :
      (fuel : ℕ) (w : World) (ctx : Context) (oid : Pmemobj.Oid pmem) (region_offset size : ℕ)
      (bulk : Bulk) (addr : Addr) (bulk_offset : ℕ)
      → 0 < size
      → 0 < pmem.poolset_max ctx
      → size + pmem.poolset_max ctx < 2 ^ 64
      → size < fuel
      → (end : ℤ × World) × (pmem_write_bulk pmem sizecheck fuel w ctx oid region_offset size bulk
            addr bulk_offset
          ≡ some end)
  unfolding pmem_write_bulk write_transfer_data
  pmem_write_bulk-returns fuel w ctx oid region_offset size bulk addr bulk_offset some_bytes
        some_room counts enough =
      transfer_at-Returns fuel w ctx region_offset bulk bulk_offset size addr (pmem.direct w oid)
        some_bytes some_room counts enough
