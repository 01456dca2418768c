-- ===== src/Pmem.antt =====
-- The backend of src/bake-pmem-backend.c for regions in persistent memory. libpmemobj, the memory
-- itself and Margo's bulk calls are parameters. `sizecheck` says whether USE_SIZECHECK_HEADERS is
-- defined.
pub mod Transfer
pub mod Memory
pub mod Stored
pub mod Service
pub mod Requests
use mochi_bake.Prelude.{
  ℕ, zero, suc, ◌+◌, ◌*◌, ◌/◌, ◌%◌, ◌^◌, ℤ, is_zero, Bool, true, false, not, ◌&&◌, Option, none,
  some, List, [], ◌∷◌, if◌then◌else◌, take, ltb,
}
use mochi_bake.ReturnCode.{
  success, err_pmem, err_out_of_bounds, err_unknown_region, err_op_unsupported,
}
use mochi_bake.FileBackend.{u64, sub64}
use mochi_bake.Backend.{Platform}

pub record Pmemobj (platform : Platform) : Type 1 where
  -- `PMEMoid`, and the casts between it and the content of a region id
  pub Oid : Type 0
  pub to_rid : Oid → Platform.Rid platform
  pub of_rid : Platform.Rid platform → Oid
  -- `pmemobj_alloc(pool, &oid, size, …)`
  pub alloc :
      Platform.World platform → Platform.Context platform → ℕ → ℤ × Oid × Platform.World platform
  -- `pmemobj_direct(oid)`
  pub direct : Platform.World platform → Oid → Option ℕ
  -- `pmemobj_free(&oid)`
  pub free : Platform.World platform → Oid → Platform.World platform
  -- `pmemobj_persist(pool, address, size)`
  pub flush : Platform.World platform → ℕ → ℕ → Platform.World platform
  -- the bytes at an address, and a copy of bytes to one
  pub load : Platform.World platform → ℕ → ℕ → List ℕ
  pub store : Platform.World platform → ℕ → List ℕ → Platform.World platform
  -- `margo_bulk_create` for memory of the region
  pub bulk_create : Platform.World platform → ℕ → ℕ → ℤ
  -- `margo_bulk_transfer(…, HG_BULK_PULL, remote address and handle, remote offset, …, size)`: the
  -- code, and the bytes that have come
  pub bulk_pull :
      Platform.World platform → Platform.Addr platform → Platform.Bulk platform → ℕ → ℕ → ℤ × List ℕ
  -- `margo_bulk_transfer(…, HG_BULK_PUSH, …)` for the bytes that are sent
  pub bulk_push :
      Platform.World platform
      → Platform.Addr platform
      → Platform.Bulk platform
      → ℕ
      → List ℕ
      → ℤ × Platform.World platform
  -- `margo_bulk_poolset_get` and `margo_bulk_poolset_get_max` of the provider's buffers, and the field
  -- "pipeline_enable" of its configuration
  pub poolset_get : Platform.World platform → Platform.Context platform → ℕ → ℤ
  pub poolset_max : Platform.Context platform → ℕ
  pub pipeline : Platform.World platform → Platform.Context platform → Bool

-- A uint64_t in memory, on a little-endian machine.
unfoldable pub word_bytes : ℕ → ℕ → List ℕ
word_bytes zero n = []
word_bytes (suc k) n = n % 256 ∷ word_bytes k (n / 256)

unfoldable pub word_value : List ℕ → ℕ
word_value [] = 0
word_value (b ∷ bs) = b + 256 * word_value bs

-- `region_content_t`: where the data stand.
abbrev pub header_size : Bool → ℕ
header_size sizecheck = if sizecheck then 8 else 0

module _ {platform : Platform} (pmem : Pmemobj platform) (sizecheck : Bool) where
  open platform use {World, Context}
  open pmem use {Oid, alloc, direct, free, flush, load, store}

  -- `region->size` and `region->data`.
  unfoldable pub region_size : World → ℕ → ℕ
  unfolding word_value
  region_size w region = word_value (load w region 8)

  abbrev pub region_bytes : ℕ → ℕ
  region_bytes region = region + header_size sizecheck

  -- `content_size`
  abbrev pub content_size : ℕ → ℕ
  content_size size = u64 (size + header_size sizecheck)

  abbrev pub write_size : World → ℕ → ℕ → World
  write_size w region size =
      if sizecheck then flush (store w region (word_bytes 8 size)) region 8 else w

  -- `bake_pmem_create`.
  unfoldable pub pmem_create : World → Context → ℕ → ℤ × Oid × World
  unfolding word_bytes
  pmem_create w ctx size =
      let (code, oid, w') = alloc w ctx (content_size size) in
      if not (is_zero code)
      then (err_pmem, oid, w')
      else if sizecheck
      then elim (direct w' oid) [
        | none ↦ (err_pmem, oid, w')
        | some region ↦ (success, oid, write_size w' region size)
      ]
      else (success, oid, w')

  -- `bake_pmem_write_raw`.
  unfoldable pub pmem_write_raw : World → Oid → ℕ → ℕ → List ℕ → ℤ × World
  unfolding region_size
  pmem_write_raw w oid offset size bytes = elim (direct w oid) [
    | none ↦ (err_pmem, w)
    | some region ↦
        if sizecheck && ltb (region_size w region) (u64 (size + offset))
        then (err_out_of_bounds, w)
        else (success, store w (u64 (region_bytes region + offset)) (take size bytes))
  ]

  -- The size that a read delivers, or `none` where it begins behind the region.
  unfoldable pub size_to_read : World → ℕ → ℕ → ℕ → Option ℕ
  unfolding region_size
  size_to_read w region offset size =
      if sizecheck && ltb (region_size w region) offset
      then none
      else if sizecheck && ltb (region_size w region) (u64 (offset + size))
      then some (sub64 (region_size w region) offset)
      else some size

  -- `bake_pmem_read_raw`, with the bytes that its reply then sends.
  unfoldable pub pmem_read_raw : World → Oid → ℕ → ℕ → ℤ × Option (List ℕ × ℕ)
  unfolding size_to_read
  pmem_read_raw w oid offset size = elim (direct w oid) [
    | none ↦ (err_unknown_region, none)
    | some region ↦ elim (size_to_read w region offset size) [
      | none ↦ (err_out_of_bounds, none)
      | some n ↦ (success, some (load w (u64 (region_bytes region + offset)) n, n))
    ]
  ]

  -- `bake_pmem_persist`.
  unfoldable pub pmem_persist : World → Oid → ℕ → ℕ → ℤ × World
  pmem_persist w oid offset size = elim (direct w oid) [
    | none ↦ (err_pmem, w)
    | some region ↦ (success, flush w (u64 (region_bytes region + offset)) size)
  ]

  -- The end of `bake_pmem_create_write_persist_raw`, with what `pmemobj_direct` gives.
  abbrev pub persisted_at : List ℕ → ℕ → Oid → World → Option ℕ → ℤ × Oid × World
  persisted_at bytes size oid w none = (err_pmem, oid, w)
  persisted_at bytes size oid w (some region) =
      let w₁ = if sizecheck then store w region (word_bytes 8 size) else w in
      let w₂ = store w₁ (region_bytes region) (take size bytes) in
      (success, oid, flush w₂ region (content_size size))

  abbrev pub persisted_in : List ℕ → ℕ → ℤ × Oid × World → ℤ × Oid × World
  persisted_in bytes size (code, oid, w) =
      if not (is_zero code)
      then (err_pmem, oid, w)
      else persisted_at bytes size oid w (direct w oid)

  -- `bake_pmem_create_write_persist_raw`.
  unfoldable pub pmem_create_write_persist_raw : World → Context → List ℕ → ℕ → ℤ × Oid × World
  pmem_create_write_persist_raw w ctx bytes size =
      persisted_in bytes size (alloc w ctx (content_size size))

  -- `bake_pmem_get_region_size`.
  unfoldable pub pmem_get_region_size : World → Oid → ℤ × ℕ
  unfolding region_size
  pmem_get_region_size w oid =
      if sizecheck
      then elim (direct w oid) [
        | none ↦ (err_pmem, 0)
        | some region ↦ (success, region_size w region)
      ]
      else (err_op_unsupported, 0)

  -- `bake_pmem_get_region_data`.
  unfoldable pub pmem_get_region_data : World → Oid → ℤ × ℕ
  pmem_get_region_data w oid = elim (direct w oid) [
    | none ↦ (err_unknown_region, 0)
    | some region ↦ (success, region_bytes region)
  ]

  -- `bake_pmem_remove`.
  unfoldable pub pmem_remove : World → Oid → ℤ × World
  pmem_remove w oid = (success, free w oid)
