-- ===== src/Pmem/Service.antt =====
-- `g_bake_pmem_backend` of src/bake-pmem-backend.c as a backend of the handlers of src/bake-server.c:
-- how pools are made, opened and closed, and how a region is sent to another provider.
use mathlib.Core.Option
use mochi_bake.Prelude.{
  ℕ, ℤ, negsuc, is_zero, Bool, not, ◌&&◌, Option, none, some, List, if◌then◌else◌, ◌==◌,
}
use mochi_bake.ReturnCode.{
  success, err_pmem, err_noent, err_unknown_target, err_unknown_region, err_invalid_arg,
  err_mercury,
}
use mochi_bake.Backend.{Platform, Backend}
use mochi_bake.Provider.{pmem_name}
use mochi_bake.Client.{Margo, Sent, not_created, not_forwarded, no_output, answered, send}
use mochi_bake.Pmem.{
  Pmemobj, region_size, region_bytes, pmem_create, pmem_write_raw, pmem_read_raw, pmem_persist,
  pmem_create_write_persist_raw, pmem_get_region_size, pmem_get_region_data, pmem_remove,
}
use mochi_bake.Pmem.Transfer.{pmem_write_bulk, pmem_read_bulk, pmem_create_write_persist_bulk}

-- Pools, and the members of the configuration that a target is entered in.
pub record Pools (platform : Platform) : Type 0 where
  -- `pmemobj_create`, NULL where it fails
  pub create_pool :
      Platform.World platform
      → List ℕ
      → ℕ
      → Option (Platform.Context platform) × Platform.World platform
  -- `uuid_generate` into the root object, and its `pmemobj_persist`
  pub generate_id : Platform.World platform → Platform.Context platform → Platform.World platform
  -- `pmemobj_open`, NULL where it fails
  pub open_pool : Platform.World platform → List ℕ → Option (Platform.Context platform)
  -- the id in the root object
  pub pool_id : Platform.World platform → Platform.Context platform → Platform.TargetId platform
  pub is_null : Platform.TargetId platform → Bool
  pub close_pool : Platform.World platform → Platform.Context platform → Platform.World platform
  -- CONFIG_HAS_OR_CREATE_OBJECT of "pmem_backend", CONFIG_HAS_OR_CREATE of its
  -- "default_initial_target_size" and CONFIG_HAS_OR_CREATE_ARRAY of its "targets": the configuration
  -- then, or none where the member has another type
  pub backend_member : Platform.Config platform → Option (Platform.Config platform)
  pub size_member : Platform.Config platform → ℕ → Option (Platform.Config platform)
  pub targets_member : Platform.Config platform → Option (Platform.Config platform)
  -- `json_object_array_add` to "targets"
  pub add_target : Platform.Config platform → List ℕ → Platform.Config platform
  -- what stands in the caller's variables where nothing is stored
  pub no_id : Platform.TargetId platform
  pub no_context : Platform.Context platform

module _ {platform : Platform} (pools : Pools platform) where
  open platform use {World, Context, TargetId, Config}
  open pools use {
    create_pool, generate_id, open_pool, pool_id, is_null, close_pool, backend_member, size_member,
    targets_member, add_target, no_id, no_context,
  }

  abbrev initialized_pool : Option Context × World → ℤ × World
  initialized_pool (none, w) = (err_pmem, w)
  initialized_pool (some pool, w) = (success, close_pool (generate_id w pool) pool)

  -- `bake_pmem_makepool`.
  unfoldable pub pmem_makepool : World → List ℕ → ℕ → ℤ × World
  pmem_makepool w name size = initialized_pool (create_pool w name size)

  abbrev not_opened : ℤ → Config → World → ℤ × TargetId × Context × Config × World
  not_opened code cfg w = (code, no_id, no_context, cfg, w)

  -- From `pmemobj_open` on.
  abbrev opened_pool :
      World → Config → List ℕ → Option Context → ℤ × TargetId × Context × Config × World
  opened_pool w cfg path none = not_opened err_noent cfg w
  opened_pool w cfg path (some pool) =
      if is_null (pool_id w pool)
      then not_opened err_unknown_target cfg (close_pool w pool)
      else (success, pool_id w pool, pool, add_target cfg path, w)

  -- `bake_pmem_backend_initialize`: -1 where a member of the configuration has another type.
  unfoldable pub pmem_backend_initialize :
      World → Config → List ℕ → ℤ × TargetId × Context × Config × World
  pmem_backend_initialize w cfg path = elim (backend_member cfg) [
    | none ↦ not_opened (negsuc 0) cfg w
    | some c₁ ↦ elim (size_member c₁ 1073741824) [
      | none ↦ not_opened (negsuc 0) c₁ w
      | some c₂ ↦ elim (targets_member c₂) [
        | none ↦ not_opened (negsuc 0) c₂ w
        | some c₃ ↦ opened_pool w c₃ path (open_pool w path)
      ]
    ]
  ]

  -- `bake_pmem_backend_finalize`.
  unfoldable pub pmem_backend_finalize : World → Context → World
  pmem_backend_finalize w pool = close_pool w pool

module _ {platform : Platform} (pmem : Pmemobj platform) (sizecheck : Bool)
    (margo : Margo platform) where
  open platform use {World, Context, Rid, Bulk, Addr, TargetId}
  open pmem use {Oid, direct, free, load}

  -- What `bake_pmem_migrate_region` does with the answer of the other provider.
  abbrev pub migrated : Oid → ℕ → Sent platform Rid → ℤ × Rid × World
  migrated oid remove_source (not_created w) = (err_mercury, platform.zero_rid, w)
  migrated oid remove_source (not_forwarded w) = (err_mercury, platform.zero_rid, w)
  migrated oid remove_source (no_output w) = (err_mercury, platform.zero_rid, w)
  migrated oid remove_source (answered w ret rid) =
      if not (is_zero ret)
      then (ret, platform.zero_rid, w)
      else if remove_source == 0
      then (success, rid, w)
      else (success, rid, free w oid)

  -- The request to the other provider, for the data of a region; `unset` is what the local variable
  -- `cwp_in.region_size` held there, since nothing sets it.
  abbrev pub send_region : World → ℕ → ℕ → ℕ → Addr → ℕ → TargetId → ℕ → Oid → ℤ × Rid × World
  send_region w region size remove_source addr dest_provider_id dest_target_id unset oid =
      let (code, bulk, w') =
        margo.bulk_create w (load w (region_bytes pmem sizecheck region) size) in
      if not (is_zero code)
      then (err_mercury, platform.zero_rid, w')
      else migrated oid remove_source (
          send platform margo.create_write_persist w'
            (record { addr = addr; provider_id = dest_provider_id; eager_limit = 0 })
            (record {
              bti = dest_target_id;
              region_size = unset;
              bulk_handle = bulk;
              bulk_offset = 0;
              bulk_size = size;
              remote_addr_str = none;
            }))

  -- `bake_pmem_migrate_region`.
  unfoldable pub pmem_migrate_region :
      ℕ → World → Oid → ℕ → ℕ → List ℕ → ℕ → TargetId → ℤ × Rid × World
  unfolding region_size
  pmem_migrate_region unset w oid size remove_source dest_addr dest_provider_id dest_target_id =
      elim (direct w oid) [
        | none ↦ (err_unknown_region, platform.zero_rid, w)
        | some region ↦
            let (code, addr) = platform.addr_lookup w dest_addr in
            if sizecheck && not (size == region_size pmem sizecheck w region)
            then (err_invalid_arg, platform.zero_rid, w)
            else if not (is_zero code)
            then (err_mercury, platform.zero_rid, w)
            else send_region w region size remove_source addr dest_provider_id dest_target_id unset
                oid
      ]

  module _ (pools : Pools platform) (fuel unset : ℕ) where
    abbrev pub as_rid : ℤ × Oid × World → ℤ × Rid × World
    as_rid (ret, oid, w) = (ret, pmem.to_rid oid, w)

    -- `g_bake_pmem_backend`.
    unfoldable pub pmem_backend : Backend platform
    pmem_backend = record {
      name = pmem_name;
      initialize = pmem_backend_initialize pools;
      finalize = pmem_backend_finalize pools;
      create = λ w c size. some (as_rid (pmem_create pmem sizecheck w c size));
      write_raw = λ w c rid offset size bytes.
          some (pmem_write_raw pmem sizecheck w (pmem.of_rid rid) offset size bytes);
      write_bulk = λ w c rid offset size bulk addr bulk_offset.
          pmem_write_bulk pmem sizecheck fuel w c (pmem.of_rid rid) offset size bulk addr
            bulk_offset;
      read_raw = λ w c rid offset size.
          some (pmem_read_raw pmem sizecheck w (pmem.of_rid rid) offset size);
      read_bulk = λ w c rid offset size bulk addr bulk_offset.
          some
            (pmem_read_bulk pmem sizecheck w (pmem.of_rid rid) offset size bulk addr bulk_offset);
      persist =
          λ w c rid offset size. some (pmem_persist pmem sizecheck w (pmem.of_rid rid) offset size);
      create_write_persist_raw = some (λ w c bytes size.
          some (as_rid (pmem_create_write_persist_raw pmem sizecheck w c bytes size)));
      create_write_persist_bulk = some (λ w c bulk addr bulk_offset size.
          Option.map as_rid
            (pmem_create_write_persist_bulk pmem sizecheck fuel w c bulk addr bulk_offset size));
      get_region_size = λ w c rid. some (pmem_get_region_size pmem sizecheck w (pmem.of_rid rid));
      get_region_data = λ w c rid. some (pmem_get_region_data pmem sizecheck w (pmem.of_rid rid));
      remove = λ w c rid. some (pmem_remove pmem sizecheck w (pmem.of_rid rid));
      migrate_region = λ w c rid size remove_source dest_addr dest_provider_id dest_target_id.
          some (
            pmem_migrate_region unset w (pmem.of_rid rid) size remove_source dest_addr
              dest_provider_id dest_target_id);
      create_raw_target = pmem_makepool pools;
    }
