-- ===== src/Messages.antt =====
-- The messages of src/bake-rpc.h that requests carry.
use mochi_bake.Prelude.{ℕ, Option, List}
use mochi_bake.Backend.{Platform}

module _ (platform : Platform) where
  open platform use {TargetId, Rid, Bulk}

  pub record CreateIn : Type 0 where
    pub bti : TargetId
    pub region_size : ℕ

  -- `bake_write_in_t` and `bake_read_in_t`.
  pub record BulkIn : Type 0 where
    pub bti : TargetId
    pub rid : Rid
    pub region_offset : ℕ
    pub bulk_handle : Bulk
    pub bulk_offset : ℕ
    pub bulk_size : ℕ
    pub remote_addr_str : Option (List ℕ)

  pub record EagerWriteIn : Type 0 where
    pub bti : TargetId
    pub rid : Rid
    pub region_offset : ℕ
    pub size : ℕ
    pub bytes : List ℕ

  pub record PersistIn : Type 0 where
    pub bti : TargetId
    pub rid : Rid
    pub offset : ℕ
    pub size : ℕ

  pub record CreateWritePersistIn : Type 0 where
    pub bti : TargetId
    pub region_size : ℕ
    pub bulk_handle : Bulk
    pub bulk_offset : ℕ
    pub bulk_size : ℕ
    pub remote_addr_str : Option (List ℕ)

  pub record EagerCreateWritePersistIn : Type 0 where
    pub bti : TargetId
    pub size : ℕ
    pub bytes : List ℕ

  -- `bake_get_size_in_t`, `bake_get_data_in_t` and `bake_remove_in_t`.
  pub record RegionIn : Type 0 where
    pub bti : TargetId
    pub rid : Rid

  pub record EagerReadIn : Type 0 where
    pub bti : TargetId
    pub rid : Rid
    pub region_offset : ℕ
    pub size : ℕ

  pub record MigrateRegionIn : Type 0 where
    pub bti : TargetId
    pub source_rid : Rid
    pub region_size : ℕ
    pub remove_src : ℕ
    pub dest_addr : List ℕ
    pub dest_provider_id : ℕ
    pub dest_target_id : TargetId

  pub record MigrateTargetIn : Type 0 where
    pub bti : TargetId
    pub remove_src : ℕ
    pub dest_remi_addr : List ℕ
    pub dest_remi_provider_id : ℕ
    pub dest_root : List ℕ
