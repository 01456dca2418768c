-- ===== src/Backend.antt =====
-- src/bake-backend.h: the operations that a storage backend gives to the provider, and the types that
-- stand for what they pass on. `none` is a call that does not come back, or whose behaviour C leaves
-- undefined.
use mochi_bake.Prelude.{ℕ, ℤ, Bool, Option, List}

-- What the code of the provider treats as opaque, with the calls of Margo and json-c that it makes.
pub record Platform : Type 1 where
  pub World : Type 0
  -- `backend_context_t`
  pub Context : Type 0
  -- `bake_target_id_t`, compared by HASH_FIND
  pub TargetId : Type 0
  -- `bake_region_id_t`, and the one whose bytes are 0
  pub Rid : Type 0
  pub zero_rid : Rid
  -- `hg_bulk_t` and `hg_addr_t`
  pub Bulk : Type 0
  pub Addr : Type 0
  -- `margo_addr_lookup`, and `margo_addr_dup` of the caller's address
  pub addr_lookup : World → List ℕ → ℤ × Addr
  pub addr_dup : World → ℤ × Addr
  -- `margo_bulk_poolset_t`, made from the configuration
  pub Poolset : Type 0
  pub Config : Type 0
  pub poolset_create : World → Config → ℤ × Poolset × World
  pub poolset_destroy : World → Poolset → ℤ × World
  -- the field "pipeline_enable" of the configuration
  pub pipeline_enable : Config → Bool
  pub set_pipeline_enable : Config → Bool → Config

module _ (platform : Platform) where
  open platform use {World, Context, TargetId, Rid, Bulk, Addr, Config}

  -- `bake_backend`.
  pub record Backend : Type 0 where
    pub name : List ℕ
    -- The configuration of the provider is read, and the target's path is entered in it.
    pub initialize : World → Config → List ℕ → ℤ × TargetId × Context × Config × World
    pub finalize : World → Context → World
    pub create : World → Context → ℕ → Option (ℤ × Rid × World)
    pub write_raw : World → Context → Rid → ℕ → ℕ → List ℕ → Option (ℤ × World)
    pub write_bulk : World → Context → Rid → ℕ → ℕ → Bulk → Addr → ℕ → Option (ℤ × World)
    pub read_raw : World → Context → Rid → ℕ → ℕ → Option (ℤ × Option (List ℕ × ℕ))
    pub read_bulk : World → Context → Rid → ℕ → ℕ → Bulk → Addr → ℕ → Option (ℤ × ℕ × World)
    pub persist : World → Context → Rid → ℕ → ℕ → Option (ℤ × World)
    -- NULL in a backend that has no such operation.
    pub create_write_persist_raw : Option (World → Context → List ℕ → ℕ → Option (ℤ × Rid × World))
    pub create_write_persist_bulk :
        Option (World → Context → Bulk → Addr → ℕ → ℕ → Option (ℤ × Rid × World))
    pub get_region_size : World → Context → Rid → Option (ℤ × ℕ)
    pub get_region_data : World → Context → Rid → Option (ℤ × ℕ)
    pub remove : World → Context → Rid → Option (ℤ × World)
    pub migrate_region :
        World → Context → Rid → ℕ → ℕ → List ℕ → ℕ → TargetId → Option (ℤ × Rid × World)
    pub create_raw_target : World → List ℕ → ℕ → ℤ × World
