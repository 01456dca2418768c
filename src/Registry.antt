-- ===== src/Registry.antt =====
-- The RPCs of src/bake-rpc.h under their names, and the registration of RPCs in a Margo instance, as a
-- parameter with its documented laws.
use mochi_bake.Prelude.{ℕ, ℤ, ◌≡◌, Bool, not, ◌&&◌, ◌||◌, Option, ◌==◌}

-- "bake_create_rpc", "bake_write_rpc", …
pub data RpcName : Type 0 where
  create_rpc write_rpc eager_write_rpc eager_read_rpc persist_rpc create_write_persist_rpc
        eager_create_write_persist_rpc get_size_rpc get_data_rpc read_rpc probe_rpc noop_rpc
        remove_rpc migrate_region_rpc migrate_target_rpc :
      RpcName

pub record Registry : Type 1 where
  pub State : Type 0
  -- the id that an RPC has, of a provider with an id or of a client, by its name
  pub id_of : RpcName → Option ℕ → ℕ
  -- `margo_registered_name`, `margo_provider_registered_name`
  pub registered : State → ℕ → Bool
  -- MARGO_REGISTER, MARGO_REGISTER_PROVIDER, `margo_register_data`, `margo_deregister`
  pub register : State → ℕ → State
  pub register_data : State → ℕ → State
  pub deregister : State → ℕ → State
  -- `margo_provider_push_finalize_callback` and its counterpart, for a provider with an id
  pub push_finalize : State → ℕ → State
  pub pop_finalize : State → ℕ → State
  -- `ABT_rwlock_create` and `ABT_rwlock_free`
  pub rwlock_create : State → ℤ × State
  pub rwlock_free : State → State

module _ (registry : Registry) where
  open registry use {
    State, registered, register, register_data, deregister, push_finalize, pop_finalize,
    rwlock_create, rwlock_free,
  }

  -- The documented behaviour.
  pub record IsRegistry : Type 0 where
    pub register_is :
        (s : State) (i k : ℕ) → registered (register s i) k ≡ ((i == k) || registered s k)
    pub deregister_is :
        (s : State) (i k : ℕ) → registered (deregister s i) k ≡ (not (i == k) && registered s k)
    pub register_data_is : (s : State) (i k : ℕ) → registered (register_data s i) k ≡ registered s k
    pub push_is : (s : State) (i k : ℕ) → registered (push_finalize s i) k ≡ registered s k
    pub pop_is : (s : State) (i k : ℕ) → registered (pop_finalize s i) k ≡ registered s k
    pub lock_is : (s : State) (k : ℕ) → registered (rwlock_create s).1 k ≡ registered s k
    pub unlock_is : (s : State) (k : ℕ) → registered (rwlock_free s) k ≡ registered s k
