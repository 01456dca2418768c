-- ===== src/Provider/Setup.antt =====
-- src/bake-server.c: how a provider is registered with its configuration and targets, and deregistered.
-- Allocations succeed; the pool in which the handlers run, the messages and REMI are left out.
pub mod Rpcs
pub mod Undone
pub mod Names
use mathlib.Core.Option
use mochi_bake.Prelude.{
  ℕ, zero, suc, ◌+◌, ℤ, negsuc, is_zero, is_neg, same_int, Bool, true, false, not, Option, none,
  some, List, [], ◌∷◌, ◌++◌, if◌then◌else◌, ◌==◌, length, map, ◌>>=◌,
}
use mochi_bake.ReturnCode.{success, err_argobots, err_invalid_arg, err_mercury}
use mochi_bake.Backend.{Platform, Backend}
use mochi_bake.Table.{Table}
use mochi_bake.Registry.{
  RpcName, create_rpc, write_rpc, eager_write_rpc, eager_read_rpc, persist_rpc,
  create_write_persist_rpc, eager_create_write_persist_rpc, get_size_rpc, get_data_rpc, read_rpc,
  probe_rpc, noop_rpc, remove_rpc, migrate_region_rpc, migrate_target_rpc, Registry,
}
use mochi_bake.Provider.{
  Target, Provider, setup_poolset, attach_or_create, target_name, detach_all_targets, pmem_name,
  file_name,
}

-- The members of the configuration that have a number.
pub data Pipeline : Type 0 where
  npools nbuffers_per_pool first_buffer_size multiplier : Pipeline

-- json-c, as these functions use it. A backend's object is the one with the backend's name and
-- "_backend"; its "targets" are an array of strings.
pub record Json (platform : Platform) : Type 0 where
  -- `json_tokener_parse_ex`, NULL where the text is none
  pub parse : List ℕ → Option (Platform.Config platform)
  pub new_object : Platform.Config platform
  -- CONFIG_OVERRIDE_STRING of "version"
  pub set_version : Platform.Config platform → Platform.Config platform
  -- CONFIG_HAS_OR_CREATE: none where the member has another type
  pub enable_member : Platform.Config platform → Bool → Option (Platform.Config platform)
  pub int_member : Platform.Config platform → Pipeline → ℕ → Option (Platform.Config platform)
  -- CONFIG_HAS of a backend's object, of its "default_initial_target_size", which is read as a size_t,
  -- and of its "targets"
  pub has_backend : Platform.Config platform → List ℕ → Bool
  pub target_size : Platform.Config platform → List ℕ → Option ℕ
  pub target_list : Platform.Config platform → List ℕ → Option (List (List ℕ))
  -- `json_object_object_del` of the "targets"
  pub delete_targets : Platform.Config platform → List ℕ → Platform.Config platform
  -- CONFIG_HAS_OR_CREATE of the pmem backend's "default_initial_target_size"
  pub size_member : Platform.Config platform → ℕ → Option (Platform.Config platform)

-- The numbers from `start` on, as many as `n`.
unfoldable pub count_from : ℕ → ℕ → List ℕ
count_from start zero = []
count_from start (suc n) = start ∷ count_from (suc start) n

-- The order in which `bake_provider_register` registers the RPCs.
abbrev pub registration_order : List RpcName
registration_order =
    create_rpc ∷ write_rpc ∷ eager_write_rpc ∷ eager_read_rpc ∷ persist_rpc
    ∷ create_write_persist_rpc ∷ eager_create_write_persist_rpc ∷ get_size_rpc ∷ get_data_rpc
    ∷ read_rpc ∷ probe_rpc ∷ noop_rpc ∷ remove_rpc ∷ migrate_region_rpc ∷ migrate_target_rpc ∷ []

-- The order in which they are deregistered.
abbrev pub deregistration_order : List RpcName
deregistration_order =
    create_rpc ∷ write_rpc ∷ eager_write_rpc ∷ persist_rpc ∷ create_write_persist_rpc
    ∷ eager_create_write_persist_rpc ∷ get_size_rpc ∷ get_data_rpc ∷ read_rpc ∷ eager_read_rpc
    ∷ probe_rpc ∷ noop_rpc ∷ remove_rpc ∷ migrate_region_rpc ∷ migrate_target_rpc ∷ []

module _ (registry : Registry) where
  open registry use {State, id_of, registered, register, register_data, deregister}

  -- MARGO_REGISTER_PROVIDER and `margo_register_data` for each RPC.
  unfoldable pub register_rpcs : List RpcName → ℕ → State → State
  register_rpcs [] provider_id s = s
  register_rpcs (name ∷ names) provider_id s =
      let rpc_id = id_of name (some provider_id) in
      register_rpcs names provider_id (register_data (register s rpc_id) rpc_id)

  unfoldable pub deregister_rpcs : List RpcName → ℕ → State → State
  deregister_rpcs [] provider_id s = s
  deregister_rpcs (name ∷ names) provider_id s =
      deregister_rpcs names provider_id (deregister s (id_of name (some provider_id)))

  -- The client's version of "bake_create_write_persist_rpc".
  abbrev pub client_id : ℕ
  client_id = id_of create_write_persist_rpc none

  abbrev pub register_client_version : State → State
  register_client_version s = if registered s client_id then s else register s client_id

module _ {platform : Platform} (json : Json platform) where
  open platform use {Config}
  open json use {parse, new_object, set_version, enable_member, int_member}

  -- The configuration that `bake_provider_register` starts with; an empty string counts as none.
  abbrev pub read_config : Option (List ℕ) → Option Config
  read_config none = some new_object
  read_config (some []) = some new_object
  read_config (some (c ∷ cs)) = parse (c ∷ cs)

  -- `validate_and_complete_config`: none for the `return -1`.
  unfoldable pub validate_and_complete_config : Config → Option Config
  validate_and_complete_config config = enable_member (set_version config) false >>= λ c₁.
      int_member c₁ npools 4 >>= λ c₂. int_member c₂ nbuffers_per_pool 32 >>= λ c₃.
      int_member c₃ first_buffer_size 65536 >>= λ c₄. int_member c₄ multiplier 4

module _ (platform : Platform) (table : Table (Target platform) (Platform.TargetId platform))
    (json : Json platform) (pmem file : Backend platform) where
  open platform use {World, Config, poolset_destroy}
  open json use {has_backend, target_size, target_list, delete_targets, size_member}

  -- The loop of `attach_targets` over the names that it has built, from the `i`th on: its code, and
  -- which of the names it has freed.
  unfoldable pub attach_names :
      Provider platform table
      → World
      → List (List ℕ)
      → ℕ
      → (ℕ → ℕ)
      → ℕ
      → ℤ × Provider platform table × World × List ℕ
  attach_names p w [] size address i = (success, p, w, [])
  attach_names p w (name ∷ names) size address i =
      let (ret, _, p', w') = attach_or_create platform table pmem file p w name size (address i) in
      let (ret', p'', w'', freed) = attach_names p' w' names size address (suc i) in
      if is_zero ret then (ret', p'', w'', i ∷ freed) else (ret, p', w', [])

  -- The end of `attach_targets`: its code, and the names that are freed, in their order.
  abbrev pub names_freed :
      ℕ
      → ℤ × Provider platform table × World × List ℕ
      → ℤ × Provider platform table × World × List ℕ
  names_freed n (ret, p, w, freed) =
      if is_zero ret then (success, p, w, freed) else (ret, p, w, freed ++ count_from 0 n)

  -- `default_initial_target_size`: 0 where the configuration has no such member.
  abbrev pub initial_size : Config → List ℕ → ℕ
  initial_size config prefix = elim (target_size config prefix) [ none ↦ 0 | some n ↦ n ]

  -- `attach_targets`.
  unfoldable pub attach_targets :
      Provider platform table
      → World
      → List ℕ
      → (ℕ → ℕ)
      → ℤ × Provider platform table × World × List ℕ
  unfolding attach_names
  attach_targets p w prefix address =
      let size = initial_size p.json_cfg prefix in
      elim (target_list p.json_cfg prefix) [
        | none ↦ (success, p, w, [])
        | some given ↦
            let names = map (target_name platform table prefix) given in
            names_freed (length names) (
              attach_names (record p { json_cfg = delete_targets p.json_cfg prefix }) w names size
                address 0)
      ]

  -- `configure_targets`, for the targets of a backend.
  abbrev pub configure_file :
      Provider platform table → World → (ℕ → ℕ) → ℤ × Provider platform table × World
  configure_file p w address =
      let (ret, p', w', _) = attach_targets p w file_name address in
      if has_backend p.json_cfg file_name then (ret, p', w') else (success, p, w)

  abbrev pub configure_pmem :
      Provider platform table → World → (ℕ → ℕ) → ℤ × Provider platform table × World
  configure_pmem p w address =
      if has_backend p.json_cfg pmem_name
      then elim (size_member p.json_cfg 1073741824) [
        | none ↦ (negsuc 0, p, w)
        | some cfg ↦
            let (ret, p', w', _) =
              attach_targets (record p { json_cfg = cfg }) w pmem_name address in
            (ret, p', w')
      ]
      else (success, p, w)

  -- `configure_targets`; `address` is what `calloc` gives for the targets of a backend.
  unfoldable pub configure_targets :
      Provider platform table → World → (List ℕ → ℕ → ℕ) → ℤ × Provider platform table × World
  unfolding attach_targets
  configure_targets p w address =
      let (ret, p', w') = configure_file p w (address file_name) in
      if is_zero ret then configure_pmem p' w' (address pmem_name) else (ret, p', w')

  -- The destruction of the buffers that a provider has.
  abbrev pub destroy_poolset : Provider platform table → World → World
  destroy_poolset p w = elim p.poolset [ none ↦ w | some pools ↦ (poolset_destroy w pools).1 ]

  module _ (registry : Registry) where
    open registry use {
      State, id_of, registered, push_finalize, pop_finalize, rwlock_create, rwlock_free,
    }

    -- The label `error` of `bake_provider_register` where the RPCs are registered: the test of
    -- `rpc_create_id` holds there, since the id of a registered RPC is not 0.
    abbrev pub undo_registration : ℕ → Provider platform table → World → State → World × State
    undo_registration provider_id p w s =
        let (_, p', w') = detach_all_targets platform table p w in
        (
          destroy_poolset p' w',
          rwlock_free (deregister_rpcs registry deregistration_order provider_id s),
        )

    -- `bake_provider_register` from the registration of the RPCs on.
    abbrev pub register_with :
        ℕ
        → Provider platform table
        → World
        → State
        → (List ℕ → ℕ → ℕ)
        → ℤ × Option (Provider platform table) × World × State
    register_with provider_id p w s address =
        let s' =
          register_client_version registry
            (register_rpcs registry registration_order provider_id s) in
        let (ret, p', w') = configure_targets p w address in
        if is_neg ret
        then (
          err_invalid_arg,
          none,
          (undo_registration provider_id p' w' s').0,
          (undo_registration provider_id p' w' s').1,
        )
        else (success, some p', w', push_finalize s' provider_id)

    -- `bake_provider_register` from the allocation of the provider on.
    abbrev pub register_configured :
        ℕ
        → Config
        → World
        → State
        → (List ℕ → ℕ → ℕ)
        → ℤ × Option (Provider platform table) × World × State
    register_configured provider_id config w s address =
        let (ret, p, w') =
          setup_poolset platform table
            (record { num_targets = 0; targets = table.empty; poolset = none; json_cfg = config })
            w in
        let (code, s') = rwlock_create s in
        if not (is_zero ret)
        then (ret, none, destroy_poolset p w', s)
        else if not (is_zero code)
        then (err_argobots, none, destroy_poolset p w', s')
        else register_with provider_id p w' s' address

    -- `bake_provider_register`, with the text of the configuration.
    unfoldable pub provider_register :
        ℕ
        → Option (List ℕ)
        → World
        → State
        → (List ℕ → ℕ → ℕ)
        → ℤ × Option (Provider platform table) × World × State
    unfolding register_rpcs deregister_rpcs configure_targets
    provider_register provider_id json_config w s address =
        if registered s (id_of probe_rpc (some provider_id))
        then (err_mercury, none, w, s)
        else elim (read_config json json_config >>= validate_and_complete_config json) [
          | none ↦ (err_invalid_arg, none, w, s)
          | some config ↦ register_configured provider_id config w s address
        ]

    -- `bake_server_finalize_cb`.
    unfoldable pub server_finalize_cb : ℕ → Provider platform table → World → State → World × State
    unfolding deregister_rpcs
    server_finalize_cb provider_id p w s =
        let (_, p', w') = detach_all_targets platform table p w in
        (
          destroy_poolset p' w',
          rwlock_free (deregister_rpcs registry deregistration_order provider_id s),
        )

    -- `bake_provider_deregister`.
    unfoldable pub provider_deregister :
        ℕ → Provider platform table → World → State → ℤ × World × State
    unfolding server_finalize_cb
    provider_deregister provider_id p w s =
        let (w', s') = server_finalize_cb provider_id p w (pop_finalize s provider_id) in
        (success, w', s')
