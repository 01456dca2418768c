-- ===== src/Provider.antt =====
-- src/bake-server.c: a provider, and how targets are attached to it and detached from it.
-- The functions that take the provider's lock are one step each.
pub mod Targets
pub mod Pools
pub mod Setup
pub mod Rpc
pub mod FileService
use mathlib.Core.Option
use mochi_bake.Prelude.{
  ℕ, suc, ◌+◌, ◌-◌, ℤ, is_zero, is_neg, same_int, Bool, true, false, not, ◌&&◌, ◌||◌, Option, none,
  some, List, [], ◌∷◌, ◌++◌, ltb, ◌==◌, if◌then◌else◌, length, map, take, replicate,
}
use mochi_bake.ReturnCode.{
  success, err_allocation, err_invalid_arg, err_mercury, err_unknown_target, err_backend_type,
  err_noent,
}
use mochi_bake.Backend.{Platform, Backend}
use mochi_bake.Table.{Table}
use mochi_bake.FileBackend.{u64}

-- `strcmp(a, b) == 0`.
abbrev pub same_string : List ℕ → List ℕ → Bool
same_string [] [] = true
same_string [] (y ∷ ys) = false
same_string (x ∷ xs) [] = false
same_string (x ∷ xs) (y ∷ ys) = (x == y) && same_string xs ys

-- `strchr(name, ':')`: what stands before the first ':' and behind it.
abbrev pub split_colon : List ℕ → Option (List ℕ × List ℕ)
split_colon [] = none
split_colon (c ∷ cs) =
    let rest = Option.map (λ (p : List ℕ × List ℕ). (c ∷ p.0, p.1)) (split_colon cs) in
    if c == 58 then some ([], cs) else rest

-- "pmem" and "file".
abbrev pub pmem_name : List ℕ
pmem_name = 112 ∷ 109 ∷ 101 ∷ 109 ∷ []

abbrev pub file_name : List ℕ
file_name = 102 ∷ 105 ∷ 108 ∷ 101 ∷ []

-- The backend's name and the path in the name of a target.
unfoldable pub parse_target_name : List ℕ → List ℕ × List ℕ
parse_target_name name = elim (split_colon name) [ none ↦ (pmem_name, name) | some p ↦ p ]

-- The values that `bake_provider_set_param` takes for a bool.
abbrev pub parse_bool : List ℕ → Option Bool
parse_bool value =
    if same_string value (116 ∷ 114 ∷ 117 ∷ 101 ∷ []) || same_string value (49 ∷ [])
    then some true
    else if same_string value (102 ∷ 97 ∷ 108 ∷ 115 ∷ 101 ∷ []) || same_string value (48 ∷ [])
    then some false
    else none

-- "pipeline_enable"
abbrev pub pipeline_key : List ℕ
pipeline_key =
    112 ∷ 105 ∷ 112 ∷ 101 ∷ 108 ∷ 105 ∷ 110 ∷ 101 ∷ 95 ∷ 101 ∷ 110 ∷ 97 ∷ 98 ∷ 108 ∷ 101 ∷ []

-- `bake_target_t`. `address` is the entry's own, by which the code compares entries.
pub record Target (platform : Platform) : Type 0 where
  pub target_id : Platform.TargetId platform
  pub context : Platform.Context platform
  pub backend : Backend platform
  pub address : ℕ

-- `bake_provider`, without the lock, the ids of the RPCs and the members for REMI.
module _ (platform : Platform) (table : Table (Target platform) (Platform.TargetId platform)) where
  open platform use {
    World, Context, TargetId, Poolset, Config, poolset_create, poolset_destroy, pipeline_enable,
    set_pipeline_enable,
  }
  open table use {Carrier, empty, add, find, delete, iterate}

  pub record Provider : Type 0 where
    pub num_targets : ℕ
    pub targets : Carrier
    -- NULL, or a handle that `margo_bulk_poolset_create` gave
    pub poolset : Option Poolset
    pub json_cfg : Config

  -- `setup_poolset`.
  unfoldable pub setup_poolset : Provider → World → ℤ × Provider × World
  setup_poolset p w =
      let created = poolset_create w p.json_cfg in
      elim p.poolset [
        | none ↦
            if pipeline_enable p.json_cfg
            then if is_zero created.0
              then (success, record p { poolset = some created.1 }, created.2)
              else (err_mercury, p, created.2)
            else (success, p, w)
        | some pools ↦
            let destroyed = poolset_destroy w pools in
            if pipeline_enable p.json_cfg
            then (success, p, w)
            else if is_zero destroyed.0
            then (success, p, destroyed.1)
            else (err_mercury, p, destroyed.1)
      ]

  -- `bake_provider_set_param`.
  unfoldable pub set_param : Provider → World → List ℕ → List ℕ → ℤ × Provider × World
  unfolding setup_poolset
  set_param p w key value =
      if same_string key pipeline_key
      then elim (parse_bool value) [
        | none ↦ (err_invalid_arg, p, w)
        | some b ↦
            let (ret, p', w') =
              setup_poolset (record p { json_cfg = set_pipeline_enable p.json_cfg b }) w in
            (success, p', w')
      ]
      else (err_invalid_arg, p, w)

  -- `entry == p` for the address of an entry `p`.
  abbrev pub is_at : ℕ → Option (Target platform) → Bool
  is_at address none = false
  is_at address (some entry) = entry.address == address

  module _ (pmem file : Backend platform) where
    -- The backend with a name.
    unfoldable pub backend_named : List ℕ → Option (Backend platform)
    backend_named name =
        if same_string name pmem_name
        then some pmem
        else if same_string name file_name
        then some file
        else none

    -- The section of `bake_provider_attach_target` under the lock: the code, the id that goes to
    -- `*target_id`, the provider and the world. The entry that the table does not give back is freed,
    -- but not taken out of the table.
    unfoldable pub insert_target :
        Provider → World → Target platform → ℤ × Option TargetId × Provider × World
    insert_target p w entry =
        let targets' = add p.targets entry in
        if is_at entry.address (find targets' entry.target_id)
        then (
          success,
          some entry.target_id,
          record p { num_targets = u64 (p.num_targets + 1); targets = targets' },
          w,
        )
        else (
          err_allocation,
          none,
          record p { targets = targets' },
          entry.backend.finalize w entry.context,
        )

    -- `bake_provider_attach_target`; `address` is what `calloc` gives.
    unfoldable pub attach_target :
        Provider → World → List ℕ → ℕ → ℤ × Option TargetId × Provider × World
    unfolding insert_target backend_named parse_target_name
    attach_target p w target_name address =
        let (backend_type, path) = parse_target_name target_name in
        elim (backend_named backend_type) [
          | none ↦ (err_backend_type, none, p, w)
          | some backend ↦
              let (ret, tid, ctx, cfg, w') = backend.initialize w p.json_cfg path in
              let p' = record p { json_cfg = cfg } in
              if is_zero ret
              then insert_target p' w'
                  (record { target_id = tid; context = ctx; backend = backend; address = address })
              else (ret, none, p', w')
        ]

    -- `bake_create_raw_target`.
    unfoldable pub create_raw_target : World → List ℕ → ℕ → ℤ × World
    unfolding backend_named parse_target_name
    create_raw_target w name size =
        let (backend_type, path) = parse_target_name name in
        elim (backend_named backend_type) [
          | none ↦ (err_backend_type, w)
          | some backend ↦ backend.create_raw_target w path size
        ]

    -- `bake_provider_create_target`.
    unfoldable pub create_target :
        Provider → World → List ℕ → ℕ → ℕ → ℤ × Option TargetId × Provider × World
    unfolding create_raw_target attach_target
    create_target p w name size address =
        let (ret, w') = create_raw_target w name size in
        if is_neg ret then (ret, none, p, w') else attach_target p w' name address

    -- One round of the loop of `attach_targets`.
    unfoldable pub attach_or_create :
        Provider → World → List ℕ → ℕ → ℕ → ℤ × Option TargetId × Provider × World
    unfolding attach_target create_target
    attach_or_create p w name size address =
        let (ret, tid, p', w') = attach_target p w name address in
        if same_int ret err_noent then create_target p' w' name size address else (ret, tid, p', w')

  -- `snprintf(name, 256, "%s:%s", prefix, target)`.
  abbrev pub target_name : List ℕ → List ℕ → List ℕ
  target_name prefix target = take 255 (prefix ++ 58 ∷ target)

  -- `bake_provider_detach_target`.
  unfoldable pub detach_target : Provider → World → TargetId → ℤ × Provider × World
  detach_target p w tid = elim (find p.targets tid) [
    | none ↦ (err_unknown_target, p, w)
    | some entry ↦ (
      success,
      record p { targets = delete p.targets entry },
      entry.backend.finalize w entry.context,
    )
  ]

  -- The loop of `bake_provider_detach_all_targets`.
  unfoldable pub detach_each : List (Target platform) → Carrier → World → Carrier × World
  detach_each [] t w = (t, w)
  detach_each (e ∷ es) t w = detach_each es (delete t e) (e.backend.finalize w e.context)

  -- `bake_provider_detach_all_targets`.
  unfoldable pub detach_all_targets : Provider → World → ℤ × Provider × World
  unfolding detach_each
  detach_all_targets p w =
      let (t, w') = detach_each (iterate p.targets) p.targets w in
      (success, record p { num_targets = 0; targets = t }, w')

  -- `bake_provider_count_targets`.
  abbrev pub count_targets : Provider → ℕ
  count_targets p = p.num_targets

  -- What a list of ids makes of an array with `n` slots that nobody has set: the slots of the array
  -- from the first on, or `none` where a slot behind the array is written.
  abbrev pub fill : ℕ → List TargetId → Option (List (Option TargetId))
  fill n tids =
      if ltb n (length tids) then none else some (map some tids ++ replicate (n - length tids) none)

  -- `bake_provider_list_targets`, on an array with `n` slots.
  unfoldable pub list_targets : Provider → ℕ → Option (List (Option TargetId))
  list_targets p n = fill n (map (λ (e : Target platform). e.target_id) (iterate p.targets))
