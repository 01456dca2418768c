-- ===== src/Provider/Rpc.antt =====
-- The RPC handlers of src/bake-server.c, with the macros they share. A handler gives its reply, the new state of the world, and what its clean-up frees;
-- `none` is a handler that does not come back from its backend.
pub mod Replies
pub mod Combined
use mathlib.Core.Option
use mochi_bake.Prelude.{
  ℕ, ◌+◌, ◌-◌, ℤ, is_zero, Bool, true, false, not, Option, none, some, List, [], ◌∷◌, if◌then◌else◌,
  ◌>>=◌,
}
use mochi_bake.ReturnCode.{
  success, err_mercury, err_unknown_target, err_unknown_provider, err_op_unsupported,
}
use mochi_bake.Backend.{Platform, Backend}
use mochi_bake.Table.{Table}
use mochi_bake.Messages.{
  CreateIn, BulkIn, EagerWriteIn, PersistIn, CreateWritePersistIn, EagerCreateWritePersistIn,
  RegionIn, EagerReadIn, MigrateRegionIn,
}
use mochi_bake.Provider.{Target, Provider, count_targets, list_targets}

-- What the code behind `finish:` hands back: the decoded input, the address that bulk transfers go to,
-- and the buffer of an eager read. The flag says whether the variable had been set before.
pub data Freed : Type 0 where
  input address buffer : Bool → Freed

module _ (platform : Platform) (table : Table (Target platform) (Platform.TargetId platform)) where
  open platform use {World, TargetId, Rid, zero_rid, Bulk, Addr, addr_lookup, addr_dup}

  -- A reply with the members of the out structure behind `ret`.
  pub record Reply (Out : Type 0) : Type 0 where
    pub ret : ℤ
    pub out : Out
    pub world : World
    pub freed : List Freed

  -- What a handler has of a request: the provider it is for, if there is one, and the input, if it can
  -- be decoded.
  pub record Request (In : Type 0) : Type 0 where
    pub provider : Option (Provider platform table)
    pub input : Option In

  -- FIND_PROVIDER, GET_RPC_INPUT and FIND_TARGET: the code with which they go to `finish`, with a flag
  -- whether the input was decoded, or the input and the target.
  pub data Found (In : Type 0) : Type 0 where
    rejected : ℤ → Bool → Found In
    located : In → Target platform → Found In

  abbrev pub found_target : {In : Type 0} → In → Option (Target platform) → Found In
  found_target i none = rejected err_unknown_target true
  found_target i (some t) = located i t

  abbrev pub found_input :
      {In : Type 0} → (In → TargetId) → Provider platform table → Option In → Found In
  found_input bti p none = rejected err_mercury false
  found_input bti p (some i) = found_target i (table.find p.targets (bti i))

  unfoldable pub locate : {In : Type 0} → (In → TargetId) → Request In → Found In
  locate bti r = elim r.provider [
    | none ↦ rejected err_unknown_provider false
    | some p ↦ found_input bti p r.input
  ]

  -- `remote_addr_str`: NULL, or a string.
  unfoldable pub source_addr : World → Option (List ℕ) → ℤ × Addr
  source_addr w none = addr_dup w
  source_addr w (some []) = addr_dup w
  source_addr w (some (c ∷ cs)) = addr_lookup w (c ∷ cs)

  abbrev pub reply_unit : ℤ → World → List Freed → Reply Unit
  reply_unit ret w freed = record { ret = ret; out = tt; world = w; freed = freed }

  abbrev pub reply_with : {Out : Type 0} → ℤ → Out → World → List Freed → Reply Out
  reply_with ret out w freed = record { ret = ret; out = out; world = w; freed = freed }

  -- `bake_create_ult`.
  unfoldable pub create_ult : World → Request (CreateIn platform) → Option (Reply Rid)
  unfolding locate
  create_ult w r = elim (locate (λ i. i.bti) r) [
    | rejected ret decoded ↦ some (reply_with ret zero_rid w (input decoded ∷ []))
    | located i target ↦
        Option.map (λ (ret, rid, w'). reply_with ret rid w' (input true ∷ []))
          (target.backend.create w target.context i.region_size)
  ]

  -- `bake_write_ult`.
  unfoldable pub write_ult : World → Request (BulkIn platform) → Option (Reply Unit)
  unfolding locate source_addr
  write_ult w r = elim (locate (λ i. i.bti) r) [
    | rejected ret decoded ↦ some (reply_unit ret w (address false ∷ input decoded ∷ []))
    | located i target ↦
        let src = source_addr w i.remote_addr_str in
        if is_zero src.0
        then Option.map (λ (ret, w'). reply_unit ret w' (address true ∷ input true ∷ []))
            (target.backend.write_bulk w target.context i.rid i.region_offset i.bulk_size
              i.bulk_handle src.1 i.bulk_offset)
        else some (reply_unit err_mercury w (address true ∷ input true ∷ []))
  ]

  -- `bake_eager_write_ult`.
  unfoldable pub eager_write_ult : World → Request (EagerWriteIn platform) → Option (Reply Unit)
  unfolding locate
  eager_write_ult w r = elim (locate (λ i. i.bti) r) [
    | rejected ret decoded ↦ some (reply_unit ret w (input decoded ∷ []))
    | located i target ↦
        Option.map (λ (ret, w'). reply_unit ret w' (input true ∷ []))
          (target.backend.write_raw w target.context i.rid i.region_offset i.size i.bytes)
  ]

  -- `bake_persist_ult`.
  unfoldable pub persist_ult : World → Request (PersistIn platform) → Option (Reply Unit)
  unfolding locate
  persist_ult w r = elim (locate (λ i. i.bti) r) [
    | rejected ret decoded ↦ some (reply_unit ret w (input decoded ∷ []))
    | located i target ↦
        Option.map (λ (ret, w'). reply_unit ret w' (input true ∷ []))
          (target.backend.persist w target.context i.rid i.offset i.size)
  ]

  -- The calls that stand in for `_create_write_persist_bulk` and `_create_write_persist_raw`: a region
  -- is created, written by the given call, and persisted.
  unfoldable pub create_write_persist :
      World → Target platform → ℕ → (World → Rid → Option (ℤ × World)) → Option (ℤ × Rid × World)
  create_write_persist w target size write = do
    created ← target.backend.create w target.context size
    if not (is_zero created.0) then some created else do
      written ← write created.2 created.1
      if not (is_zero written.0) then some (written.0, created.1, written.1) else do
        persisted ← target.backend.persist written.1 target.context created.1 0 size
        some (persisted.0, created.1, persisted.1)

  -- `bake_create_write_persist_ult`.
  unfoldable pub create_write_persist_ult :
      World → Request (CreateWritePersistIn platform) → Option (Reply Rid)
  unfolding locate source_addr create_write_persist
  create_write_persist_ult w r = elim (locate (λ i. i.bti) r) [
    | rejected ret decoded ↦ some (reply_with ret zero_rid w (address false ∷ input decoded ∷ []))
    | located i target ↦
        let src = source_addr w i.remote_addr_str in
        let steps = create_write_persist w target i.region_size (λ w' rid.
          target.backend.write_bulk w' target.context rid 0 i.bulk_size i.bulk_handle src.1
            i.bulk_offset) in
        let result : Option (ℤ × Rid × World) = elim target.backend.create_write_persist_bulk [
          | none ↦ steps
          | some combined ↦ combined w target.context i.bulk_handle src.1 i.bulk_offset i.bulk_size
        ] in
        if is_zero src.0
        then Option.map (λ (ret, rid, w'). reply_with ret rid w' (address true ∷ input true ∷ []))
            result
        else some (reply_with err_mercury zero_rid w (address true ∷ input true ∷ []))
  ]

  -- `bake_eager_create_write_persist_ult`.
  unfoldable pub eager_create_write_persist_ult :
      World → Request (EagerCreateWritePersistIn platform) → Option (Reply Rid)
  unfolding locate create_write_persist
  eager_create_write_persist_ult w r = elim (locate (λ i. i.bti) r) [
    | rejected ret decoded ↦ some (reply_with ret zero_rid w (input decoded ∷ []))
    | located i target ↦
        let steps =
          create_write_persist w target i.size
            (λ w' rid. target.backend.write_raw w' target.context rid 0 i.size i.bytes) in
        let result : Option (ℤ × Rid × World) = elim target.backend.create_write_persist_raw [
          | none ↦ steps
          | some combined ↦ combined w target.context i.bytes i.size
        ] in
        Option.map (λ (ret, rid, w'). reply_with ret rid w' (input true ∷ [])) result
  ]

  -- `bake_get_size_ult`.
  unfoldable pub get_size_ult : World → Request (RegionIn platform) → Option (Reply ℕ)
  unfolding locate
  get_size_ult w r = elim (locate (λ i. i.bti) r) [
    | rejected ret decoded ↦ some (reply_with ret 0 w (input decoded ∷ []))
    | located i target ↦
        Option.map (λ (ret, size). reply_with ret size w (input true ∷ []))
          (target.backend.get_region_size w target.context i.rid)
  ]

  -- `bake_get_data_ult`.
  unfoldable pub get_data_ult : World → Request (RegionIn platform) → Option (Reply ℕ)
  unfolding locate
  get_data_ult w r = elim (locate (λ i. i.bti) r) [
    | rejected ret decoded ↦ some (reply_with ret 0 w (input decoded ∷ []))
    | located i target ↦
        Option.map (λ (ret, ptr). reply_with ret ptr w (input true ∷ []))
          (target.backend.get_region_data w target.context i.rid)
  ]

  -- `bake_read_ult`; the size goes out whatever the code is.
  unfoldable pub read_ult : World → Request (BulkIn platform) → Option (Reply ℕ)
  unfolding locate source_addr
  read_ult w r = elim (locate (λ i. i.bti) r) [
    | rejected ret decoded ↦ some (reply_with ret 0 w (address false ∷ input decoded ∷ []))
    | located i target ↦
        let src = source_addr w i.remote_addr_str in
        if is_zero src.0
        then Option.map (λ (ret, size, w'). reply_with ret size w' (address true ∷ input true ∷ []))
            (target.backend.read_bulk w target.context i.rid i.region_offset i.bulk_size
              i.bulk_handle src.1 i.bulk_offset)
        else some (reply_with err_mercury 0 w (address true ∷ input true ∷ []))
  ]

  -- `bake_eager_read_ult`; the jump to `finish` from FIND_TARGET and before it passes over the
  -- initialiser of `free_data`, which is tested there.
  unfoldable pub eager_read_ult :
      World → Request (EagerReadIn platform) → Option (Reply (Option (List ℕ × ℕ)))
  unfolding locate
  eager_read_ult w r = elim (locate (λ i. i.bti) r) [
    | rejected ret decoded ↦ some (reply_with ret none w (input decoded ∷ buffer false ∷ []))
    | located i target ↦
        Option.map (λ (ret, got). reply_with ret got w (input true ∷ buffer true ∷ []))
          (target.backend.read_raw w target.context i.rid i.region_offset i.size)
  ]

  -- `bake_remove_ult`.
  unfoldable pub remove_ult : World → Request (RegionIn platform) → Option (Reply Unit)
  unfolding locate
  remove_ult w r = elim (locate (λ i. i.bti) r) [
    | rejected ret decoded ↦ some (reply_unit ret w (input decoded ∷ []))
    | located i target ↦
        Option.map (λ (ret, w'). reply_unit ret w' (input true ∷ []))
          (target.backend.remove w target.context i.rid)
  ]

  -- `bake_migrate_region_ult`.
  unfoldable pub migrate_region_ult :
      World → Request (MigrateRegionIn platform) → Option (Reply Rid)
  unfolding locate
  migrate_region_ult w r = elim (locate (λ i. i.bti) r) [
    | rejected ret decoded ↦ some (reply_with ret zero_rid w (input decoded ∷ []))
    | located i target ↦
        Option.map (λ (ret, rid, w'). reply_with ret rid w' (input true ∷ []))
          (target.backend.migrate_region w target.context i.source_rid i.region_size i.remove_src
            i.dest_addr i.dest_provider_id i.dest_target_id)
  ]

  -- `bake_migrate_target_ult` in a build without REMI.
  abbrev pub migrate_target_ult : World → Reply Unit
  migrate_target_ult w = reply_unit err_op_unsupported w []

  -- `bake_probe_ult`: the ids, with a slot for each target that is counted. `none` where the array on
  -- the stack is too short.
  unfoldable pub probe_ult :
      World → Option (Provider platform table) → Option (Reply (List (Option TargetId)))
  unfolding list_targets
  probe_ult w provider = elim provider [
    | none ↦ some (reply_with err_unknown_provider [] w [])
    | some p ↦
        Option.map (λ slots. reply_with success slots w [])
          (list_targets platform table p (count_targets platform table p))
  ]
