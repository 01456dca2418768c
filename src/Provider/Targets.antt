-- ===== src/Provider/Targets.antt =====
-- The targets of a provider and their number, src/bake-server.c.
use mochi_bake.Prelude.{
  ℕ, suc, ◌+◌, ◌-◌, ◌^◌, ◌<◌, ◌≡◌, refl, sym, ap, ◌∙◌, ◌⊎◌, inl, inr, is_zero, false, none, some,
  List, [], ◌∷◌, ◌++◌, arith, length, length-append, map, replicate, ltb,
}
use mochi_bake.ReturnCode.{success}
use mochi_bake.Backend.{Platform, Backend}
use mochi_bake.Table.{Table, IsTable}
use mochi_bake.FileBackend.{u64}
use mochi_bake.Provider.{
  Target, Provider, parse_target_name, backend_named, insert_target, attach_target, detach_target,
  detach_each, detach_all_targets, count_targets, list_targets,
}

module _ {platform : Platform} {table : Table (Target platform) (Platform.TargetId platform)}
    (laws : IsTable (λ (e : Target platform). e.target_id) table) where
  open platform use {World, Context, TargetId, Config}
  open table use {find, iterate}

  abbrev pub ids : Provider platform table → List TargetId
  ids p = map (λ (e : Target platform). e.target_id) (iterate p.targets)

  -- The number of targets is that of the table.
  pub record IsProvider (p : Provider platform table) : Type 0 where
    pub counted : p.num_targets ≡ length (iterate p.targets)
    pub in_range : p.num_targets + 1 < 2 ^ 64

  map-append :
      (xs : List (Target platform)) (e : Target platform)
      → map (λ (x : Target platform). x.target_id) (xs ++ e ∷ [])
        ≡ map (λ (x : Target platform). x.target_id) xs ++ e.target_id ∷ []
  map-append [] e = refl
  map-append (x ∷ xs) e = ap (λ t. x.target_id ∷ t) (map-append xs e)

  insert_target-new :
      (pmem file : Backend platform) (p : Provider platform table) (w : World)
      (entry : Target platform)
      → find p.targets entry.target_id ≡ none
      → insert_target platform table pmem file p w entry ≡ (
        success,
        some entry.target_id,
        record p { num_targets = u64 (p.num_targets + 1); targets = table.add p.targets entry },
        w,
      )
  unfolding insert_target
  insert_target-new pmem file p w entry new = rw (laws.find-add p.targets entry new) (ground arith)

  attach_target-inserts :
      (pmem file : Backend platform) (p : Provider platform table) (w : World) (name : List ℕ)
      (address : ℕ) (backend : Backend platform) (tid : TargetId) (ctx : Context) (cfg : Config)
      (w' : World)
      → backend_named platform table pmem file (parse_target_name name).0 ≡ some backend
      → backend.initialize w p.json_cfg (parse_target_name name).1 ≡ (success, tid, ctx, cfg, w')
      → attach_target platform table pmem file p w name address
        ≡ insert_target platform table pmem file
            (record p { json_cfg = cfg })
            w'
            (record { target_id = tid; context = ctx; backend = backend; address = address })
  unfolding attach_target
  attach_target-inserts pmem file p w name address backend tid ctx cfg w' known init =
      rw (attach_target, known) (rw init refl)

  module _ (pmem file : Backend platform) (p : Provider platform table) (w : World) (name : List ℕ)
      (address : ℕ) where
    -- A target whose backend knows it, and whose id is not attached yet, is attached to a provider that
    -- counts its targets right, as those of its table: the provider has
    -- its id behind those it had, counts it, and finds the context that the backend gave.
    pub attach_target-ok :
        (backend : Backend platform) (tid : TargetId) (ctx : Context) (cfg : Config) (w' : World)
        → IsProvider p
        → backend_named platform table pmem file (parse_target_name name).0 ≡ some backend
        → backend.initialize w p.json_cfg (parse_target_name name).1 ≡ (success, tid, ctx, cfg, w')
        → find p.targets tid ≡ none
        → let (ret, id, p', w'') = attach_target platform table pmem file p w name address in
          (ret ≡ success)
          × (id ≡ some tid)
          × (ids p' ≡ ids p ++ tid ∷ [])
          × (p'.num_targets ≡ length (iterate p'.targets))
          × (p'.num_targets ≡ p.num_targets + 1)
          × (find p'.targets tid
              ≡ some
                  (record { target_id = tid; context = ctx; backend = backend; address = address }))
          × (w'' ≡ w')
    attach_target-ok backend tid ctx cfg w' v known init new =
        let entry : Target platform = record {
          target_id = tid;
          context = ctx;
          backend = backend;
          address = address;
        } in
        let grown = laws.iterate-add p.targets entry in
        rw
          (
            attach_target-inserts pmem file p w name address backend tid ctx cfg w' known init,
            insert_target-new pmem file (record p { json_cfg = cfg }) w' entry new,
          )
          (
            refl,
            refl,
            ap (map (λ (e : Target platform). e.target_id)) grown
                ∙ map-append (iterate p.targets) entry,
            omega (
              arith,
              ap length grown,
              length-append (iterate p.targets) (entry ∷ []),
              v.counted,
              v.in_range,
            ),
            omega (arith, v.in_range),
            laws.find-add p.targets entry new,
            refl,
          )

    -- A target with an unknown prefix, or one that its backend cannot open, is not attached: the call
    -- reports an error and no id, and the provider keeps its targets and their number.
    attach_target-refused :
        (backend_named platform table pmem file (parse_target_name name).0 ≡ none)
          ⊎ ((backend : Backend platform) × (backend_named platform table pmem file
                  (parse_target_name name).0
                ≡ some backend)
              × (is_zero (backend.initialize w p.json_cfg (parse_target_name name).1).0 ≡ false))
        → let (ret, id, p', w') = attach_target platform table pmem file p w name address in
          (is_zero ret ≡ false)
          × (id ≡ none)
          × (p'.targets ≡ p.targets)
          × (p'.num_targets ≡ p.num_targets)
    unfolding attach_target
    attach_target-refused (inl unknown) = rw (attach_target, unknown) (refl, refl, refl, refl)
    attach_target-refused (inr (backend, known, bad)) =
        rw (attach_target, known) (rw bad (bad, refl, refl, refl))

  -- Detaching a target takes its id, and no other, out of the provider, and hands its context to its
  -- backend; but the provider still counts it.
  pub detach_target-found :
      (p : Provider platform table) (w : World) (tid : TargetId) (e : Target platform)
      → IsProvider p
      → find p.targets tid ≡ some e
      → let (ret, p', w') = detach_target platform table p w tid in
        (ret ≡ success)
        × (w' ≡ e.backend.finalize w e.context)
        × ((front back : List TargetId) × (ids p ≡ front ++ tid ∷ back) × (ids p' ≡ front ++ back))
        × (count_targets platform table p' ≡ length (iterate p'.targets) + 1)
  unfolding detach_target
  detach_target-found p w tid e v found =
      let (front, back, was, now) = laws.iterate-delete p.targets tid e found in
      rw (detach_target, found)
        (
          refl,
          refl,
          (
            ids_of front,
            ids_of back,
            ap ids_of was ∙ ids_of-cons front back e tid (laws.find-key p.targets tid e found),
            ap ids_of now ∙ ids_of-append front back,
          ),
          omega (
            arith,
            v.counted,
            ap length was,
            ap length now,
            length-append front (e ∷ back),
            length-append front back,
          ),
        )
    where
      ids_of : List (Target platform) → List TargetId
      ids_of = map (λ (x : Target platform). x.target_id)

      ids_of-append : (xs ys : List (Target platform)) → ids_of (xs ++ ys) ≡ ids_of xs ++ ids_of ys
      ids_of-append [] ys = refl
      ids_of-append (x ∷ xs) ys = ap (λ t. x.target_id ∷ t) (ids_of-append xs ys)

      ids_of-cons :
          (xs ys : List (Target platform)) (e : Target platform) (k : TargetId)
          → e.target_id ≡ k
          → ids_of (xs ++ e ∷ ys) ≡ ids_of xs ++ k ∷ ids_of ys
      ids_of-cons xs ys e k h = ids_of-append xs (e ∷ ys) ∙ ap (λ t. ids_of xs ++ t ∷ ids_of ys) h

  abbrev finalize_each : List (Target platform) → World → World
  finalize_each [] w = w
  finalize_each (e ∷ es) w = finalize_each es (e.backend.finalize w e.context)

  detach_each-lem :
      (es : List (Target platform)) (t : table.Carrier) (w : World)
      → iterate t ≡ es
      → (iterate (detach_each platform table es t w).0 ≡ [])
        × ((detach_each platform table es t w).1 ≡ finalize_each es w)
  unfolding detach_each
  detach_each-lem [] t w h = (h, refl)
  detach_each-lem (e ∷ es) t w h =
      detach_each-lem es (table.delete t e) (e.backend.finalize w e.context)
        (laws.iterate-delete_first t e es h)

  -- Detaching all targets leaves none, counts none, and hands every context to its backend, in the
  -- order in which the targets were attached.
  detach_all_targets-empty :
      (p : Provider platform table) (w : World)
      → let (ret, p', w') = detach_all_targets platform table p w in
        (ret ≡ success) × (ids p' ≡ []) × IsProvider p' × (w' ≡ finalize_each (iterate p.targets) w)
  unfolding detach_all_targets
  detach_all_targets-empty p w =
      let (gone, closed) = detach_each-lem (iterate p.targets) p.targets w refl in
      (
        refl,
        ap (map (λ (e : Target platform). e.target_id)) gone,
        record { counted = sym (ap length gone); in_range = omega arith },
        closed,
      )

  length-ids :
      (xs : List (Target platform))
      → length (map (λ (e : Target platform). e.target_id) xs) ≡ length xs
  length-ids [] = refl
  length-ids (x ∷ xs) = ap suc (length-ids xs)

  -- An array as long as the provider says there are targets is filled with their ids in the order of
  -- attachment. Where the provider counts more targets than it has, the last slots are not written.
  pub list_targets-slots :
      (p : Provider platform table) (extra : ℕ)
      → count_targets platform table p ≡ length (iterate p.targets) + extra
      → list_targets platform table p (count_targets platform table p)
        ≡ some (map some (ids p) ++ replicate extra none)
  unfolding list_targets
  list_targets-slots p extra h =
      let fits : ltb p.num_targets (length (ids p)) ≡ false =
        ground (arith, h, length-ids (iterate p.targets)) in
      let left : p.num_targets - length (ids p) ≡ extra =
        omega (arith, h, length-ids (iterate p.targets)) in
      rw (fits, left) refl
