-- ===== src/Provider/Setup/Undone.antt =====
-- What `bake_provider_register` and `bake_provider_deregister` of src/bake-server.c leave registered.
use mochi_bake.Prelude.{
  ℕ, ℤ, ◌≡◌, refl, sym, ap, ◌∙◌, ◌≢◌, is_zero, is_neg, Bool, true, false, not, Option, none, some,
  List, ◌==◌, if◌then◌else◌, ◌>>=◌,
}
use mochi_bake.ReturnCode.{success, err_mercury, err_invalid_arg, err_argobots}
use mochi_bake.Backend.{Platform, Backend}
use mochi_bake.Table.{Table}
use mochi_bake.Registry.{probe_rpc, Registry, IsRegistry}
use mochi_bake.Provider.{Target, Provider, setup_poolset}
use mochi_bake.Provider.Setup.{
  Json, registration_order, deregistration_order, register_rpcs, deregister_rpcs, client_id,
  register_client_version, read_config, validate_and_complete_config, configure_targets,
  destroy_poolset, undo_registration, register_with, register_configured, provider_register,
  provider_deregister, server_finalize_cb,
}
use mochi_bake.Provider.Setup.Rpcs.{NotRegistered, deregistered, registered-probe}

if_all {ℓ} :
    {A : Type 0} (P : A → Type ℓ) (b : Bool) (x y : A)
    → (b ≡ true → P x)
    → (b ≡ false → P y)
    → P (if b then x else y)
if_all P true x y t f = t refl
if_all P false x y t f = f refl

option_all {ℓ} :
    {A B : Type 0} (P : B → Type ℓ) (o : Option A) (x : B) (f : A → B)
    → P x
    → ((a : A) → P (f a))
    → P (elim o [ none ↦ x | some a ↦ f a ])
option_all P none x f n s = n
option_all P (some a) x f n s = s a

negated : (b : Bool) → not b ≡ true → b ≡ false
negated true h = cc
negated false h = refl

distinct : true ≢ false
distinct h = cc

module _ (platform : Platform) (table : Table (Target platform) (Platform.TargetId platform))
    (json : Json platform) (pmem file : Backend platform) {registry : Registry}
    (laws : IsRegistry registry) where
  open registry use {State, id_of, registered}

  -- The state of the registry after a call.
  abbrev end_state : ℤ × Option (Provider platform table) × Platform.World platform × State → State
  end_state (ret, p, w, s) = s

  module _ {ℓ} (P : ℤ × Option (Provider platform table) × Platform.World platform × State → Type ℓ)
      (provider_id : ℕ) (s : State) (address : List ℕ → ℕ → ℕ)
      (early : (ret : ℤ) (w : Platform.World platform) (s' : State)
        → is_zero ret ≡ false
        → ((k : ℕ) → registered s' k ≡ registered s k)
        → P (ret, none, w, s'))
      (late : (p : Provider platform table) (w : Platform.World platform) (s' : State)
        → ((k : ℕ) → registered s' k ≡ registered s k)
        → P (register_with platform table json pmem file registry provider_id p w s' address)) where
    register_configured-all :
        (config : Platform.Config platform) (w : Platform.World platform)
        → P (
            register_configured platform table json pmem file registry provider_id config w s
              address)
    register_configured-all config w =
        let (ret, p, w') =
          setup_poolset platform table
            (record { num_targets = 0; targets = table.empty; poolset = none; json_cfg = config })
            w in
        let (code, s') = registry.rwlock_create s in
        let freed = destroy_poolset platform table json pmem file p w' in
        let with =
          register_with platform table json pmem file registry provider_id p w' s' address in
        if_all P (not (is_zero ret)) (ret, none, freed, s)
          (if not (is_zero code) then (err_argobots, none, freed, s') else with)
          (λ bad. early ret freed s (negated _ bad) (λ k. refl))
          (λ made.
            if_all P (not (is_zero code)) (err_argobots, none, freed, s') with
              (λ bad. early err_argobots freed s' refl (laws.lock_is s))
              (λ locked. late p w' s' (laws.lock_is s)))

    -- What holds of every outcome of `bake_provider_register` before the registration of the RPCs, and
    -- of those from it on, holds of all.
    provider_register-all :
        (json_config : Option (List ℕ)) (w : Platform.World platform)
        → P (
            provider_register platform table json pmem file registry provider_id json_config w s
              address)
    unfolding provider_register
    provider_register-all json_config w =
        if_all P (registered s (id_of probe_rpc (some provider_id))) (err_mercury, none, w, s)
          (elim (read_config json json_config >>= validate_and_complete_config json) [
            | none ↦ (err_invalid_arg, none, w, s)
            | some config ↦
                register_configured platform table json pmem file registry provider_id config w s
                  address
          ])
          (λ taken. early err_mercury w s refl (λ k. refl))
          (λ new.
            option_all P (read_config json json_config >>= validate_and_complete_config json)
              (err_invalid_arg, none, w, s)
              (λ config.
                register_configured platform table json pmem file registry provider_id config w s
                  address)
              (early err_invalid_arg w s refl (λ k. refl))
              (λ config. register_configured-all config w))

  -- The registry after the registration of the RPCs, and after they are deregistered.
  abbrev with_rpcs : ℕ → State → State
  with_rpcs provider_id s =
      register_client_version registry (register_rpcs registry registration_order provider_id s)

  abbrev without_rpcs : ℕ → State → State
  without_rpcs provider_id s =
      registry.rwlock_free (deregister_rpcs registry deregistration_order provider_id s)

  register_with-all {ℓ} :
      (P : ℤ × Option (Provider platform table) × Platform.World platform × State → Type ℓ)
      (provider_id : ℕ) (p : Provider platform table) (w : Platform.World platform) (s : State)
      (address : List ℕ → ℕ → ℕ)
      → ((w' : Platform.World platform)
          → P (err_invalid_arg, none, w', without_rpcs provider_id (with_rpcs provider_id s)))
      → ((p' : Provider platform table) (w' : Platform.World platform)
          → P (success, some p', w', registry.push_finalize (with_rpcs provider_id s) provider_id))
      → P (register_with platform table json pmem file registry provider_id p w s address)
  register_with-all P provider_id p w s address bad good =
      let (ret, p', w') = configure_targets platform table json pmem file p w address in
      let (w'', s'') =
        undo_registration platform table json pmem file registry provider_id p' w'
          (with_rpcs provider_id s) in
      if_all P (is_neg ret) (err_invalid_arg, none, w'', s'')
        (success, some p', w', registry.push_finalize (with_rpcs provider_id s) provider_id)
        (λ failed. bad w'') (λ done. good p' w')

  -- Without its RPCs a registry is what it was before them.
  without-with_rpcs :
      (provider_id k : ℕ) (s s₁ s₂ : State)
      → NotRegistered laws provider_id s
      → (client_id registry == k) ≡ false
      → ((k : ℕ) → registered s₁ k ≡ registered s k)
      → registered s₂ k ≡ registered (with_rpcs provider_id s₁) k
      → registered (without_rpcs provider_id s₂) k ≡ registered s k
  without-with_rpcs provider_id k s s₁ s₂ free other kept same =
      laws.unlock_is (deregister_rpcs registry deregistration_order provider_id s₂) k
      ∙ deregistered laws provider_id s₁ k
          (λ name. kept (id_of name (some provider_id)) ∙ free name) other s₂ same
      ∙ kept k

  provider_register-taken :
      (provider_id : ℕ) (json_config : Option (List ℕ)) (w : Platform.World platform) (s : State)
      (address : List ℕ → ℕ → ℕ)
      → registered s (id_of probe_rpc (some provider_id)) ≡ true
      → provider_register platform table json pmem file registry provider_id json_config w s address
        ≡ (err_mercury, none, w, s)
  unfolding provider_register
  provider_register-taken provider_id json_config w s address h = rw h refl

  deregister_state :
      (provider_id : ℕ) (p : Provider platform table) (w : Platform.World platform) (s : State)
      → let (ret, _, s') =
          provider_deregister platform table json pmem file registry provider_id p w s in
        (ret ≡ success) × (s' ≡ without_rpcs provider_id (registry.pop_finalize s provider_id))
  unfolding provider_deregister server_finalize_cb
  deregister_state provider_id p w s = (refl, refl)

  module _ (provider_id : ℕ) (json_config : Option (List ℕ)) (w : Platform.World platform)
      (s : State) (address : List ℕ → ℕ → ℕ) where
    abbrev registration : ℤ × Option (Provider platform table) × Platform.World platform × State
    registration =
        provider_register platform table json pmem file registry provider_id json_config w s address

    -- A registration that fails, whether before the RPCs are registered or at the configuration of the
    -- targets, leaves registered what was registered before, where no RPC of the provider was; only
    -- the id of the client's "bake_create_write_persist_rpc" may stay.
    pub provider_register-undone :
        (k : ℕ)
        → NotRegistered laws provider_id s
        → (client_id registry == k) ≡ false
        → is_zero registration.0 ≡ false
        → registered (end_state registration) k ≡ registered s k
    provider_register-undone k free other failed =
        provider_register-all
          (λ o. is_zero o.0 ≡ false → registered (end_state o) k ≡ registered s k) provider_id s
          address (λ ret w' s' bad kept h. kept k)
          (λ p w' s' kept.
            register_with-all
              (λ o. is_zero o.0 ≡ false → registered (end_state o) k ≡ registered s k) provider_id p
              w' s' address
              (λ w'' h.
                without-with_rpcs provider_id k s s' (with_rpcs provider_id s') free other kept
                  refl)
              (λ p' w'' h. cc))
          json_config w failed

    -- After a registration that succeeds, a second one with the same provider id is refused with
    -- BAKE_ERR_MERCURY, whatever its configuration, and changes nothing.
    pub provider_register-once :
        (json_config' : Option (List ℕ)) (w' : Platform.World platform)
        → is_zero registration.0 ≡ true
        → provider_register platform table json pmem file registry provider_id json_config' w'
            (end_state registration)
            address
          ≡ (err_mercury, none, w', end_state registration)
    provider_register-once json_config' w' done =
        provider_register-taken provider_id json_config' w' (end_state registration) address (
          provider_register-all
            (λ o.
              is_zero o.0 ≡ true
              → registered (end_state o) (id_of probe_rpc (some provider_id)) ≡ true)
            provider_id s address (λ ret w'' s' bad kept h. absurd (distinct (sym h ∙ bad)))
            (λ p' w'' s' kept.
              register_with-all
                (λ o.
                  is_zero o.0 ≡ true
                  → registered (end_state o) (id_of probe_rpc (some provider_id)) ≡ true)
                provider_id p' w'' s' address (λ w₁ h. cc)
                (λ p₁ w₁ h.
                  laws.push_is (with_rpcs provider_id s') provider_id
                    (id_of probe_rpc (some provider_id))
                  ∙ registered-probe laws provider_id s'))
            json_config w done)

    -- Deregistering a provider after a registration that has succeeded, whatever its targets are by
    -- then, leaves registered what was registered before the registration, where no RPC of the
    -- provider was; only the id of the client's "bake_create_write_persist_rpc" may stay.
    pub provider_deregister-register :
        (k : ℕ) (p : Provider platform table) (w' : Platform.World platform)
        → NotRegistered laws provider_id s
        → (client_id registry == k) ≡ false
        → is_zero registration.0 ≡ true
        → let (ret, _, s') =
            provider_deregister platform table json pmem file registry provider_id p w'
              (end_state registration) in
          (ret ≡ success) × (registered s' k ≡ registered s k)
    provider_deregister-register k p w' free other done =
        let (zero, state) = deregister_state provider_id p w' (end_state registration) in
        (
          zero,
          ap (λ t. registered t k) state
              ∙ provider_register-all
                  (λ o.
                    is_zero o.0 ≡ true
                    → registered
                        (without_rpcs provider_id (registry.pop_finalize (end_state o) provider_id))
                        k
                      ≡ registered s k)
                  provider_id s address (λ ret w'' s' bad kept h. absurd (distinct (sym h ∙ bad)))
                  (λ p' w'' s' kept.
                    register_with-all
                      (λ o.
                        is_zero o.0 ≡ true
                        → registered
                            (without_rpcs provider_id
                              (registry.pop_finalize (end_state o) provider_id))
                            k
                          ≡ registered s k)
                      provider_id p' w'' s' address (λ w₁ h. cc)
                      (λ p₁ w₁ h.
                        let pushed =
                          registry.push_finalize (with_rpcs provider_id s') provider_id in
                        without-with_rpcs provider_id k s s'
                          (registry.pop_finalize pushed provider_id) free other kept
                          (laws.pop_is pushed provider_id k
                            ∙ laws.push_is (with_rpcs provider_id s') provider_id k)))
                  json_config w done,
        )
