-- ===== src/Provider/Pools.antt =====
-- The buffers of a provider under `bake_provider_set_param`, src/bake-server.c.
use mochi_bake.Prelude.{ℕ, ◌≡◌, refl, is_zero, Bool, Bool-cases, inl, inr, true, false, some, List}
use mochi_bake.ReturnCode.{success}
use mochi_bake.Backend.{Platform}
use mochi_bake.Table.{Table}
use mochi_bake.Provider.{Target, Provider, setup_poolset, set_param, pipeline_key, parse_bool}

module _ (platform : Platform) (table : Table (Target platform) (Platform.TargetId platform))
    (stored : (c : Platform.Config platform) (b : Bool)
      → Platform.pipeline_enable platform (Platform.set_pipeline_enable platform c b) ≡ b) where
  open platform use {
    World, Poolset, poolset_create, poolset_destroy, pipeline_enable, set_pipeline_enable,
  }

  -- Setting the parameter on a provider that has a handle.
  set_param-off :
      (p : Provider platform table) (w : World) (pools : Poolset) (value : List ℕ)
      → p.poolset ≡ some pools
      → parse_bool value ≡ some false
      → let (ret, p', w') = set_param platform table p w pipeline_key value in
        (ret ≡ success) × (p'.poolset ≡ some pools) × (w' ≡ (poolset_destroy w pools).1)
  unfolding set_param setup_poolset
  set_param-off p w pools value live e = rw e (
      rw live (
        rw (stored p.json_cfg false) (elim (Bool-cases (is_zero (poolset_destroy w pools).0)) [
          | inl z ↦ rw z (refl, refl, refl)
          | inr z ↦ rw z (refl, refl, refl)
        ])))

  set_param-on :
      (p : Provider platform table) (w : World) (pools : Poolset) (value : List ℕ)
      → p.poolset ≡ some pools
      → parse_bool value ≡ some true
      → let (ret, p', w') = set_param platform table p w pipeline_key value in
        (ret ≡ success) × (p'.poolset ≡ some pools) × (w' ≡ w)
  unfolding set_param setup_poolset
  set_param-on p w pools value live e =
      rw e (rw live (rw (stored p.json_cfg true) (refl, refl, refl)))

  -- Setting "pipeline_enable" to false destroys the provider's buffers but keeps the handle. A second
  -- request to set it to false destroys the same buffers again, and a later request to set it to true
  -- succeeds and leaves the provider with the handle of the destroyed buffers, without a call of
  -- `margo_bulk_poolset_create`.
  pub set_param-stale :
      (p : Provider platform table) (w : World) (pools : Poolset) (off on : List ℕ)
      → p.poolset ≡ some pools
      → parse_bool off ≡ some false
      → parse_bool on ≡ some true
      → let (_, p₁, w₁) = set_param platform table p w pipeline_key off in
        let (ret₂, p₂, w₂) = set_param platform table p₁ w₁ pipeline_key off in
        let (ret₃, p₃, w₃) = set_param platform table p₁ w₁ pipeline_key on in
        (w₁ ≡ (poolset_destroy w pools).1)
        × (p₁.poolset ≡ some pools)
        × (ret₂ ≡ success)
        × (w₂ ≡ (poolset_destroy w₁ pools).1)
        × (ret₃ ≡ success)
        × (p₃.poolset ≡ some pools)
        × (w₃ ≡ w₁)
  set_param-stale p w pools off on live f t =
      let first = set_param-off p w pools off live f in
      let (_, p₁, w₁) = set_param platform table p w pipeline_key off in
      let second = set_param-off p₁ w₁ pools off first.1 f in
      let third = set_param-on p₁ w₁ pools on first.1 t in
      (first.2, first.1, second.0, second.2, third.0, third.1, third.2)
