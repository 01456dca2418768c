-- ===== src/Provider/Setup/Rpcs.antt =====
-- The RPCs that src/bake-server.c registers and deregisters, in its two orders.
use mochi_bake.Prelude.{
  ℕ, ◌≡◌, refl, sym, ap, ◌∙◌, inl, inr, Bool, true, false, not, ◌&&◌, ◌||◌, some, List, [], ◌∷◌,
  ◌++◌, ◌==◌, arith, subst, Bool-cases,
}
use mochi_bake.Registry.{
  RpcName, create_rpc, write_rpc, eager_write_rpc, eager_read_rpc, persist_rpc,
  create_write_persist_rpc, eager_create_write_persist_rpc, get_size_rpc, get_data_rpc, read_rpc,
  probe_rpc, noop_rpc, remove_rpc, migrate_region_rpc, migrate_target_rpc, Registry, IsRegistry,
}
use mochi_bake.Provider.Setup.{
  registration_order, deregistration_order, register_rpcs, deregister_rpcs, client_id,
  register_client_version,
}

abbrev any_of : (RpcName → Bool) → List RpcName → Bool
any_of test [] = false
any_of test (name ∷ names) = test name || any_of test names

or_swap : (a b c : Bool) → (a || (b || c)) ≡ (b || (a || c))
or_swap true true c = refl
or_swap true false c = refl
or_swap false true c = refl
or_swap false false c = refl

any_of-moved :
    (test : RpcName → Bool) (name : RpcName) (xs ys : List RpcName)
    → any_of test (name ∷ xs ++ ys) ≡ any_of test (xs ++ name ∷ ys)
any_of-moved test name [] ys = refl
any_of-moved test name (x ∷ xs) ys =
    or_swap (test name) (test x) (any_of test (xs ++ ys))
    ∙ ap (λ b. test x || b) (any_of-moved test name xs ys)

-- The RPCs that are deregistered are those that are registered.
same_rpcs :
    (test : RpcName → Bool) → any_of test registration_order ≡ any_of test deregistration_order
same_rpcs test =
    ap (λ b. test create_rpc || (test write_rpc || (test eager_write_rpc || b)))
      (any_of-moved test eager_read_rpc
        (persist_rpc ∷ create_write_persist_rpc ∷ eager_create_write_persist_rpc ∷ get_size_rpc
          ∷ get_data_rpc ∷ read_rpc ∷ [])
        (probe_rpc ∷ noop_rpc ∷ remove_rpc ∷ migrate_region_rpc ∷ migrate_target_rpc ∷ []))

or_assoc : (a b c : Bool) → (a || (b || c)) ≡ ((b || a) || c)
or_assoc true true c = refl
or_assoc true false c = refl
or_assoc false true c = refl
or_assoc false false c = refl

and_not : (a b c : Bool) → (not a && (not b && c)) ≡ (not (b || a) && c)
and_not true true c = refl
and_not true false c = refl
and_not false true c = refl
and_not false false c = refl

or_second : (a b : Bool) → a ≡ false → (a || b) ≡ true → b ≡ true
or_second a b h e = rw (sym e, h) refl

-- What is put in and taken out again was not there before.
taken_back : (a b : Bool) → (a ≡ true → b ≡ false) → (not a && (a || b)) ≡ b
taken_back true b h = sym (h refl)
taken_back false b h = refl

or_true : (a b : Bool) → a ≡ true → (a || b) ≡ true
or_true a b h = ap (λ c. c || b) h

true_or : (a : Bool) → (a || true) ≡ true
true_or true = refl
true_or false = refl

eq_self : (k : ℕ) → (k == k) ≡ true
eq_self k = ground arith

eq_of : (i k : ℕ) → (i == k) ≡ true → i ≡ k
eq_of i k h = ground arith

module _ {registry : Registry} (laws : IsRegistry registry) where
  open registry use {State, id_of, registered}

  abbrev has_id : ℕ → ℕ → List RpcName → Bool
  has_id provider_id k = any_of (λ name. id_of name (some provider_id) == k)

  registered-register_rpcs :
      (names : List RpcName) (provider_id : ℕ) (s : State) (k : ℕ)
      → registered (register_rpcs registry names provider_id s) k
        ≡ (has_id provider_id k names || registered s k)
  unfolding register_rpcs
  registered-register_rpcs [] provider_id s k = refl
  registered-register_rpcs (name ∷ names) provider_id s k =
      let rpc_id = id_of name (some provider_id) in
      registered-register_rpcs names provider_id
        (registry.register_data (registry.register s rpc_id) rpc_id) k
      ∙ ap (λ b. has_id provider_id k names || b)
          (laws.register_data_is (registry.register s rpc_id) rpc_id k
            ∙ laws.register_is s rpc_id k)
      ∙ or_assoc (has_id provider_id k names) (rpc_id == k) (registered s k)

  registered-deregister_rpcs :
      (names : List RpcName) (provider_id : ℕ) (s : State) (k : ℕ)
      → registered (deregister_rpcs registry names provider_id s) k
        ≡ (not (has_id provider_id k names) && registered s k)
  unfolding deregister_rpcs
  registered-deregister_rpcs [] provider_id s k = refl
  registered-deregister_rpcs (name ∷ names) provider_id s k =
      let rpc_id = id_of name (some provider_id) in
      registered-deregister_rpcs names provider_id (registry.deregister s rpc_id) k
      ∙ ap (λ b. not (has_id provider_id k names) && b) (laws.deregister_is s rpc_id k)
      ∙ and_not (has_id provider_id k names) (rpc_id == k) (registered s k)

  -- No RPC of a provider with this id is registered.
  abbrev pub NotRegistered : ℕ → State → Type 0
  NotRegistered provider_id s =
      (name : RpcName) → registered s (id_of name (some provider_id)) ≡ false

  has_id-free :
      (names : List RpcName) (provider_id : ℕ) (s : State) (k : ℕ)
      → NotRegistered provider_id s
      → has_id provider_id k names ≡ true
      → registered s k ≡ false
  has_id-free [] provider_id s k free h = cc
  has_id-free (name ∷ names) provider_id s k free h =
      elim (Bool-cases (id_of name (some provider_id) == k)) [
        | inl same ↦
            subst (λ i. registered s i ≡ false) (eq_of (id_of name (some provider_id)) k same)
              (free name)
        | inr other ↦
            has_id-free names provider_id s k free
              (or_second (id_of name (some provider_id) == k) (has_id provider_id k names) other h)
      ]

  registered-client_version :
      (s : State) (k : ℕ)
      → (client_id registry == k) ≡ false
      → registered (register_client_version registry s) k ≡ registered s k
  registered-client_version s k other = elim (Bool-cases (registered s (client_id registry))) [
    | inl there ↦ rw there refl
    | inr missing ↦
        rw missing (laws.register_is s (client_id registry) k ∙ ap (λ b. b || registered s k) other)
  ]

  -- What is registered before the RPCs of a provider are registered, and after they have been
  -- deregistered.
  pub deregistered :
      (provider_id : ℕ) (s : State) (k : ℕ)
      → NotRegistered provider_id s
      → (client_id registry == k) ≡ false
      → (s' : State)
      → registered s' k
        ≡ registered
            (register_client_version registry
              (register_rpcs registry registration_order provider_id s))
            k
      → registered (deregister_rpcs registry deregistration_order provider_id s') k ≡ registered s k
  deregistered provider_id s k free other s' same =
      registered-deregister_rpcs deregistration_order provider_id s' k
      ∙ ap (λ b. not b && registered s' k)
          (sym (same_rpcs (λ name. id_of name (some provider_id) == k)))
      ∙ ap (λ b. not (has_id provider_id k registration_order) && b)
          (same
            ∙ registered-client_version (register_rpcs registry registration_order provider_id s) k
                other
            ∙ registered-register_rpcs registration_order provider_id s k)
      ∙ taken_back (has_id provider_id k registration_order) (registered s k)
          (has_id-free registration_order provider_id s k free)

  registered-more :
      (s : State) (k : ℕ)
      → registered s k ≡ true
      → registered (register_client_version registry s) k ≡ true
  registered-more s k h = elim (Bool-cases (registered s (client_id registry))) [
    | inl there ↦ rw there h
    | inr missing ↦ rw missing (
        laws.register_is s (client_id registry) k
        ∙ ap (λ b. (client_id registry == k) || b) h
        ∙ true_or (client_id registry == k))
  ]

  -- A probe of a provider whose RPCs are registered finds it.
  pub registered-probe :
      (provider_id : ℕ) (s : State)
      → registered
          (register_client_version registry
            (register_rpcs registry registration_order provider_id s))
          (id_of probe_rpc (some provider_id))
        ≡ true
  registered-probe provider_id s =
      let k = id_of probe_rpc (some provider_id) in
      let there : has_id provider_id k registration_order ≡ true =
        sym (
          any_of-moved (λ name. id_of name (some provider_id) == k) probe_rpc
            (create_rpc ∷ write_rpc ∷ eager_write_rpc ∷ eager_read_rpc ∷ persist_rpc
              ∷ create_write_persist_rpc ∷ eager_create_write_persist_rpc ∷ get_size_rpc
              ∷ get_data_rpc ∷ read_rpc ∷ [])
            (noop_rpc ∷ remove_rpc ∷ migrate_region_rpc ∷ migrate_target_rpc ∷ []))
        ∙ or_true (k == k) _ (eq_self k) in
      registered-more (register_rpcs registry registration_order provider_id s) k (
        registered-register_rpcs registration_order provider_id s k
        ∙ or_true _ (registered s k) there)
