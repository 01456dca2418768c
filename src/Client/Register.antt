-- ===== src/Client/Register.antt =====
-- `bake_client_register` of src/bake-client.c: the ids of the RPCs, looked up or registered.
use mochi_bake.Prelude.{
  ℕ, ℤ, ◌≡◌, refl, ap, ◌∙◌, inl, inr, Bool, true, false, ◌||◌, Option, none, some, List, [], ◌∷◌,
  ◌==◌, if◌then◌else◌, Bool-cases, arith,
}
use mochi_bake.ReturnCode.{success}
use mochi_bake.Registry.{
  RpcName, create_rpc, write_rpc, eager_write_rpc, eager_read_rpc, persist_rpc,
  create_write_persist_rpc, eager_create_write_persist_rpc, get_size_rpc, get_data_rpc, read_rpc,
  probe_rpc, noop_rpc, remove_rpc, migrate_region_rpc, migrate_target_rpc, Registry, IsRegistry,
}

-- The order in which the client registers the RPCs.
abbrev pub client_order : List RpcName
client_order =
    probe_rpc ∷ create_rpc ∷ write_rpc ∷ eager_write_rpc ∷ eager_read_rpc ∷ persist_rpc
    ∷ create_write_persist_rpc ∷ eager_create_write_persist_rpc ∷ get_size_rpc ∷ get_data_rpc
    ∷ read_rpc ∷ noop_rpc ∷ remove_rpc ∷ migrate_region_rpc ∷ migrate_target_rpc ∷ []

module _ (registry : Registry) where
  open registry use {State, id_of, registered, register}

  -- MARGO_REGISTER for each RPC.
  unfoldable pub register_all : List RpcName → State → State
  register_all [] s = s
  register_all (name ∷ names) s = register_all names (register s (id_of name none))

  -- `margo_registered_name`: the id, or none where the name is not registered and no id is stored.
  abbrev pub looked_up : State → RpcName → Option ℕ
  looked_up s name = if registered s (id_of name none) then some (id_of name none) else none

  -- `bake_client_register`: its code, the ids of the client, and the registry.
  unfoldable pub client_register : State → ℤ × (RpcName → Option ℕ) × State
  unfolding register_all
  client_register s =
      if registered s (id_of probe_rpc none)
      then (success, looked_up s, s)
      else (success, λ name. some (id_of name none), register_all client_order s)

eq_self : (k : ℕ) → (k == k) ≡ true
eq_self k = ground arith

module _ {registry : Registry} (laws : IsRegistry registry) where
  open registry use {State, id_of, registered, register}

  -- Where "bake_probe_rpc" is registered for clients, all RPCs are.
  abbrev pub AllOrNothing : State → Type 0
  AllOrNothing s =
      registered s (id_of probe_rpc none) ≡ true
      → (name : RpcName) → registered s (id_of name none) ≡ true

  kept_by_register :
      (s : State) (i k : ℕ) → registered s k ≡ true → registered (register s i) k ≡ true
  kept_by_register s i k h = laws.register_is s i k ∙ ap (λ b. (i == k) || b) h ∙ or_true (i == k)
    where
      or_true : (b : Bool) → (b || true) ≡ true
      or_true true = refl
      or_true false = refl

  kept_by_all :
      (names : List RpcName) (s : State) (k : ℕ)
      → registered s k ≡ true
      → registered (register_all registry names s) k ≡ true
  unfolding register_all
  kept_by_all [] s k h = h
  kept_by_all (name ∷ names) s k h =
      kept_by_all names (register s (id_of name none)) k (kept_by_register s (id_of name none) k h)

  data InList (name : RpcName) : List RpcName → Type 0 where
    first : {names : List RpcName} → InList name (name ∷ names)
    later :
        {other : RpcName} {names : List RpcName} → InList name names → InList name (other ∷ names)

  registered-register_all :
      {name : RpcName} {names : List RpcName} (s : State)
      → InList name names
      → registered (register_all registry names s) (id_of name none) ≡ true
  unfolding register_all
  registered-register_all {name} s (first {names}) =
      kept_by_all names (register s (id_of name none)) (id_of name none) (
        laws.register_is s (id_of name none) (id_of name none)
        ∙ ap (λ b. b || registered s (id_of name none)) (eq_self (id_of name none)))
  registered-register_all s (later {other} i) =
      registered-register_all (register s (id_of other none)) i

  four_later :
      {name a b c d : RpcName} {names : List RpcName}
      → InList name names
      → InList name (a ∷ b ∷ c ∷ d ∷ names)
  four_later i = later (later (later (later i)))

  in_order : (name : RpcName) → InList name client_order
  in_order probe_rpc = first
  in_order create_rpc = later first
  in_order write_rpc = later (later first)
  in_order eager_write_rpc = later (later (later first))
  in_order eager_read_rpc = four_later first
  in_order persist_rpc = four_later (later first)
  in_order create_write_persist_rpc = four_later (later (later first))
  in_order eager_create_write_persist_rpc = four_later (later (later (later first)))
  in_order get_size_rpc = four_later (four_later first)
  in_order get_data_rpc = four_later (four_later (later first))
  in_order read_rpc = four_later (four_later (later (later first)))
  in_order noop_rpc = four_later (four_later (later (later (later first))))
  in_order remove_rpc = four_later (four_later (four_later first))
  in_order migrate_region_rpc = four_later (four_later (four_later (later first)))
  in_order migrate_target_rpc = four_later (four_later (four_later (later (later first))))

  -- `bake_client_register` knows the ids of all RPCs, in a registry where "bake_probe_rpc" is registered
  -- for clients only together with the others, and leaves such a registry, with all of them registered.
  -- A second client of the same Margo instance gets the same ids and registers nothing.
  pub client_register-again :
      (s : State) (name : RpcName)
      → AllOrNothing s
      → let (ret, ids, s') = client_register registry s in
        let (ret', ids', s'') = client_register registry s' in
        (ret ≡ success)
        × (ids name ≡ some (id_of name none))
        × (registered s' (id_of name none) ≡ true)
        × (ret' ≡ success)
        × (ids' name ≡ ids name)
        × (s'' ≡ s')
  unfolding client_register
  client_register-again s name all = elim (Bool-cases (registered s (id_of probe_rpc none))) [
    | inl there ↦
        let known = all there name in
        rw there (rw there (rw known (refl, refl, refl, refl, refl, refl)))
    | inr missing ↦
        let known = registered-register_all s (in_order name) in
        let probe = registered-register_all s (in_order probe_rpc) in
        rw missing (rw probe (refl, refl, known, refl, rw known refl, refl))
  ]
