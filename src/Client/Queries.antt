-- ===== src/Client/Queries.antt =====
-- `bake_probe` and `bake_get_data` of src/bake-client.c: what they store, and for whom.
use mochi_bake.Prelude.{
  ℕ, zero, suc, ◌≤◌, ◌<◌, ◌≡◌, refl, ap, inl, inr, ℤ, is_zero, Bool, true, false, not, Option, none,
  some, List, [], ◌∷◌, map, arith, if◌then◌else◌, Bool-cases, length, take, ltb, ◌==◌, min, ◌>>=◌,
}
use mochi_bake.ReturnCode.{success}
use mochi_bake.Backend.{Platform}
use mochi_bake.Table.{Table, IsTable}
use mochi_bake.Provider.{Target, Provider, same_string}
use mochi_bake.Provider.Targets.{ids, IsProvider}
use mochi_bake.Provider.Rpc.{probe_ult}
use mochi_bake.Provider.Rpc.Replies.{probe_ult-ok}
use mochi_bake.Client.{Margo, Release, live, output, handle, ProviderHandle, answered, send}
use mochi_bake.Client.Calls.{get_data, same_address, done}
use mochi_bake.Client.Reads.{probe}
use mochi_bake.Client.Service.{Delivers, send-Delivers}

-- An array all of whose slots are set, as its bytes are sent.
abbrev pub all_slots {ℓ} : {A : Type ℓ} → List (Option A) → Option (List A)
all_slots [] = some []
all_slots (none ∷ xs) = none
all_slots (some a ∷ xs) = elim (all_slots xs) [ none ↦ none | some rest ↦ some (a ∷ rest) ]

all_slots-map {ℓ} : {A : Type ℓ} (xs : List A) → all_slots (map some xs) ≡ some xs
all_slots-map [] = refl
all_slots-map (x ∷ xs) = rw (all_slots-map xs) refl

take-all {ℓ} : {A : Type ℓ} (n : ℕ) (xs : List A) → length xs ≤ n → take (length xs) xs ≡ take n xs
take-all zero [] h = refl
take-all (suc n) [] h = refl
take-all zero (x ∷ xs) h = absurd (omega arith)
take-all (suc n) (x ∷ xs) h = ap (λ t. x ∷ t) (take-all n xs (omega arith))

smaller : (n m : ℕ) → (if ltb n m then n else m) ≡ min n m
smaller n m = ground arith

within : (n m : ℕ) → ltb n m ≡ false → m ≤ n
within n m h = ground arith

-- `bake_probe` copies as many as there are and as there is room for.
take-smaller {ℓ} :
    {A : Type ℓ} (n : ℕ) (xs : List A)
    → take (if ltb n (length xs) then n else length xs) xs ≡ take n xs
take-smaller n xs = elim (Bool-cases (ltb n (length xs))) [
  | inl more ↦ rw more refl
  | inr few ↦ rw few (take-all n xs (within n (length xs) few))
]

module _ {platform : Platform} {table : Table (Target platform) (Platform.TargetId platform)} where
  open platform use {World, TargetId}

  -- What a provider makes of a probe: its handler does not look at the number that is asked for.
  abbrev pub serve_probe : Provider platform table → World → ℕ → Option (ℤ × List TargetId × World)
  serve_probe server w n = do
    reply ← probe_ult platform table w (some server)
    targets ← all_slots reply.out
    some (reply.ret, targets, reply.world)

module _ {platform : Platform} {table : Table (Target platform) (Platform.TargetId platform)}
    (margo : Margo platform) (p : ProviderHandle platform) where
  open platform use {World, TargetId, Rid}

  -- A probe of a provider that counts its targets right stores the first `n` ids in the order in which
  -- they were attached, no more than the array has room for, and how many these are; without an array
  -- it stores the number of all targets.
  pub probe-attached :
      (laws : IsTable (λ (e : Target platform). e.target_id) table)
      (server : Provider platform table) (w : World) (n : ℕ)
      → IsProvider laws server
      → Delivers margo.probe p.addr p.provider_id (serve_probe server)
      → 0 < n
      → (probe platform margo w p n false
          ≡ done platform success
              (some (min n (length (ids laws server)), take n (ids laws server)))
              w
              (output live ∷ handle live ∷ []))
        × (probe platform margo w p n true
            ≡ done platform success
                (some (length (ids laws server), []))
                w
                (output live ∷ handle live ∷ []))
  unfolding probe
  probe-attached laws server w n v there positive =
      let all = ids laws server in
      let served : (k : ℕ) → serve_probe server w k ≡ some (success, all, w) =
        λ k. rw (probe_ult-ok laws server w v) (rw (all_slots-map all) refl) in
      let sent : (k : ℕ) → send platform margo.probe w p k ≡ answered w success all =
        λ k. send-Delivers platform margo.probe p there w k success all w (served k) in
      let some_room : (n == 0) ≡ false = ground arith in
      (
        rw (sent n) (rw some_room (rw (take-smaller n all) (rw (smaller n (length all)) refl))),
        rw (sent 0) refl,
      )

-- A chain of tests that only its last branch passes.
passed :
    (a b c same : Bool) (rs ss : List Release)
    → let end : Bool × List Release =
        if not a
        then (false, [])
        else if not b
        then (false, rs)
        else if not c
        then (false, ss)
        else (same, ss) in
      end.0 ≡ true → same ≡ true
passed true true true same rs ss h = h
passed true true false same rs ss h = cc
passed true false c same rs ss h = cc
passed false b c same rs ss h = cc

nothing : {A : Type 0} {n : ℕ} → none ≡ some n → A
nothing h = cc

module _ {platform : Platform} (margo : Margo platform) (p : ProviderHandle platform) where
  open platform use {World, TargetId, Rid}

  -- The room that is told for the provider's address is what the first conversion left.
  abbrev pub same_strings : World → Bool
  same_strings w =
      let self = (margo.addr_self w).1 in
      let room = (margo.addr_to_string w self 1024).2 in
      same_string (margo.addr_to_string w self 1024).1 (margo.addr_to_string w p.addr room).1

  same_address-strings :
      (w : World) → (same_address platform margo w p).0 ≡ true → same_strings w ≡ true
  unfolding same_address
  same_address-strings w h =
      let (c₁, self) = margo.addr_self w in
      let (c₂, _, room) = margo.addr_to_string w self 1024 in
      let (c₃, _, _) = margo.addr_to_string w p.addr room in
      passed (is_zero c₁) (is_zero c₂) (is_zero c₃) (same_strings w) _ _ h

  -- `bake_get_data` stores a pointer only where the provider's address is the caller's own, as strings.
  get_data-local :
      (w : World) (tid : TargetId) (rid : Rid) (ptr : ℕ)
      → (get_data platform margo w p tid rid).result ≡ some ptr
      → same_strings w ≡ true
  unfolding get_data
  get_data-local w tid rid ptr h = elim (Bool-cases (same_address platform margo w p).0) [
    | inl same ↦ same_address-strings w same
    | inr other ↦ nothing (rw other at h)
  ]
