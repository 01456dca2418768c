-- ===== src/Provider/Setup/Names.antt =====
-- The names that `attach_targets` of src/bake-server.c builds and frees.
use mochi_bake.Prelude.{
  ℕ, zero, suc, ◌+◌, ℤ, ◌≡◌, refl, sym, ◌∙◌, inl, inr, is_zero, false, Option, some, List, [], ◌∷◌,
  ◌++◌, if◌then◌else◌, arith, length, length-append, map, Bool-cases, ◌==◌, ◌<◌, ◌≤◌,
}
use mochi_bake.ReturnCode.{success}
use mochi_bake.Backend.{Platform, Backend}
use mochi_bake.Table.{Table}
use mochi_bake.Provider.{Target, Provider, target_name, attach_or_create}
use mochi_bake.Provider.Setup.{Json, count_from, attach_names, initial_size, attach_targets}

module _ (platform : Platform) (table : Table (Target platform) (Platform.TargetId platform))
    (json : Json platform) (pmem file : Backend platform) where
  open platform use {World}

  -- The targets with these names are attached, or created and attached, one after another.
  pub data Attached (size : ℕ) (address : ℕ → ℕ)
      : ℕ
        → Provider platform table
        → World
        → List (List ℕ)
        → Provider platform table
        → World
        → Type 0 where
    no_names :
        {i : ℕ} {p : Provider platform table} {w : World} → Attached size address i p w [] p w
    one_more :
        {i : ℕ} {p p' p'' : Provider platform table} {w w' w'' : World} {name : List ℕ}
        {names : List (List ℕ)} {tid : Option (Platform.TargetId platform)}
        → attach_or_create platform table pmem file p w name size (address i)
          ≡ (success, tid, p', w')
        → Attached size address (suc i) p' w' names p'' w''
        → Attached size address i p w (name ∷ names) p'' w''

  -- The names before the first one that fails are freed by the loop.
  attach_names-stops :
      {size : ℕ} {address : ℕ → ℕ} (i j : ℕ) {p p' p'' : Provider platform table} {w w' w'' : World}
      {front : List (List ℕ)} (name : List ℕ) (back : List (List ℕ)) (ret : ℤ)
      (tid : Option (Platform.TargetId platform))
      → Attached size address i p w front p' w'
      → j ≡ i + length front
      → attach_or_create platform table pmem file p' w' name size (address j) ≡ (ret, tid, p'', w'')
      → is_zero ret ≡ false
      → attach_names platform table json pmem file p w (front ++ name ∷ back) size address i
        ≡ (ret, p'', w'', count_from i (length front))
  unfolding attach_names count_from
  attach_names-stops {address} i j name back ret tid no_names at fails bad =
      rw (sym (index at), fails, bad) refl
    where
      index : j ≡ i + 0 → j ≡ i
      index e = omega (arith, e)
  attach_names-stops i j name back ret tid (one_more {names} first more) at fails bad =
      let rest =
        attach_names-stops (suc i) j name back ret tid more (omega (arith, at)) fails bad in
      rw (first, rest) refl

  abbrev times : ℕ → List ℕ → ℕ
  times i [] = 0
  times i (k ∷ ks) = (if k == i then 1 else 0) + times i ks

  times-append : (i : ℕ) (ks ls : List ℕ) → times i (ks ++ ls) ≡ times i ks + times i ls
  times-append i [] ls = omega arith
  times-append i (k ∷ ks) ls = omega (arith, times-append i ks ls)

  times-before : (i start n : ℕ) → i < start → times i (count_from start n) ≡ 0
  unfolding count_from
  times-before i start zero h = refl
  times-before i start (suc n) h = ground (arith, times-before i (suc start) n (omega arith))

  times-count_from : (i start n : ℕ) → start ≤ i → i < start + n → times i (count_from start n) ≡ 1
  unfolding count_from
  times-count_from i start zero h below = absurd (omega arith)
  times-count_from i start (suc n) h below = elim (Bool-cases (start == i)) [
    | inl same ↦ ground (arith, same, times-before i (suc start) n (ground (arith, same)))
    | inr other ↦
        ground
          (arith, other, times-count_from i (suc start) n (ground (arith, other, h)) (omega arith))
  ]

  module _ {size : ℕ} {address : ℕ → ℕ} {p p' : Provider platform table} {w w' : World}
      (prefix : List ℕ) (given front : List (List ℕ))
      (listed : json.target_list p.json_cfg prefix ≡ some given)
      (sized : initial_size platform table json pmem file p.json_cfg prefix ≡ size)
      (attached : Attached size address 0
        (record p { json_cfg = json.delete_targets p.json_cfg prefix })
        w
        front
        p'
        w') where
    -- Of the targets that the configuration lists for a backend, those before some name are attached,
    -- or created with the configured initial size (0 where there is none) and attached, and that name
    -- fails. Then the code, the provider and the state of the world are those that the failing call has
    -- left, and the names of all targets before it have been freed twice.
    pub attach_targets-twice :
        {p'' : Provider platform table} {w'' : World} (name : List ℕ) (back : List (List ℕ))
        (ret : ℤ) (tid : Option (Platform.TargetId platform)) (i : ℕ)
        → map (target_name platform table prefix) given ≡ front ++ name ∷ back
        → attach_or_create platform table pmem file p' w' name size (address (length front))
          ≡ (ret, tid, p'', w'')
        → is_zero ret ≡ false
        → i < length front
        → let (ret', p₁, w₁, freed) =
            attach_targets platform table json pmem file p w prefix address in
          (ret' ≡ ret) × (p₁ ≡ p'') × (w₁ ≡ w'') × (times i freed ≡ 2)
    unfolding attach_targets
    attach_targets-twice name back ret tid i names fails bad below =
        let stops =
          attach_names-stops 0 (length front) name back ret tid attached (omega arith) fails bad in
        rw (attach_targets, listed)
          (rw sized (
            rw names (
              rw stops (
                rw bad (
                  refl,
                  refl,
                  refl,
                  times-append i (count_from 0 (length front))
                        (count_from 0 (length (front ++ name ∷ back)))
                      ∙ omega (
                        arith,
                        times-count_from i 0 (length front) (omega arith) (omega (arith, below)),
                        times-count_from i 0 (length (front ++ name ∷ back)) (omega arith)
                            (omega (arith, below, length-append front (name ∷ back))),
                      ),
                )))))
