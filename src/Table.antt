-- ===== src/Table.antt =====
-- The hash table of a provider's targets: the macros of uthash that src/bake-server.c calls, as a
-- parameter, and what their documentation promises while the keys are distinct.
use mochi_bake.Prelude.{◌≡◌, Option, none, some, List, [], ◌∷◌, ◌++◌}

pub record Table (Entry Key : Type 0) : Type 1 where
  pub Carrier : Type 0
  -- NULL
  pub empty : Carrier
  -- HASH_ADD
  pub add : Carrier → Entry → Carrier
  -- HASH_FIND
  pub find : Carrier → Key → Option Entry
  -- HASH_DEL of an entry that stands in the table
  pub delete : Carrier → Entry → Carrier
  -- the entries in the order in which HASH_ITER visits them
  pub iterate : Carrier → List Entry

module _ {Entry Key : Type 0} (key : Entry → Key) (table : Table Entry Key) where
  open table use {Carrier, empty, add, find, delete, iterate}

  -- The documented behaviour.
  pub record IsTable : Type 0 where
    pub iterate-empty : iterate empty ≡ []
    -- Iteration is in the order of insertion.
    pub iterate-add : (t : Carrier) (e : Entry) → iterate (add t e) ≡ iterate t ++ e ∷ []
    pub find-add :
        (t : Carrier) (e : Entry) → find t (key e) ≡ none → find (add t e) (key e) ≡ some e
    pub find-key : (t : Carrier) (k : Key) (e : Entry) → find t k ≡ some e → key e ≡ k
    -- What is found stands in the table, and its deletion takes out nothing else.
    pub iterate-delete :
        (t : Carrier) (k : Key) (e : Entry)
        → find t k ≡ some e
        → (front back : List Entry) × (iterate t ≡ front ++ e ∷ back)
          × (iterate (delete t e) ≡ front ++ back)
    pub iterate-delete_first :
        (t : Carrier) (e : Entry) (es : List Entry) → iterate t ≡ e ∷ es → iterate (delete t e) ≡ es
