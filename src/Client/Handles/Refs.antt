-- ===== src/Client/Handles/Refs.antt =====
-- What the counts of src/bake-client.c are for: the references that the user holds, as a collection of
-- addresses, and the states that stand for them.
use mochi_bake.Prelude.{
  ℕ, suc, ◌+◌, ◌^◌, ◌≤◌, ◌<◌, ◌≡◌, refl, sym, ap, ◌∙◌, inl, inr, true, false, Option, none, some,
  List, [], ◌∷◌, ◌==◌, ltb, ◌&&◌, if◌then◌else◌, ◌>>=◌, arith, length, Bool-cases, Option-cases,
  subst,
}
use mochi_bake.Client.Handles.{
  Handle, State, find, update, erase, Op, new_handle, incr, drop_ref, set_limit,
}

-- How many references to a handle there are, and the collection without one of them.
abbrev pub count : ℕ → List ℕ → ℕ
count a [] = 0
count a (b ∷ m) = (if b == a then 1 else 0) + count a m

abbrev pub without : List ℕ → ℕ → List ℕ
without [] a = []
without (b ∷ m) a = if b == a then m else b ∷ without m a

-- What an operation does to the references, if the user may call it: memory is only handed out where
-- no reference points to it, a handle is only used by who holds a reference to it, and there are fewer
-- than 2 ^ 64 references.
abbrev pub refs_step : {Addr : Type 0} → Op Addr → List ℕ → Option (List ℕ)
refs_step (new_handle a addr id) m =
    if (count a m == 0) && ltb (length m + 1) (2 ^ 64) then some (a ∷ m) else none
refs_step (incr a) m =
    if ltb 0 (count a m) && ltb (length m + 1) (2 ^ 64) then some (a ∷ m) else none
refs_step (drop_ref a) m = if ltb 0 (count a m) then some (without m a) else none
refs_step (set_limit a limit) m = if ltb 0 (count a m) then some m else none

pub count-without :
    (m : List ℕ) (a b : ℕ)
    → 0 < count a m
    → count b (without m a) + (if a == b then 1 else 0) ≡ count b m
count-without [] a b h = absurd (omega arith)
count-without (c ∷ m) a b h = ground (arith, count-without m a b)

pub length-without : (m : List ℕ) (a : ℕ) → 0 < count a m → suc (length (without m a)) ≡ length m
length-without [] a h = absurd (omega arith)
length-without (c ∷ m) a h = ground (arith, length-without m a)

pub count-le-length : (m : List ℕ) (a : ℕ) → count a m ≤ length m
count-le-length [] a = omega arith
count-le-length (c ∷ m) a = ground (arith, count-le-length m a)

pub same_address : (a b : ℕ) → (a == b) ≡ true → a ≡ b
same_address a b h = ground arith

module _ {Addr : Type 0} where
  abbrev pub refs_run : List (Op Addr) → List ℕ → Option (List ℕ)
  refs_run [] m = some m
  refs_run (o ∷ os) m = refs_step o m >>= refs_run os

  abbrev pub count_at : Option (Handle Addr) → ℕ
  count_at none = 0
  count_at (some h) = h.refcount

  -- The sum of the counts.
  abbrev pub total : List (ℕ × Handle Addr) → ℕ
  total [] = 0
  total ((b, h) ∷ hs) = h.refcount + total hs

  -- Handles stand at distinct addresses, and each is referred to.
  abbrev pub IsHeap : List (ℕ × Handle Addr) → Type 0
  IsHeap [] = Unit {0}
  IsHeap ((b, h) ∷ hs) = (find Addr hs b ≡ none) × (0 < h.refcount) × IsHeap hs

  -- The state that stands for a collection of references.
  pub record Counts (s : State Addr) (m : List ℕ) : Type 0 where
    pub counted : (a : ℕ) → count_at (find Addr s.handles a) ≡ count a m
    pub heap : IsHeap s.handles
    pub sum : total s.handles ≡ length m
    pub number : s.num_provider_handles ≡ length s.handles
    pub few : length m < 2 ^ 64

  pub length-le-total : (hs : List (ℕ × Handle Addr)) → IsHeap hs → length hs ≤ total hs
  length-le-total [] v = omega arith
  length-le-total ((b, h) ∷ hs) (_, p, v) = omega (arith, length-le-total hs v)

  find-update :
      (hs : List (ℕ × Handle Addr)) (a b : ℕ) (h g : Handle Addr)
      → find Addr hs a ≡ some h
      → find Addr (update Addr hs a g) b ≡ (if a == b then some g else find Addr hs b)
  find-update [] a b h g e = cc
  find-update ((c, k) ∷ hs) a b h g e = ground (arith, find-update hs a b h g)

  pub total-update :
      (hs : List (ℕ × Handle Addr)) (a : ℕ) (h g : Handle Addr)
      → find Addr hs a ≡ some h
      → total (update Addr hs a g) + h.refcount ≡ total hs + g.refcount
  total-update [] a h g e = cc
  total-update ((c, k) ∷ hs) a h g e = ground (arith, total-update hs a h g)

  pub length-update :
      (hs : List (ℕ × Handle Addr)) (a : ℕ) (g : Handle Addr)
      → length (update Addr hs a g) ≡ length hs
  length-update [] a g = refl
  length-update ((c, k) ∷ hs) a g = ground (arith, length-update hs a g)

  pub IsHeap-update :
      (hs : List (ℕ × Handle Addr)) (a : ℕ) (h g : Handle Addr)
      → find Addr hs a ≡ some h
      → 0 < g.refcount
      → IsHeap hs
      → IsHeap (update Addr hs a g)
  IsHeap-update [] a h g e p v = v
  IsHeap-update ((c, k) ∷ hs) a h g e p (fresh, q, v) = elim (Bool-cases (c == a)) [
    | inl same ↦ rw same (fresh, p, v)
    | inr other ↦
        let found : find Addr hs a ≡ some h = ground arith in
        let still : find Addr (update Addr hs a g) c ≡ none =
          ground (arith, find-update hs a c h g found) in
        rw other (still, q, IsHeap-update hs a h g found p v)
  ]

  pub find-erase :
      (hs : List (ℕ × Handle Addr)) (a b : ℕ)
      → IsHeap hs
      → find Addr (erase Addr hs a) b ≡ (if a == b then none else find Addr hs b)
  find-erase [] a b v = ground arith
  find-erase ((c, k) ∷ hs) a b (fresh, q, v) = ground (arith, find-erase hs a b v)

  pub total-erase :
      (hs : List (ℕ × Handle Addr)) (a : ℕ) (h : Handle Addr)
      → find Addr hs a ≡ some h
      → (total (erase Addr hs a) + h.refcount ≡ total hs)
        × (suc (length (erase Addr hs a)) ≡ length hs)
  total-erase [] a h e = cc
  total-erase ((c, k) ∷ hs) a h e = ground (arith, total-erase hs a h)

  pub IsHeap-erase : (hs : List (ℕ × Handle Addr)) (a : ℕ) → IsHeap hs → IsHeap (erase Addr hs a)
  IsHeap-erase [] a v = v
  IsHeap-erase ((c, k) ∷ hs) a (fresh, q, v) = elim (Bool-cases (c == a)) [
    | inl same ↦ rw same v
    | inr other ↦
        let still : find Addr (erase Addr hs a) c ≡ none = ground (arith, find-erase hs a c v) in
        rw other (still, q, IsHeap-erase hs a v)
  ]

  -- A handle that is referred to is allocated.
  pub held :
      {s : State Addr} {m : List ℕ} (a : ℕ)
      → Counts s m
      → 0 < count a m
      → (h : Handle Addr) × (find Addr s.handles a ≡ some h) × (h.refcount ≡ count a m)
  held {s} {m} a v p = elim (Option-cases (find Addr s.handles a)) [
    | inl e ↦ absurd (omega (arith, sym (ap count_at e) ∙ v.counted a))
    | inr (h, e) ↦ (h, e, sym (ap count_at e) ∙ v.counted a)
  ]

  -- A collection with another count for one handle.
  pub counted-update :
      (hs : List (ℕ × Handle Addr)) (a : ℕ) (h g : Handle Addr) (m m' : List ℕ)
      → find Addr hs a ≡ some h
      → ((b : ℕ) → count_at (find Addr hs b) ≡ count b m)
      → g.refcount ≡ count a m'
      → ((b : ℕ) → (a == b) ≡ false → count b m' ≡ count b m)
      → (b : ℕ) → count_at (find Addr (update Addr hs a g) b) ≡ count b m'
  counted-update hs a h g m m' e c here other b = elim (Bool-cases (a == b)) [
    | inl same ↦
        rw (find-update hs a b h g e, same)
          (subst (λ x. g.refcount ≡ count x m') (same_address a b same) here)
    | inr differs ↦ rw (find-update hs a b h g e, differs) (c b ∙ sym (other b differs))
  ]
