-- ===== src/Client/Handles/Refines.antt =====
-- The counts of src/bake-client.c implement the user's references.
use mochi_bake.Prelude.{
  ℕ, suc, ◌+◌, ◌^◌, ◌<◌, ◌≡◌, refl, sym, ap, ◌∙◌, ◌⊎◌, inl, inr, Bool, true, false, not, Option,
  none, some, List, [], ◌∷◌, ◌==◌, if◌then◌else◌, ◌>>=◌, arith, length, Bool-cases, Option-cases,
  subst,
}
use mochi_bake.ReturnCode.{success}
use mochi_bake.FileBackend.{u64}
use mochi_bake.Client.Handles.{
  Handle, State, find, update, erase, pred, Op, new_handle, incr, drop_ref, set_limit, step, run,
  default_eager_limit, client_finalize,
}
use mochi_bake.Client.Handles.Refs.{
  count, without, refs_step, refs_run, Counts, count-without, length-without, count-le-length, held,
  counted-update, total-update, length-update, IsHeap-update, find-erase, total-erase, IsHeap-erase,
  same_address, length-le-total, count_at, total, IsHeap,
}

same_self : (a : ℕ) → (a == a) ≡ true
same_self a = ground arith

zero_of : (n : ℕ) → (n == 0) ≡ true → n ≡ 0
zero_of n h = ground arith

positive_of : (n : ℕ) → (n == 0) ≡ false → 0 < n
positive_of n h = ground arith

allowed_eq :
    (b : Bool) (m m' : List ℕ) → (if b then some m else none) ≡ some m' → (b ≡ true) × (m ≡ m')
allowed_eq true m m' e = (refl, (cc))
allowed_eq false m m' e = cc

some_eq : (m m' : List ℕ) → some m ≡ some m' → m ≡ m'
some_eq m m' e = cc

bound_some :
    (o : Option (List ℕ)) (f : List ℕ → Option (List ℕ)) (m : List ℕ)
    → (o >>= f) ≡ some m
    → (k : List ℕ) × (o ≡ some k) × (f k ≡ some m)
bound_some none f m e = cc
bound_some (some k) f m e = (k, refl, e)

same_zero : (n k : ℕ) → ((n ≡ 0) × (k ≡ 0)) ⊎ ((0 < n) × (0 < k)) → (n == 0) ≡ (k == 0)
same_zero n k h = ground arith

module _ {Addr : Type 0} where
  -- A step that the collection allows can be made, and leads to a state that stands for the new
  -- collection.
  abbrev Simulates : Op Addr → State Addr → List ℕ → Type 0
  Simulates o s m' = (s' : State Addr) × (step Addr o s ≡ some s') × Counts s' m'

  found_positive :
      (hs : List (ℕ × Handle Addr)) (a : ℕ) (h : Handle Addr)
      → IsHeap hs
      → find Addr hs a ≡ some h
      → 0 < h.refcount
  found_positive [] a h v e = cc
  found_positive ((c, k) ∷ hs) a h (fresh, q, v) e = ground (arith, found_positive hs a h v)

  total-zero :
      (hs : List (ℕ × Handle Addr))
      → IsHeap hs
      → ((length hs ≡ 0) × (total hs ≡ 0)) ⊎ ((0 < length hs) × (0 < total hs))
  total-zero [] v = inl (refl, refl)
  total-zero ((c, k) ∷ hs) (fresh, q, v) = inr (omega arith, omega arith)

  unreferenced :
      (s : State Addr) (m : List ℕ)
      → Counts s m
      → (a : ℕ) → count a m ≡ 0
      → find Addr s.handles a ≡ none
  unreferenced s m v a new = elim (Option-cases (find Addr s.handles a)) [
    | inl e ↦ e
    | inr (h, e) ↦
        let count_h : h.refcount ≡ count a m = sym (ap count_at e) ∙ v.counted a in
        absurd (omega (arith, found_positive s.handles a h v.heap e, count_h, new))
  ]

  -- Another count for a handle that is referred to before and after.
  update-Counts :
      (s : State Addr) (m m' : List ℕ) (a : ℕ) (h g : Handle Addr)
      → Counts s m
      → find Addr s.handles a ≡ some h
      → g.refcount ≡ count a m'
      → 0 < count a m'
      → ((b : ℕ) → (a == b) ≡ false → count b m' ≡ count b m)
      → length m' + h.refcount ≡ length m + g.refcount
      → length m' < 2 ^ 64
      → Counts (record s { handles = update Addr s.handles a g }) m'
  update-Counts s m m' a h g v e here p other len few = record {
    counted = counted-update s.handles a h g m m' e v.counted here other;
    heap = IsHeap-update s.handles a h g e (omega arith) v.heap;
    sum = omega (arith, total-update s.handles a h g e, v.sum);
    number = v.number ∙ sym (length-update s.handles a g);
    few = few;
  }

  create-Simulates :
      (a : ℕ) (addr : Addr) (id : ℕ) (s : State Addr) (m : List ℕ)
      → Counts s m
      → count a m ≡ 0
      → length m + 1 < 2 ^ 64
      → Simulates (new_handle a addr id) s (a ∷ m)
  unfolding step
  create-Simulates a addr id s m v new few =
      let g : Handle Addr = record {
        addr = addr;
        provider_id = id;
        refcount = 1;
        eager_limit = default_eager_limit Addr;
      } in
      let fresh = unreferenced s m v a new in
      (
        record {
          handles = (a, g) ∷ s.handles;
          num_provider_handles = u64 (s.num_provider_handles + 1);
        },
        refl,
        record {
          counted = λ b. ground (arith, v.counted b, ap count_at fresh);
          heap = (fresh, omega arith, v.heap);
          sum = omega (arith, v.sum);
          number = omega (arith, v.number, v.sum, length-le-total s.handles v.heap);
          few = omega arith;
        },
      )

  incr-Simulates :
      (a : ℕ) (s : State Addr) (m : List ℕ)
      → Counts s m
      → 0 < count a m
      → length m + 1 < 2 ^ 64
      → Simulates (incr a) s (a ∷ m)
  unfolding step
  incr-Simulates a s m v some_ref few =
      let (h, e, refs) = held a v some_ref in
      let g : Handle Addr = record h { refcount = u64 (h.refcount + 1) } in
      let one : count a (a ∷ m) ≡ count a m + 1 = ground (arith, same_self a) in
      let more : g.refcount ≡ count a m + 1 = omega (arith, refs, count-le-length m a) in
      (
        record s { handles = update Addr s.handles a g },
        rw e refl,
        update-Counts s m (a ∷ m) a h g v e (more ∙ sym one) (omega (arith, one))
            (λ b other. ground arith) (omega (arith, more, refs)) (omega arith),
      )

  set_limit-Simulates :
      (a limit : ℕ) (s : State Addr) (m : List ℕ)
      → Counts s m
      → 0 < count a m
      → Simulates (set_limit a limit) s m
  unfolding step
  set_limit-Simulates a limit s m v some_ref =
      let (h, e, refs) = held a v some_ref in
      let g : Handle Addr = record h { eager_limit = limit } in
      (
        record s { handles = update Addr s.handles a g },
        rw e refl,
        update-Counts s m m a h g v e refs some_ref (λ b other. refl) refl v.few,
      )

  -- The last reference to a handle is dropped.
  erase-Counts :
      (s : State Addr) (m : List ℕ) (a : ℕ) (h : Handle Addr)
      → Counts s m
      → find Addr s.handles a ≡ some h
      → h.refcount ≡ 1
      → count a (without m a) + 1 ≡ count a m
      → ((b : ℕ) → (a == b) ≡ false → count b (without m a) ≡ count b m)
      → suc (length (without m a)) ≡ length m
      → Counts
          (record {
            handles = erase Addr s.handles a;
            num_provider_handles = pred Addr s.num_provider_handles;
          })
          (without m a)
  erase-Counts s m a h v e single one other len =
      let last : count a m ≡ 1 = sym (sym (ap count_at e) ∙ v.counted a) ∙ single in
      let (sum, number) = total-erase s.handles a h e in
      record {
        counted = λ b. elim (Bool-cases (a == b)) [
          | inl same ↦
              rw (find-erase s.handles a b v.heap, same)
                (subst (λ x. 0 ≡ count x (without m a)) (same_address a b same)
                  (omega (arith, one, last)))
          | inr differs ↦
              rw (find-erase s.handles a b v.heap, differs) (v.counted b ∙ sym (other b differs))
        ];
        heap = IsHeap-erase s.handles a v.heap;
        sum = omega (arith, sum, v.sum, len, single);
        number = omega (arith, v.number, number, v.sum, length-le-total s.handles v.heap, v.few);
        few = omega (arith, len, v.few);
      }

  drop_ref-Simulates :
      (a : ℕ) (s : State Addr) (m : List ℕ)
      → Counts s m
      → 0 < count a m
      → Simulates (drop_ref a) s (without m a)
  unfolding step
  drop_ref-Simulates a s m v some_ref =
      let (h, e, refs) = held a v some_ref in
      let left = count-without m a in
      let n = pred Addr h.refcount in
      let lower : n + 1 ≡ count a m = omega (arith, refs, count-le-length m a, v.few) in
      let one : count a (without m a) + 1 ≡ count a m =
        ground (arith, left a some_ref, same_self a) in
      let other : (b : ℕ) → (a == b) ≡ false → count b (without m a) ≡ count b m =
        λ b differs. ground (arith, left b some_ref) in
      let len = length-without m a some_ref in
      elim (Bool-cases (n == 0)) [
        | inl last ↦ (
          record {
            handles = erase Addr s.handles a;
            num_provider_handles = pred Addr s.num_provider_handles;
          },
          rw e (rw last refl),
          erase-Counts s m a h v e (omega (arith, zero_of n last, lower, refs)) one other len,
        )
        | inr more ↦ (
          record s { handles = update Addr s.handles a (record h { refcount = n }) },
          rw e (rw more refl),
          update-Counts s m (without m a) a h (record h { refcount = n }) v e
              (omega (arith, lower, one)) (omega (arith, lower, one, positive_of n more)) other
              (omega (arith, lower, refs, len)) (omega (arith, len, v.few)),
        )
      ]

  refs_step-Simulates :
      (o : Op Addr) (s : State Addr) (m m' : List ℕ)
      → Counts s m
      → refs_step o m ≡ some m'
      → Simulates o s m'
  refs_step-Simulates (new_handle a addr id) s m m' v e =
      let (may, here) = allowed_eq _ (a ∷ m) m' e in
      subst (λ t. Simulates (new_handle a addr id) s t) here
        (create-Simulates a addr id s m v (ground arith) (ground arith))
  refs_step-Simulates (incr a) s m m' v e =
      let (may, here) = allowed_eq _ (a ∷ m) m' e in
      subst (λ t. Simulates (incr a) s t) here
        (incr-Simulates a s m v (ground arith) (ground arith))
  refs_step-Simulates (drop_ref a) s m m' v e =
      let (may, here) = allowed_eq _ (without m a) m' e in
      subst (λ t. Simulates (drop_ref a) s t) here (drop_ref-Simulates a s m v (ground arith))
  refs_step-Simulates (set_limit a limit) s m m' v e =
      let (may, here) = allowed_eq _ m m' e in
      subst (λ t. Simulates (set_limit a limit) s t) here
        (set_limit-Simulates a limit s m v (ground arith))

  refs_run-Simulates :
      (os : List (Op Addr)) (s : State Addr) (m m' : List ℕ)
      → Counts s m
      → refs_run os m ≡ some m'
      → (s' : State Addr) × (run Addr os s ≡ some s') × Counts s' m'
  unfolding run
  refs_run-Simulates [] s m m' v e = (s, refl, subst (λ t. Counts s t) (some_eq m m' e) v)
  refs_run-Simulates (o ∷ os) s m m' v e =
      let (m₁, first, rest) = bound_some (refs_step o m) (refs_run os) m' e in
      let (s₁, stepped, v₁) = refs_step-Simulates o s m m₁ v first in
      let (s', ran, v') = refs_run-Simulates os s₁ m₁ m' v₁ rest in (s', rw stepped ran, v')

  -- Whatever a user does with the handles of a new client, as long as it uses a handle only while it
  -- holds a reference to it and `calloc` hands out no memory in use: no operation touches memory that
  -- has been released, every handle counts exactly the references to it that are left, a handle with
  -- none left has been freed, and `bake_client_finalize` warns exactly if some reference is left.
  pub run-refs :
      (os : List (Op Addr)) (m : List ℕ)
      → refs_run os [] ≡ some m
      → (s : State Addr) × (run Addr os (record { handles = []; num_provider_handles = 0 })
          ≡ some s)
        × ((a : ℕ) → count_at (find Addr s.handles a) ≡ count a m)
        × ((a : ℕ) → count a m ≡ 0 → find Addr s.handles a ≡ none)
        × (client_finalize Addr s ≡ (success, not (length m == 0)))
  unfolding client_finalize
  run-refs os m e =
      let (s, ran, v) =
        refs_run-Simulates os (record { handles = []; num_provider_handles = 0 }) [] m
          (record { counted = λ a. refl; heap = tt; sum = refl; number = refl; few = omega arith })
          e in
      (
        s,
        ran,
        v.counted,
        unreferenced s m v,
        ap (λ (t : Bool). (success, not t))
            (same_zero s.num_provider_handles (length m) (elim (total-zero s.handles v.heap) [
              | inl (none_left, sum) ↦
                  inl (omega (arith, v.number, none_left), omega (arith, v.sum, sum))
              | inr (some_left, sum) ↦
                  inr (omega (arith, v.number, some_left), omega (arith, v.sum, sum))
            ])),
      )
