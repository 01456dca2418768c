-- ===== src/FileBackend/Transfer/Crew/Complete.antt =====
-- What a transfer has done when it signals success, under every schedule of its threads.
use mochi_bake.Prelude.{
  ℕ, ◌+◌, ◌<◌, ◌≡◌, refl, ◌∙◌, inl, inr, is_zero, true, arith, length, List, [], ◌∷◌, subst,
}
use mochi_bake.FileBackend.Transfer.{Xfer}
use mochi_bake.FileBackend.Transfer.Chunks.{IsXfer, IsXfer-status}
use mochi_bake.FileBackend.Transfer.Crew.{Crew, crew_of, Reach, here, next}
use mochi_bake.FileBackend.Transfer.Crew.Safety.{Counted, Reach-Counted, crew_of-Counted}
use mochi_bake.FileBackend.Transfer.Crew.Flows.{Covers, Flows, Step-Flows, nil_eq}
use mochi_bake.FileBackend.Transfer.Crew.Tally.{sizes-nil, clean, Tally, Step-Tally}

-- A transfer that has not begun.
pub record IsFresh (x : Xfer) : Type 0 where
  pub valid : IsXfer x
  pub not_issued : x.log_issued ≡ 0
  pub not_retired : x.log_retired ≡ 0

record Progress (x : Xfer) (n : ℕ) (s : Crew) : Type 0 where
  flows : Flows x s
  tally : Tally n s

crew_of-Progress : (x : Xfer) (n : ℕ) → IsFresh x → Progress x n (crew_of x n)
unfolding crew_of
crew_of-Progress x n f = record {
  flows = record {
    valid = IsXfer-status x x.log_retired x.ret n f.valid;
    log_start = refl;
    log_size = refl;
    remote_start = refl;
    remote_size = refl;
    covers =
        nil_eq _ _ _ _ (omega (arith, f.not_issued)) (omega (arith, f.not_issued, f.valid.issued));
  };
  tally = record {
    retired = λ c. omega (arith, f.not_retired, f.not_issued);
    stopped = λ c. inl (omega arith);
  };
}

Reach-Progress : {x : Xfer} {n : ℕ} {s t : Crew} → Progress x n s → Reach s t → Progress x n t
Reach-Progress p here = p
Reach-Progress {n} p (next r st) =
    let q = Reach-Progress p r in
    record { flows = Step-Flows st q.flows; tally = Step-Tally n st q.flows q.tally }

no_length : {A : Type 0} (xs : List A) → length xs ≡ 0 → xs ≡ []
no_length [] h = refl
no_length (x ∷ xs) h = absurd (omega (arith, h))

signalled_complete :
    {x : Xfer} (n : ℕ) (s : Crew)
    → 0 < n
    → Progress x n s
    → Counted s
    → s.signals ≡ 1
    → is_zero s.shared.ret ≡ true
    → s.silent ≡ 0
    → (s.shared.log_issued ≡ x.log_entry_size)
      × (s.shared.transmit_issued ≡ x.transmit_size)
      × (s.shared.log_retired ≡ x.log_entry_size)
      × (s.working ≡ [])
signalled_complete n s h p v e z q =
    let idle_none : s.idle + length s.working ≡ 0 = ground (arith, v.signalled, v.active) in
    let ok : clean s ≡ true = ground arith in
    let over : s.shared.log_issued ≡ s.shared.log_entry_size = elim (p.tally.stopped ok) [
      | inl all ↦ absurd (omega arith)
      | inr done ↦ done
    ] in
    let empty = sizes-nil s.working (omega (arith, idle_none)) in
    (
      over ∙ p.flows.log_size,
      omega (arith, over, p.flows.valid.issued, p.flows.valid.contained, p.flows.remote_size),
      omega (arith, over, p.flows.log_size, p.tally.retired ok, empty),
      no_length s.working (omega (arith, idle_none)),
    )

-- Under every schedule of the threads of a transfer, the chunks that they have taken follow one another
-- without gap or overlap, in the log from the start of the extent and in the remote range from its
-- start, up to what the shared state says is issued.
pub crew-Covers :
    (x : Xfer) (n : ℕ) {s : Crew}
    → IsFresh x
    → Reach (crew_of x n) s
    → Covers x.log_entry_offset x.remote_offset s.pulled
        (x.log_entry_offset + s.shared.log_issued)
        (x.remote_offset + s.shared.transmit_issued)
crew-Covers x n f r = (Reach-Progress (crew_of-Progress x n f) r).flows.covers

-- Under every schedule of the threads of a transfer, if the eventual is set with the code 0, and no
-- call has failed with the code 0, then the chunks that the threads have taken follow one another without
-- gap or overlap over the whole extent of the log and over the whole remote range, no thread still works
-- on one of them, and the sizes of those that came to their end add up to the extent.
pub crew_complete :
    (x : Xfer) (n : ℕ) {s : Crew}
    → 0 < n
    → IsFresh x
    → Reach (crew_of x n) s
    → s.signals ≡ 1
    → is_zero s.shared.ret ≡ true
    → s.silent ≡ 0
    → Covers x.log_entry_offset x.remote_offset s.pulled
        (x.log_entry_offset + x.log_entry_size)
        (x.remote_offset + x.transmit_size)
      × (s.working ≡ [])
      × (s.shared.log_retired ≡ x.log_entry_size)
crew_complete x n {s} h f r e z q =
    let (issued, sent, retired, none_left) =
      signalled_complete n s h (Reach-Progress (crew_of-Progress x n f) r)
        (Reach-Counted (crew_of-Counted x n h) r) e z q in
    (
      subst
          (λ k.
            Covers x.log_entry_offset x.remote_offset s.pulled (x.log_entry_offset + k)
              (x.remote_offset + x.transmit_size))
          issued
          (subst
            (λ k.
              Covers x.log_entry_offset x.remote_offset s.pulled
                (x.log_entry_offset + s.shared.log_issued) (x.remote_offset + k))
            sent (crew-Covers x n f r)),
      none_left,
      retired,
    )
