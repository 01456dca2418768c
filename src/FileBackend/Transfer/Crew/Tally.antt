-- ===== src/FileBackend/Transfer/Crew/Tally.antt =====
-- What is retired and at work while no thread of a transfer has failed, step by step.
use mochi_bake.Prelude.{
  ℕ, suc, ◌+◌, ◌≤◌, ◌≡◌, refl, sym, ap, ◌∙◌, ◌⊎◌, inl, inr, ℤ, is_zero, Bool, true, false, List, [],
  ◌∷◌, ◌++◌, ◌&&◌, ◌==◌, if◌then◌else◌, arith, length, length-append,
}
use mochi_bake.FileBackend.Transfer.{Xfer, Chunk, has_work}
use mochi_bake.FileBackend.Transfer.Chunks.{take_chunk-lem, take_chunk_kept}
use mochi_bake.FileBackend.Transfer.Crew.{
  Crew, after_pull, after_retire, after_fail, after_stop, after_leave, Step, pull, retire, fail,
  stop, leave,
}
use mochi_bake.FileBackend.Transfer.Crew.Flows.{Flows, has_work-lt}

abbrev pub sizes : List Chunk → ℕ
sizes [] = 0
sizes (c ∷ cs) = c.log_size + sizes cs

sizes-append : (xs ys : List Chunk) → sizes (xs ++ ys) ≡ sizes xs + sizes ys
sizes-append [] ys = omega arith
sizes-append (x ∷ xs) ys = omega (arith, sizes-append xs ys)

pub sizes-nil : (cs : List Chunk) → length cs ≡ 0 → sizes cs ≡ 0
sizes-nil [] e = refl
sizes-nil (c ∷ cs) e = absurd (omega arith)

-- No thread has failed.
abbrev pub clean : Crew → Bool
clean s = is_zero s.shared.ret && s.silent == 0

-- While no thread has failed, every chunk that was taken is retired or at work, and a thread that has
-- left the loop has seen the whole extent issued.
pub record Tally (n : ℕ) (s : Crew) : Type 0 where
  pub retired : clean s ≡ true → s.shared.log_retired + sizes s.working ≡ s.shared.log_issued
  pub stopped :
      clean s ≡ true
      → (s.idle + length s.working ≡ n) ⊎ (s.shared.log_issued ≡ s.shared.log_entry_size)

Tally-pull :
    {x : Xfer} (n : ℕ) (s : Crew) (k : ℕ)
    → s.idle ≡ suc k
    → has_work s.shared ≡ true
    → Flows x s
    → Tally n s
    → Tally n (after_pull s k)
unfolding after_pull
Tally-pull n s k e h v t =
    let kept = take_chunk_kept s.shared in
    let lem = take_chunk-lem s.shared v.valid (has_work-lt s.shared h) in
    let same : clean (after_pull s k) ≡ clean s = ap (λ r. is_zero r && s.silent == 0) kept.5 in
    record {
      retired = λ c. omega (arith, t.retired (sym same ∙ c), kept, lem);
      stopped = λ c. elim (t.stopped (sym same ∙ c)) [
        | inl all ↦ inl (omega arith)
        | inr over ↦ absurd (omega (arith, has_work-lt s.shared h))
      ];
    }

Tally-retire :
    {x : Xfer} (n : ℕ) (s : Crew) (c : Chunk) (front back : List Chunk)
    → s.working ≡ front ++ c ∷ back
    → Flows x s
    → Tally n s
    → Tally n (after_retire s c (front ++ back))
unfolding after_retire
Tally-retire n s c front back e v t = record {
  retired = λ ok. omega (
    arith,
    t.retired ok,
    ap sizes e,
    sizes-append front (c ∷ back),
    sizes-append front back,
    v.valid.issued_le,
    v.valid.log_in_range,
  );
  stopped = λ ok. elim (t.stopped ok) [
    | inl all ↦
        inl (omega (arith, ap length e, length-append front (c ∷ back), length-append front back))
    | inr over ↦ inr over
  ];
}

never_clean :
    (code : ℤ) (silent : ℕ)
    → (is_zero code && (if is_zero code then suc silent else silent) == 0) ≡ true
    → ⊥
never_clean code silent h = ground arith

Tally-fail : (n : ℕ) (s : Crew) (code : ℤ) (rest : List Chunk) → Tally n (after_fail s code rest)
unfolding after_fail
Tally-fail n s code rest = record {
  retired = λ c. absurd (never_clean code s.silent c);
  stopped = λ c. absurd (never_clean code s.silent c);
}

clean-ret : (s : Crew) → clean s ≡ true → is_zero s.shared.ret ≡ true
clean-ret s c = ground arith

out_of_work :
    (x : Xfer)
    → has_work x ≡ false
    → is_zero x.ret ≡ true
    → x.log_issued ≤ x.log_entry_size
    → x.log_issued ≡ x.log_entry_size
out_of_work x h z le = ground arith

Tally-stop :
    {x : Xfer} (n : ℕ) (s : Crew) (k : ℕ)
    → s.idle ≡ suc k
    → has_work s.shared ≡ false
    → Flows x s
    → Tally n s
    → Tally n (after_stop s k)
unfolding after_stop
Tally-stop n s k e h v t = record {
  retired = t.retired;
  stopped = λ c. inr (out_of_work s.shared h (clean-ret s c) v.valid.issued_le);
}

Tally-leave : (n : ℕ) (s : Crew) (k : ℕ) → Tally n s → Tally n (after_leave s k)
unfolding after_leave
Tally-leave n s k t = record { retired = t.retired; stopped = t.stopped }

pub Step-Tally : {x : Xfer} {s t : Crew} (n : ℕ) → Step s t → Flows x s → Tally n s → Tally n t
Step-Tally {s} n (pull k e h) v t = Tally-pull n s k e h v t
Step-Tally {s} n (retire c front back e) v t = Tally-retire n s c front back e v t
Step-Tally {s} n (fail code c front back e h) v t = Tally-fail n s code (front ++ back)
Step-Tally {s} n (stop k e h) v t = Tally-stop n s k e h v t
Step-Tally {s} n (leave k e) v t = Tally-leave n s k t
