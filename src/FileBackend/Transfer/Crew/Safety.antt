-- ===== src/FileBackend/Transfer/Crew/Safety.antt =====
-- What holds of a transfer under every schedule of its threads.
use mochi_bake.Prelude.{
  ℕ, suc, ◌+◌, ◌≤◌, ◌<◌, ◌≡◌, ◌≢◌, ap, ℤ, List, ◌∷◌, ◌++◌, ◌==◌, if◌then◌else◌, arith, length,
  length-append,
}
use mochi_bake.FileBackend.Transfer.{Xfer, Chunk, take_chunk}
use mochi_bake.FileBackend.Transfer.Crew.{
  Crew, crew_of, after_pull, after_retire, after_fail, after_stop, after_leave, Step, pull, retire,
  fail, stop, leave, Reach, here, next,
}

-- The bookkeeping of the threads.
pub record Counted (s : Crew) : Type 0 where
  pub active : s.shared.ults_active ≡ s.idle + length s.working + s.leaving
  pub signalled : s.signals ≡ (if s.shared.ults_active == 0 then 1 else 0)

Counted-pull : (s : Crew) (k : ℕ) → s.idle ≡ suc k → Counted s → Counted (after_pull s k)
unfolding after_pull take_chunk
Counted-pull s k e v = record { active = omega (arith, v.active); signalled = v.signalled }

Counted-retire :
    (s : Crew) (c : Chunk) (front back : List Chunk)
    → s.working ≡ front ++ c ∷ back
    → Counted s
    → Counted (after_retire s c (front ++ back))
unfolding after_retire
Counted-retire s c front back e v = record {
  active =
      omega
        (arith, v.active, ap length e, length-append front (c ∷ back), length-append front back);
  signalled = v.signalled;
}

Counted-fail :
    (s : Crew) (code : ℤ) (c : Chunk) (front back : List Chunk)
    → s.working ≡ front ++ c ∷ back
    → Counted s
    → Counted (after_fail s code (front ++ back))
unfolding after_fail
Counted-fail s code c front back e v = record {
  active =
      omega
        (arith, v.active, ap length e, length-append front (c ∷ back), length-append front back);
  signalled = v.signalled;
}

Counted-stop : (s : Crew) (k : ℕ) → s.idle ≡ suc k → Counted s → Counted (after_stop s k)
unfolding after_stop
Counted-stop s k e v = record { active = omega (arith, v.active); signalled = v.signalled }

Counted-leave : (s : Crew) (k : ℕ) → s.leaving ≡ suc k → Counted s → Counted (after_leave s k)
unfolding after_leave
Counted-leave s k e v = record {
  active = omega (arith, v.active);
  signalled = ground (arith, v.active, v.signalled);
}

Step-Counted : {s t : Crew} → Step s t → Counted s → Counted t
Step-Counted {s} (pull k e h) = Counted-pull s k e
Step-Counted {s} (retire c front back e) = Counted-retire s c front back e
Step-Counted {s} (fail code c front back e h) = Counted-fail s code c front back e
Step-Counted {s} (stop k e h) = Counted-stop s k e
Step-Counted {s} (leave k e) = Counted-leave s k e

pub crew_of-Counted : (x : Xfer) (n : ℕ) → 0 < n → Counted (crew_of x n)
unfolding crew_of
crew_of-Counted x n h = record { active = omega arith; signalled = ground arith }

pub Reach-Counted : {s t : Crew} → Counted s → Reach s t → Counted t
Reach-Counted v here = v
Reach-Counted v (next r st) = Step-Counted st (Reach-Counted v r)

-- A step needs a thread.
no_thread : {s t : Crew} → Step s t → s.idle + length s.working + s.leaving ≢ 0
no_thread (pull k e h) z = absurd (omega arith)
no_thread (retire c front back e) z =
    absurd (omega (arith, ap length e, length-append front (c ∷ back)))
no_thread (fail code c front back e h) z =
    absurd (omega (arith, ap length e, length-append front (c ∷ back)))
no_thread (stop k e h) z = absurd (omega arith)
no_thread (leave k e) z = absurd (omega arith)

-- Under every schedule of the threads of a transfer the eventual is set at most once.
pub crew_signal : (x : Xfer) (n : ℕ) {s : Crew} → 0 < n → Reach (crew_of x n) s → s.signals ≤ 1
crew_signal x n h r = ground (arith, (Reach-Counted (crew_of-Counted x n h) r).signalled)

-- Once the eventual of a transfer is set, no thread has a step left, under any schedule: nobody touches
-- the arguments on the caller's stack after the caller may go on.
pub crew_silence :
    (x : Xfer) (n : ℕ) {s t : Crew} → 0 < n → Reach (crew_of x n) s → s.signals ≡ 1 → ¬ Step s t
crew_silence x n h r e st =
    let v = Reach-Counted (crew_of-Counted x n h) r in
    no_thread st (ground (arith, v.signalled, v.active))
