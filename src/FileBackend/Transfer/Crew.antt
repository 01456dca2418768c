-- ===== src/FileBackend/Transfer/Crew.antt =====
-- The threads of one transfer side by side: `xfer_ult` of src/bake-file-backend.c as a step relation.
-- What happens under the mutex is one step; the calls on a chunk in between are the choice between
-- `retire` and `fail`. `args->ret` is tested and set in one step.
pub mod Safety
pub mod Flows
pub mod Tally
pub mod Complete
use mochi_bake.Prelude.{
  ℕ, suc, ◌+◌, ◌-◌, ◌≡◌, ℤ, is_zero, true, false, List, [], ◌∷◌, ◌++◌, ◌==◌, if◌then◌else◌,
}
use mochi_bake.FileBackend.{u64}
use mochi_bake.FileBackend.Transfer.{Xfer, Chunk, has_work, take_chunk}

-- The shared state, with each thread at one of three places: before the test of its loop, at work on
-- a chunk, or behind `finished:`. `pulled` lists the chunks in the order in which they were taken,
-- `signals` counts the calls of `ABT_eventual_set`, and `silent` the failures whose code was 0.
pub record Crew : Type 0 where
  pub shared : Xfer
  pub idle : ℕ
  pub working : List Chunk
  pub leaving : ℕ
  pub pulled : List Chunk
  pub signals : ℕ
  pub silent : ℕ

-- A transfer when its threads have been created.
unfoldable pub crew_of : Xfer → ℕ → Crew
crew_of x n = record {
  shared = record x { ults_active = n };
  idle = n;
  working = [];
  leaving = 0;
  pulled = [];
  signals = 0;
  silent = 0;
}

unfoldable pub after_pull : Crew → ℕ → Crew
after_pull s k = record s {
  shared = (take_chunk s.shared).1;
  idle = k;
  working = (take_chunk s.shared).0 ∷ s.working;
  pulled = s.pulled ++ (take_chunk s.shared).0 ∷ [];
}

unfoldable pub after_retire : Crew → Chunk → List Chunk → Crew
after_retire s c rest = record s {
  shared = record (s.shared) { log_retired = u64 (s.shared.log_retired + c.log_size) };
  idle = suc s.idle;
  working = rest;
}

unfoldable pub after_fail : Crew → ℤ → List Chunk → Crew
after_fail s code rest = record s {
  shared = record (s.shared) { ret = code };
  working = rest;
  leaving = suc s.leaving;
  silent = if is_zero code then suc s.silent else s.silent;
}

unfoldable pub after_stop : Crew → ℕ → Crew
after_stop s k = record s { idle = k; leaving = suc s.leaving }

-- `args->ults_active--`, and the signal of the thread that reaches 0.
unfoldable pub after_leave : Crew → ℕ → Crew
after_leave s k = record s {
  shared = record (s.shared) { ults_active = s.shared.ults_active - 1 };
  leaving = k;
  signals = if s.shared.ults_active - 1 == 0 then suc s.signals else s.signals;
}

pub data Step (s : Crew) : Crew → Type 0 where
  -- A thread finds work and takes a chunk.
  pull : (k : ℕ) → s.idle ≡ suc k → has_work s.shared ≡ true → Step s (after_pull s k)
  -- A chunk is done, and its thread goes back to the loop.
  retire :
      (c : Chunk) (front back : List Chunk)
      → s.working ≡ front ++ c ∷ back
      → Step s (after_retire s c (front ++ back))
  -- A call on a chunk fails, and no thread has failed before.
  fail :
      (code : ℤ) (c : Chunk) (front back : List Chunk)
      → s.working ≡ front ++ c ∷ back
      → is_zero s.shared.ret ≡ true
      → Step s (after_fail s code (front ++ back))
  -- A thread finds no work.
  stop : (k : ℕ) → s.idle ≡ suc k → has_work s.shared ≡ false → Step s (after_stop s k)
  -- A thread goes through `finished:`.
  leave : (k : ℕ) → s.leaving ≡ suc k → Step s (after_leave s k)

pub data Reach (s : Crew) : Crew → Type 0 where
  here : Reach s s
  next : {t u : Crew} → Reach s t → Step t u → Reach s u
