-- ===== src/FileBackend/Transfer/Crew/Flows.antt =====
-- The extents of the chunks that the threads of a transfer have taken, step by step.
use mochi_bake.Prelude.{ℕ, ◌+◌, ◌<◌, ◌≡◌, ◌∙◌, ℤ, true, List, [], ◌∷◌, ◌++◌, arith}
use mochi_bake.FileBackend.Transfer.{Xfer, Chunk, has_work, take_chunk}
use mochi_bake.FileBackend.Transfer.Chunks.{
  IsXfer, take_chunk-lem, take_chunk-IsXfer, take_chunk_kept, IsXfer-status,
}
use mochi_bake.FileBackend.Transfer.Crew.{
  Crew, after_pull, after_retire, after_fail, after_stop, after_leave, Step, pull, retire, fail,
  stop, leave,
}

-- The chunks follow one another in the log and in the remote range.
pub data Covers : ℕ → ℕ → List Chunk → ℕ → ℕ → Type 0 where
  nil : {log remote : ℕ} → Covers log remote [] log remote
  snoc :
      {log remote log' remote' : ℕ} {cs : List Chunk} (c : Chunk)
      → Covers log remote cs log' remote'
      → c.log_offset ≡ log'
      → c.remote_offset ≡ remote'
      → Covers log remote (cs ++ c ∷ []) (log' + c.log_size) (remote' + c.transmit_size)

-- What the chunks that were taken say of the shared state.
pub record Flows (x : Xfer) (s : Crew) : Type 0 where
  pub valid : IsXfer s.shared
  pub log_start : s.shared.log_entry_offset ≡ x.log_entry_offset
  pub log_size : s.shared.log_entry_size ≡ x.log_entry_size
  pub remote_start : s.shared.remote_offset ≡ x.remote_offset
  pub remote_size : s.shared.transmit_size ≡ x.transmit_size
  pub covers :
      Covers x.log_entry_offset x.remote_offset s.pulled
        (x.log_entry_offset + s.shared.log_issued)
        (x.remote_offset + s.shared.transmit_issued)

pub has_work-lt : (x : Xfer) → has_work x ≡ true → x.log_issued < x.log_entry_size
has_work-lt x h = ground arith

pub nil_eq :
    (log remote log₁ remote₁ : ℕ)
    → log₁ ≡ log
    → remote₁ ≡ remote
    → Covers log remote [] log₁ remote₁
nil_eq log remote log₁ remote₁ p q = rw (p, q) nil

snoc_eq :
    {log remote log₁ remote₁ : ℕ} {cs : List Chunk} (c : Chunk) (log₂ remote₂ : ℕ)
    → Covers log remote cs log₁ remote₁
    → c.log_offset ≡ log₁
    → c.remote_offset ≡ remote₁
    → log₂ ≡ log₁ + c.log_size
    → remote₂ ≡ remote₁ + c.transmit_size
    → Covers log remote (cs ++ c ∷ []) log₂ remote₂
snoc_eq c log₂ remote₂ cov a b p q = rw (p, q) (snoc c cov a b)

Flows-pull :
    {x : Xfer} (s : Crew) (k : ℕ) → has_work s.shared ≡ true → Flows x s → Flows x (after_pull s k)
unfolding after_pull
Flows-pull s k h v =
    let kept = take_chunk_kept s.shared in
    let lem = take_chunk-lem s.shared v.valid (has_work-lt s.shared h) in
    record {
      valid = take_chunk-IsXfer s.shared v.valid (has_work-lt s.shared h);
      log_start = kept.0 ∙ v.log_start;
      log_size = kept.1 ∙ v.log_size;
      remote_start = kept.2 ∙ v.remote_start;
      remote_size = kept.3 ∙ v.remote_size;
      covers =
          snoc_eq (take_chunk s.shared).0 _ _ v.covers (omega (arith, lem, v.log_start))
            (omega (arith, lem, v.remote_start)) (omega (arith, lem)) (omega (arith, lem));
    }

-- The other steps change neither the extents nor what has been issued.
Flows-status :
    {x : Xfer} (s : Crew) (retired : ℕ) (code : ℤ) (active idle : ℕ) (working : List Chunk)
    (leaving signals silent : ℕ)
    → Flows x s
    → Flows x (record {
      shared = record (s.shared) { log_retired = retired; ret = code; ults_active = active };
      idle = idle;
      working = working;
      leaving = leaving;
      pulled = s.pulled;
      signals = signals;
      silent = silent;
    })
Flows-status s retired code active idle working leaving signals silent v = record {
  valid = IsXfer-status s.shared retired code active v.valid;
  log_start = v.log_start;
  log_size = v.log_size;
  remote_start = v.remote_start;
  remote_size = v.remote_size;
  covers = v.covers;
}

pub Step-Flows : {x : Xfer} {s t : Crew} → Step s t → Flows x s → Flows x t
unfolding after_retire after_fail after_stop after_leave
Step-Flows {s} (pull k e h) v = Flows-pull s k h v
Step-Flows {s} (retire c front back e) v = Flows-status s _ _ _ _ _ _ _ _ v
Step-Flows {s} (fail code c front back e h) v = Flows-status s _ _ _ _ _ _ _ _ v
Step-Flows {s} (stop k e h) v = Flows-status s _ _ _ _ _ _ _ _ v
Step-Flows {s} (leave k e) v = Flows-status s _ _ _ _ _ _ _ _ v
