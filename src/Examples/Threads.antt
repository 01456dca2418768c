-- ===== src/Examples/Threads.antt =====
-- Two threads that write 5 bytes in a log extent of 8, in chunks of 4: `xfer_ult` of
-- src/bake-file-backend.c under one schedule.
use mochi_bake.Prelude.{◌+◌, ◌≤◌, ◌≡◌, refl, inl, [], ◌∷◌, arith}
use mochi_bake.ReturnCode.{success}
use mochi_bake.FileBackend.Transfer.{
  write, Xfer, Chunk, take_chunk, chunk_size, chunk_skip, chunk_transmit,
}
use mochi_bake.FileBackend.Transfer.Crew.{
  Crew, crew_of, after_pull, after_retire, after_stop, after_leave, Step, pull, retire, stop, leave,
  Reach, here, next,
}
use mochi_bake.FileBackend.Transfer.Crew.Safety.{crew_signal, crew_silence}
use mochi_bake.FileBackend.Transfer.Crew.Complete.{IsFresh, crew-Covers, crew_complete}
use mochi_bake.FileBackend.Transfer.Crew.Flows.{Covers}

abbrev transfer : Xfer
transfer = record {
  remote_offset = 100;
  log_entry_offset = 4096;
  log_entry_size = 8;
  log_issued = 0;
  log_retired = 0;
  transmit_size = 5;
  transmit_offset_in_log = 1;
  transmit_issued = 0;
  poolset_max_size = 4;
  ret = success;
  ults_active = 0;
  op = write;
}

transfer-IsFresh : IsFresh transfer
transfer-IsFresh = record {
  valid = record {
    nonempty = omega arith;
    log_in_range = omega arith;
    remote_in_range = omega arith;
    contained = omega arith;
    first_chunk = omega arith;
    pool_in_range = omega arith;
    issued_le = omega arith;
    skipped = inl refl;
    issued = refl;
  };
  not_issued = refl;
  not_retired = refl;
}

abbrev first : Chunk
first = record {
  log_offset = 4096;
  log_size = 4;
  remote_offset = 100;
  transmit_size = 3;
  transmit_offset_in_log = 1;
}

abbrev second : Chunk
second = record {
  log_offset = 4100;
  log_size = 4;
  remote_offset = 103;
  transmit_size = 2;
  transmit_offset_in_log = 0;
}

-- Both threads take a chunk, the second is done first, and both leave.
abbrev taken : Crew
taken = after_pull (after_pull (crew_of transfer 2) 1) 0

abbrev done : Crew
done = after_retire (after_retire taken second (first ∷ [])) first []

abbrev finished : Crew
finished = after_leave (after_leave (after_stop (after_stop done 1) 0) 1) 0

finished-Reach : Reach (crew_of transfer 2) finished
unfolding crew_of after_pull after_retire after_stop after_leave take_chunk chunk_size chunk_skip
    chunk_transmit
finished-Reach =
    next
      (next
        (next
          (next
            (next
              (next (next (next here (pull 1 refl refl)) (pull 0 refl refl))
                (retire second [] (first ∷ []) refl))
              (retire first [] [] refl))
            (stop 1 refl refl))
          (stop 0 refl refl))
        (leave 1 refl))
      (leave 0 refl)

crew_signal_example : finished.signals ≤ 1
crew_signal_example = crew_signal transfer 2 (omega arith) finished-Reach

crew_silence_example : ¬ Step finished finished
unfolding crew_of after_pull after_retire after_stop after_leave take_chunk chunk_size chunk_skip
    chunk_transmit
crew_silence_example = crew_silence transfer 2 (omega arith) finished-Reach refl

crew-Covers_example :
    Covers 4096 100 finished.pulled
      (4096 + finished.shared.log_issued)
      (100 + finished.shared.transmit_issued)
crew-Covers_example = crew-Covers transfer 2 transfer-IsFresh finished-Reach

crew_complete_example :
    Covers 4096 100 finished.pulled (4096 + 8) (100 + 5)
    × (finished.working ≡ [])
    × (finished.shared.log_retired ≡ 8)
unfolding crew_of after_pull after_retire after_stop after_leave take_chunk chunk_size chunk_skip
    chunk_transmit
crew_complete_example =
    crew_complete transfer 2 (omega arith) transfer-IsFresh finished-Reach refl refl refl
