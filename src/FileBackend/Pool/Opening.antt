-- ===== src/FileBackend/Pool/Opening.antt =====
-- The log that `bake_file_makepool` makes and `bake_file_backend_initialize` opens:
-- src/bake-file-backend.c.
use mochi_bake.Prelude.{
  ℕ, ◌-◌, ◌≡◌, refl, pos, true, false, none, some, List, arith, take, length, take-append,
  replicate, length-append, length-replicate,
}
use mochi_bake.ReturnCode.{success}
use mochi_bake.FileBackend.{superblock_size}
use mochi_bake.FileBackend.Pool.{
  FileSystem, missing, FileConfig, superblock, file_makepool, open_log, check_log, open_target,
  choose_abtio, file_backend_initialize,
}

-- The configuration that enables the pipelining and leaves all else to the defaults.
abbrev pub pipelined_config : FileConfig
pipelined_config = record {
  pipeline_enable = true;
  file_backend = missing;
  targets = missing;
  alignment = missing;
  sync = missing;
  directio = missing;
  abtio_nthreads = missing;
}

module _ (fs : FileSystem) where
  open fs use {State, AbtIo, uuid_is_null, fstat, pread}

  superblock-front : (id : List ℕ) → length id ≡ 16 → take 16 (superblock fs id) ≡ id
  unfolding superblock
  superblock-front id long = take-append 16 id (replicate (superblock_size - 16) 0) long

  length-superblock : (id : List ℕ) → length id ≡ 16 → length (superblock fs id) ≡ superblock_size
  unfolding superblock
  length-superblock id long = omega (
    arith,
    length-append id (replicate (superblock_size - 16) 0),
    length-replicate {A = ℕ} (superblock_size - 16) 0,
  )

  -- A log that `bake_file_makepool` has made, with an id of 16 bytes that is not null, is opened by a
  -- provider that has an abt-io instance, under the configuration that enables the pipelining and leaves
  -- all else to the defaults, if the file system gives back what was written: as a target with that id,
  -- aligned to 4096 bytes, synchronised, whose first region begins behind the superblock.
  pub file_backend_initialize-file_makepool :
      (s s₁ s₂ s₃ s₄ : State) (name id : List ℕ) (size fd fd' : ℕ)
      → fs.open_new s name ≡ (pos fd, s₁)
      → fs.uuid_generate s₁ ≡ (id, s₂)
      → length id ≡ 16
      → uuid_is_null id ≡ false
      → fs.write s₂ (pos fd) (superblock fs id) ≡ (pos superblock_size, s₃)
      → open_log fs (fs.close s₃ (pos fd)) name true ≡ (pos fd', s₄)
      → fstat s₄ (pos fd') ≡ (pos 0, length (superblock fs id))
      → fs.memalign s₄ ≡ pos 0
      → pread s₄ (pos fd') ≡ (pos superblock_size, superblock fs id)
      → let (ret, made) = file_makepool fs s name size in
        (ret ≡ success)
        × (file_backend_initialize fs made true pipelined_config name ≡ (
          success,
          some (record {
            entry = record { log_offset = superblock_size; log_alignment = 4096; sync = true };
            fd = pos fd';
            abtio = none;
            id = id;
          }),
          s₄,
        ))
  unfolding file_makepool file_backend_initialize choose_abtio open_target check_log
  file_backend_initialize-file_makepool s s₁ s₂ s₃ s₄ name id size fd fd' opened generated long used
        written reopened sized buffer stored =
      let front : take 16 (superblock fs id) ≡ id = superblock-front id long in
      let all : length (superblock fs id) ≡ superblock_size = length-superblock id long in
      rw (file_makepool, opened)
        (rw (generated) (
          rw written
            (refl, rw (reopened) (rw (sized, buffer, stored) (rw (front, used, all) refl)))))
