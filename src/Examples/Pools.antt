-- ===== src/Examples/Pools.antt =====
-- A log that is made and opened: src/bake-file-backend.c on a small file system.
use mochi_bake.Prelude.{
  ℕ, ◌≡◌, refl, pos, negsuc, some, List, [], ◌∷◌, length, replicate, get_or, ◌==◌,
}
use mochi_bake.ReturnCode.{success}
use mochi_bake.FileBackend.{superblock_size}
use mochi_bake.FileBackend.Pool.{FileSystem, superblock, file_makepool, open_log}
use mochi_bake.FileBackend.Pool.Opening.{file_backend_initialize-file_makepool}

-- A file system with one file, which does not do direct I/O.
abbrev files : FileSystem
files = record {
  State = List ℕ;
  AbtIo = Unit;
  open_new = λ s name. (pos 3, []);
  write = λ s fd bytes. (pos (length bytes), bytes);
  close = λ s fd. s;
  uuid_generate = λ s. (replicate 16 9, s);
  uuid_is_null = λ id. get_or id 0 0 == 0;
  abt_io_init = λ s n. (some tt, s);
  abt_io_finalize = λ s a. s;
  abt_io_open = λ s path direct. (pos 4, s);
  einval = negsuc 21;
  fstat = λ s fd. (pos 0, length s);
  memalign = λ s. pos 0;
  pread = λ s fd. (pos superblock_size, s);
}

length-written : length (superblock files (replicate 16 9)) ≡ superblock_size
unfolding superblock
length-written = refl

file_backend_initialize-file_makepool_example : (file_makepool files [] (97 ∷ []) 0).0 ≡ success
unfolding open_log superblock
file_backend_initialize-file_makepool_example =
    (file_backend_initialize-file_makepool files [] [] [] (superblock files (replicate 16 9))
      (superblock files (replicate 16 9)) (97 ∷ []) (replicate 16 9) 0 3 4 refl refl refl refl refl
      refl refl refl refl).0
