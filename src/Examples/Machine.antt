-- ===== src/Examples/Machine.antt =====
-- A host whose disk works: a file is a function from offsets to bytes, with a size.
use mochi_bake.Prelude.{
  ℕ, zero, suc, ◌∷◌, ap, ◌+◌, ◌-◌, ◌≤◌, ◌<◌, ◌≡◌, refl, pos, List, arith, length, get_or, replicate,
  length-replicate, max, leb, ltb, ◌&&◌, true, if◌then◌else◌, ◌⊎◌,
}
use mochi_bake.Host.{Host}
use mochi_bake.Host.Remote.{Remote}
use mochi_bake.Host.Disk.{Disk, slice}
use mochi_bake.FileBackend.{Entry, FileRegion}
use mochi_bake.FileBackend.Align.{IsAlignment}
use mochi_bake.FileBackend.Layout.{IsAligned}
use mochi_bake.FileBackend.Raw.{IsRegion}

pub record File : Type 0 where
  pub byte : ℕ → ℕ
  pub size : ℕ

unfoldable pub store : File → List ℕ → ℕ → File
store f bytes offset = record {
  byte = λ p.
      if leb offset p && ltb p (offset + length bytes)
      then get_or bytes (p - offset) 0
      else f.byte p;
  size = max f.size (offset + length bytes);
}

-- Fresh memory holds 170, and the memory of the caller 7.
abbrev pub machine : Host
machine = record {
  World = File;
  memalign = λ w a n. (pos 0, replicate n 170);
  pwrite = λ w bytes offset. (pos (length bytes), store w bytes offset);
  pread = λ w n offset. (pos n, slice w.byte offset n);
  fdatasync = λ w. (pos 0, w);
  punch_hole = λ w offset n. (pos 0, w);
  poolset_get = λ w n. (pos 0, replicate n 0);
  bulk_pull = λ w offset n. (pos 0, replicate n 7);
  bulk_push = λ w bytes offset. (pos 0, w);
}

pub store-byte :
    (f : File) (bytes : List ℕ) (offset i : ℕ)
    → i < length bytes
    → (store f bytes offset).byte (offset + i) ≡ get_or bytes i 0
unfolding store
store-byte f bytes offset i h = ground arith

pub store-other :
    (f : File) (bytes : List ℕ) (offset p : ℕ)
    → (p < offset) ⊎ (offset + length bytes ≤ p)
    → (store f bytes offset).byte p ≡ f.byte p
unfolding store
store-other f bytes offset p h = ground arith

pub store-size :
    (f : File) (bytes : List ℕ) (offset : ℕ)
    → (store f bytes offset).size ≡ max f.size (offset + length bytes)
unfolding store
store-size f bytes offset = refl

abbrev pub machine-Disk : Disk machine
machine-Disk = record {
  byte = λ w p. w.byte p;
  size = λ w. w.size;
  memalign_ok = λ w a k n log2 wide int small. refl;
  memalign_length = λ w a n. length-replicate n 170;
  pwrite_ret = λ w bytes offset few h. refl;
  pwrite_byte = λ w bytes offset i few h. store-byte w bytes offset i;
  pwrite_other = λ w bytes offset p few h. store-other w bytes offset p;
  pwrite_size = λ w bytes offset few h positive. store-size w bytes offset;
  pread_ret = λ w n offset few h. refl;
  pread_bytes = λ w n offset few h. refl;
  sync_ret = λ w. refl;
  sync_byte = λ w p. refl;
  sync_size = λ w. refl;
}

pub eight-IsAlignment : IsAlignment 8
eight-IsAlignment = record { k = 3; j = 61; log2 = refl; word = refl; small = omega arith }

-- A log of 16 bytes, in blocks of 8, and the region behind it.
abbrev pub log : Entry
log = record { log_offset = 16; log_alignment = 8; sync = true }

abbrev pub region : FileRegion
region = record { log_entry_offset = 16; log_entry_size = 16 }

abbrev pub blank : File
blank = record { byte = λ p. 1; size = 32 }

pub log-IsAligned : IsAligned log
log-IsAligned = record { alignment = eight-IsAlignment; aligned = refl }

pub region-IsRegion : IsRegion 8 region
region-IsRegion = record {
  alignment = eight-IsAlignment;
  offset_aligned = refl;
  size_aligned = refl;
  in_range = omega arith;
}

pub sevens : (n offset : ℕ) → replicate n 7 ≡ slice (λ p. 7) offset n
sevens zero offset = refl
sevens (suc n) offset = ap (λ (t : List ℕ). 7 ∷ t) (sevens n (offset + 1))

abbrev pub machine-Remote : Remote machine
machine-Remote = record {
  memory = λ w p. 7;
  pool_ok = λ w n. refl;
  pool_length = λ w n. length-replicate n 0;
  pull_ok = λ w offset n. ap (λ (t : List ℕ). (pos 0, t)) (sevens n offset);
  memory-pwrite = λ w bytes offset p. refl;
}
