-- ===== src/Examples/Arena.antt =====
-- A pool of persistent memory with 100 bytes in use: src/bake-pmem-backend.c.
use mochi_bake.Prelude.{ℕ, ◌+◌, ◌-◌, ◌^◌, ◌≡◌, refl, ℤ, pos, Bool, true, some, arith, replicate}
use mochi_bake.ReturnCode.{success}
use mochi_bake.Host.Disk.{slice}
use mochi_bake.Backend.{Platform}
use mochi_bake.Pmem.{Pmemobj, word_value, region_size, pmem_write_raw}
use mochi_bake.Pmem.Memory.{Memory, Pulls}
use mochi_bake.Pmem.Transfer.{unpipelined, pmem_write_bulk, pmem_create_write_persist_bulk}
use mochi_bake.Pmem.Transfer.Ends.{pmem_write_bulk-returns}
use mochi_bake.Pmem.Transfer.Paths.{pipelined-unpipelined}
use mochi_bake.Pmem.Stored.{pmem_write_raw-header, pmem_create_write_persist_bulk-lost}
use mochi_bake.Examples.Machine.{File, store, store-byte, store-other}

abbrev pub platform : Platform
platform = record {
  World = File;
  Context = Unit;
  TargetId = ℕ;
  Rid = ℕ;
  zero_rid = 0;
  Bulk = Unit;
  Addr = Unit;
  addr_lookup = λ w name. (pos 0, tt);
  addr_dup = λ w. (pos 0, tt);
  Poolset = ℕ;
  Config = Bool;
  poolset_create = λ w config. (pos 0, 1, w);
  poolset_destroy = λ w pools. (pos 0, w);
  pipeline_enable = λ config. config;
  set_pipeline_enable = λ config b. b;
}

-- Objects stand one behind the other; the caller's memory holds 7.
abbrev pub arena : Pmemobj platform
arena = record {
  Oid = ℕ;
  to_rid = λ oid. oid;
  of_rid = λ rid. rid;
  alloc = λ w ctx n. (pos 0, w.size, record w { size = w.size + n });
  direct = λ w oid. some oid;
  free = λ w oid. w;
  flush = λ w a n. w;
  load = λ w a n. slice w.byte a n;
  store = λ w a bytes. store w bytes a;
  bulk_create = λ w a n. pos 0;
  bulk_pull = λ w addr bulk offset n. (pos 0, slice (λ p. 7) offset n);
  bulk_push = λ w addr bulk offset bytes. (pos 0, w);
  poolset_get = λ w ctx n. pos 0;
  poolset_max = λ ctx. 4;
  pipeline = λ w ctx. true;
}

pub arena-Memory : Memory arena
arena-Memory = record {
  byte = λ w p. w.byte p;
  load_bytes = λ w a n. refl;
  store_byte = λ w a bytes i h. store-byte w bytes a i h;
  store_other = λ w a bytes p h. store-other w bytes a p h;
  flush_byte = λ w a n p. refl;
  direct-store = λ w a bytes oid. refl;
  direct-flush = λ w a n oid. refl;
}

arena-Pulls : Pulls arena tt tt tt
arena-Pulls = record {
  remote = λ p. 7;
  pull_ok = λ w offset n. refl;
  create_ok = λ w a n. refl;
  pool_ok = λ w n. refl;
}

abbrev pub unused : File
unused = record { byte = λ p. 0; size = 100 }

pipelined-unpipelined_example : (unpipelined arena true unused 108 tt 0 10 tt).0 ≡ success
pipelined-unpipelined_example =
    (pipelined-unpipelined arena true arena-Memory tt tt tt arena-Pulls 11 unused 108 0 10
      (omega arith) (omega arith) (omega arith) (omega arith) (omega arith) (omega arith)).2

pmem_write_raw-header_example :
    region_size arena true
      (pmem_write_raw arena true unused 100 (2 ^ 64 - 8) 8 (replicate 8 255)).1
      100
    ≡ word_value (replicate 8 255)
pmem_write_raw-header_example =
    (pmem_write_raw-header arena arena-Memory unused 100 100 (replicate 8 255) refl (omega arith)
      refl).1

pmem_create_write_persist_bulk-lost_example :
    pmem_create_write_persist_bulk arena true 20 unused tt tt tt 0 5
    ≡ some (success, 100, record unused { size = 113 })
unfolding region_size
pmem_create_write_persist_bulk-lost_example =
    pmem_create_write_persist_bulk-lost arena arena-Memory 20 unused tt tt tt 0 5 100
      (record unused { size = 113 }) 100 refl refl (omega arith) (omega arith)

pmem_write_bulk-returns_example :
    (end : ℤ × File) × (pmem_write_bulk arena true 11 unused tt 100 0 10 tt tt 0 ≡ some end)
pmem_write_bulk-returns_example =
    pmem_write_bulk-returns arena true 11 unused tt 100 0 10 tt tt 0 (omega arith) (omega arith)
      (omega arith) (omega arith)
