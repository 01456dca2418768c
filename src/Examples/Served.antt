-- ===== src/Examples/Served.antt =====
-- A provider with one target of persistent memory: the handlers of src/bake-server.c with the backend
-- of src/bake-pmem-backend.c.
use mochi_bake.Prelude.{
  ℕ, ◌≡◌, refl, inl, pos, negsuc, true, false, Option, none, some, List, [], ◌∷◌, ◌++◌, ◌==◌,
  if◌then◌else◌, arith,
}
use mochi_bake.ReturnCode.{success}
use mochi_bake.Backend.{Backend}
use mochi_bake.Table.{Table}
use mochi_bake.Provider.{Target, Provider}
use mochi_bake.Provider.Rpc.{Reply, eager_create_write_persist_ult, eager_read_ult}
use mochi_bake.Client.{Rpc, Margo}
use mochi_bake.Pmem.Service.{Pools, pmem_backend}
use mochi_bake.Pmem.Requests.{pmem-eager_read_ult-eager_create_write_persist_ult}
use mochi_bake.Examples.Machine.{File}
use mochi_bake.Examples.Arena.{platform, arena, arena-Memory, unused}

-- No other provider is reached.
abbrev silent : {In Out : Type 0} → Out → Rpc File (Unit {0}) (Unit {0}) In Out
silent out = record {
  create = λ w a. (negsuc 0, tt, w);
  forward = λ w h id i. (negsuc 0, h, w);
  get_output = λ w h. (negsuc 0, success, out);
}

abbrev alone : Margo platform
alone = record {
  Handle = Unit;
  probe = silent [];
  create = silent 0;
  write = silent tt;
  eager_write = silent tt;
  persist = silent tt;
  create_write_persist = silent 0;
  eager_create_write_persist = silent 0;
  get_size = silent 0;
  get_data = silent 0;
  read = silent 0;
  eager_read = silent (0, []);
  noop = silent tt;
  remove = silent tt;
  migrate_region = silent 0;
  migrate_target = silent tt;
  bulk_create = λ w bytes. (pos 0, tt, w);
  memory = λ w bulk. [];
  bulk_null = tt;
  addr_self = λ w. (pos 0, tt);
  addr_to_string = λ w a n. (pos 0, [], 0);
}

abbrev pools : Pools platform
pools = record {
  create_pool = λ w name size. (some tt, w);
  generate_id = λ w pool. w;
  open_pool = λ w name. some tt;
  pool_id = λ w pool. 5;
  is_null = λ tid. false;
  close_pool = λ w pool. w;
  backend_member = λ config. some config;
  size_member = λ config size. some config;
  targets_member = λ config. some config;
  add_target = λ config path. config;
  no_id = 0;
  no_context = tt;
}

abbrev first_with : List (Target platform) → ℕ → Option (Target platform)
first_with [] k = none
first_with (e ∷ es) k = if e.target_id == k then some e else first_with es k

abbrev without : List (Target platform) → ℕ → List (Target platform)
without [] k = []
without (e ∷ es) k = if e.target_id == k then es else e ∷ without es k

abbrev table : Table (Target platform) ℕ
table = record {
  Carrier = List (Target platform);
  empty = [];
  add = λ t e. t ++ e ∷ [];
  find = first_with;
  delete = λ t e. without t e.target_id;
  iterate = λ t. t;
}

abbrev backend : Backend platform
backend = pmem_backend arena true alone pools 20 0

abbrev target : Target platform
target = record { target_id = 5; context = tt; backend = backend; address = 1000 }

abbrev provider : Provider platform table
provider = record { num_targets = 1; targets = target ∷ []; poolset = none; json_cfg = true }

-- A read of five bytes from the second of three gets two.
pmem-eager_read_ult-eager_create_write_persist_ult_example :
    (made : Reply platform table ℕ) × (read : Reply platform table (Option (List ℕ × ℕ)))
    × (eager_create_write_persist_ult platform table unused (record {
      provider = some provider;
      input = some (record { bti = 5; size = 3; bytes = 5 ∷ 6 ∷ 7 ∷ [] });
    })
        ≡ some made)
    × (made.ret ≡ success)
    × (eager_read_ult platform table made.world (record {
      provider = some provider;
      input = some (record { bti = 5; rid = made.out; region_offset = 1; size = 5 });
    })
        ≡ some read)
    × (read.ret ≡ success)
    × (read.out ≡ some (6 ∷ 7 ∷ [], 2))
pmem-eager_read_ult-eager_create_write_persist_ult_example =
    pmem-eager_read_ult-eager_create_write_persist_ult arena arena-Memory true alone pools 20 0
      table unused provider target 5 (5 ∷ 6 ∷ 7 ∷ []) 100 (record unused { size = 111 }) 100 1 5
      refl refl refl refl refl (omega arith) (omega arith) (omega arith) (inl refl)
