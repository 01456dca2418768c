-- ===== src/Examples/Clients.antt =====
-- A client of src/bake-client.c on a small network, and messages of src/bake-rpc.h.
use mochi_bake.Prelude.{
  ℕ, ◌≡◌, refl, none, some, List, [], ◌∷◌, ◌++◌, replicate, true, false, arith,
}
use mochi_bake.ReturnCode.{success}
use mochi_bake.FileBackend.{FileRegion, Entry}
use mochi_bake.Wire.{
  EagerWrite, get_eager_read_out, put_eager_read_out, get_eager_write, put_eager_write,
}
use mochi_bake.Wire.RoundTrip.{messages_round_trip, eager_read_out_low}
use mochi_bake.Client.{live, output, handle}
use mochi_bake.Client.Calls.{create_write_persist, done}
use mochi_bake.Client.Reads.{read, probe}
use mochi_bake.Client.Service.{read-create_write_persist}
use mochi_bake.Client.Queries.{probe-attached}
use mochi_bake.Client.Handles.{
  State, Op, new_handle, incr, drop_ref, set_limit, run, find, client_finalize,
}
use mochi_bake.Client.Handles.Refs.{count, count_at}
use mochi_bake.Client.Handles.Refines.{run-refs}
use mochi_bake.Examples.Machine.{File, machine, machine-Disk, log, blank, log-IsAligned}
use mochi_bake.Examples.Targets.{
  platform, table, table-IsTable, store, store-IsStore, target, provider, provider-IsProvider,
  world,
}
use mochi_bake.Examples.Network.{
  numbers, numbers-IsProc, near, to_provider, near-probe, near-create, near-read,
}

abbrev three : List ℕ
three = 5 ∷ 6 ∷ 7 ∷ []

-- The last two of three bytes.
read-create_write_persist_example :
    (rid : FileRegion) × (w₁ w₂ : Entry × File) × (create_write_persist platform near world
        to_provider 3 three
      ≡ done platform success (some rid) w₁ (output live ∷ handle live ∷ []))
    × (read platform near w₁ to_provider 3 rid 1 (0 ∷ 0 ∷ [])
        ≡ some (
            done platform success
              (record { bytes_read = some 2; buf = 6 ∷ 7 ∷ [] })
              w₂
              (output live ∷ handle live ∷ [])))
read-create_write_persist_example =
    read-create_write_persist machine platform store 10 table machine-Disk store-IsStore numbers
      numbers-IsProc near provider to_provider near-create near-read world target log blank 3 three
      1 (0 ∷ 0 ∷ []) refl refl refl log-IsAligned (omega arith) (omega arith) (omega arith)
      (omega arith) (omega arith) (omega arith) (omega arith) (omega arith)

probe-attached_example :
    probe platform near world to_provider 5 true
    ≡ done platform success (some (1, [])) world (output live ∷ handle live ∷ [])
probe-attached_example =
    (probe-attached near to_provider table-IsTable provider world 5 provider-IsProvider near-probe
      (omega arith)).1

-- A handle that is made, referred to once more, and released twice.
abbrev calls : List (Op ℕ)
calls = new_handle 4096 7 1 ∷ incr 4096 ∷ set_limit 4096 0 ∷ drop_ref 4096 ∷ drop_ref 4096 ∷ []

run-refs_example :
    (s : State ℕ) × (run ℕ calls (record { handles = []; num_provider_handles = 0 }) ≡ some s)
    × ((a : ℕ) → count_at (find ℕ s.handles a) ≡ 0)
    × ((a : ℕ) → count a [] ≡ 0 → find ℕ s.handles a ≡ none)
    × (client_finalize ℕ s ≡ (success, false))
run-refs_example = run-refs calls [] refl

eager_read_out_low_example :
    get_eager_read_out numbers
      (record { ret = success; size = 0; buffer = [] })
      (put_eager_read_out numbers (record { ret = success; size = 3; buffer = three }) ++ 9 ∷ [])
    ≡ some (record { ret = success; size = 3; buffer = three }, 9 ∷ [])
eager_read_out_low_example =
    eager_read_out_low numbers numbers-IsProc (record { ret = success; size = 3; buffer = three })
      (9 ∷ []) refl

abbrev uuid : List ℕ
uuid = replicate 16 9

abbrev write_message : EagerWrite
write_message = record {
  bti = uuid;
  rid = record { type = 2; content = replicate 16 0 };
  region_offset = 1;
  size = 3;
  buffer = three;
}

messages_round_trip_example :
    get_eager_write numbers [] (put_eager_write numbers write_message ++ 9 ∷ [])
    ≡ some (write_message, 9 ∷ [])
messages_round_trip_example =
    (messages_round_trip numbers numbers-IsProc write_message
      (record { bti = uuid; size = 3; buffer = three })
      (record { ret = success; num_targets = 1; targets = uuid }) [] (9 ∷ [])
      (record {
        bti = refl;
        rid = record { type = omega arith; size = refl; bytes = omega arith };
        region_offset = omega arith;
        size = omega arith;
        buffer = refl;
      })
      (record { bti = refl; size = omega arith; buffer = refl })
      (record { num_targets = omega arith; targets = refl })).0
