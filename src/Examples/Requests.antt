-- ===== src/Examples/Requests.antt =====
-- Requests to a provider with one target on a small log: the handlers of src/bake-server.c.
use mochi_bake.Prelude.{ℕ, ◌≡◌, refl, ℤ, none, some, List, [], ◌∷◌}
use mochi_bake.ReturnCode.{success}
use mochi_bake.FileBackend.{Entry, FileRegion, file_create, file_write_raw, file_persist}
use mochi_bake.Provider.{detach_target}
use mochi_bake.Provider.FileService.{file_backend}
use mochi_bake.Provider.Rpc.{reply_with, probe_ult}
use mochi_bake.Provider.Rpc.Replies.{probe_ult-detached}
use mochi_bake.Examples.Machine.{File, machine, log, blank}
use mochi_bake.Examples.Targets.{
  platform, table, table-IsTable, target, provider, provider-IsProvider, world,
}

abbrev zero_region : FileRegion
zero_region = record { log_entry_offset = 0; log_entry_size = 0 }

probe_ult-detached_example :
    probe_ult platform table world (some (detach_target platform table provider world 3).1)
    ≡ some (reply_with platform table success (none ∷ []) world [])
unfolding detach_target file_backend
probe_ult-detached_example =
    probe_ult-detached table-IsTable provider world 3 target provider-IsProvider refl

abbrev three : List ℕ
three = 5 ∷ 6 ∷ 7 ∷ []

-- The steps of an eager request for three bytes.
abbrev created : ℤ × FileRegion × Entry × File
created = file_create machine log blank 3

abbrev written : ℤ × File
written = file_write_raw machine created.2 created.3 created.1 0 3 three

abbrev persisted : ℤ × File
persisted = file_persist machine created.2 written.1 created.1 0 3
