-- ===== src/Provider/FileService.antt =====
-- The file backend behind the provider: `g_bake_file_backend` of src/bake-file-backend.c as a backend
-- of the handlers of src/bake-server.c. The contexts of its targets stand in a store that the handlers
-- pass on; a region id is the cast of a `file_region_id_t`.
use mathlib.Core.Option
use mochi_bake.Prelude.{
  ℕ, ◌+◌, ◌*◌, ◌^◌, ◌≤◌, ◌<◌, ◌≡◌, refl, ℤ, Option, none, some, List, [], ◌∷◌, arith, length, take,
  drop, ◌>>=◌, true,
}
use mochi_bake.ReturnCode.{success}
use mochi_bake.Host.{Host}
use mochi_bake.Host.Disk.{Disk}
use mochi_bake.FileBackend.{
  FileRegion, Entry, file_create, file_write_raw, file_read_raw, file_persist, file_remove,
  file_get_region_size, file_get_region_data, file_migrate_region,
}
use mochi_bake.FileBackend.Layout.{IsAligned}
use mochi_bake.FileBackend.Stored.{created_read}
use mochi_bake.FileBackend.Transfer.{
  Outcome, returns, waits_forever, out_of_fuel, file_write_bulk, file_read_bulk,
}
use mochi_bake.Backend.{Platform, Backend}
use mochi_bake.Table.{Table}
use mochi_bake.Provider.{Target, Provider, file_name}
use mochi_bake.Provider.Rpc.{
  Reply, eager_create_write_persist_ult, eager_read_ult, input, buffer, reply_with,
}
use mochi_bake.Provider.Rpc.Combined.{
  create_write_persist-ok, eager_create_write_persist_ult-steps, eager_read_ult-reads,
}

-- Where the entries of the file backend and the worlds of their logs stand, and the casts between
-- region ids and `file_region_id_t`.
pub record Store (host : Host) (platform : Platform) : Type 0 where
  pub get : Platform.World platform → Platform.Context platform → Option (Entry × Host.World host)
  pub put :
      Platform.World platform
      → Platform.Context platform
      → Entry × Host.World host
      → Platform.World platform
  pub to_rid : FileRegion → Platform.Rid platform
  pub of_rid : Platform.Rid platform → FileRegion
  -- the world in which bulk transfers go to the memory behind a handle
  pub towards : Host.World host → Platform.Bulk platform → Platform.Addr platform → Host.World host
  -- `margo_bulk_poolset_get_max` of the provider's buffers
  pub max_size : ℕ
  -- `bake_file_backend_initialize`, `bake_file_backend_finalize` and `bake_file_makepool` on the store
  pub initialize :
      Platform.World platform
      → Platform.Config platform
      → List ℕ
      → ℤ
        × Platform.TargetId platform
        × Platform.Context platform
        × Platform.Config platform
        × Platform.World platform
  pub finalize : Platform.World platform → Platform.Context platform → Platform.World platform
  pub makepool : Platform.World platform → List ℕ → ℕ → ℤ × Platform.World platform

pub record IsStore {host : Host} {platform : Platform} (store : Store host platform) : Type 0 where
  pub get-put :
      (w : Platform.World platform) (c : Platform.Context platform) (e e' : Entry × Host.World host)
      → store.get w c ≡ some e
      → store.get (store.put w c e') c ≡ some e'
  pub of_rid-to_rid : (frid : FileRegion) → store.of_rid (store.to_rid frid) ≡ frid

module _ (host : Host) (platform : Platform) (store : Store host platform) (fuel : ℕ) where
  open platform use {World, Context, Rid, Bulk, Addr}
  open store use {get, put, to_rid, of_rid, max_size}

  abbrev pub bulk_result : World → Context → Entry → Outcome host → ℕ → Option (ℤ × ℕ × World)
  bulk_result w c entry (returns ret hw) count = some (ret, count, put w c (entry, hw))
  bulk_result w c entry waits_forever count = none
  bulk_result w c entry out_of_fuel count = none

  abbrev pub bulk_write :
      World → Context → FileRegion → ℕ → ℕ → Bulk → Addr → ℕ → Option (ℤ × World)
  bulk_write w c frid region_offset size bulk addr bulk_offset = do
    (entry, hw) ← get w c
    (ret, _, w') ←
        bulk_result w c entry
          (file_write_bulk host fuel entry (store.towards hw bulk addr) frid region_offset size
            bulk_offset max_size)
          0
    some (ret, w')

  abbrev pub bulk_read :
      World → Context → FileRegion → ℕ → ℕ → Bulk → Addr → ℕ → Option (ℤ × ℕ × World)
  bulk_read w c frid region_offset size bulk addr bulk_offset = do
    (entry, hw) ← get w c
    let (end, count) =
        file_read_bulk host fuel entry (store.towards hw bulk addr) frid region_offset size
          bulk_offset max_size
    bulk_result w c entry end count

  -- `g_bake_file_backend`.
  unfoldable pub file_backend : Backend platform
  file_backend = record {
    name = file_name;
    initialize = store.initialize;
    finalize = store.finalize;
    create = λ w c size.
        Option.map
          (λ (entry, hw).
            let (ret, frid, entry', hw') = file_create host entry hw size in
            (ret, to_rid frid, put w c (entry', hw')))
          (get w c);
    write_raw = λ w c rid offset size bytes.
        Option.map
          (λ (entry, hw).
            let (ret, hw') = file_write_raw host entry hw (of_rid rid) offset size bytes in
            (ret, put w c (entry, hw')))
          (get w c);
    write_bulk = λ w c rid. bulk_write w c (of_rid rid);
    read_raw = λ w c rid offset size.
        Option.map (λ (entry, hw). file_read_raw host entry hw (of_rid rid) offset size) (get w c);
    read_bulk = λ w c rid. bulk_read w c (of_rid rid);
    persist = λ w c rid offset size.
        Option.map
          (λ (entry, hw).
            let (ret, hw') = file_persist host entry hw (of_rid rid) offset size in
            (ret, put w c (entry, hw')))
          (get w c);
    create_write_persist_raw = none;
    create_write_persist_bulk = none;
    get_region_size = λ w c rid. some (file_get_region_size, 0);
    get_region_data = λ w c rid. some (file_get_region_data, 0);
    remove = λ w c rid.
        Option.map
          (λ (entry, hw).
            let (ret, hw') = file_remove host entry hw (of_rid rid) in (ret, put w c (entry, hw')))
          (get w c);
    migrate_region = λ w c rid size remove_src dest_addr dest_provider_id dest_target_id.
        some (file_migrate_region, platform.zero_rid, w);
    create_raw_target = store.makepool;
  }

  module _ (table : Table (Target platform) (Platform.TargetId platform)) (disk : Disk host)
      (laws : IsStore store) where
    -- An eager create-write-persist request for the bytes of at most one block succeeds on a target of
    -- the file backend whose disk works, and an eager read of the region that it replies with gets the
    -- bytes back, in whole or in any part.
    pub eager_read_ult-eager_create_write_persist_ult :
        (w : World) (p : Provider platform table) (target : Target platform) (entry : Entry)
        (hw : Host.World host) (tid : Platform.TargetId platform) (bytes : List ℕ) (offset n : ℕ)
        → table.find p.targets tid ≡ some target
        → target.backend ≡ file_backend
        → get w target.context ≡ some (entry, hw)
        → IsAligned entry
        → 8 ≤ entry.log_alignment
        → entry.log_alignment ≤ entry.log_offset
        → entry.log_offset + 3 * entry.log_alignment < 2 ^ 63
        → length bytes ≤ entry.log_alignment
        → 0 < n
        → offset + n ≤ length bytes
        → (made : Reply platform table Rid) × (read : Reply platform table (Option (List ℕ × ℕ)))
          × (buf : List ℕ) × (eager_create_write_persist_ult platform table w (record {
            provider = some p;
            input = some (record { bti = tid; size = length bytes; bytes = bytes });
          })
              ≡ some made)
          × (made.ret ≡ success)
          × (eager_read_ult platform table made.world (record {
            provider = some p;
            input = some (record { bti = tid; rid = made.out; region_offset = offset; size = n });
          })
              ≡ some read)
          × (read.ret ≡ success)
          × (read.out ≡ some (buf, n))
          × (take n buf ≡ take n (drop offset bytes))
    unfolding file_backend
    eager_read_ult-eager_create_write_persist_ult w p target entry hw tid bytes offset n found
          is_file at v wide low room small positive part =
        let len = length bytes in
        let c = target.context in
        let (_, frid, entry', h₁) = file_create host entry hw len in
        let (_, h₂) = file_write_raw host entry' h₁ frid 0 len bytes in
        let (_, h₃) = file_persist host entry' h₂ frid 0 len in
        let (made, wrote, flushed, buf, got, front) =
          created_read host disk entry hw v wide low room bytes (omega arith) small offset n
            positive part in
        let w₁ = put w c (entry', h₁) in
        let w₂ = put w₁ c (entry', h₂) in
        let w₃ = put w₂ c (entry', h₃) in
        let at₁ = laws.get-put w c (entry, hw) (entry', h₁) at in
        let at₂ = laws.get-put w₁ c (entry', h₁) (entry', h₂) at₁ in
        let at₃ = laws.get-put w₂ c (entry', h₂) (entry', h₃) at₂ in
        let rid = to_rid frid in
        let cast = laws.of_rid-to_rid frid in
        let creates : target.backend.create w c len ≡ some (success, rid, w₁) =
          rw is_file (rw at (rw made refl)) in
        let writes : target.backend.write_raw w₁ c rid 0 len bytes ≡ some (success, w₂) =
          rw is_file (rw (at₁, cast) (rw wrote refl)) in
        let persists : target.backend.persist w₂ c rid 0 len ≡ some (success, w₃) =
          rw is_file (rw (at₂, cast) (rw flushed refl)) in
        let reads : target.backend.read_raw w₃ c rid offset n ≡ some (success, some (buf, n)) =
          rw is_file (rw (at₃, cast) (rw got refl)) in
        let absent : target.backend.create_write_persist_raw ≡ none = rw is_file refl in
        (
          reply_with platform table success rid w₃ (input true ∷ []),
          reply_with platform table success (some (buf, n)) w₃ (input true ∷ buffer true ∷ []),
          buf,
          eager_create_write_persist_ult-steps platform table w p target tid found len bytes success
              rid w₃ absent
              (create_write_persist-ok platform table w target len
                (λ x r. target.backend.write_raw x c r 0 len bytes) rid w₁ w₂ w₃ creates writes
                persists),
          refl,
          eager_read_ult-reads platform table w₃ p target tid found rid offset n success
              (some (buf, n)) reads,
          refl,
          refl,
          front,
        )
