-- ===== src/Pmem/Requests.antt =====
-- Requests of src/bake-server.c for a target of src/bake-pmem-backend.c.
use mochi_bake.Prelude.{
  ℕ, ◌+◌, ◌-◌, ◌^◌, ◌≤◌, ◌<◌, ◌≡◌, refl, ◌⊎◌, pos, Bool, true, some, Option, List, [], ◌∷◌, length,
  take, drop, min,
}
use mochi_bake.ReturnCode.{success}
use mochi_bake.Backend.{Platform}
use mochi_bake.Table.{Table}
use mochi_bake.Client.{Margo}
use mochi_bake.Provider.{Target, Provider}
use mochi_bake.Provider.Rpc.{
  Reply, eager_create_write_persist_ult, eager_read_ult, input, buffer, reply_with,
}
use mochi_bake.Provider.Rpc.Combined.{eager_create_write_persist_ult-combined, eager_read_ult-reads}
use mochi_bake.Pmem.{Pmemobj, header_size, content_size, pmem_create_write_persist_raw}
use mochi_bake.Pmem.Memory.{Memory}
use mochi_bake.Pmem.Stored.{pmem_read_raw-create_write_persist_raw}
use mochi_bake.Pmem.Service.{Pools, pmem_backend, as_rid}

module _ {platform : Platform} (pmem : Pmemobj platform) (mem : Memory pmem) (sizecheck : Bool)
    (margo : Margo platform) (pools : Pools platform) (fuel unset : ℕ)
    (table : Table (Target platform) (Platform.TargetId platform)) where
  open platform use {World, Context, Rid}
  open pmem use {Oid, to_rid, of_rid, direct}

  -- An eager create-write-persist request for any bytes succeeds on a target of the pmem backend where
  -- `pmemobj_alloc` gives an object, and an eager read of the region that it replies with, from any
  -- offset in it, replies with the bytes: with a size header as many as were asked for or as there are
  -- left, and without one as many as were asked for, which then must lie in the region.
  pub pmem-eager_read_ult-eager_create_write_persist_ult :
      (w : World) (p : Provider platform table) (target : Target platform)
      (tid : Platform.TargetId platform) (bytes : List ℕ) (oid : Oid) (w₁ : World)
      (region offset n : ℕ)
      → table.find p.targets tid ≡ some target
      → target.backend ≡ pmem_backend pmem sizecheck margo pools fuel unset
      → pmem.alloc w target.context (content_size pmem sizecheck (length bytes)) ≡ (pos 0, oid, w₁)
      → of_rid (to_rid oid) ≡ oid
      → direct w₁ oid ≡ some region
      → region + header_size sizecheck + length bytes < 2 ^ 64
      → offset ≤ length bytes
      → offset + n < 2 ^ 64
      → (sizecheck ≡ true) ⊎ (offset + n ≤ length bytes)
      → (made : Reply platform table Rid) × (read : Reply platform table (Option (List ℕ × ℕ)))
        × (eager_create_write_persist_ult platform table w (record {
          provider = some p;
          input = some (record { bti = tid; size = length bytes; bytes = bytes });
        })
            ≡ some made)
        × (made.ret ≡ success)
        × (eager_read_ult platform table made.world (record {
          provider = some p;
          input = some (record { bti = tid; rid = made.out; region_offset = offset; size = n });
        })
            ≡ some read)
        × (read.ret ≡ success)
        × (read.out
            ≡ some (
              take (min n (length bytes - offset)) (drop offset bytes),
              min n (length bytes - offset),
            ))
  unfolding pmem_backend
  pmem-eager_read_ult-eager_create_write_persist_ult w p target tid bytes oid w₁ region offset n
        found is_pmem made same there fits low word inside =
      let (w', created, got) =
        pmem_read_raw-create_write_persist_raw pmem mem sizecheck w target.context bytes oid w₁
          region offset n made there fits low word inside in
      let len = length bytes in
      let k = min n (len - offset) in
      let reads : target.backend.read_raw w' target.context (to_rid oid) offset n
          ≡ some (success, some (take k (drop offset bytes), k)) =
        rw is_pmem (rw same (rw got refl)) in
      (
        reply_with platform table success (to_rid oid) w' (input true ∷ []),
        reply_with platform table success (some (take k (drop offset bytes), k)) w'
            (input true ∷ buffer true ∷ []),
        eager_create_write_persist_ult-combined platform table w p target tid found
            (λ v c bs size. some (
              as_rid pmem sizecheck margo pools fuel unset
                (pmem_create_write_persist_raw pmem sizecheck v c bs size)))
            len bytes success (to_rid oid) w' (rw is_pmem refl) (rw created refl),
        refl,
        eager_read_ult-reads platform table w' p target tid found (to_rid oid) offset n success
            (some (take k (drop offset bytes), k)) reads,
        refl,
        refl,
      )
