-- ===== src/Provider/Rpc/Combined.antt =====
-- The handlers of src/bake-server.c that create, write and persist a region in one request, where the
-- backend leaves this to three calls.
use mochi_bake.Prelude.{
  ℕ, ◌≡◌, refl, ℤ, is_zero, true, false, not, Option, none, some, List, [], ◌∷◌, ◌>>=◌,
  if◌then◌else◌,
}
use mochi_bake.ReturnCode.{success}
use mochi_bake.Backend.{Platform}
use mochi_bake.Table.{Table}
use mochi_bake.Provider.{Target, Provider}
use mochi_bake.Provider.Rpc.{
  input, buffer, reply_with, create_write_persist, eager_create_write_persist_ult, eager_read_ult,
}

module _ (platform : Platform) (table : Table (Target platform) (Platform.TargetId platform))
    (w : Platform.World platform) (target : Target platform) (size : ℕ)
    (write : Platform.World platform
      → Platform.Rid platform
      → Option (ℤ × Platform.World platform)) where
  open platform use {World, Rid}

  -- Three calls that succeed one after the other make a request that succeeds, with the region that
  -- was created, the write and the flush going to it, each in the world that the last call left.
  pub create_write_persist-ok :
      (rid : Rid) (w₁ w₂ w₃ : World)
      → target.backend.create w target.context size ≡ some (success, rid, w₁)
      → write w₁ rid ≡ some (success, w₂)
      → target.backend.persist w₂ target.context rid 0 size ≡ some (success, w₃)
      → create_write_persist platform table w target size write ≡ some (success, rid, w₃)
  unfolding create_write_persist
  create_write_persist-ok rid w₁ w₂ w₃ created written persisted =
      rw (create_write_persist, created) (rw written (rw persisted refl))

  -- What a request comes to: its creation fails, or its write does, or all three calls are made, each
  -- in the world that the last one left, and the code is that of the flush.
  pub data Runs : ℤ → Rid → World → Type 0 where
    create_fails :
        {code : ℤ} {rid : Rid} {w' : World}
        → target.backend.create w target.context size ≡ some (code, rid, w')
        → is_zero code ≡ false
        → Runs code rid w'
    write_fails :
        {code : ℤ} {rid : Rid} {w₁ w' : World}
        → target.backend.create w target.context size ≡ some (success, rid, w₁)
        → write w₁ rid ≡ some (code, w')
        → is_zero code ≡ false
        → Runs code rid w'
    all_made :
        {code : ℤ} {rid : Rid} {w₁ w₂ w' : World}
        → target.backend.create w target.context size ≡ some (success, rid, w₁)
        → write w₁ rid ≡ some (success, w₂)
        → target.backend.persist w₂ target.context rid 0 size ≡ some (code, w')
        → Runs code rid w'

  -- The steps of `create_write_persist`, one inside the other.
  abbrev with_persisted : Rid → Option (ℤ × World) → Option (ℤ × Rid × World)
  with_persisted rid o = o >>= λ persisted. some (persisted.0, rid, persisted.1)

  abbrev with_written : Rid → Option (ℤ × World) → Option (ℤ × Rid × World)
  with_written rid o = o >>= λ written.
      if not (is_zero written.0)
      then some (written.0, rid, written.1)
      else with_persisted rid (target.backend.persist written.1 target.context rid 0 size)

  abbrev with_created : Option (ℤ × Rid × World) → Option (ℤ × Rid × World)
  with_created o = o >>= λ created.
      if not (is_zero created.0)
      then some created
      else with_written created.1 (write created.2 created.1)

module _ (platform : Platform) (table : Table (Target platform) (Platform.TargetId platform))
    (w : Platform.World platform) (p : Provider platform table) (target : Target platform)
    (tid : Platform.TargetId platform) (found : table.find p.targets tid ≡ some target) where
  open platform use {World, Rid}

  -- An eager request reaches the three calls where the backend has no combined one.
  pub eager_create_write_persist_ult-steps :
      (size : ℕ) (bytes : List ℕ) (ret : ℤ) (rid : Rid) (w' : World)
      → target.backend.create_write_persist_raw ≡ none
      → create_write_persist platform table w target size
          (λ v r. target.backend.write_raw v target.context r 0 size bytes)
        ≡ some (ret, rid, w')
      → eager_create_write_persist_ult platform table w (record {
        provider = some p;
        input = some (record { bti = tid; size = size; bytes = bytes });
      })
        ≡ some (reply_with platform table ret rid w' (input true ∷ []))
  unfolding eager_create_write_persist_ult
  eager_create_write_persist_ult-steps size bytes ret rid w' absent steps =
      rw (eager_create_write_persist_ult, found) (rw absent (rw steps refl))

  -- The combined operation of a backend answers an eager request alone.
  pub eager_create_write_persist_ult-combined :
      (combined : World → Platform.Context platform → List ℕ → ℕ → Option (ℤ × Rid × World))
      (size : ℕ) (bytes : List ℕ) (ret : ℤ) (rid : Rid) (w' : World)
      → target.backend.create_write_persist_raw ≡ some combined
      → combined w target.context bytes size ≡ some (ret, rid, w')
      → eager_create_write_persist_ult platform table w (record {
        provider = some p;
        input = some (record { bti = tid; size = size; bytes = bytes });
      })
        ≡ some (reply_with platform table ret rid w' (input true ∷ []))
  unfolding eager_create_write_persist_ult
  eager_create_write_persist_ult-combined combined size bytes ret rid w' has made =
      rw (eager_create_write_persist_ult, found) (rw has (rw made refl))

  pub eager_read_ult-reads :
      (rid : Rid) (offset size : ℕ) (ret : ℤ) (got : Option (List ℕ × ℕ))
      → target.backend.read_raw w target.context rid offset size ≡ some (ret, got)
      → eager_read_ult platform table w (record {
        provider = some p;
        input = some (record { bti = tid; rid = rid; region_offset = offset; size = size });
      })
        ≡ some (reply_with platform table ret got w (input true ∷ buffer true ∷ []))
  unfolding eager_read_ult
  eager_read_ult-reads rid offset size ret got read = rw (eager_read_ult, found) (rw read refl)
