-- ===== src/Provider/Rpc/Replies.antt =====
-- How `bake_probe_ult` of src/bake-server.c answers.
use mochi_bake.Prelude.{◌≡◌, refl, none, some, [], ◌∷◌, ◌++◌, map, append-nil, arith}
use mochi_bake.ReturnCode.{success}
use mochi_bake.Backend.{Platform}
use mochi_bake.Table.{Table, IsTable}
use mochi_bake.Provider.{Target, Provider, detach_target}
use mochi_bake.Provider.Targets.{ids, IsProvider, detach_target-found, list_targets-slots}
use mochi_bake.Provider.Rpc.{reply_with, probe_ult}

module _ {platform : Platform} {table : Table (Target platform) (Platform.TargetId platform)} where
  open platform use {World, TargetId, zero_rid}

  -- Detaching a target from a provider that counted its targets right before leaves a probe with a slot
  -- that nobody has written: the reply counts one id more than there are targets.
  pub probe_ult-detached :
      (laws : IsTable (λ (e : Target platform). e.target_id) table) (p : Provider platform table)
      (w : World) (tid : TargetId) (e : Target platform)
      → IsProvider laws p
      → table.find p.targets tid ≡ some e
      → let (_, p', w') = detach_target platform table p w tid in
        probe_ult platform table w' (some p')
        ≡ some (reply_with platform table success (map some (ids laws p') ++ none ∷ []) w' [])
  unfolding probe_ult
  probe_ult-detached laws p w tid e v found =
      let (_, _, _, count) = detach_target-found laws p w tid e v found in
      rw (list_targets-slots laws (detach_target platform table p w tid).1 1 count) refl

  -- A probe of a provider that counts its targets right replies with their ids, in the order in which
  -- they were attached.
  pub probe_ult-ok :
      (laws : IsTable (λ (e : Target platform). e.target_id) table) (p : Provider platform table)
      (w : World)
      → IsProvider laws p
      → probe_ult platform table w (some p)
        ≡ some (reply_with platform table success (map some (ids laws p)) w [])
  unfolding probe_ult
  probe_ult-ok laws p w v =
      rw (list_targets-slots laws p 0 (omega (arith, v.counted)))
        (rw (append-nil (map some (ids laws p))) refl)
