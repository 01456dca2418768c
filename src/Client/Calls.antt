-- ===== src/Client/Calls.antt =====
-- The functions of src/bake-client.c that make one request, but for those that read. A pointer that
-- nothing is stored through leaves `none`. The bytes of a buffer come with their number.
use mochi_bake.Prelude.{
  ℕ, ℤ, is_zero, Bool, false, not, Option, none, some, List, [], ◌∷◌, ◌++◌, if◌then◌else◌, length,
  leb,
}
use mochi_bake.ReturnCode.{err_mercury}
use mochi_bake.Messages.{MigrateRegionIn, MigrateTargetIn, BulkIn}
use mochi_bake.Backend.{Platform}
use mochi_bake.Provider.{same_string}
use mochi_bake.Client.{
  Margo, Var, unset, null, live, Release, output, bulk, address, handle, ProviderHandle, Done, Sent,
  not_created, not_forwarded, no_output, answered, send,
}

module _ (platform : Platform) where
  open platform use {World, TargetId, Rid, Bulk, Addr}

  abbrev pub done : {A : Type 0} → ℤ → A → World → List Release → Done platform A
  done ret result w released = record { ret = ret; result = result; world = w; released = released }

  -- `if (ret == BAKE_SUCCESS) *p = out.…`
  abbrev pub if_ok : {A : Type 0} → ℤ → A → Option A
  if_ok ret a = if is_zero ret then some a else none

  -- The ends of a function: at `finish:`, with what `*p` holds where no reply has come, what a reply
  -- stores, what is released between the output and the handle, and the handle where none was made.
  abbrev pub finish_with :
      {Out A : Type 0}
      → Var
      → List Release
      → A
      → (ℤ → Out → A)
      → Sent platform Out
      → Done platform A
  finish_with h more old store (not_created w) =
      done err_mercury old w (output unset ∷ more ++ handle h ∷ [])
  finish_with h more old store (not_forwarded w) =
      done err_mercury old w (output unset ∷ more ++ handle live ∷ [])
  finish_with h more old store (no_output w) =
      done err_mercury old w (output unset ∷ more ++ handle live ∷ [])
  finish_with h more old store (answered w ret out) =
      done ret (store ret out) w (output live ∷ more ++ handle live ∷ [])

  abbrev pub finish :
      {Out A : Type 0} → List Release → A → (ℤ → Out → A) → Sent platform Out → Done platform A
  finish more old store s = finish_with null more old store s

  module _ (margo : Margo platform) where
    -- `bake_eager_write`, which does not go to `finish` where the output cannot be had.
    abbrev finish_eager_write : Sent platform (Unit {0}) → Done platform (Unit {0})
    finish_eager_write (no_output w) = done err_mercury tt w (handle live ∷ [])
    finish_eager_write (not_created w) =
        finish {Out = Unit {0}} [] tt (λ ret out. tt) (not_created w)
    finish_eager_write (not_forwarded w) =
        finish {Out = Unit {0}} [] tt (λ ret out. tt) (not_forwarded w)
    finish_eager_write (answered w ret out) = finish [] tt (λ ret out. tt) (answered w ret out)

    unfoldable pub eager_write :
        World → ProviderHandle platform → TargetId → Rid → ℕ → List ℕ → Done platform (Unit {0})
    eager_write w p tid rid region_offset buf = finish_eager_write (
        send platform margo.eager_write w p (record {
          bti = tid;
          rid = rid;
          region_offset = region_offset;
          size = length buf;
          bytes = buf;
        }))

    -- The end of the functions that register their buffer first.
    abbrev pub with_bulk :
        {A : Type 0} → World → List ℕ → A → (World → Bulk → Done platform A) → Done platform A
    with_bulk w buf old rest =
        let (code, b, w') = margo.bulk_create w buf in
        if is_zero code
        then rest w' b
        else done err_mercury old w' (output unset ∷ bulk null ∷ handle null ∷ [])

    -- `bake_write`.
    unfoldable pub write :
        World → ProviderHandle platform → TargetId → Rid → ℕ → List ℕ → Done platform (Unit {0})
    unfolding eager_write
    write w p tid rid region_offset buf =
        if leb (length buf) p.eager_limit
        then eager_write w p tid rid region_offset buf
        else with_bulk w buf tt λ w' b.
          finish (bulk live ∷ []) tt (λ ret out. tt)
            (send platform margo.write w' p (record {
              bti = tid;
              rid = rid;
              region_offset = region_offset;
              bulk_handle = b;
              bulk_offset = 0;
              bulk_size = length buf;
              remote_addr_str = none;
            }))

    -- `bake_proxy_write`.
    unfoldable pub proxy_write :
        World → ProviderHandle platform → BulkIn platform → Done platform (Unit {0})
    proxy_write w p i = finish [] tt (λ ret out. tt) (send platform margo.write w p i)

    -- `bake_create`.
    unfoldable pub create :
        World → ProviderHandle platform → TargetId → ℕ → Done platform (Option Rid)
    create w p bti region_size =
        finish [] none if_ok
          (send platform margo.create w p (record { bti = bti; region_size = region_size }))

    -- `bake_persist`.
    unfoldable pub persist :
        World → ProviderHandle platform → TargetId → Rid → ℕ → ℕ → Done platform (Unit {0})
    persist w p tid rid offset size =
        finish [] tt (λ ret out. tt)
          (send platform margo.persist w p
            (record { bti = tid; rid = rid; offset = offset; size = size }))

    -- `bake_eager_create_write_persist`.
    unfoldable pub eager_create_write_persist :
        World → ProviderHandle platform → TargetId → List ℕ → Done platform (Option Rid)
    eager_create_write_persist w p bti buf = finish [] none if_ok (
        send platform margo.eager_create_write_persist w p
          (record { bti = bti; size = length buf; bytes = buf }))

    -- `bake_create_write_persist`.
    unfoldable pub create_write_persist :
        World → ProviderHandle platform → TargetId → List ℕ → Done platform (Option Rid)
    unfolding eager_create_write_persist
    create_write_persist w p bti buf =
        if leb (length buf) p.eager_limit
        then eager_create_write_persist w p bti buf
        else with_bulk w buf none λ w' b. finish (bulk live ∷ []) none if_ok (
            send platform margo.create_write_persist w' p (record {
              bti = bti;
              region_size = length buf;
              bulk_handle = b;
              bulk_offset = 0;
              bulk_size = length buf;
              remote_addr_str = none;
            }))

    -- `bake_create_write_persist_proxy`; `region_size` is what the local variable `in` held there,
    -- since nothing sets it.
    unfoldable pub create_write_persist_proxy :
        World
        → ProviderHandle platform
        → TargetId
        → Bulk
        → ℕ
        → Option (List ℕ)
        → ℕ
        → ℕ
        → Done platform (Option Rid)
    create_write_persist_proxy w p bti remote_bulk remote_offset remote_addr size region_size =
        finish [] none if_ok (
          send platform margo.create_write_persist w p (record {
            bti = bti;
            region_size = region_size;
            bulk_handle = remote_bulk;
            bulk_offset = remote_offset;
            bulk_size = size;
            remote_addr_str = remote_addr;
          }))

    -- `bake_get_size`, which stores the size whatever the code is.
    unfoldable pub get_size :
        World → ProviderHandle platform → TargetId → Rid → Done platform (Option ℕ)
    get_size w p bti rid =
        finish [] none (λ ret size. some size)
          (send platform margo.get_size w p (record { bti = bti; rid = rid }))

    -- What `bake_get_data` does first: whether the provider has the address of the caller, and what is
    -- released on the way.
    unfoldable pub same_address : World → ProviderHandle platform → Bool × List Release
    same_address w p =
        let (c₁, self) = margo.addr_self w in
        let (c₂, self_str, room) = margo.addr_to_string w self 1024 in
        let (c₃, target_str, _) = margo.addr_to_string w p.addr room in
        if not (is_zero c₁)
        then (false, [])
        else if not (is_zero c₂)
        then (false, address live ∷ [])
        else if not (is_zero c₃)
        then (false, address live ∷ [])
        else (same_string self_str target_str, address live ∷ [])

    abbrev after : {A : Type 0} → List Release → Done platform A → Done platform A
    after released d = record d { released = released ++ d.released }

    -- `bake_get_data`.
    unfoldable pub get_data :
        World → ProviderHandle platform → TargetId → Rid → Done platform (Option ℕ)
    unfolding same_address
    get_data w p bti rid =
        let (same, released) = same_address w p in
        if same
        then after released (
            finish [] none (λ ret ptr. some ptr)
              (send platform margo.get_data w p (record { bti = bti; rid = rid })))
        else done err_mercury none w (released ++ output unset ∷ handle null ∷ [])

    -- `bake_migrate_region`.
    unfoldable pub migrate_region :
        World → ProviderHandle platform → MigrateRegionIn platform → Done platform (Option Rid)
    migrate_region w p i = finish [] none if_ok (send platform margo.migrate_region w p i)

    -- `bake_migrate_target`.
    unfoldable pub migrate_target :
        World → ProviderHandle platform → MigrateTargetIn platform → Done platform (Unit {0})
    migrate_target w p i = finish [] tt (λ ret out. tt) (send platform margo.migrate_target w p i)

    -- `bake_remove`, whose handle is not set before `margo_create`.
    unfoldable pub remove :
        World → ProviderHandle platform → TargetId → Rid → Done platform (Unit {0})
    remove w p tid rid =
        finish_with unset [] tt (λ ret out. tt)
          (send platform margo.remove w p (record { bti = tid; rid = rid }))
