-- ===== src/Client.antt =====
-- What src/bake-client.c asks of Margo, and the part that its functions share: a request is made,
-- forwarded and answered, and what was made is released behind `finish:`.
pub mod Calls
pub mod Reads
pub mod Register
pub mod Service
pub mod Handles
pub mod Queries
use mochi_bake.Prelude.{ℕ, ℤ, is_zero, Bool, true, false, Option, List, [], ◌∷◌, if◌then◌else◌}
use mochi_bake.Messages.{
  CreateIn, BulkIn, EagerWriteIn, PersistIn, CreateWritePersistIn, EagerCreateWritePersistIn,
  RegionIn, EagerReadIn, MigrateRegionIn, MigrateTargetIn,
}
use mochi_bake.Backend.{Platform}

-- The calls of Margo for one of the registered RPCs: `margo_create(mid, addr, id, &handle)`,
-- `margo_provider_forward(provider_id, handle, &in)`, and `margo_get_output(handle, &out)` with the
-- code and the other members of the out structure. The handle holds the reply once it has come.
pub record Rpc (World Addr Handle In Out : Type 0) : Type 0 where
  pub create : World → Addr → ℤ × Handle × World
  pub forward : World → Handle → ℕ → In → ℤ × Handle × World
  pub get_output : World → Handle → ℤ × ℤ × Out

pub record Margo (platform : Platform) : Type 1 where
  -- `hg_handle_t`
  pub Handle : Type 0
  pub probe :
      Rpc
        (Platform.World platform)
        (Platform.Addr platform)
        Handle
        ℕ
        (List (Platform.TargetId platform))
  pub create :
      Rpc
        (Platform.World platform)
        (Platform.Addr platform)
        Handle
        (CreateIn platform)
        (Platform.Rid platform)
  pub write :
      Rpc (Platform.World platform) (Platform.Addr platform) Handle (BulkIn platform) (Unit {0})
  pub eager_write :
      Rpc
        (Platform.World platform)
        (Platform.Addr platform)
        Handle
        (EagerWriteIn platform)
        (Unit {0})
  pub persist :
      Rpc (Platform.World platform) (Platform.Addr platform) Handle (PersistIn platform) (Unit {0})
  pub create_write_persist :
      Rpc
        (Platform.World platform)
        (Platform.Addr platform)
        Handle
        (CreateWritePersistIn platform)
        (Platform.Rid platform)
  pub eager_create_write_persist :
      Rpc
        (Platform.World platform)
        (Platform.Addr platform)
        Handle
        (EagerCreateWritePersistIn platform)
        (Platform.Rid platform)
  pub get_size : Rpc (Platform.World platform) (Platform.Addr platform) Handle (RegionIn platform) ℕ
  pub get_data : Rpc (Platform.World platform) (Platform.Addr platform) Handle (RegionIn platform) ℕ
  pub read : Rpc (Platform.World platform) (Platform.Addr platform) Handle (BulkIn platform) ℕ
  -- the size and the buffer
  pub eager_read :
      Rpc
        (Platform.World platform)
        (Platform.Addr platform)
        Handle
        (EagerReadIn platform)
        (ℕ × List ℕ)
  pub noop : Rpc (Platform.World platform) (Platform.Addr platform) Handle (Unit {0}) (Unit {0})
  pub remove :
      Rpc (Platform.World platform) (Platform.Addr platform) Handle (RegionIn platform) (Unit {0})
  pub migrate_region :
      Rpc
        (Platform.World platform)
        (Platform.Addr platform)
        Handle
        (MigrateRegionIn platform)
        (Platform.Rid platform)
  pub migrate_target :
      Rpc
        (Platform.World platform)
        (Platform.Addr platform)
        Handle
        (MigrateTargetIn platform)
        (Unit {0})
  -- `margo_bulk_create(mid, 1, &buf, &size, flags, &bulk)`, for a buffer that holds the bytes
  pub bulk_create :
      Platform.World platform → List ℕ → ℤ × Platform.Bulk platform × Platform.World platform
  -- what stands in the memory behind a bulk handle
  pub memory : Platform.World platform → Platform.Bulk platform → List ℕ
  -- `HG_BULK_NULL`
  pub bulk_null : Platform.Bulk platform
  -- `margo_addr_self`, and `margo_addr_to_string` with the room that it is told: the code, the string,
  -- and the size that it leaves
  pub addr_self : Platform.World platform → ℤ × Platform.Addr platform
  pub addr_to_string : Platform.World platform → Platform.Addr platform → ℕ → ℤ × List ℕ × ℕ

-- How a local variable stands when it is released.
pub data Var : Type 0 where
  unset null live : Var

-- The calls behind `finish:`: `margo_free_output(handle, &out)`, `margo_bulk_free`,
-- `margo_addr_free` and `margo_destroy(handle)`, with the variable that they are given.
pub data Release : Type 0 where
  output bulk address handle : Var → Release

module _ (platform : Platform) where
  open platform use {World, Addr}

  -- `bake_provider_handle`, for the calls: the counts stand in Handles.
  pub record ProviderHandle : Type 0 where
    pub addr : Addr
    pub provider_id : ℕ
    pub eager_limit : ℕ

  -- What a function returns: its code, what it stores through its pointers, and what it released.
  pub record Done (A : Type 0) : Type 0 where
    pub ret : ℤ
    pub result : A
    pub world : World
    pub released : List Release

  -- How far the three calls of an RPC came.
  pub data Sent (Out : Type 0) : Type 0 where
    not_created not_forwarded no_output : World → Sent Out
    answered : World → ℤ → Out → Sent Out

  module _ {Handle In Out : Type 0} (rpc : Rpc World Addr Handle In Out) where
    abbrev pub receive : World → Handle → Sent Out
    receive w h =
        let (code, ret, out) = rpc.get_output w h in
        if is_zero code then answered w ret out else no_output w

    abbrev pub forwarded : World → Handle → ℕ → In → Sent Out
    forwarded w h id i =
        let (code, h', w') = rpc.forward w h id i in
        if is_zero code then receive w' h' else not_forwarded w'

    -- `margo_create`, `margo_provider_forward` and `margo_get_output`.
    abbrev pub send : World → ProviderHandle → In → Sent Out
    send w p i =
        let (code, h, w') = rpc.create w p.addr in
        if is_zero code then forwarded w' h p.provider_id i else not_created w'
