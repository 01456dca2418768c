-- ===== src/Client/Reads.antt =====
-- `bake_probe`, `bake_noop` and the functions of src/bake-client.c that read a region.
use mochi_bake.Prelude.{
  ℕ, ℤ, is_zero, Bool, Option, none, some, List, [], ◌∷◌, ◌++◌, if◌then◌else◌, length, take, drop,
  ltb, leb, ◌==◌,
}
use mochi_bake.ReturnCode.{success, err_mercury}
use mochi_bake.Messages.{BulkIn}
use mochi_bake.Backend.{Platform}
use mochi_bake.Client.{
  Margo, live, output, bulk, handle, ProviderHandle, Done, Sent, not_created, not_forwarded,
  no_output, answered, send,
}
use mochi_bake.Client.Calls.{done, finish, with_bulk}

-- What a read leaves: `*bytes_read`, if it is set, and the caller's buffer.
pub record ReadResult : Type 0 where
  pub bytes_read : Option ℕ
  pub buf : List ℕ

module _ (platform : Platform) (margo : Margo platform) where
  open platform use {World, TargetId, Rid}

  -- What `bake_probe` stores: the number, and the ids that stand in `bti`.
  abbrev pub probed : ℕ → ℤ → List TargetId → Option (ℕ × List TargetId)
  probed max_targets ret targets =
      if is_zero ret
      then if max_targets == 0
        then some (length targets, [])
        else (let s = if ltb max_targets (length targets) then max_targets else length targets in
            some (s, take s targets))
      else none

  abbrev finish_probe :
      ℕ → Sent platform (List TargetId) → Done platform (Option (ℕ × List TargetId))
  finish_probe n (not_created w) = done platform err_mercury none w []
  finish_probe n (not_forwarded w) = done platform err_mercury none w (handle live ∷ [])
  finish_probe n (no_output w) = done platform err_mercury none w (handle live ∷ [])
  finish_probe n (answered w ret targets) =
      done platform ret (probed n ret targets) w (output live ∷ handle live ∷ [])

  -- `bake_probe`; the flag says whether `bti` is NULL.
  unfoldable pub probe :
      World → ProviderHandle platform → ℕ → Bool → Done platform (Option (ℕ × List TargetId))
  probe w p max_targets no_array =
      let n : ℕ = if no_array then 0 else max_targets in
      finish_probe n (send platform margo.probe w p n)

  -- `bake_noop`.
  unfoldable pub noop : World → ProviderHandle platform → Done platform (Unit {0})
  noop w p =
      let (c₁, h, w₁) = margo.noop.create w p.addr in
      let (c₂, _, w₂) = margo.noop.forward w₁ h p.provider_id tt in
      if is_zero c₁
      then if is_zero c₂
        then done platform success tt w₂ (handle live ∷ [])
        else done platform err_mercury tt w₂ (handle live ∷ [])
      else done platform err_mercury tt w₁ []

  -- `memcpy(buf, out.buffer, out.size)`, or `none` where `buf` is shorter than that.
  abbrev pub copy_out : List ℕ → List ℕ → ℕ → Option (List ℕ)
  copy_out buf buffer size =
      if leb size (length buf) then some (take size buffer ++ drop size buf) else none

  abbrev pub copied_result : World → ℤ → ℕ → Option (List ℕ) → Option (Done platform ReadResult)
  copied_result w ret size none = none
  copied_result w ret size (some buf) = some (
      done platform ret (record { bytes_read = some size; buf = buf }) w
        (output live ∷ handle live ∷ []))

  abbrev pub eager_result : List ℕ → World → ℤ → ℕ × List ℕ → Option (Done platform ReadResult)
  eager_result buf w ret (size, buffer) =
      copied_result w ret size (if is_zero ret then copy_out buf buffer size else some buf)

  abbrev pub unread : {Out : Type 0} → List ℕ → Sent platform Out → Done platform ReadResult
  unread buf s =
      finish platform [] (record { bytes_read = none; buf = buf })
        (λ ret out. record { bytes_read = none; buf = buf }) s

  abbrev pub finish_eager_read :
      List ℕ → Sent platform (ℕ × List ℕ) → Option (Done platform ReadResult)
  finish_eager_read buf (not_created w) = some (unread {Out = Unit {0}} buf (not_created w))
  finish_eager_read buf (not_forwarded w) = some (unread {Out = Unit {0}} buf (not_forwarded w))
  finish_eager_read buf (no_output w) = some (unread {Out = Unit {0}} buf (no_output w))
  finish_eager_read buf (answered w ret out) = eager_result buf w ret out

  -- `bake_eager_read`; `none` where the reply is larger than the buffer.
  unfoldable pub eager_read :
      World
      → ProviderHandle platform
      → TargetId
      → Rid
      → ℕ
      → List ℕ
      → Option (Done platform ReadResult)
  eager_read w p bti rid region_offset buf = finish_eager_read buf (
      send platform margo.eager_read w p
        (record { bti = bti; rid = rid; region_offset = region_offset; size = length buf }))

  -- The memory of the caller after a request that could write it.
  abbrev pub with_memory :
      Platform.Bulk platform → Done platform (Option ℕ) → Done platform ReadResult
  with_memory b d =
      done platform d.ret (record { bytes_read = d.result; buf = margo.memory d.world b }) d.world
        d.released

  -- `bake_read`.
  unfoldable pub read :
      World
      → ProviderHandle platform
      → TargetId
      → Rid
      → ℕ
      → List ℕ
      → Option (Done platform ReadResult)
  unfolding eager_read
  read w p bti rid region_offset buf =
      if leb (length buf) p.eager_limit
      then eager_read w p bti rid region_offset buf
      else some (
          with_bulk platform margo w buf (record { bytes_read = none; buf = buf })
            λ w' b. with_memory b (
              finish platform (bulk live ∷ []) none (λ ret size. some size)
                (send platform margo.read w' p (record {
                  bti = bti;
                  rid = rid;
                  region_offset = region_offset;
                  bulk_handle = b;
                  bulk_offset = 0;
                  bulk_size = length buf;
                  remote_addr_str = none;
                }))))

  -- `bake_proxy_read`.
  unfoldable pub proxy_read :
      World → ProviderHandle platform → BulkIn platform → Done platform (Option ℕ)
  proxy_read w p i =
      finish platform [] none (λ ret size. some size) (send platform margo.read w p i)
