-- ===== src/Client/Service.antt =====
-- The client and the service together: src/bake-client.c on one side of Margo, the handlers of
-- src/bake-server.c and the file backend on the other.
use mathlib.Core.Option
use mochi_bake.Prelude.{
  ℕ, zero, suc, ◌+◌, ◌*◌, ◌%◌, ◌^◌, ◌≤◌, ◌<◌, ◌≡◌, refl, sym, ap, ◌∙◌, ℤ, pos, is_zero, true,
  Option, none, some, List, [], ◌∷◌, ◌++◌, append-nil, arith, length, length-take, length-drop,
  take, drop, leb, if◌then◌else◌, ◌>>=◌,
}
use mochi_bake.ReturnCode.{success}
use mochi_bake.Host.{Host}
use mochi_bake.Host.Disk.{Disk}
use mochi_bake.FileBackend.{Entry}
use mochi_bake.FileBackend.Layout.{IsAligned}
use mochi_bake.Backend.{Platform}
use mochi_bake.Table.{Table}
use mochi_bake.Messages.{EagerCreateWritePersistIn, EagerReadIn}
use mochi_bake.Wire.{Proc, EagerReadOut, put_eager_read_out, get_eager_read_out, put_buffer}
use mochi_bake.Wire.RoundTrip.{IsProc, eager_read_out_low}
use mochi_bake.Provider.{Target, Provider}
use mochi_bake.Provider.Rpc.{Reply, eager_create_write_persist_ult, eager_read_ult}
use mochi_bake.Provider.FileService.{
  Store, IsStore, file_backend, eager_read_ult-eager_create_write_persist_ult,
}
use mochi_bake.Client.{Rpc, Margo, live, output, handle, ProviderHandle, answered, send}
use mochi_bake.Client.Calls.{create_write_persist, done}
use mochi_bake.Client.Reads.{read}

-- Margo reaches a service: a handle can be made for its address, a request is forwarded to it, and the
-- handle then holds the reply.
pub record Delivers {World Addr Handle In Out : Type 0} (rpc : Rpc World Addr Handle In Out)
    (addr : Addr) (id : ℕ) (serve : World → In → Option (ℤ × Out × World)) : Type 0 where
  pub fresh : World → Handle
  pub created : (w : World) → rpc.create w addr ≡ (pos 0, fresh w, w)
  pub delivered :
      (w : World) (i : In) (ret : ℤ) (out : Out) (w' : World)
      → serve w i ≡ some (ret, out, w')
      → (h : Handle) × (rpc.forward w (fresh w) id i ≡ (pos 0, h, w'))
        × (rpc.get_output w' h ≡ (pos 0, ret, out))

module _ (platform : Platform) where
  open platform use {World, Addr}

  pub send-Delivers :
      {Handle In Out : Type 0} (rpc : Rpc World Addr Handle In Out) (p : ProviderHandle platform)
      {serve : World → In → Option (ℤ × Out × World)}
      → Delivers rpc p.addr p.provider_id serve
      → (w : World) (i : In) (ret : ℤ) (out : Out) (w' : World) → serve w i ≡ some (ret, out, w')
      → send platform rpc w p i ≡ answered w' ret out
  send-Delivers rpc p d w i ret out w' e =
      let (h, sent, got) = d.delivered w i ret out w' e in rw (d.created w) (rw sent (rw got refl))

-- What the handler of eager reads answers, as it comes out of its encoder.
abbrev pub eager_read_reply : Proc → ℤ → Option (List ℕ × ℕ) → Option EagerReadOut
eager_read_reply proc ret none =
    Option.map (λ (o, _). o)
      (get_eager_read_out proc (record { ret = ret; size = 0; buffer = [] })
        (put_eager_read_out proc (record { ret = ret; size = 0; buffer = [] })))
eager_read_reply proc ret (some (buffer, size)) =
    Option.map (λ (o, _). o)
      (get_eager_read_out proc (record { ret = ret; size = 0; buffer = [] })
        (put_eager_read_out proc (record { ret = ret; size = size; buffer = buffer })))

drop-length : (xs : List ℕ) → drop (length xs) xs ≡ []
drop-length [] = refl
drop-length (x ∷ xs) = drop-length xs

take-take : (n : ℕ) (xs : List ℕ) → take n (take n xs) ≡ take n xs
take-take zero xs = refl
take-take (suc n) [] = refl
take-take (suc n) (x ∷ xs) = ap (λ (t : List ℕ). x ∷ t) (take-take n xs)

put_buffer-take : (n : ℕ) (xs : List ℕ) → put_buffer n (take n xs) ≡ put_buffer n xs
put_buffer-take n xs = rw (take-take n xs) refl

module _ (proc : Proc) (laws : IsProc proc) where
  eager_read_reply_lem :
      (ret : ℤ) (buffer : List ℕ) (n : ℕ)
      → length (take n buffer) ≡ n
      → n < 2 ^ 32
      → eager_read_reply proc ret (some (buffer, n))
        ≡ some (record { ret = ret; size = n; buffer = take n buffer })
  unfolding put_eager_read_out
  eager_read_reply_lem ret buffer n h lt =
      let o : EagerReadOut = record { ret = ret; size = n; buffer = take n buffer } in
      let small : n % 2 ^ 32 ≡ n = omega arith in
      let arrives = eager_read_out_low proc laws o [] h in
      let same : put_eager_read_out proc (record { ret = ret; size = n; buffer = buffer })
          ≡ put_eager_read_out proc o ++ [] =
        rw (put_buffer-take n buffer) (
          sym (
            append-nil
              (put_eager_read_out proc (record { ret = ret; size = n; buffer = buffer })))) in
      rw same (rw arrives (rw (small, take-take n buffer) refl))

module _ {platform : Platform} {table : Table (Target platform) (Platform.TargetId platform)} where
  open platform use {World, Rid}

  -- What a provider makes of the two requests.
  abbrev pub serve_eager_create_write_persist :
      Provider platform table
      → World
      → EagerCreateWritePersistIn platform
      → Option (ℤ × Rid × World)
  serve_eager_create_write_persist p w i =
      Option.map (λ (r : Reply platform table Rid). (r.ret, r.out, r.world))
        (eager_create_write_persist_ult platform table w
          (record { provider = some p; input = some i }))

  abbrev pub serve_eager_read :
      Proc
      → Provider platform table
      → World
      → EagerReadIn platform
      → Option (ℤ × (ℕ × List ℕ) × World)
  serve_eager_read proc p w i = do
    reply ← eager_read_ult platform table w (record { provider = some p; input = some i })
    got ← eager_read_reply proc reply.ret reply.out
    some (got.ret, (got.size, got.buffer), reply.world)

module _ (host : Host) (platform : Platform) (store : Store host platform) (fuel : ℕ)
    (table : Table (Target platform) (Platform.TargetId platform)) (disk : Disk host)
    (laws : IsStore store) (proc : Proc) (wire : IsProc proc) where
  open platform use {World, TargetId, Rid}

  served_created :
      (server : Provider platform table) (w : World) (i : EagerCreateWritePersistIn platform)
      (r : Reply platform table Rid)
      → eager_create_write_persist_ult platform table w
          (record { provider = some server; input = some i })
        ≡ some r
      → r.ret ≡ success
      → serve_eager_create_write_persist server w i ≡ some (success, r.out, r.world)
  served_created server w i r e ok = rw e (rw ok refl)

  served_read :
      (server : Provider platform table) (w : World) (i : EagerReadIn platform)
      (r : Reply platform table (Option (List ℕ × ℕ))) (back : List ℕ) (n : ℕ)
      → eager_read_ult platform table w (record { provider = some server; input = some i }) ≡ some r
      → r.ret ≡ success
      → r.out ≡ some (back, n)
      → length (take n back) ≡ n
      → n < 2 ^ 32
      → serve_eager_read proc server w i ≡ some (success, (n, take n back), r.world)
  served_read server w i r back n e ok out len fits =
      rw e (rw (ok, out) (rw (eager_read_reply_lem proc wire success back n len fits) refl))

  module _ (margo : Margo platform) (server : Provider platform table) (p : ProviderHandle platform)
      (made_there : Delivers margo.eager_create_write_persist p.addr p.provider_id
        (serve_eager_create_write_persist server))
      (read_there : Delivers margo.eager_read p.addr p.provider_id
        (serve_eager_read proc server)) where
    create_small :
        (w : World) (tid : TargetId) (bytes : List ℕ) (ret : ℤ) (rid : Rid) (w' : World)
        → length bytes ≤ p.eager_limit
        → serve_eager_create_write_persist server w
            (record { bti = tid; size = length bytes; bytes = bytes })
          ≡ some (ret, rid, w')
        → create_write_persist platform margo w p tid bytes
          ≡ done platform ret
              (if is_zero ret then some rid else none)
              w'
              (output live ∷ handle live ∷ [])
    unfolding create_write_persist
    create_small w tid bytes ret rid w' small served =
        let eager : leb (length bytes) p.eager_limit ≡ true = ground arith in
        rw (create_write_persist, eager)
          (rw
            (send-Delivers platform margo.eager_create_write_persist p made_there w
              (record { bti = tid; size = length bytes; bytes = bytes }) ret rid w' served)
            refl)

    read_small :
        (w : World) (tid : TargetId) (rid : Rid) (offset : ℕ) (buf bytes : List ℕ) (w' : World)
        → length buf ≤ p.eager_limit
        → serve_eager_read proc server w
            (record { bti = tid; rid = rid; region_offset = offset; size = length buf })
          ≡ some (success, (length buf, bytes), w')
        → read platform margo w p tid rid offset buf
          ≡ some (
              done platform success
                (record {
                  bytes_read = some (length buf);
                  buf = take (length buf) bytes ++ drop (length buf) buf;
                })
                w'
                (output live ∷ handle live ∷ []))
    unfolding read
    read_small w tid rid offset buf bytes w' small served =
        let eager : leb (length buf) p.eager_limit ≡ true = ground arith in
        let fits : leb (length buf) (length buf) ≡ true = ground arith in
        rw (read, eager)
          (rw
            (send-Delivers platform margo.eager_read p read_there w
              (record { bti = tid; rid = rid; region_offset = offset; size = length buf }) success
              (length buf, bytes) w' served)
            (rw fits refl))

    -- A region that the client creates with `bake_create_write_persist` reads back with `bake_read`, in
    -- whole or in any part that is not empty, for bytes that fit in the eager limit, in a block and in
    -- 32 bits, on a log with an alignment of at least the size of a pointer: both calls return success and release what they made, and the caller's buffer holds
    -- the bytes. Margo reaches the provider, whose target stands on a disk that works.
    pub read-create_write_persist :
        (w : World) (target : Target platform) (entry : Entry) (hw : Host.World host)
        (tid : TargetId) (bytes : List ℕ) (offset : ℕ) (buf : List ℕ)
        → table.find server.targets tid ≡ some target
        → target.backend ≡ file_backend host platform store fuel
        → store.get w target.context ≡ some (entry, hw)
        → IsAligned entry
        → 8 ≤ entry.log_alignment
        → entry.log_alignment ≤ entry.log_offset
        → entry.log_offset + 3 * entry.log_alignment < 2 ^ 63
        → length bytes ≤ entry.log_alignment
        → length bytes ≤ p.eager_limit
        → 0 < length buf
        → offset + length buf ≤ length bytes
        → length buf < 2 ^ 32
        → (rid : Rid) × (w₁ w₂ : World) × (create_write_persist platform margo w p tid bytes
            ≡ done platform success (some rid) w₁ (output live ∷ handle live ∷ []))
          × (read platform margo w₁ p tid rid offset buf
              ≡ some (
                  done platform success
                    (record {
                      bytes_read = some (length buf);
                      buf = take (length buf) (drop offset bytes);
                    })
                    w₂
                    (output live ∷ handle live ∷ [])))
    read-create_write_persist w target entry hw tid bytes offset buf found is_file at v wide low
          room block small positive part fits =
        let n = length buf in
        let (made, got, back, made_eq, made_ok, got_eq, got_ok, out_eq, front) =
          eager_read_ult-eager_create_write_persist_ult host platform store fuel table disk laws w
            server target entry hw tid bytes offset n found is_file at v wide low room block
            positive part in
        let fits_limit : n ≤ p.eager_limit = omega arith in
        let len : length (take n back) ≡ n = omega (
          arith,
          ap length front,
          length-take {0} n (drop offset bytes),
          length-drop {0} offset bytes,
        ) in
        (
          made.out,
          made.world,
          got.world,
          create_small w tid bytes success made.out made.world small
              (served_created server w _ made made_eq made_ok),
          read_small made.world tid made.out offset buf (take n back) got.world fits_limit
                (served_read server made.world _ got back n got_eq got_ok out_eq len fits)
              ∙ rw (take-take n back, front, drop-length buf)
                  (rw (append-nil (take n (drop offset bytes))) refl),
        )
