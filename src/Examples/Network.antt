-- ===== src/Examples/Network.antt =====
-- A network with one provider on it: Margo, the streams of Mercury, and a client's handle.
use mochi_bake.Prelude.{
  ℕ, zero, suc, ◌≡◌, refl, ℤ, pos, negsuc, Option, none, some, List, [], ◌∷◌, ◌++◌,
}
use mochi_bake.ReturnCode.{success}
use mochi_bake.FileBackend.{FileRegion}
use mochi_bake.Wire.{Proc}
use mochi_bake.Wire.RoundTrip.{IsProc}
use mochi_bake.Client.{Rpc, Margo, ProviderHandle}
use mochi_bake.Client.Service.{Delivers, serve_eager_create_write_persist, serve_eager_read}
use mochi_bake.Client.Queries.{serve_probe}
use mochi_bake.Examples.Machine.{File}
use mochi_bake.FileBackend.{Entry}
use mochi_bake.Examples.Targets.{platform, provider}

abbrev put_int : ℤ → List ℕ
put_int (pos n) = 0 ∷ n ∷ []
put_int (negsuc n) = 1 ∷ n ∷ []

abbrev get_int : List ℕ → Option (ℤ × List ℕ)
get_int [] = none
get_int (t ∷ []) = none
get_int (zero ∷ n ∷ s) = some (pos n, s)
get_int (suc t ∷ n ∷ s) = some (negsuc n, s)

abbrev get_number : List ℕ → Option (ℕ × List ℕ)
get_number [] = none
get_number (n ∷ s) = some (n, s)

-- A stream of numbers.
abbrev pub numbers : Proc
numbers = record {
  put_u8 = λ v. v ∷ [];
  get_u8 = get_number;
  put_u32 = λ v. v ∷ [];
  get_u32 = get_number;
  put_i32 = put_int;
  get_i32 = get_int;
  put_u64 = λ v. v ∷ [];
  get_u64 = get_number;
}

get_int-put_int : (v : ℤ) (s : List ℕ) → numbers.get_i32 (numbers.put_i32 v ++ s) ≡ some (v, s)
get_int-put_int (pos n) s = refl
get_int-put_int (negsuc n) s = refl

pub numbers-IsProc : IsProc numbers
numbers-IsProc = record {
  u8 = λ v s h. refl;
  u32 = λ v s h. refl;
  i32 = get_int-put_int;
  u64 = λ v s h. refl;
}

-- What a handle holds: nothing, or a reply.
pub data Answer : Type 0 where
  nothing : Answer
  region : ℤ → FileRegion → Answer
  bytes : ℤ → ℕ × List ℕ → Answer
  targets : ℤ → List ℕ → Answer
  pointer : ℤ → ℕ → Answer

abbrev World : Type 0
World = Entry × File

-- An RPC that is not reached.
abbrev pub dead : {In Out : Type 0} → Out → Rpc World (Unit {0}) Answer In Out
dead out = record {
  create = λ w a. (negsuc 0, nothing, w);
  forward = λ w h id i. (negsuc 0, h, w);
  get_output = λ w h. (negsuc 0, success, out);
}

abbrev no_region : FileRegion
no_region = record { log_entry_offset = 0; log_entry_size = 0 }

abbrev region_in : Answer → ℤ × ℤ × FileRegion
region_in (region ret rid) = (pos 0, ret, rid)
region_in nothing = (negsuc 0, success, no_region)
region_in (bytes ret out) = (negsuc 0, success, no_region)
region_in (targets ret out) = (negsuc 0, success, no_region)
region_in (pointer ret out) = (negsuc 0, success, no_region)

abbrev bytes_in : Answer → ℤ × ℤ × (ℕ × List ℕ)
bytes_in (bytes ret out) = (pos 0, ret, out)
bytes_in nothing = (negsuc 0, success, (0, []))
bytes_in (region ret rid) = (negsuc 0, success, (0, []))
bytes_in (targets ret out) = (negsuc 0, success, (0, []))
bytes_in (pointer ret out) = (negsuc 0, success, (0, []))

abbrev targets_in : Answer → ℤ × ℤ × List ℕ
targets_in (targets ret out) = (pos 0, ret, out)
targets_in nothing = (negsuc 0, success, [])
targets_in (region ret rid) = (negsuc 0, success, [])
targets_in (bytes ret out) = (negsuc 0, success, [])
targets_in (pointer ret out) = (negsuc 0, success, [])

abbrev sent : {A : Type 0} → (ℤ → A → Answer) → World → Option (ℤ × A × World) → ℤ × Answer × World
sent answer w none = (negsuc 0, nothing, w)
sent answer w (some (ret, out, w')) = (pos 0, answer ret out, w')

-- No provider is reached.
abbrev silent : Margo platform
silent = record {
  Handle = Answer;
  probe = dead [];
  create = dead no_region;
  write = dead tt;
  eager_write = dead tt;
  persist = dead tt;
  create_write_persist = dead no_region;
  eager_create_write_persist = dead no_region;
  get_size = dead 0;
  get_data = dead 0;
  read = dead 0;
  eager_read = dead (0, []);
  noop = dead tt;
  remove = dead tt;
  migrate_region = dead no_region;
  migrate_target = dead tt;
  bulk_create = λ w buf. (pos 0, tt, w);
  memory = λ w b. [];
  bulk_null = tt;
  addr_self = λ w. (pos 0, tt);
  addr_to_string = λ w a room. (pos 0, 110 ∷ [], 2);
}

-- The provider answers four kinds of requests.
abbrev pub near : Margo platform
near = record silent {
  probe = record {
    create = λ w a. (pos 0, nothing, w);
    forward = λ w h id n. sent targets w (serve_probe provider w n);
    get_output = λ w h. targets_in h;
  };
  eager_create_write_persist = record {
    create = λ w a. (pos 0, nothing, w);
    forward = λ w h id i. sent region w (serve_eager_create_write_persist provider w i);
    get_output = λ w h. region_in h;
  };
  eager_read = record {
    create = λ w a. (pos 0, nothing, w);
    forward = λ w h id i. sent bytes w (serve_eager_read numbers provider w i);
    get_output = λ w h. bytes_in h;
  };
  get_data = record {
    create = λ w a. (pos 0, nothing, w);
    forward = λ w h id i. (pos 0, pointer success 4096, w);
    get_output = λ w h. (pos 0, success, 4096);
  };
}

abbrev pub to_provider : ProviderHandle platform
to_provider = record { addr = tt; provider_id = 1; eager_limit = 2048 }

pub near-probe : Delivers near.probe tt 1 (serve_probe provider)
near-probe = record {
  fresh = λ w. nothing;
  created = λ w. refl;
  delivered = λ w i ret out w' e. (targets ret out, rw e refl, refl);
}

pub near-create :
    Delivers near.eager_create_write_persist tt 1 (serve_eager_create_write_persist provider)
near-create = record {
  fresh = λ w. nothing;
  created = λ w. refl;
  delivered = λ w i ret out w' e. (region ret out, rw e refl, refl);
}

pub near-read : Delivers near.eager_read tt 1 (serve_eager_read numbers provider)
near-read = record {
  fresh = λ w. nothing;
  created = λ w. refl;
  delivered = λ w i ret out w' e. (bytes ret out, rw e refl, refl);
}
