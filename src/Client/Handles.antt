-- ===== src/Client/Handles.antt =====
-- Clients and provider handles of src/bake-client.c: their counts, with the memory that they stand in.
-- A NULL pointer is `none`. An operation that touches memory which is not allocated is `none` as a whole.
pub mod Refs
pub mod Refines
use mochi_bake.Prelude.{
  ℕ, suc, ◌+◌, ◌-◌, ◌%◌, ◌^◌, ℤ, is_zero, Bool, true, false, not, Option, none, some, List, [], ◌∷◌,
  ◌==◌, if◌then◌else◌, ◌>>=◌,
}
use mochi_bake.ReturnCode.{success, err_allocation, err_invalid_arg, err_mercury}
use mochi_bake.FileBackend.{u64}

module _ (Addr : Type 0) where
  -- `bake_provider_handle`; its client is the one of the state.
  pub record Handle : Type 0 where
    pub addr : Addr
    pub provider_id : ℕ
    pub refcount : ℕ
    pub eager_limit : ℕ

  -- The handles that are allocated, by their addresses, and the client's `num_provider_handles`.
  pub record State : Type 0 where
    pub handles : List (ℕ × Handle)
    pub num_provider_handles : ℕ

  abbrev pub find : List (ℕ × Handle) → ℕ → Option Handle
  find [] a = none
  find ((b, h) ∷ hs) a = if b == a then some h else find hs a

  abbrev pub update : List (ℕ × Handle) → ℕ → Handle → List (ℕ × Handle)
  update [] a g = []
  update ((b, h) ∷ hs) a g = if b == a then (b, g) ∷ hs else (b, h) ∷ update hs a g

  abbrev pub erase : List (ℕ × Handle) → ℕ → List (ℕ × Handle)
  erase [] a = []
  erase ((b, h) ∷ hs) a = if b == a then hs else (b, h) ∷ erase hs a

  -- `x -= 1` on 64 bits.
  abbrev pub pred : ℕ → ℕ
  pred n = u64 (n + 2 ^ 64 - 1)

  -- `BAKE_DEFAULT_EAGER_LIMIT`
  abbrev pub default_eager_limit : ℕ
  default_eager_limit = 2048

  -- `bake_client_init`, where `calloc` gives memory or none: a client is a state with no handles.
  unfoldable pub client_init : Bool → ℤ × Option State
  client_init allocated =
      if allocated
      then (success, some (record { handles = []; num_provider_handles = 0 }))
      else (err_allocation, none)

  -- `bake_client_finalize`: its code, and whether it warns.
  unfoldable pub client_finalize : State → ℤ × Bool
  client_finalize s = (success, not (s.num_provider_handles == 0))

  -- `bake_provider_handle_create`, where `calloc` gives an address or NULL, and `margo_addr_dup` a code
  -- and the copy.
  unfoldable pub provider_handle_create :
      Option State → Option ℕ → ℤ × Addr → ℕ → ℤ × Option ℕ × Option State
  provider_handle_create none allocated dup provider_id = (err_invalid_arg, none, none)
  provider_handle_create (some s) none dup provider_id = (err_allocation, none, some s)
  provider_handle_create (some s) (some a) dup provider_id =
      if is_zero dup.0
      then (
        success,
        some a,
        some (record {
          handles =
              (
                a,
                record {
                  addr = dup.1;
                  provider_id = provider_id;
                  refcount = 1;
                  eager_limit = default_eager_limit;
                },
              )
              ∷ s.handles;
          num_provider_handles = u64 (s.num_provider_handles + 1);
        }),
      )
      else (err_mercury, none, some s)

  -- `bake_provider_handle_get_eager_limit`.
  unfoldable pub get_eager_limit : State → Option ℕ → Option (ℤ × Option ℕ)
  get_eager_limit s none = some (err_invalid_arg, none)
  get_eager_limit s (some a) = do h ← find s.handles a; some (success, some h.eager_limit)

  -- `bake_provider_handle_set_eager_limit`.
  unfoldable pub set_eager_limit : State → Option ℕ → ℕ → Option (ℤ × State)
  set_eager_limit s none limit = some (err_invalid_arg, s)
  set_eager_limit s (some a) limit = do
    h ← find s.handles a
    some (success, record s { handles = update s.handles a (record h { eager_limit = limit }) })

  -- `bake_provider_handle_ref_incr`.
  unfoldable pub ref_incr : State → Option ℕ → Option (ℤ × State)
  ref_incr s none = some (err_invalid_arg, s)
  ref_incr s (some a) = do
    h ← find s.handles a
    some (
      success,
      record s { handles = update s.handles a (record h { refcount = u64 (h.refcount + 1) }) },
    )

  -- `bake_provider_handle_get_info`, with a pointer for each of the three: the address is a copy.
  unfoldable pub get_info : State → Option ℕ → (Addr → ℤ × Addr) → Option (ℤ × Option (Addr × ℕ))
  get_info s none dup = some (err_invalid_arg, none)
  get_info s (some a) dup = do
    h ← find s.handles a
    let (code, addr) = dup h.addr
    some (if is_zero code then success else err_mercury, some (addr, h.provider_id))

  -- What is left of a handle whose count has been lowered to `n`.
  abbrev pub released : State → ℕ → Handle → ℕ → State
  released s a h n =
      if n == 0
      then record {
        handles = erase s.handles a;
        num_provider_handles = pred s.num_provider_handles;
      }
      else record s { handles = update s.handles a (record h { refcount = n }) }

  -- `bake_provider_handle_release`.
  unfoldable pub release : State → Option ℕ → Option (ℤ × State)
  release s none = some (err_invalid_arg, s)
  release s (some a) = do h ← find s.handles a; some (success, released s a h (pred h.refcount))

  -- What the user of a client does with its handles.
  pub data Op : Type 0 where
    -- the address that `calloc` gives, the copy of the address, and the id
    new_handle : ℕ → Addr → ℕ → Op
    incr drop_ref : ℕ → Op
    set_limit : ℕ → ℕ → Op

  abbrev created : ℤ × Option ℕ × Option State → Option State
  created (code, a, s) = s

  abbrev state_of : Option (ℤ × State) → Option State
  state_of none = none
  state_of (some (code, s)) = some s

  unfoldable pub step : Op → State → Option State
  unfolding provider_handle_create ref_incr release set_eager_limit
  step (new_handle a addr id) s =
      created (provider_handle_create (some s) (some a) (success, addr) id)
  step (incr a) s = state_of (ref_incr s (some a))
  step (drop_ref a) s = state_of (release s (some a))
  step (set_limit a limit) s = state_of (set_eager_limit s (some a) limit)

  unfoldable pub run : List Op → State → Option State
  run [] s = some s
  run (o ∷ os) s = step o s >>= run os
