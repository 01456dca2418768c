-- ===== src/Wire.antt =====
-- The encoders of src/bake-rpc.h. The stream of Mercury's `hg_proc_t` is a list of bytes; its own
-- encoders are a parameter. An encoder that serves three operations is two functions here, one for
-- HG_ENCODE and one for HG_DECODE; nothing is done for HG_FREE. `none` is a stream that is too short.
pub mod RoundTrip
use mochi_bake.Prelude.{
  ℕ, zero, suc, ◌+◌, ◌-◌, ◌*◌, ◌/◌, ◌%◌, ◌^◌, ℤ, Option, none, some, List, [], ◌∷◌, ◌++◌, length,
  take, drop, ltb, ◌==◌, if◌then◌else◌, ◌>>=◌,
}
use mochi_bake.Ids.{RegionId, region_id_data_size}

-- Of each encoder of Mercury: the bytes that it appends, and what it takes from a stream.
pub record Proc : Type 0 where
  pub put_u8 : ℕ → List ℕ
  pub get_u8 : List ℕ → Option (ℕ × List ℕ)
  pub put_u32 : ℕ → List ℕ
  pub get_u32 : List ℕ → Option (ℕ × List ℕ)
  pub put_i32 : ℤ → List ℕ
  pub get_i32 : List ℕ → Option (ℤ × List ℕ)
  pub put_u64 : ℕ → List ℕ
  pub get_u64 : List ℕ → Option (ℕ × List ℕ)

-- `sizeof(bake_target_id_t)`: the bytes of a libuuid id.
abbrev pub target_id_size : ℕ
target_id_size = 16

-- `hg_proc_save_ptr` and `hg_proc_restore_ptr`: a piece of the stream as it stands.
unfoldable pub get_raw : ℕ → List ℕ → Option (List ℕ × List ℕ)
get_raw n s = if ltb (length s) n then none else some (take n s, drop n s)

-- The buffer behind a size, which is left alone where the size is 0: `old` is what the pointer held.
unfoldable pub get_buffer : ℕ → List ℕ → List ℕ → Option (List ℕ × List ℕ)
unfolding get_raw
get_buffer size old s = if size == 0 then some (old, s) else get_raw size s

abbrev pub put_buffer : ℕ → List ℕ → List ℕ
put_buffer size buffer = if size == 0 then [] else take size buffer

-- `bake_eager_write_in_t`, `bake_eager_create_write_persist_in_t`, `bake_eager_read_out_t` and
-- `bake_probe_out_t`; ids of targets are their bytes.
pub record EagerWrite : Type 0 where
  pub bti : List ℕ
  pub rid : RegionId
  pub region_offset : ℕ
  pub size : ℕ
  pub buffer : List ℕ

pub record EagerCreateWritePersist : Type 0 where
  pub bti : List ℕ
  pub size : ℕ
  pub buffer : List ℕ

pub record EagerReadOut : Type 0 where
  pub ret : ℤ
  pub size : ℕ
  pub buffer : List ℕ

pub record ProbeOut : Type 0 where
  pub ret : ℤ
  pub num_targets : ℕ
  -- the bytes of the array
  pub targets : List ℕ

-- The low half of 64 bits.
abbrev pub low_word : ℕ → ℕ
low_word size = size % 2 ^ 32

module _ (proc : Proc) where
  open proc use {put_u8, get_u8, put_u32, get_u32, put_i32, get_i32, put_u64, get_u64}

  -- The loop over the content of a region id.
  unfoldable pub put_each : List ℕ → List ℕ
  put_each [] = []
  put_each (b ∷ bs) = put_u8 b ++ put_each bs

  unfoldable pub get_each : ℕ → List ℕ → Option (List ℕ × List ℕ)
  get_each zero s = some ([], s)
  get_each (suc n) s = do (b, s₁) ← get_u8 s; (bs, s₂) ← get_each n s₁; some (b ∷ bs, s₂)

  -- `hg_proc_bake_region_id_t`.
  unfoldable pub put_region_id : RegionId → List ℕ
  unfolding put_each
  put_region_id rid = put_u32 rid.type ++ put_each rid.content

  unfoldable pub get_region_id : List ℕ → Option (RegionId × List ℕ)
  unfolding get_each
  get_region_id s = do
    (type, s₁) ← get_u32 s
    (content, s₂) ← get_each region_id_data_size s₁
    some (record { type = type; content = content }, s₂)

  -- `hg_proc_bake_target_id_t`.
  abbrev pub put_target_id : List ℕ → List ℕ
  put_target_id bti = take target_id_size bti

  abbrev pub get_target_id : List ℕ → Option (List ℕ × List ℕ)
  get_target_id s = get_raw target_id_size s

  -- `hg_proc_bake_eager_write_in_t`.
  unfoldable pub put_eager_write : EagerWrite → List ℕ
  unfolding put_region_id
  put_eager_write i =
      put_target_id i.bti
      ++ (put_region_id i.rid
          ++ (put_u64 i.region_offset ++ (put_u64 i.size ++ put_buffer i.size i.buffer)))

  unfoldable pub get_eager_write : List ℕ → List ℕ → Option (EagerWrite × List ℕ)
  unfolding get_region_id get_buffer get_raw
  get_eager_write old s = do
    (bti, s₁) ← get_target_id s
    (rid, s₂) ← get_region_id s₁
    (region_offset, s₃) ← get_u64 s₂
    (size, s₄) ← get_u64 s₃
    (buffer, s₅) ← get_buffer size old s₄
    some (
      record { bti = bti; rid = rid; region_offset = region_offset; size = size; buffer = buffer },
      s₅,
    )

  -- `hg_proc_bake_eager_create_write_persist_in_t`.
  unfoldable pub put_eager_create_write_persist : EagerCreateWritePersist → List ℕ
  put_eager_create_write_persist i =
      put_target_id i.bti ++ (put_u64 i.size ++ put_buffer i.size i.buffer)

  unfoldable pub get_eager_create_write_persist :
      List ℕ → List ℕ → Option (EagerCreateWritePersist × List ℕ)
  unfolding get_buffer get_raw
  get_eager_create_write_persist old s = do
    (bti, s₁) ← get_target_id s
    (size, s₂) ← get_u64 s₁
    (buffer, s₃) ← get_buffer size old s₂
    some (record { bti = bti; size = size; buffer = buffer }, s₃)

  -- `hg_proc_bake_eager_read_out_t`, on a little-endian machine: `hg_proc_uint32_t` is given the
  -- address of a size of 64 bits. It sends the low half, and sets the low half.
  unfoldable pub put_eager_read_out : EagerReadOut → List ℕ
  put_eager_read_out o = put_i32 o.ret ++ (put_u32 (low_word o.size) ++ put_buffer o.size o.buffer)

  unfoldable pub get_eager_read_out : EagerReadOut → List ℕ → Option (EagerReadOut × List ℕ)
  unfolding get_buffer get_raw
  get_eager_read_out old s = do
    (ret, s₁) ← get_i32 s
    (low, s₂) ← get_u32 s₁
    let size = old.size / 2 ^ 32 * 2 ^ 32 + low
    (buffer, s₃) ← get_buffer size old.buffer s₂
    some (record { ret = ret; size = size; buffer = buffer }, s₃)

  -- `hg_proc_bake_probe_out_t`.
  unfoldable pub put_probe_out : ProbeOut → List ℕ
  put_probe_out o =
      put_i32 o.ret
      ++ (put_u64 o.num_targets
          ++ (if o.num_targets == 0 then [] else take (o.num_targets * target_id_size) o.targets))

  unfoldable pub get_probe_out : List ℕ → List ℕ → Option (ProbeOut × List ℕ)
  unfolding get_raw
  get_probe_out old s = do
    (ret, s₁) ← get_i32 s
    (num_targets, s₂) ← get_u64 s₁
    (targets, s₃) ←
        if num_targets == 0 then some (old, s₂) else get_raw (num_targets * target_id_size) s₂
    some (record { ret = ret; num_targets = num_targets; targets = targets }, s₃)
