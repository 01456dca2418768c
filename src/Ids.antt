-- ===== src/Ids.antt =====
-- The textual forms of target and region ids, src/util.c.
pub mod RoundTrip
use mochi_bake.Prelude.{
  ℕ, suc, ◌+◌, ◌-◌, ◌*◌, ◌/◌, ◌%◌, ◌^◌, ℤ, is_zero, Bool, Option, none, some, List, [], ◌∷◌, ◌++◌,
  ltb, if◌then◌else◌, length, get_or, take, drop,
}
use mochi_bake.ReturnCode.{success, err_invalid_arg}
use mochi_bake.Base64.{b64_encode, b64_decode}

-- `BAKE_REGION_ID_DATA_SIZE`.
abbrev pub region_id_data_size : ℕ
region_id_data_size = 16

-- `bake_region_id_t`: a uint32_t and 16 bytes.
pub record RegionId : Type 0 where
  pub type : ℕ
  pub content : List ℕ

-- `sizeof(bake_region_id_t)`: there is no padding.
abbrev pub region_id_size : ℕ
region_id_size = 4 + region_id_data_size

-- The bytes of a region id in memory, on a little-endian machine.
unfoldable pub region_id_bytes : RegionId → List ℕ
region_id_bytes rid =
    rid.type % 256
    ∷ rid.type / 256 % 256
    ∷ rid.type / 65536 % 256
    ∷ rid.type / 16777216 % 256
    ∷ rid.content

-- The region id that the bytes of one stand for.
unfoldable pub region_id_of_bytes : List ℕ → RegionId
region_id_of_bytes bytes = record {
  type =
      get_or bytes 0 0
      + get_or bytes 1 0 * 256
      + get_or bytes 2 0 * 65536
      + get_or bytes 3 0 * 16777216;
  content = drop 4 bytes;
}

-- `bake_region_id_to_string`: the code, and what is written to `str`, if anything is.
unfoldable pub region_id_to_string : RegionId → ℕ → ℤ × Option (List ℕ)
unfolding region_id_bytes
region_id_to_string rid size =
    let s = b64_encode (region_id_bytes rid) in
    if ltb size (length s + 1) then (err_invalid_arg, none) else (success, some s)

-- `bake_region_id_from_string`: `none` where `memcpy` reads past the decoded bytes and the '\0'
-- behind them.
unfoldable pub region_id_from_string : List ℕ → Option (ℤ × RegionId)
unfolding region_id_of_bytes
region_id_from_string str =
    let bytes = b64_decode str ++ 0 ∷ [] in
    if ltb (length bytes) region_id_size
    then none
    else some (success, region_id_of_bytes (take region_id_size bytes))

-- libuuid: `uuid_unparse` gives 36 chars, `uuid_parse` a code and the id.
pub record Uuid : Type 1 where
  pub TargetId : Type 0
  pub unparse : TargetId → List ℕ
  pub parse : List ℕ → ℤ × TargetId

module _ (uuid : Uuid) where
  open uuid use {TargetId, unparse, parse}

  -- `bake_target_id_to_string`.
  unfoldable pub target_id_to_string : TargetId → ℕ → ℤ × Option (List ℕ)
  target_id_to_string tid size =
      if ltb size 37 then (err_invalid_arg, none) else (success, some (unparse tid))

  -- `bake_target_id_from_string`: the code, and the id that is left behind.
  unfoldable pub target_id_from_string : List ℕ → ℤ × TargetId
  target_id_from_string str =
      if is_zero (parse str).0 then (success, (parse str).1) else (err_invalid_arg, (parse str).1)
