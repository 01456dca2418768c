-- ===== src/Ids/RoundTrip.antt =====
-- Ids survive the way through their textual forms.
use mathlib.Core.Logic.{◌↔◌}
use mochi_bake.Prelude.{
  ℕ, ◌+◌, ◌*◌, ◌/◌, ◌%◌, ◌^◌, ◌≤◌, ◌<◌, ◌≡◌, refl, ap, ◌∙◌, ◌⊎◌, inl, inr, false, Bool-cases,
  ltb→lt, take-append, none, some, List, [], ◌∷◌, ◌++◌, map, arith, ltb, length, length-append,
  take,
}
use mochi_bake.ReturnCode.{success, err_invalid_arg}
use mochi_bake.Base64.{
  b64_encode, b64_decode, symbol, encode_bufs, encode_loop, encode_byte, encode_rest,
}
use mochi_bake.Base64.RoundTrip.{AreBytes, b64_decode-b64_encode, encode_loop-append}
use mochi_bake.Ids.{
  RegionId, region_id_size, region_id_bytes, region_id_of_bytes, region_id_to_string,
  region_id_from_string, Uuid, target_id_to_string, target_id_from_string,
}

-- What C's types say of a region id.
pub record IsRegionId (rid : RegionId) : Type 0 where
  pub type_lt : rid.type < 2 ^ 32
  pub sized : length rid.content ≡ 16
  pub bytes : AreBytes rid.content

-- Twenty bytes take 28 symbols.
length-encode_loop : (src : List ℕ) → length (encode_loop [] [] src) ≡ (length src + 2) / 3 * 4
unfolding encode_loop encode_byte encode_rest encode_bufs
length-encode_loop [] = refl
length-encode_loop (a ∷ []) = refl
length-encode_loop (a ∷ b ∷ []) = refl
length-encode_loop (a ∷ b ∷ c ∷ src) =
    ap length (encode_loop-append (map symbol (encode_bufs a b c)) src)
    ∙ omega (arith, length-encode_loop src)

pub length-b64_encode : (src : List ℕ) → length (b64_encode src) ≡ (length src + 2) / 3 * 4
unfolding b64_encode
length-b64_encode = length-encode_loop

module _ (rid : RegionId) (valid : IsRegionId rid) where
  region_id_bytes-AreBytes : AreBytes (region_id_bytes rid)
  unfolding region_id_bytes
  region_id_bytes-AreBytes = (omega arith, (omega arith, (omega arith, (omega arith, valid.bytes))))

  length-region_id_bytes : length (region_id_bytes rid) ≡ 20
  unfolding region_id_bytes
  length-region_id_bytes = omega (arith, valid.sized)

  region_id_of_bytes-bytes :
      region_id_of_bytes (take region_id_size (region_id_bytes rid ++ 0 ∷ [])) ≡ rid
  unfolding region_id_of_bytes region_id_bytes
  region_id_of_bytes-bytes = λ i. record { type = word i; content = rest i }
    where
      open rid use {type, content}

      word :
          type % 256
            + type / 256 % 256 * 256
            + type / 65536 % 256 * 65536
            + type / 16777216 % 256 * 16777216
          ≡ type
      word = omega (arith, valid.type_lt)

      rest : take 16 (content ++ 0 ∷ []) ≡ content
      rest = take-append 16 content (0 ∷ []) valid.sized

  -- Within 20 bytes `memcpy` stays in the decoded buffer.
  region_id_from_string-encode :
      region_id_from_string (b64_encode (region_id_bytes rid)) ≡ some (success, rid)
  unfolding region_id_from_string
  region_id_from_string-encode =
      rw (b64_decode-b64_encode (region_id_bytes rid) region_id_bytes-AreBytes)
        (elim (Bool-cases (ltb (length (region_id_bytes rid ++ 0 ∷ [])) 20)) [
          | inl short ↦ absurd (
              omega (
                arith,
                ltb→lt _ _ short,
                length-append (region_id_bytes rid) (0 ∷ []),
                length-region_id_bytes,
              ))
          | inr fits ↦ rw fits (ap (λ (r : RegionId). some (success, r)) region_id_of_bytes-bytes)
        ])

-- A region id that `bake_region_id_to_string` writes is read back by `bake_region_id_from_string`
-- as it was. The text needs 29 chars, its '\0' included; with less room nothing is written and the
-- code is that of an invalid argument.
pub region_id_round_trip :
    (rid : RegionId) (size : ℕ)
    → IsRegionId rid
    → ((29 ≤ size)
        × (s : List ℕ) × (region_id_to_string rid size ≡ (success, some s))
        × (region_id_from_string s ≡ some (success, rid)))
      ⊎ ((size < 29) × (region_id_to_string rid size ≡ (err_invalid_arg, none)))
unfolding region_id_to_string
region_id_round_trip rid size valid = elim (Bool-cases (ltb size (length s + 1))) [
  | inl short ↦ inr (omega (arith, ltb→lt _ _ short, l), rw short)
  | inr fits ↦
      inl (omega (arith, not_short fits, l), s, rw fits, region_id_from_string-encode rid valid)
]
  where
    s : List ℕ
    s = b64_encode (region_id_bytes rid)

    l : length s ≡ 28
    l = omega (arith, length-b64_encode (region_id_bytes rid), length-region_id_bytes rid valid)

    not_short : ltb size (length s + 1) ≡ false → length s + 1 ≤ size
    not_short e = ground arith

-- `bake_region_id_from_string` reads outside the decoded buffer exactly when fewer than 19 bytes
-- were decoded.
region_id_from_string-overread :
    (str : List ℕ) → (region_id_from_string str ≡ none) ↔ (length (b64_decode str) < 19)
unfolding region_id_from_string
region_id_from_string-overread str = ground (arith, length-append (b64_decode str) (0 ∷ []))

-- A target id that `bake_target_id_to_string` writes is read back as it was, for a libuuid that
-- parses what it prints; with less than 37 chars of room nothing is written.
target_id_round_trip :
    (uuid : Uuid) (tid : Uuid.TargetId uuid) (size : ℕ)
    → Uuid.parse uuid (Uuid.unparse uuid tid) ≡ (success, tid)
    → ((37 ≤ size)
        × (target_id_to_string uuid tid size ≡ (success, some (Uuid.unparse uuid tid)))
        × (target_id_from_string uuid (Uuid.unparse uuid tid) ≡ (success, tid)))
      ⊎ ((size < 37) × (target_id_to_string uuid tid size ≡ (err_invalid_arg, none)))
unfolding target_id_to_string target_id_from_string
target_id_round_trip uuid tid size law = elim (Bool-cases (ltb size 37)) [
  | inl short ↦ inr (ltb→lt _ _ short, rw short)
  | inr fits ↦ inl (room fits, rw fits, rw law)
]
  where
    room : ltb size 37 ≡ false → 37 ≤ size
    room e = ground arith
