-- ===== src/Examples/Codes.antt =====
-- Texts and codes at concrete inputs: src/util.c and src/base64.
use mochi_bake.Prelude.{
  ℕ, zero, suc, ◌<◌, ◌≤◌, ◌≡◌, ◌⊎◌, pos, some, none, List, [], ◌∷◌, arith, replicate,
  length-replicate,
}
use mochi_bake.ReturnCode.{success, err_invalid_arg}
use mochi_bake.Base64.{b64_encode, b64_decode}
use mochi_bake.Base64.RoundTrip.{AreBytes, b64_decode-b64_encode}
use mochi_bake.Ids.{RegionId, region_id_to_string, region_id_from_string, Uuid}
use mochi_bake.Ids.RoundTrip.{IsRegionId, region_id_round_trip}

abbrev four_bytes : List ℕ
four_bytes = 0 ∷ 255 ∷ 62 ∷ 63 ∷ []

four_bytes-AreBytes : AreBytes four_bytes
four_bytes-AreBytes = (omega arith, (omega arith, (omega arith, (omega arith, tt))))

b64_decode-b64_encode_example : b64_decode (b64_encode four_bytes) ≡ four_bytes
b64_decode-b64_encode_example = b64_decode-b64_encode four_bytes four_bytes-AreBytes

replicate-AreBytes : (n x : ℕ) → x < 256 → AreBytes (replicate n x)
replicate-AreBytes zero x h = tt
replicate-AreBytes (suc n) x h = (h, replicate-AreBytes n x h)

abbrev rid : RegionId
rid = record { type = 1; content = replicate 16 77 }

rid-IsRegionId : IsRegionId rid
rid-IsRegionId = record {
  type_lt = omega arith;
  sized = length-replicate {A = ℕ} 16 77;
  bytes = replicate-AreBytes 16 77 (omega arith);
}

region_id_round_trip_example :
    ((29 ≤ 64)
      × (s : List ℕ) × (region_id_to_string rid 64 ≡ (success, some s))
      × (region_id_from_string s ≡ some (success, rid)))
    ⊎ ((64 < 29) × (region_id_to_string rid 64 ≡ (err_invalid_arg, none)))
region_id_round_trip_example = region_id_round_trip rid 64 rid-IsRegionId

-- A libuuid whose only id prints as 36 times '0'.
abbrev one_uuid : Uuid
one_uuid = record { TargetId = Unit; unparse = λ id. replicate 36 48; parse = λ str. (pos 0, tt) }
