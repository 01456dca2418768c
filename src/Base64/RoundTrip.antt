-- ===== src/Base64/RoundTrip.antt =====
-- `b64_decode` undoes `b64_encode`.
use mochi_bake.Prelude.{
  ℕ, ◌+◌, ◌*◌, ◌/◌, ◌%◌, ◌<◌, ◌≡◌, refl, sym, ap, ◌∙◌, List, [], ◌∷◌, ◌++◌, map, append_assoc,
  append-nil, arith, All, take, take,
}
use mochi_bake.Base64.{
  symbol, encode_bufs, encode_loop, encode_byte, encode_rest, b64_encode, decode_bufs, decode_char,
  decode_rest, decode_loop, b64_decode, translate,
}
use mochi_bake.Base64.Alphabet.{
  symbol-is_b64, symbol-ne_pad, translate-symbol, encode_bufs-eq, decode_bufs-eq,
}

abbrev pub AreBytes : List ℕ → Type 0
AreBytes = All (λ x. x < 256)

-- What was written before does not matter to what follows.
pub encode_loop-append : (enc src : List ℕ) → encode_loop enc [] src ≡ enc ++ encode_loop [] [] src
unfolding encode_loop encode_byte encode_rest
encode_loop-append enc [] = sym (append-nil enc)
encode_loop-append enc (a ∷ []) = refl
encode_loop-append enc (a ∷ b ∷ []) = refl
encode_loop-append enc (a ∷ b ∷ c ∷ src) =
    let quad = map symbol (encode_bufs a b c) in
    encode_loop-append (enc ++ quad) src
    ∙ append_assoc enc quad (encode_loop [] [] src)
    ∙ ap (λ (t : List ℕ). enc ++ t) (sym (encode_loop-append quad src))

-- A symbol is taken into `tmp` or decoded with the three before it.
decode_loop-symbol :
    (dec tmp src : List ℕ) (v : ℕ)
    → v < 64
    → decode_loop dec tmp (symbol v ∷ src)
      ≡ decode_loop (decode_char dec tmp (symbol v)).0 (decode_char dec tmp (symbol v)).1 src
unfolding decode_loop
decode_loop-symbol dec tmp src v h = rw (symbol-ne_pad v h, symbol-is_b64 v h)

-- `=` ends the loop.
decode_loop-pad : (dec tmp src : List ℕ) → decode_loop dec tmp (b'=' ∷ src) ≡ decode_rest dec tmp
unfolding decode_loop
decode_loop-pad dec tmp src = refl

translate-zero : translate 0 ≡ 0
unfolding translate
translate-zero = refl

module _ (dec : List ℕ) (p q : ℕ) (hp : p < 64) (hq : q < 64) where
  -- Four symbols give the three bytes of their values.
  decode_loop-quad :
      (r s : ℕ) (rest : List ℕ)
      → r < 64
      → s < 64
      → decode_loop dec [] (symbol p ∷ symbol q ∷ symbol r ∷ symbol s ∷ rest)
        ≡ decode_loop (dec ++ decode_bufs p q r s) [] rest
  unfolding decode_char
  decode_loop-quad r s rest hr hs =
      decode_loop-symbol dec _ _ p hp
      ∙ decode_loop-symbol dec _ _ q hq
      ∙ decode_loop-symbol dec _ _ r hr
      ∙ decode_loop-symbol dec _ _ s hs
      ∙ rw (
        translate-symbol p hp,
        translate-symbol q hq,
        translate-symbol r hr,
        translate-symbol s hs,
      )

  -- Three symbols and one `=` give two bytes.
  decode_loop-three :
      (r : ℕ)
      → r < 64
      → decode_loop dec [] (symbol p ∷ symbol q ∷ symbol r ∷ b'=' ∷ [])
        ≡ dec ++ take 2 (decode_bufs p q r 0)
  unfolding decode_char decode_rest
  decode_loop-three r hr =
      decode_loop-symbol dec _ _ p hp
      ∙ decode_loop-symbol dec _ _ q hq
      ∙ decode_loop-symbol dec _ _ r hr
      ∙ decode_loop-pad dec _ _
      ∙ rw (translate-symbol p hp, translate-symbol q hq, translate-symbol r hr, translate-zero)

  -- Two symbols and two `=` give one byte.
  decode_loop-two :
      decode_loop dec [] (symbol p ∷ symbol q ∷ b'=' ∷ b'=' ∷ [])
      ≡ dec ++ take 1 (decode_bufs p q 0 0)
  unfolding decode_char decode_rest
  decode_loop-two =
      decode_loop-symbol dec _ _ p hp
      ∙ decode_loop-symbol dec _ _ q hq
      ∙ decode_loop-pad dec _ _
      ∙ rw (translate-symbol p hp, translate-symbol q hq, translate-zero)

-- The values of the symbols determine the bytes.
regrouped :
    (a b c : ℕ)
    → a < 256
    → b < 256
    → c < 256
    → decode_bufs (a / 4) (a % 4 * 16 + b / 16) (b % 16 * 4 + c / 64) (c % 64) ≡ a ∷ b ∷ c ∷ []
regrouped a b c ha hb hc =
    decode_bufs-eq _ _ _ _ (omega arith) (omega arith) (omega arith) (omega arith) ∙ ground arith

-- What the last one or two bytes are encoded to.
module _ (a : ℕ) (ha : a < 256) where
  encode_one :
      encode_loop [] [] (a ∷ []) ≡ symbol (a / 4) ∷ symbol (a % 4 * 16 + 0 / 16) ∷ b'=' ∷ b'=' ∷ []
  unfolding encode_loop encode_byte encode_rest
  encode_one =
      ap (λ (t : List ℕ). take 2 (map symbol t) ++ b'=' ∷ b'=' ∷ [])
        (encode_bufs-eq a 0 0 ha (omega arith) (omega arith))

  encode_two :
      (b : ℕ)
      → b < 256
      → encode_loop [] [] (a ∷ b ∷ [])
        ≡ symbol (a / 4) ∷ symbol (a % 4 * 16 + b / 16) ∷ symbol (b % 16 * 4 + 0 / 64) ∷ b'=' ∷ []
  unfolding encode_loop encode_byte encode_rest
  encode_two b hb =
      ap (λ (t : List ℕ). take 3 (map symbol t) ++ b'=' ∷ [])
        (encode_bufs-eq a b 0 ha hb (omega arith))

  encode_three :
      (b c : ℕ) (src : List ℕ)
      → b < 256
      → c < 256
      → encode_loop [] [] (a ∷ b ∷ c ∷ src)
        ≡ symbol (a / 4)
          ∷ symbol (a % 4 * 16 + b / 16)
          ∷ symbol (b % 16 * 4 + c / 64)
          ∷ symbol (c % 64)
          ∷ encode_loop [] [] src
  unfolding encode_loop encode_byte
  encode_three b c src hb hc =
      ap (λ (t : List ℕ). encode_loop (map symbol t) [] src) (encode_bufs-eq a b c ha hb hc)
      ∙ encode_loop-append _ src

decode_nothing : (dec : List ℕ) → decode_loop dec [] (encode_loop [] [] []) ≡ dec ++ []
unfolding encode_loop encode_rest decode_loop decode_rest
decode_nothing dec = sym (append-nil dec)

decode_loop-encode_loop :
    (dec src : List ℕ) → AreBytes src → decode_loop dec [] (encode_loop [] [] src) ≡ dec ++ src
decode_loop-encode_loop dec [] h = decode_nothing dec
decode_loop-encode_loop dec (a ∷ []) h =
    ap (decode_loop dec []) (encode_one a h.0)
    ∙ decode_loop-two dec _ _ (omega arith) (omega arith)
    ∙ ap (λ (t : List ℕ). dec ++ take 1 t) (regrouped a 0 0 h.0 (omega arith) (omega arith))
decode_loop-encode_loop dec (a ∷ b ∷ []) h =
    ap (decode_loop dec []) (encode_two a h.0 b h.1.0)
    ∙ decode_loop-three dec _ _ (omega arith) (omega arith) _ (omega arith)
    ∙ ap (λ (t : List ℕ). dec ++ take 2 t) (regrouped a b 0 h.0 h.1.0 (omega arith))
decode_loop-encode_loop dec (a ∷ b ∷ c ∷ src) h =
    ap (decode_loop dec []) (encode_three a h.0 b c src h.1.0 h.1.1.0)
    ∙ decode_loop-quad dec _ _ (omega arith) (omega arith) _ _ _ (omega arith) (omega arith)
    ∙ ap (λ (t : List ℕ). decode_loop (dec ++ t) [] (encode_loop [] [] src))
        (regrouped a b c h.0 h.1.0 h.1.1.0)
    ∙ decode_loop-encode_loop (dec ++ a ∷ b ∷ c ∷ []) src h.1.1.1
    ∙ append_assoc dec (a ∷ b ∷ c ∷ []) src

-- Decoding the encoding of any bytes gives these bytes.
pub b64_decode-b64_encode : (src : List ℕ) → AreBytes src → b64_decode (b64_encode src) ≡ src
unfolding b64_decode b64_encode
b64_decode-b64_encode src h = decode_loop-encode_loop [] src h
