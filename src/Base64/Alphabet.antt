-- ===== src/Base64/Alphabet.antt =====
-- The masks and shifts of the codec as quotients and remainders, and the alphabet as a bijection.
use mochi_bake.Prelude.{
  ℕ, ◌+◌, ◌*◌, ◌/◌, ◌%◌, ◌<◌, ◌≡◌, refl, true, false, Bool, ◌&&◌, not, bit_and, arith, ◌==◌, ==_iff,
  [], ◌∷◌, all_below, all_below_sound,
}
use mochi_bake.Base64.{symbol, is_b64, translate, encode_bufs, decode_bufs}

byte_fact : (f g : ℕ → ℕ) (x : ℕ) → all_below 256 (λ y. f y == g y) ≡ true → x < 256 → f x ≡ g x
byte_fact f g x table h = (==_iff (f x) (g x)).0 (all_below_sound 256 _ x table h)

module _ (x : ℕ) (h : x < 256) where
  and_fc : bit_and x 0xfc / 4 ≡ x / 4
  unfolding all_below
  and_fc = byte_fact (λ y. bit_and y 0xfc / 4) (λ y. y / 4) x refl h

  and_03 : bit_and x 0x03 ≡ x % 4
  unfolding all_below
  and_03 = byte_fact (λ y. bit_and y 0x03) (λ y. y % 4) x refl h

  and_f0 : bit_and x 0xf0 / 16 ≡ x / 16
  unfolding all_below
  and_f0 = byte_fact (λ y. bit_and y 0xf0 / 16) (λ y. y / 16) x refl h

  and_0f : bit_and x 0x0f ≡ x % 16
  unfolding all_below
  and_0f = byte_fact (λ y. bit_and y 0x0f) (λ y. y % 16) x refl h

  and_c0 : bit_and x 0xc0 / 64 ≡ x / 64
  unfolding all_below
  and_c0 = byte_fact (λ y. bit_and y 0xc0 / 64) (λ y. y / 64) x refl h

  and_3f : bit_and x 0x3f ≡ x % 64
  unfolding all_below
  and_3f = byte_fact (λ y. bit_and y 0x3f) (λ y. y % 64) x refl h

  and_30 : bit_and x 0x30 / 16 ≡ x / 16 % 4
  unfolding all_below
  and_30 = byte_fact (λ y. bit_and y 0x30 / 16) (λ y. y / 16 % 4) x refl h

  and_3c : bit_and x 0x3c / 4 ≡ x / 4 % 16
  unfolding all_below
  and_3c = byte_fact (λ y. bit_and y 0x3c / 4) (λ y. y / 4 % 16) x refl h

abbrev accepted : ℕ → Bool
accepted v = is_b64 (symbol v) && (not (b'=' == symbol v) && (translate (symbol v) == v))

accepted_all : (v : ℕ) → v < 64 → accepted v ≡ true
unfolding all_below translate symbol
accepted_all v h = all_below_sound 64 accepted v refl h

both_parts : (a b c : Bool) → (a && (not b && c)) ≡ true → (a ≡ true) × (b ≡ false) × (c ≡ true)
both_parts a b c e = ground arith

-- A symbol is no `=`, is of the alphabet, and translates back.
module _ (v : ℕ) (h : v < 64) where
  parts :
      (is_b64 (symbol v) ≡ true)
      × ((b'=' == symbol v) ≡ false)
      × ((translate (symbol v) == v) ≡ true)
  parts = both_parts _ _ _ (accepted_all v h)

  pub symbol-is_b64 : is_b64 (symbol v) ≡ true
  symbol-is_b64 = parts.0

  pub symbol-ne_pad : (b'=' == symbol v) ≡ false
  symbol-ne_pad = parts.1

  pub translate-symbol : translate (symbol v) ≡ v
  translate-symbol = (==_iff _ v).0 parts.2

-- The four six-bit values of three bytes.
pub encode_bufs-eq :
    (a b c : ℕ)
    → a < 256
    → b < 256
    → c < 256
    → encode_bufs a b c ≡ a / 4 ∷ (a % 4 * 16 + b / 16) ∷ (b % 16 * 4 + c / 64) ∷ c % 64 ∷ []
unfolding encode_bufs
encode_bufs-eq a b c ha hb hc =
    ground (arith, and_fc a ha, and_03 a ha, and_f0 b hb, and_0f b hb, and_c0 c hc, and_3f c hc)

-- The three bytes of four six-bit values.
pub decode_bufs-eq :
    (p q r s : ℕ)
    → p < 64
    → q < 64
    → r < 64
    → s < 64
    → decode_bufs p q r s ≡ (p * 4 + q / 16) ∷ (q % 16 * 16 + r / 4) ∷ (r % 4 * 64 + s) ∷ []
unfolding decode_bufs
decode_bufs-eq p q r s hp hq hr hs = ground (
  arith,
  and_30 q (omega arith),
  and_0f q (omega arith),
  and_3c r (omega arith),
  and_03 r (omega arith),
)
