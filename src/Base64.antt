-- ===== src/Base64.antt =====
-- src/base64/encode.c and src/base64/decode.c (b64.h). A char is its byte, and a C string the
-- list of the bytes before its '\0'. `realloc` of the output is taken to succeed.
pub mod Alphabet
pub mod RoundTrip
use Prim.Native.Char.{code}
use Prim.Native.String.{String}
use mochi_bake.Prelude.{
  ℕ, suc, ◌≡◌, refl, ◌+◌, ◌-◌, ◌*◌, ◌/◌, ◌%◌, bit_and, Bool, ◌&&◌, ◌||◌, List, [], ◌∷◌, ◌++◌, map,
  leb, ◌==◌, if◌then◌else◌, length, get_or, take, replicate,
}

abbrev pub codes : String → List ℕ
codes String.[] = []
codes (String.◌∷◌ c s) = code c ∷ codes s

-- `b64_table`.
abbrev pub b64_table : List ℕ
b64_table = codes "ABCDEFGHIJKLMNOPQRSTUVWXYZabcdefghijklmnopqrstuvwxyz0123456789+/"

unfoldable pub symbol : ℕ → ℕ
symbol v = get_or b64_table v 0

-- What is stored in an `unsigned char`.
abbrev pub u8 : ℕ → ℕ
u8 x = x % 256

-- `buf[0..3]` from `tmp[0..2]`.
unfoldable pub encode_bufs : ℕ → ℕ → ℕ → List ℕ
encode_bufs a b c =
    bit_and a 0xfc / 4
    ∷ u8 (bit_and a 0x03 * 16 + bit_and b 0xf0 / 16)
    ∷ u8 (bit_and b 0x0f * 4 + bit_and c 0xc0 / 64)
    ∷ bit_and c 0x3f
    ∷ []

-- One round of `while (len--)`: a byte goes to `tmp`, and the third one emits four symbols.
-- The pair is `enc` and the filled part of `tmp`.
unfoldable pub encode_byte : List ℕ → List ℕ → ℕ → List ℕ × List ℕ
encode_byte enc [] x = (enc, x ∷ [])
encode_byte enc (a ∷ []) x = (enc, a ∷ x ∷ [])
encode_byte enc (a ∷ b ∷ _) x = (enc ++ map symbol (encode_bufs a b x), [])

-- The remainder: `i + 1` symbols, then `=` while `i++ < 3`.
unfoldable pub encode_rest : List ℕ → List ℕ → List ℕ
encode_rest enc [] = enc
encode_rest enc (x ∷ tmp) =
    let i = suc (length tmp) in
    enc
    ++ (take (i + 1) (map symbol (encode_bufs x (get_or tmp 0 0) (get_or tmp 1 0)))
        ++ replicate (3 - i) b'=')

unfoldable pub encode_loop : List ℕ → List ℕ → List ℕ → List ℕ
encode_loop enc tmp [] = encode_rest enc tmp
encode_loop enc tmp (x ∷ src) = encode_loop (encode_byte enc tmp x).0 (encode_byte enc tmp x).1 src

-- `bake_b64_encode`.
unfoldable pub b64_encode : List ℕ → List ℕ
unfolding symbol encode_bufs encode_byte encode_rest encode_loop
b64_encode src = encode_loop [] [] src

-- `isalnum` in the C locale.
abbrev pub isalnum : ℕ → Bool
isalnum c = (leb b'0' c && leb c b'9') || ((leb b'A' c && leb c b'Z') || (leb b'a' c && leb c b'z'))

abbrev pub is_b64 : ℕ → Bool
is_b64 c = isalnum c || (b'+' == c || b'/' == c)

-- The search of `b64_table` from index `l`: the index of the first hit, and `c` itself if none.
unfoldable pub translate_from : ℕ → List ℕ → ℕ → ℕ
translate_from l [] c = c
translate_from l (t ∷ ts) c = if c == t then l else translate_from (suc l) ts c

unfoldable pub translate : ℕ → ℕ
unfolding translate_from
translate c = translate_from 0 b64_table c

-- `buf[0..2]` from the translated `tmp[0..3]`.
unfoldable pub decode_bufs : ℕ → ℕ → ℕ → ℕ → List ℕ
decode_bufs a b c d =
    u8 (a * 4 + bit_and b 0x30 / 16)
    ∷ u8 (bit_and b 0x0f * 16 + bit_and c 0x3c / 4)
    ∷ u8 (bit_and c 0x03 * 64 + d)
    ∷ []

-- One round of the loop: the fourth char is the one that writes three bytes.
unfoldable pub decode_char : List ℕ → List ℕ → ℕ → List ℕ × List ℕ
unfolding translate
decode_char dec [] x = (dec, x ∷ [])
decode_char dec (a ∷ []) x = (dec, a ∷ x ∷ [])
decode_char dec (a ∷ b ∷ []) x = (dec, a ∷ b ∷ x ∷ [])
decode_char dec (a ∷ b ∷ c ∷ _) x =
    (dec ++ decode_bufs (translate a) (translate b) (translate c) (translate x), [])

-- The remainder: `tmp` filled up with '\0' and translated; `i - 1` bytes are written.
unfoldable pub decode_rest : List ℕ → List ℕ → List ℕ
unfolding translate
decode_rest dec [] = dec
decode_rest dec (x ∷ tmp) =
    dec
    ++ take (length tmp) (
        decode_bufs (translate x) (translate (get_or tmp 0 0)) (translate (get_or tmp 1 0))
          (translate (get_or tmp 2 0)))

-- The loop breaks at `=` and at a char that is not of the alphabet.
unfoldable pub decode_loop : List ℕ → List ℕ → List ℕ → List ℕ
decode_loop dec tmp [] = decode_rest dec tmp
decode_loop dec tmp (x ∷ src) =
    let next = decode_loop (decode_char dec tmp x).0 (decode_char dec tmp x).1 src in
    let stop = decode_rest dec tmp in if b'=' == x then stop else if is_b64 x then next else stop

-- `bake_b64_decode`: the bytes of `dec`, without the '\0' that is put behind them.
unfoldable pub b64_decode : List ℕ → List ℕ
unfolding decode_bufs decode_char decode_rest decode_loop
b64_decode src = decode_loop [] [] src

-- "Man" and "Ma" as in RFC 4648.
encode_man : b64_encode (codes "Man") ≡ codes "TWFu"
unfolding b64_encode
encode_man = refl

encode_ma : b64_encode (codes "Ma") ≡ codes "TWE="
unfolding b64_encode
encode_ma = refl

decode_ma : b64_decode (codes "TWE=") ≡ codes "Ma"
unfolding b64_decode
decode_ma = refl
