-- ===== src/FileBackend/Align.antt =====
-- Rounding by bit masks is rounding to multiples, for alignments that are powers of two.
use Prim.Native.Nat.add
use native.Mathlib.Nat.{add-mod, add-mod_right, mod-eq_of_lt, one-le-pow, pow-le-pow_right}
use native.Mathlib.Decide.{dec_lt}
use mochi_bake.Prelude.{
  ℕ, ◌+◌, ◌-◌, ◌%◌, ◌^◌, ◌≤◌, ◌<◌, ◌≡◌, sym, ap, ◌∙◌, arith, bit_and, bit_and_high,
}
use mochi_bake.FileBackend.{u64, mask_word, pred_word, align_up, align_down}

pub sub_mod-mod : (y a : ℕ) → (y - y % a) % a ≡ 0
sub_mod-mod y a = grind arith

pub add_mod-mod : (a x y : ℕ) → 0 < a → x % a ≡ 0 → y % a ≡ 0 → (x + y) % a ≡ 0
add_mod-mod a x y h hx hy = add-mod x y a ∙ rw (hx, hy) (omega arith)

-- Two different multiples are at least `a` apart.
pub multiples_apart : (a x y : ℕ) → 0 < a → x % a ≡ 0 → y % a ≡ 0 → x < y → x + a ≤ y
multiples_apart a x y h hx hy lt = grind arith

pub below_multiple : (a x r : ℕ) → x % a ≡ 0 → r < a → (x + r) % a ≡ r
below_multiple a x r hx h = add-mod x r a ∙ rw (hx, mod-eq_of_lt h, add.zero) (mod-eq_of_lt h)

-- Less than `a` above a multiple there is no other.
same_multiple : (a x y : ℕ) → 0 < a → x % a ≡ 0 → y % a ≡ 0 → x ≤ y → y < x + a → y ≡ x
same_multiple a x y h hx hy le lt = elim (dec_lt x y) [
  | yes p ↦ absurd (omega (arith, multiples_apart a x y h hx hy p))
  | no p ↦ omega arith
]

-- An alignment that `bake_file_backend_initialize` accepts, other than 0.
pub record IsAlignment (a : ℕ) : Type 0 where
  pub k : ℕ
  pub j : ℕ
  pub log2 : a ≡ 2 ^ k
  pub word : k + j ≡ 64
  pub small : a < 2 ^ 31

module _ {a : ℕ} (al : IsAlignment a) where
  open al use {k, j, log2, word, small}

  pub IsAlignment-pos : 0 < a
  IsAlignment-pos = omega (arith, one-le-pow k 2)

  -- A power of two that is an int.
  pub IsAlignment-le : a ≤ 2 ^ 30
  IsAlignment-le = elim (dec_lt k 31) [
    | yes low ↦
        omega (arith, log2, pow-le-pow_right {n = 2} (omega arith) {i = k} {j = 30} (omega arith))
    | no high ↦ absurd (
        omega (
          arith,
          log2,
          small,
          pow-le-pow_right {n = 2} (omega arith) {i = 31} {j = k} (omega arith),
        ))
  ]

  mask_word-eq : mask_word a ≡ 2 ^ (k + j) - 2 ^ k
  mask_word-eq = omega (arith, IsAlignment-pos, ap (λ (t : ℕ). 2 ^ t) word)

  -- Rounding down drops the remainder.
  pub align_down-eq : (x : ℕ) → x < 2 ^ 64 → align_down x a ≡ x - x % a
  unfolding align_down
  align_down-eq x h =
      ap (bit_and x) mask_word-eq
      ∙ bit_and_high k j x (omega (arith, ap (λ (t : ℕ). 2 ^ t) word))
      ∙ ap (λ (t : ℕ). x - x % t) (sym log2)

  -- Rounding up drops the remainder of `x + a - 1`, where that does not wrap.
  pub align_up-eq : (x : ℕ) → x + a ≤ 2 ^ 64 → align_up x a ≡ (x + a - 1) - (x + a - 1) % a
  unfolding align_up align_down
  align_up-eq x h =
      ap (λ (t : ℕ). bit_and t (mask_word a)) sum_word
      ∙ align_down-eq (x + a - 1) (omega (arith, IsAlignment-pos))
    where
      sum_word : u64 (x + pred_word a) ≡ x + a - 1
      sum_word = omega (arith, IsAlignment-pos, small)

  module _ (x : ℕ) (h : x + a ≤ 2 ^ 64) where
    pub align_up-multiple : align_up x a % a ≡ 0
    align_up-multiple = rw (align_up-eq x h) (sub_mod-mod (x + a - 1) a)

    pub le-align_up : x ≤ align_up x a
    le-align_up = omega (arith, align_up-eq x h, IsAlignment-pos)

    pub align_up-lt : align_up x a < x + a
    align_up-lt = omega (arith, align_up-eq x h, IsAlignment-pos)

  -- A multiple stays, and so do the lengths up to one block.
  pub align_up_self : (x : ℕ) → x + a ≤ 2 ^ 64 → x % a ≡ 0 → align_up x a ≡ x
  align_up_self x h m =
      same_multiple a x (align_up x a) IsAlignment-pos m (align_up-multiple x h) (le-align_up x h)
        (align_up-lt x h)

  pub align_up-block :
      (x r : ℕ) → x + a + a ≤ 2 ^ 64 → x % a ≡ 0 → 0 < r → r ≤ a → align_up (x + r) a ≡ x + a
  align_up-block x r h m hr hra =
      let h' : x + r + a ≤ 2 ^ 64 = omega arith in
      let up = align_up-multiple (x + r) h' in
      let above =
        multiples_apart a x (align_up (x + r) a) IsAlignment-pos m up
          (omega (arith, le-align_up (x + r) h')) in
      same_multiple a (x + a) (align_up (x + r) a) IsAlignment-pos (add-mod_right x a ∙ m) up above
        (omega (arith, align_up-lt (x + r) h'))

  -- Inside a block rounding down gives its start.
  pub align_down-block : (x r : ℕ) → x + r < 2 ^ 64 → x % a ≡ 0 → r < a → align_down (x + r) a ≡ x
  align_down-block x r h m hr = align_down-eq (x + r) h ∙ omega (arith, below_multiple a x r m hr)
