-- ===== src/Prelude/Bits.antt =====
-- `&` with a mask of high bits as arithmetic, at every width.
use Prim.Native.Nat.{
  ℕ, zero, suc, ◌+◌, ◌-◌, ◌*◌, ◌/◌, ◌%◌, ◌^◌, ◌≤◌, ◌<◌, min, bit_and, digits, bit_and-bitwise,
}
use Prim.Native.Nat.add
use mathlib.Core.Path.{◌≡◌, refl, ap, ◌∙◌, sym}
use mathlib.Core.Bool.{Bool, true, ◌&&◌}
use native.Mathlib.Omega.{arith}
use native.Mathlib.Nat.{pow-suc, one-le-pow}

-- A test of the numbers below a bound, by evaluation.
unfoldable pub all_below : ℕ → (ℕ → Bool) → Bool
all_below zero test = true
all_below (suc bound) test = all_below bound test && test bound

-- The digits that two numbers share, on fuel.
abbrev common : ℕ → ℕ → ℕ → ℕ
common fuel x y = digits (λ rest. 0) min fuel x y

common-zero : (fuel y : ℕ) → common fuel 0 y ≡ 0
common-zero zero y = refl
common-zero (suc fuel) y = refl

common_none : (fuel x : ℕ) → common fuel x 0 ≡ 0
common_none zero x = refl
common_none (suc fuel) zero = refl
common_none (suc fuel) (suc x) = omega (arith, common_none fuel (suc x / 2))

-- Fuel beyond the first number makes no difference.
common_fuel : (k l x y : ℕ) → x ≤ k → x ≤ l → common k x y ≡ common l x y
common_fuel k l zero y hk hl = common-zero k y ∙ sym (common-zero l y)
common_fuel zero l (suc x) y hk hl = absurd (omega arith)
common_fuel (suc k) zero (suc x) y hk hl = absurd (omega arith)
common_fuel (suc k) (suc l) (suc x) y hk hl =
    ap (λ (t : ℕ). t * 2 + min (suc x % 2) (y % 2))
      (common_fuel k l (suc x / 2) (y / 2) (omega arith) (omega arith))

bit_and_digit : (x y : ℕ) → bit_and x y ≡ 2 * bit_and (x / 2) (y / 2) + min (x % 2) (y % 2)
bit_and_digit zero y = omega (arith, bit_and-bitwise 0 y, bit_and-bitwise 0 (y / 2))
bit_and_digit (suc x) y =
    let rest = common_fuel x (suc x / 2) (suc x / 2) (y / 2) (omega arith) (omega arith) in
    omega (arith, rest, bit_and-bitwise (suc x / 2) (y / 2), bit_and-bitwise (suc x) y)

pub bit_and-zero : (x : ℕ) → bit_and x 0 ≡ 0
bit_and-zero x = bit_and-bitwise x 0 ∙ common_none x x

pub all_below_sound :
    (bound : ℕ) (test : ℕ → Bool) (x : ℕ) → all_below bound test ≡ true → x < bound → test x ≡ true
unfolding all_below
all_below_sound zero test x passed below = absurd (omega arith)
all_below_sound (suc bound) test x passed below = ground (arith, all_below_sound bound test x)

-- A mask of `n` ones keeps every number below `2 ^ n`.
bit_and_ones : (n x : ℕ) → x < 2 ^ n → bit_and x (2 ^ n - 1) ≡ x
bit_and_ones zero x h = rw bit_and-zero (omega arith)
bit_and_ones (suc n) x h = omega (
  arith,
  pow-suc 2 n,
  one-le-pow n 2,
  bit_and_digit x (2 ^ suc n - 1),
  bit_and_ones n (x / 2) (omega (arith, pow-suc 2 n)),
  ap (λ (t : ℕ). bit_and (x / 2) t) (halved n),
)
  where
    halved : (n : ℕ) → (2 ^ suc n - 1) / 2 ≡ 2 ^ n - 1
    halved n = omega (arith, pow-suc 2 n, one-le-pow n 2)

two-pow-suc_add : (k n : ℕ) → 2 ^ (suc k + n) ≡ 2 * 2 ^ (k + n)
two-pow-suc_add k n = ap (λ (t : ℕ). 2 ^ t) (add.suc k n) ∙ omega (arith, pow-suc 2 (k + n))

two-pow-le : (k n : ℕ) → 2 ^ k ≤ 2 ^ (k + n)
two-pow-le zero n = omega (arith, one-le-pow (0 + n) 2)
two-pow-le (suc k) n = omega (arith, two-pow-suc_add k n, pow-suc 2 k, two-pow-le k n)

mask_halved : (k n : ℕ) → 2 ^ (suc k + n) - 2 ^ suc k ≡ 2 * (2 ^ (k + n) - 2 ^ k)
mask_halved k n = omega (arith, two-pow-suc_add k n, pow-suc 2 k, two-pow-le k n)

bit_and_above :
    (k n q r : ℕ)
    → r < 2 ^ k
    → q * 2 ^ k + r < 2 ^ (k + n)
    → bit_and (q * 2 ^ k + r) (2 ^ (k + n) - 2 ^ k) ≡ q * 2 ^ k
bit_and_above zero n q r hr h =
    ap (λ (t : ℕ). bit_and (q * 1 + r) (2 ^ t - 1)) (add.zero n)
    ∙ bit_and_ones n (q * 1 + r) (omega (arith, ap (λ (t : ℕ). 2 ^ t) (add.zero n)))
    ∙ omega arith
bit_and_above (suc k) n q r hr h =
    let x = q * 2 ^ suc k + r in
    let e : q * 2 ^ suc k ≡ 2 * (q * 2 ^ k) = omega (arith, ap (λ (t : ℕ). q * t) (pow-suc 2 k)) in
    let half : x / 2 ≡ q * 2 ^ k + r / 2 = omega arith in
    let mask = mask_halved k n in
    let ih =
      bit_and_above k n q (r / 2) (omega (arith, pow-suc 2 k))
        (omega (arith, two-pow-suc_add k n)) in
    omega (
      arith,
      bit_and_digit x (2 ^ (suc k + n) - 2 ^ suc k),
      ap (λ (t : ℕ). bit_and t ((2 ^ (suc k + n) - 2 ^ suc k) / 2)) half,
      ap (λ (t : ℕ). bit_and (q * 2 ^ k + r / 2) (t / 2)) mask,
      ap (λ (t : ℕ). bit_and (q * 2 ^ k + r / 2) t) (twice_half (2 ^ (k + n) - 2 ^ k)),
    )
  where
    twice_half : (m : ℕ) → 2 * m / 2 ≡ m
    twice_half m = omega arith

-- A mask of ones above bit `k` rounds down to a multiple of `2 ^ k`.
pub bit_and_high : (k n x : ℕ) → x < 2 ^ (k + n) → bit_and x (2 ^ (k + n) - 2 ^ k) ≡ x - x % 2 ^ k
bit_and_high k n x h =
    let split : x / 2 ^ k * 2 ^ k + x % 2 ^ k ≡ x = omega (arith, one-le-pow k 2) in
    ap (λ (t : ℕ). bit_and t (2 ^ (k + n) - 2 ^ k)) (sym split)
    ∙ bit_and_above k n (x / 2 ^ k) (x % 2 ^ k) (omega (arith, one-le-pow k 2)) (omega arith)
    ∙ omega arith
