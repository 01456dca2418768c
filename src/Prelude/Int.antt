-- ===== src/Prelude/Int.antt =====
-- C integers that may be negative: return codes and counts of bytes.
use Prim.Native.Nat.{ℕ, ◌-◌, ◌%◌, ◌^◌, ◌<◌}
use mathlib.Core.Path.{◌≡◌}
use native.Mathlib.Omega.{arith}
use mathlib.Core.Bool.{Bool, true, false}
use mochi_bake.Prelude.Tests.{◌==◌, ltb, if◌then◌else◌}

-- `negsuc n` is -(n + 1).
pub data ℤ : Type 0 where
  pos : ℕ → ℤ
  negsuc : ℕ → ℤ

-- The test `ret == n` for a count `n`.
abbrev pub is_pos : ℤ → ℕ → Bool
is_pos (pos m) n = m == n
is_pos (negsuc m) n = false

-- The test `ret == 0`.
abbrev pub is_zero : ℤ → Bool
is_zero r = is_pos r 0

-- The test `ret < 0`.
abbrev pub is_neg : ℤ → Bool
is_neg (pos m) = false
is_neg (negsuc m) = true

-- The test `a == b`.
abbrev pub same_int : ℤ → ℤ → Bool
same_int (pos m) (pos n) = m == n
same_int (pos m) (negsuc n) = false
same_int (negsuc m) (pos n) = false
same_int (negsuc m) (negsuc n) = m == n

-- The int with a 32-bit pattern.
abbrev pub int_of : ℕ → ℤ
int_of n = if ltb n (2 ^ 31) then pos n else negsuc (2 ^ 32 - 1 - n)

-- What an int holds when a count of type ssize_t is stored in it.
abbrev pub as_int : ℤ → ℤ
as_int (pos n) = int_of (n % 2 ^ 32)
as_int (negsuc n) = int_of (2 ^ 32 - 1 - n % 2 ^ 32)

pub as_int-small : (n : ℕ) → n < 2 ^ 31 → as_int (pos n) ≡ pos n
as_int-small n h = ground arith
