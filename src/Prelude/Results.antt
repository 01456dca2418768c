-- ===== src/Prelude/Results.antt =====
-- Chains of calls that may not come back.
use mathlib.Core.Option.{Option, none, some}

module _ {ℓ ℓ'} {A : Type ℓ} {B : Type ℓ'} where
  infixl 5 ◌>>=◌
  abbrev pub ◌>>=◌ : Option A → (A → Option B) → Option B
  none >>= f = none
  some a >>= f = f a
