-- ===== src/Common/Options.antt =====
-- Chains of optional results.
use mathlib.Core.Path.{◌≡◌, refl}
use mathlib.Core.Option.{Option, none, some}
use native.Mathlib.Omega.{arith}

module _ {ℓ ℓ'} {A : Type ℓ} {B : Type ℓ'} where
  -- a chain that gives a result has passed its first step
  pub chain-some :
      (o : Option A) (f : A → Option B) {out : B}
      → elim o [ none ↦ none | some x ↦ f x ] ≡ some out
      → (x : A) × (o ≡ some x) × (f x ≡ some out)
  chain-some none f e = absurd (grind arith)
  chain-some (some x) f e = (x, refl, e)
