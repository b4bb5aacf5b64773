-- ===== src/Common/Ranges.antt =====
-- Tests of every number of a range.
use Prim.Native.Nat.{ℕ, zero, suc, ◌+◌, ◌≤◌, ◌<◌}
use mathlib.Core.Path.{◌≡◌, sym, ap, ◌∙◌}
use mathlib.Core.Logic.{◌⊎◌, inl, inr}
use mathlib.Core.Bool.{Bool, true, false}
use native.Mathlib.Omega.{arith}
use upsgi.Common.Tests.{if◌then◌else◌}

-- whether a test passes for `n` numbers in a row
unfoldable pub passes_from : (ℕ → Bool) → ℕ → ℕ → Bool
passes_from test first zero = true
passes_from test first (suc n) =
    let later = passes_from test (suc first) n in if test first then later else false

same_or_later : (first c : ℕ) → first ≤ c → (first ≡ c) ⊎ (suc first ≤ c)
same_or_later first c low = ground arith

pub passes_from-true :
    (test : ℕ → Bool) (first n : ℕ) {c : ℕ}
    → passes_from test first n ≡ true
    → first ≤ c
    → c < first + n
    → test c ≡ true
unfolding passes_from
passes_from-true test first zero passed low high = absurd (omega arith)
passes_from-true test first (suc n) {c} passed low high = elim (same_or_later first c low) [
  | inl here ↦ ap test (sym here) ∙ ground (arith, passed)
  | inr later ↦ passes_from-true test (suc first) n (ground (arith, passed)) later (omega arith)
]
