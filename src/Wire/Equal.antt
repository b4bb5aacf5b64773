-- ===== src/Wire/Equal.antt =====
-- The comparison of keys.
use upsgi.Common.{ℕ, ◌≡◌, refl, arith, true, List, [], ◌∷◌}
use upsgi.Wire.Range.{equal}

pub equal-eq : (xs ys : List ℕ) → equal xs ys ≡ true → xs ≡ ys
unfolding equal
equal-eq [] [] e = refl
equal-eq [] (y ∷ ys) e = absurd (ground arith)
equal-eq (x ∷ xs) [] e = absurd (ground arith)
equal-eq (x ∷ xs) (y ∷ ys) e = ground (arith, equal-eq xs ys)

pub equal_refl : (s : List ℕ) → equal s s ≡ true
unfolding equal
equal_refl [] = refl
equal_refl (c ∷ s) = ground (arith, equal_refl s)
