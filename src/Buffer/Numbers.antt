-- ===== src/Buffer/Numbers.antt =====
-- The number encoders of core/buffer.c against positional notation.
use upsgi.Common.{ℕ, ◌+◌, ◌*◌, ◌^◌, ◌<◌, ◌≡◌, List, [], ◌∷◌, arith}
use upsgi.Buffer.Encode.{
  bytes16le, bytes16be, bytes24be, bytes32be, bytes32le, bytes64be, bytes64le,
}

-- The number that bytes stand for, the lowest first and the highest first.
abbrev pub le_value : List ℕ → ℕ
le_value [] = 0
le_value (b ∷ bs) = b + 256 * le_value bs

abbrev pub be_value_from : ℕ → List ℕ → ℕ
be_value_from acc [] = acc
be_value_from acc (b ∷ bs) = be_value_from (256 * acc + b) bs

abbrev pub be_value : List ℕ → ℕ
be_value bs = be_value_from 0 bs

abbrev pub AllBytes : List ℕ → Type 0
AllBytes [] = Unit
AllBytes (b ∷ bs) = (b < 256) × AllBytes bs

-- Every fixed-width encoder writes bytes that stand for its number, in its byte order.
pub encoders-value :
    (num : ℕ)
    → (num < 2 ^ 16 → (le_value (bytes16le num) ≡ num) × (be_value (bytes16be num) ≡ num))
      × (num < 2 ^ 24 → be_value (bytes24be num) ≡ num)
      × (num < 2 ^ 32 → (le_value (bytes32le num) ≡ num) × (be_value (bytes32be num) ≡ num))
      × (num < 2 ^ 64 → (le_value (bytes64le num) ≡ num) × (be_value (bytes64be num) ≡ num))
encoders-value num = (
  λ h. (omega arith, omega arith),
  λ h. omega arith,
  λ h. (omega arith, omega arith),
  λ h. (omega arith, omega arith),
)
