-- ===== src/Wire/Length.antt =====
-- get_content_length of core/protocol.c and upsgi_str_num of core/utils.c: decimal numbers.
use upsgi.Common.{
  ℕ, suc, ◌+◌, ◌-◌, ◌*◌, ◌/◌, ◌^◌, ◌≤◌, ◌<◌, ◌≡◌, refl, ◌∙◌, ap, Bool, true, ◌&&◌, ◌||◌, Option,
  none, some, List, [], ◌∷◌, arith, ltb, leb, if◌then◌else◌, length, add64, sub64, mul64,
}
use native.Mathlib.Nat.{pow-suc, pow-le-pow_right}

-- The loop of get_content_length; `none` is the return value -1. SIZE_MAX is 2 ^ 64 - 1.
unfoldable pub content_length_from : ℕ → List ℕ → Option ℕ
content_length_from val [] = some val
content_length_from val (c ∷ cs) =
    let rest = content_length_from (add64 (mul64 val 10) (c - b'0')) cs in
    if ltb c b'0' || ltb b'9' c
    then none
    else if ltb ((2 ^ 64 - 1 - (c - b'0')) / 10) val
    then none
    else rest

unfoldable pub get_content_length : List ℕ → Option ℕ
unfolding content_length_from
get_content_length [] = none
get_content_length (c ∷ cs) = content_length_from 0 (c ∷ cs)

-- A char as a 64-bit word: it is signed.
abbrev char64 : ℕ → ℕ
char64 c = if ltb c 128 then c else c + 2 ^ 64 - 256

-- The loop of upsgi_str_num. `delta` begins at pow(10, len), which is exact below 10 ^ 20.
unfoldable pub str_num_from : ℕ → ℕ → List ℕ → ℕ
str_num_from delta num [] = num
str_num_from delta num (c ∷ cs) =
    str_num_from (delta / 10) (add64 num (mul64 (delta / 10) (sub64 (char64 c) 48))) cs

unfoldable pub str_num : List ℕ → ℕ
unfolding str_num_from
str_num str = str_num_from (10 ^ length str) 0 str

abbrev pub is_digit : ℕ → Bool
is_digit c = leb b'0' c && leb c b'9'

abbrev pub all_digits : List ℕ → Bool
all_digits [] = true
all_digits (c ∷ cs) = is_digit c && all_digits cs

-- The number that decimal digits stand for, behind the digits of `acc`.
abbrev pub decimal_from : ℕ → List ℕ → ℕ
decimal_from acc [] = acc
decimal_from acc (c ∷ cs) = decimal_from (10 * acc + (c - b'0')) cs

abbrev pub decimal : List ℕ → ℕ
decimal cs = decimal_from 0 cs

decimal_from-grows : (acc : ℕ) (cs : List ℕ) → acc ≤ decimal_from acc cs
decimal_from-grows acc [] = omega arith
decimal_from-grows acc (c ∷ cs) = omega (arith, decimal_from-grows (10 * acc + (c - b'0')) cs)

content_length_from_lem :
    (val : ℕ) (cs : List ℕ)
    → val < 2 ^ 64
    → content_length_from val cs ≡ (
        if all_digits cs && ltb (decimal_from val cs) (2 ^ 64)
        then some (decimal_from val cs)
        else none)
unfolding content_length_from
content_length_from_lem val [] h = ground arith
content_length_from_lem val (c ∷ cs) h = ground (
  arith,
  content_length_from_lem (add64 (mul64 val 10) (c - b'0')) cs,
  decimal_from-grows (10 * val + (c - b'0')) cs,
)

-- A Content-Length is accepted exactly when it is not empty, holds decimal digits only and stands for
-- a number below 2 ^ 64, and is then that number.
pub get_content_length-decimal :
    (buf : List ℕ)
    → get_content_length buf ≡ (
        if ltb 0 (length buf) && (all_digits buf && ltb (decimal buf) (2 ^ 64))
        then some (decimal buf)
        else none)
unfolding get_content_length
get_content_length-decimal [] = refl
get_content_length-decimal (c ∷ cs) =
    content_length_from_lem 0 (c ∷ cs) (omega arith) ∙ ground arith

-- One digit in front of others that stand for `v`, with the power of ten a variable.
digit_step :
    (acc d p q x y v : ℕ)
    → q ≡ p * 10
    → x ≡ (10 * acc + d) * p + v
    → y ≡ (0 + d) * p + v
    → x ≡ acc * q + y
digit_step acc d p q x y v e h k = rw e (omega arith)

decimal_from_split :
    (acc : ℕ) (cs : List ℕ) → decimal_from acc cs ≡ acc * 10 ^ length cs + decimal cs
decimal_from_split acc [] = omega arith
decimal_from_split acc (c ∷ cs) =
    digit_step acc (c - b'0') (10 ^ length cs) (10 ^ suc (length cs)) _ _ (decimal cs)
      (pow-suc 10 (length cs)) (decimal_from_split (10 * acc + (c - b'0')) cs)
      (decimal_from_split (0 + (c - b'0')) cs)

-- The first digit's share.
decimal-cons : (c : ℕ) (cs : List ℕ) → decimal (c ∷ cs) ≡ (c - b'0') * 10 ^ length cs + decimal cs
decimal-cons c cs =
    decimal_from_split (0 + (c - b'0')) cs ∙ ap (λ d. d * 10 ^ length cs + decimal cs) (omega arith)

digit_share : (d p r : ℕ) → d ≤ 9 → r < p → d * p + r < p * 10
digit_share d p r h k = grind arith

decimal_lt : (cs : List ℕ) → all_digits cs ≡ true → decimal cs < 10 ^ length cs
decimal_lt [] h = omega arith
decimal_lt (c ∷ cs) h =
    let small : (c - b'0' ≤ 9) × (all_digits cs ≡ true) = (ground arith, ground arith) in
    omega (
      arith,
      decimal-cons c cs,
      pow-suc 10 (length cs),
      digit_share (c - b'0') (10 ^ length cs) (decimal cs) small.0 (decimal_lt cs small.1),
    )

-- A digit as the loop reads it.
digit_word : (c : ℕ) → is_digit c ≡ true → sub64 (char64 c) 48 ≡ c - b'0'
digit_word c h = ground arith

str_num_from_lem :
    (n num : ℕ) (cs : List ℕ)
    → all_digits cs ≡ true
    → n ≡ 10 ^ length cs
    → num + decimal cs < 2 ^ 64
    → str_num_from n num cs ≡ num + decimal cs
unfolding str_num_from
str_num_from_lem n num [] h e w = omega arith
str_num_from_lem n num (c ∷ cs) h e w =
    let digits : (is_digit c ≡ true) × (all_digits cs ≡ true) = (ground arith, ground arith) in
    let tenth : n / 10 ≡ 10 ^ length cs = omega (arith, pow-suc 10 (length cs)) in
    rw (digit_word c digits.0, tenth)
      (go (c - b'0') (10 ^ length cs) (decimal-cons c cs)
        (λ next b. str_num_from_lem (10 ^ length cs) next cs digits.1 refl b))
  where
    go :
        (d p : ℕ)
        → decimal (c ∷ cs) ≡ d * p + decimal cs
        → ((next : ℕ) → next + decimal cs < 2 ^ 64 → str_num_from p next cs ≡ next + decimal cs)
        → str_num_from p (add64 num (mul64 p d)) cs ≡ num + decimal (c ∷ cs)
    go d p e ih =
        let next : add64 num (mul64 p d) ≡ num + d * p = omega (arith, w) in
        rw next (ih (num + d * p) (omega (arith, w)) ∙ omega arith)

ten_pow : (n : ℕ) → n ≤ 19 → 10 ^ n ≤ 10 ^ 19
ten_pow n h = pow-le-pow_right (omega arith) h

-- upsgi_str_num reads up to 19 decimal digits as their number.
pub str_num-decimal :
    (str : List ℕ) → all_digits str ≡ true → length str ≤ 19 → str_num str ≡ decimal str
unfolding str_num
str_num-decimal str d l =
    str_num_from_lem (10 ^ length str) 0 str d refl
      (omega (arith, decimal_lt str d, ten_pow (length str) l))
    ∙ omega arith

-- A bound from the number of digits.
pub decimal-lt-pow :
    (cs : List ℕ) (n : ℕ) → all_digits cs ≡ true → length cs ≤ n → decimal cs < 10 ^ n
decimal-lt-pow cs n d h =
    let p : 10 ^ length cs ≤ 10 ^ n = pow-le-pow_right (omega arith) h in
    omega (arith, decimal_lt cs d)
