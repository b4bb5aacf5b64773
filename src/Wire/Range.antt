-- ===== src/Wire/Range.antt =====
-- upsgi_parse_http_range of core/protocol.c. A 64-bit signed number is its two's complement.
use mathlib.Core.Option
use upsgi.Common.{
  ℕ, suc, not, ◌+◌, ◌-◌, ◌^◌, ◌≤◌, ◌<◌, ◌≡◌, refl, sym, ◌∙◌, ap, Bool, true, false, ◌&&◌, Option,
  none, some, List, [], ◌∷◌, ◌++◌, arith, ltb, leb, ◌==◌, if◌then◌else◌, length, take, drop, add64,
  sub64, take_append, length-append, append-nil,
}
use upsgi.Wire.Length.{str_num, all_digits, decimal, str_num-decimal, is_digit, decimal-lt-pow}

pub record HttpRange : Type 0 where
  pub is_parsed : Bool
  pub from : ℕ
  pub to : ℕ

abbrev pub range_invalid : HttpRange
range_invalid = record { is_parsed = false; from = 0; to = 0 }

abbrev pub int64_max : ℕ
int64_max = 2 ^ 63 - 1

-- `a <= b` on int64_t
abbrev pub leb_int64 : ℕ → ℕ → Bool
leb_int64 a b = leb (add64 a (2 ^ 63)) (add64 b (2 ^ 63))

-- the bytes up to the first comma
unfoldable pub up_to_comma : List ℕ → List ℕ
up_to_comma [] = []
up_to_comma (c ∷ cs) = if c == b',' then [] else c ∷ up_to_comma cs

-- memchr(): the index of the first such byte
unfoldable pub index_of : ℕ → List ℕ → Option ℕ
index_of what [] = none
index_of what (c ∷ cs) = if c == what then some 0 else Option.map suc (index_of what cs)

-- memcmp() == 0 at equal lengths
unfoldable pub equal : List ℕ → List ℕ → Bool
equal [] [] = true
equal (x ∷ xs) (y ∷ ys) = x == y && equal xs ys
equal _ _ = false

abbrev pub bytes_unit : List ℕ
bytes_unit = b'b' ∷ b'y' ∷ b't' ∷ b'e' ∷ b's' ∷ []

-- the part behind the equal sign, with the dash at index `dash`
unfoldable pub parse_spec : List ℕ → ℕ → HttpRange
parse_spec range dash =
    let first = str_num (take dash range) in
    let last = str_num (drop (dash + 1) range) in
    let to = if dash + 1 == length range then int64_max else last in
    let back = sub64 0 last in
    if dash == 0
    then (if ltb back (2 ^ 63)
        then record { is_parsed = false; from = back; to = 0 }
        else record { is_parsed = true; from = back; to = int64_max })
    else if leb_int64 first to
    then record { is_parsed = true; from = first; to = to }
    else range_invalid

unfoldable pub parse_http_range : List ℕ → HttpRange
parse_http_range buf =
    let part = up_to_comma buf in
    let range = drop 6 part in
    if ltb (length part) 8 then range_invalid else elim (index_of b'=' part) [
      | none ↦ range_invalid
      | some equal_at ↦
          if not (equal_at == 5)
          then range_invalid
          else if not (equal (take 5 part) bytes_unit)
          then range_invalid
          else elim (index_of b'-' range) [
            | none ↦ range_invalid
            | some dash ↦ parse_spec range dash
          ]
    ]

up_to_comma-digits :
    (a rest : List ℕ) → all_digits a ≡ true → up_to_comma (a ++ rest) ≡ a ++ up_to_comma rest
unfolding up_to_comma
up_to_comma-digits [] rest h = refl
up_to_comma-digits (c ∷ a) rest h = ground (arith, up_to_comma-digits a rest)

index_of_dash :
    (a rest : List ℕ) → all_digits a ≡ true → index_of b'-' (a ++ (b'-' ∷ rest)) ≡ some (length a)
unfolding index_of
index_of_dash [] rest h = refl
index_of_dash (c ∷ a) rest h =
    let digits : (is_digit c ≡ true) × (all_digits a ≡ true) = (ground arith, ground arith) in
    let differ : (c == b'-') ≡ false = ground arith in rw (differ, index_of_dash a rest digits.1)

-- the header value for one range, from its two numbers
abbrev pub range_value : List ℕ → List ℕ → List ℕ
range_value a b = b'b' ∷ b'y' ∷ b't' ∷ b'e' ∷ b's' ∷ b'=' ∷ (a ++ (b'-' ∷ b))

parse_http_range-range_value :
    (a b : List ℕ)
    → all_digits a ≡ true
    → all_digits b ≡ true
    → 0 < length a + length b
    → parse_http_range (range_value a b) ≡ parse_spec (a ++ (b'-' ∷ b)) (length a)
unfolding parse_http_range up_to_comma index_of equal
parse_http_range-range_value a b da db h =
    let clean : up_to_comma (a ++ (b'-' ∷ b)) ≡ a ++ (b'-' ∷ b) =
      up_to_comma-digits a (b'-' ∷ b) da ∙ ap (λ l. a ++ (b'-' ∷ l)) tail in
    rw (clean, index_of_dash a b da) (ground (arith, length-append a (b'-' ∷ b)))
  where
    tail : up_to_comma b ≡ b
    tail = ap up_to_comma (sym (append-nil b)) ∙ up_to_comma-digits b [] db ∙ append-nil b

drop_behind : (a : List ℕ) (x : ℕ) (b : List ℕ) → drop (length a + 1) (a ++ (x ∷ b)) ≡ b
drop_behind [] x b = refl
drop_behind (y ∷ a) x b = ap (λ n. drop n (y ∷ (a ++ (x ∷ b)))) step ∙ drop_behind a x b
  where
    step : suc (length a) + 1 ≡ suc (length a + 1)
    step = omega arith

-- "bytes=A-B" with decimal numbers of at most 18 digits is the range from A to B if A is not above B, and
-- no range otherwise; "bytes=A-" runs to the largest int64_t; "bytes=-B" is the suffix range that
-- starts at minus B, if B is not zero.
pub parse_http_range_lem :
    (a b : List ℕ)
    → all_digits a ≡ true
    → all_digits b ≡ true
    → length a ≤ 18
    → length b ≤ 18
    → (0 < length a
        → 0 < length b
        → parse_http_range (range_value a b) ≡ (
            if leb (decimal a) (decimal b)
            then record { is_parsed = true; from = decimal a; to = decimal b }
            else range_invalid))
      × (0 < length a
          → parse_http_range (range_value a [])
            ≡ record { is_parsed = true; from = decimal a; to = int64_max })
      × (0 < decimal b
          → parse_http_range (range_value [] b)
            ≡ record { is_parsed = true; from = 2 ^ 64 - decimal b; to = int64_max })
unfolding parse_spec
parse_http_range_lem a b da db la lb =
    let sa : str_num a ≡ decimal a = str_num-decimal a da (omega arith) in
    let sb : str_num b ≡ decimal b = str_num-decimal b db (omega arith) in
    let ba : decimal a < 10 ^ 18 = decimal-lt-pow a 18 da la in
    let bb : decimal b < 10 ^ 18 = decimal-lt-pow b 18 db lb in
    (
      λ pa pb.
          parse_http_range-range_value a b da db (omega arith)
          ∙ ground (
            arith,
            sa,
            sb,
            ba,
            bb,
            drop_behind a b'-' b,
            take_append a (b'-' ∷ b),
            length-append a (b'-' ∷ b),
          ),
      λ pa.
          parse_http_range-range_value a [] da refl (omega arith)
          ∙ ground (
            arith,
            sa,
            ba,
            drop_behind a b'-' [],
            take_append a (b'-' ∷ []),
            length-append a (b'-' ∷ []),
          ),
      λ pb.
          parse_http_range-range_value [] b refl db (some_digit b pb)
          ∙ ground (arith, sb, bb, some_digit b pb),
    )
  where
    some_digit : (b : List ℕ) → 0 < decimal b → 0 < length {A = ℕ} [] + length b
    some_digit [] h = h
    some_digit (c ∷ b) h = omega arith
