-- ===== src/Http/Token.antt =====
-- http_header_value_has_token of proto/http.c against the elements of a header value that lists tokens.
use upsgi.Common.{
  ℕ, zero, suc, ◌≤◌, ◌≡◌, refl, ◌∙◌, arith, Bool, true, false, not, ◌||◌, List, [], ◌∷◌, ◌==◌,
  if◌then◌else◌, length,
}
use upsgi.Http.Names.{same_name}
use upsgi.Http.Headers.{
  skip_separators, token_of, skip_to_comma, trim_end, has_token_from, has_token,
}

-- the parts of a value between its commas
abbrev prepend : ℕ → List (List ℕ) → List (List ℕ)
prepend c [] = (c ∷ []) ∷ []
prepend c (part ∷ parts) = (c ∷ part) ∷ parts

abbrev pub split_commas : List ℕ → List (List ℕ)
split_commas [] = [] ∷ []
split_commas (c ∷ value) =
    let parts = split_commas value in if c == b',' then [] ∷ parts else prepend c parts

-- the bytes up to a byte
abbrev pub up_to : ℕ → List ℕ → List ℕ
up_to b [] = []
up_to b (c ∷ s) = let rest = up_to b s in if c == b then [] else c ∷ rest

abbrev pub trim_start : List ℕ → List ℕ
trim_start [] = []
trim_start (c ∷ value) =
    let rest = trim_start value in if c == 32 || c == 9 then rest else c ∷ value

-- an element without the blanks around it and its parameters is the token
abbrev pub element_is : List ℕ → List ℕ → Bool
element_is token part = same_name (trim_end (up_to b';' (trim_start part))) token

abbrev pub some_element_is : List ℕ → List (List ℕ) → Bool
some_element_is token [] = false
some_element_is token (part ∷ parts) = element_is token part || some_element_is token parts

-- the parts behind the first comma
abbrev later : List ℕ → List (List ℕ)
later [] = []
later (c ∷ value) = let rest = later value in if c == b',' then split_commas value else rest

split_commas-later : (value : List ℕ) → split_commas value ≡ up_to b',' value ∷ later value
split_commas-later [] = refl
split_commas-later (c ∷ value) = ground (arith, split_commas-later value)

token_of-up_to : (value : List ℕ) → up_to b';' (up_to b',' value) ≡ token_of value
unfolding token_of
token_of-up_to [] = refl
token_of-up_to (c ∷ value) = ground (arith, token_of-up_to value)

element_is-nil : (t : ℕ) (token : List ℕ) → element_is (t ∷ token) [] ≡ false
unfolding same_name trim_end
element_is-nil t token = refl

-- separators in front of an element change nothing
skip_separators-some :
    (t : ℕ) (token value : List ℕ)
    → some_element_is (t ∷ token) (split_commas (skip_separators value))
      ≡ some_element_is (t ∷ token) (split_commas value)
unfolding skip_separators
skip_separators-some t token [] = refl
skip_separators-some t token (c ∷ value) =
    ground
      (arith, skip_separators-some t token value, split_commas-later value, element_is-nil t token)

-- the elements from the first comma on are the later ones
skip_to_comma-some :
    (t : ℕ) (token value : List ℕ)
    → some_element_is (t ∷ token) (split_commas (skip_to_comma value))
      ≡ some_element_is (t ∷ token) (later value)
unfolding skip_to_comma
skip_to_comma-some t token [] = ground (arith, element_is-nil t token)
skip_to_comma-some t token (c ∷ value) =
    ground (arith, skip_to_comma-some t token value, element_is-nil t token)

length-skip_separators : (value : List ℕ) → length (skip_separators value) ≤ length value
unfolding skip_separators
length-skip_separators [] = omega arith
length-skip_separators (c ∷ value) = ground (arith, length-skip_separators value)

length-skip_to_comma : (value : List ℕ) → length (skip_to_comma value) ≤ length value
unfolding skip_to_comma
length-skip_to_comma [] = omega arith
length-skip_to_comma (c ∷ value) = ground (arith, length-skip_to_comma value)

-- what is left behind the separators begins with none
begins_clean : List ℕ → Bool
begins_clean [] = true
begins_clean (c ∷ value) = not (c == 32 || (c == 9 || c == b','))

begins_clean-skip_separators : (value : List ℕ) → begins_clean (skip_separators value) ≡ true
unfolding skip_separators begins_clean
begins_clean-skip_separators [] = refl
begins_clean-skip_separators (c ∷ value) = ground (arith, begins_clean-skip_separators value)

-- the first element of a value that begins with no separator
element_is-first :
    (token : List ℕ) (c : ℕ) (value : List ℕ)
    → begins_clean (c ∷ value) ≡ true
    → element_is token (up_to b',' (c ∷ value)) ≡ same_name (trim_end (token_of (c ∷ value))) token
unfolding begins_clean
element_is-first token c value h = ground (arith, token_of-up_to (c ∷ value))

length-skip_rest :
    (c : ℕ) (value : List ℕ)
    → begins_clean (c ∷ value) ≡ true
    → length (skip_to_comma (c ∷ value)) ≤ length value
unfolding begins_clean skip_to_comma
length-skip_rest c value h = ground (arith, length-skip_to_comma value)

has_token_from-some :
    (fuel t : ℕ) (token value : List ℕ)
    → length value ≤ fuel
    → has_token_from fuel (t ∷ token) value ≡ some_element_is (t ∷ token) (split_commas value)
unfolding has_token_from
has_token_from-some zero t token [] h = ground (arith, element_is-nil t token)
has_token_from-some zero t token (c ∷ value) h = absurd (omega arith)
has_token_from-some (suc fuel) t token value h =
    turn (skip_separators value) (begins_clean-skip_separators value)
      (omega (arith, length-skip_separators value)) (has_token_from-some fuel t token)
    ∙ skip_separators-some t token value
  where
    turn :
        (s : List ℕ)
        → begins_clean s ≡ true
        → length s ≤ suc fuel
        → ((v : List ℕ)
            → length v ≤ fuel
            → has_token_from fuel (t ∷ token) v ≡ some_element_is (t ∷ token) (split_commas v))
        → elim s as (λ x. Bool) [
          | [] ↦ false
          | ◌∷◌ c rest ↦
              same_name (trim_end (token_of (c ∷ rest))) (t ∷ token)
              || has_token_from fuel (t ∷ token) (skip_to_comma (c ∷ rest))
        ]
          ≡ some_element_is (t ∷ token) (split_commas s)
    turn [] b l ih = ground (arith, element_is-nil t token)
    turn (c ∷ rest) b l ih =
        let shorter = length-skip_rest c rest b in
        let next = ih (skip_to_comma (c ∷ rest)) (omega (shorter, l, arith)) in
        ground (
          arith,
          element_is-first (t ∷ token) c rest b,
          split_commas-later (c ∷ rest),
          skip_to_comma-some t token (c ∷ rest),
          next,
        )

-- A value has a token, which is not empty, exactly when the token is one of the elements between its
-- commas, but for the case of letters, the blanks around the element, and what follows a semicolon.
pub has_token-some_element_is :
    (t : ℕ) (token value : List ℕ)
    → has_token (t ∷ token) value ≡ some_element_is (t ∷ token) (split_commas value)
unfolding has_token
has_token-some_element_is t token value =
    has_token_from-some (length value) t token value (omega arith)
