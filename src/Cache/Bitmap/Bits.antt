-- ===== src/Cache/Bitmap/Bits.antt =====
-- The bits of a byte under the masks of the bitmap.
use upsgi.Common.{
  ℕ, ◌-◌, ◌^◌, ◌<◌, ◌≡◌, refl, arith, bit_and, bit_or, Bool, true, false, not, ◌&&◌, ◌||◌, ltb, leb,
  ◌==◌, if◌then◌else◌,
}
use upsgi.Common.Ranges.{passes_from, passes_from-true}
use upsgi.Cache.Bitmap.{first_mask, last_mask, one_mask}

-- whether a bit is set, the highest first
abbrev pub stores : ℕ → ℕ → Bool
stores num c = not (bit_and num (2 ^ (7 - c)) == 0)

abbrev pub lies_in : ℕ → ℕ → ℕ → Bool
lies_in first last c = leb first c && leb c last

agree : Bool → Bool → Bool
agree a b = if a then b else not b

all_four :
    (a b c d : Bool)
    → (a && (b && (c && d))) ≡ true
    → (a ≡ true) × (b ≡ true) × (c ≡ true) × (d ≡ true)
all_four a b c d e = (ground arith, ground arith, ground arith, ground arith)

agree-eq : (a b : Bool) → agree a b ≡ true → a ≡ b
unfolding agree
agree-eq true b e = ground arith
agree-eq false b e = ground arith

-- what the masks do to a byte, bit by bit
mask_right : ℕ → ℕ → ℕ → ℕ → Bool
mask_right first last num c =
    agree (stores (bit_or num (one_mask first last)) c) (stores num c || lies_in first last c)
    && (agree (stores (bit_and num (255 - one_mask first last)) c)
          (stores num c && not (lies_in first last c))
        && (ltb (bit_or num (one_mask first last)) 256
            && ltb (bit_and num (255 - one_mask first last)) 256))

mask_right_bits : ℕ → ℕ → ℕ → Bool
mask_right_bits first last num = passes_from (mask_right first last num) 0 8

mask_right_bytes : ℕ → ℕ → Bool
mask_right_bytes first last = passes_from (mask_right_bits first last) 0 256

mask_right_from : ℕ → Bool
mask_right_from first = passes_from (mask_right_bytes first) 0 8

mask_right_all : passes_from mask_right_from 0 8 ≡ true
unfolding passes_from mask_right mask_right_bits mask_right_bytes mask_right_from agree first_mask
    one_mask
mask_right_all = refl

mask_right-true :
    (first last num c : ℕ)
    → first < 8
    → last < 8
    → num < 256
    → c < 8
    → mask_right first last num c ≡ true
unfolding mask_right_bits mask_right_bytes mask_right_from
mask_right-true first last num c hf hl hn hc =
    let a =
      passes_from-true mask_right_from 0 8 {c = first} mask_right_all (omega arith)
        (omega (arith, hf)) in
    let b =
      passes_from-true (mask_right_bytes first) 0 8 {c = last} a (omega arith)
        (omega (arith, hl)) in
    let d =
      passes_from-true (mask_right_bits first last) 0 256 {c = num} b (omega arith)
        (omega (arith, hn)) in
    passes_from-true (mask_right first last num) 0 8 {c = c} d (omega arith) (omega (arith, hc))

module _ (first last num c : ℕ) (hf : first < 8) (hl : last < 8) (hn : num < 256) (hc : c < 8) where
  abbrev or_bit : Bool
  or_bit =
      agree (stores (bit_or num (one_mask first last)) c) (stores num c || lies_in first last c)

  abbrev and_bit : Bool
  and_bit =
      agree (stores (bit_and num (255 - one_mask first last)) c)
        (stores num c && not (lies_in first last c))

  parts :
      (or_bit ≡ true)
      × (and_bit ≡ true)
      × (ltb (bit_or num (one_mask first last)) 256 ≡ true)
      × (ltb (bit_and num (255 - one_mask first last)) 256 ≡ true)
  unfolding mask_right
  parts =
      all_four or_bit and_bit (ltb (bit_or num (one_mask first last)) 256)
        (ltb (bit_and num (255 - one_mask first last)) 256)
        (mask_right-true first last num c hf hl hn hc)

  pub stores-bit_or :
      stores (bit_or num (one_mask first last)) c ≡ (stores num c || lies_in first last c)
  stores-bit_or = agree-eq _ _ (parts.0)

  pub stores-bit_and :
      stores (bit_and num (255 - one_mask first last)) c
      ≡ (stores num c && not (lies_in first last c))
  stores-bit_and = agree-eq _ _ (parts.1)

  pub bit_or-lt : bit_or num (one_mask first last) < 256
  bit_or-lt = ground (arith, parts.2)

  pub bit_and-lt : bit_and num (255 - one_mask first last) < 256
  bit_and-lt = ground (arith, parts.3)

first_mask_right : ℕ → Bool
first_mask_right first = first_mask first == one_mask first 7

last_mask_right : ℕ → Bool
last_mask_right last = last_mask last == one_mask 0 last

all_first : passes_from first_mask_right 0 8 ≡ true
unfolding passes_from first_mask_right first_mask one_mask
all_first = refl

all_last : passes_from last_mask_right 0 8 ≡ true
unfolding passes_from last_mask_right last_mask one_mask first_mask
all_last = refl

pub first_mask-eq : (first : ℕ) → first < 8 → first_mask first ≡ one_mask first 7
unfolding first_mask_right
first_mask-eq first h =
    let e =
      passes_from-true first_mask_right 0 8 {c = first} all_first (omega arith)
        (omega (arith, h)) in
    ground (arith, e)

pub last_mask-eq : (last : ℕ) → last < 8 → last_mask last ≡ one_mask 0 last
unfolding last_mask_right
last_mask-eq last h =
    let e =
      passes_from-true last_mask_right 0 8 {c = last} all_last (omega arith) (omega (arith, h)) in
    ground (arith, e)

full_byte_right : ℕ → Bool
full_byte_right c = stores 255 c && not (stores 0 c)

all_full : passes_from full_byte_right 0 8 ≡ true
unfolding passes_from full_byte_right
all_full = refl

pub stores-full : (b : Bool) (c : ℕ) → c < 8 → stores 255 c ≡ (b || true)
unfolding full_byte_right
stores-full b c h =
    let e =
      passes_from-true full_byte_right 0 8 {c = c} all_full (omega arith) (omega (arith, h)) in
    ground (arith, e)

pub stores-empty : (b : Bool) (c : ℕ) → c < 8 → stores 0 c ≡ (b && not true)
unfolding full_byte_right
stores-empty b c h =
    let e =
      passes_from-true full_byte_right 0 8 {c = c} all_full (omega arith) (omega (arith, h)) in
    ground (arith, e)
