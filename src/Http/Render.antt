-- ===== src/Http/Render.antt =====
-- The header block that a client writes, read back by the first loop of http_parse.
use upsgi.Common.{
  ℕ, ◌+◌, ◌<◌, ◌≡◌, refl, arith, Bool, false, ◌||◌, List, [], ◌∷◌, ◌++◌, map, none, some, ◌==◌,
  length, length-append, append_assoc, append-nil,
}
use upsgi.Http.Headers.{
  Slot, find, add_line, before_colon, skip_spaces, header_to_cgi, needs_prefix, is_folded,
  scan_headers,
}

abbrev pub has_byte : ℕ → List ℕ → Bool
has_byte b [] = false
has_byte b (c ∷ s) = c == b || has_byte b s

abbrev pub slot_of : List ℕ × List ℕ → Slot
slot_of (key, value) = record { key = key; value = value; has_prefix = needs_prefix key }

-- `Name: value`
abbrev pub header_line : List ℕ → List ℕ → List ℕ
header_line key value = key ++ b':' ∷ b' ' ∷ value

-- the lines of the headers and the empty line
abbrev pub header_block : List (List ℕ × List ℕ) → List ℕ
header_block [] = 13 ∷ 10 ∷ []
header_block ((key, value) ∷ headers) = header_line key value ++ 13 ∷ 10 ∷ header_block headers

-- a name without a colon, a carriage return or a blank at its start, and a value without a carriage return
-- or a space at its start, neither of them empty, in a line that 16 bits measure
abbrev pub IsHeader : List ℕ → List ℕ → Type 0
IsHeader key value =
    (0 < length key)
    × (is_folded key ≡ false)
    × (has_byte b':' key ≡ false)
    × (has_byte 13 key ≡ false)
    × (0 < length value)
    × (skip_spaces value ≡ value)
    × (has_byte 13 value ≡ false)
    × (length key + length value + 2 < 65536)

-- headers of names that are not in the table yet, each of them a header
abbrev pub AreHeaders : List Slot → List (List ℕ × List ℕ) → Type 0
AreHeaders table [] = Unit
AreHeaders table ((key, value) ∷ headers) =
    IsHeader key value
    × (find key table ≡ none)
    × AreHeaders (table ++ slot_of (key, value) ∷ []) headers

scan_headers-line :
    (line s : List ℕ) (table : List Slot) (d : ℕ) (bytes : List ℕ)
    → has_byte 13 s ≡ false
    → scan_headers line table (s ++ 13 ∷ d ∷ bytes)
      ≡ scan_headers (line ++ s) table (13 ∷ d ∷ bytes)
unfolding scan_headers
scan_headers-line line [] table d bytes h = ground (arith, append-nil line)
scan_headers-line line (a ∷ []) table d bytes h = ground arith
scan_headers-line line (a ∷ b ∷ s) table d bytes h =
    let rest = scan_headers-line (line ++ a ∷ []) (b ∷ s) table d bytes (ground arith) in
    ground (arith, rest, append_assoc line (a ∷ []) (b ∷ s))

has_byte-append : (b : ℕ) (s t : List ℕ) → has_byte b (s ++ t) ≡ (has_byte b s || has_byte b t)
has_byte-append b [] t = refl
has_byte-append b (c ∷ s) t = ground (arith, has_byte-append b s t)

before_colon-line :
    (key value : List ℕ)
    → has_byte b':' key ≡ false
    → before_colon (key ++ b':' ∷ value) ≡ some (key, value)
unfolding before_colon
before_colon-line [] value h = refl
before_colon-line (c ∷ key) value h = ground (arith, before_colon-line key value)

header_to_cgi-line :
    (key value : List ℕ)
    → IsHeader key value
    → header_to_cgi (header_line key value) ≡ some (key, value)
unfolding header_to_cgi skip_spaces
header_to_cgi-line [] value h = absurd (ground arith)
header_to_cgi-line (k ∷ key) [] h = absurd (ground arith)
header_to_cgi-line (k ∷ key) (v ∷ value) (a, b, c, d, e, f, g, l) =
    ground (arith, before_colon-line (k ∷ key) (b' ' ∷ v ∷ value) c)

is_folded-block :
    (table : List Slot) (headers : List (List ℕ × List ℕ))
    → AreHeaders table headers
    → is_folded (header_block headers) ≡ false
unfolding is_folded
is_folded-block table [] h = refl
is_folded-block table (([], value) ∷ headers) h = absurd (ground arith)
is_folded-block table ((k ∷ key, value) ∷ headers) (h, n, d) = ground arith

-- A block of headers of which no two names are the same to upsgi_strnicmp is read back as it was written:
-- the table has a slot for each header, in order, behind those that were there. A header has a name that is
-- not empty, holds no colon and no CR and begins with no blank, a value that is not empty, holds no CR and
-- begins with no blank, and a line below 64 KiB.
pub scan_headers-header_block :
    (table : List Slot) (headers : List (List ℕ × List ℕ))
    → AreHeaders table headers
    → scan_headers [] table (header_block headers) ≡ some (table ++ map slot_of headers)
unfolding scan_headers is_folded add_line
scan_headers-header_block table [] h = ground (arith, append-nil table)
scan_headers-header_block table (([], value) ∷ headers) h = absurd (ground arith)
scan_headers-header_block table ((k ∷ key, value) ∷ headers) (h, n, hs) =
    let line = header_line (k ∷ key) value in
    let rest = scan_headers-header_block (table ++ slot_of (k ∷ key, value) ∷ []) headers hs in
    let folded = is_folded-block (table ++ slot_of (k ∷ key, value) ∷ []) headers hs in
    let clean : has_byte 13 line ≡ false =
      ground (arith, has_byte-append 13 (k ∷ key) (b':' ∷ b' ' ∷ value), h) in
    ground (
      arith,
      rest,
      folded,
      h,
      n,
      scan_headers-line [] line table 10 (header_block headers) clean,
      header_to_cgi-line (k ∷ key) value h,
      length-append (k ∷ key) (b':' ∷ b' ' ∷ value),
      append_assoc table (slot_of (k ∷ key, value) ∷ []) (map slot_of headers),
    )
