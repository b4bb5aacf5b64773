-- ===== src/Http/Names.antt =====
-- Header names and values of proto/http.c. strncasecmp() is that of the C locale.
use upsgi.Common.{
  ℕ, ◌+◌, ◌-◌, Bool, true, false, ◌&&◌, length, List, [], ◌∷◌, leb, ◌==◌, if◌then◌else◌,
}

abbrev pub lower : ℕ → ℕ
lower c = if leb b'A' c && leb c b'Z' then c + 32 else c

-- !upsgi_strnicmp(): the lengths are equal, and strncasecmp() compares no byte behind a NUL
unfoldable pub same_name : List ℕ → List ℕ → Bool
same_name [] [] = true
same_name (x ∷ xs) (y ∷ ys) =
    let rest = same_name xs ys in
    lower x == lower y && (if x == 0 then length xs == length ys else rest)
same_name [] (y ∷ ys) = false
same_name (x ∷ xs) [] = false

-- one byte of a header name as a CGI variable spells it
abbrev pub normal : ℕ → ℕ
normal c = let u = if leb b'a' c && leb c b'z' then c - 32 else c in if u == b'-' then b'_' else u

unfoldable pub header_name_eq : List ℕ → List ℕ → Bool
header_name_eq [] [] = true
header_name_eq (c ∷ key) (n ∷ normalized) = normal c == n && header_name_eq key normalized
header_name_eq [] (n ∷ normalized) = false
header_name_eq (c ∷ key) [] = false

-- the same spelling, as a copy
unfoldable pub header_normalize_name : List ℕ → List ℕ
header_normalize_name [] = []
header_normalize_name (c ∷ key) = normal c ∷ header_normalize_name key
