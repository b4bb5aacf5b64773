-- ===== src/Http/Path.antt =====
-- PATH_INFO: http_path_needs_decode and http_add_path_info of proto/http.c, and http_url_decode4 and
-- hex2num of core/utils.c. `out` holds what was written to `dst`, the last byte first.
use upsgi.Common.{
  ℕ, ◌+◌, ◌*◌, ◌%◌, Bool, false, not, ◌&&◌, ◌||◌, List, [], ◌∷◌, ltb, leb, ◌==◌, if◌then◌else◌,
  rev_onto,
}

-- the low four bits of a hexadecimal digit; hex2num gives up with 0 on any other byte
abbrev pub is_hex : ℕ → Bool
is_hex c = (leb b'0' c && leb c b'9') || ((leb b'A' c && leb c b'F') || (leb b'a' c && leb c b'f'))

abbrev nibble : ℕ → ℕ
nibble c = if leb c b'9' then c % 16 else c % 16 + 9

unfoldable pub hex2num : ℕ → ℕ → ℕ
hex2num a b = if not (is_hex a) then 0 else if not (is_hex b) then 0 else nibble a * 16 + nibble b

pub data Status : Type 0 where
  zero_status percent1 slash dot dotdot : Status
  percent2 : ℕ → Status

-- the removal of a segment with its slash, in the loop
unfoldable pub drop_segment : List ℕ → List ℕ
drop_segment [] = []
drop_segment (c ∷ out) = let rest = drop_segment out in if c == b'/' then out else rest

-- the removal of a segment up to its slash, at the end
unfoldable pub drop_last : List ℕ → List ℕ
drop_last [] = []
drop_last (c ∷ out) = let rest = drop_last out in if c == b'/' then c ∷ out else rest

-- one byte of the path: the next status, and what has been written; `i` is its index
unfoldable pub decode_byte : Bool → Bool → ℕ → ℕ → Status → List ℕ → Status × List ℕ
decode_byte no_slash_decode no_slash i c zero_status out =
    if c == b'%'
    then (percent1, out)
    else if c == b'/'
    then (slash, out)
    else (zero_status, c ∷ out)
decode_byte no_slash_decode no_slash i c percent1 out =
    if c == b'%' then (zero_status, b'%' ∷ out) else (percent2 c, out)
decode_byte no_slash_decode no_slash i c (percent2 v) out =
    if no_slash_decode && (v == b'2' && (c == b'F' || c == b'f'))
    then (zero_status, c ∷ v ∷ b'%' ∷ out)
    else (zero_status, hex2num v c ∷ out)
decode_byte no_slash_decode no_slash i c slash out =
    let out' = if ltb 0 i || not no_slash then b'/' ∷ out else out in
    if c == b'.'
    then (dot, out)
    else if c == b'%'
    then (percent1, out')
    else if c == b'/'
    then (slash, out')
    else (zero_status, c ∷ out')
decode_byte no_slash_decode no_slash i c dot out =
    let out' = if ltb 1 i then b'.' ∷ b'/' ∷ out else b'.' ∷ out in
    if c == b'.'
    then (dotdot, out)
    else if c == b'/'
    then (slash, out)
    else if c == b'%'
    then (percent1, out')
    else (zero_status, c ∷ out')
decode_byte no_slash_decode no_slash i c dotdot out =
    let out' = if ltb 2 i then b'.' ∷ b'.' ∷ b'/' ∷ out else b'.' ∷ b'.' ∷ out in
    if c == b'/'
    then (slash, drop_segment out)
    else if c == b'%'
    then (percent1, out')
    else (zero_status, c ∷ out')

-- the switch behind the loop
unfoldable pub decode_end : Status → List ℕ → List ℕ
decode_end slash out = b'/' ∷ out
decode_end dot out = b'/' ∷ out
decode_end dotdot out = drop_last out
decode_end zero_status out = out
decode_end percent1 out = out
decode_end (percent2 v) out = out

unfoldable pub decode_from : Bool → Bool → ℕ → Status → List ℕ → List ℕ → List ℕ
decode_from no_slash_decode no_slash i status out [] = decode_end status out
decode_from no_slash_decode no_slash i status out (c ∷ path) =
    let (status', out') = decode_byte no_slash_decode no_slash i c status out in
    let rest = decode_from no_slash_decode no_slash (i + 1) status' out' path in
    if c == b'#' then decode_end status out else rest

-- the path begins with something else than a slash
abbrev pub is_relative : List ℕ → Bool
is_relative [] = false
is_relative (c ∷ path) = not (c == b'/')

unfoldable pub url_decode : Bool → List ℕ → List ℕ
url_decode no_slash_decode path =
    let relative = is_relative path in
    rev_onto
      (decode_from no_slash_decode relative 0 (if relative then slash else zero_status) [] path) []

-- what follows a slash at which the scan of http_path_needs_decode stops
unfoldable pub special_segment : List ℕ → Bool
special_segment [] = false
special_segment (a ∷ []) = a == b'/' || a == b'.'
special_segment (a ∷ b ∷ []) = a == b'/' || (a == b'.' && (b == b'/' || b == b'.'))
special_segment (a ∷ b ∷ c ∷ path) =
    a == b'/' || (a == b'.' && (b == b'/' || (b == b'.' && c == b'/')))

unfoldable pub needs_decode_from : List ℕ → Bool
needs_decode_from [] = false
needs_decode_from (c ∷ path) =
    c == b'%' || (c == b'#' || ((c == b'/' && special_segment path) || needs_decode_from path))

unfoldable pub path_needs_decode : List ℕ → Bool
path_needs_decode [] = false
path_needs_decode (c ∷ path) = not (c == b'/') || needs_decode_from (c ∷ path)

-- the value of PATH_INFO that http_add_path_info adds
unfoldable pub path_info : Bool → List ℕ → List ℕ
path_info no_slash_decode path =
    if not (path_needs_decode path) then path else url_decode no_slash_decode path
