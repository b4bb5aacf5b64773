-- ===== src/Http/Headers.antt =====
-- The header block of a request: the header rules, http_header_to_cgi, the table of the headers, and the two
-- loops of http_parse in proto/http.c. A slot keeps the name and the value as the request spells them.
use upsgi.Common.{
  ℕ, zero, suc, ◌+◌, Bool, true, false, not, ◌&&◌, ◌||◌, List, [], ◌∷◌, ◌++◌, Option, none, some,
  ltb, leb, ◌==◌, if◌then◌else◌, length,
}
use upsgi.Common.Text.{codes}
use upsgi.Buffer.Encode.{bytes16le}
use upsgi.Http.Names.{same_name, header_name_eq, header_normalize_name}

-- the name is one of these, in the spelling of CGI
unfoldable pub is_one_of : List ℕ → List (List ℕ) → Bool
is_one_of key [] = false
is_one_of key (name ∷ names) = header_name_eq key name || is_one_of key names

abbrev pub merged_names : List (List ℕ)
merged_names =
    codes "ACCEPT"
    ∷ codes "ACCEPT_CHARSET"
    ∷ codes "ACCEPT_ENCODING"
    ∷ codes "ACCEPT_LANGUAGE"
    ∷ codes "CACHE_CONTROL"
    ∷ codes "CONNECTION"
    ∷ codes "FORWARDED"
    ∷ codes "IF_MATCH"
    ∷ codes "IF_NONE_MATCH"
    ∷ codes "PRAGMA"
    ∷ codes "TE"
    ∷ codes "TRAILER"
    ∷ codes "UPGRADE"
    ∷ codes "VIA"
    ∷ codes "WARNING"
    ∷ codes "X_FORWARDED_FOR"
    ∷ []

unfoldable pub allow_duplicate_merge : List ℕ → Bool
allow_duplicate_merge key = is_one_of key merged_names

unfoldable pub reject_duplicate : List ℕ → Bool
reject_duplicate key =
    if header_name_eq key (codes "HOST")
    then true
    else if header_name_eq key (codes "CONTENT_LENGTH")
    then true
    else if header_name_eq key (codes "CONTENT_TYPE")
    then true
    else if header_name_eq key (codes "TRANSFER_ENCODING")
    then true
    else not (allow_duplicate_merge key)

-- the bytes before the first colon; nothing without a colon
unfoldable pub before_colon : List ℕ → Option (List ℕ × List ℕ)
before_colon [] = none
before_colon (c ∷ line) =
    if c == b':'
    then some ([], line)
    else elim (before_colon line) [ none ↦ none | some r ↦ some (c ∷ r.0, r.1) ]

unfoldable pub skip_spaces : List ℕ → List ℕ
skip_spaces [] = []
skip_spaces (c ∷ line) = if c == b' ' then skip_spaces line else c ∷ line

unfoldable pub needs_prefix : List ℕ → Bool
needs_prefix key =
    not (same_name key (codes "Content-Length")) && not (same_name key (codes "Content-Type"))

-- name and value; none without a name or without a value
unfoldable pub header_to_cgi : List ℕ → Option (List ℕ × List ℕ)
header_to_cgi line = elim (before_colon line) [
  | none ↦ none
  | some r ↦ elim r.0 [
    | [] ↦ none
    | k ∷ ks ↦ elim (skip_spaces r.1) [ [] ↦ none | v ∷ vs ↦ some (k ∷ ks, v ∷ vs) ]
  ]
]

-- struct http_header_slot
pub record Slot : Type 0 where
  pub key : List ℕ
  pub value : List ℕ
  pub has_prefix : Bool

-- http_header_table_find
unfoldable pub find : List ℕ → List Slot → Option Slot
find key [] = none
find key (slot ∷ table) = if same_name slot.key key then some slot else find key table

-- the value joined to the slot that http_header_table_find returned
unfoldable pub merge : List ℕ → List ℕ → List Slot → List Slot
merge key value [] = []
merge key value (slot ∷ table) =
    if same_name slot.key key
    then record slot { value = slot.value ++ b',' ∷ b' ' ∷ value } ∷ table
    else slot ∷ merge key value table

-- one header line; none where the request is refused
unfoldable pub add_line : List ℕ → List Slot → Option (List Slot)
add_line line table = elim (header_to_cgi line) [
  | none ↦ none
  | some r ↦ elim (find r.0 table) [
    | some slot ↦ if reject_duplicate r.0 then none else some (merge r.0 r.1 table)
    | none ↦ some (table ++ record { key = r.0; value = r.1; has_prefix = needs_prefix r.0 } ∷ [])
  ]
]

-- the next line begins with a blank
unfoldable pub is_folded : List ℕ → Bool
is_folded [] = false
is_folded (c ∷ bytes) = c == 32 || c == 9

-- the first loop, up to the empty line or the end of what was received; `line` is the line so far
unfoldable pub scan_headers : List ℕ → List Slot → List ℕ → Option (List Slot)
scan_headers line table [] = some table
scan_headers line table (c ∷ []) = if c == 13 then none else some table
scan_headers line table (c ∷ d ∷ bytes) = elim (c == 13) [
  | false ↦ scan_headers (line ++ c ∷ []) table (d ∷ bytes)
  | true ↦ if not (d == 10) then none else if is_folded bytes then none else elim line [
    | [] ↦ some table
    | a ∷ rest ↦ if ltb 65535 (length (a ∷ rest)) then none else elim (add_line (a ∷ rest) table) [
      | none ↦ none
      | some table' ↦ scan_headers [] table' bytes
    ]
  ]
]

-- the three scans of http_header_value_has_token
unfoldable pub skip_separators : List ℕ → List ℕ
skip_separators [] = []
skip_separators (c ∷ value) =
    if c == 32 || (c == 9 || c == b',') then skip_separators value else c ∷ value

unfoldable pub token_of : List ℕ → List ℕ
token_of [] = []
token_of (c ∷ value) = if c == b',' || c == b';' then [] else c ∷ token_of value

unfoldable pub skip_to_comma : List ℕ → List ℕ
skip_to_comma [] = []
skip_to_comma (c ∷ value) = if c == b',' then c ∷ value else skip_to_comma value

-- without the blanks at its end
unfoldable pub trim_end : List ℕ → List ℕ
trim_end [] = []
trim_end (c ∷ value) = elim (trim_end value) [
  | [] ↦ if c == 32 || c == 9 then [] else c ∷ []
  | d ∷ rest ↦ c ∷ d ∷ rest
]

-- the loop of http_header_value_has_token on fuel; the token begins with no blank and no comma
unfoldable pub has_token_from : ℕ → List ℕ → List ℕ → Bool
has_token_from zero token value = false
has_token_from (suc fuel) token value = elim (skip_separators value) [
  | [] ↦ false
  | c ∷ rest ↦
      same_name (trim_end (token_of (c ∷ rest))) token
      || has_token_from fuel token (skip_to_comma (c ∷ rest))
]

unfoldable pub has_token : List ℕ → List ℕ → Bool
has_token token value = has_token_from (length value) token value

unfoldable pub is_content_length : Slot → Bool
is_content_length slot = same_name slot.key (codes "Content-Length")

unfoldable pub is_chunked : Slot → Bool
is_chunked slot =
    same_name slot.key (codes "Transfer-Encoding") && has_token (codes "chunked") slot.value

-- saw_content_length and saw_chunked_transfer_encoding behind a slot; none where they clash
unfoldable pub note_framing : Slot → Bool × Bool → Option (Bool × Bool)
note_framing slot saw =
    if is_content_length slot
    then if saw.1 then none else some (true, saw.1)
    else if is_chunked slot
    then if saw.0 then none else some (saw.0, true)
    else some saw

-- http_add_upsgi_header: `packet` is what the buffer of `buffer_size` bytes holds; none without room
unfoldable pub add_upsgi_header : ℕ → List ℕ → Slot → Option (List ℕ)
add_upsgi_header buffer_size packet slot =
    let name =
      if slot.has_prefix
      then codes "HTTP_" ++ header_normalize_name slot.key
      else header_normalize_name slot.key in
    let keylen = if slot.has_prefix then length slot.key + 5 else length slot.key in
    let hvlen = length slot.value in
    if leb buffer_size (length packet + keylen + hvlen + 2 + 2)
    then none
    else some (packet ++ (bytes16le keylen ++ (name ++ (bytes16le hvlen ++ slot.value))))

-- the second loop
unfoldable pub emit_headers : ℕ → Bool × Bool → List ℕ → List Slot → Option (List ℕ)
emit_headers buffer_size saw packet [] = some packet
emit_headers buffer_size saw packet (slot ∷ table) = elim (note_framing slot saw) [
  | none ↦ none
  | some saw' ↦ elim (add_upsgi_header buffer_size packet slot) [
    | none ↦ none
    | some packet' ↦ emit_headers buffer_size saw' packet' table
  ]
]

-- the header block, behind the variables that `packet` holds
unfoldable pub parse_headers : ℕ → List ℕ → List ℕ → Option (List ℕ)
parse_headers buffer_size packet bytes = elim (scan_headers [] [] bytes) [
  | none ↦ none
  | some table ↦ emit_headers buffer_size (false, false) packet table
]
