-- ===== src/Http/Fields.antt =====
-- The packet that the second loop over the headers of http_parse writes.
use upsgi.Common.{
  chain-some, ℕ, ◌+◌, ◌<◌, ◌≡◌, refl, ap, ◌∙◌, arith, Bool, false, List, [], ◌∷◌, ◌++◌, map, some,
  if◌then◌else◌, length, length-append, append_assoc, append-nil,
}
use upsgi.Common.Text.{codes}
use upsgi.Buffer.Encode.{bytes16le}
use upsgi.Wire.RoundTrip.{keyval, packet}
use upsgi.Http.Names.{header_normalize_name}
use upsgi.Http.Headers.{Slot, add_upsgi_header, emit_headers, parse_headers, scan_headers}
use upsgi.Http.Smuggling.{emit_headers-cons}

-- the name of the CGI variable of a slot
abbrev pub cgi_name : Slot → List ℕ
cgi_name slot =
    if slot.has_prefix
    then codes "HTTP_" ++ header_normalize_name slot.key
    else header_normalize_name slot.key

abbrev pub cgi_var : Slot → List ℕ × List ℕ
cgi_var slot = (cgi_name slot, slot.value)

length-header_normalize_name : (key : List ℕ) → length (header_normalize_name key) ≡ length key
unfolding header_normalize_name
length-header_normalize_name [] = refl
length-header_normalize_name (c ∷ key) = ground (arith, length-header_normalize_name key)

pub length-cgi_name :
    (slot : Slot)
    → length (cgi_name slot) ≡ (if slot.has_prefix then length slot.key + 5 else length slot.key)
length-cgi_name slot = ground (
  arith,
  length-header_normalize_name slot.key,
  length-append (codes "HTTP_") (header_normalize_name slot.key),
)

length-keyval : (key val : List ℕ) → length (keyval key val) ≡ length key + length val + 4
length-keyval key val = omega (arith, length-append key (bytes16le (length val) ++ val))

add_upsgi_header-keyval :
    (n : ℕ) (buf : List ℕ) (slot : Slot) {buf' : List ℕ}
    → add_upsgi_header n buf slot ≡ some buf'
    → (buf' ≡ buf ++ keyval (cgi_name slot) slot.value) × (length buf' < n)
unfolding add_upsgi_header
add_upsgi_header-keyval n buf slot e = ground (
  arith,
  length-cgi_name slot,
  length-append buf (keyval (cgi_name slot) slot.value),
  length-keyval (cgi_name slot) slot.value,
)

-- The packet of a table that is emitted: the variables of its headers in order behind what the buffer held,
-- within the buffer.
emit_headers-packet :
    (n : ℕ) (saw : Bool × Bool) (buf : List ℕ) (table : List Slot) {out : List ℕ}
    → emit_headers n saw buf table ≡ some out
    → (out ≡ buf ++ packet (map cgi_var table)) × (length buf < n → length out < n)
unfolding emit_headers
emit_headers-packet n saw buf [] e = ground (arith, append-nil buf)
emit_headers-packet n saw buf (slot ∷ table) e =
    let (saw', buf', a, b, e') = emit_headers-cons n saw buf slot table e in
    let (p, q) = add_upsgi_header-keyval n buf slot b in
    let (p', q') = emit_headers-packet n saw' buf' table e' in
    (p' ∙ ap (λ l. l ++ packet (map cgi_var table)) p ∙ simp append_assoc, λ h. q' q)

-- An accepted header block leaves behind the variables that were there a packet of
-- one variable for each slot of the table, in order, and the whole stays below the buffer's size.
pub parse_headers-packet :
    (buffer_size : ℕ) (buf bytes : List ℕ) {out : List ℕ}
    → length buf < buffer_size
    → parse_headers buffer_size buf bytes ≡ some out
    → (table : List Slot) × (scan_headers [] [] bytes ≡ some table)
      × (out ≡ buf ++ packet (map cgi_var table))
      × (length out < buffer_size)
unfolding parse_headers
parse_headers-packet n buf bytes h e =
    let (table, a, e') =
      chain-some (scan_headers [] [] bytes) (emit_headers n (false, false) buf) e in
    let (p, q) = emit_headers-packet n (false, false) buf table e' in (table, a, p, q h)
