-- ===== src/Http/Named.antt =====
-- The header block of http_parse, read by the packet parser of core/protocol.c.
use upsgi.Common.{
  ℕ, suc, ◌+◌, ◌^◌, ◌≤◌, ◌<◌, ◌≡◌, refl, ap, ◌∙◌, arith, Bool, true, ◌&&◌, List, [], ◌∷◌, ◌++◌, map,
  Option, none, some, ltb, if◌then◌else◌, length, length-append,
}
use upsgi.Buffer.Encode.{bytes16le}
use upsgi.Wire.Parse.{parsed, hooked_parse}
use upsgi.Wire.RoundTrip.{packet, IsPacket, hooked_parse-packet}
use upsgi.Http.Headers.{
  Slot, find, merge, add_line, header_to_cgi, needs_prefix, scan_headers, parse_headers,
  reject_duplicate,
}
use upsgi.Http.Fields.{cgi_name, cgi_var, length-cgi_name, parse_headers-packet}

-- no slot has an empty name
abbrev named : List Slot → Bool
named [] = true
named (slot ∷ table) = ltb 0 (length slot.key) && named table

named-merge :
    (key value : List ℕ) (table : List Slot)
    → named table ≡ true
    → named (merge key value table) ≡ true
unfolding merge
named-merge key value [] d = d
named-merge key value (slot ∷ table) d = ground (arith, named-merge key value table)

named-append :
    (table : List Slot) (slot : Slot)
    → named table ≡ true
    → 0 < length slot.key
    → named (table ++ slot ∷ []) ≡ true
named-append [] slot d e = ground arith
named-append (s ∷ table) slot d e = ground (arith, named-append table slot)

-- a step of the first loop keeps the names
keeps_named : Option (List Slot) → Bool
keeps_named none = true
keeps_named (some table) = named table

has_name : Option (List ℕ × List ℕ) → Bool
has_name none = true
has_name (some r) = ltb 0 (length r.0)

header_to_cgi-has_name : (line : List ℕ) → has_name (header_to_cgi line) ≡ true
unfolding header_to_cgi has_name
header_to_cgi-has_name line = ground arith

add_line-named :
    (line : List ℕ) (table : List Slot)
    → named table ≡ true
    → keeps_named (add_line line table) ≡ true
unfolding add_line keeps_named has_name
add_line-named line table d =
    elim (header_to_cgi line)
        as (λ o.
          has_name o ≡ true
          → keeps_named (elim o [ none ↦ none | some r ↦ stored r (find r.0 table) ]) ≡ true) [
            | none ↦ λ h. refl
            | some r ↦ λ h. kept r (find r.0 table) h
          ]
      (header_to_cgi-has_name line)
  where
    stored : List ℕ × List ℕ → Option Slot → Option (List Slot)
    stored r o = elim o [
      | some slot ↦ if reject_duplicate r.0 then none else some (merge r.0 r.1 table)
      | none ↦ some (table ++ record { key = r.0; value = r.1; has_prefix = needs_prefix r.0 } ∷ [])
    ]

    kept :
        (r : List ℕ × List ℕ) (o : Option Slot)
        → has_name (some r) ≡ true
        → keeps_named (stored r o) ≡ true
    kept r none h =
        named-append table (record { key = r.0; value = r.1; has_prefix = needs_prefix r.0 }) d
          (ground arith)
    kept r (some slot) h = ground (arith, named-merge r.0 r.1 table)

scan_headers-named :
    (line : List ℕ) (table : List Slot) (bytes : List ℕ)
    → named table ≡ true
    → keeps_named (scan_headers line table bytes) ≡ true
unfolding scan_headers keeps_named
scan_headers-named line table [] d = d
scan_headers-named line table (c ∷ []) d = ground arith
scan_headers-named [] table (c ∷ b ∷ bytes) d =
    let more = scan_headers-named (c ∷ []) table (b ∷ bytes) d in ground (arith, more)
scan_headers-named (a ∷ line) table (c ∷ b ∷ bytes) d =
    let more = scan_headers-named (a ∷ line ++ c ∷ []) table (b ∷ bytes) d in
    let one = add_line-named (a ∷ line) table d in
    let table' : List Slot = elim (add_line (a ∷ line) table) [ none ↦ [] | some t ↦ t ] in
    let next = scan_headers-named [] table' bytes in ground (arith, more, one, next)

length-packet-cons :
    (key val : List ℕ) (vars : List (List ℕ × List ℕ))
    → length (packet ((key, val) ∷ vars)) ≡ length key + length val + length (packet vars) + 4
length-packet-cons key val vars = omega (
  arith,
  length-append key (bytes16le (length val) ++ (val ++ packet vars)),
  length-append val (packet vars),
)

-- a short packet of named slots is one that the packet parser reads
map-IsPacket :
    (table : List Slot)
    → named table ≡ true
    → length (packet (map cgi_var table)) < 2 ^ 16
    → IsPacket (map cgi_var table)
      × (length (map cgi_var table) ≤ length (packet (map cgi_var table)))
map-IsPacket [] n h = ground arith
map-IsPacket (slot ∷ table) n h =
    let size = length-packet-cons (cgi_name slot) slot.value (map cgi_var table) in
    let (rest, few) = map-IsPacket table (ground arith) (omega (arith, size, h)) in
    (
      (
        ground (arith, n, length-cgi_name slot),
        omega (arith, size, h),
        omega (arith, size, h),
        rest,
      ),
      omega (arith, size, few),
    )

-- What an accepted header block leaves in a buffer of at most 2 ^ 16 bytes that was empty, the packet parser
-- reads as the CGI variables of the table's slots, in order; a unit of fuel for each byte and one more is
-- enough.
pub parse_headers-hooked_parse :
    (buffer_size : ℕ) (bytes : List ℕ) {out : List ℕ}
    → 0 < buffer_size
    → buffer_size ≤ 2 ^ 16
    → parse_headers buffer_size [] bytes ≡ some out
    → (table : List Slot) × (scan_headers [] [] bytes ≡ some table)
      × (hooked_parse (suc (length out)) out ≡ parsed (map cgi_var table))
unfolding keeps_named
parse_headers-hooked_parse n bytes {out} p q e =
    let (table, a, b, l) = parse_headers-packet n [] bytes p e in
    let all = scan_headers-named [] [] bytes refl in
    let size : length out ≡ length (packet (map cgi_var table)) = ap length b in
    let (good, few) = map-IsPacket table (ground (arith, all, a)) (omega (arith, size, l, q)) in
    let read =
      hooked_parse-packet (map cgi_var table) (suc (length out)) good (omega (arith, size, few)) in
    (table, a, ap (hooked_parse (suc (length out))) b ∙ read)
