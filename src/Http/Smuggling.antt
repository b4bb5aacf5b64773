-- ===== src/Http/Smuggling.antt =====
-- What the two loops over the headers of http_parse refuse.
use upsgi.Common.{
  chain-some, ℕ, ◌≡◌, refl, arith, Bool, true, false, not, ◌&&◌, ◌||◌, List, [], ◌∷◌, none, some,
  length,
}
use upsgi.Common.Text.{codes}
use upsgi.Http.Names.{same_name}
use upsgi.Http.Headers.{
  Slot, scan_headers, is_content_length, is_chunked, note_framing, add_upsgi_header, emit_headers,
  parse_headers,
}

-- some slot of the table satisfies the test
abbrev pub has_slot : (Slot → Bool) → List Slot → Bool
has_slot test [] = false
has_slot test (slot ∷ table) = test slot || has_slot test table

-- chunked Transfer-Encoding in a slot that is not a Content-Length
abbrev pub is_framing_chunked : Slot → Bool
is_framing_chunked slot = not (is_content_length slot) && is_chunked slot

-- one turn of the second loop that goes on
pub emit_headers-cons :
    (n : ℕ) (saw : Bool × Bool) (packet : List ℕ) (slot : Slot) (table : List Slot) {out : List ℕ}
    → emit_headers n saw packet (slot ∷ table) ≡ some out
    → (saw' : Bool × Bool) × (packet' : List ℕ) × (note_framing slot saw ≡ some saw')
      × (add_upsgi_header n packet slot ≡ some packet')
      × (emit_headers n saw' packet' table ≡ some out)
unfolding emit_headers
emit_headers-cons n saw packet slot table e =
    let (saw', a, e') =
      chain-some (note_framing slot saw)
        (λ s. elim (add_upsgi_header n packet slot) [
          | none ↦ none
          | some p ↦ emit_headers n s p table
        ])
        e in
    let (packet', b, e2) =
      chain-some (add_upsgi_header n packet slot) (λ p. emit_headers n saw' p table) e' in
    (saw', packet', a, b, e2)

note_framing-saw :
    (slot : Slot) (saw : Bool × Bool) {saw' : Bool × Bool}
    → (saw.0 && saw.1) ≡ false
    → note_framing slot saw ≡ some saw'
    → ((saw'.0 && saw'.1) ≡ false)
      × (saw'.0 ≡ (saw.0 || is_content_length slot))
      × (saw'.1 ≡ (saw.1 || is_framing_chunked slot))
unfolding note_framing
note_framing-saw slot saw h e = ground arith

emit_headers-framing :
    (n : ℕ) (saw : Bool × Bool) (packet : List ℕ) (table : List Slot) {out : List ℕ}
    → (saw.0 && saw.1) ≡ false
    → emit_headers n saw packet table ≡ some out
    → ((saw.0 || has_slot is_content_length table) && (saw.1 || has_slot is_framing_chunked table))
      ≡ false
unfolding emit_headers
emit_headers-framing n saw packet [] h e = ground arith
emit_headers-framing n saw packet (slot ∷ table) h e =
    let (saw', packet', a, b, e') = emit_headers-cons n saw packet slot table e in
    let (h', p, q) = note_framing-saw slot saw h a in
    let rest = emit_headers-framing n saw' packet' table h' e' in ground (arith, p, q, rest)

length-same_name : (key name : List ℕ) → same_name key name ≡ true → length key ≡ length name
unfolding same_name
length-same_name [] [] e = refl
length-same_name [] (y ∷ ys) e = absurd (grind arith)
length-same_name (x ∷ xs) [] e = absurd (grind arith)
length-same_name (x ∷ xs) (y ∷ ys) e = ground (arith, length-same_name xs ys)

-- a slot with the name of one has not the name of the other
is_framing_chunked-is_chunked : (slot : Slot) → is_framing_chunked slot ≡ is_chunked slot
unfolding is_content_length is_chunked
is_framing_chunked-is_chunked slot = ground (
  arith,
  length-same_name slot.key (codes "Content-Length"),
  length-same_name slot.key (codes "Transfer-Encoding"),
)

has_slot-is_framing_chunked :
    (table : List Slot) → has_slot is_framing_chunked table ≡ has_slot is_chunked table
has_slot-is_framing_chunked [] = refl
has_slot-is_framing_chunked (slot ∷ table) =
    let rest = has_slot-is_framing_chunked table in
    ground (arith, is_framing_chunked-is_chunked slot, rest)

-- A header block that is accepted has no chunked Transfer-Encoding beside a Content-Length, in either order.
pub parse_headers-framing :
    (buffer_size : ℕ) (packet bytes : List ℕ) {out : List ℕ}
    → parse_headers buffer_size packet bytes ≡ some out
    → (table : List Slot) × (scan_headers [] [] bytes ≡ some table)
      × ((has_slot is_content_length table && has_slot is_chunked table) ≡ false)
unfolding parse_headers
parse_headers-framing n packet bytes e =
    let (table, a, e') =
      chain-some (scan_headers [] [] bytes) (emit_headers n (false, false) packet) e in
    let framing = emit_headers-framing n (false, false) packet table refl e' in
    (table, a, ground (arith, framing, has_slot-is_framing_chunked table))
