-- ===== src/Wire/RoundTrip.antt =====
-- The parsers of core/protocol.c against the packets that upsgi_buffer_append_keyval writes.
use upsgi.Common.{
  ℕ, zero, suc, ◌^◌, ◌<◌, ◌≡◌, refl, ap, ◌∙◌, Bool, List, [], ◌∷◌, ◌++◌, arith, length,
  length-append, take_append, drop_append, append_assoc,
}
use upsgi.Buffer.Ops.{Buffer, done, append}
use upsgi.Buffer.Encode.{bytes16le, u16le, append_keyval}
use upsgi.Buffer.Memory.{append-bytes, >>=-eq-done}
use upsgi.Wire.Parse.{Parsed, parsed, called, read16, hooked_value, hooked_parse}

-- One variable of a packet, and a packet of them.
abbrev pub keyval : List ℕ → List ℕ → List ℕ
keyval key val = bytes16le (length key) ++ (key ++ (bytes16le (length val) ++ val))

abbrev pub packet : List (List ℕ × List ℕ) → List ℕ
packet [] = []
packet ((key, val) ∷ vars) =
    bytes16le (length key) ++ (key ++ (bytes16le (length val) ++ (val ++ packet vars)))

-- The lengths fit in 16 bits, and no key is empty.
abbrev pub IsPacket : List (List ℕ × List ℕ) → Type 0
IsPacket [] = Unit
IsPacket ((key, val) ∷ vars) =
    (0 < length key) × (length key < 2 ^ 16) × (length val < 2 ^ 16) × IsPacket vars

-- A successful append_keyval adds one variable of a packet behind the old bytes.
pub append_keyval-keyval :
    (page_size : ℕ) (alloc : ℕ → Bool) (ub : Buffer) (key val : List ℕ) {b : Buffer}
    → append_keyval page_size alloc ub key val ≡ done b
    → b.bytes ≡ ub.bytes ++ keyval key val
unfolding append_keyval u16le
append_keyval-keyval page_size alloc ub key val h =
    let (a1, e1, h1) = >>=-eq-done (append page_size alloc ub (bytes16le (length key))) _ h in
    let (a2, e2, h2) = >>=-eq-done (append page_size alloc a1 key) _ h1 in
    let (a3, e3, h3) = >>=-eq-done (append page_size alloc a2 (bytes16le (length val))) _ h2 in
    append-bytes page_size alloc a3 val h3
    ∙ ap (λ l. l ++ val) (append-bytes page_size alloc a2 (bytes16le (length val)) e3)
    ∙ ap (λ l. (l ++ bytes16le (length val)) ++ val) (append-bytes page_size alloc a1 key e2)
    ∙ ap (λ l. ((l ++ key) ++ bytes16le (length val)) ++ val)
        (append-bytes page_size alloc ub (bytes16le (length key)) e1)
    ∙ simp append_assoc

pub read16-bytes16le : (n : ℕ) (rest : List ℕ) → n < 2 ^ 16 → read16 (bytes16le n ++ rest) ≡ n
unfolding read16
read16-bytes16le n rest h = omega arith

hooked_value-value :
    (key val rest : List ℕ) (next : List ℕ → Parsed (List ℕ × List ℕ))
    → length val < 2 ^ 16
    → hooked_value key next (bytes16le (length val) ++ (val ++ rest))
      ≡ called (key, val) (next rest)
unfolding hooked_value
hooked_value-value key val rest next h = ground (
  arith,
  read16-bytes16le (length val) (val ++ rest) h,
  take_append val rest,
  drop_append val rest,
  length-append val rest,
)

hooked_parse-cons :
    (fuel : ℕ) (key val rest : List ℕ)
    → 0 < length key
    → length key < 2 ^ 16
    → length val < 2 ^ 16
    → hooked_parse
        (suc fuel)
        (bytes16le (length key) ++ (key ++ (bytes16le (length val) ++ (val ++ rest))))
      ≡ called (key, val) (hooked_parse fuel rest)
unfolding hooked_parse
hooked_parse-cons fuel key val rest p hk hv =
    let tail = bytes16le (length val) ++ (val ++ rest) in
    ground (
      arith,
      read16-bytes16le (length key) (key ++ tail) hk,
      take_append key tail,
      drop_append key tail,
      length-append key tail,
      hooked_value-value key val rest (hooked_parse fuel) hv,
    )

-- Parsing a packet calls the hook with its variables in order; a unit of fuel for each and one more is
-- enough.
pub hooked_parse-packet :
    (vars : List (List ℕ × List ℕ)) (fuel : ℕ)
    → IsPacket vars
    → length vars < fuel
    → hooked_parse fuel (packet vars) ≡ parsed vars
unfolding hooked_parse
hooked_parse-packet vars zero p h = absurd (omega arith)
hooked_parse-packet [] (suc fuel) p h = refl
hooked_parse-packet ((key, val) ∷ vars) (suc fuel) (a, b, c, p) h =
    hooked_parse-cons fuel key val (packet vars) a b c
    ∙ ap (called (key, val)) (hooked_parse-packet vars fuel p (omega arith))
