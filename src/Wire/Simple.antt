-- ===== src/Wire/Simple.antt =====
-- upsgi_simple_parse_vars and the array parsers of core/protocol.c.
use upsgi.Common.{
  ℕ, zero, suc, ◌+◌, ◌-◌, ◌*◌, ◌^◌, ◌≤◌, ◌<◌, ◌≡◌, refl, ap, ◌∙◌, List, [], ◌∷◌, ◌++◌, arith,
  length, length-append, take_append, drop_append,
}
use upsgi.Buffer.Encode.{bytes16le}
use upsgi.Wire.Parse.{
  Parsed, parsed, stuck, called, hooked_parse_array, parse_array, simple_value, simple_parse_vars,
}
use upsgi.Wire.RoundTrip.{IsPacket, read16-bytes16le}

-- The iovecs of a list of variables: each key and each value.
abbrev pub iovecs : List (List ℕ × List ℕ) → List (List ℕ)
iovecs [] = []
iovecs ((key, val) ∷ vars) = key ∷ val ∷ iovecs vars

abbrev pub called_all : {A : Type 0} → List A → Parsed A → Parsed A
called_all [] r = r
called_all (a ∷ l) r = called a (called_all l r)

simple_value-value :
    (room : ℕ) (key val rest : List ℕ) (next : ℕ → List ℕ → Parsed (List ℕ))
    → length val < 2 ^ 16
    → 2 ≤ room
    → simple_value room key next (bytes16le (length val) ++ (val ++ rest))
      ≡ called key (called val (next (room - 2) rest))
unfolding simple_value
simple_value-value room key val rest next h r = ground (
  arith,
  read16-bytes16le (length val) (val ++ rest) h,
  take_append val rest,
  drop_append val rest,
  length-append val rest,
)

simple_parse_vars-cons :
    (fuel room : ℕ) (key val rest : List ℕ)
    → 0 < length key
    → length key < 2 ^ 16
    → length val < 2 ^ 16
    → 2 ≤ room
    → simple_parse_vars
        (suc fuel)
        room
        (bytes16le (length key) ++ (key ++ (bytes16le (length val) ++ (val ++ rest))))
      ≡ called key (called val (simple_parse_vars fuel (room - 2) rest))
unfolding simple_parse_vars
simple_parse_vars-cons fuel room key val rest p hk hv r =
    let tail = bytes16le (length val) ++ (val ++ rest) in
    ground (
      arith,
      read16-bytes16le (length key) (key ++ tail) hk,
      take_append key tail,
      drop_append key tail,
      length-append key tail,
      simple_value-value room key val rest (simple_parse_vars fuel) hv r,
    )

-- A packet with more bytes behind it.
abbrev pub packet_then : List (List ℕ × List ℕ) → List ℕ → List ℕ
packet_then [] rest = rest
packet_then ((key, val) ∷ vars) rest =
    bytes16le (length key) ++ (key ++ (bytes16le (length val) ++ (val ++ packet_then vars rest)))

simple_parse_vars-packet_then :
    (vars : List (List ℕ × List ℕ)) (fuel f room left : ℕ) (rest : List ℕ)
    → IsPacket vars
    → fuel ≡ length vars + f
    → room ≡ 2 * length vars + left
    → simple_parse_vars fuel room (packet_then vars rest)
      ≡ called_all (iovecs vars) (simple_parse_vars f left rest)
simple_parse_vars-packet_then [] fuel f room left rest p e r =
    let e' : fuel ≡ f = omega arith in let r' : room ≡ left = omega arith in rw (e', r')
simple_parse_vars-packet_then ((key, val) ∷ vars) zero f room left rest p e r = absurd (omega arith)
simple_parse_vars-packet_then ((key, val) ∷ vars) (suc fuel) f room left rest (a, b, c, p) e r =
    simple_parse_vars-cons fuel room key val (packet_then vars rest) a b c (omega arith)
    ∙ ap (λ x. called key (called val x))
        (simple_parse_vars-packet_then vars fuel f (room - 2) left rest p (omega arith)
          (omega arith))

-- Parsing a packet whose keys and values fit into the iovecs yields them in order.
pub simple_parse_vars-packet :
    (vars : List (List ℕ × List ℕ)) (room : ℕ)
    → IsPacket vars
    → 2 * length vars ≤ room
    → simple_parse_vars (length vars + 1) room (packet_then vars []) ≡ parsed (iovecs vars)
simple_parse_vars-packet vars room p h =
    simple_parse_vars-packet_then vars (length vars + 1) 1 room (room - 2 * length vars) [] p refl
      (omega arith)
    ∙ all_parsed (iovecs vars) (room - 2 * length vars)
  where
    all_parsed :
        (l : List (List ℕ)) (left : ℕ) → called_all l (simple_parse_vars 1 left []) ≡ parsed l
    all_parsed [] left = unfold simple_parse_vars in refl
    all_parsed (x ∷ l) left = rw (all_parsed l left)

-- One or two bytes at the end are never consumed.
simple_parse_vars-short :
    (fuel room : ℕ) (rest : List ℕ)
    → 0 < length rest
    → length rest ≤ 2
    → simple_parse_vars fuel room rest ≡ stuck
unfolding simple_parse_vars
simple_parse_vars-short zero room rest p h = refl
simple_parse_vars-short (suc fuel) room rest p h =
    ground (arith, simple_parse_vars-short fuel room rest p h)

-- upsgi_simple_parse_vars never finishes a packet with one or two bytes behind it when the iovecs have room
-- for all of its keys and values: whatever the fuel, the loop runs out of it, so the loop of the code does
-- not end.
pub simple_parse_vars-stuck :
    (vars : List (List ℕ × List ℕ)) (extra room : ℕ) (rest : List ℕ)
    → IsPacket vars
    → 2 * length vars ≤ room
    → 0 < length rest
    → length rest ≤ 2
    → simple_parse_vars (length vars + extra) room (packet_then vars rest) ≡ stuck
simple_parse_vars-stuck vars extra room rest p h pos short =
    simple_parse_vars-packet_then vars (length vars + extra) extra room (room - 2 * length vars)
      rest p refl (omega arith)
    ∙ rw (simple_parse_vars-short extra (room - 2 * length vars) rest pos short)
        (all_stuck (iovecs vars))
  where
    all_stuck : (l : List (List ℕ)) → called_all l stuck ≡ stuck
    all_stuck [] = refl
    all_stuck (x ∷ l) = rw (all_stuck l)

-- The array of some items, each behind its length.
abbrev pub array : List (List ℕ) → List ℕ
array [] = []
array (item ∷ items) = bytes16le (length item) ++ (item ++ array items)

abbrev pub AreItems : List (List ℕ) → Type 0
AreItems [] = Unit
AreItems (item ∷ items) = (0 < length item) × (length item < 2 ^ 16) × AreItems items

-- Both array parsers read an array of non-empty items back, in order, if upsgi_parse_array has room for
-- them.
pub array_parsers-array :
    (items : List (List ℕ)) (fuel room : ℕ)
    → AreItems items
    → length items < fuel
    → length items ≤ room
    → (hooked_parse_array fuel (array items) ≡ parsed items)
      × (parse_array fuel room (array items) ≡ parsed items)
unfolding hooked_parse_array parse_array
array_parsers-array items zero room a h r = absurd (omega arith)
array_parsers-array [] (suc fuel) zero a h r = (refl, refl)
array_parsers-array [] (suc fuel) (suc room) a h r = (refl, refl)
array_parsers-array (item ∷ items) (suc fuel) zero a h r = absurd (omega arith)
array_parsers-array (item ∷ items) (suc fuel) (suc room) (p, s, a) h r = ground (
  arith,
  array_parsers-array items fuel room a (omega arith) (omega arith),
  read16-bytes16le (length item) (item ++ array items) s,
  take_append item (array items),
  drop_append item (array items),
  length-append item (array items),
)
