-- ===== src/Wire/Parse.antt =====
-- core/protocol.c: upsgi_hooked_parse, upsgi_hooked_parse_array, upsgi_parse_array and
-- upsgi_simple_parse_vars, over the bytes of a packet from `ptrbuf` to `bufferend`. A loop spends one
-- unit of fuel on each turn; `stuck` means that the fuel ran out. The calls of a hook are a list.
use upsgi.Common.{
  ℕ, zero, suc, ◌+◌, ◌-◌, ◌*◌, List, [], ◌∷◌, ltb, leb, ◌==◌, if◌then◌else◌, length, take, drop,
}

pub data Parsed (A : Type 0) : Type 0 where
  parsed : List A → Parsed A
  invalid : List A → Parsed A
  stuck : Parsed A

-- One more hook call in front.
abbrev pub called : {A : Type 0} → A → Parsed A → Parsed A
called a (parsed calls) = parsed (a ∷ calls)
called a (invalid calls) = invalid (a ∷ calls)
called a stuck = stuck

-- the uint16_t at the front of the bytes, lowest byte first
unfoldable pub read16 : List ℕ → ℕ
read16 (a ∷ b ∷ _) = a + 256 * b
read16 _ = 0

-- the value behind a key of upsgi_hooked_parse
unfoldable pub hooked_value :
    List ℕ → (List ℕ → Parsed (List ℕ × List ℕ)) → List ℕ → Parsed (List ℕ × List ℕ)
hooked_value key next ptrbuf =
    let valsize = read16 ptrbuf in
    let value = drop 2 ptrbuf in
    let rest = next (drop valsize value) in
    if ltb (length ptrbuf) 2
    then invalid []
    else if ltb (length value) valsize
    then invalid []
    else called (key, take valsize value) rest

unfoldable pub hooked_parse : ℕ → List ℕ → Parsed (List ℕ × List ℕ)
hooked_parse zero ptrbuf = stuck
hooked_parse (suc fuel) ptrbuf =
    let keysize = read16 ptrbuf in
    let key = drop 2 ptrbuf in
    let rest = hooked_value (take keysize key) (hooked_parse fuel) (drop keysize key) in
    if length ptrbuf == 0
    then parsed []
    else if leb (length ptrbuf) 2
    then invalid []
    else if keysize == 0
    then invalid []
    else if ltb (length key) keysize
    then invalid []
    else rest

unfoldable pub hooked_parse_array : ℕ → List ℕ → Parsed (List ℕ)
hooked_parse_array zero ptrbuf = stuck
hooked_parse_array (suc fuel) ptrbuf =
    let valsize = read16 ptrbuf in
    let value = drop 2 ptrbuf in
    let rest = called (take valsize value) (hooked_parse_array fuel (drop valsize value)) in
    if length ptrbuf == 0
    then parsed []
    else if ltb (length ptrbuf) 2
    then invalid []
    else if ltb (length value) valsize
    then invalid []
    else rest

-- `room` is how many more items argv takes, `max - *argc`.
unfoldable pub parse_array : ℕ → ℕ → List ℕ → Parsed (List ℕ)
parse_array zero room ptrbuf = stuck
parse_array (suc fuel) zero ptrbuf = parsed []
parse_array (suc fuel) (suc room) ptrbuf =
    let strsize = read16 ptrbuf in
    let item = drop 2 ptrbuf in
    let skip = parse_array fuel (suc room) item in
    let rest = called (take strsize item) (parse_array fuel room (drop strsize item)) in
    if length ptrbuf == 0
    then parsed []
    else if leb (length ptrbuf) 2
    then invalid []
    else if strsize == 0
    then skip
    else if ltb (length item) strsize
    then invalid []
    else rest

-- upsgi_simple_parse_vars. `room` is how many more iovecs there are, `vec_size - (4 + 1) - var_cnt`;
-- the calls are the iovecs that var_cnt counts in the end.
unfoldable pub simple_value : ℕ → List ℕ → (ℕ → List ℕ → Parsed (List ℕ)) → List ℕ → Parsed (List ℕ)
simple_value room key next ptrbuf =
    let valsize = read16 ptrbuf in
    let value = drop 2 ptrbuf in
    let rest = next (room - 2) (drop valsize value) in
    if ltb (length ptrbuf) 2
    then invalid []
    else if ltb (length value) valsize
    then invalid []
    else if room == 0
    then invalid []
    else if room == 1
    then invalid (key ∷ [])
    else called key (called (take valsize value) rest)

unfoldable pub simple_parse_vars : ℕ → ℕ → List ℕ → Parsed (List ℕ)
simple_parse_vars zero room ptrbuf = stuck
simple_parse_vars (suc fuel) room ptrbuf =
    let strsize = read16 ptrbuf in
    let key = drop 2 ptrbuf in
    let again = simple_parse_vars fuel room ptrbuf in
    let slide = simple_parse_vars fuel room key in
    let rest = simple_value room (take strsize key) (simple_parse_vars fuel) (drop strsize key) in
    if length ptrbuf == 0
    then parsed []
    else if leb (length ptrbuf) 2
    then again
    else if strsize == 0
    then invalid []
    else if leb (length key) strsize
    then slide
    else rest
