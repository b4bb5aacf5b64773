-- ===== src/Wire/Total.antt =====
-- The parsers of core/protocol.c on any bytes: they stop, and accept nothing but packets.
use mathlib.Core.Path.{subst}
use upsgi.Common.{
  ℕ, zero, suc, ◌+◌, ◌*◌, ◌/◌, ◌%◌, ◌^◌, ◌≤◌, ◌<◌, ◌≡◌, ◌≢◌, refl, sym, ap, ◌∙◌, List, [], ◌∷◌,
  ◌++◌, arith, length, take, drop, take-append-drop, length-drop, length-take,
}
use upsgi.Buffer.Encode.{bytes16le}
use upsgi.Buffer.Numbers.{AllBytes}
use upsgi.Wire.Parse.{
  Parsed, parsed, invalid, stuck, called, read16, hooked_value, hooked_parse, hooked_parse_array,
  parse_array,
}
use upsgi.Wire.RoundTrip.{packet, IsPacket}

called-ne-stuck : {A : Type 0} (a : A) (r : Parsed A) → r ≢ stuck → called a r ≢ stuck
called-ne-stuck a (parsed c) h e = cc
called-ne-stuck a (invalid c) h e = cc
called-ne-stuck a stuck h e = h refl

hooked_value-ne-stuck :
    (key ptrbuf : List ℕ) (next : List ℕ → Parsed (List ℕ × List ℕ))
    → ((rest : List ℕ) → length rest ≤ length ptrbuf → next rest ≢ stuck)
    → hooked_value key next ptrbuf ≢ stuck
unfolding hooked_value
hooked_value-ne-stuck key ptrbuf next h = ground (
  arith,
  length-drop 2 ptrbuf,
  length-drop (read16 ptrbuf) (drop 2 ptrbuf),
  h (drop (read16 ptrbuf) (drop 2 ptrbuf)),
  called-ne-stuck (key, take (read16 ptrbuf) (drop 2 ptrbuf))
      (next (drop (read16 ptrbuf) (drop 2 ptrbuf))),
)

-- With one unit of fuel more than there are bytes, upsgi_hooked_parse comes to an end on any input.
pub hooked_parse-ne-stuck :
    (fuel : ℕ) (ptrbuf : List ℕ) → length ptrbuf < fuel → hooked_parse fuel ptrbuf ≢ stuck
unfolding hooked_parse
hooked_parse-ne-stuck zero ptrbuf h = absurd (omega arith)
hooked_parse-ne-stuck (suc fuel) ptrbuf h =
    let size = read16 ptrbuf in
    let key = drop 2 ptrbuf in
    ground (
      arith,
      length-drop 2 ptrbuf,
      length-drop size key,
      λ (big : 2 < length ptrbuf).
          hooked_value-ne-stuck (take size key) (drop size key) (hooked_parse fuel) (λ rest le.
            hooked_parse-ne-stuck fuel rest
              (omega (arith, length-drop size key, length-drop 2 ptrbuf))),
    )

-- With one unit of fuel more than there are bytes, upsgi_hooked_parse_array comes to an end on any
-- input, and so does upsgi_parse_array, whatever room it has.
pub hooked_parse_array-ne-stuck :
    (fuel : ℕ) (ptrbuf : List ℕ) → length ptrbuf < fuel → hooked_parse_array fuel ptrbuf ≢ stuck
unfolding hooked_parse_array
hooked_parse_array-ne-stuck zero ptrbuf h = absurd (omega arith)
hooked_parse_array-ne-stuck (suc fuel) ptrbuf h =
    let size = read16 ptrbuf in
    let value = drop 2 ptrbuf in
    ground (
      arith,
      length-drop 2 ptrbuf,
      length-drop size value,
      hooked_parse_array-ne-stuck fuel (drop size value),
      called-ne-stuck (take size value) (hooked_parse_array fuel (drop size value)),
    )

parse_array-ne-stuck :
    (fuel room : ℕ) (ptrbuf : List ℕ) → length ptrbuf < fuel → parse_array fuel room ptrbuf ≢ stuck
unfolding parse_array
parse_array-ne-stuck zero room ptrbuf h = absurd (omega arith)
parse_array-ne-stuck (suc fuel) zero ptrbuf h = λ e. cc
parse_array-ne-stuck (suc fuel) (suc room) ptrbuf h =
    let size = read16 ptrbuf in
    let item = drop 2 ptrbuf in
    ground (
      arith,
      length-drop 2 ptrbuf,
      length-drop size item,
      parse_array-ne-stuck fuel (suc room) item,
      parse_array-ne-stuck fuel room (drop size item),
      called-ne-stuck (take size item) (parse_array fuel room (drop size item)),
    )

-- Bytes that begin with a 16-bit number begin with its encoding.
AllBytes-drop : (n : ℕ) (s : List ℕ) → AllBytes s → AllBytes (drop n s)
AllBytes-drop zero s h = h
AllBytes-drop (suc n) [] h = h
AllBytes-drop (suc n) (x ∷ s) h = AllBytes-drop n s h.1

read16_split :
    (s : List ℕ)
    → AllBytes s
    → 2 ≤ length s
    → (s ≡ bytes16le (read16 s) ++ drop 2 s) × (read16 s < 2 ^ 16)
unfolding read16
read16_split [] h e = absurd (omega arith)
read16_split (a ∷ []) h e = absurd (omega arith)
read16_split (a ∷ b ∷ s) (ha, (hb, h)) e = (
  let x : a ≡ (a + 256 * b) % 256 = omega arith in
      let y : b ≡ (a + 256 * b) / 256 % 256 = omega arith in cc,
  omega arith,
)

called-eq-parsed :
    {A : Type 0} (a : A) (r : Parsed A) {calls : List A}
    → called a r ≡ parsed calls
    → (rest : List A) × (r ≡ parsed rest) × (calls ≡ a ∷ rest)
called-eq-parsed a (parsed rest) h = (rest, refl, cc)
called-eq-parsed a (invalid rest) h = cc
called-eq-parsed a stuck h = cc

-- The parts of `ptrbuf` that a successful hooked_value has read.
hooked_value-eq-parsed :
    (key ptrbuf : List ℕ) (next : List ℕ → Parsed (List ℕ × List ℕ)) {vars : List (List ℕ × List ℕ)}
    → hooked_value key next ptrbuf ≡ parsed vars
    → let size = read16 ptrbuf in
      let value = drop 2 ptrbuf in
      (2 ≤ length ptrbuf)
      × (size ≤ length value)
      × (called (key, take size value) (next (drop size value)) ≡ parsed vars)
unfolding hooked_value
hooked_value-eq-parsed key ptrbuf next h = ground arith

hooked_parse-eq-parsed :
    (fuel : ℕ) (ptrbuf : List ℕ) {vars : List (List ℕ × List ℕ)}
    → hooked_parse (suc fuel) ptrbuf ≡ parsed vars
    → 0 < length ptrbuf
    → let size = read16 ptrbuf in
      let key = drop 2 ptrbuf in
      (2 ≤ length ptrbuf)
      × (0 < size)
      × (size ≤ length key)
      × (hooked_value (take size key) (hooked_parse fuel) (drop size key) ≡ parsed vars)
unfolding hooked_parse
hooked_parse-eq-parsed fuel ptrbuf h p = ground arith

-- Read sized bytes behind a 16-bit length: the pieces, put together again.
sized_split :
    (s : List ℕ)
    → AllBytes s
    → 2 ≤ length s
    → read16 s ≤ length (drop 2 s)
    → let size = read16 s in
      let piece = take size (drop 2 s) in
      (s ≡ bytes16le (length piece) ++ (piece ++ drop size (drop 2 s)))
      × (length piece ≡ size)
      × (size < 2 ^ 16)
sized_split s h e le =
    let size = read16 s in
    let (split, small) = read16_split s h e in
    let len : length (take size (drop 2 s)) ≡ size = omega (arith, length-take size (drop 2 s)) in
    (
      split
          ∙ ap (λ l. bytes16le size ++ l) (sym (take-append-drop size (drop 2 s)))
          ∙ ap (λ n. bytes16le n ++ (take size (drop 2 s) ++ drop size (drop 2 s))) (sym len),
      len,
      small,
    )

packet_join :
    (ptrbuf key val behind tail : List ℕ) (rest : List (List ℕ × List ℕ))
    {vars : List (List ℕ × List ℕ)}
    → vars ≡ (key, val) ∷ rest
    → ptrbuf ≡ bytes16le (length key) ++ (key ++ behind)
    → behind ≡ bytes16le (length val) ++ (val ++ tail)
    → tail ≡ packet rest
    → 0 < length key
    → length key < 2 ^ 16
    → length val < 2 ^ 16
    → IsPacket rest
    → (ptrbuf ≡ packet vars) × IsPacket vars
packet_join ptrbuf key val behind tail rest e p b t pos lk lv ok = rw e (
  p
      ∙ ap (λ l. bytes16le (length key) ++ (key ++ l))
          (b ∙ ap (λ l. bytes16le (length val) ++ (val ++ l)) t),
  (pos, lk, lv, ok),
)

-- What upsgi_hooked_parse accepts is a packet of the variables that it reported: every key is there
-- and not empty, every length fits in 16 bits, and no byte is left over or skipped.
pub hooked_parse_sound :
    (fuel : ℕ) (ptrbuf : List ℕ) {vars : List (List ℕ × List ℕ)}
    → AllBytes ptrbuf
    → hooked_parse fuel ptrbuf ≡ parsed vars
    → (ptrbuf ≡ packet vars) × IsPacket vars
unfolding hooked_parse
hooked_parse_sound zero ptrbuf b h = cc
hooked_parse_sound (suc fuel) [] {vars} b h =
    let nil : [] ≡ vars = cc in
    subst (λ v. (◌≡◌ {A = List ℕ} [] (packet v)) × IsPacket v) nil (refl, tt)
hooked_parse_sound (suc fuel) (x ∷ s) b h =
    let ptrbuf = x ∷ s in
    let size = read16 ptrbuf in
    let key = take size (drop 2 ptrbuf) in
    let behind = drop size (drop 2 ptrbuf) in
    let (two, pos, fits, inner) = hooked_parse-eq-parsed fuel ptrbuf h (omega arith) in
    let (split, lk, small) = sized_split ptrbuf b two fits in
    let (two', fits', inner') = hooked_value-eq-parsed key behind (hooked_parse fuel) inner in
    let bb = AllBytes-drop size (drop 2 ptrbuf) (AllBytes-drop 2 ptrbuf b) in
    let (split', lv, small') = sized_split behind bb two' fits' in
    let (rest, later, e) = called-eq-parsed _ _ inner' in
    let (again, valid) =
      hooked_parse_sound fuel _
        (AllBytes-drop (read16 behind) (drop 2 behind) (AllBytes-drop 2 behind bb)) later in
    packet_join ptrbuf key (take (read16 behind) (drop 2 behind)) behind
      (drop (read16 behind) (drop 2 behind)) rest e split split' again (omega arith) (omega arith)
      (omega arith) valid
