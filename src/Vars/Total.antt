-- ===== src/Vars/Total.antt =====
-- The loop of upsgi_parse_vars on any bytes: it ends, and a key that is cut off is not refused.
use upsgi.Common.{
  ℕ, zero, suc, ◌^◌, ◌≤◌, ◌<◌, ◌≡◌, ◌≢◌, sym, ◌∙◌, arith, List, ◌++◌, Option, none, some, ltb,
  if◌then◌else◌, length, take, drop, length-drop,
}
use upsgi.Buffer.Encode.{bytes16le}
use upsgi.Wire.Parse.{read16}
use upsgi.Wire.RoundTrip.{packet, IsPacket, read16-bytes16le}
use upsgi.Vars.Types.{Settings, Wsgi}
use upsgi.Vars.Parse.{Result, refused, stuck, add_var, parse_value, parse_vars_loop, parse_vars}
use upsgi.Vars.Packets.{parse_vars_loop-packet, length-packet-le}

module _ (o : Settings) (slack : List ℕ) where
  parse_value-ne-stuck :
      (next : List ℕ → Wsgi → Result) (key ptrbuf : List ℕ) (w : Wsgi)
      → ((w' : Wsgi) → next (drop (read16 ptrbuf) (drop 2 ptrbuf)) w' ≢ stuck)
      → parse_value o slack next key ptrbuf w ≢ stuck
  unfolding parse_value
  parse_value-ne-stuck next key ptrbuf w h =
      chosen (add_var o (ptrbuf ++ slack) key (take (read16 ptrbuf) (drop 2 ptrbuf)) w)
    where
      chosen :
          (r : Option Wsgi)
          → (if ltb (length ptrbuf) 2
              then refused
              else if ltb (length (drop 2 ptrbuf)) (read16 ptrbuf)
              then refused
              else elim r [
                | none ↦ refused
                | some w' ↦ next (drop (read16 ptrbuf) (drop 2 ptrbuf)) w'
              ])
            ≢ stuck
      chosen none = ground arith
      chosen (some w') = ground (arith, h w')

  parse_vars_loop-ne-stuck :
      (fuel : ℕ) (ptrbuf : List ℕ) (w : Wsgi)
      → length ptrbuf < fuel
      → parse_vars_loop o slack fuel ptrbuf w ≢ stuck
  unfolding parse_vars_loop
  parse_vars_loop-ne-stuck zero ptrbuf w h = absurd (omega arith)
  parse_vars_loop-ne-stuck (suc fuel) ptrbuf w h =
      let size = read16 ptrbuf in
      let key = drop 2 ptrbuf in
      let value = drop size key in
      ground (
        arith,
        λ (big : 2 < length ptrbuf).
            parse_vars_loop-ne-stuck fuel key w (omega (arith, length-drop 2 ptrbuf)),
        λ (big : 2 < length ptrbuf).
            parse_value-ne-stuck (parse_vars_loop o slack fuel) (take size key) value w λ w'.
              parse_vars_loop-ne-stuck fuel (drop (read16 value) (drop 2 value)) w' (
                omega (
                  arith,
                  length-drop 2 ptrbuf,
                  length-drop size key,
                  length-drop 2 value,
                  length-drop (read16 value) (drop 2 value),
                )),
      )

-- The loop over the variables comes to an end on any bytes.
pub parse_vars-ne-stuck :
    (o : Settings) (slack ptrbuf : List ℕ) (w : Wsgi) → parse_vars o slack ptrbuf w ≢ stuck
unfolding parse_vars
parse_vars-ne-stuck o slack ptrbuf w =
    parse_vars_loop-ne-stuck o slack (suc (length ptrbuf)) ptrbuf
      (record w { path_info_pos = none; script_name_pos = none }) (omega arith)

skipped_key :
    (o : Settings) (slack : List ℕ) (fuel size : ℕ) (rest : List ℕ) (w : Wsgi)
    → 0 < length rest
    → length rest ≤ size
    → size < 2 ^ 16
    → parse_vars_loop o slack (suc fuel) (bytes16le size ++ rest) w
      ≡ parse_vars_loop o slack fuel rest w
unfolding parse_vars_loop
skipped_key o slack fuel size rest w n l h = ground (arith, read16-bytes16le size rest h)

-- A packet that begins with the two bytes of a key's size, of which the rest is a packet of at least one
-- variable and no longer than that size says, is parsed as that rest alone: the size is skipped, and what
-- would be the bytes of the key is read as variables.
pub parse_vars-cut_off :
    (o : Settings) (slack : List ℕ) (size : ℕ) (vars : List (List ℕ × List ℕ)) (w : Wsgi)
    → IsPacket vars
    → 0 < length vars
    → length (packet vars) ≤ size
    → size < 2 ^ 16
    → parse_vars o slack (bytes16le size ++ packet vars) w ≡ parse_vars o slack (packet vars) w
unfolding parse_vars
parse_vars-cut_off o slack size vars w p n l h =
    let fresh : Wsgi = record w { path_info_pos = none; script_name_pos = none } in
    let len = length (packet vars) in
    let room = length-packet-le vars in
    skipped_key o slack (suc (suc len)) size (packet vars) fresh (omega (arith, room)) l h
    ∙ parse_vars_loop-packet o slack vars (suc (suc len)) fresh p (omega (arith, room))
    ∙ sym (parse_vars_loop-packet o slack vars (suc len) fresh p (omega (arith, room)))
