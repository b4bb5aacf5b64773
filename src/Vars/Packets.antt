-- ===== src/Vars/Packets.antt =====
-- upsgi_parse_vars on a well-formed packet: one variable after the other.
use upsgi.Common.{
  ℕ, zero, suc, ◌^◌, ◌≤◌, ◌<◌, ◌≡◌, refl, ◌∙◌, arith, List, [], ◌∷◌, ◌++◌, Option, none, some,
  length, length-append, take_append, drop_append,
}
use upsgi.Buffer.Encode.{bytes16le}
use upsgi.Wire.RoundTrip.{packet, IsPacket, read16-bytes16le}
use upsgi.Vars.Types.{Settings, Wsgi}
use upsgi.Vars.Parse.{Result, accepted, refused, add_var, parse_value, parse_vars_loop, parse_vars}

-- the variables in order, each with its hook and its iovecs
abbrev pub add_vars : Settings → List ℕ → List (List ℕ × List ℕ) → Wsgi → Option Wsgi
add_vars o slack [] w = some w
add_vars o slack ((key, val) ∷ vars) w =
    elim (add_var o ((bytes16le (length val) ++ (val ++ packet vars)) ++ slack) key val w) [
      | none ↦ none
      | some w' ↦ add_vars o slack vars w'
    ]

abbrev pub result_of : Option Wsgi → Result
result_of none = refused
result_of (some w) = accepted w

pub result_of-accepted : (r : Option Wsgi) {w : Wsgi} → result_of r ≡ accepted w → r ≡ some w
result_of-accepted none e = absurd (ground arith)
result_of-accepted (some w') e = ground arith

module _ (o : Settings) (slack : List ℕ) where
  parse_value-cons :
      (next : List ℕ → Wsgi → Result) (key val rest : List ℕ) (w : Wsgi)
      → length val < 2 ^ 16
      → parse_value o slack next key (bytes16le (length val) ++ (val ++ rest)) w
        ≡ elim (add_var o ((bytes16le (length val) ++ (val ++ rest)) ++ slack) key val w) [
          | none ↦ refused
          | some w' ↦ next rest w'
        ]
  unfolding parse_value
  parse_value-cons next key val rest w h = ground (
    arith,
    read16-bytes16le (length val) (val ++ rest) h,
    take_append val rest,
    drop_append val rest,
    length-append val rest,
  )

  parse_vars_loop-cons :
      (fuel : ℕ) (key val rest : List ℕ) (w : Wsgi)
      → 0 < length key
      → length key < 2 ^ 16
      → length val < 2 ^ 16
      → parse_vars_loop o slack
          (suc fuel)
          (bytes16le (length key) ++ (key ++ (bytes16le (length val) ++ (val ++ rest))))
          w
        ≡ elim (add_var o ((bytes16le (length val) ++ (val ++ rest)) ++ slack) key val w) [
          | none ↦ refused
          | some w' ↦ parse_vars_loop o slack fuel rest w'
        ]
  unfolding parse_vars_loop
  parse_vars_loop-cons fuel key val rest w p hk hv =
      let tail = bytes16le (length val) ++ (val ++ rest) in
      ground (
        arith,
        read16-bytes16le (length key) (key ++ tail) hk,
        take_append key tail,
        drop_append key tail,
        length-append key tail,
      )
      ∙ parse_value-cons (parse_vars_loop o slack fuel) key val rest w hv

  pub parse_vars_loop-packet :
      (vars : List (List ℕ × List ℕ)) (fuel : ℕ) (w : Wsgi)
      → IsPacket vars
      → length vars < fuel
      → parse_vars_loop o slack fuel (packet vars) w ≡ result_of (add_vars o slack vars w)
  unfolding parse_vars_loop
  parse_vars_loop-packet vars zero w p h = absurd (omega arith)
  parse_vars_loop-packet [] (suc fuel) w p h = refl
  parse_vars_loop-packet ((key, val) ∷ vars) (suc fuel) w (a, b, c, p) h =
      parse_vars_loop-cons fuel key val (packet vars) w a b c
      ∙ chosen (add_var o ((bytes16le (length val) ++ (val ++ packet vars)) ++ slack) key val w)
          (λ w'. parse_vars_loop-packet vars fuel w' p (omega arith))
    where
      chosen :
          (r : Option Wsgi)
          → ((w' : Wsgi)
              → parse_vars_loop o slack fuel (packet vars) w'
                ≡ result_of (add_vars o slack vars w'))
          → ◌≡◌ {A = Result}
              (elim r [ none ↦ refused | some w' ↦ parse_vars_loop o slack fuel (packet vars) w' ])
              (result_of (elim r [ none ↦ none | some w' ↦ add_vars o slack vars w' ]))
      chosen none ih = refl
      chosen (some w') ih = ih w'

pub length-packet-le : (vars : List (List ℕ × List ℕ)) → length vars ≤ length (packet vars)
length-packet-le [] = omega arith
length-packet-le ((key, val) ∷ vars) = omega (
  arith,
  length-packet-le vars,
  length-append key (bytes16le (length val) ++ (val ++ packet vars)),
  length-append val (packet vars),
)

-- Of a packet of variables, the loop runs the hook of each variable in order and stores its key and value;
-- the request is accepted if no hook refuses it and the entries have room, and refused otherwise.
pub parse_vars-packet :
    (o : Settings) (slack : List ℕ) (vars : List (List ℕ × List ℕ)) (w : Wsgi)
    → IsPacket vars
    → parse_vars o slack (packet vars) w
      ≡ result_of
          (add_vars o slack vars (record w { path_info_pos = none; script_name_pos = none }))
unfolding parse_vars
parse_vars-packet o slack vars w p =
    parse_vars_loop-packet o slack vars (suc (length (packet vars)))
      (record w { path_info_pos = none; script_name_pos = none }) p
      (omega (arith, length-packet-le vars))
