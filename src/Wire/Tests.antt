-- ===== src/Wire/Tests.antt =====
-- The packet parsers at concrete inputs.
use upsgi.Common.{ℕ, ◌+◌, ◌≡◌, ◌≢◌, true, List, [], ◌∷◌, arith, length}
use upsgi.Common.Text.{codes}
use upsgi.Buffer.Ops.{Buffer}
use upsgi.Wire.Parse.{parsed, stuck, hooked_parse, hooked_parse_array, simple_parse_vars}
use upsgi.Wire.RoundTrip.{packet, IsPacket, hooked_parse-packet}
use upsgi.Wire.Total.{hooked_parse_array-ne-stuck, hooked_parse_sound}
use upsgi.Wire.Simple.{packet_then, simple_parse_vars-stuck}
use upsgi.Wire.Range.{HttpRange}

abbrev vars : List (List ℕ × List ℕ)
vars = (codes "A", codes "xy") ∷ (codes "KEY", []) ∷ []

abbrev ub : Buffer
ub = record { bytes = codes "?"; len = 64; limit = 0 }

hooked_parse-packet_example : hooked_parse 3 (packet vars) ≡ parsed vars
hooked_parse-packet_example = hooked_parse-packet vars 3 (omega arith) (omega arith)

hooked_parse_array-ne-stuck_example : hooked_parse_array 4 (1 ∷ 0 ∷ 7 ∷ []) ≢ stuck
hooked_parse_array-ne-stuck_example = hooked_parse_array-ne-stuck 4 (1 ∷ 0 ∷ 7 ∷ []) (omega arith)

hooked_parse_sound_example :
    (packet ((codes "A", codes "xy") ∷ []) ≡ packet ((codes "A", codes "xy") ∷ []))
    × IsPacket ((codes "A", codes "xy") ∷ [])
hooked_parse_sound_example =
    hooked_parse_sound 2 (packet ((codes "A", codes "xy") ∷ [])) (omega arith)
      (hooked_parse-packet ((codes "A", codes "xy") ∷ []) 2 (omega arith) (omega arith))

simple_parse_vars-stuck_example :
    simple_parse_vars (length vars + 40) 10 (packet_then vars (7 ∷ [])) ≡ stuck
simple_parse_vars-stuck_example =
    simple_parse_vars-stuck vars 40 10 (7 ∷ []) (omega arith) (omega arith) (omega arith)
      (omega arith)

abbrev items : List (List ℕ)
items = codes "one" ∷ codes "2" ∷ []

abbrev whole : ℕ → ℕ → HttpRange
whole from to = record { is_parsed = true; from = from; to = to }
