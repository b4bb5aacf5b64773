-- ===== src/BodySched/Fairness.antt =====
-- How many bytes a request takes over many turns, and that heavy requests go to the bulk lane.
use upsgi.Common.{ℕ, ◌+◌, ◌*◌, ◌-◌, ◌≤◌, ◌<◌, ◌≡◌, Bool, true, List, [], ◌∷◌, arith, length}
use upsgi.BodySched.Types.{Request, State, bulk_quantum_bytes, interactive_quantum_bytes}
use upsgi.BodySched.Promote.{update_promotions, lane_quantum, is_bulk, is_full_budget_turn}
use upsgi.BodySched.Ops.{read_budget}
use upsgi.BodySched.Notes.{count_bytes, charge, note_complete, yield_hint, serve, note_bytes}
use upsgi.BodySched.Valid.{IsValid, read_budget-IsValid}
use upsgi.BodySched.Calls.{note_bytes-IsValid}
use upsgi.BodySched.Budget.{
  read_budget-Grants, Settled, update_promotions-Settled, note_request_registered,
}

-- What a service of `observed` bytes leaves.
record Charged (observed : ℕ) (r q : Request) : Type 0 where
  registered : q.registered ≡ r.registered
  deficit : q.deficit_bytes ≤ r.deficit_bytes - observed
  bulk : is_bulk r.lane_class ≡ true → is_bulk q.lane_class ≡ true

charge-Charged :
    (served observed : ℕ) (s : State)
    → Charged observed s.0 (charge true observed (count_bytes observed served s)).0
unfolding charge count_bytes
charge-Charged served observed s = ground arith

close_turn-Settled :
    (enabled full : Bool) (before : ℕ) (s : State)
    → Settled s.0 (yield_hint enabled full (note_complete before s)).0
unfolding yield_hint note_complete
close_turn-Settled enabled full before s = ground arith

serve-Charged :
    (served observed : ℕ) (s : State) → Charged observed s.0 (serve true served observed s).0
unfolding serve
serve-Charged served observed s =
    let charged = charge true observed (count_bytes observed served s) in
    ground (
      arith,
      charge-Charged served observed s,
      update_promotions-Settled charged,
      close_turn-Settled true (is_full_budget_turn s.0 observed) s.0.bytes_observed
          (update_promotions charged),
    )

note_bytes-Charged :
    (now served observed : ℕ) (s : State)
    → s.0.registered ≡ true
    → Charged observed s.0 (note_bytes true now served observed s).0
unfolding note_bytes
note_bytes-Charged now served observed s reg =
    ground (arith, note_request_registered true now s reg, serve-Charged served observed s)

-- One turn of a reader: it asks for `requested` bytes and reads `observed` of them, at clock `now`.
pub record Turn : Type 0 where
  pub requested : ℕ
  pub observed : ℕ
  pub now : ℕ

abbrev budget_of : Turn → State → ℕ × State
budget_of t s = read_budget true t.now t.requested s

abbrev after_turn : Turn → State → State
after_turn t s = note_bytes true t.now t.now t.observed (budget_of t s).1

abbrev pub after_turns : List Turn → State → State
after_turns [] s = s
after_turns (t ∷ ts) s = after_turns ts (after_turn t s)

abbrev pub total_observed : List Turn → ℕ
total_observed [] = 0
total_observed (t ∷ ts) = t.observed + total_observed ts

-- A reader asks for at least a byte, and reads no more than it was granted.
abbrev pub Obeys : List Turn → State → Type 0
Obeys [] s = Unit
Obeys (t ∷ ts) s = (0 < t.requested) × (t.observed ≤ (budget_of t s).0) × Obeys ts (after_turn t s)

record Paid (t : Turn) (s u : State) : Type 0 where
  valid : IsValid u
  registered : u.0.registered ≡ true
  bulk : is_bulk s.0.lane_class ≡ true → is_bulk u.0.lane_class ≡ true
  credit : u.0.deficit_bytes + t.observed ≤ s.0.deficit_bytes + interactive_quantum_bytes
  bulk_credit :
      is_bulk s.0.lane_class ≡ true
      → u.0.deficit_bytes + t.observed ≤ s.0.deficit_bytes + bulk_quantum_bytes

after_turn-Paid :
    (t : Turn) (s : State)
    → IsValid s
    → s.0.registered ≡ true
    → 0 < t.requested
    → t.observed ≤ (budget_of t s).0
    → Paid t s (after_turn t s)
unfolding lane_quantum
after_turn-Paid t s v reg p le =
    let granted = read_budget-Grants t.now t.requested s p v reg in
    let mid = (budget_of t s).1 in
    ground (
      arith,
      granted,
      note_bytes-Charged t.now t.now t.observed mid granted.registered,
      note_bytes-IsValid true t.now t.now t.observed mid
          (read_budget-IsValid true t.now t.requested s v),
    )

-- With the scheduler on, a registered request that reads no more than it is granted takes, over any
-- number of turns, at most its deficit and one interactive quantum (64 KiB) for each turn. What is
-- left of its deficit at the end counts too.
pub turns-fair :
    (ts : List Turn) (s : State)
    → IsValid s
    → s.0.registered ≡ true
    → Obeys ts s
    → total_observed ts + (after_turns ts s).0.deficit_bytes
      ≤ s.0.deficit_bytes + length ts * interactive_quantum_bytes
turns-fair [] s v reg o = omega arith
turns-fair (t ∷ ts) s v reg (p, le, o) =
    let paid = after_turn-Paid t s v reg p le in
    omega (arith, paid.credit, turns-fair ts (after_turn t s) paid.valid paid.registered o)

-- A request in the bulk lane takes at most its deficit and one bulk quantum (32 KiB) for each turn.
pub turns-fair_bulk :
    (ts : List Turn) (s : State)
    → IsValid s
    → s.0.registered ≡ true
    → is_bulk s.0.lane_class ≡ true
    → Obeys ts s
    → total_observed ts + (after_turns ts s).0.deficit_bytes
      ≤ s.0.deficit_bytes + length ts * bulk_quantum_bytes
turns-fair_bulk [] s v reg b o = omega arith
turns-fair_bulk (t ∷ ts) s v reg b (p, le, o) =
    let paid = after_turn-Paid t s v reg p le in
    omega (
      arith,
      paid.bulk_credit b,
      turns-fair_bulk ts (after_turn t s) paid.valid paid.registered (paid.bulk b) o,
    )
