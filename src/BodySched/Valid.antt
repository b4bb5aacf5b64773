-- ===== src/BodySched/Valid.antt =====
-- The invariant of a request and the core that serves it, and the lemmas that each step keeps it.
use upsgi.Common.{ℕ, ◌*◌, ◌≤◌, ◌≡◌, Bool, true, false, arith}
use upsgi.BodySched.Types.{
  Lane, lane_none, lane_interactive, lane_bulk, State, bulk_quantum_bytes,
  interactive_quantum_bytes,
}
use upsgi.BodySched.Promote.{
  promote_to_bulk, promote_by_bytes, promote_by_rounds, promote_by_residency, update_promotions,
  update_depth_max, lane_quantum,
}
use upsgi.BodySched.Ops.{
  note_request, top_up, relief_budget, deficit_budget, registered_budget, read_budget,
}

-- The gauges of a core against the one request that it serves: they count it in its lane while it is
-- registered, and are zero otherwise.
abbrev pub Gauges : Bool → Lane → ℕ → ℕ → ℕ → Type 0
Gauges false lane active interactive bulk = (active ≡ 0) × (interactive ≡ 0) × (bulk ≡ 0)
Gauges true lane_none active interactive bulk = ⊥
Gauges true lane_interactive active interactive bulk = (active ≡ 1) × (interactive ≡ 1) × (bulk ≡ 0)
Gauges true lane_bulk active interactive bulk = (active ≡ 1) × (interactive ≡ 0) × (bulk ≡ 1)

abbrev pub deficit_cap : Lane → ℕ
deficit_cap lane_bulk = 4 * bulk_quantum_bytes
deficit_cap lane_interactive = 4 * interactive_quantum_bytes
deficit_cap lane_none = 4 * interactive_quantum_bytes

pub record IsValid (s : State) : Type 0 where
  pub gauges :
      Gauges s.0.registered s.0.lane_class s.1.active_items s.1.interactive_depth_current
        s.1.bulk_depth_current
  pub deficit : s.0.deficit_bytes ≤ deficit_cap s.0.lane_class
  pub interactive_max : s.1.interactive_depth_current ≤ s.1.interactive_depth_max
  pub bulk_max : s.1.bulk_depth_current ≤ s.1.bulk_depth_max

pub promote_to_bulk-IsValid :
    (s : State) → s.0.registered ≡ true → IsValid s → IsValid (promote_to_bulk s)
unfolding promote_to_bulk
promote_to_bulk-IsValid s reg v = ground arith

pub update_promotions-IsValid : (s : State) → IsValid s → IsValid (update_promotions s)
unfolding update_promotions promote_by_bytes promote_by_rounds promote_by_residency promote_to_bulk
update_promotions-IsValid s v = ground arith

pub registered-update_promotions : (s : State) → (update_promotions s).0.registered ≡ s.0.registered
unfolding update_promotions promote_by_bytes promote_by_rounds promote_by_residency promote_to_bulk
registered-update_promotions s = ground arith

pub note_request-IsValid :
    (enabled : Bool) (now : ℕ) (s : State) → IsValid s → IsValid (note_request enabled now s)
unfolding note_request update_depth_max
note_request-IsValid enabled now s v = ground arith

relief_budget-IsValid :
    (requested : ℕ) (s : State) → IsValid s → IsValid (relief_budget requested s).1
unfolding relief_budget
relief_budget-IsValid requested s v = ground arith

deficit_budget-IsValid :
    (requested : ℕ) (s : State) → IsValid s → IsValid (deficit_budget requested s).1
unfolding deficit_budget top_up lane_quantum
deficit_budget-IsValid requested s v = ground arith

registered_budget-IsValid :
    (enabled : Bool) (requested : ℕ) (s : State)
    → IsValid s
    → IsValid (registered_budget enabled requested s).1
unfolding registered_budget
registered_budget-IsValid enabled requested s v =
    grind (arith, update_promotions-IsValid, relief_budget-IsValid, deficit_budget-IsValid)

pub read_budget-IsValid :
    (enabled : Bool) (now requested : ℕ) (s : State)
    → IsValid s
    → IsValid (read_budget enabled now requested s).1
unfolding read_budget
read_budget-IsValid enabled now requested s v =
    let noted = note_request-IsValid enabled now s v in
    ground (arith, noted, registered_budget-IsValid enabled requested (note_request enabled now s))
