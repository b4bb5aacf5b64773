-- ===== src/BodySched/Budget.antt =====
-- How much one read may take, and how much a request takes over many turns.
use upsgi.Common.{ℕ, ◌+◌, ◌≤◌, ◌<◌, ◌≡◌, Bool, true, false, arith}
use upsgi.BodySched.Types.{Request, State}
use upsgi.BodySched.Promote.{
  promote_to_bulk, promote_by_bytes, promote_by_rounds, promote_by_residency, update_promotions,
  lane_quantum, is_bulk,
}
use upsgi.BodySched.Ops.{
  note_request, top_up, relief_budget, deficit_budget, registered_budget, read_budget,
}
use upsgi.BodySched.Valid.{IsValid, deficit_cap, update_promotions-IsValid}

-- What a promotion may change of a request that keeps its registration.
pub record Settled (r q : Request) : Type 0 where
  pub registered : q.registered ≡ r.registered
  pub deficit : q.deficit_bytes ≤ r.deficit_bytes
  pub bulk : is_bulk r.lane_class ≡ true → is_bulk q.lane_class ≡ true

pub update_promotions-Settled : (s : State) → Settled s.0 (update_promotions s).0
unfolding update_promotions promote_by_bytes promote_by_rounds promote_by_residency promote_to_bulk
update_promotions-Settled s = ground arith

-- What read_budget grants: `s` is the state before it and `t` the state after.
pub record Grants (requested : ℕ) (s : State) (grant : ℕ) (t : State) : Type 0 where
  pub within_request : grant ≤ requested
  pub positive : 0 < grant
  pub within_cap : grant ≤ deficit_cap t.0.lane_class
  pub recorded : t.0.last_budget_bytes ≡ grant
  pub credit : grant ≤ s.0.deficit_bytes + lane_quantum t.0
  pub deficit : t.0.deficit_bytes ≤ s.0.deficit_bytes + lane_quantum t.0
  pub registered : t.0.registered ≡ true
  pub bulk : is_bulk s.0.lane_class ≡ true → is_bulk t.0.lane_class ≡ true

module _ (requested : ℕ) (positive : 0 < requested) where
  relief_budget-Grants :
      (s : State)
      → IsValid s
      → s.0.registered ≡ true
      → Grants requested s (relief_budget requested s).0 (relief_budget requested s).1
  unfolding relief_budget lane_quantum
  relief_budget-Grants s v reg = ground arith

  deficit_budget-Grants :
      (s : State)
      → IsValid s
      → s.0.registered ≡ true
      → Grants requested s (deficit_budget requested s).0 (deficit_budget requested s).1
  unfolding deficit_budget top_up lane_quantum
  deficit_budget-Grants s v reg = ground arith

  registered_budget-Grants :
      (s : State)
      → IsValid s
      → s.0.registered ≡ true
      → Grants requested s
          (registered_budget true requested s).0
          (registered_budget true requested s).1
  unfolding registered_budget
  registered_budget-Grants s v reg =
      let cleared = record (s.0) { last_budget_capped = false; last_budget_bytes = 0 } in
      ground (
        arith,
        update_promotions-Settled (cleared, s.1),
        update_promotions-IsValid (cleared, s.1),
        relief_budget-Grants (update_promotions (cleared, s.1)),
        deficit_budget-Grants (update_promotions (cleared, s.1)),
      )

pub note_request_registered :
    (enabled : Bool) (now : ℕ) (s : State) → s.0.registered ≡ true → note_request enabled now s ≡ s
unfolding note_request
note_request_registered enabled now s reg = ground arith

-- For a registered request with the scheduler on, a read of `requested` bytes (at least one) is
-- granted at least one byte and at most what it asked for, never more than four quanta of its lane,
-- nor more than one quantum above its deficit. The deficit grows by a quantum at most, and a bulk
-- request stays in the bulk lane.
pub read_budget-Grants :
    (now requested : ℕ) (s : State)
    → 0 < requested
    → IsValid s
    → s.0.registered ≡ true
    → Grants requested s (read_budget true now requested s).0 (read_budget true now requested s).1
unfolding read_budget
read_budget-Grants now requested s p v reg =
    ground
      (arith, note_request_registered true now s reg, registered_budget-Grants requested p s v reg)

-- In any state, with the scheduler on or off, a read of at least one byte is granted at least one byte
-- and at most what it asked for.
pub read_budget_within :
    (enabled : Bool) (now requested : ℕ) (s : State)
    → 0 < requested
    → (0 < (read_budget enabled now requested s).0)
      × ((read_budget enabled now requested s).0 ≤ requested)
unfolding read_budget registered_budget relief_budget deficit_budget lane_quantum
read_budget_within enabled now requested s p = ground arith
