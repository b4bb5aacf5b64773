-- ===== src/BodySched/Tests.antt =====
-- Runs of the body scheduler, and its theorems at concrete inputs.
use upsgi.Common.{◌+◌, ◌*◌, ◌≤◌, ◌≡◌, refl, true, false, ◌||◌, List, [], ◌∷◌, arith}
use upsgi.BodySched.Types.{Request, Core, State, lane_none, lane_interactive, lane_bulk}
use upsgi.BodySched.Promote.{
  promote_to_bulk, promote_by_bytes, promote_by_rounds, promote_by_residency, update_promotions,
  lane_quantum, is_bulk, is_full_budget_turn, update_depth_max,
}
use upsgi.BodySched.Samples.{
  record_residency, refresh_samples, count_residency, hist_total, find_percentiles, target50,
  target95,
}
use upsgi.BodySched.Ops.{
  read_budget, registered_budget, relief_budget, deficit_budget, top_up, note_request,
}
use upsgi.BodySched.Notes.{note_bytes, serve, charge, count_bytes, note_complete, yield_hint}
use upsgi.BodySched.Valid.{IsValid}
use upsgi.BodySched.Calls.{Call, run, budget, bytes, end, run-IsValid}
use upsgi.BodySched.Budget.{Grants, read_budget-Grants}
use upsgi.BodySched.Fairness.{Turn, after_turns, total_observed, turns-fair}
use upsgi.BodySched.Lanes.{is_heavy, update_promotions-is_heavy}

abbrev idle : Request
idle = record {
  post_cl = 1000000;
  body_is_chunked = false;
  started_at_us = 0;
  last_service_us = 0;
  bytes_observed = 0;
  deficit_bytes = 0;
  last_budget_bytes = 0;
  rounds_observed = 0;
  full_budget_turns = 0;
  registered = false;
  lane_class = lane_none;
  promoted_by_bytes = false;
  promoted_by_rounds = false;
  promoted_by_residency = false;
  marked_complete = false;
  last_budget_capped = false;
  disabled_fallback_noted = false;
  recent_wait_event = false;
}

abbrev quiet : Core
quiet = record {
  rounds = 0;
  interactive_turns = 0;
  bulk_turns = 0;
  requeues = 0;
  promotions_to_bulk = 0;
  no_credit_skips = 0;
  empty_read_events = 0;
  eagain_events = 0;
  completed_items = 0;
  bytes_interactive = 0;
  bytes_bulk = 0;
  bytes_total = 0;
  credit_granted_bytes = 0;
  credit_unused_bytes = 0;
  active_items = 0;
  interactive_depth_max = 0;
  bulk_depth_max = 0;
  residency_us_max = 0;
  residency_us_p50_sample = 0;
  residency_us_p95_sample = 0;
  items_promoted_by_bytes = 0;
  items_promoted_by_rounds = 0;
  items_promoted_by_residency = 0;
  near_complete_fastfinishes = 0;
  overflow_protection_hits = 0;
  disabled_fallbacks = 0;
  full_budget_turns = 0;
  wait_relief_events = 0;
  yield_hints = 0;
  interactive_depth_current = 0;
  bulk_depth_current = 0;
  residency_hist = 0 ∷ 0 ∷ 0 ∷ 5 ∷ 0 ∷ 0 ∷ 0 ∷ 0 ∷ 0 ∷ 1 ∷ 0 ∷ 0 ∷ 0 ∷ 0 ∷ 0 ∷ 0 ∷ [];
}

-- a request with 200000 bytes behind it, in the interactive lane and in the bulk lane
abbrev busy : State
busy = (
  record idle {
    registered = true;
    lane_class = lane_interactive;
    bytes_observed = 200000;
    deficit_bytes = 1000;
  },
  record quiet { active_items = 1; interactive_depth_current = 1; interactive_depth_max = 1 },
)

abbrev heavy : State
heavy = (
  record (busy.0) { lane_class = lane_bulk; promoted_by_bytes = true; bytes_observed = 300000 },
  record quiet {
    active_items = 1;
    bulk_depth_current = 1;
    bulk_depth_max = 1;
    interactive_depth_max = 1;
  },
)

abbrev script : List Call
script = budget 5 100000 ∷ bytes 6 7 65536 ∷ budget 8 400000 ∷ bytes 9 10 65536 ∷ end 900 ∷ []

-- the first budget is one interactive quantum
first_budget : (read_budget true 5 100000 (idle, quiet)).0 ≡ 65536
unfolding read_budget registered_budget deficit_budget relief_budget top_up lane_quantum
    note_request update_promotions promote_by_bytes promote_by_rounds promote_by_residency
    promote_to_bulk
first_budget = refl

run-IsValid_example : IsValid (run true script (idle, quiet))
run-IsValid_example = run-IsValid true script (idle, quiet) (omega arith)

read_budget-Grants_example :
    Grants 100000 busy (read_budget true 5 100000 busy).0 (read_budget true 5 100000 busy).1
read_budget-Grants_example = read_budget-Grants 5 100000 busy (omega arith) (omega arith) refl

abbrev two_turns : List Turn
two_turns =
    record { requested = 100000; observed = 60000; now = 5 }
    ∷ record { requested = 50000; observed = 20000; now = 6 }
    ∷ []

turns-fair_example :
    total_observed two_turns + (after_turns two_turns busy).0.deficit_bytes ≤ 1000 + 2 * 65536
unfolding read_budget registered_budget deficit_budget relief_budget top_up lane_quantum
    note_request update_promotions promote_by_bytes promote_by_rounds promote_by_residency
    promote_to_bulk update_depth_max note_bytes serve charge count_bytes note_complete yield_hint
    is_full_budget_turn
turns-fair_example = turns-fair two_turns busy (omega arith) refl (omega arith)

abbrev bulk_turns : List Turn
bulk_turns =
    record { requested = 100000; observed = 30000; now = 5 }
    ∷ record { requested = 50000; observed = 20000; now = 6 }
    ∷ []

update_promotions-is_heavy_example :
    is_bulk (update_promotions busy).0.lane_class ≡ (is_bulk lane_interactive || is_heavy busy.0)
update_promotions-is_heavy_example = update_promotions-is_heavy busy refl (refl, refl, refl)

residency_samples :
    let uc' = record_residency quiet 3500 in
    (uc'.residency_us_p50_sample ≡ 8000) × (uc'.residency_us_p95_sample ≡ 512000)
unfolding record_residency refresh_samples count_residency hist_total find_percentiles target50
    target95
residency_samples = (refl, refl)
