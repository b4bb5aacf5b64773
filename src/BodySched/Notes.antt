-- ===== src/BodySched/Notes.antt =====
-- What the readers report back: upsgi_body_sched_note_bytes, _note_empty_read, _note_eagain,
-- _note_chunked_complete and _finish. `now` is upsgi_micros() at the call; note_bytes reads the clock
-- twice, once to register the request (`now`) and once for the service time (`served`).
use upsgi.Common.{
  ℕ, ◌-◌, Bool, true, false, not, ◌&&◌, ltb, leb, ◌==◌, if◌then◌else◌, add64, sub64, add32, min,
}
use upsgi.BodySched.Types.{Request, Core, State, near_complete_bytes_threshold}
use upsgi.BodySched.Promote.{is_bulk, is_full_budget_turn, dec_pos, update_promotions}
use upsgi.BodySched.Ops.{note_request}
use upsgi.BodySched.Samples.{record_residency}

-- the counters of note_bytes, up to the accounting of unused credit
unfoldable pub count_bytes : ℕ → ℕ → State → State
count_bytes observed served (r, uc) =
    let bulk = is_bulk r.lane_class in
    (
      record r {
        rounds_observed = add32 r.rounds_observed 1;
        bytes_observed = add64 r.bytes_observed observed;
        last_service_us = served;
      },
      record uc {
        rounds = add64 uc.rounds 1;
        bulk_turns = if bulk then add64 uc.bulk_turns 1 else uc.bulk_turns;
        bytes_bulk = if bulk then add64 uc.bytes_bulk observed else uc.bytes_bulk;
        interactive_turns = if bulk then uc.interactive_turns else add64 uc.interactive_turns 1;
        bytes_interactive =
            if bulk then uc.bytes_interactive else add64 uc.bytes_interactive observed;
        bytes_total = add64 uc.bytes_total observed;
        requeues = if r.marked_complete then uc.requeues else add64 uc.requeues 1;
        credit_unused_bytes =
            if ltb observed r.last_budget_bytes
            then add64 uc.credit_unused_bytes (r.last_budget_bytes - observed)
            else uc.credit_unused_bytes;
      },
    )

-- the deficit is charged, and the turn counted as full or not
unfoldable pub charge : Bool → ℕ → State → State
charge enabled observed (r, uc) =
    let full = is_full_budget_turn r observed in
    (
      record r {
        deficit_bytes =
            if enabled
            then (if leb observed r.deficit_bytes then r.deficit_bytes - observed else 0)
            else r.deficit_bytes;
        full_budget_turns = if full then add32 r.full_budget_turns 1 else 0;
      },
      record uc {
        full_budget_turns = if full then add64 uc.full_budget_turns 1 else uc.full_budget_turns;
      },
    )

-- a body with a Content-Length is complete once that many bytes were seen
unfoldable pub note_complete : ℕ → State → State
note_complete bytes_before (r, uc) =
    if not r.body_is_chunked && (ltb 0 r.post_cl && leb r.post_cl r.bytes_observed)
    then (
      record r { marked_complete = true },
      if leb (r.post_cl - min bytes_before r.post_cl) near_complete_bytes_threshold
          then record uc { near_complete_fastfinishes = add64 uc.near_complete_fastfinishes 1 }
          else uc,
    )
    else (r, uc)

-- the yield hint; sched_yield() itself has no effect on the state
unfoldable pub yield_hint : Bool → Bool → State → State
yield_hint enabled full (r, uc) =
    let hint =
      enabled
      && (r.last_budget_capped
          && (is_bulk r.lane_class
              && (not r.marked_complete && (full && not r.recent_wait_event)))) in
    (
      record r { recent_wait_event = false },
      if hint then record uc { yield_hints = add64 uc.yield_hints 1 } else uc,
    )

-- note_bytes of a registered request
unfoldable pub serve : Bool → ℕ → ℕ → State → State
serve enabled served observed s =
    let charged = charge enabled observed (count_bytes observed served s) in
    let promoted = update_promotions charged in
    yield_hint enabled (is_full_budget_turn s.0 observed)
      (note_complete s.0.bytes_observed promoted)

unfoldable pub note_bytes : Bool → ℕ → ℕ → ℕ → State → State
note_bytes enabled now served observed s =
    let noted = note_request enabled now s in
    if observed == 0
    then s
    else if not noted.0.registered
    then noted
    else serve enabled served observed noted

-- the two events that make the next turn a relief turn
abbrev wait_event : Request → Request
wait_event r = record r { recent_wait_event = true; full_budget_turns = 0 }

unfoldable pub note_empty_read : Bool → ℕ → State → State
note_empty_read enabled now s =
    let (r, uc) = note_request enabled now s in
    if not r.registered
    then (r, uc)
    else (wait_event r, record uc { empty_read_events = add64 uc.empty_read_events 1 })

unfoldable pub note_eagain : Bool → ℕ → State → State
note_eagain enabled now s =
    let (r, uc) = note_request enabled now s in
    if not r.registered
    then (r, uc)
    else (wait_event r, record uc { eagain_events = add64 uc.eagain_events 1 })

unfoldable pub note_chunked_complete : Bool → ℕ → State → State
note_chunked_complete enabled now s =
    let (r, uc) = note_request enabled now s in (record r { marked_complete = true }, uc)

-- the request leaves its lane
unfoldable pub leave_lane : State → Core
leave_lane (r, uc) =
    let uc' = record uc { active_items = dec_pos uc.active_items } in
    if is_bulk r.lane_class
    then record uc' { bulk_depth_current = dec_pos uc'.bulk_depth_current }
    else record uc' { interactive_depth_current = dec_pos uc'.interactive_depth_current }

unfoldable pub finish : ℕ → State → State
finish now (r, uc) =
    let uc' = record_residency (leave_lane (r, uc)) (sub64 now r.started_at_us) in
    if not r.registered then (r, uc) else (
      record r {
        registered = false;
        deficit_bytes = 0;
        last_budget_bytes = 0;
        last_budget_capped = false;
        disabled_fallback_noted = false;
        recent_wait_event = false;
        full_budget_turns = 0;
      },
      if r.marked_complete
          then record uc' { completed_items = add64 uc'.completed_items 1 }
          else uc',
    )
