-- ===== src/BodySched/Ops.antt =====
-- The operations that the readers of a request body call: upsgi_body_sched_note_request,
-- _read_budget, _note_bytes, _note_empty_read, _note_eagain, _note_chunked_complete and _finish.
-- `enabled` is upsgi.body_scheduler, and `now` the value of upsgi_micros() at the call.
use upsgi.Common.{ℕ, Bool, true, false, not, ◌&&◌, ltb, ◌==◌, if◌then◌else◌, add64, mul64, min}
use upsgi.BodySched.Types.{lane_interactive, State, deficit_cap_multiplier}
use upsgi.BodySched.Promote.{lane_quantum, update_depth_max, update_promotions}

unfoldable pub note_request : Bool → ℕ → State → State
note_request enabled now (r, uc) =
    if r.registered
    then (r, uc)
    else if r.post_cl == 0 && not r.body_is_chunked
    then (r, uc)
    else let fallback = not enabled && not r.disabled_fallback_noted in
      let uc' = update_depth_max (record uc {
        active_items = add64 uc.active_items 1;
        interactive_depth_current = add64 uc.interactive_depth_current 1;
      }) in
      (
        record r {
          registered = true;
          lane_class = lane_interactive;
          started_at_us = now;
          last_service_us = now;
          disabled_fallback_noted = if fallback then true else r.disabled_fallback_noted;
        },
        if fallback
            then record uc' { disabled_fallbacks = add64 uc'.disabled_fallbacks 1 }
            else uc',
      )

-- The deficit after a top-up by the lane's quantum, and whether the cap was hit.
unfoldable pub top_up : ℕ → ℕ → ℕ × Bool
top_up quantum deficit =
    let cap = mul64 quantum deficit_cap_multiplier in
    let deficit' = add64 deficit quantum in
    if ltb deficit cap
    then (if ltb cap deficit' then (cap, true) else (deficit', false))
    else (deficit, true)

-- read_budget once the request is registered and its lane is up to date, after a wait event
unfoldable pub relief_budget : ℕ → State → ℕ × State
relief_budget requested (r, uc) =
    let grant = min requested (lane_quantum r) in
    (
      grant,
      (
        record r { last_budget_bytes = grant },
        record uc {
          wait_relief_events = add64 uc.wait_relief_events 1;
          credit_granted_bytes = add64 uc.credit_granted_bytes grant;
        },
      ),
    )

-- the same, from the deficit
unfoldable pub deficit_budget : ℕ → State → ℕ × State
deficit_budget requested (r, uc) =
    let quantum = lane_quantum r in
    let (deficit, hit) = top_up quantum r.deficit_bytes in
    let starved = min requested deficit == 0 in
    let grant = if starved then min requested quantum else min requested deficit in
    let capped = ltb grant requested in
    let skips = if starved then add64 uc.no_credit_skips 1 else uc.no_credit_skips in
    (
      grant,
      (
        record r {
          deficit_bytes = if starved then 0 else deficit;
          last_budget_capped = if capped then true else r.last_budget_capped;
          last_budget_bytes = grant;
        },
        record uc {
          overflow_protection_hits =
              if hit then add64 uc.overflow_protection_hits 1 else uc.overflow_protection_hits;
          no_credit_skips = if capped then add64 skips 1 else skips;
          credit_granted_bytes = add64 uc.credit_granted_bytes grant;
        },
      ),
    )

-- read_budget of a registered request
unfoldable pub registered_budget : Bool → ℕ → State → ℕ × State
registered_budget enabled requested (r, uc) =
    let cleared = record r { last_budget_capped = false; last_budget_bytes = 0 } in
    let promoted = update_promotions (cleared, uc) in
    if not enabled
    then (
      requested,
      (
        record cleared { last_budget_bytes = requested },
        record uc { credit_granted_bytes = add64 uc.credit_granted_bytes requested },
      ),
    )
    else if promoted.0.recent_wait_event
    then relief_budget requested promoted
    else deficit_budget requested promoted

unfoldable pub read_budget : Bool → ℕ → ℕ → State → ℕ × State
read_budget enabled now requested s =
    let noted = note_request enabled now s in
    if requested == 0
    then (requested, s)
    else if not noted.0.registered
    then (requested, noted)
    else registered_budget enabled requested noted
