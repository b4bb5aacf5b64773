-- ===== src/BodySched/Promote.antt =====
-- Lanes: upsgi_body_sched_lane_quantum, upsgi_body_sched_is_full_budget_turn,
-- upsgi_body_sched_update_depth_max, upsgi_body_sched_promote_to_bulk and
-- upsgi_body_sched_update_promotions.
use upsgi.Common.{
  ℕ, ◌-◌, Bool, true, false, not, ◌&&◌, ltb, leb, ◌==◌, if◌then◌else◌, add64, sub64, mul64,
}
use upsgi.BodySched.Types.{
  Lane, lane_none, lane_interactive, lane_bulk, Request, Core, State, interactive_bytes_threshold,
  interactive_rounds_threshold, interactive_residency_us_threshold, promotion_min_bytes,
  full_budget_promotion_threshold, interactive_quantum_bytes, bulk_quantum_bytes,
}

abbrev pub is_bulk : Lane → Bool
is_bulk lane_bulk = true
is_bulk lane_interactive = false
is_bulk lane_none = false

unfoldable pub lane_quantum : Request → ℕ
lane_quantum r = if is_bulk r.lane_class then bulk_quantum_bytes else interactive_quantum_bytes

unfoldable pub is_full_budget_turn : Request → ℕ → Bool
is_full_budget_turn r observed =
    if r.last_budget_bytes == 0
    then false
    else if leb r.last_budget_bytes observed
    then true
    else leb (mul64 r.last_budget_bytes 7) (mul64 observed 8)

unfoldable pub update_depth_max : Core → Core
update_depth_max uc = record uc {
  interactive_depth_max =
      if ltb uc.interactive_depth_max uc.interactive_depth_current
      then uc.interactive_depth_current
      else uc.interactive_depth_max;
  bulk_depth_max =
      if ltb uc.bulk_depth_max uc.bulk_depth_current
      then uc.bulk_depth_current
      else uc.bulk_depth_max;
}

-- `if (n > 0) n--;`
abbrev pub dec_pos : ℕ → ℕ
dec_pos n = if ltb 0 n then n - 1 else n

unfoldable pub promote_to_bulk : State → State
unfolding update_depth_max
promote_to_bulk (r, uc) = if is_bulk r.lane_class then (r, uc) else (
  record r {
    lane_class = lane_bulk;
    deficit_bytes =
        if ltb bulk_quantum_bytes r.deficit_bytes then bulk_quantum_bytes else r.deficit_bytes;
  },
  let uc' = update_depth_max (record uc {
    interactive_depth_current = dec_pos uc.interactive_depth_current;
    bulk_depth_current = add64 uc.bulk_depth_current 1;
  }) in
      record uc' { promotions_to_bulk = add64 uc'.promotions_to_bulk 1 },
)

-- the three tests of update_promotions in turn
unfoldable pub promote_by_bytes : State → State
promote_by_bytes (r, uc) =
    if not r.promoted_by_bytes && leb interactive_bytes_threshold r.bytes_observed
    then promote_to_bulk (
      record r { promoted_by_bytes = true },
      record uc { items_promoted_by_bytes = add64 uc.items_promoted_by_bytes 1 },
    )
    else (r, uc)

unfoldable pub promote_by_rounds : State → State
promote_by_rounds (r, uc) =
    if not r.promoted_by_rounds
      && (leb interactive_rounds_threshold r.rounds_observed
          && (leb promotion_min_bytes r.bytes_observed
              && leb full_budget_promotion_threshold r.full_budget_turns))
    then promote_to_bulk (
      record r { promoted_by_rounds = true },
      record uc { items_promoted_by_rounds = add64 uc.items_promoted_by_rounds 1 },
    )
    else (r, uc)

unfoldable pub promote_by_residency : ℕ → State → State
promote_by_residency residency_us (r, uc) =
    if not r.promoted_by_residency
      && (leb interactive_residency_us_threshold residency_us
          && (leb promotion_min_bytes r.bytes_observed && ltb 0 r.full_budget_turns))
    then promote_to_bulk (
      record r { promoted_by_residency = true },
      record uc { items_promoted_by_residency = add64 uc.items_promoted_by_residency 1 },
    )
    else (r, uc)

unfoldable pub update_promotions : State → State
update_promotions (r, uc) =
    let residency_us = sub64 r.last_service_us r.started_at_us in
    if not r.registered
    then (r, uc)
    else promote_by_residency residency_us (promote_by_rounds (promote_by_bytes (r, uc)))
