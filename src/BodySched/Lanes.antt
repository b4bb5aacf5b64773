-- ===== src/BodySched/Lanes.antt =====
-- When a request leaves the interactive lane.
use upsgi.Common.{ℕ, ◌+◌, ◌^◌, ◌≤◌, ◌<◌, ◌≡◌, Bool, true, false, ◌&&◌, ◌||◌, arith, leb, sub64}
use upsgi.BodySched.Types.{Request, State, interactive_bytes_threshold}
use upsgi.BodySched.Promote.{
  promote_to_bulk, promote_by_bytes, promote_by_rounds, promote_by_residency, update_promotions,
  is_bulk,
}
use upsgi.BodySched.Notes.{count_bytes, charge, note_complete, yield_hint, serve, note_bytes}
use upsgi.BodySched.Budget.{note_request_registered}

-- The three reasons to leave the interactive lane: 256 KiB seen; or four rounds, 64 KiB and two full
-- turns in a row; or 250 ms of residency, 64 KiB and a full turn.
abbrev pub is_heavy : Request → Bool
is_heavy r =
    leb 262144 r.bytes_observed
    || (leb 4 r.rounds_observed && (leb 65536 r.bytes_observed && leb 2 r.full_budget_turns))
    || (leb 250000 (sub64 r.last_service_us r.started_at_us)
        && (leb 65536 r.bytes_observed && leb 1 r.full_budget_turns))

-- No promotion has been noted for the request.
abbrev pub IsUnpromoted : Request → Type 0
IsUnpromoted r =
    (r.promoted_by_bytes ≡ false)
    × (r.promoted_by_rounds ≡ false)
    × (r.promoted_by_residency ≡ false)

-- A registered request with no promotion noted is in the bulk lane afterwards exactly when it was
-- before or is heavy.
pub update_promotions-is_heavy :
    (s : State)
    → s.0.registered ≡ true
    → IsUnpromoted s.0
    → is_bulk (update_promotions s).0.lane_class ≡ (is_bulk s.0.lane_class || is_heavy s.0)
unfolding update_promotions promote_by_bytes promote_by_rounds promote_by_residency promote_to_bulk
update_promotions-is_heavy s reg u = ground arith

-- Each promotion that was noted has put the request in the bulk lane.
abbrev pub IsNoted : Request → Type 0
IsNoted r = r.promoted_by_bytes ≡ true → is_bulk r.lane_class ≡ true

record Heavy (s t : State) : Type 0 where
  noted : IsNoted t.0
  large : interactive_bytes_threshold ≤ s.0.bytes_observed → is_bulk t.0.lane_class ≡ true

update_promotions-Heavy :
    (s : State) → s.0.registered ≡ true → IsNoted s.0 → Heavy s (update_promotions s)
unfolding update_promotions promote_by_bytes promote_by_rounds promote_by_residency promote_to_bulk
update_promotions-Heavy s reg n = ground arith

-- Once note_bytes has seen 256 KiB of a registered request in all, the request is in the bulk lane;
-- and it keeps to that whatever it has seen: a noted promotion by bytes means the bulk lane.
pub note_bytes-is_bulk :
    (enabled : Bool) (now served observed : ℕ) (s : State)
    → 0 < observed
    → s.0.bytes_observed + observed < 2 ^ 64
    → s.0.registered ≡ true
    → IsNoted s.0
    → IsNoted (note_bytes enabled now served observed s).0
      × (262144 ≤ s.0.bytes_observed + observed
          → is_bulk (note_bytes enabled now served observed s).0.lane_class ≡ true)
unfolding note_bytes serve charge count_bytes note_complete yield_hint
note_bytes-is_bulk enabled now served observed s p w reg n = ground (
  arith,
  note_request_registered enabled now s reg,
  update_promotions-Heavy (charge enabled observed (count_bytes observed served s)) reg n,
)
