-- ===== src/BodySched/Types.antt =====
-- core/body_scheduler.c and the fields of struct wsgi_request and struct upsgi_core (upsgi.h) that
-- it reads and writes. A pointer to a request is never NULL here: on NULL each function returns
-- before it touches any state.
use upsgi.Common.{ℕ, ◌*◌, Bool, List, [], ◌∷◌}

-- The values of body_sched_lane_class.
pub data Lane : Type 0 where
  lane_none lane_interactive lane_bulk : Lane

pub record Request : Type 0 where
  pub post_cl : ℕ
  pub body_is_chunked : Bool
  pub started_at_us : ℕ
  pub last_service_us : ℕ
  pub bytes_observed : ℕ
  pub deficit_bytes : ℕ
  pub last_budget_bytes : ℕ
  pub rounds_observed : ℕ
  pub full_budget_turns : ℕ
  pub registered : Bool
  pub lane_class : Lane
  pub promoted_by_bytes : Bool
  pub promoted_by_rounds : Bool
  pub promoted_by_residency : Bool
  pub marked_complete : Bool
  pub last_budget_capped : Bool
  pub disabled_fallback_noted : Bool
  pub recent_wait_event : Bool

-- The counters of the core that serves the request.
pub record Core : Type 0 where
  pub rounds : ℕ
  pub interactive_turns : ℕ
  pub bulk_turns : ℕ
  pub requeues : ℕ
  pub promotions_to_bulk : ℕ
  pub no_credit_skips : ℕ
  pub empty_read_events : ℕ
  pub eagain_events : ℕ
  pub completed_items : ℕ
  pub bytes_interactive : ℕ
  pub bytes_bulk : ℕ
  pub bytes_total : ℕ
  pub credit_granted_bytes : ℕ
  pub credit_unused_bytes : ℕ
  pub active_items : ℕ
  pub interactive_depth_max : ℕ
  pub bulk_depth_max : ℕ
  pub residency_us_max : ℕ
  pub residency_us_p50_sample : ℕ
  pub residency_us_p95_sample : ℕ
  pub items_promoted_by_bytes : ℕ
  pub items_promoted_by_rounds : ℕ
  pub items_promoted_by_residency : ℕ
  pub near_complete_fastfinishes : ℕ
  pub overflow_protection_hits : ℕ
  pub disabled_fallbacks : ℕ
  pub full_budget_turns : ℕ
  pub wait_relief_events : ℕ
  pub yield_hints : ℕ
  pub interactive_depth_current : ℕ
  pub bulk_depth_current : ℕ
  pub residency_hist : List ℕ

abbrev pub State : Type 0
State = Request × Core

abbrev pub interactive_bytes_threshold : ℕ
interactive_bytes_threshold = 256 * 1024

abbrev pub interactive_rounds_threshold : ℕ
interactive_rounds_threshold = 4

abbrev pub interactive_residency_us_threshold : ℕ
interactive_residency_us_threshold = 250 * 1000

abbrev pub near_complete_bytes_threshold : ℕ
near_complete_bytes_threshold = 64 * 1024

abbrev pub promotion_min_bytes : ℕ
promotion_min_bytes = 64 * 1024

abbrev pub full_budget_promotion_threshold : ℕ
full_budget_promotion_threshold = 2

abbrev pub interactive_quantum_bytes : ℕ
interactive_quantum_bytes = 64 * 1024

abbrev pub bulk_quantum_bytes : ℕ
bulk_quantum_bytes = 32 * 1024

abbrev pub deficit_cap_multiplier : ℕ
deficit_cap_multiplier = 4

-- upsgi_body_sched_residency_bucket_limits_us; the last is UINT64_MAX
abbrev pub bucket_limits : List ℕ
bucket_limits =
    1000 ∷ 2000 ∷ 4000 ∷ 8000 ∷ 16000 ∷ 32000 ∷ 64000 ∷ 128000 ∷ 256000 ∷ 512000 ∷ 1000000 ∷ 2000000
    ∷ 4000000 ∷ 8000000 ∷ 16000000 ∷ 18446744073709551615 ∷ []
