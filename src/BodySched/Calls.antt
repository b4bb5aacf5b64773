-- ===== src/BodySched/Calls.antt =====
-- Any sequence of calls keeps the invariant.
use upsgi.Common.{ℕ, ◌≡◌, Bool, sub64, List, [], ◌∷◌, arith}
use upsgi.BodySched.Types.{Core, State}
use upsgi.BodySched.Promote.{is_full_budget_turn}
use upsgi.BodySched.Samples.{record_residency, refresh_samples}
use upsgi.BodySched.Ops.{note_request, read_budget}
use upsgi.BodySched.Notes.{
  count_bytes, charge, note_complete, yield_hint, serve, note_bytes, note_empty_read, note_eagain,
  note_chunked_complete, leave_lane, finish,
}
use upsgi.BodySched.Valid.{
  IsValid, update_promotions-IsValid, note_request-IsValid, read_budget-IsValid,
}

charge-IsValid :
    (enabled : Bool) (served observed : ℕ) (s : State)
    → IsValid s
    → IsValid (charge enabled observed (count_bytes observed served s))
unfolding charge count_bytes
charge-IsValid enabled served observed s v = ground arith

note_complete-IsValid : (before : ℕ) (s : State) → IsValid s → IsValid (note_complete before s)
unfolding note_complete
note_complete-IsValid before s v = ground arith

yield_hint-IsValid :
    (enabled full : Bool) (s : State) → IsValid s → IsValid (yield_hint enabled full s)
unfolding yield_hint
yield_hint-IsValid enabled full s v = ground arith

serve-IsValid :
    (enabled : Bool) (served observed : ℕ) (s : State)
    → IsValid s
    → IsValid (serve enabled served observed s)
unfolding serve
serve-IsValid enabled served observed s v =
    yield_hint-IsValid enabled (is_full_budget_turn s.0 observed) _ (
      note_complete-IsValid s.0.bytes_observed _
        (update_promotions-IsValid _ (charge-IsValid enabled served observed s v)))

pub note_bytes-IsValid :
    (enabled : Bool) (now served observed : ℕ) (s : State)
    → IsValid s
    → IsValid (note_bytes enabled now served observed s)
unfolding note_bytes
note_bytes-IsValid enabled now served observed s v =
    let noted = note_request-IsValid enabled now s v in
    ground (arith, noted, serve-IsValid enabled served observed (note_request enabled now s))

note_empty_read-IsValid :
    (enabled : Bool) (now : ℕ) (s : State) → IsValid s → IsValid (note_empty_read enabled now s)
unfolding note_empty_read
note_empty_read-IsValid enabled now s v = ground (arith, note_request-IsValid enabled now s v)

note_eagain-IsValid :
    (enabled : Bool) (now : ℕ) (s : State) → IsValid s → IsValid (note_eagain enabled now s)
unfolding note_eagain
note_eagain-IsValid enabled now s v = ground (arith, note_request-IsValid enabled now s v)

note_chunked_complete-IsValid :
    (enabled : Bool) (now : ℕ) (s : State)
    → IsValid s
    → IsValid (note_chunked_complete enabled now s)
unfolding note_chunked_complete
note_chunked_complete-IsValid enabled now s v = ground (arith, note_request-IsValid enabled now s v)

-- Recording a residency touches no gauge.
record_residency_frame :
    (uc : Core) (us : ℕ)
    → let uc' = record_residency uc us in
      (uc'.active_items ≡ uc.active_items)
      × (uc'.interactive_depth_current ≡ uc.interactive_depth_current)
      × (uc'.bulk_depth_current ≡ uc.bulk_depth_current)
      × (uc'.interactive_depth_max ≡ uc.interactive_depth_max)
      × (uc'.bulk_depth_max ≡ uc.bulk_depth_max)
unfolding record_residency refresh_samples
record_residency_frame uc us = ground arith

finish-IsValid : (now : ℕ) (s : State) → IsValid s → IsValid (finish now s)
unfolding finish leave_lane
finish-IsValid now s v =
    ground (arith, record_residency_frame (leave_lane s) (sub64 now s.0.started_at_us))

-- The calls that the readers of a body make, each with the clock readings that it takes.
pub data Call : Type 0 where
  budget : ℕ → ℕ → Call
  bytes : ℕ → ℕ → ℕ → Call
  empty_read : ℕ → Call
  eagain : ℕ → Call
  chunked_complete : ℕ → Call
  end : ℕ → Call

unfoldable pub call : Bool → Call → State → State
call enabled (budget now requested) s = (read_budget enabled now requested s).1
call enabled (bytes now served observed) s = note_bytes enabled now served observed s
call enabled (empty_read now) s = note_empty_read enabled now s
call enabled (eagain now) s = note_eagain enabled now s
call enabled (chunked_complete now) s = note_chunked_complete enabled now s
call enabled (end now) s = finish now s

unfoldable pub run : Bool → List Call → State → State
run enabled [] s = s
run enabled (c ∷ cs) s = run enabled cs (call enabled c s)

call-IsValid : (enabled : Bool) (c : Call) (s : State) → IsValid s → IsValid (call enabled c s)
unfolding call
call-IsValid enabled (budget now requested) s v = read_budget-IsValid enabled now requested s v
call-IsValid enabled (bytes now served observed) s v =
    note_bytes-IsValid enabled now served observed s v
call-IsValid enabled (empty_read now) s v = note_empty_read-IsValid enabled now s v
call-IsValid enabled (eagain now) s v = note_eagain-IsValid enabled now s v
call-IsValid enabled (chunked_complete now) s v = note_chunked_complete-IsValid enabled now s v
call-IsValid enabled (end now) s v = finish-IsValid now s v

-- Whatever calls are made in whatever order, from a valid state: the gauges active_items,
-- interactive_depth_current and bulk_depth_current count the request in its lane while it is
-- registered and are zero otherwise, the deficit stays within four quanta of the lane, and the
-- recorded maxima are not below the gauges.
pub run-IsValid :
    (enabled : Bool) (cs : List Call) (s : State) → IsValid s → IsValid (run enabled cs s)
unfolding run
run-IsValid enabled [] s v = v
run-IsValid enabled (c ∷ cs) s v =
    run-IsValid enabled cs (call enabled c s) (call-IsValid enabled c s v)
