-- ===== src/BodySched.antt =====
-- core/body_scheduler.c: the request-body scheduler.
pub mod Types
pub mod Samples
pub mod Promote
pub mod Ops
pub mod Notes
pub mod Valid
pub mod Calls
pub mod Budget
pub mod Fairness
pub mod Lanes
pub mod Histogram
mod Tests
