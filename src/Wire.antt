-- ===== src/Wire.antt =====
-- The upsgi packet format: core/protocol.c and upsgi_req_append.
pub mod Parse
pub mod RoundTrip
pub mod Total
pub mod Simple
pub mod Length
pub mod Range
pub mod Equal
mod Tests
