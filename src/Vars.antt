-- ===== src/Vars.antt =====
-- upsgi_parse_vars of core/protocol.c: the variables of a request.
pub mod Types
pub mod Hooks
pub mod Parse
pub mod Mounts
pub mod Body
pub mod Framing
pub mod Packets
pub mod Fields
pub mod Slots
pub mod Total
mod Tests
