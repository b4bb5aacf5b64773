-- ===== src/Chunked.antt =====
-- core/chunked.c: the reader of chunked request bodies.
pub mod Socket
pub mod Input
pub mod Receive
pub mod Lines
pub mod Frames
pub mod Refuse
mod Tests
