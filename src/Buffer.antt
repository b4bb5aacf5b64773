-- ===== src/Buffer.antt =====
-- core/buffer.c: the growing byte buffer, and what is encoded into it.
pub mod Ops
pub mod Encode
pub mod Escape
pub mod Memory
pub mod Numbers
pub mod Text
mod Tests
