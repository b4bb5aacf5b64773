-- ===== src/WebSocket.antt =====
-- core/websockets.c: the frames of WebSockets.
pub mod Types
pub mod Send
pub mod Receive
pub mod Frame
pub mod Deliver
pub mod Fragments
pub mod Refuse
pub mod Session
pub mod Mask
pub mod RoundTrip
mod Tests
