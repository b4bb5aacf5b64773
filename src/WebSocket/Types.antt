-- ===== src/WebSocket/Types.antt =====
-- The websocket_ fields of struct wsgi_request, upsgi.websockets_continuation_buffer, and what the functions
-- of core/websockets.c are answered: `clock` and `write_ok` say what the calls of upsgi_now() and
-- upsgi_response_write_body_do() give, by their number; `sent` are the frames written so far.
use upsgi.Common.{ℕ, ◌+◌, Bool, List, [], ◌∷◌, ◌++◌, Option, length}
use upsgi.Buffer.Ops.{Buffer}
use upsgi.Chunked.Socket.{Read, Wait}

-- upsgi.websockets_max_size (in KiB), _ping_freq and _pong_tolerance, upsgi.page_size, and which sizes
-- realloc() finds room for
pub record Settings : Type 0 where
  pub max_size : ℕ
  pub ping_freq : ℕ
  pub pong_tolerance : ℕ
  pub page_size : ℕ
  pub alloc : ℕ → Bool

pub record Session : Type 0 where
  pub buf : Buffer
  pub need : ℕ
  pub phase : ℕ
  pub pktsize : ℕ
  pub size : ℕ
  pub opcode : ℕ
  pub is_fin : Bool
  pub has_mask : Bool
  pub last_ping : ℕ
  pub last_pong : ℕ
  pub closed : Bool
  pub continuation : Option Buffer
  pub tick : ℕ
  pub sent : List (List ℕ)
  pub reads : List Read
  pub waits : List Wait

-- the answers of the clock and of the peer
pub record Peer : Type 0 where
  pub clock : ℕ → ℕ
  pub write_ok : ℕ → Bool

-- upsgi_now()
unfoldable pub tick_clock : Session → Session
tick_clock s = record s { tick = s.tick + 1 }

-- upsgi_response_write_body_do(): whether it succeeds
unfoldable pub write_body : Peer → List ℕ → Session → Bool × Session
write_body peer bytes s = (peer.write_ok (length s.sent), record s { sent = s.sent ++ bytes ∷ [] })
