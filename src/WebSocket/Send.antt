-- ===== src/WebSocket/Send.antt =====
-- upsgi_websocket_message, _send_do, _send and _send_binary, and the three control frames of
-- upsgi_websockets_init.
use upsgi.Common.{ℕ, Bool, true, false, List, [], ◌∷◌, ltb, leb, if◌then◌else◌, length}
use upsgi.Buffer.Ops.{Buffer, Outcome, done, failed, overrun, append, ◌>>=◌}
use upsgi.Buffer.Encode.{u8, u16be, u64be}
use upsgi.WebSocket.Types.{Settings, Session, Peer, write_body}

abbrev pub pong_frame : List ℕ
pong_frame = 138 ∷ 0 ∷ []

abbrev pub ping_frame : List ℕ
ping_frame = 137 ∷ 0 ∷ []

abbrev pub close_frame : List ℕ
close_frame = 136 ∷ 0 ∷ []

module _ (o : Settings) where
  open o use {page_size, alloc}

  -- the opcode and the size, in a buffer that is emptied before
  unfoldable pub message_head : Buffer → ℕ → ℕ → Outcome
  message_head ub len opcode =
      if ltb len 126
      then (u8 page_size alloc ub opcode >>= λ b. u8 page_size alloc b len)
      else if leb len 65535
      then (u8 page_size alloc ub opcode >>= λ b.
          u8 page_size alloc b 126 >>= λ b'. u16be page_size alloc b' len)
      else (u8 page_size alloc ub opcode >>= λ b.
          u8 page_size alloc b 127 >>= λ b'. u64be page_size alloc b' len)

  -- a frame in the send buffer `ub`
  unfoldable pub websocket_message : Buffer → List ℕ → ℕ → Outcome
  websocket_message ub msg opcode =
      message_head (record ub { bytes = [] }) (length msg) opcode >>= λ b.
      append page_size alloc b msg

  -- the return value -1, or 0; the first buffer is new, with room for the message and 10 bytes
  unfoldable pub websocket_send_do : Peer → Buffer → List ℕ → ℕ → Session → Bool × Session
  websocket_send_do peer ub msg opcode s = elim (websocket_message ub msg opcode) [
    | done b ↦ write_body peer b.bytes s
    | failed b ↦ (false, s)
    | overrun ↦ (false, s)
  ]

  -- upsgi_websocket_send with the opcode 0x81, upsgi_websocket_send_binary with 0x82
  unfoldable pub websocket_send : Peer → Buffer → List ℕ → ℕ → Session → Bool × Session
  websocket_send peer ub msg opcode s =
      let (ok, s') = websocket_send_do peer ub msg opcode s in
      if s.closed
      then (false, s)
      else if ok
      then (true, s')
      else (false, record s' { closed = true })
