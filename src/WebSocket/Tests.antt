-- ===== src/WebSocket/Tests.antt =====
-- Frames at concrete inputs.
use upsgi.Common.{ℕ, ◌+◌, ◌≡◌, refl, arith, true, false, List, [], ◌∷◌, ◌++◌, Option, none, some}
use upsgi.Common.Text.{codes}
use upsgi.Buffer.Ops.{Buffer, done, new, append, put, ensure, decapitate}
use upsgi.Buffer.Encode.{u8, append_byte}
use upsgi.Chunked.Socket.{arrived, again, timeout}
use upsgi.WebSocket.Types.{Settings, Session, Peer, write_body, tick_clock}
use upsgi.WebSocket.Send.{
  pong_frame, ping_frame, close_frame, websocket_message, message_head, websocket_send,
}
use upsgi.WebSocket.Receive.{
  message, null, crash, websocket_recv, recv_loop, turn, phase_header, parse_header, phase_mask,
  phase_frame, skip_frame, websockets_parse, join_frame, frame_data, unmask, fill, recv_pkt,
  check_pingpong, websockets_ping, take_bytes, read_ready, waiting, onwards,
}
use upsgi.WebSocket.Frame.{IsIdle, header_turns}
use upsgi.WebSocket.Deliver.{frame_then}
use upsgi.WebSocket.RoundTrip.{receiving, recv-websocket_message}
use upsgi.WebSocket.Fragments.{Piece, Receives, pieces_then, receives-pieces}
use upsgi.WebSocket.Session.{after_control, recv-control, recv-close}

abbrev settings : Settings
settings = record {
  max_size = 1;
  ping_freq = 30;
  pong_tolerance = 3;
  page_size = 4096;
  alloc = λ _. true;
}

abbrev peer : Peer
peer = record { clock = λ n. 1000 + n; write_ok = λ _. true }

abbrev opened : Session
opened = record {
  buf = record { bytes = []; len = 4096; limit = 0 };
  need = 2;
  phase = 0;
  pktsize = 0;
  size = 0;
  opcode = 0;
  is_fin = false;
  has_mask = false;
  last_ping = 0;
  last_pong = 0;
  closed = false;
  continuation = none;
  tick = 0;
  sent = [];
  reads = [];
  waits = [];
}

abbrev mask : List ℕ
mask = 55 ∷ 250 ∷ 33 ∷ 61 ∷ []

abbrev first : Piece
first = record { mask = mask; text = codes "Hel" }

abbrev second : Piece
second = record { mask = 1 ∷ 2 ∷ 3 ∷ 4 ∷ []; text = codes "lo" }

receives-pieces_example :
    (s' : Session) × Receives settings peer false
      (receiving (pieces_then 1 first (second ∷ []) (codes "x")) opened)
      ((0 ∷ []) ∷ codes "Hello" ∷ [])
      s'
    × (s'.buf.bytes ≡ codes "x")
    × IsIdle s'
receives-pieces_example =
    receives-pieces settings (λ n. refl) peer false 1 first (second ∷ []) (codes "x")
      (receiving (pieces_then 1 first (second ∷ []) (codes "x")) opened) (omega arith) (omega arith)
      (
        (
          refl,
          (omega arith, (omega arith, (omega arith, (omega arith, tt)))),
          (omega arith, (omega arith, (omega arith, tt))),
          omega arith,
        ),
        (
          refl,
          (omega arith, (omega arith, (omega arith, (omega arith, tt)))),
          (omega arith, (omega arith, tt)),
          omega arith,
        ),
      )
      refl (refl, refl) refl (omega arith)

abbrev sent_hi : Buffer
sent_hi = record { bytes = 129 ∷ 2 ∷ codes "hi"; len = 12; limit = 0 }

websocket_message-hi : websocket_message settings (new 12) (codes "hi") 129 ≡ done sent_hi
unfolding websocket_message message_head u8 append_byte append put new
websocket_message-hi = refl

recv-websocket_message_example :
    (s' : Session) × (websocket_recv settings peer true
        (header_turns false 2 + 1)
        (receiving (sent_hi.bytes ++ codes "rest") opened)
      ≡ message (codes "hi") s')
    × (s'.buf.bytes ≡ codes "rest")
    × IsIdle s'
recv-websocket_message_example =
    recv-websocket_message settings settings peer true 0 (new 12) (codes "hi") 1 (codes "rest")
      opened websocket_message-hi (omega arith) (omega arith) (refl, refl) refl (omega arith)
      (omega arith)

-- a ping with the payload "hi", and a frame behind it
abbrev pinged : Session
pinged = receiving (frame_then true 9 false (0 ∷ 0 ∷ 0 ∷ 0 ∷ []) (codes "hi") (codes "rest")) opened

recv-control_example :
    websocket_recv settings peer true (header_turns false 2 + 8) pinged
    ≡ websocket_recv settings peer true 7 (
        after_control true false 9
          (0 ∷ 0 ∷ 0 ∷ 0 ∷ [])
          (codes "hi")
          (codes "rest")
          pinged
          refl
          refl
          peer)
recv-control_example =
    recv-control true false 9 (0 ∷ 0 ∷ 0 ∷ 0 ∷ []) (codes "hi") (codes "rest") pinged refl refl
      settings peer true 7 (refl, refl) refl (omega arith) (λ _. omega arith) (omega arith)
      (omega arith) (omega arith) (λ _. refl)

-- a close frame with the code 1000
abbrev leaving : Session
leaving = receiving (frame_then true 8 false (0 ∷ 0 ∷ 0 ∷ 0 ∷ []) (3 ∷ 232 ∷ []) []) opened

recv-close_example :
    (s' : Session) × (websocket_recv settings peer true (header_turns false 2 + 1) leaving
      ≡ null s')
    × (s'.sent ≡ close_frame ∷ [])
    × (s'.closed ≡ true)
    × ((f : ℕ) → websocket_recv settings peer true f s' ≡ null s')
    × ((ub : Buffer) (msg : List ℕ) (code : ℕ)
        → websocket_send settings peer ub msg code s' ≡ (false, s'))
recv-close_example =
    recv-close true false 8 (0 ∷ 0 ∷ 0 ∷ 0 ∷ []) (3 ∷ 232 ∷ []) [] leaving refl refl settings peer
      true 0 (refl, refl) refl (omega arith) (λ _. omega arith) refl

-- the last frame of a message that did not begin
abbrev orphaned : Session
orphaned = receiving (frame_then true 0 false (0 ∷ 0 ∷ 0 ∷ 0 ∷ []) (codes "x") []) opened

-- the header of a frame of 1025 bytes, where 1024 are allowed
abbrev oversize : Session
oversize = receiving (130 ∷ 126 ∷ 4 ∷ 1 ∷ []) opened

-- a ping in two reads, then a frame in pieces that other pings may part
abbrev arriving : Session
arriving = record opened {
  reads = arrived (137 ∷ []) ∷ again ∷ arrived (0 ∷ 129 ∷ 1 ∷ []) ∷ arrived (65 ∷ []) ∷ [];
  waits = timeout ∷ [];
}

abbrev received : Option (List ℕ × List (List ℕ))
received = elim (websocket_recv settings peer false 20 arriving) [
  | message m s ↦ some (m, s.sent)
  | null s ↦ none
  | crash ↦ none
  | waiting ↦ none
  | onwards s ↦ none
]

websocket_recv-pieces : received ≡ some (65 ∷ [], ping_frame ∷ pong_frame ∷ [])
unfolding websocket_recv recv_loop turn phase_header parse_header phase_mask phase_frame skip_frame
    websockets_parse join_frame frame_data unmask fill recv_pkt take_bytes read_ready check_pingpong
    websockets_ping tick_clock write_body append put new ensure decapitate
websocket_recv-pieces = refl
