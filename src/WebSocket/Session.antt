-- ===== src/WebSocket/Session.antt =====
-- The control frames of a WebSocket and the frames that are refused.
use upsgi.Common.{
  mul64, ℕ, suc, ◌+◌, ◌^◌, ◌≤◌, ◌<◌, ◌≡◌, ◌≢◌, refl, arith, Bool, true, false, List, [], ◌∷◌, ◌++◌,
  none, ◌==◌, if◌then◌else◌, length,
}
use upsgi.Buffer.Ops.{Buffer, decapitate}
use upsgi.WebSocket.Types.{Settings, Session, Peer, write_body, tick_clock}
use upsgi.WebSocket.Send.{pong_frame, close_frame, websocket_send}
use upsgi.WebSocket.Receive.{
  onwards, null, crash, skip_frame, phase_frame, websockets_parse, turn, recv_loop, websocket_recv,
}
use upsgi.WebSocket.Frame.{framed, header_turns, IsIdle}
use upsgi.WebSocket.Deliver.{frame_then, behind_frame, length-frame, drop-pktsize, recv_loop-framed}

module _ (fin masked : Bool) (opcode : ℕ) (mask wire rest : List ℕ) (s : Session)
    (four : length mask ≡ 4) (e : s.buf.bytes ≡ frame_then fin opcode masked mask wire rest) where
  abbrev start : Session
  start = framed fin opcode masked (length wire) s

  abbrev left : Session
  left = behind_frame fin opcode masked (length wire) rest s

  skip_frame-framed :
      (sent : List (List ℕ)) (tick last_pong : ℕ)
      → skip_frame (record start { sent = sent; tick = tick; last_pong = last_pong })
        ≡ onwards (record left { sent = sent; tick = tick; last_pong = last_pong })
  unfolding skip_frame decapitate
  skip_frame-framed sent tick last_pong = ground (
    arith,
    length-frame fin masked opcode mask wire rest s four e,
    drop-pktsize fin masked opcode mask wire rest s four e,
  )

  -- what a turn makes of a control frame that is no close, or of a frame of an unknown kind
  abbrev pub after_control : Peer → Session
  after_control peer =
      if opcode == 9
      then record left { sent = s.sent ++ pong_frame ∷ [] }
      else if opcode == 10
      then record left { last_pong = peer.clock s.tick; tick = s.tick + 1 }
      else left

  turn-control :
      (o : Settings) (peer : Peer)
      → 2 < opcode
      → opcode ≢ 8
      → (opcode ≡ 9 → peer.write_ok (length s.sent) ≡ true)
      → turn o peer start ≡ onwards (after_control peer)
  unfolding turn phase_frame write_body tick_clock
  turn-control o peer h h8 h9 = ground (
    arith,
    skip_frame-framed (s.sent ++ pong_frame ∷ []) s.tick s.last_pong,
    skip_frame-framed s.sent (s.tick + 1) (peer.clock s.tick),
    skip_frame-framed s.sent s.tick s.last_pong,
    h8,
    h9,
  )

  module _ (o : Settings) (peer : Peer) (nb : Bool) (fuel : ℕ) (idle : IsIdle s)
      (up : s.closed ≡ false) (small : length wire < 2 ^ 62)
      (allowed : 126 ≤ length wire → length wire ≤ mul64 o.max_size 1024) where
    -- A frame that is no data and no close, is of an allowed size below 2 ^ 62 and stands whole in the
    -- buffer of an open session that waits for a frame is passed over, where a pong for a ping can be
    -- written: a ping is answered with a pong, a pong sets the time of the last one, and the receiver goes
    -- on with the bytes behind the frame.
    pub recv-control :
        2 < opcode
        → opcode < 16
        → opcode ≢ 8
        → (opcode ≡ 9 → peer.write_ok (length s.sent) ≡ true)
        → websocket_recv o peer nb (header_turns masked (length wire) + suc fuel) s
          ≡ websocket_recv o peer nb fuel (after_control peer)
    unfolding websocket_recv recv_loop
    recv-control h h16 h8 h9 =
        let got =
          recv_loop-framed fin masked opcode mask wire rest s four e o peer nb fuel idle up small
            allowed (suc fuel) h16 in
        ground (
          arith,
          got,
          turn-control o peer h h8 h9,
          length-frame fin masked opcode mask wire rest s four e,
          up,
        )

    -- For a close frame that is of an allowed size below 2 ^ 62 and stands whole in the buffer of an open
    -- session that waits for a frame, one write of a close frame is tried, whatever the payload says and
    -- whether or not the write succeeds, and the session is closed: nothing is received or sent over it
    -- afterwards.
    pub recv-close :
        opcode ≡ 8
        → (s' : Session) × (websocket_recv o peer nb
              (header_turns masked (length wire) + suc fuel)
              s
            ≡ null s')
          × (s'.sent ≡ s.sent ++ close_frame ∷ [])
          × (s'.closed ≡ true)
          × ((f : ℕ) → websocket_recv o peer nb f s' ≡ null s')
          × ((ub : Buffer) (msg : List ℕ) (code : ℕ)
              → websocket_send o peer ub msg code s' ≡ (false, s'))
    unfolding websocket_recv recv_loop turn phase_frame write_body websocket_send
    recv-close h8 =
        let got =
          recv_loop-framed fin masked opcode mask wire rest s four e o peer nb fuel idle up small
            allowed (suc fuel) (omega (arith, h8)) in
        (
          record start { sent = s.sent ++ close_frame ∷ []; continuation = none; closed = true },
          ground (arith, got, h8, length-frame fin masked opcode mask wire rest s four e, up),
          refl,
          refl,
          (λ f. refl),
          (λ ub msg code. refl),
        )

    -- A continuation frame of a message of which no part was kept destroys a buffer that is not there.
    pub recv-orphan :
        opcode ≡ 0
        → s.continuation ≡ none
        → websocket_recv o peer nb (header_turns masked (length wire) + suc fuel) s ≡ crash
    unfolding websocket_recv recv_loop turn phase_frame websockets_parse
    recv-orphan z c =
        let got =
          recv_loop-framed fin masked opcode mask wire rest s four e o peer nb fuel idle up small
            allowed (suc fuel) (omega (arith, z)) in
        ground (arith, got, z, c, length-frame fin masked opcode mask wire rest s four e, up)
