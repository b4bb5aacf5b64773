-- ===== src/WebSocket/Refuse.antt =====
-- The sizes of frames that upsgi_websocket_recv_do refuses.
use upsgi.Common.{
  mul64, ℕ, suc, ◌+◌, ◌^◌, ◌≤◌, ◌<◌, ◌≡◌, refl, ap, arith, Bool, true, false, List, none, length,
}
use upsgi.Buffer.Ops.{Buffer}
use upsgi.WebSocket.Types.{Settings, Session, Peer}
use upsgi.WebSocket.Send.{websocket_send}
use upsgi.WebSocket.Receive.{null, phase_size, turn, recv_loop, websocket_recv}
use upsgi.WebSocket.Frame.{
  header_then, IsIdle, headed, be_from-size_bytes, turn-header, length-header_then, recv_loop-turn,
}

module _ (o : Settings) (peer : Peer) (nb fin masked : Bool) (opcode n : ℕ) (more : List ℕ)
    (s : Session) where
  turn-oversize :
      126 ≤ n
      → n < 2 ^ 64
      → mul64 o.max_size 1024 < n
      → s.buf.bytes ≡ header_then fin opcode masked n more
      → turn o peer (headed o peer nb fin masked opcode n more s)
        ≡ null (record (headed o peer nb fin masked opcode n more s) { size = n })
  unfolding turn phase_size
  turn-oversize a b c e = ground (arith, be_from-size_bytes n more)

  -- A frame of 126 bytes or more and above the allowed size is refused as soon as the size is read, whatever
  -- follows in the buffer: what was kept of a message is forgotten, nothing is written, and the session is
  -- closed for receiving and sending.
  pub recv-oversize :
      (fuel : ℕ)
      → opcode < 16
      → 126 ≤ n
      → n < 2 ^ 64
      → mul64 o.max_size 1024 < n
      → s.buf.bytes ≡ header_then fin opcode masked n more
      → IsIdle s
      → s.closed ≡ false
      → (s' : Session) × (websocket_recv o peer nb (2 + fuel) s ≡ null s')
        × (s'.sent ≡ s.sent)
        × (s'.continuation ≡ none)
        × ((f : ℕ) → websocket_recv o peer nb f s' ≡ null s')
        × ((ub : Buffer) (msg : List ℕ) (code : ℕ)
            → websocket_send o peer ub msg code s' ≡ (false, s'))
  unfolding websocket_recv recv_loop websocket_send
  recv-oversize fuel h a b c e idle up =
      let start = headed o peer nb fin masked opcode n more s in
      let l = length-header_then o peer nb fin masked opcode n more s in
      let first =
        recv_loop-turn o peer nb fin masked opcode n more s (suc fuel) s start
          (omega (arith, ap length e, l, idle))
          (turn-header o peer nb fin masked opcode n more s h idle e) in
      (
        record start { size = n; continuation = none; closed = true },
        ground (arith, first, turn-oversize a b c e, ap length e, l, up),
        refl,
        refl,
        (λ f. refl),
        (λ ub msg code. refl),
      )
