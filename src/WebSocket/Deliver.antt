-- ===== src/WebSocket/Deliver.antt =====
-- What upsgi_websocket_recv returns for a frame that stands in the buffer.
use upsgi.Common.{
  mul64, ℕ, suc, ◌+◌, ◌^◌, ◌≤◌, ◌<◌, ◌≡◌, refl, ap, ◌∙◌, arith, Bool, false, List, [], ◌∷◌, ◌++◌,
  none, some, if◌then◌else◌, length, drop, length-append, take_append, drop_append,
}
use upsgi.Buffer.Ops.{Buffer, done, pos, new, put, append, decapitate}
use upsgi.Buffer.Memory.{append-bytes}
use upsgi.WebSocket.Types.{Settings, Session, Peer}
use upsgi.WebSocket.Receive.{
  Returned, message, unmask, frame_data, join_frame, websockets_parse, phase_frame, turn, recv_loop,
  websocket_recv,
}
use upsgi.WebSocket.Frame.{
  size_bytes, extra, header_then, header_size, IsIdle, framed, header_turns, length-size_bytes,
  recv_loop-header,
}

drop_past : {A : Type 0} (k : ℕ) (xs ys : List A) → drop (length xs + k) (xs ++ ys) ≡ drop k ys
drop_past k [] ys = ap (λ i. drop i ys) (omega arith)
drop_past k (x ∷ xs) ys =
    let step : suc (length xs) + k ≡ suc (length xs + k) = omega arith in
    ap (λ i. drop i (x ∷ (xs ++ ys))) step ∙ drop_past k xs ys

pub length-unmask :
    (mask : List ℕ) (i : ℕ) (wire : List ℕ) → length (unmask mask i wire) ≡ length wire
unfolding unmask
length-unmask mask i [] = refl
length-unmask mask i (c ∷ wire) = ground (arith, length-unmask mask (i + 1) wire)

-- a frame with the bytes behind it: the mask, if there is one, and the payload as it is sent
abbrev pub mask_then : Bool → List ℕ → List ℕ → List ℕ
mask_then masked mask more = if masked then mask ++ more else more

abbrev pub frame_then : Bool → ℕ → Bool → List ℕ → List ℕ → List ℕ → List ℕ
frame_then fin opcode masked mask wire rest =
    header_then fin opcode masked (length wire) (mask_then masked mask (wire ++ rest))

-- the payload that is meant
abbrev pub payload : Bool → List ℕ → List ℕ → List ℕ
payload masked mask wire = if masked then unmask mask 0 wire else wire

-- the session behind the frame
abbrev pub behind_frame : Bool → ℕ → Bool → ℕ → List ℕ → Session → Session
behind_frame fin opcode masked n rest s = record (framed fin opcode masked n s) {
  buf = record (s.buf) { bytes = rest };
  phase = 0;
  need = 2;
}

module _ (fin masked : Bool) (opcode : ℕ) (mask wire rest : List ℕ) (s : Session) where
  drop-frame :
      (k : ℕ)
      → drop (2 + extra (length wire) + k) (frame_then fin opcode masked mask wire rest)
        ≡ drop k (mask_then masked mask (wire ++ rest))
  drop-frame k =
      let more = mask_then masked mask (wire ++ rest) in
      let n = length wire in
      let at : 2 + extra n + k ≡ suc (suc (length (size_bytes n) + k)) =
        omega (arith, length-size_bytes n) in
      ap (λ i. drop i (frame_then fin opcode masked mask wire rest)) at
      ∙ drop_past k (size_bytes n) more

  module _ (four : length mask ≡ 4)
      (e : s.buf.bytes ≡ frame_then fin opcode masked mask wire rest) where
    frame_data-framed :
        frame_data (framed fin opcode masked (length wire) s) ≡ payload masked mask wire
    unfolding frame_data
    frame_data-framed = ground (
      arith,
      e,
      four,
      drop-frame 0,
      drop-frame 4,
      drop_append mask (wire ++ rest),
      take_append mask (wire ++ rest),
      take_append wire rest,
    )

    pub drop-pktsize : drop (header_size masked (length wire) + length wire) s.buf.bytes ≡ rest
    drop-pktsize = ground (
      arith,
      e,
      four,
      drop-frame (length wire),
      drop-frame (4 + length wire),
      drop_past (length wire) mask (wire ++ rest),
      drop_append wire rest,
    )

    pub length-frame : header_size masked (length wire) + length wire ≤ pos s.buf
    length-frame = ground (
      arith,
      ap length e,
      length-size_bytes (length wire),
      length-append (size_bytes (length wire)) (mask_then masked mask (wire ++ rest)),
      length-append mask (wire ++ rest),
      length-append wire rest,
      four,
    )

    abbrev parsed_frame : Session
    parsed_frame = framed fin opcode masked (length wire) s

    abbrev left : Session
    left = behind_frame fin opcode masked (length wire) rest s

    -- what joining the frame to a buffer returns: the message, or a zero byte for a part of one
    abbrev pub joined : Buffer → Returned
    joined ub =
        if fin
        then message ub.bytes (record left { continuation = none })
        else message (0 ∷ []) (record left { continuation = some ub })

    join_frame-joined :
        (o : Settings) (ub ub' : Buffer)
        → append o.page_size o.alloc ub (payload masked mask wire) ≡ done ub'
        → join_frame o parsed_frame ub ≡ joined ub'
    unfolding join_frame decapitate
    join_frame-joined o ub ub' a = ground (arith, a, frame_data-framed, drop-pktsize, length-frame)

    recv_loop-joined :
        (o : Settings) (peer : Peer) (nb : Bool) (fuel : ℕ) (ub ub' : Buffer)
        → websockets_parse o parsed_frame ≡ join_frame o parsed_frame ub
        → opcode ≤ 2
        → append o.page_size o.alloc ub (payload masked mask wire) ≡ done ub'
        → recv_loop o peer nb (suc fuel) parsed_frame ≡ joined ub'
    unfolding recv_loop turn phase_frame
    recv_loop-joined o peer nb fuel ub ub' w h a =
        ground (arith, w, join_frame-joined o ub ub' a, length-frame)

    module _ (o : Settings) (peer : Peer) (nb : Bool) (fuel : ℕ) (idle : IsIdle s)
        (up : s.closed ≡ false) (small : length wire < 2 ^ 62)
        (allowed : 126 ≤ length wire → length wire ≤ mul64 o.max_size 1024) where
      pub recv_loop-framed :
          (f : ℕ)
          → opcode < 16
          → recv_loop o peer nb (header_turns masked (length wire) + f) s
            ≡ recv_loop o peer nb f parsed_frame
      recv_loop-framed f h =
          recv_loop-header o peer nb fin masked opcode (length wire)
            (mask_then masked mask (wire ++ rest)) s h small idle e f allowed
            (ground (arith, four, length-append mask (wire ++ rest)))

      recv-joined :
          (ub ub' : Buffer)
          → websockets_parse o parsed_frame ≡ join_frame o parsed_frame ub
          → opcode ≤ 2
          → append o.page_size o.alloc ub (payload masked mask wire) ≡ done ub'
          → websocket_recv o peer nb (header_turns masked (length wire) + suc fuel) s ≡ joined ub'
      unfolding websocket_recv
      recv-joined ub ub' w h a =
          let got = recv_loop-framed (suc fuel) (omega (arith, h)) in
          let given = recv_loop-joined o peer nb fuel ub ub' w h a in ground (arith, got, given, up)

      -- A continuation frame is joined to what was kept of its message: the last one gives the whole message,
      -- another one a zero byte, and the session stands at the next frame.
      pub recv-continuation :
          (ub : Buffer) {ub' : Buffer}
          → opcode ≡ 0
          → s.continuation ≡ some ub
          → append o.page_size o.alloc ub (payload masked mask wire) ≡ done ub'
          → (websocket_recv o peer nb (header_turns masked (length wire) + suc fuel) s ≡ joined ub')
            × (ub'.bytes ≡ ub.bytes ++ payload masked mask wire)
      unfolding websockets_parse
      recv-continuation ub {ub'} z c a = (
        recv-joined ub ub' (ground (arith, z, c)) (omega (arith, z)) a,
        append-bytes o.page_size o.alloc ub (payload masked mask wire) a,
      )

      -- A text or binary frame that is whole in the buffer gives its payload, unmasked, if it is the last of
      -- its message, and a zero byte otherwise, with the payload kept; the session stands at the next frame.
      pub recv-payload :
          0 < opcode
          → opcode ≤ 2
          → websocket_recv o peer nb (header_turns masked (length wire) + suc fuel) s
            ≡ joined (record (new (length wire)) { bytes = payload masked mask wire })
      unfolding websockets_parse append put new
      recv-payload p h =
          recv-joined (new (length wire))
            (record (new (length wire)) { bytes = payload masked mask wire }) (ground (arith, p)) h
            (ground (arith, length-unmask mask 0 wire))
