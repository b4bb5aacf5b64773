-- ===== src/WebSocket/Receive.antt =====
-- The receiving functions of core/websockets.c. A turn of the loop of upsgi_websocket_recv_do spends one unit
-- of fuel.
use upsgi.Common.{
  mul64, ℕ, zero, suc, ◌+◌, ◌-◌, ◌*◌, ◌%◌, Bool, true, false, not, ◌||◌, List, [], ◌∷◌, ◌++◌, none,
  some, ltb, leb, ◌==◌, if◌then◌else◌, length, take, drop, get_or, bit_xor, add64, sub64,
}
use upsgi.Buffer.Ops.{Buffer, done, failed, overrun, pos, new, append, ensure, decapitate}
use upsgi.Chunked.Socket.{Read, arrived, eof, again, error, Wait, ready, timeout, wait_error}
use upsgi.WebSocket.Types.{Settings, Session, Peer, tick_clock, write_body}
use upsgi.WebSocket.Send.{pong_frame, ping_frame, close_frame}

-- what a turn of the loop or a call returns: a message, NULL, or the crash of upsgi_buffer_destroy(NULL);
-- `onwards` goes on with the loop, and `waiting` says that the fuel or the answers ran out
pub data Returned : Type 0 where
  message : List ℕ → Session → Returned
  null : Session → Returned
  crash waiting : Returned
  onwards : Session → Returned

unfoldable pub websockets_ping : Peer → Session → Bool × Session
websockets_ping peer s =
    let (ok, s') = write_body peer ping_frame s in
    if ok then (true, record (tick_clock s') { last_ping = peer.clock s'.tick }) else (false, s')

-- false is the return value -1; the clock does not go back
unfoldable pub check_pingpong : Settings → Peer → Session → Bool × Session
check_pingpong o peer s =
    let now = peer.clock s.tick in
    let s' = tick_clock s in
    if s.last_ping == 0
    then websockets_ping peer s'
    else if ltb s.last_pong s.last_ping
    then (if ltb o.pong_tolerance (now - s.last_ping) then (false, s') else (true, s'))
    else if leb o.ping_freq (now - s.last_ping)
    then websockets_ping peer s'
    else (true, s')

unfoldable pub parse_header : Session → Session
parse_header s =
    let byte1 = get_or s.buf.bytes 0 0 in
    let byte2 = get_or s.buf.bytes 1 0 in
    record s {
      is_fin = leb 128 byte1;
      opcode = byte1 % 16;
      has_mask = leb 128 byte2;
      size = byte2 % 128;
    }

-- ptr[i] ^ mask[i % 4], from the index i on
unfoldable pub unmask : List ℕ → ℕ → List ℕ → List ℕ
unmask mask i [] = []
unmask mask i (c ∷ ptr) = bit_xor c (get_or mask (i % 4) 0) ∷ unmask mask (i + 1) ptr

-- the bytes of the frame behind its header, unmasked
unfoldable pub frame_data : Session → List ℕ
frame_data s =
    let at = s.pktsize - s.size in
    let ptr = take s.size (drop at s.buf.bytes) in
    if s.has_mask then unmask (take 4 (drop (at - 4) s.buf.bytes)) 0 ptr else ptr

-- the error label of upsgi_websockets_parse, with a buffer to destroy
abbrev forget : Session → Returned
forget s = null (record s { continuation = none })

-- the frame joins the buffer `ub`
unfoldable pub join_frame : Settings → Session → Buffer → Returned
join_frame o s ub = elim (append o.page_size o.alloc ub (frame_data s)) [
  | done ub' ↦ elim (decapitate s.buf s.pktsize) [
    | done buf' ↦
        let s' = record s { buf = buf'; phase = 0; need = 2 } in
        if s.is_fin
        then message ub'.bytes (record s' { continuation = none })
        else message (0 ∷ []) (record s' { continuation = some ub' })
    | failed b ↦ forget s
    | overrun ↦ crash
  ]
  | failed b ↦ forget s
  | overrun ↦ crash
]

unfoldable pub websockets_parse : Settings → Session → Returned
websockets_parse o s =
    if s.opcode == 0
    then elim s.continuation [ none ↦ crash | some ub ↦ join_frame o s ub ]
    else join_frame o s (new s.size)

-- upsgi_be16 and upsgi_be64 of as many bytes
unfoldable pub be_from : ℕ → List ℕ → ℕ
be_from n [] = n
be_from n (c ∷ cs) = be_from (n * 256 + c) cs

-- case 0: the two bytes of the header
unfoldable pub phase_header : Session → Returned
phase_header st =
    let s = parse_header st in
    let pktsize = if s.has_mask then 6 else 2 in
    if s.size == 126
    then onwards (record s { pktsize = pktsize + 2; need = add64 s.need 2; phase = 1 })
    else if s.size == 127
    then onwards (record s { pktsize = pktsize + 8; need = add64 s.need 8; phase = 1 })
    else onwards (record s { pktsize = pktsize; phase = 2 })

-- case 1: the longer sizes
unfoldable pub phase_size : Settings → Session → Returned
phase_size o s =
    let size = be_from 0 (take (if s.size == 126 then 2 else 8) (drop 2 s.buf.bytes)) in
    if not (s.size == 126 || s.size == 127)
    then null s
    else if ltb (mul64 o.max_size 1024) size
    then null (record s { size = size })
    else onwards (record s { size = size; phase = 2 })

-- case 2: the mask, if there is one
unfoldable pub phase_mask : Session → Returned
phase_mask s =
    if s.has_mask
    then onwards (record s { need = add64 s.need 4; phase = 3 })
    else onwards
        (record s { need = add64 s.need s.size; pktsize = add64 s.pktsize s.size; phase = 4 })

-- the frame is passed over
unfoldable pub skip_frame : Session → Returned
skip_frame s = elim (decapitate s.buf s.pktsize) [
  | done b ↦ onwards (record s { phase = 0; need = 2; buf = b })
  | failed b ↦ null (record s { phase = 0; need = 2 })
  | overrun ↦ crash
]

-- case 4: the frame is there
unfoldable pub phase_frame : Settings → Peer → Session → Returned
phase_frame o peer s =
    let (ponged, s') = write_body peer pong_frame s in
    let (closed, s'') = write_body peer close_frame s in
    if leb s.opcode 2
    then websockets_parse o s
    else if s.opcode == 8
    then null s''
    else if s.opcode == 9
    then (if ponged then skip_frame s' else null s')
    else if s.opcode == 10
    then skip_frame (record (tick_clock s) { last_pong = peer.clock s.tick })
    else skip_frame s

-- the switch
unfoldable pub turn : Settings → Peer → Session → Returned
turn o peer s =
    if s.phase == 0
    then phase_header s
    else if s.phase == 1
    then phase_size o s
    else if s.phase == 2
    then phase_mask s
    else if s.phase == 3
    then onwards
        (record s { pktsize = add64 s.pktsize s.size; need = add64 s.need s.size; phase = 4 })
    else if s.phase == 4
    then phase_frame o peer s
    else null s

-- upsgi_websockets_recv_pkt: bytes, nothing yet, -1, or the answers ran out
pub data Packet : Type 0 where
  bytes : List ℕ → Session → Packet
  nothing : Session → Packet
  broken : Session → Packet
  unanswered : Packet

-- a read into `room` bytes that finds `l`
unfoldable pub take_bytes : ℕ → List ℕ → List Read → Session → Packet
take_bytes room l reads s =
    let rest = drop room l in
    let left = if length rest == 0 then reads else arrived rest ∷ reads in
    if length (take room l) == 0
    then broken (record s { reads = left })
    else bytes (take room l) (record s { reads = left })

-- the second read, behind a wait that says it is ready
unfoldable pub read_ready : ℕ → List Read → Session → Packet
read_ready room [] s = unanswered
read_ready room (arrived l ∷ reads) s = take_bytes room l reads s
read_ready room (_ ∷ reads) s = broken (record s { reads = reads })

unfoldable pub recv_pkt : Settings → Peer → Bool → ℕ → List Read → List Wait → Session → Packet
recv_pkt o peer nb room [] waits s = unanswered
recv_pkt o peer nb room (arrived l ∷ reads) waits s =
    take_bytes room l reads (record s { waits = waits })
recv_pkt o peer nb room (eof ∷ reads) waits s = broken (record s { reads = reads; waits = waits })
recv_pkt o peer nb room (error ∷ reads) waits s = broken (record s { reads = reads; waits = waits })
recv_pkt o peer nb room (again ∷ reads) [] s =
    let (alive, s') = check_pingpong o peer (record s { reads = reads; waits = [] }) in
    if nb then (if alive then nothing s' else broken s') else unanswered
recv_pkt o peer nb room (again ∷ reads) (w ∷ waits) s =
    let (alive, s') = check_pingpong o peer (record s { reads = reads; waits = w ∷ waits }) in
    let (alive', s'') = check_pingpong o peer (record s { reads = reads; waits = waits }) in
    let next = recv_pkt o peer nb room reads waits s'' in
    if nb then (if alive then nothing s' else broken s') else elim w [
      | ready ↦ read_ready room reads (record s { waits = waits })
      | wait_error ↦ broken (record s { reads = reads; waits = waits })
      | timeout ↦ if alive' then next else broken s''
    ]

-- more bytes for the buffer, and the loop again; an answer of nothing is an empty message
unfoldable pub fill : Settings → Peer → Bool → Session → Returned
fill o peer nb s = elim (ensure o.page_size o.alloc s.buf o.page_size) [
  | done b ↦
      elim (recv_pkt o peer nb (sub64 b.len (pos b)) s.reads s.waits (record s { buf = b })) [
        | bytes l s' ↦ onwards (record s' { buf = record (s'.buf) { bytes = s'.buf.bytes ++ l } })
        | nothing s' ↦ message [] s'
        | broken s' ↦ null s'
        | unanswered ↦ waiting
      ]
  | failed b ↦ null s
  | overrun ↦ crash
]

unfoldable pub recv_loop : Settings → Peer → Bool → ℕ → Session → Returned
recv_loop o peer nb zero s = waiting
recv_loop o peer nb (suc fuel) s =
    elim (if leb s.need (pos s.buf) then turn o peer s else fill o peer nb s) [
      | onwards s' ↦ recv_loop o peer nb fuel s'
      | message m s' ↦ message m s'
      | null s' ↦ null s'
      | crash ↦ crash
      | waiting ↦ waiting
    ]

-- upsgi_websocket_recv, and upsgi_websocket_recv_nb with `nb`
unfoldable pub websocket_recv : Settings → Peer → Bool → ℕ → Session → Returned
websocket_recv o peer nb fuel s =
    let got = recv_loop o peer nb fuel s in
    if s.closed then null s else elim got [
      | null s' ↦ null (record s' { continuation = none; closed = true })
      | message m s' ↦ message m s'
      | crash ↦ crash
      | waiting ↦ waiting
      | onwards s' ↦ onwards s'
    ]
