-- ===== src/WebSocket/Frame.antt =====
-- Frames of WebSockets as a peer writes them, and the turns of upsgi_websocket_recv_do that read a header.
use upsgi.Common.{
  mul64, ℕ, suc, ◌+◌, ◌^◌, ◌≤◌, ◌<◌, ◌≡◌, ap, ◌∙◌, arith, Bool, true, false, List, [], ◌∷◌, ◌++◌,
  ltb, ◌==◌, if◌then◌else◌, length, take, length-append,
}
use upsgi.Buffer.Ops.{pos}
use upsgi.Buffer.Encode.{bytes16be, bytes64be}
use upsgi.WebSocket.Types.{Settings, Session, Peer}
use upsgi.WebSocket.Receive.{
  onwards, parse_header, be_from, phase_header, phase_size, phase_mask, turn, recv_loop,
}

-- the 7 bits for a length, and the bytes of a longer one
abbrev pub size_code : ℕ → ℕ
size_code n = if ltb n 126 then n else if ltb n 65536 then 126 else 127

abbrev pub size_bytes : ℕ → List ℕ
size_bytes n = if ltb n 126 then [] else if ltb n 65536 then bytes16be n else bytes64be n

abbrev pub extra : ℕ → ℕ
extra n = if ltb n 126 then 0 else if ltb n 65536 then 2 else 8

-- a header, with the bytes behind it
abbrev pub header_then : Bool → ℕ → Bool → ℕ → List ℕ → List ℕ
header_then fin opcode masked n more =
    ((if fin then 128 else 0) + opcode)
    ∷ ((if masked then 128 else 0) + size_code n)
    ∷ (size_bytes n ++ more)

abbrev pub header_size : Bool → ℕ → ℕ
header_size masked n = 2 + extra n + (if masked then 4 else 0)

-- how many turns read the header
abbrev pub header_turns : Bool → ℕ → ℕ
header_turns masked n = 2 + (if ltb n 126 then 0 else 1) + (if masked then 1 else 0)

-- the loop waits for a frame of which nothing is read yet
abbrev pub IsIdle : Session → Type 0
IsIdle s = (s.phase ≡ 0) × (s.need ≡ 2)

-- the state in which the whole frame is awaited
abbrev pub framed : Bool → ℕ → Bool → ℕ → Session → Session
framed fin opcode masked n s = record s {
  is_fin = fin;
  opcode = opcode;
  has_mask = masked;
  size = n;
  pktsize = header_size masked n + n;
  need = header_size masked n + n;
  phase = 4;
}

pub length-size_bytes : (n : ℕ) → length (size_bytes n) ≡ extra n
length-size_bytes n = ground arith

be_from-bytes16be : (n : ℕ) → n < 65536 → be_from 0 (bytes16be n) ≡ n
unfolding be_from
be_from-bytes16be n h = omega arith

be_from-bytes64be : (n : ℕ) → n < 2 ^ 64 → be_from 0 (bytes64be n) ≡ n
unfolding be_from
be_from-bytes64be n h = omega arith

pub be_from-size_bytes :
    (n : ℕ) (more : List ℕ)
    → 126 ≤ n
    → n < 2 ^ 64
    → be_from 0 (take (if size_code n == 126 then 2 else 8) (size_bytes n ++ more)) ≡ n
be_from-size_bytes n more a b = ground (arith, be_from-bytes16be n, be_from-bytes64be n)

module _ (o : Settings) (peer : Peer) (nb fin masked : Bool) (opcode n : ℕ) (more : List ℕ)
    (s : Session) where
  -- behind the two bytes
  abbrev pub headed : Session
  headed = record s {
    is_fin = fin;
    opcode = opcode;
    has_mask = masked;
    size = size_code n;
    pktsize = (if masked then 6 else 2) + extra n;
    need = 2 + extra n;
    phase = if ltb n 126 then 2 else 1;
  }

  pub turn-header :
      opcode < 16
      → IsIdle s
      → s.buf.bytes ≡ header_then fin opcode masked n more
      → turn o peer s ≡ onwards headed
  unfolding turn phase_header parse_header
  turn-header h i e = ground arith

  pub length-header_then : length (header_then fin opcode masked n more) ≡ 2 + extra n + length more
  length-header_then = omega (arith, length-append (size_bytes n) more, length-size_bytes n)

  -- behind the size
  abbrev sized : Session
  sized = record headed { size = n; phase = 2 }

  turn-size :
      126 ≤ n
      → n < 2 ^ 62
      → n ≤ mul64 o.max_size 1024
      → s.buf.bytes ≡ header_then fin opcode masked n more
      → turn o peer headed ≡ onwards sized
  unfolding turn phase_size
  turn-size a b c e = ground (arith, be_from-size_bytes n more)

  -- behind the mask
  abbrev mask_awaited : Session
  mask_awaited = record sized { need = 6 + extra n; phase = 3 }

  turn-mask : masked ≡ true → turn o peer sized ≡ onwards mask_awaited
  unfolding turn phase_mask
  turn-mask m = ground arith

  turn-masked :
      masked ≡ true → n < 2 ^ 62 → turn o peer mask_awaited ≡ onwards (framed fin opcode masked n s)
  unfolding turn
  turn-masked m b = ground arith

  turn-unmasked :
      masked ≡ false → n < 2 ^ 62 → turn o peer sized ≡ onwards (framed fin opcode masked n s)
  unfolding turn phase_mask
  turn-unmasked m b = ground arith

  -- one turn of the loop
  pub recv_loop-turn :
      (fuel : ℕ) (x y : Session)
      → x.need ≤ pos x.buf
      → turn o peer x ≡ onwards y
      → recv_loop o peer nb (suc fuel) x ≡ recv_loop o peer nb fuel y
  unfolding recv_loop
  recv_loop-turn fuel x y h e = ground arith

  module _ (opcode_small : opcode < 16) (n_small : n < 2 ^ 62) (idle : IsIdle s)
      (e : s.buf.bytes ≡ header_then fin opcode masked n more) where
    recv_loop-short :
        (fuel : ℕ) → n < 126 → recv_loop o peer nb (suc fuel) s ≡ recv_loop o peer nb fuel sized
    recv_loop-short fuel h =
        let same : headed ≡ sized = ground arith in
        recv_loop-turn fuel s headed (omega (arith, ap length e, length-header_then, idle))
          (turn-header opcode_small idle e)
        ∙ ap (recv_loop o peer nb fuel) same

    recv_loop-long :
        (fuel : ℕ)
        → 126 ≤ n
        → n ≤ mul64 o.max_size 1024
        → recv_loop o peer nb (suc (suc fuel)) s ≡ recv_loop o peer nb fuel sized
    recv_loop-long fuel h c =
        recv_loop-turn (suc fuel) s headed (omega (arith, ap length e, length-header_then, idle))
          (turn-header opcode_small idle e)
        ∙ recv_loop-turn fuel headed sized (omega (arith, ap length e, length-header_then))
            (turn-size h n_small c e)

    recv_loop-unmasked :
        (fuel : ℕ)
        → masked ≡ false
        → recv_loop o peer nb (suc fuel) sized
          ≡ recv_loop o peer nb fuel (framed fin opcode masked n s)
    recv_loop-unmasked fuel m =
        recv_loop-turn fuel sized (framed fin opcode masked n s)
          (omega (arith, ap length e, length-header_then)) (turn-unmasked m n_small)

    recv_loop-masked :
        (fuel : ℕ)
        → masked ≡ true
        → 4 ≤ length more
        → recv_loop o peer nb (suc (suc fuel)) sized
          ≡ recv_loop o peer nb fuel (framed fin opcode masked n s)
    recv_loop-masked fuel m l =
        recv_loop-turn (suc fuel) sized mask_awaited
          (omega (arith, ap length e, length-header_then)) (turn-mask m)
        ∙ recv_loop-turn fuel mask_awaited (framed fin opcode masked n s)
            (omega (arith, ap length e, length-header_then)) (turn-masked m n_small)

    -- the turns that read a header
    pub recv_loop-header :
        (fuel : ℕ)
        → (126 ≤ n → n ≤ mul64 o.max_size 1024)
        → (if masked then 4 else 0) ≤ length more
        → recv_loop o peer nb (header_turns masked n + fuel) s
          ≡ recv_loop o peer nb fuel (framed fin opcode masked n s)
    recv_loop-header fuel c l = ground (
      arith,
      recv_loop-short (suc fuel),
      recv_loop-short (suc (suc fuel)),
      recv_loop-long (suc fuel),
      recv_loop-long (suc (suc fuel)),
      recv_loop-unmasked fuel,
      recv_loop-masked fuel,
      c,
    )
