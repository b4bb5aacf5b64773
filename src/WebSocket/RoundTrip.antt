-- ===== src/WebSocket/RoundTrip.antt =====
-- Messages that one end of a WebSocket sends and the other receives.
use upsgi.Common.{
  mul64, ℕ, suc, ◌+◌, ◌^◌, ◌≤◌, ◌<◌, ◌≡◌, refl, ap, ◌∙◌, arith, Bool, true, false, List, [], ◌∷◌,
  ◌++◌, none, length, append_assoc,
}
use upsgi.Buffer.Ops.{Buffer, done, append, ◌>>=◌}
use upsgi.Buffer.Encode.{u8, u16be, u64be, bytes16be, bytes64be}
use upsgi.Buffer.Memory.{append-bytes, >>=-eq-done}
use upsgi.WebSocket.Types.{Settings, Session, Peer}
use upsgi.WebSocket.Send.{message_head, websocket_message}
use upsgi.WebSocket.Receive.{message, websocket_recv}
use upsgi.WebSocket.Frame.{size_code, size_bytes, header_then, header_turns, IsIdle}
use upsgi.WebSocket.Deliver.{frame_then, behind_frame, recv-payload}

two_appends :
    (o : Settings) (ub : Buffer) (xs ys : List ℕ) {c : Buffer}
    → (append o.page_size o.alloc ub xs >>= λ b. append o.page_size o.alloc b ys) ≡ done c
    → c.bytes ≡ ub.bytes ++ (xs ++ ys)
two_appends o ub xs ys e =
    let (a, p, q) =
      >>=-eq-done (append o.page_size o.alloc ub xs) (λ b. append o.page_size o.alloc b ys) e in
    append-bytes o.page_size o.alloc a ys q
    ∙ ap (λ l. l ++ ys) (append-bytes o.page_size o.alloc ub xs p)
    ∙ append_assoc ub.bytes xs ys

module _ (o : Settings) (ub : Buffer) where
  open o use {page_size, alloc}

  three_appends :
      (xs ys zs : List ℕ) {c : Buffer}
      → (append page_size alloc ub xs >>= λ b.
          append page_size alloc b ys >>= λ b'. append page_size alloc b' zs)
        ≡ done c
      → c.bytes ≡ ub.bytes ++ (xs ++ (ys ++ zs))
  three_appends xs ys zs e =
      let (a, p, q) =
        >>=-eq-done (append page_size alloc ub xs)
          (λ b. append page_size alloc b ys >>= λ b'. append page_size alloc b' zs) e in
      two_appends o a ys zs q
      ∙ ap (λ l. l ++ (ys ++ zs)) (append-bytes page_size alloc ub xs p)
      ∙ append_assoc ub.bytes xs (ys ++ zs)

  message_head-bytes :
      (len opcode : ℕ) {a : Buffer}
      → message_head o ub len opcode ≡ done a
      → a.bytes ≡ ub.bytes ++ opcode ∷ size_code len ∷ size_bytes len
  unfolding message_head u8 u16be u64be
  message_head-bytes len opcode {a} e = ground (
    arith,
    two_appends o ub (opcode ∷ []) (len ∷ []) {c = a},
    three_appends (opcode ∷ []) (126 ∷ []) (bytes16be len) {c = a},
    three_appends (opcode ∷ []) (127 ∷ []) (bytes64be len) {c = a},
  )

header_then-at :
    (opcode : ℕ) (msg : List ℕ)
    → ([] ++ (128 + opcode) ∷ size_code (length msg) ∷ size_bytes (length msg)) ++ msg
      ≡ header_then true opcode false (length msg) msg
header_then-at opcode msg = ground arith

-- A message that is built is a last frame without a mask: its opcode, its size in one, three or nine bytes,
-- and the message.
pub websocket_message-frame :
    (o : Settings) (ub : Buffer) (msg : List ℕ) (opcode : ℕ) {b : Buffer}
    → websocket_message o ub msg (128 + opcode) ≡ done b
    → b.bytes ≡ header_then true opcode false (length msg) msg
unfolding websocket_message
websocket_message-frame o ub msg opcode e =
    let empty : Buffer = record ub { bytes = [] } in
    let (a, p, q) =
      >>=-eq-done (message_head o empty (length msg) (128 + opcode))
        (λ b. append o.page_size o.alloc b msg) e in
    append-bytes o.page_size o.alloc a msg q
    ∙ ap (λ l. l ++ msg) (message_head-bytes o empty (length msg) (128 + opcode) p)
    ∙ header_then-at opcode msg

-- the session of a receiver in whose buffer `bytes` stand
abbrev pub receiving : List ℕ → Session → Session
receiving bytes s = record s { buf = record (s.buf) { bytes = bytes } }

module _ (o p : Settings) (peer : Peer) (nb : Bool) (fuel : ℕ) where
  -- What upsgi_websocket_send builds of a text or of binary data (`opcode` 1 or 2), with whatever follows it,
  -- standing in the buffer of a receiver that waits for a frame, is received as the same data when the
  -- receiver allows its size; what follows is left for the next call.
  pub recv-websocket_message :
      (ub : Buffer) (msg : List ℕ) (opcode : ℕ) (rest : List ℕ) (s : Session) {b : Buffer}
      → websocket_message o ub msg (128 + opcode) ≡ done b
      → 0 < opcode
      → opcode ≤ 2
      → IsIdle s
      → s.closed ≡ false
      → length msg < 2 ^ 62
      → length msg ≤ mul64 p.max_size 1024
      → (s' : Session) × (websocket_recv p peer nb
            (header_turns false (length msg) + suc fuel)
            (receiving (b.bytes ++ rest) s)
          ≡ message msg s')
        × (s'.buf.bytes ≡ rest)
        × IsIdle s'
  recv-websocket_message ub msg opcode rest s {b} e lo hi idle up small allowed =
      let whole : b.bytes ++ rest ≡ frame_then true opcode false (0 ∷ 0 ∷ 0 ∷ 0 ∷ []) msg rest =
        ap (λ l. l ++ rest) (websocket_message-frame o ub msg opcode e)
        ∙ ap (λ l. (128 + opcode) ∷ (0 + size_code (length msg)) ∷ l)
            (append_assoc (size_bytes (length msg)) msg rest) in
      (
        record (behind_frame true opcode false (length msg) rest (receiving (b.bytes ++ rest) s)) {
          continuation = none;
        },
        recv-payload true false opcode (0 ∷ 0 ∷ 0 ∷ 0 ∷ []) msg rest (receiving (b.bytes ++ rest) s)
            refl whole p peer nb fuel idle up small (λ _. allowed) lo hi,
        refl,
        (refl, refl),
      )
