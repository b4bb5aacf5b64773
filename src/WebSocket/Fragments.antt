-- ===== src/WebSocket/Fragments.antt =====
-- Messages in several frames, over the calls of upsgi_websocket_recv that receive them.
use upsgi.Common.{
  mul64, ℕ, ◌+◌, ◌-◌, ◌^◌, ◌≤◌, ◌<◌, ◌≡◌, refl, ap, ◌∙◌, arith, Bool, true, false, List, [], ◌∷◌,
  ◌++◌, none, some, max, ltb, if◌then◌else◌, length, length-append, append_assoc, add64,
}
use mathlib.Core.Path.{subst}
use upsgi.Buffer.Ops.{Buffer, done, pos, new, append, put, chunk_size}
use upsgi.Buffer.Numbers.{AllBytes}
use upsgi.WebSocket.Types.{Settings, Session, Peer}
use upsgi.WebSocket.Receive.{Returned, message, unmask, websocket_recv}
use upsgi.WebSocket.Frame.{IsIdle, header_turns}
use upsgi.WebSocket.Deliver.{
  frame_then, behind_frame, recv-continuation, recv-payload, length-unmask,
}
use upsgi.WebSocket.Mask.{unmask-unmask}

-- a part of a message, with the mask of its frame
pub record Piece : Type 0 where
  pub mask : List ℕ
  pub text : List ℕ

abbrev pub wire : Piece → List ℕ
wire p = unmask p.mask 0 p.text

-- the frames of a message, masked, the last one marked, with the bytes behind them
abbrev pub pieces_then : ℕ → Piece → List Piece → List ℕ → List ℕ
pieces_then opcode p [] rest = frame_then true opcode true p.mask (wire p) rest
pieces_then opcode p (q ∷ ps) rest =
    frame_then false opcode true p.mask (wire p) (pieces_then 0 q ps rest)

abbrev pub texts : Piece → List Piece → List ℕ
texts p [] = p.text
texts p (q ∷ ps) = p.text ++ texts q ps

-- the memory that buffers of a message may need
abbrev pub room : ℕ → Piece → List Piece → ℕ
room page_size p [] = length p.text + page_size
room page_size p (q ∷ ps) = length p.text + page_size + room page_size q ps

abbrev pub IsAllowed : Settings → Piece → Type 0
IsAllowed o p =
    (length p.mask ≡ 4)
    × AllBytes p.mask
    × AllBytes p.text
    × (length p.text ≤ mul64 o.max_size 1024)

abbrev pub AllAllowed : Settings → Piece → List Piece → Type 0
AllAllowed o p [] = IsAllowed o p
AllAllowed o p (q ∷ ps) = IsAllowed o p × AllAllowed o q ps

-- what the calls before the last one give
abbrev pub zeros : List Piece → List (List ℕ)
zeros [] = []
zeros (p ∷ ps) = (0 ∷ []) ∷ zeros ps

-- Calls of upsgi_websocket_recv, each in some number of turns, give these messages and leave that session.
pub data Receives (o : Settings) (peer : Peer) (nb : Bool)
    : Session → List (List ℕ) → Session → Type 0 where
  stop : {s : Session} → Receives o peer nb s [] s
  call :
      {s s' s'' : Session} {m : List ℕ} {ms : List (List ℕ)} (turns : ℕ)
      → websocket_recv o peer nb turns s ≡ message m s'
      → Receives o peer nb s' ms s''
      → Receives o peer nb s (m ∷ ms) s''

-- the session behind the frame
abbrev behind : Bool → Piece → List ℕ → Session → Session
behind fin p rest s = behind_frame fin 0 true (length (wire p)) rest s

-- the buffer with these bytes behind its own
abbrev grown : ℕ → Buffer → List ℕ → Buffer
grown page_size ub l = record {
  bytes = ub.bytes ++ l;
  len = if ltb (ub.len - pos ub) (length l) then ub.len + max (length l) page_size else ub.len;
  limit = 0;
}

-- what a call gives for a continuation frame
abbrev given : ℕ → Bool → Piece → List ℕ → Session → Buffer → Returned
given page_size fin p rest s ub =
    if fin
    then message ((grown page_size ub p.text).bytes)
        (record (behind fin p rest s) { continuation = none })
    else message (0 ∷ [])
        (record (behind fin p rest s) { continuation = some (grown page_size ub p.text) })

-- the buffer of a first frame, and what a call gives for it
abbrev first_kept : Piece → Buffer
first_kept p = record (new (length (wire p))) { bytes = p.text }

abbrev first_given : Bool → ℕ → Piece → List ℕ → Session → Returned
first_given fin opcode p rest s =
    let left = behind_frame fin opcode true (length (wire p)) rest s in
    if fin
    then message p.text (record left { continuation = none })
    else message (0 ∷ []) (record left { continuation = some (first_kept p) })

-- where realloc() finds room and there is no limit, bytes can be appended
append-grown :
    (page_size : ℕ) (alloc : ℕ → Bool) (ub : Buffer) (l : List ℕ)
    → ((n : ℕ) → alloc n ≡ true)
    → pos ub ≤ ub.len
    → ub.limit ≡ 0
    → ub.len + (length l + page_size) < 2 ^ 62
    → append page_size alloc ub l ≡ done (grown page_size ub l)
unfolding append put chunk_size
append-grown page_size alloc ub l finds v z small =
    ground (arith, length-append ub.bytes l, finds (add64 ub.len (max (length l) page_size)))

module _ (o : Settings) (finds : (n : ℕ) → o.alloc n ≡ true) (peer : Peer) (nb : Bool) where
  -- a continuation frame, in a buffer that has room for it
  recv-piece :
      (fin : Bool) (p : Piece) (rest : List ℕ) (s : Session) (ub : Buffer)
      → IsAllowed o p
      → s.buf.bytes ≡ frame_then fin 0 true p.mask (wire p) rest
      → s.continuation ≡ some ub
      → IsIdle s
      → s.closed ≡ false
      → pos ub ≤ ub.len
      → ub.limit ≡ 0
      → ub.len + (length p.text + o.page_size) < 2 ^ 62
      → (turns : ℕ) × (websocket_recv o peer nb turns s ≡ given o.page_size fin p rest s ub)
  recv-piece fin p rest s ub (four, hm, h, small_p) e c idle up v z small =
      let n : length (wire p) ≡ length p.text = length-unmask p.mask 0 p.text in
      let back : unmask p.mask 0 (wire p) ≡ p.text = unmask-unmask p.mask 0 p.text hm h in
      let (got, same) =
        recv-continuation fin true 0 p.mask (wire p) rest s four e o peer nb 0 idle up
          (omega (arith, n, small)) (λ _. omega (arith, n, small_p)) ub
          {ub' = grown o.page_size ub p.text} refl c
          (ap (append o.page_size o.alloc ub) back
            ∙ append-grown o.page_size o.alloc ub p.text finds v z small) in
      (header_turns true (length (wire p)) + 1, got)

  continue_pieces :
      (p : Piece) (ps : List Piece) (rest : List ℕ) (s : Session) (ub : Buffer)
      → AllAllowed o p ps
      → s.buf.bytes ≡ pieces_then 0 p ps rest
      → s.continuation ≡ some ub
      → IsIdle s
      → s.closed ≡ false
      → pos ub ≤ ub.len
      → ub.limit ≡ 0
      → ub.len + room o.page_size p ps < 2 ^ 62
      → (s' : Session) × Receives o peer nb s (zeros ps ++ (ub.bytes ++ texts p ps) ∷ []) s'
        × (s'.buf.bytes ≡ rest)
        × IsIdle s'
  continue_pieces p [] rest s ub allowed e c idle up v z small =
      let (turns, got) = recv-piece true p rest s ub allowed e c idle up v z small in
      (
        record (behind true p rest s) { continuation = none },
        call turns got stop,
        refl,
        (refl, refl),
      )
  continue_pieces p (q ∷ ps) rest s ub (allowed, more) e c idle up v z small =
      let b = grown o.page_size ub p.text in
      let next = pieces_then 0 q ps rest in
      let (turns, got) =
        recv-piece false p next s ub allowed e c idle up v z (omega (arith, small)) in
      let (s', calls, empty, left) =
        continue_pieces q ps rest (record (behind false p next s) { continuation = some b }) b more
          refl refl (refl, refl) up (ground (arith, length-append ub.bytes p.text, small, v)) refl
          (ground (arith, small)) in
      (
        s',
        call turns got (
            subst
              (λ l.
                Receives o peer nb (record (behind false p next s) { continuation = some b })
                  (zeros ps ++ l ∷ []) s')
              (append_assoc ub.bytes p.text (texts q ps)) calls),
        empty,
        left,
      )

  -- the first frame of a message
  recv-first :
      (fin : Bool) (opcode : ℕ) (p : Piece) (rest : List ℕ) (s : Session)
      → 0 < opcode
      → opcode ≤ 2
      → IsAllowed o p
      → s.buf.bytes ≡ frame_then fin opcode true p.mask (wire p) rest
      → IsIdle s
      → s.closed ≡ false
      → length p.text < 2 ^ 62
      → (turns : ℕ) × (websocket_recv o peer nb turns s ≡ first_given fin opcode p rest s)
  recv-first fin opcode p rest s lo hi (four, hm, h, small_p) e idle up small =
      let n : length (wire p) ≡ length p.text = length-unmask p.mask 0 p.text in
      let back : unmask p.mask 0 (wire p) ≡ p.text = unmask-unmask p.mask 0 p.text hm h in
      let got =
        recv-payload fin true opcode p.mask (wire p) rest s four e o peer nb 0 idle up
          (omega (arith, n, small)) (λ _. omega (arith, n, small_p)) lo hi in
      (header_turns true (length (wire p)) + 1, ground (arith, got, back))

  -- Where realloc() finds room, and the masked frames of a message of text or of binary data, each within
  -- the allowed size, stand whole in the buffer of an open session that waits for a frame, and whose
  -- buffers stay below 2 ^ 62 bytes: the calls before the last frame give a zero byte each, the call that
  -- reads the last one gives the whole message, and what follows the frames is left for the next call.
  pub receives-pieces :
      (opcode : ℕ) (p : Piece) (ps : List Piece) (rest : List ℕ) (s : Session)
      → 0 < opcode
      → opcode ≤ 2
      → AllAllowed o p ps
      → s.buf.bytes ≡ pieces_then opcode p ps rest
      → IsIdle s
      → s.closed ≡ false
      → room o.page_size p ps < 2 ^ 62
      → (s' : Session) × Receives o peer nb s (zeros ps ++ texts p ps ∷ []) s'
        × (s'.buf.bytes ≡ rest)
        × IsIdle s'
  unfolding new
  receives-pieces opcode p [] rest s lo hi allowed e idle up small =
      let (turns, got) =
        recv-first true opcode p rest s lo hi allowed e idle up (omega (arith, small)) in
      (
        record (behind_frame true opcode true (length (wire p)) rest s) { continuation = none },
        call turns got stop,
        refl,
        (refl, refl),
      )
  receives-pieces opcode p (q ∷ ps) rest s lo hi (allowed, more) e idle up small =
      let next = pieces_then 0 q ps rest in
      let kept = record (behind_frame false opcode true (length (wire p)) next s) {
        continuation = some (first_kept p);
      } in
      let (turns, got) =
        recv-first false opcode p next s lo hi allowed e idle up (omega (arith, small)) in
      let n : length (wire p) ≡ length p.text = length-unmask p.mask 0 p.text in
      let (s', calls, empty, left) =
        continue_pieces q ps rest kept (first_kept p) more refl refl (refl, refl) up
          (omega (arith, n)) refl (omega (arith, n, small)) in
      (s', call turns got calls, empty, left)
