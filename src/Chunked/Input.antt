-- ===== src/Chunked/Input.antt =====
-- core/chunked.c: upsgi_chunked_require_crlf, upsgi_chunked_require_final_crlf, upsgi_chunked_readline and
-- upsgi_chunked_read. A ssize_t is its two's complement. The first call of upsgi_chunked_read
-- allocates the buffer: here a stream begins as `opened`.
use upsgi.Common.{
  ℕ, zero, suc, ◌+◌, ◌-◌, ◌*◌, ◌^◌, max, Bool, true, false, not, ◌&&◌, ◌||◌, List, [], ◌∷◌, ◌++◌,
  ◌==◌, if◌then◌else◌, length, take, ltb, leb, get_or, Option, none, some, add64, sub64,
}
use upsgi.Buffer.Ops.{Buffer, pos, done, failed, overrun, ensure, decapitate}
use upsgi.Chunked.Socket.{Scheduler, Input, received, refused, blocked, recv}

-- the chunked_input_ fields of struct wsgi_request
pub record Stream : Type 0 where
  pub buf : Buffer
  pub need : ℕ
  pub chunk_len : ℕ
  pub decapitate_len : ℕ
  pub parser_status : ℕ
  pub complete : Bool

abbrev pub opened : ℕ → ℕ → Stream
opened page_size limit = record {
  buf = record { bytes = []; len = page_size; limit = limit };
  need = 0;
  chunk_len = 0;
  decapitate_len = 0;
  parser_status = 0;
  complete = false;
}

-- A return of upsgi_chunked_read: NULL, or the first `len` bytes of the buffer.
pub data Answer : Type 0 where
  null : Stream → Answer
  chunk : List ℕ → Stream → Answer
  more : Stream → Answer
  fault : Answer

abbrev bytes_of : Stream → List ℕ
bytes_of st = st.buf.bytes

-- none is a read behind the bytes that the buffer holds
unfoldable pub require_crlf : List ℕ → ℕ → Option Bool
require_crlf buf chunk_len =
    if ltb (chunk_len + 1) (length buf)
    then some (get_or buf chunk_len 0 == 13 && get_or buf (chunk_len + 1) 0 == b'\n')
    else none

-- `*len` bytes of the buffer behind a decapitation
abbrev decapitated : Stream → ℕ → (Stream → Answer) → Answer
decapitated st n then_ = elim (decapitate st.buf n) [
  | done b ↦ then_ (record st { buf = b })
  | failed b ↦ null st
  | overrun ↦ fault
]

unfoldable pub require_final_crlf : Stream → Answer
unfolding decapitate require_crlf
require_final_crlf st =
    if ltb (pos st.buf) 2
    then more (record st { need = 2 - pos st.buf; parser_status = 2 })
    else elim (require_crlf (bytes_of st) 0) [
      | none ↦ fault
      | some ends ↦
          if not ends
          then null st
          else decapitated st 2
              λ st'. chunk [] (record st' { need = 0; parser_status = 0; complete = true })
    ]

abbrev pub is_hex : ℕ → Bool
is_hex c = (leb b'0' c && leb c b'9') || ((leb b'a' c && leb c b'f') || (leb b'A' c && leb c b'F'))

abbrev pub hex_digit : ℕ → ℕ
hex_digit c = if leb c b'9' then c - b'0' else if leb c b'F' then c - 55 else c - 87

-- strtoul(buf, NULL, 16): it stops at the first byte that is no digit, and saturates at ULONG_MAX.
unfoldable pub strtoul16 : ℕ → List ℕ → ℕ
strtoul16 acc [] = acc
strtoul16 acc (c ∷ cs) =
    let acc' = acc * 16 + hex_digit c in
    let rest = strtoul16 (if ltb acc' (2 ^ 64) then acc' else 2 ^ 64 - 1) cs in
    if is_hex c then rest else acc

-- the scan of upsgi_chunked_readline: where the line ends, one past its '\n'
pub data Line : Type 0 where
  ended : ℕ → Line
  malformed partial : Line

unfoldable pub scan_line : Bool → ℕ → List ℕ → Line
scan_line found i [] = partial
scan_line true i (c ∷ cs) = if c == b'\n' then ended (i + 1) else malformed
scan_line false i (c ∷ cs) =
    let digits = scan_line false (i + 1) cs in
    let cr = scan_line true (i + 1) cs in
    if is_hex c then digits else if c == 13 then cr else malformed

-- The return values -1 and -2 of readline, as ssize_t.
abbrev pub minus_one : ℕ
minus_one = 2 ^ 64 - 1

abbrev pub minus_two : ℕ
minus_two = 2 ^ 64 - 2

unfoldable pub readline : Stream → ℕ × Stream
unfolding scan_line strtoul16
readline st = elim (scan_line false 0 (bytes_of st)) [
  | ended n ↦ elim (decapitate st.buf n) [
    | done b ↦ (strtoul16 0 (bytes_of st), record st { buf = b })
    | _ ↦ (minus_one, st)
  ]
  | malformed ↦ (minus_one, st)
  | partial ↦ (minus_two, st)
]

-- case 1: the chunk is whole in the buffer, or more of it is needed
unfoldable pub body : Stream → Answer
body st =
    let whole = add64 st.chunk_len 2 in
    if ltb (pos st.buf) whole
    then more (record st { need = sub64 whole (pos st.buf); parser_status = 1 })
    else elim (require_crlf (bytes_of st) st.chunk_len) [
      | none ↦ fault
      | some ends ↦
          if not ends
          then null st
          else chunk (take st.chunk_len (bytes_of st))
              (record st { decapitate_len = whole; parser_status = 0 })
    ]

-- case 0, once the line is read
unfoldable pub head : Stream → Answer
head st =
    let (n, st') = readline st in
    let st'' = record st' { chunk_len = n } in
    if n == minus_two
    then more (record st'' { need = add64 st''.need 1 })
    else if leb (2 ^ 63) n
    then null st''
    else if n == 0
    then require_final_crlf st''
    else body st''

-- the switch
unfoldable pub parse_frame : Stream → Answer
parse_frame st =
    if st.parser_status == 0
    then head st
    else if st.parser_status == 1
    then body st
    else if st.parser_status == 2
    then require_final_crlf st
    else more st

module _ {S : Type 0} (page_size : ℕ) (alloc : ℕ → Bool) (sch : Scheduler S) (nb : Bool) where
  -- A return, and what is left of the input; `waiting` says that the answers of the socket or the fuel
  -- ran out.
  pub data Result : Type 0 where
    returned : Answer → Input S → Result
    waiting : Result

  -- the bytes of one read behind those of the buffer, and the need that is left
  unfoldable pub fill : Stream → List ℕ → Stream
  fill st got = record st {
    buf = record (st.buf) { bytes = bytes_of st ++ got };
    need = if ltb st.need (length got) then 0 else st.need - length got;
  }

  -- the parse of one turn of the loop, or the next turn
  unfoldable pub turn : (Stream → Input S → Result) → Stream → Input S → Result
  turn next st inp =
      let again = next st inp in
      let answer = parse_frame st in
      if ltb 0 st.need || pos st.buf == 0 then again else elim answer [
        | more st' ↦ next st' inp
        | null st' ↦ returned (null st') inp
        | chunk data' st' ↦ returned (chunk data' st') inp
        | fault ↦ returned fault inp
      ]

  unfoldable pub read_loop : ℕ → Stream → Input S → Result
  unfolding turn
  read_loop zero st inp = waiting
  read_loop (suc fuel) st inp =
      if ltb 0 st.need || pos st.buf == 0
      then elim (ensure page_size alloc st.buf (max page_size st.need)) [
        | done b ↦ elim (recv sch nb (sub64 b.len (pos b)) inp.reads inp.waits inp.sched) [
          | received got inp' ↦ turn (read_loop fuel) (fill (record st { buf = b }) got) inp'
          | refused inp' ↦ returned (null (record st { buf = b })) inp'
          | blocked ↦ waiting
        ]
        | failed b ↦ returned (null st) inp
        | overrun ↦ returned fault inp
      ]
      else turn (read_loop fuel) st inp

  unfoldable pub chunked_read : ℕ → Stream → Input S → Result
  chunked_read fuel st inp =
      if st.complete
      then returned (chunk [] st) inp
      else elim (decapitate st.buf st.decapitate_len) [
        | done b ↦ read_loop fuel (record st { buf = b; decapitate_len = 0 }) inp
        | failed b ↦ returned (null st) inp
        | overrun ↦ returned fault inp
      ]
