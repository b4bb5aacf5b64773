-- ===== src/Http/Request.antt =====
-- upsgi_proto_http_parser of proto/http.c: how the head of a request is cut out of what the socket gives.
use upsgi.Common.{ℕ, ◌+◌, ◌-◌, ◌&&◌, ◌||◌, List, [], ◌∷◌, ◌++◌, ◌==◌, if◌then◌else◌, length, take}

-- the loop over the bytes of one read: the status behind them, or the bytes behind the request's head
pub data Scan : Type 0 where
  partial : ℕ → Scan
  ended : List ℕ → Scan

unfoldable pub scan_request : ℕ → List ℕ → Scan
scan_request status [] = partial status
scan_request status (c ∷ bytes) =
    let up = scan_request (status + 1) bytes in
    let one = scan_request 1 bytes in
    let two = scan_request 2 bytes in
    let none_ = scan_request 0 bytes in
    if c == 13 && (status == 0 || status == 2)
    then up
    else if c == 13
    then one
    else if c == 10 && status == 1
    then two
    else if c == 10 && status == 3
    then ended bytes
    else none_

-- proto_parser_buf with proto_parser_pos bytes in it, and proto_parser_status
pub record Parser : Type 0 where
  pub buf : List ℕ
  pub status : ℕ

-- what read() answers; it gives at most the bytes that it is asked for
pub data Answer : Type 0 where
  got : List ℕ → Answer
  not_yet failed closed : Answer

-- UPSGI_AGAIN, -1, or the head that goes to http_parse and the bytes behind it
pub data Step : Type 0 where
  again : Parser → Step
  refused : Step
  head : List ℕ → List ℕ → Step

unfoldable pub http_parser : ℕ → Parser → Answer → Step
http_parser buffer_size st answer =
    if buffer_size - length st.buf == 0 then refused else elim answer [
      | got bytes ↦ elim (scan_request st.status bytes) [
        | partial status ↦ again (record { buf = st.buf ++ bytes; status = status })
        | ended rest ↦ head (st.buf ++ take (length bytes - length rest) bytes) rest
      ]
      | not_yet ↦ again st
      | failed ↦ refused
      | closed ↦ refused
    ]

-- one call for each answer, as long as UPSGI_AGAIN is returned
unfoldable pub http_parsers : ℕ → Parser → List Answer → Step
http_parsers buffer_size st [] = again st
http_parsers buffer_size st (answer ∷ answers) = elim (http_parser buffer_size st answer) [
  | again st' ↦ http_parsers buffer_size st' answers
  | refused ↦ refused
  | head bytes rest ↦ head bytes rest
]
