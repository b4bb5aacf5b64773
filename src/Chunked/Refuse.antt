-- ===== src/Chunked/Refuse.antt =====
-- What the reader of chunked bodies refuses, and what it asks for when a chunk is not whole.
use upsgi.Common.{
  ℕ, ◌^◌, ◌≤◌, ◌<◌, ◌≡◌, ◌≢◌, ◌⊎◌, List, ◌∷◌, ◌++◌, ◌==◌, if◌then◌else◌, length, arith,
  length-append,
}
use upsgi.Buffer.Ops.{pos}
use upsgi.Chunked.Input.{
  Stream, Answer, null, chunk, more, fault, require_crlf, strtoul16, minus_two, body, head,
  parse_frame,
}
use upsgi.Chunked.Lines.{AllHex, readline_lem, get_or_append, get_or_append_next}

-- The parser is in one of its three states, and a chunk that is awaited has a positive ssize_t length.
abbrev pub IsWell : Stream → Type 0
IsWell st =
    (st.parser_status ≤ 2) × (st.parser_status ≡ 1 → st.chunk_len < 2 ^ 63) × (pos st.buf < 2 ^ 62)

-- An answer that asks for more has a need that is not met; whatever the answer, the parser is well again,
-- and no byte was read behind those of the buffer.
abbrev pub Asks : Answer → Type 0
Asks (more st') = (0 < st'.need) × IsWell st'
Asks (chunk content st') = IsWell st'
Asks (null st') = IsWell st'
Asks fault = ⊥

-- What reading a line leaves alone.
record Kept (st st' : Stream) : Type 0 where
  need : st'.need ≡ st.need
  status : st'.parser_status ≡ st.parser_status
  held : pos st'.buf ≤ pos st.buf

-- Chunk data whose two bytes behind it are in the buffer and are not CR LF are refused.
pub parse_frame-missing_crlf :
    (st : Stream) (size content rest : List ℕ) (a b : ℕ)
    → AllHex size
    → strtoul16 0 size ≡ length content
    → 0 < length content
    → length content < 2 ^ 62
    → st.parser_status ≡ 0
    → st.buf.bytes ≡ size ++ (13 ∷ b'\n' ∷ (content ++ (a ∷ b ∷ rest)))
    → (a ≢ 13) ⊎ (b ≢ b'\n')
    → (st' : Stream) × (parse_frame st ≡ null st')
unfolding parse_frame head body require_crlf
parse_frame-missing_crlf st size content rest a b hex n some_data small status e bad =
    let behind = content ++ (a ∷ b ∷ rest) in
    (
      record st { buf = record (st.buf) { bytes = behind }; chunk_len = length content },
      ground (
        arith,
        readline_lem st size behind hex e,
        get_or_append content a (b ∷ rest),
        get_or_append_next content a b rest,
        length-append content (a ∷ b ∷ rest),
      ),
    )

-- A size line that stands for 2 ^ 64 - 2 is taken for the answer -2 of the line reader: the line is
-- dropped and one more byte is asked for, where every other size from 2 ^ 63 on is refused.
pub parse_frame-huge :
    (st : Stream) (size rest : List ℕ)
    → AllHex size
    → 2 ^ 63 ≤ strtoul16 0 size
    → st.parser_status ≡ 0
    → st.need ≡ 0
    → st.buf.bytes ≡ size ++ (13 ∷ b'\n' ∷ rest)
    → let st' = record st {
      buf = record (st.buf) { bytes = rest };
      chunk_len = strtoul16 0 size;
    } in
      parse_frame st
      ≡ (if strtoul16 0 size == minus_two then more (record st' { need = 1 }) else null st')
unfolding parse_frame head
parse_frame-huge st size rest hex big status n e = ground (arith, readline_lem st size rest hex e)
