-- ===== src/Chunked/Frames.antt =====
-- Well-formed chunks that are whole in the buffer are handed out one by one, without a read.
use upsgi.Common.{ℕ, ◌+◌, ◌≤◌, ◌≡◌, Bool, true, false, List, [], ◌∷◌, ◌++◌, length, drop}
use upsgi.Buffer.Ops.{pos}
use upsgi.Chunked.Socket.{Scheduler, Input}
use upsgi.Chunked.Input.{Stream, chunk, returned, chunked_read}
use upsgi.Chunked.Lines.{Frame}

-- The state after a chunk `content` was handed out, with `rest` behind its CRLF.
abbrev handed : Stream → List ℕ → List ℕ → Stream
handed st content rest = record st {
  buf = record (st.buf) { bytes = content ++ (13 ∷ b'\n' ∷ rest) };
  chunk_len = length content;
  decapitate_len = length content + 2;
  parser_status = 0;
}

-- The last chunk: the buffer keeps what is behind the final CRLF.
abbrev finished : Stream → List ℕ → Stream
finished st rest = record st {
  buf = record (st.buf) { bytes = rest };
  chunk_len = 0;
  need = 0;
  parser_status = 0;
  complete = true;
}

-- The stream is between two chunks: the next one begins behind what is to be cut off.
pub record IsAt (st : Stream) (bytes : List ℕ) : Type 0 where
  pub idle : st.need ≡ 0
  pub status : st.parser_status ≡ 0
  pub unfinished : st.complete ≡ false
  pub behind : drop st.decapitate_len st.buf.bytes ≡ bytes
  pub within : st.decapitate_len ≤ pos st.buf

module _ {S : Type 0} (page_size : ℕ) (alloc : ℕ → Bool) (sch : Scheduler S) (nb : Bool) where
  -- The calls hand out these chunks, one each, leave the input alone, and then report the end, after
  -- which every further call does so too.
  abbrev pub HandsOut : List Frame → Stream → Input S → Type 0
  HandsOut [] st inp =
      (st' : Stream) × (chunked_read page_size alloc sch nb 1 st inp ≡ returned (chunk [] st') inp)
      × ((fuel : ℕ) (later : Input S)
          → chunked_read page_size alloc sch nb fuel st' later ≡ returned (chunk [] st') later)
  HandsOut (f ∷ fs) st inp =
      (st' : Stream) × (chunked_read page_size alloc sch nb 1 st inp
        ≡ returned (chunk f.content st') inp)
      × HandsOut fs st' inp
