-- ===== src/Chunked/Socket.antt =====
-- upsgi_chunked_input_recv of core/chunked.c, over what the socket and the body scheduler answer.
use upsgi.Common.{ℕ, ◌≤◌, ◌<◌, Bool, List, [], ◌∷◌, ◌==◌, if◌then◌else◌, length, take, drop}

-- What one call of proto_read_body finds: bytes that have arrived, the end of the stream, nothing yet
-- (EAGAIN, EWOULDBLOCK, EINPROGRESS), or another error.
pub data Read : Type 0 where
  arrived : List ℕ → Read
  eof : Read
  again : Read
  error : Read

-- What one call of wait_read_hook returns: a positive number, zero or a negative one.
pub data Wait : Type 0 where
  ready timeout wait_error : Wait

-- The scheduler's calls, over a state of its own: core/body_scheduler.c behind its interface.
pub record Scheduler (S : Type 0) : Type 0 where
  pub read_budget : ℕ → S → ℕ × S
  pub note_bytes : ℕ → S → S
  pub note_empty_read : S → S
  pub note_eagain : S → S
  -- A read of some bytes is granted some of them and no more.
  pub grants :
      (requested : ℕ) (s : S)
      → 0 < requested
      → (0 < (read_budget requested s).0) × ((read_budget requested s).0 ≤ requested)

pub record Input (S : Type 0) : Type 0 where
  pub reads : List Read
  pub waits : List Wait
  pub sched : S

-- `received` holds the bytes that were read, `refused` is the return value -1, and `blocked` says
-- that the answers ran out.
pub data Received (S : Type 0) : Type 0 where
  received : List ℕ → Input S → Received S
  refused : Input S → Received S
  blocked : Received S

module _ {S : Type 0} (sch : Scheduler S) (nb : Bool) where
  open sch use {read_budget, note_bytes, note_empty_read, note_eagain}

  -- A read that finds `l` with a budget of `n`: what does not fit waits for the next read.
  unfoldable pub take_arrived : ℕ → List ℕ → Input S → Received S
  take_arrived n l inp =
      let got = take n l in
      let rest = drop n l in
      let left = if length rest == 0 then inp.reads else arrived rest ∷ inp.reads in
      if length got == 0
      then refused (record inp { reads = left; sched = note_empty_read inp.sched })
      else received got (record inp { reads = left; sched = note_bytes (length got) inp.sched })

  -- One attempt after another: each read that finds nothing waits, and a wait that is ready reads again.
  unfoldable pub recv : ℕ → List Read → List Wait → S → Received S
  recv room [] waits s = blocked
  recv room (arrived l ∷ reads) waits s =
      let (budget, s') = read_budget room s in
      take_arrived budget l (record { reads = reads; waits = waits; sched = s' })
  recv room (eof ∷ reads) waits s =
      let (budget, s') = read_budget room s in
      refused (record { reads = reads; waits = waits; sched = note_empty_read s' })
  recv room (error ∷ reads) waits s =
      let (budget, s') = read_budget room s in
      refused (record { reads = reads; waits = waits; sched = s' })
  recv room (again ∷ reads) waits s =
      let (budget, s') = read_budget room s in
      let s'' = note_eagain s' in
      if nb then refused (record { reads = reads; waits = waits; sched = s'' }) else elim waits [
        | [] ↦ blocked
        | w ∷ waits' ↦ elim w [
          | ready ↦ recv room reads waits' s''
          | timeout ↦ refused (record { reads = reads; waits = waits'; sched = s'' })
          | wait_error ↦ refused (record { reads = reads; waits = waits'; sched = s'' })
        ]
      ]
