-- ===== src/Chunked/Receive.antt =====
-- One receive of the chunked reader, and the body scheduler behind its interface.
use upsgi.Common.{
  ℕ, zero, suc, ◌∙◌, ltb, if◌then◌else◌, true, false, length-drop, ◌≤◌, ◌<◌, ◌≡◌, refl, Bool, List,
  [], ◌∷◌, ◌++◌, length, take, drop, arith, take-append-drop, length-take, append_assoc, append-nil,
}
use upsgi.BodySched.Types.{State}
use upsgi.BodySched.Ops.{read_budget}
use upsgi.BodySched.Notes.{note_bytes, note_empty_read, note_eagain}
use upsgi.BodySched.Budget.{read_budget_within}
use upsgi.Chunked.Socket.{
  Read, arrived, eof, again, error, Wait, ready, timeout, wait_error, Scheduler, Input, Received,
  received, refused, blocked, take_arrived, recv,
}

-- core/body_scheduler.c as the scheduler of a reader, at clock `now`.
abbrev pub body_scheduler : Bool → ℕ → Scheduler State
body_scheduler enabled now = record {
  read_budget = read_budget enabled now;
  note_bytes = λ n s. note_bytes enabled now now n s;
  note_empty_read = note_empty_read enabled now;
  note_eagain = note_eagain enabled now;
  grants = λ requested s p. read_budget_within enabled now requested s p;
}

-- the bytes that the reads hold, in order
abbrev pub incoming : List Read → List ℕ
incoming [] = []
incoming (arrived l ∷ reads) = l ++ incoming reads
incoming (eof ∷ reads) = incoming reads
incoming (again ∷ reads) = incoming reads
incoming (error ∷ reads) = incoming reads

module _ {S : Type 0} (sch : Scheduler S) (nb : Bool) where
  -- The received bytes fit in the room, are some, and are the next ones: none is lost or made up.
  abbrev pub Delivers : ℕ → List Read → Received S → Type 0
  Delivers room reads (received got inp) =
      (0 < length got) × (length got ≤ room) × (incoming reads ≡ got ++ incoming inp.reads)
  Delivers room reads (refused inp) = Unit
  Delivers room reads blocked = Unit

  take_arrived-Delivers :
      (room budget : ℕ) (l : List ℕ) (inp : Input S)
      → budget ≤ room
      → Delivers room (arrived l ∷ inp.reads) (take_arrived sch nb budget l inp)
  unfolding take_arrived
  take_arrived-Delivers room budget l inp le = ground (
    arith,
    length-take budget l,
    take-append-drop budget l,
    append_assoc (take budget l) (drop budget l) (incoming inp.reads),
    append-nil (take budget l),
    no_bytes (drop budget l),
  )
    where
      no_bytes : (r : List ℕ) → length r ≡ 0 → r ≡ []
      no_bytes [] h = refl
      no_bytes (x ∷ r) h = absurd (omega arith)

  -- what is received are the next bytes, some of them, and no more than the room
  pub recv-Delivers :
      (room : ℕ) (reads : List Read) (waits : List Wait) (s : S)
      → 0 < room
      → Delivers room reads (recv sch nb room reads waits s)
  unfolding recv
  recv-Delivers room [] waits s p = tt
  recv-Delivers room (arrived l ∷ reads) waits s p =
      let (budget, s') = sch.read_budget room s in
      take_arrived-Delivers room budget l (record { reads = reads; waits = waits; sched = s' })
        (sch.grants room s p).1
  recv-Delivers room (eof ∷ reads) waits s p = tt
  recv-Delivers room (error ∷ reads) waits s p = tt
  recv-Delivers room (again ∷ reads) [] s p = ground arith
  recv-Delivers room (again ∷ reads) (ready ∷ waits) s p =
      ground (arith, recv-Delivers room reads waits (sch.note_eagain (sch.read_budget room s).1) p)
  recv-Delivers room (again ∷ reads) (timeout ∷ waits) s p = ground arith
  recv-Delivers room (again ∷ reads) (wait_error ∷ waits) s p = ground arith

abbrev pub times : {A : Type 0} → ℕ → A → List A → List A
times zero x l = l
times (suc n) x l = x ∷ times n x l

module _ {S : Type 0} (sch : Scheduler S) (room : ℕ) where
  -- the scheduler's state behind `n` reads that found nothing
  abbrev pub tried : ℕ → S → S
  tried zero s = s
  tried (suc n) s = tried n (sch.note_eagain (sch.read_budget room s).1)

  -- what the attempts amount to that are followed by one that finds something
  recv-times :
      (n : ℕ) (reads : List Read) (waits : List Wait) (s : S)
      → recv sch false room (times n again reads) (times n ready waits) s
        ≡ recv sch false room reads waits (tried n s)
  unfolding recv
  recv-times zero reads waits s = refl
  recv-times (suc n) reads waits s =
      recv-times n reads waits (sch.note_eagain (sch.read_budget room s).1)

  -- A receive into a room of at least one byte whose first reads find nothing, with a wait behind each that
  -- is ready: the bytes that then arrive are cut to what the scheduler grants by then, are some and no more
  -- than the room, what is over stays for the next read, and the scheduler is told of each read that found
  -- nothing and of the bytes; the end of the stream and an error are refused, the first with a note to the
  -- scheduler; a wait that times out is refused; and without blocking the first read that finds nothing is
  -- refused.
  pub recv-Receives :
      (n : ℕ) (l : List ℕ) (reads : List Read) (waits : List Wait) (s : S)
      → 0 < room
      → 0 < length l
      → let b = (sch.read_budget room (tried n s)).0 in
        let s' = (sch.read_budget room (tried n s)).1 in
        let got = take b l in
        (0 < length got)
        × (length got ≤ room)
        × (recv sch false room (times n again (arrived l ∷ reads)) (times n ready waits) s
            ≡ received got (record {
              reads = if ltb b (length l) then arrived (drop b l) ∷ reads else reads;
              waits = waits;
              sched = sch.note_bytes (length got) s';
            }))
        × (recv sch false room (times n again (eof ∷ reads)) (times n ready waits) s
            ≡ refused (record { reads = reads; waits = waits; sched = sch.note_empty_read s' }))
        × (recv sch false room (times n again (error ∷ reads)) (times n ready waits) s
            ≡ refused (record { reads = reads; waits = waits; sched = s' }))
        × (recv sch false room (times n again (again ∷ reads)) (times n ready (timeout ∷ waits)) s
            ≡ refused (record { reads = reads; waits = waits; sched = sch.note_eagain s' }))
        × (recv sch true room (again ∷ reads) waits s
            ≡ refused (record {
              reads = reads;
              waits = waits;
              sched = sch.note_eagain (sch.read_budget room s).1;
            }))
  unfolding recv take_arrived
  recv-Receives n l reads waits s p some =
      let b = (sch.read_budget room (tried n s)).0 in
      let (lo, hi) = sch.grants room (tried n s) p in
      (
        omega (arith, length-take b l, lo, some),
        omega (arith, length-take b l, hi),
        recv-times n (arrived l ∷ reads) waits s
            ∙ arrives b (sch.read_budget room (tried n s)).1 lo,
        recv-times n (eof ∷ reads) waits s,
        recv-times n (error ∷ reads) waits s,
        recv-times n (again ∷ reads) (timeout ∷ waits) s,
        refl,
      )
    where
      arrives :
          (b : ℕ) (s' : S)
          → 0 < b
          → take_arrived sch false b l (record { reads = reads; waits = waits; sched = s' })
            ≡ received (take b l) (record {
              reads = if ltb b (length l) then arrived (drop b l) ∷ reads else reads;
              waits = waits;
              sched = sch.note_bytes (length (take b l)) s';
            })
      arrives b s' lo = ground (arith, length-take b l, length-drop b l, some)
