-- ===== src/Chunked/Tests.antt =====
-- The chunked reader at concrete inputs.
use upsgi.Common.{◌≡◌, ◌≤◌, ◌<◌, ℕ, true, false, List, [], ◌∷◌, arith}
use upsgi.Common.Text.{codes}
use upsgi.Chunked.Socket.{
  arrived, again, eof, error, ready, timeout, Scheduler, Input, received, refused, recv,
}
use upsgi.Chunked.Input.{Stream, opened}
use upsgi.Chunked.Receive.{recv-Receives}
use upsgi.Chunked.Lines.{Frame}

-- a scheduler that grants all and keeps no state
abbrev generous : Scheduler (Unit {0})
generous = record {
  read_budget = λ n s. (n, s);
  note_bytes = λ n s. s;
  note_empty_read = λ s. s;
  note_eagain = λ s. s;
  grants = λ n s p. (p, omega arith);
}

abbrev nothing : Input (Unit {0})
nothing = record { reads = []; waits = []; sched = tt }

abbrev holding : List ℕ → Stream
holding bytes = record (opened 4096 0) { buf = record { bytes = bytes; len = 4096; limit = 0 } }

abbrev frames : List Frame
frames =
    record { size = codes "3"; content = codes "abc" }
    ∷ record { size = codes "0a"; content = codes "0123456789" }
    ∷ []

-- two reads find nothing first
recv-Receives_example :
    (0 < 3)
    × (3 ≤ 4)
    × (recv generous false 4 (again ∷ again ∷ arrived (codes "abc") ∷ []) (ready ∷ ready ∷ []) tt
        ≡ received (codes "abc") (record { reads = []; waits = []; sched = tt }))
    × (recv generous false 4 (again ∷ again ∷ eof ∷ []) (ready ∷ ready ∷ []) tt
        ≡ refused (record { reads = []; waits = []; sched = tt }))
    × (recv generous false 4 (again ∷ again ∷ error ∷ []) (ready ∷ ready ∷ []) tt
        ≡ refused (record { reads = []; waits = []; sched = tt }))
    × (recv generous false 4 (again ∷ again ∷ again ∷ []) (ready ∷ ready ∷ timeout ∷ []) tt
        ≡ refused (record { reads = []; waits = []; sched = tt }))
    × (recv generous true 4 (again ∷ []) [] tt
        ≡ refused (record { reads = []; waits = []; sched = tt }))
recv-Receives_example =
    recv-Receives generous 4 2 (codes "abc") [] [] tt (omega arith) (omega arith)

abbrev huge : List ℕ
huge = codes "fffffffffffffffe"
