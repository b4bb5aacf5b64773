-- ===== src/Buffer/Tests.antt =====
-- The buffer at concrete inputs.
use upsgi.Common.{ℕ, ◌≡◌, refl, Bool, true, arith}
use upsgi.Common.Text.{codes}
use upsgi.Buffer.Ops.{Buffer, done, overrun, put, insert, chunk_size, append}
use upsgi.Buffer.Memory.{Appended, append-Appended, insert-overrun}

abbrev always : ℕ → Bool
always n = true

-- two bytes in four, with a limit of six
abbrev small : Buffer
small = record { bytes = codes "ab"; len = 4; limit = 6 }

abbrev unlimited : Buffer
unlimited = record { bytes = codes "ab"; len = 4; limit = 0 }

append_runs :
    append 16 always small (codes "cd") ≡ done (record { bytes = codes "abcd"; len = 4; limit = 6 })
unfolding append put chunk_size
append_runs = refl

append-Appended_example : Appended small (codes "cde") (append 16 always small (codes "cde"))
append-Appended_example =
    append-Appended 16 (omega arith) always small (codes "cde") (omega arith) (omega arith)

insert-overrun_example : insert 16 (λ _. true) small 1 (codes "uvwxyz") ≡ overrun
insert-overrun_example =
    insert-overrun 16 small 1 (codes "uvwxyz") (omega arith) (omega arith) (omega arith)
      (omega arith) (omega arith)
