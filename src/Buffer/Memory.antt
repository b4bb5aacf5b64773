-- ===== src/Buffer/Memory.antt =====
-- What the buffer operations do to the bytes, and that they stay inside the allocation.
use upsgi.Common.{
  ℕ, ◌+◌, ◌^◌, ◌≤◌, ◌<◌, ◌≡◌, refl, Bool, true, false, List, ◌++◌, arith, length, take, drop,
  length-append, take-append-drop, length-drop, ltb,
}
use upsgi.Buffer.Ops.{
  Buffer, pos, Outcome, done, failed, overrun, put, decapitate, ensure, splice, insert, chunk_size,
  append, ◌>>=◌,
}

-- The bytes lie in the allocation, and the allocation respects a limit.
pub record IsValid (ub : Buffer) : Type 0 where
  pub fits : pos ub ≤ ub.len
  pub small : ub.len < 2 ^ 62
  pub limited : 0 < ub.limit → ub.len ≤ ub.limit

-- The outcome of an operation that adds `data'` or leaves the buffer as it was.
abbrev pub Appended : Buffer → List ℕ → Outcome → Type 0
Appended ub data' (done b) =
    (b.bytes ≡ ub.bytes ++ data')
    × (b.limit ≡ ub.limit)
    × (ub.len ≤ b.len)
    × (pos b ≤ b.len)
    × (0 < b.limit → b.len ≤ b.limit)
Appended ub data' (failed b) = b ≡ ub
Appended ub data' overrun = ⊥

-- The only reason to refuse, where realloc() always finds room: there is a limit, what is left of the
-- allocation is too small, and the allocation with the new bytes would exceed the limit.
abbrev pub is_refused : Buffer → ℕ → Bool
is_refused ub len = elim (ltb 0 ub.limit) [
  | true ↦ elim (ltb ub.len (pos ub + len)) [ true ↦ ltb ub.limit (ub.len + len) | false ↦ false ]
  | false ↦ false
]

abbrev pub is_failed : Outcome → Bool
is_failed (failed _) = true
is_failed (done _) = false
is_failed overrun = false

module _ (page_size : ℕ) (small_page : page_size < 2 ^ 62) where
  -- append either adds exactly the given bytes at the end, keeps the limit, stays inside the
  -- allocation (which never shrinks) and within the limit, or fails and leaves the buffer as it was.
  pub append-Appended :
      (alloc : ℕ → Bool) (ub : Buffer) (data' : List ℕ)
      → IsValid ub
      → length data' < 2 ^ 62
      → Appended ub data' (append page_size alloc ub data')
  unfolding append put chunk_size
  append-Appended alloc ub data' v s = ground (arith, length-append ub.bytes data')

  -- Where realloc() always finds room, append fails exactly when there is a limit, the free space is
  -- too small, and the whole allocation plus the new bytes exceeds the limit.
  pub append-is_refused :
      (ub : Buffer) (data' : List ℕ)
      → IsValid ub
      → length data' < 2 ^ 62
      → is_failed (append page_size (λ _. true) ub data') ≡ is_refused ub (length data')
  unfolding append put chunk_size
  append-is_refused ub data' v s = ground (arith, length-append ub.bytes data')

-- decapitate removes exactly the first `len` bytes, or fails and leaves the buffer as it was if there
-- are fewer; what it removes and what it keeps are the bytes that there were.
pub decapitate_lem :
    (ub : Buffer) (len : ℕ) {b : Buffer}
    → decapitate ub len ≡ done b
    → (take len ub.bytes ++ b.bytes ≡ ub.bytes) × (pos b + len ≡ pos ub)
unfolding decapitate
decapitate_lem ub len h = ground (arith, take-append-drop len ub.bytes, length-drop len ub.bytes)

-- The outcome of insert where there is no limit.
abbrev pub Inserted : Buffer → ℕ → List ℕ → Outcome → Type 0
Inserted ub at data' (done b) =
    (b.bytes ≡ take at ub.bytes ++ (data' ++ drop at ub.bytes))
    × (pos b ≡ pos ub + length data')
    × (pos b ≤ b.len)
Inserted ub at data' (failed b) = b ≡ ub
Inserted ub at data' overrun = ⊥

-- Without a limit, insert puts the bytes at the position, moves the rest behind them and stays inside
-- the allocation, or fails and leaves the buffer as it was.
pub insert-Inserted :
    (page_size : ℕ) (alloc : ℕ → Bool) (ub : Buffer) (at : ℕ) (data' : List ℕ)
    → IsValid ub
    → ub.limit ≡ 0
    → length data' < 2 ^ 62
    → at ≤ pos ub
    → Inserted ub at data' (insert page_size alloc ub at data')
unfolding insert ensure splice
insert-Inserted page_size alloc ub at data' v nolimit s le = ground (
  arith,
  take-append-drop at ub.bytes,
  length-append (take at ub.bytes) (drop at ub.bytes),
  length-append (take at ub.bytes) (data' ++ drop at ub.bytes),
  length-append data' (drop at ub.bytes),
)

-- With a limit that is above the allocation and below the room that the insertion needs, ensure
-- cuts the growth to the limit and reports success, and insert then writes past the allocation,
-- whenever realloc() finds room.
pub insert-overrun :
    (page_size : ℕ) (ub : Buffer) (at : ℕ) (data' : List ℕ)
    → IsValid ub
    → length data' < 2 ^ 62
    → at ≤ pos ub
    → ub.len < ub.limit
    → ub.limit < pos ub + length data'
    → insert page_size (λ _. true) ub at data' ≡ overrun
unfolding insert ensure splice
insert-overrun page_size ub at data' v s le lim need = ground arith

-- Whatever append has added when it succeeds is what it was given.
pub append-bytes :
    (page_size : ℕ) (alloc : ℕ → Bool) (ub : Buffer) (data' : List ℕ) {b : Buffer}
    → append page_size alloc ub data' ≡ done b
    → b.bytes ≡ ub.bytes ++ data'
unfolding append put
append-bytes page_size alloc ub data' h = ground arith

pub >>=-eq-done :
    (m : Outcome) (f : Buffer → Outcome) {b : Buffer}
    → (m >>= f) ≡ done b
    → (a : Buffer) × (m ≡ done a) × (f a ≡ done b)
>>=-eq-done (done a) f h = (a, refl, h)
>>=-eq-done (failed a) f h = cc
>>=-eq-done overrun f h = cc
