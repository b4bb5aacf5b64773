-- ===== src/Buffer/Ops.antt =====
-- core/buffer.c: struct upsgi_buffer (upsgi.h) and the functions that move its bytes. `bytes` are the
-- first `pos` bytes of the allocation, which holds `len`. `page_size` is upsgi.page_size, and `alloc`
-- says of each size whether realloc() finds room for it; it keeps the bytes that still fit.
use upsgi.Common.{
  ℕ, ◌+◌, max, Bool, ◌&&◌, List, [], ◌++◌, ltb, leb, ◌==◌, if◌then◌else◌, length, take, drop, add64,
  sub64,
}

pub record Buffer : Type 0 where
  pub bytes : List ℕ
  pub len : ℕ
  pub limit : ℕ

abbrev pub pos : Buffer → ℕ
pos ub = length ub.bytes

-- `done` is the return value 0 and `failed` -1, each with the buffer as it is left; `overrun` is a
-- write or a read outside the allocation.
pub data Outcome : Type 0 where
  done : Buffer → Outcome
  failed : Buffer → Outcome
  overrun : Outcome

-- `if (first) return -1; second`
infixl 5 ◌>>=◌
abbrev pub ◌>>=◌ : Outcome → (Buffer → Outcome) → Outcome
done ub >>= f = f ub
failed ub >>= f = failed ub
overrun >>= f = overrun

unfoldable pub new : ℕ → Buffer
new len = record { bytes = []; len = len; limit = 0 }

-- memcpy() of `data` behind the bytes, and `pos += len`
unfoldable pub put : Buffer → List ℕ → Outcome
put ub data' =
    if leb (pos ub + length data') ub.len
    then done (record ub { bytes = ub.bytes ++ data' })
    else overrun

-- memmove() to the front, and `pos -= len`
unfoldable pub decapitate : Buffer → ℕ → Outcome
decapitate ub len =
    if ltb (pos ub) len then failed ub else done (record ub { bytes = drop len ub.bytes })

module _ (page_size : ℕ) (alloc : ℕ → Bool) where
  unfoldable pub fix : Buffer → ℕ → Outcome
  fix ub len =
      if ltb 0 ub.limit && ltb ub.limit len
      then failed ub
      else if ltb ub.len len
      then (if alloc len then done (record ub { len = len }) else failed ub)
      else done ub

  -- realloc() to `new_len`
  abbrev pub resize : Buffer → ℕ → Outcome
  resize ub new_len = if alloc new_len then done (record ub { len = new_len }) else failed ub

  unfoldable pub ensure : Buffer → ℕ → Outcome
  ensure ub len =
      let remains = sub64 ub.len (pos ub) in
      let new_len = add64 ub.len (sub64 len remains) in
      if ltb remains len
      then (if ltb 0 ub.limit && ltb ub.limit new_len
          then (if ub.limit == ub.len then failed ub else resize ub ub.limit)
          else resize ub new_len)
      else done ub

  -- the write of insert: `to_move` bytes from `at` on make room for `data`
  unfoldable pub splice : ℕ → List ℕ → Buffer → Outcome
  splice at data' ub =
      if leb at (pos ub) && leb (pos ub + length data') ub.len
      then done (record ub { bytes = take at ub.bytes ++ (data' ++ drop at ub.bytes) })
      else overrun

  unfoldable pub insert : Buffer → ℕ → List ℕ → Outcome
  insert ub at data' = ensure ub (length data') >>= splice at data'

  -- by how much append grows the allocation: a page, or less near the limit
  unfoldable pub chunk_size : Buffer → ℕ → ℕ
  chunk_size ub len =
      let big = max len page_size in
      if ltb 0 ub.limit && ltb ub.limit (add64 ub.len big)
      then (if ltb len page_size then len else big)
      else big

  unfoldable pub append : Buffer → List ℕ → Outcome
  append ub data' =
      let len = length data' in
      let grown = add64 ub.len (chunk_size ub len) in
      if ltb (sub64 ub.len (pos ub)) len
      then (if ltb 0 ub.limit && ltb ub.limit grown
          then failed ub
          else (if alloc grown then put (record ub { len = grown }) data' else failed ub))
      else put ub data'
