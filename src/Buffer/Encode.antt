-- ===== src/Buffer/Encode.antt =====
-- core/buffer.c: numbers and key-value pairs as bytes. `x & 0xff` is `x % 256` and `x >> k` is `x / 2 ^ k`.
use upsgi.Common.{ℕ, ◌/◌, ◌%◌, ◌^◌, Bool, List, [], ◌∷◌, length}
use upsgi.Buffer.Ops.{Buffer, Outcome, append, ◌>>=◌}

abbrev pub bytes16le : ℕ → List ℕ
bytes16le num = num % 256 ∷ num / 256 % 256 ∷ []

abbrev pub bytes16be : ℕ → List ℕ
bytes16be num = num / 256 % 256 ∷ num % 256 ∷ []

abbrev pub bytes24be : ℕ → List ℕ
bytes24be num = num / 2 ^ 16 % 256 ∷ num / 256 % 256 ∷ num % 256 ∷ []

abbrev pub bytes32be : ℕ → List ℕ
bytes32be num = num / 2 ^ 24 % 256 ∷ num / 2 ^ 16 % 256 ∷ num / 256 % 256 ∷ num % 256 ∷ []

abbrev pub bytes32le : ℕ → List ℕ
bytes32le num = num % 256 ∷ num / 256 % 256 ∷ num / 2 ^ 16 % 256 ∷ num / 2 ^ 24 % 256 ∷ []

abbrev pub bytes64be : ℕ → List ℕ
bytes64be num =
    num / 2 ^ 56 % 256
    ∷ num / 2 ^ 48 % 256
    ∷ num / 2 ^ 40 % 256
    ∷ num / 2 ^ 32 % 256
    ∷ num / 2 ^ 24 % 256
    ∷ num / 2 ^ 16 % 256
    ∷ num / 256 % 256
    ∷ num % 256
    ∷ []

abbrev pub bytes64le : ℕ → List ℕ
bytes64le num =
    num % 256
    ∷ num / 256 % 256
    ∷ num / 2 ^ 16 % 256
    ∷ num / 2 ^ 24 % 256
    ∷ num / 2 ^ 32 % 256
    ∷ num / 2 ^ 40 % 256
    ∷ num / 2 ^ 48 % 256
    ∷ num / 2 ^ 56 % 256
    ∷ []

module _ (page_size : ℕ) (alloc : ℕ → Bool) where
  unfoldable pub append_byte : Buffer → ℕ → Outcome
  append_byte ub byte = append page_size alloc ub (byte ∷ [])

  unfoldable pub u8 : Buffer → ℕ → Outcome
  u8 ub num = append page_size alloc ub (num ∷ [])

  unfoldable pub u16le : Buffer → ℕ → Outcome
  u16le ub num = append page_size alloc ub (bytes16le num)

  unfoldable pub u16be : Buffer → ℕ → Outcome
  u16be ub num = append page_size alloc ub (bytes16be num)

  unfoldable pub u24be : Buffer → ℕ → Outcome
  u24be ub num = append page_size alloc ub (bytes24be num)

  unfoldable pub u32be : Buffer → ℕ → Outcome
  u32be ub num = append page_size alloc ub (bytes32be num)

  unfoldable pub u32le : Buffer → ℕ → Outcome
  u32le ub num = append page_size alloc ub (bytes32le num)

  unfoldable pub u64be : Buffer → ℕ → Outcome
  u64be ub num = append page_size alloc ub (bytes64be num)

  unfoldable pub u64le : Buffer → ℕ → Outcome
  u64le ub num = append page_size alloc ub (bytes64le num)

  -- `key` is the `keylen` bytes at the pointer, so its length is below 2 ^ 16; so for `val`.
  unfoldable pub append_keyval : Buffer → List ℕ → List ℕ → Outcome
  append_keyval ub key val = do
    a ← u16le ub (length key)
    b ← append page_size alloc a key
    c ← u16le b (length val)
    append page_size alloc c val

  unfoldable pub append_keyval32 : Buffer → List ℕ → List ℕ → Outcome
  append_keyval32 ub key val = do
    a ← u32be ub (length key)
    b ← append page_size alloc a key
    c ← u32be b (length val)
    append page_size alloc c val
