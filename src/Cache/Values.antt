-- ===== src/Cache/Values.antt =====
-- The flags of upsgi_cache_set2 in core/cache.c, its arithmetic, and the bytes of values.
use upsgi.Common.{
  ℕ, zero, suc, ◌+◌, ◌-◌, ◌*◌, ◌/◌, ◌%◌, ◌^◌, Bool, not, ◌&&◌, bit_and, List, [], ◌∷◌, ltb, leb,
  ◌==◌, if◌then◌else◌, length, get_or, add64, sub64, mul64,
}
use upsgi.Buffer.Encode.{bytes64le}

-- the values of UPSGI_CACHE_FLAG_UNGETTABLE and the following ones
pub record Flags : Type 0 where
  pub ungettable : Bool
  pub update : Bool
  pub local : Bool
  pub absexpire : Bool
  pub math : Bool
  pub inc : Bool
  pub dec : Bool
  pub mul : Bool
  pub div : Bool
  pub fixexpire : Bool

unfoldable pub flag : ℕ → ℕ → Bool
flag flags k = not (bit_and flags (2 ^ k) == 0)

unfoldable pub flags_of : ℕ → Flags
flags_of n = record {
  ungettable = flag n 0;
  update = flag n 1;
  local = flag n 2;
  absexpire = flag n 3;
  math = flag n 4;
  inc = flag n 5;
  dec = flag n 6;
  mul = flag n 7;
  div = flag n 8;
  fixexpire = flag n 9;
}

-- memcpy to and from an address
unfoldable pub write_bytes : ℕ → List ℕ → (ℕ → ℕ) → ℕ → ℕ
write_bytes address bytes memory a =
    if leb address a && ltb a (address + length bytes)
    then get_or bytes (a - address) 0
    else memory a

unfoldable pub read_bytes : (ℕ → ℕ) → ℕ → ℕ → List ℕ
read_bytes memory address zero = []
read_bytes memory address (suc n) = memory address ∷ read_bytes memory (address + 1) n

-- an int64_t by its 64 bits, from its bytes
unfoldable pub num_of : List ℕ → ℕ
num_of [] = 0
num_of (c ∷ bytes) = c + 256 * num_of bytes

abbrev magnitude : ℕ → ℕ
magnitude x = if ltb x (2 ^ 63) then x else 2 ^ 64 - x

-- the quotient of two int64_t, cut towards 0
unfoldable pub div_signed : ℕ → ℕ → ℕ
div_signed a b =
    let q = magnitude a / magnitude b in
    if (if ltb a (2 ^ 63) then ltb b (2 ^ 63) else not (ltb b (2 ^ 63)))
    then q % 2 ^ 64
    else (2 ^ 64 - q) % 2 ^ 64

-- the operations on *num by *delta
unfoldable pub do_math : Flags → ℕ → ℕ → ℕ
do_math f num delta =
    if f.inc
    then add64 num delta
    else if f.dec
    then sub64 num delta
    else if f.mul
    then mul64 num delta
    else if f.div
    then (if delta == 0 then 0 else div_signed num delta)
    else num

-- the bytes that a value leaves at its place, where `num` is the number before
unfoldable pub value_bytes : Flags → ℕ → List ℕ → List ℕ
value_bytes f num val = if f.math then bytes64le (do_math f num (num_of val)) else val
