-- ===== src/Cache/Bitmap.antt =====
-- The block bitmap of core/cache.c. A block is a bit of a byte, the highest first; `num & i` and the shifts
-- are those of bytes.
pub mod Bits
pub mod Bytes
pub mod Marks
pub mod Search
pub mod Place
pub mod Missed
use upsgi.Common.{
  ℕ, zero, suc, ◌+◌, ◌-◌, ◌*◌, ◌/◌, ◌%◌, ◌^◌, bit_and, bit_or, not, List, [], ◌∷◌, Option, none,
  some, ltb, leb, ◌==◌, if◌then◌else◌, length, get_or,
}

-- the fields of struct upsgi_cache for the bitmap, whose size is that of the list
pub record Blocks : Type 0 where
  pub blocks : ℕ
  pub blocksize : ℕ
  pub blocks_bitmap : List ℕ
  pub blocks_bitmap_pos : ℕ

-- how many blocks hold so many bytes; the size of a block is not 0
unfoldable pub needed_blocks : Blocks → ℕ → ℕ
needed_blocks uc need = need / uc.blocksize + (if ltb 0 (need % uc.blocksize) then 1 else 0)

-- base, base_bit and found; a base of 0xffffffffffffffff is none
pub record Run : Type 0 where
  pub base : Option (ℕ × ℕ)
  pub found : ℕ

abbrev pub cleared : Run
cleared = record { base = none; found = 0 }

pub data Scan : Type 0 where
  hit : ℕ → Scan
  going : Run → Scan

-- a free block at this byte and bit
unfoldable pub with_free : ℕ → ℕ → Run → Run
with_free j bit_pos run = record {
  base = elim run.base [ none ↦ some (j, bit_pos) | some b ↦ some b ];
  found = run.found + 1;
}

unfoldable pub base_block : Run → ℕ
base_block run = elim run.base [ none ↦ 0 | some b ↦ b.0 * 8 + b.1 ]

-- the inner loop, over the last `left` bits of a byte
unfoldable pub scan_bits : ℕ → ℕ → ℕ → ℕ → Run → Scan
scan_bits needed j num zero run = going run
scan_bits needed j num (suc left) run =
    let is_used = not (bit_and num (2 ^ left) == 0) in
    let run' = if is_used then cleared else with_free j (7 - left) run in
    let rest = scan_bits needed j num left run' in
    if is_used then rest else if run'.found == needed then hit (base_block run') else rest

-- the outer loop; a run does not go on at the end of the bitmap
unfoldable pub scan_bytes : ℕ → List ℕ → ℕ → ℕ → ℕ → ℕ → Run → Option ℕ
scan_bytes needed bitmap bitmap_byte zero j bitmap_bit run = none
scan_bytes needed bitmap bitmap_byte (suc need_to_scan) j bitmap_bit run =
    let wraps = leb (length bitmap) (j + 1) in
    let start = if j == bitmap_byte then bitmap_bit else 0 in
    elim (scan_bits needed j (get_or bitmap j 0) (8 - start) run) [
      | hit block ↦ some block
      | going run' ↦
          scan_bytes needed bitmap bitmap_byte need_to_scan (if wraps then 0 else j + 1)
            (if wraps then 0 else bitmap_bit) (if wraps then cleared else run')
    ]

-- none is 0xffffffffffffffff
unfoldable pub find_free_blocks : Blocks → ℕ → Option ℕ
find_free_blocks uc need =
    let bitmap_byte = uc.blocks_bitmap_pos / 8 in
    let bitmap_bit = uc.blocks_bitmap_pos % 8 in
    scan_bytes (needed_blocks uc need) uc.blocks_bitmap bitmap_byte
      (length uc.blocks_bitmap + (if ltb 0 bitmap_bit then 1 else 0)) bitmap_byte bitmap_bit cleared

-- bitmap[i] with another value
unfoldable pub change_byte : (ℕ → ℕ) → ℕ → List ℕ → List ℕ
change_byte f i [] = []
change_byte f zero (c ∷ bitmap) = f c ∷ bitmap
change_byte f (suc i) (c ∷ bitmap) = c ∷ change_byte f i bitmap

-- memset of `n` bytes from bitmap[i] on
unfoldable pub fill_bytes : ℕ → ℕ → ℕ → List ℕ → List ℕ
fill_bytes v i n [] = []
fill_bytes v zero zero bitmap = bitmap
fill_bytes v zero (suc n) (c ∷ bitmap) = v ∷ fill_bytes v zero n bitmap
fill_bytes v (suc i) n (c ∷ bitmap) = c ∷ fill_bytes v i n bitmap

-- the masks of the first and the last byte, and of a byte that is both
unfoldable pub first_mask : ℕ → ℕ
first_mask first_byte_bit = 255 / 2 ^ first_byte_bit

unfoldable pub last_mask : ℕ → ℕ
last_mask last_byte_bit = 255 * 2 ^ (7 - last_byte_bit) % 256

unfoldable pub one_mask : ℕ → ℕ → ℕ
one_mask first_byte_bit last_byte_bit =
    first_mask first_byte_bit / 2 ^ (7 - last_byte_bit) * 2 ^ (7 - last_byte_bit) % 256

-- The common part of cache_mark_blocks and cache_unmark_blocks: `f` puts a mask into a byte, `v` fills the
-- bytes between the first and the last one.
unfoldable pub change_blocks : (ℕ → ℕ → ℕ) → ℕ → Blocks → ℕ → ℕ → Blocks
change_blocks f v uc index len =
    let last = index + needed_blocks uc len - 1 in
    let first_byte = index / 8 in
    let last_byte = last / 8 in
    let needed_bytes = last_byte - first_byte + 1 in
    let mask =
      if needed_bytes == 1 then one_mask (index % 8) (last % 8) else first_mask (index % 8) in
    let one = change_byte (λ c. f c mask) first_byte uc.blocks_bitmap in
    let two =
      if ltb 1 needed_bytes
      then change_byte (λ c. f c (last_mask (last % 8))) last_byte one
      else one in
    record uc {
      blocks_bitmap =
          if ltb 2 needed_bytes then fill_bytes v (first_byte + 1) (needed_bytes - 2) two else two;
    }

unfoldable pub mark_blocks : Blocks → ℕ → ℕ → Blocks
mark_blocks = change_blocks bit_or 255

-- `&= ~mask`
unfoldable pub unmark_blocks : Blocks → ℕ → ℕ → Blocks
unmark_blocks = change_blocks (λ c mask. bit_and c (255 - mask)) 0

-- where a new value goes, in upsgi_cache_set2
unfoldable pub place : Blocks → ℕ → Option (ℕ × Blocks)
place uc vallen = elim (find_free_blocks uc vallen) [
  | none ↦ none
  | some first_block ↦
      let behind = first_block + needed_blocks uc vallen in
      some (
        first_block,
        record (mark_blocks uc first_block vallen) {
          blocks_bitmap_pos = if leb uc.blocks behind then 0 else behind;
        },
      )
]
