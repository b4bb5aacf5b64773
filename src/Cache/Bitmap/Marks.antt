-- ===== src/Cache/Bitmap/Marks.antt =====
-- What marking and unmarking do to the blocks.
use upsgi.Common.{
  ℕ, ◌+◌, ◌-◌, ◌*◌, ◌/◌, ◌%◌, ◌≤◌, ◌<◌, ◌≡◌, arith, bit_and, bit_or, Bool, true, false, not, ◌&&◌,
  ◌||◌, List, ltb, leb, ◌==◌, if◌then◌else◌, length, get_or,
}
use upsgi.Buffer.Numbers.{AllBytes}
use upsgi.Cache.Bitmap.{
  Blocks, needed_blocks, change_byte, fill_bytes, change_blocks, first_mask, last_mask, one_mask,
  mark_blocks, unmark_blocks,
}
use upsgi.Cache.Bitmap.Bytes.{
  get_or-change_byte, length-change_byte, get_or-fill_bytes, length-fill_bytes, get_or-AllBytes,
  change_byte-AllBytes, fill_bytes-AllBytes, if-AllBytes,
}
use upsgi.Cache.Bitmap.Bits.{
  stores-full, stores-empty, stores, lies_in, stores-bit_or, stores-bit_and, bit_or-lt,
  first_mask-eq, last_mask-eq,
}

-- whether a block is marked
abbrev pub is_used : List ℕ → ℕ → Bool
is_used bitmap k = stores (get_or bitmap (k / 8) 0) (k % 8)

-- A byte changed by a mask: bit by bit, `g` of the bit and of whether the mask has it, and `v` is what a full
-- mask gives.
module _ (f : ℕ → ℕ → ℕ) (v : ℕ) (g : Bool → Bool → Bool)
    (bits : (first last num c : ℕ)
      → first < 8
      → last < 8
      → num < 256
      → c < 8
      → stores (f num (one_mask first last)) c ≡ g (stores num c) (lies_in first last c))
    (off : (b : Bool) → g b false ≡ b)
    (full : (b : Bool) (c : ℕ) → c < 8 → stores v c ≡ g b true) where
  module _ (uc : Blocks) (index len : ℕ) (valid : AllBytes uc.blocks_bitmap)
      (some_blocks : 0 < needed_blocks uc len)
      (within : index + needed_blocks uc len ≤ 8 * length uc.blocks_bitmap) where
    abbrev last : ℕ
    last = index + needed_blocks uc len - 1

    -- the new value of a byte
    abbrev new_byte : ℕ → ℕ
    new_byte j =
        let old = get_or uc.blocks_bitmap j 0 in
        if index / 8 == last / 8
        then (if j == index / 8 then f old (one_mask (index % 8) (last % 8)) else old)
        else if j == index / 8
        then f old (one_mask (index % 8) 7)
        else if j == last / 8
        then f old (one_mask 0 (last % 8))
        else if ltb (index / 8) j && ltb j (last / 8)
        then v
        else old

    change_blocks-byte :
        (j : ℕ) → get_or ((change_blocks f v uc index len).blocks_bitmap) j 0 ≡ new_byte j
    unfolding change_blocks
    change_blocks-byte j =
        let first_byte = index / 8 in
        let last_byte = last / 8 in
        let bm = uc.blocks_bitmap in
        let one = change_byte (λ c. f c (one_mask (index % 8) (last % 8))) first_byte bm in
        let start = change_byte (λ c. f c (first_mask (index % 8))) first_byte bm in
        let both = change_byte (λ c. f c (last_mask (last % 8))) last_byte start in
        ground (
          arith,
          get_or-change_byte (λ c. f c (one_mask (index % 8) (last % 8))) first_byte bm j,
          get_or-change_byte (λ c. f c (first_mask (index % 8))) first_byte bm j,
          get_or-change_byte (λ c. f c (first_mask (index % 8))) first_byte bm last_byte,
          get_or-change_byte (λ c. f c (last_mask (last % 8))) last_byte start j,
          get_or-fill_bytes v (first_byte + 1) (last_byte - first_byte + 1 - 2) both j,
          length-change_byte (λ c. f c (first_mask (index % 8))) first_byte bm,
          length-change_byte (λ c. f c (last_mask (last % 8))) last_byte start,
          first_mask-eq (index % 8),
          last_mask-eq (last % 8),
        )

    pub change_blocks-bit :
        (k : ℕ)
        → is_used ((change_blocks f v uc index len).blocks_bitmap) k
          ≡ g (is_used uc.blocks_bitmap k) (leb index k && ltb k (index + needed_blocks uc len))
    change_blocks-bit k =
        let byte = change_blocks-byte (k / 8) in
        let old = get_or uc.blocks_bitmap (k / 8) 0 in
        let small = get_or-AllBytes uc.blocks_bitmap (k / 8) valid in
        ground (
          arith,
          byte,
          small,
          bits (index % 8) (last % 8) old (k % 8),
          bits (index % 8) 7 old (k % 8),
          bits 0 (last % 8) old (k % 8),
          off (stores old (k % 8)),
          full (stores old (k % 8)) (k % 8),
        )

change_blocks-AllBytes :
    (f : ℕ → ℕ → ℕ) (v : ℕ) (uc : Blocks) (index len : ℕ)
    → ((first last c : ℕ) → first < 8 → last < 8 → c < 256 → f c (one_mask first last) < 256)
    → v < 256
    → AllBytes uc.blocks_bitmap
    → AllBytes ((change_blocks f v uc index len).blocks_bitmap)
unfolding change_blocks
change_blocks-AllBytes f v uc index len masked small valid =
    let last = index + needed_blocks uc len - 1 in
    let first_byte = index / 8 in
    let last_byte = last / 8 in
    let n = last_byte - first_byte + 1 in
    let mask = if n == 1 then one_mask (index % 8) (last % 8) else first_mask (index % 8) in
    let one = change_byte (λ c. f c mask) first_byte uc.blocks_bitmap in
    let both = change_byte (λ c. f c (last_mask (last % 8))) last_byte one in
    let one_valid =
      change_byte-AllBytes (λ c. f c mask) first_byte uc.blocks_bitmap
        (λ c h. ground (
          arith,
          masked (index % 8) (last % 8) c,
          masked (index % 8) 7 c,
          first_mask-eq (index % 8),
        ))
        valid in
    let both_valid =
      change_byte-AllBytes (λ c. f c (last_mask (last % 8))) last_byte one
        (λ c h. ground (arith, masked 0 (last % 8) c, last_mask-eq (last % 8))) one_valid in
    let two_valid = if-AllBytes (ltb 1 n) both one both_valid one_valid in
    if-AllBytes (ltb 2 n) (fill_bytes v (first_byte + 1) (n - 2) (if ltb 1 n then both else one))
      (if ltb 1 n then both else one)
      (fill_bytes-AllBytes v (first_byte + 1) (n - 2) (if ltb 1 n then both else one) small
        two_valid)
      two_valid

length-change_blocks :
    (f : ℕ → ℕ → ℕ) (v : ℕ) (uc : Blocks) (index len : ℕ)
    → length ((change_blocks f v uc index len).blocks_bitmap) ≡ length uc.blocks_bitmap
unfolding change_blocks
length-change_blocks f v uc index len =
    let last = index + needed_blocks uc len - 1 in
    let first_byte = index / 8 in
    let last_byte = last / 8 in
    let n = last_byte - first_byte + 1 in
    let mask = if n == 1 then one_mask (index % 8) (last % 8) else first_mask (index % 8) in
    let one = change_byte (λ c. f c mask) first_byte uc.blocks_bitmap in
    let both = change_byte (λ c. f c (last_mask (last % 8))) last_byte one in
    ground (
      arith,
      length-change_byte (λ c. f c mask) first_byte uc.blocks_bitmap,
      length-change_byte (λ c. f c (last_mask (last % 8))) last_byte one,
      length-fill_bytes v (first_byte + 1) (n - 2) both,
      length-fill_bytes v (first_byte + 1) (n - 2) one,
    )

-- the blocks of a value
abbrev pub lies_within : Blocks → ℕ → ℕ → ℕ → Bool
lies_within uc index len k = leb index k && ltb k (index + needed_blocks uc len)

module _ (uc : Blocks) (index len : ℕ) (valid : AllBytes uc.blocks_bitmap)
    (some_blocks : 0 < needed_blocks uc len)
    (within : index + needed_blocks uc len ≤ 8 * length uc.blocks_bitmap) (k : ℕ) where
  -- Marking the blocks of a value marks these and leaves the other blocks as they were.
  pub mark_blocks-is_used :
      is_used ((mark_blocks uc index len).blocks_bitmap) k
      ≡ (is_used uc.blocks_bitmap k || lies_within uc index len k)
  unfolding mark_blocks
  mark_blocks-is_used =
      change_blocks-bit bit_or 255 (λ a b. a || b) stores-bit_or (λ b. ground arith) stores-full uc
        index len valid some_blocks within k

  -- Unmarking the blocks of a value frees these and leaves the other blocks as they were.
  pub unmark_blocks-is_used :
      is_used ((unmark_blocks uc index len).blocks_bitmap) k
      ≡ (is_used uc.blocks_bitmap k && not (lies_within uc index len k))
  unfolding unmark_blocks
  unmark_blocks-is_used =
      change_blocks-bit (λ c mask. bit_and c (255 - mask)) 0 (λ a b. a && not b) stores-bit_and
        (λ b. ground arith) stores-empty uc index len valid some_blocks within k

  -- the changed bitmap is one of as many bytes
  pub mark_blocks-AllBytes : AllBytes ((mark_blocks uc index len).blocks_bitmap)
  unfolding mark_blocks
  mark_blocks-AllBytes =
      change_blocks-AllBytes bit_or 255 uc index len
        (λ a b c ha hb hc. bit_or-lt a b c 0 ha hb hc (omega arith)) (omega arith) valid

  pub length-mark_blocks :
      length ((mark_blocks uc index len).blocks_bitmap) ≡ length uc.blocks_bitmap
  unfolding mark_blocks
  length-mark_blocks = length-change_blocks bit_or 255 uc index len
