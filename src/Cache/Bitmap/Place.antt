-- ===== src/Cache/Bitmap/Place.antt =====
-- Placing a value in the blocks of a cache, and removing it.
use native.Mathlib.Nat.{div-add-mod}
use upsgi.Common.{
  chain-some, ℕ, ◌+◌, ◌*◌, ◌≤◌, ◌<◌, ◌≡◌, refl, arith, ◌||◌, Option, some, leb, if◌then◌else◌,
  length,
}
use mathlib.Core.Path.{subst}
use mathlib.Core.Option.{some-injective}
use upsgi.Buffer.Numbers.{AllBytes}
use upsgi.Cache.Bitmap.{
  Blocks, needed_blocks, find_free_blocks, change_blocks, mark_blocks, unmark_blocks, place,
}
use upsgi.Cache.Bitmap.Marks.{
  is_used, lies_within, mark_blocks-is_used, unmark_blocks-is_used, mark_blocks-AllBytes,
  length-mark_blocks,
}
use upsgi.Cache.Bitmap.Search.{AllFree, find_free_blocks-AllFree}

-- What place leaves for a value of `len` bytes at the block `first`: its blocks were free and lie in the
-- bitmap, they are marked and no other block changes, unmarking them gives back every block, and the
-- position for the next search lies in the bitmap.
pub record Placed (uc : Blocks) (len first : ℕ) (uc' : Blocks) : Type 0 where
  pub was_free : AllFree uc.blocks_bitmap first (first + needed_blocks uc len)
  pub within : first + needed_blocks uc len ≤ 8 * length uc.blocks_bitmap
  pub marks :
      (k : ℕ)
      → is_used uc'.blocks_bitmap k ≡ (is_used uc.blocks_bitmap k || lies_within uc first len k)
  pub gives_back :
      (k : ℕ) → is_used ((unmark_blocks uc' first len).blocks_bitmap) k ≡ is_used uc.blocks_bitmap k
  pub valid : AllBytes uc'.blocks_bitmap
  pub next : uc'.blocks_bitmap_pos < 8 * length uc'.blocks_bitmap

needed_blocks-mark_blocks :
    (uc : Blocks) (first len pos : ℕ)
    → needed_blocks (record (mark_blocks uc first len) { blocks_bitmap_pos = pos }) len
      ≡ needed_blocks uc len
unfolding needed_blocks mark_blocks change_blocks
needed_blocks-mark_blocks uc first len pos = refl

marked-Placed :
    (uc : Blocks) (len first : ℕ)
    → AllBytes uc.blocks_bitmap
    → uc.blocks ≤ 8 * length uc.blocks_bitmap
    → uc.blocks_bitmap_pos < uc.blocks
    → 0 < needed_blocks uc len
    → find_free_blocks uc len ≡ some first
    → Placed uc len first (record (mark_blocks uc first len) {
      blocks_bitmap_pos =
          if leb uc.blocks (first + needed_blocks uc len) then 0 else first + needed_blocks uc len;
    })
marked-Placed uc len first valid size inside some_needed e =
    let (free, within) =
      find_free_blocks-AllFree uc len e some_needed (omega (arith, size, inside)) in
    let same_length = length-mark_blocks uc first len valid some_needed within 0 in
    let marked : Blocks = record (mark_blocks uc first len) {
      blocks_bitmap_pos =
          if leb uc.blocks (first + needed_blocks uc len) then 0 else first + needed_blocks uc len;
    } in
    let marks : (k : ℕ)
        → is_used marked.blocks_bitmap k
          ≡ (is_used uc.blocks_bitmap k || lies_within uc first len k) =
      λ k. mark_blocks-is_used uc first len valid some_needed within k in
    let same : needed_blocks marked len ≡ needed_blocks uc len =
      needed_blocks-mark_blocks uc first len marked.blocks_bitmap_pos in
    let marked_valid = mark_blocks-AllBytes uc first len valid some_needed within 0 in
    let gives_back : (k : ℕ)
        → is_used ((unmark_blocks marked first len).blocks_bitmap) k ≡ is_used uc.blocks_bitmap k =
      λ k.
        let back =
          unmark_blocks-is_used marked first len marked_valid (omega (arith, same, some_needed))
            (omega (arith, same, within, same_length)) k in
        ground (arith, back, marks k, free k, same) in
    record {
      was_free = free;
      within = within;
      marks = marks;
      gives_back = gives_back;
      valid = marked_valid;
      next = ground (arith, same_length, size, inside);
    }

needed_blocks-pos : (uc : Blocks) (len : ℕ) → 0 < len → 0 < needed_blocks uc len
unfolding needed_blocks
needed_blocks-pos uc len h = ground (arith, div-add-mod len uc.blocksize)

-- In a bitmap of bytes for all its blocks, with the position at a block: when a value is given a place, the
-- place is free and inside the bitmap, its blocks and no others are marked, removing the value gives back the
-- blocks as they were, and the next search starts inside the bitmap.
pub place-Placed :
    (uc : Blocks) (len : ℕ) {first : ℕ} {uc' : Blocks}
    → AllBytes uc.blocks_bitmap
    → uc.blocks ≤ 8 * length uc.blocks_bitmap
    → uc.blocks_bitmap_pos < uc.blocks
    → 0 < len
    → place uc len ≡ some (first, uc')
    → Placed uc len first uc'
unfolding place
place-Placed uc len {first} {uc'} valid size inside some_bytes e =
    let next : ℕ → ℕ = λ block.
      if leb uc.blocks (block + needed_blocks uc len) then 0 else block + needed_blocks uc len in
    let placed_at : ℕ → Option (ℕ × Blocks) =
      λ block. some (block, record (mark_blocks uc block len) { blocks_bitmap_pos = next block }) in
    let (block, found, e') = chain-some (find_free_blocks uc len) placed_at e in
    let same = some-injective _ _ e' in
    let placed =
      marked-Placed uc len block valid size inside (needed_blocks-pos uc len some_bytes) found in
    subst (λ (r : ℕ × Blocks). Placed uc len (r.0) (r.1)) same placed
