-- ===== src/Cache/Tests.antt =====
-- Bitmaps of 16 blocks.
use upsgi.Common.{◌≡◌, refl, arith, [], ◌∷◌, none, some}
use upsgi.Cache.Bitmap.{
  Blocks, with_free, base_block, scan_bits, scan_bytes, needed_blocks, find_free_blocks,
  change_byte, fill_bytes, first_mask, last_mask, one_mask, change_blocks, mark_blocks,
  unmark_blocks, place,
}
use upsgi.Cache.Bitmap.Place.{Placed, place-Placed}
use upsgi.Cache.Bitmap.Missed.{find_free_blocks-misses}

-- no value, and the position behind a value of one block that was removed
abbrev empty : Blocks
empty = record { blocks = 16; blocksize = 4; blocks_bitmap = 0 ∷ 0 ∷ []; blocks_bitmap_pos = 1 }

abbrev filled : Blocks
filled = record {
  blocks = 16;
  blocksize = 4;
  blocks_bitmap = 127 ∷ 192 ∷ [];
  blocks_bitmap_pos = 10;
}

place-filled : place empty 33 ≡ some (1, filled)
unfolding place find_free_blocks scan_bytes scan_bits with_free base_block needed_blocks mark_blocks
    change_blocks change_byte fill_bytes first_mask last_mask one_mask
place-filled = refl

unmark_blocks-filled : (unmark_blocks filled 1 33).blocks_bitmap ≡ 0 ∷ 0 ∷ []
unfolding unmark_blocks needed_blocks change_blocks change_byte fill_bytes first_mask last_mask
    one_mask
unmark_blocks-filled = refl

place-Placed_example : Placed empty 33 1 filled
place-Placed_example =
    place-Placed empty 33 (omega arith, (omega arith, tt)) (omega arith) (omega arith) (omega arith)
      place-filled

sixteen : needed_blocks empty 64 ≡ 16
unfolding needed_blocks
sixteen = refl

-- a value of 16 blocks finds no place, though all of them are free
find_free_blocks-misses_example : find_free_blocks empty 64 ≡ none
find_free_blocks-misses_example =
    find_free_blocks-misses empty 64 (omega arith) (omega (arith, sixteen)) (omega (arith, sixteen))
