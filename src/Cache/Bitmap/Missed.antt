-- ===== src/Cache/Bitmap/Missed.antt =====
-- What the search for free blocks does not find.
use upsgi.Common.{
  ℕ, zero, suc, ◌+◌, ◌-◌, ◌*◌, ◌/◌, ◌%◌, ◌^◌, ◌≤◌, ◌<◌, ◌≡◌, refl, sym, arith, bit_and, Bool, true,
  false, not, List, Option, none, some, ltb, leb, ◌==◌, if◌then◌else◌, length, get_or,
}
use mathlib.Core.Path.{subst}
use upsgi.Cache.Bitmap.{
  Blocks, Run, Scan, hit, going, cleared, with_free, base_block, scan_bits, scan_bytes,
  needed_blocks, find_free_blocks,
}

-- a scan that is not long enough
data Misses (most : ℕ) : Scan → Type 0 where
  misses : {run : Run} → run.found ≤ most → Misses most (going run)

turn-Misses :
    (needed most : ℕ) (u : Bool) (scan : Run → Scan) (next : Run)
    → Misses most (scan cleared)
    → Misses most (scan next)
    → (next.found == needed) ≡ false
    → Misses most (
        if u
        then scan (if u then cleared else next)
        else if (if u then cleared else next).found == needed
        then hit (base_block (if u then cleared else next))
        else scan (if u then cleared else next))
turn-Misses needed most true scan next f g short = f
turn-Misses needed most false scan next f g short =
    subst (λ b. Misses most (if b then hit (base_block next) else scan next)) (sym short) g

scan_bits-Misses :
    (needed j num left most : ℕ) (run : Run)
    → run.found + left ≤ most
    → most < needed
    → Misses most (scan_bits needed j num left run)
unfolding scan_bits with_free
scan_bits-Misses needed j num zero most run h short = misses (omega (arith, h))
scan_bits-Misses needed j num (suc left) most run h short =
    turn-Misses needed most (not (bit_and num (2 ^ left) == 0)) (scan_bits needed j num left)
      (with_free j (7 - left) run)
      (scan_bits-Misses needed j num left most cleared (omega (arith, h)) short)
      (scan_bits-Misses needed j num left most (with_free j (7 - left) run) (omega (arith, h))
        short)
      (ground (arith, h, short))

module _ (needed : ℕ) (bitmap : List ℕ) (bitmap_byte : ℕ) where
  none-next :
      (most : ℕ) (next : Run → Option ℕ) {s : Scan}
      → Misses most s
      → ((run : Run) → run.found ≤ most → next run ≡ none)
      → elim s [ hit block ↦ some block | going run ↦ next run ] ≡ none
  none-next most next (misses {run} h) f = f run h

  none-wrap :
      (w : Bool) (next : ℕ → ℕ → Run → Option ℕ) (j bit : ℕ) (run : Run)
      → (w ≡ true → next 0 0 cleared ≡ none)
      → (w ≡ false → next j bit run ≡ none)
      → next (if w then 0 else j) (if w then 0 else bit) (if w then cleared else run) ≡ none
  none-wrap true next j bit run f g = f refl
  none-wrap false next j bit run f g = g refl

  -- bytes that stand before the end
  scan_bytes-late :
      (need_to_scan j : ℕ) (run : Run)
      → j + need_to_scan ≤ length bitmap
      → run.found + 8 * need_to_scan < needed
      → scan_bytes needed bitmap bitmap_byte need_to_scan j 0 run ≡ none
  unfolding scan_bytes
  scan_bytes-late zero j run inside short = refl
  scan_bytes-late (suc need_to_scan) j run inside short =
      let start : ℕ = if j == bitmap_byte then 0 else 0 in
      none-next (run.found + 8)
        (λ run'.
          scan_bytes needed bitmap bitmap_byte need_to_scan
            (if leb (length bitmap) (j + 1) then 0 else j + 1)
            (if leb (length bitmap) (j + 1) then 0 else 0)
            (if leb (length bitmap) (j + 1) then cleared else run'))
        (scan_bits-Misses needed j (get_or bitmap j 0) (8 - start) (run.found + 8) run (omega arith)
          (omega (arith, short)))
        (λ run' h.
          none-wrap (leb (length bitmap) (j + 1))
            (scan_bytes needed bitmap bitmap_byte need_to_scan) (j + 1) 0 run'
            (λ w.
              scan_bytes-late need_to_scan 0 cleared (omega (arith, inside)) (omega (arith, short)))
            (λ w.
              scan_bytes-late need_to_scan (j + 1) run' (omega (arith, inside))
                (omega (arith, short, h))))

  -- the bytes up to the end, and then those up to the byte of the position
  scan_bytes-early :
      (before need_to_scan j bitmap_bit : ℕ) (run : Run)
      → bitmap_bit < 8
      → j < length bitmap
      → need_to_scan ≤ length bitmap - j + before
      → before ≤ length bitmap
      → run.found + 8 * (length bitmap - j) < needed + (if j == bitmap_byte then bitmap_bit else 0)
      → 8 * before < needed
      → scan_bytes needed bitmap bitmap_byte need_to_scan j bitmap_bit run ≡ none
  unfolding scan_bytes
  scan_bytes-early before zero j bitmap_bit run small inside count fits short again = refl
  scan_bytes-early before (suc need_to_scan) j bitmap_bit run small inside count fits short again =
      let start : ℕ = if j == bitmap_byte then bitmap_bit else 0 in
      let small_start : start < 8 = ground (arith, small) in
      let most = run.found + (8 - start) in
      none-next most
        (λ run'.
          scan_bytes needed bitmap bitmap_byte need_to_scan
            (if leb (length bitmap) (j + 1) then 0 else j + 1)
            (if leb (length bitmap) (j + 1) then 0 else bitmap_bit)
            (if leb (length bitmap) (j + 1) then cleared else run'))
        (scan_bits-Misses needed j (get_or bitmap j 0) (8 - start) most run (omega arith)
          (omega (arith, short, small_start, inside)))
        (λ run' h.
          none-wrap (leb (length bitmap) (j + 1))
            (scan_bytes needed bitmap bitmap_byte need_to_scan) (j + 1) bitmap_bit run'
            (λ w.
              scan_bytes-late need_to_scan 0 cleared (ground (arith, w, count, fits))
                (ground (arith, w, count, again, inside)))
            (λ w.
              scan_bytes-early before need_to_scan (j + 1) bitmap_bit run' small (ground (arith, w))
                (omega (arith, count)) fits (ground (arith, w, h, short, small_start, inside))
                again))

-- A value that needs more blocks than stand behind the position, and more than stand in the bytes up to the
-- position's, is not placed, whatever is free.
pub find_free_blocks-misses :
    (uc : Blocks) (need : ℕ)
    → uc.blocks_bitmap_pos < 8 * length uc.blocks_bitmap
    → 8 * length uc.blocks_bitmap < needed_blocks uc need + uc.blocks_bitmap_pos
    → 8 * (uc.blocks_bitmap_pos / 8 + 1) < needed_blocks uc need
    → find_free_blocks uc need ≡ none
unfolding find_free_blocks
find_free_blocks-misses uc need inside behind before =
    let byte = uc.blocks_bitmap_pos / 8 in
    let bit = uc.blocks_bitmap_pos % 8 in
    scan_bytes-early (needed_blocks uc need) uc.blocks_bitmap byte (byte + 1)
      (length uc.blocks_bitmap + (if ltb 0 bit then 1 else 0)) byte bit cleared (omega arith)
      (omega (arith, inside)) (ground (arith, inside)) (omega (arith, inside))
      (ground (arith, behind, inside)) before
