-- ===== src/Cache/Bitmap/Search.antt =====
-- What the search for free blocks finds.
use upsgi.Common.{
  ℕ, zero, suc, ◌+◌, ◌-◌, ◌*◌, ◌/◌, ◌%◌, ◌^◌, ◌≤◌, ◌<◌, ◌≡◌, ◌⊎◌, inl, inr, refl, ap, sym, ◌∙◌,
  arith, bit_and, Bool, true, false, not, List, Option, none, some, ltb, leb, ◌==◌, if◌then◌else◌,
  length, get_or,
}
use mathlib.Core.Path.{subst}
use mathlib.Core.Option.{some-injective}
use upsgi.Cache.Bitmap.{
  Blocks, Run, Scan, hit, going, cleared, with_free, base_block, scan_bits, scan_bytes,
  needed_blocks, find_free_blocks,
}
use upsgi.Cache.Bitmap.Marks.{is_used}

-- the blocks from `first` to before `behind` are free
abbrev pub AllFree : List ℕ → ℕ → ℕ → Type 0
AllFree bitmap first behind = (k : ℕ) → first ≤ k → k < behind → is_used bitmap k ≡ false

before_or_at : (k p : ℕ) → k < suc p → (k < p) ⊎ (k ≡ p)
before_or_at k p h = ground arith

AllFree-suc :
    (bitmap : List ℕ) (first p : ℕ)
    → AllFree bitmap first p
    → is_used bitmap p ≡ false
    → AllFree bitmap first (suc p)
AllFree-suc bitmap first p free next k low high = elim (before_or_at k p high) [
  | inl h ↦ free k low h
  | inr e ↦ ap (is_used bitmap) e ∙ next
]

-- where a run starts that has come to the block `p`
abbrev IsBase : Option (ℕ × ℕ) → ℕ → ℕ → Type 0
IsBase none found p = found ≡ 0
IsBase (some b) found p = b.0 * 8 + b.1 + found ≡ p

record Tracks (bitmap : List ℕ) (p : ℕ) (run : Run) : Type 0 where
  within : run.found ≤ p
  starts : IsBase run.base run.found p
  free : AllFree bitmap (p - run.found) p

cleared-Tracks : (bitmap : List ℕ) (p : ℕ) → Tracks bitmap p cleared
cleared-Tracks bitmap p = record {
  within = omega arith;
  starts = refl;
  free = λ k low high. absurd (omega (arith, low, high));
}

IsBase-with_free :
    (base : Option (ℕ × ℕ)) (found j bit_pos : ℕ)
    → IsBase base found (j * 8 + bit_pos)
    → IsBase
        (elim base [ none ↦ some (j, bit_pos) | some b ↦ some b ])
        (found + 1)
        (suc (j * 8 + bit_pos))
IsBase-with_free none found j bit_pos e = omega (arith, e)
IsBase-with_free (some b) found j bit_pos e = omega (arith, e)

base_block-IsBase :
    (run : Run) (base : Option (ℕ × ℕ)) (p : ℕ)
    → run.base ≡ base
    → 0 < run.found
    → IsBase base run.found p
    → base_block run + run.found ≡ p
unfolding base_block
base_block-IsBase run none p same some_found e = absurd (omega (arith, some_found, e))
base_block-IsBase run (some b) p same some_found e = ground (arith, same, e)

module _ (bitmap : List ℕ) where
  with_free-Tracks :
      (j bit_pos : ℕ) (run : Run)
      → Tracks bitmap (j * 8 + bit_pos) run
      → is_used bitmap (j * 8 + bit_pos) ≡ false
      → Tracks bitmap (suc (j * 8 + bit_pos)) (with_free j bit_pos run)
  unfolding with_free
  with_free-Tracks j bit_pos run t next = record {
    within = omega (arith, t.within);
    starts = IsBase-with_free run.base run.found j bit_pos t.starts;
    free = λ k low high.
        AllFree-suc bitmap (j * 8 + bit_pos - run.found) (j * 8 + bit_pos) t.free next k
          (omega (arith, low, t.within)) high;
  }

  -- blocks that were found are free, and stand before `limit`
  data Finds (needed limit : ℕ) : Scan → Type 0 where
    hits :
        {block : ℕ}
        → AllFree bitmap block (block + needed)
        → block + needed ≤ limit
        → Finds needed limit (hit block)
    goes : {run : Run} → Tracks bitmap limit run → Finds needed limit (going run)

  if-Finds :
      (needed limit : ℕ) (e : Bool) {a b : Scan}
      → (e ≡ true → Finds needed limit a)
      → Finds needed limit b
      → Finds needed limit (if e then a else b)
  if-Finds needed limit true f g = f refl
  if-Finds needed limit false f g = g

  -- a turn of the inner loop
  turn-Finds :
      (needed limit : ℕ) (u : Bool) (scan : Run → Scan) (next : Run)
      → Finds needed limit (scan cleared)
      → (u ≡ false → Finds needed limit (scan next))
      → (u ≡ false → next.found ≡ needed → Finds needed limit (hit (base_block next)))
      → Finds needed limit (
          if u
          then scan (if u then cleared else next)
          else if (if u then cleared else next).found == needed
          then hit (base_block (if u then cleared else next))
          else scan (if u then cleared else next))
  turn-Finds needed limit true scan next f g h = f
  turn-Finds needed limit false scan next f g h =
      if-Finds needed limit (next.found == needed) (λ e. h refl (ground (arith, e))) (g refl)

  is_used-at :
      (j left : ℕ)
      → left < 8
      → is_used bitmap (j * 8 + (7 - left)) ≡ not (bit_and (get_or bitmap j 0) (2 ^ left) == 0)
  is_used-at j left h =
      let byte : (j * 8 + (7 - left)) / 8 ≡ j = omega (arith, h) in
      let bit : 7 - (j * 8 + (7 - left)) % 8 ≡ left = omega (arith, h) in
      ap (λ i. not (bit_and (get_or bitmap i 0) (2 ^ (7 - (j * 8 + (7 - left)) % 8)) == 0)) byte
      ∙ ap (λ c. not (bit_and (get_or bitmap j 0) (2 ^ c) == 0)) bit

  -- a run that is long enough
  run-Finds :
      (needed p limit : ℕ) (run : Run)
      → Tracks bitmap p run
      → run.found ≡ needed
      → 0 < needed
      → p ≤ limit
      → Finds needed limit (hit (base_block run))
  run-Finds needed p limit run t e some_needed h =
      let start = base_block-IsBase run run.base p refl (omega (arith, e, some_needed)) t.starts in
      hits (λ k low high. t.free k (omega (arith, start, low)) (omega (arith, start, e, high)))
        (omega (arith, start, e, h))

  scan_bits-Finds :
      (needed j num left : ℕ) (run : Run)
      → 0 < needed
      → left ≤ 8
      → num ≡ get_or bitmap j 0
      → Tracks bitmap (j * 8 + (8 - left)) run
      → Finds needed (j * 8 + 8) (scan_bits needed j num left run)
  unfolding scan_bits
  scan_bits-Finds needed j num zero run some_needed small same t = goes t
  scan_bits-Finds needed j num (suc left) run some_needed small same t =
      let bit_pos = 7 - left in
      let p = j * 8 + bit_pos in
      let here : j * 8 + (8 - suc left) ≡ p = omega arith in
      let behind : suc p ≡ j * 8 + (8 - left) = omega (arith, small) in
      let tracked = subst (λ q. Tracks bitmap q run) here t in
      let next : not (bit_and num (2 ^ left) == 0) ≡ false
          → Tracks bitmap (suc p) (with_free j bit_pos run) =
        λ u. with_free-Tracks j bit_pos run tracked (
          is_used-at j left (omega (arith, small))
          ∙ ap (λ c. not (bit_and c (2 ^ left) == 0)) (sym same)
          ∙ u) in
      turn-Finds needed (j * 8 + 8) (not (bit_and num (2 ^ left) == 0))
        (scan_bits needed j num left) (with_free j bit_pos run)
        (scan_bits-Finds needed j num left cleared some_needed (omega (arith, small)) same
          (cleared-Tracks bitmap (j * 8 + (8 - left))))
        (λ u.
          scan_bits-Finds needed j num left (with_free j bit_pos run) some_needed
            (omega (arith, small)) same
            (subst (λ q. Tracks bitmap q (with_free j bit_pos run)) behind (next u)))
        (λ u e.
          run-Finds needed (suc p) (j * 8 + 8) (with_free j bit_pos run) (next u) e some_needed
            (omega arith))

  -- what the search gives
  data Found (needed : ℕ) : Option ℕ → Type 0 where
    nothing : Found needed none
    blocks :
        {block : ℕ}
        → AllFree bitmap block (block + needed)
        → block + needed ≤ 8 * length bitmap
        → Found needed (some block)

  Found-next :
      (needed limit : ℕ) (next : Run → Option ℕ) {s : Scan}
      → limit ≤ 8 * length bitmap
      → Finds needed limit s
      → ((run : Run) → Tracks bitmap limit run → Found needed (next run))
      → Found needed (elim s [ hit block ↦ some block | going run ↦ next run ])
  Found-next needed limit next h (hits free within) f = blocks free (omega (arith, h, within))
  Found-next needed limit next h (goes {run} t) f = f run t

  Found-wrap :
      (needed : ℕ) (w : Bool) (next : ℕ → ℕ → Run → Option ℕ) (j bit : ℕ) (run : Run)
      → Found needed (next 0 0 cleared)
      → (w ≡ false → Found needed (next j bit run))
      → Found needed (next (if w then 0 else j) (if w then 0 else bit) (if w then cleared else run))
  Found-wrap needed true next j bit run f g = f
  Found-wrap needed false next j bit run f g = g refl

  scan_bytes-Found :
      (needed bitmap_byte need_to_scan j bitmap_bit : ℕ) (run : Run)
      → 0 < needed
      → j < length bitmap
      → bitmap_bit < 8
      → (bitmap_byte ≤ j) ⊎ (bitmap_bit ≡ 0)
      → Tracks bitmap (j * 8 + (if j == bitmap_byte then bitmap_bit else 0)) run
      → Found needed (scan_bytes needed bitmap bitmap_byte need_to_scan j bitmap_bit run)
  unfolding scan_bytes
  scan_bytes-Found needed bitmap_byte zero j bitmap_bit run some_needed inside small from t =
      nothing
  scan_bytes-Found needed bitmap_byte (suc need_to_scan) j bitmap_bit run some_needed inside small
        from t =
      let start : ℕ = if j == bitmap_byte then bitmap_bit else 0 in
      let small_start : start < 8 = ground (arith, small) in
      let left : start ≡ 8 - (8 - start) = omega (arith, small_start) in
      Found-next needed (j * 8 + 8)
        (λ run'.
          scan_bytes needed bitmap bitmap_byte need_to_scan
            (if leb (length bitmap) (j + 1) then 0 else j + 1)
            (if leb (length bitmap) (j + 1) then 0 else bitmap_bit)
            (if leb (length bitmap) (j + 1) then cleared else run'))
        (omega (arith, inside))
        (scan_bits-Finds needed j (get_or bitmap j 0) (8 - start) run some_needed (omega arith) refl
          (subst (λ c. Tracks bitmap (j * 8 + c) run) left t))
        (λ run' t'.
          Found-wrap needed (leb (length bitmap) (j + 1))
            (scan_bytes needed bitmap bitmap_byte need_to_scan) (j + 1) bitmap_bit run'
            (scan_bytes-Found needed bitmap_byte need_to_scan 0 0 cleared some_needed
              (omega (arith, inside)) (omega arith) (inr refl)
              (cleared-Tracks bitmap (0 * 8 + (if 0 == bitmap_byte then 0 else 0))))
            (λ w.
              scan_bytes-Found needed bitmap_byte need_to_scan (j + 1) bitmap_bit run' some_needed
                (ground (arith, w)) small (ground (arith, from))
                (subst (λ c. Tracks bitmap c run') (ground (arith, from)) t')))

Found-some :
    (bitmap : List ℕ) (needed : ℕ) {o : Option ℕ} {block : ℕ}
    → Found bitmap needed o
    → o ≡ some block
    → AllFree bitmap block (block + needed) × (block + needed ≤ 8 * length bitmap)
Found-some bitmap needed nothing e = absurd (cc)
Found-some bitmap needed (blocks {block = b} free within) e =
    subst (λ b. AllFree bitmap b (b + needed) × (b + needed ≤ 8 * length bitmap))
      (some-injective b _ e) (free, within)

-- the blocks that a search finds are free, and in the bitmap
pub find_free_blocks-AllFree :
    (uc : Blocks) (need : ℕ) {block : ℕ}
    → find_free_blocks uc need ≡ some block
    → 0 < needed_blocks uc need
    → uc.blocks_bitmap_pos < 8 * length uc.blocks_bitmap
    → AllFree uc.blocks_bitmap block (block + needed_blocks uc need)
      × (block + needed_blocks uc need ≤ 8 * length uc.blocks_bitmap)
unfolding find_free_blocks
find_free_blocks-AllFree uc need {block} e some_needed inside =
    let byte = uc.blocks_bitmap_pos / 8 in
    let bit = uc.blocks_bitmap_pos % 8 in
    Found-some uc.blocks_bitmap (needed_blocks uc need)
      (scan_bytes-Found uc.blocks_bitmap (needed_blocks uc need) byte
        (length uc.blocks_bitmap + (if ltb 0 bit then 1 else 0)) byte bit cleared some_needed
        (omega (arith, inside)) (omega arith) (inl (omega arith))
        (cleared-Tracks uc.blocks_bitmap (byte * 8 + (if byte == byte then bit else 0))))
      e
