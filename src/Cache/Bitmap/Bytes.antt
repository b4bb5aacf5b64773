-- ===== src/Cache/Bitmap/Bytes.antt =====
-- The bytes of the bitmap behind a change.
use upsgi.Common.{
  ℕ, zero, suc, ◌+◌, ◌≤◌, ◌<◌, ◌≡◌, refl, ap, arith, Bool, true, false, ◌&&◌, List, [], ◌∷◌, ltb,
  leb, ◌==◌, if◌then◌else◌, length, get_or,
}
use upsgi.Buffer.Numbers.{AllBytes}
use upsgi.Cache.Bitmap.{change_byte, fill_bytes}

pub get_or-change_byte :
    (f : ℕ → ℕ) (i : ℕ) (bitmap : List ℕ) (j : ℕ)
    → i < length bitmap
    → get_or (change_byte f i bitmap) j 0
      ≡ (if j == i then f (get_or bitmap i 0) else get_or bitmap j 0)
unfolding change_byte
get_or-change_byte f i [] j h = absurd (omega arith)
get_or-change_byte f zero (c ∷ bitmap) zero h = refl
get_or-change_byte f zero (c ∷ bitmap) (suc j) h = ground arith
get_or-change_byte f (suc i) (c ∷ bitmap) zero h = ground arith
get_or-change_byte f (suc i) (c ∷ bitmap) (suc j) h =
    ground (arith, get_or-change_byte f i bitmap j)

pub length-change_byte :
    (f : ℕ → ℕ) (i : ℕ) (bitmap : List ℕ) → length (change_byte f i bitmap) ≡ length bitmap
unfolding change_byte
length-change_byte f i [] = refl
length-change_byte f zero (c ∷ bitmap) = refl
length-change_byte f (suc i) (c ∷ bitmap) = ap suc (length-change_byte f i bitmap)

pub get_or-fill_bytes :
    (v i n : ℕ) (bitmap : List ℕ) (j : ℕ)
    → i + n ≤ length bitmap
    → get_or (fill_bytes v i n bitmap) j 0
      ≡ (if leb i j && ltb j (i + n) then v else get_or bitmap j 0)
unfolding fill_bytes
get_or-fill_bytes v i n [] j h = ground arith
get_or-fill_bytes v zero zero (c ∷ bitmap) j h = ground arith
get_or-fill_bytes v zero (suc n) (c ∷ bitmap) zero h = ground arith
get_or-fill_bytes v zero (suc n) (c ∷ bitmap) (suc j) h =
    ground (arith, get_or-fill_bytes v zero n bitmap j)
get_or-fill_bytes v (suc i) n (c ∷ bitmap) zero h = ground arith
get_or-fill_bytes v (suc i) n (c ∷ bitmap) (suc j) h =
    ground (arith, get_or-fill_bytes v i n bitmap j)

pub length-fill_bytes :
    (v i n : ℕ) (bitmap : List ℕ) → length (fill_bytes v i n bitmap) ≡ length bitmap
unfolding fill_bytes
length-fill_bytes v i n [] = refl
length-fill_bytes v zero zero (c ∷ bitmap) = refl
length-fill_bytes v zero (suc n) (c ∷ bitmap) = ap suc (length-fill_bytes v zero n bitmap)
length-fill_bytes v (suc i) n (c ∷ bitmap) = ap suc (length-fill_bytes v i n bitmap)

pub get_or-AllBytes : (bitmap : List ℕ) (i : ℕ) → AllBytes bitmap → get_or bitmap i 0 < 256
get_or-AllBytes [] i h = omega arith
get_or-AllBytes (c ∷ bitmap) zero (h, hs) = h
get_or-AllBytes (c ∷ bitmap) (suc i) (h, hs) = get_or-AllBytes bitmap i hs

pub change_byte-AllBytes :
    (f : ℕ → ℕ) (i : ℕ) (bitmap : List ℕ)
    → ((c : ℕ) → c < 256 → f c < 256)
    → AllBytes bitmap
    → AllBytes (change_byte f i bitmap)
unfolding change_byte
change_byte-AllBytes f i [] small valid = tt
change_byte-AllBytes f zero (c ∷ bitmap) small (h, hs) = (small c h, hs)
change_byte-AllBytes f (suc i) (c ∷ bitmap) small (h, hs) =
    (h, change_byte-AllBytes f i bitmap small hs)

pub fill_bytes-AllBytes :
    (v i n : ℕ) (bitmap : List ℕ) → v < 256 → AllBytes bitmap → AllBytes (fill_bytes v i n bitmap)
unfolding fill_bytes
fill_bytes-AllBytes v i n [] small valid = tt
fill_bytes-AllBytes v zero zero (c ∷ bitmap) small valid = valid
fill_bytes-AllBytes v zero (suc n) (c ∷ bitmap) small (h, hs) =
    (small, fill_bytes-AllBytes v zero n bitmap small hs)
fill_bytes-AllBytes v (suc i) n (c ∷ bitmap) small (h, hs) =
    (h, fill_bytes-AllBytes v i n bitmap small hs)

pub if-AllBytes :
    (b : Bool) (xs ys : List ℕ) → AllBytes xs → AllBytes ys → AllBytes (if b then xs else ys)
if-AllBytes true xs ys h k = h
if-AllBytes false xs ys h k = k
