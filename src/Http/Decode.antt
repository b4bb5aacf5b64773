-- ===== src/Http/Decode.antt =====
-- The shortcut of http_add_path_info, and the size of what the decoder writes.
use upsgi.Common.{
  ℕ, ◌+◌, ◌≤◌, ◌≡◌, refl, Bool, false, not, ◌||◌, List, [], ◌∷◌, arith, ltb, if◌then◌else◌, length,
  rev_onto, rev_onto_twice, length-rev_onto,
}
use upsgi.Http.Path.{
  Status, zero_status, percent1, slash, dot, dotdot, percent2, drop_segment, drop_last, decode_byte,
  decode_end, decode_from, is_relative, url_decode, special_segment, needs_decode_from,
  path_needs_decode, path_info,
}

-- What the decoder does with a clean rest `s` of an absolute path: it copies it, behind a slash that it
-- still owes in the status `slash`.
record Copies (nsd : Bool) (s : List ℕ) : Type 0 where
  plain :
      (i : ℕ) (out : List ℕ)
      → needs_decode_from s ≡ false
      → decode_from nsd false i zero_status out s ≡ rev_onto s out
  owing :
      (i : ℕ) (out : List ℕ)
      → 1 ≤ i
      → special_segment s ≡ false
      → needs_decode_from s ≡ false
      → decode_from nsd false i slash out s ≡ rev_onto s (b'/' ∷ out)

copies : (nsd : Bool) (s : List ℕ) → Copies nsd s
unfolding decode_from decode_byte decode_end needs_decode_from special_segment
copies nsd [] = record { plain = λ i out h. refl; owing = λ i out l sp h. refl }
copies nsd (a ∷ []) = record {
  plain = λ i out h. ground arith;
  owing = λ i out l sp h. ground arith;
}
copies nsd (a ∷ b ∷ []) =
    let tail = copies nsd (b ∷ []) in
    record { plain = λ i out h. ground arith; owing = λ i out l sp h. ground arith }
copies nsd (a ∷ b ∷ c ∷ s) =
    let one = copies nsd (b ∷ c ∷ s) in
    let two = copies nsd (c ∷ s) in
    let three = copies nsd s in
    record {
      plain = λ i out h. ground (arith, one.plain (i + 1) (a ∷ out), one.owing (i + 1) out);
      owing = λ i out l sp h. ground (
        arith,
        one.plain (i + 1) (a ∷ b'/' ∷ out),
        two.plain (i + 2) (b ∷ a ∷ b'/' ∷ out),
        two.owing (i + 2) (a ∷ b'/' ∷ out),
        three.plain (i + 3) (c ∷ b ∷ a ∷ b'/' ∷ out),
        three.owing (i + 3) (b ∷ a ∷ b'/' ∷ out),
      );
    }

-- what the invariant of the loop holds back for a status: the bytes it will write before the next one
owed : Bool → Status → ℕ → ℕ
owed rel zero_status i = 0
owed rel percent1 i = 1
owed rel (percent2 v) i = 2
owed rel slash i = if ltb 0 i || not rel then 1 else 0
owed rel dot i = if ltb 1 i then 2 else 1
owed rel dotdot i = if ltb 2 i then 3 else 2

length-drop_segment : (out : List ℕ) → length (drop_segment out) ≤ length out
unfolding drop_segment
length-drop_segment [] = ground arith
length-drop_segment (c ∷ out) = ground (arith, length-drop_segment out)

length-drop_last : (out : List ℕ) → length (drop_last out) ≤ length out
unfolding drop_last
length-drop_last [] = ground arith
length-drop_last (c ∷ out) = ground (arith, length-drop_last out)

owed-decode_byte :
    (nsd rel : Bool) (i c : ℕ) (st : Status) (out : List ℕ)
    → length out + owed rel st i ≤ i
    → length (decode_byte nsd rel i c st out).1
        + owed rel (decode_byte nsd rel i c st out).0 (i + 1)
      ≤ i + 1
unfolding decode_byte owed
owed-decode_byte nsd rel i c zero_status out h = ground arith
owed-decode_byte nsd rel i c percent1 out h = ground arith
owed-decode_byte nsd rel i c (percent2 v) out h = ground arith
owed-decode_byte nsd rel i c slash out h = ground arith
owed-decode_byte nsd rel i c dot out h = ground arith
owed-decode_byte nsd rel i c dotdot out h = ground (arith, length-drop_segment out)

length-decode_end :
    (rel : Bool) (i : ℕ) (st : Status) (out : List ℕ)
    → length out + owed rel st i ≤ i
    → length (decode_end st out) ≤ i + 1 × (1 ≤ i → length (decode_end st out) ≤ i)
unfolding decode_end owed
length-decode_end rel i zero_status out h = ground arith
length-decode_end rel i percent1 out h = ground arith
length-decode_end rel i (percent2 v) out h = ground arith
length-decode_end rel i slash out h = ground arith
length-decode_end rel i dot out h = ground arith
length-decode_end rel i dotdot out h = ground (arith, length-drop_last out)

length-decode_from :
    (nsd rel : Bool) (i : ℕ) (st : Status) (out s : List ℕ)
    → length out + owed rel st i ≤ i
    → 1 ≤ i + length s
    → length (decode_from nsd rel i st out s) ≤ i + length s
unfolding decode_from
length-decode_from nsd rel i st out [] h l = ground (arith, length-decode_end rel i st out h)
length-decode_from nsd rel i st out (c ∷ s) h l =
    let (st', out') = decode_byte nsd rel i c st out in
    ground (
      arith,
      length-decode_end rel i st out h,
      length-decode_from nsd rel (i + 1) st' out' s (owed-decode_byte nsd rel i c st out h),
    )

-- PATH_INFO is the decoded path for every path: the scan that skips the decoder skips it only where it
-- would copy its input.
pub path_info-url_decode : (nsd : Bool) (path : List ℕ) → path_info nsd path ≡ url_decode nsd path
unfolding path_info path_needs_decode url_decode needs_decode_from decode_from decode_byte
    decode_end
path_info-url_decode nsd [] = ground arith
path_info-url_decode nsd (c ∷ path) =
    let all = copies nsd path in ground (arith, all.owing 1 [], rev_onto_twice path (c ∷ []))

-- The decoder never writes more bytes than the path has, so the buffer of the path's size suffices.
pub length-url_decode : (nsd : Bool) (path : List ℕ) → length (url_decode nsd path) ≤ length path
unfolding url_decode decode_from decode_end owed
length-url_decode nsd [] = ground arith
length-url_decode nsd (c ∷ path) =
    let rel = is_relative (c ∷ path) in
    let st = if rel then slash else zero_status in
    ground (
      arith,
      length-rev_onto (decode_from nsd rel 0 st [] (c ∷ path)) [],
      length-decode_from nsd rel 0 st [] (c ∷ path),
    )
