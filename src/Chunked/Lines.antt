-- ===== src/Chunked/Lines.antt =====
-- Chunks as a client writes them, and their size lines under upsgi_chunked_readline.
use upsgi.Common.{
  ℕ, suc, ◌+◌, ◌-◌, ◌*◌, ◌^◌, ◌<◌, ◌≡◌, refl, ◌∙◌, ap, true, false, List, [], ◌∷◌, ◌++◌,
  if◌then◌else◌, length, drop, ltb, get_or, arith, length-append,
}
use upsgi.Buffer.Ops.{decapitate}
use upsgi.Chunked.Input.{Stream, is_hex, hex_digit, strtoul16, ended, scan_line, readline}

abbrev pub AllHex : List ℕ → Type 0
AllHex [] = Unit
AllHex (c ∷ cs) = (is_hex c ≡ true) × AllHex cs

-- A chunk: its size line and its data.
pub record Frame : Type 0 where
  pub size : List ℕ
  pub content : List ℕ

abbrev pub crlf : List ℕ
crlf = 13 ∷ b'\n' ∷ []

abbrev pub frame_then : Frame → List ℕ → List ℕ
frame_then f rest = f.size ++ (13 ∷ b'\n' ∷ (f.content ++ (13 ∷ b'\n' ∷ rest)))

-- The size is hexadecimal and is the length of the data, which is not empty.
abbrev pub IsFrame : Frame → Type 0
IsFrame f =
    AllHex f.size
    × (strtoul16 0 f.size ≡ length f.content)
    × (0 < length f.content)
    × (length f.content < 2 ^ 62)

-- A body of chunks up to the last one, of size zero, with the empty trailer.
abbrev pub stream_then : List Frame → List ℕ → List ℕ → List ℕ
stream_then [] last rest = last ++ (13 ∷ b'\n' ∷ 13 ∷ b'\n' ∷ rest)
stream_then (f ∷ fs) last rest = frame_then f (stream_then fs last rest)

abbrev pub AreFrames : List Frame → Type 0
AreFrames [] = Unit
AreFrames (f ∷ fs) = IsFrame f × AreFrames fs

pub scan_line-hex :
    (i : ℕ) (size rest : List ℕ)
    → AllHex size
    → scan_line false i (size ++ (13 ∷ b'\n' ∷ rest)) ≡ ended (i + length size + 2)
unfolding scan_line
scan_line-hex i [] rest h = ap ended (omega arith)
scan_line-hex i (c ∷ size) rest (h, hs) =
    rw h (scan_line-hex (i + 1) size rest hs ∙ ap ended (omega arith))

pub strtoul16-line :
    (acc : ℕ) (size rest : List ℕ)
    → AllHex size
    → strtoul16 acc (size ++ (13 ∷ rest)) ≡ strtoul16 acc size
unfolding strtoul16
strtoul16-line acc [] rest h = refl
strtoul16-line acc (c ∷ size) rest (h, hs) = rw h (
    strtoul16-line
      (if ltb (acc * 16 + hex_digit c) (2 ^ 64) then acc * 16 + hex_digit c else 2 ^ 64 - 1) size
      rest hs)

drop_line : (size rest : List ℕ) → drop (0 + length size + 2) (size ++ (13 ∷ b'\n' ∷ rest)) ≡ rest
drop_line [] rest = refl
drop_line (c ∷ size) rest =
    ap (λ n. drop n (c ∷ (size ++ (13 ∷ b'\n' ∷ rest)))) step ∙ drop_line size rest
  where
    step : 0 + suc (length size) + 2 ≡ suc (0 + length size + 2)
    step = omega arith

pub readline_lem :
    (st : Stream) (size rest : List ℕ)
    → AllHex size
    → st.buf.bytes ≡ size ++ (13 ∷ b'\n' ∷ rest)
    → readline st ≡ (strtoul16 0 size, record st { buf = record (st.buf) { bytes = rest } })
unfolding readline decapitate
readline_lem st size rest h e = ground (
  arith,
  scan_line-hex 0 size rest h,
  strtoul16-line 0 size (b'\n' ∷ rest) h,
  drop_line size rest,
  length-append size (13 ∷ b'\n' ∷ rest),
)

pub get_or_append : (xs : List ℕ) (x : ℕ) (ys : List ℕ) → get_or (xs ++ (x ∷ ys)) (length xs) 0 ≡ x
get_or_append [] x ys = refl
get_or_append (y ∷ xs) x ys = get_or_append xs x ys

pub get_or_append_next :
    (xs : List ℕ) (x y : ℕ) (ys : List ℕ) → get_or (xs ++ (x ∷ y ∷ ys)) (length xs + 1) 0 ≡ y
get_or_append_next [] x y ys = refl
get_or_append_next (z ∷ xs) x y ys =
    ap (λ n. get_or (z ∷ (xs ++ (x ∷ y ∷ ys))) n 0) step ∙ get_or_append_next xs x y ys
  where
    step : suc (length xs) + 1 ≡ suc (length xs + 1)
    step = omega arith
