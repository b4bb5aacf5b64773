-- ===== src/Http/BlankLine.antt =====
-- The scan of upsgi_proto_http_parser finds the first CR LF CR LF, also over several reads.
use upsgi.Common.{
  ℕ, zero, suc, ◌+◌, ◌≤◌, ◌<◌, ◌≡◌, refl, arith, List, [], ◌∷◌, ◌++◌, Option, none, some, ◌==◌,
  if◌then◌else◌, length, take,
}
use upsgi.Http.Request.{Scan, partial, ended, scan_request}

abbrev pub crlf_crlf : List ℕ
crlf_crlf = 13 ∷ 10 ∷ 13 ∷ 10 ∷ []

-- what is behind a prefix
abbrev pub behind : List ℕ → List ℕ → Option (List ℕ)
behind [] s = some s
behind (p ∷ prefix) [] = none
behind (p ∷ prefix) (c ∷ s) = let rest = behind prefix s in if c == p then rest else none

-- what is behind the first CR LF CR LF
abbrev pub after_blank_line : List ℕ → Option (List ℕ)
after_blank_line [] = none
after_blank_line (c ∷ s) =
    let later = after_blank_line s in
    elim (behind crlf_crlf (c ∷ s)) [ none ↦ later | some rest ↦ some rest ]

abbrev pub remains_of : Scan → Option (List ℕ)
remains_of (partial status) = none
remains_of (ended rest) = some rest

-- the status says how much of CR LF CR LF the bytes before end with
pub scan_request-after_blank_line :
    (k : ℕ) (s : List ℕ)
    → k < 4
    → remains_of (scan_request k s) ≡ after_blank_line (take k crlf_crlf ++ s)
unfolding scan_request
scan_request-after_blank_line zero [] h = refl
scan_request-after_blank_line (suc zero) [] h = refl
scan_request-after_blank_line (suc (suc zero)) [] h = refl
scan_request-after_blank_line (suc (suc (suc zero))) [] h = refl
scan_request-after_blank_line zero (c ∷ s) h = ground (
  arith,
  scan_request-after_blank_line 0 s (omega arith),
  scan_request-after_blank_line 1 s (omega arith),
)
scan_request-after_blank_line (suc zero) (c ∷ s) h = ground (
  arith,
  scan_request-after_blank_line 0 s (omega arith),
  scan_request-after_blank_line 1 s (omega arith),
  scan_request-after_blank_line 2 s (omega arith),
)
scan_request-after_blank_line (suc (suc zero)) (c ∷ s) h = ground (
  arith,
  scan_request-after_blank_line 0 s (omega arith),
  scan_request-after_blank_line 1 s (omega arith),
  scan_request-after_blank_line 3 s (omega arith),
)
scan_request-after_blank_line (suc (suc (suc zero))) (c ∷ s) h = ground (
  arith,
  scan_request-after_blank_line 0 s (omega arith),
  scan_request-after_blank_line 1 s (omega arith),
)
scan_request-after_blank_line (suc (suc (suc (suc k)))) s h = absurd (omega arith)

-- the scan of bytes that come in two reads
abbrev pub resume : Scan → List ℕ → Scan
resume (partial status) bytes = scan_request status bytes
resume (ended rest) bytes = ended (rest ++ bytes)

pub scan_request-nil : (k : ℕ) → scan_request k [] ≡ partial k
unfolding scan_request
scan_request-nil k = refl

pub scan_request-append :
    (k : ℕ) (xs ys : List ℕ) → scan_request k (xs ++ ys) ≡ resume (scan_request k xs) ys
unfolding scan_request
scan_request-append k [] ys = refl
scan_request-append k (c ∷ xs) ys = ground (
  arith,
  scan_request-append (k + 1) xs ys,
  scan_request-append 0 xs ys,
  scan_request-append 1 xs ys,
  scan_request-append 2 xs ys,
)

-- the bytes behind the head are some of those that were read
abbrev pub length_rest : Scan → ℕ
length_rest (partial status) = 0
length_rest (ended rest) = length rest

pub length-scan_request : (k : ℕ) (s : List ℕ) → length_rest (scan_request k s) ≤ length s
unfolding scan_request
length-scan_request k [] = ground arith
length-scan_request k (c ∷ s) = ground (
  arith,
  length-scan_request (k + 1) s,
  length-scan_request 0 s,
  length-scan_request 1 s,
  length-scan_request 2 s,
)
