-- ===== src/Http/Pieces.antt =====
-- The head that upsgi_proto_http_parser cuts out ends at the first empty line, however the bytes arrive.
use upsgi.Common.{
  ℕ, zero, suc, ◌+◌, ◌-◌, ◌≤◌, ◌<◌, ◌≡◌, refl, ap, sym, ◌∙◌, arith, List, [], ◌∷◌, ◌++◌, Option,
  none, some, length, take, length-append, append_assoc, append-nil,
}
use upsgi.Http.BlankLine.{
  after_blank_line, remains_of, resume, scan_request-after_blank_line, scan_request-nil,
  scan_request-append, length-scan_request,
}
use upsgi.Http.Request.{
  Scan, partial, ended, scan_request, Answer, got, Step, again, refused, head, http_parser,
  http_parsers,
}

take-length_append : (b s : List ℕ) (m : ℕ) → take (length b + m) (b ++ s) ≡ b ++ take m s
take-length_append [] s m = ground arith
take-length_append (x ∷ b) s m =
    let size : suc (length b) + m ≡ suc (length b + m) = omega arith in
    ap (λ i. take i (x ∷ (b ++ s))) size ∙ ap (λ l. x ∷ l) (take-length_append b s m)

take-append_front : (m : ℕ) (p s : List ℕ) → m ≤ length p → take m (p ++ s) ≡ take m p
take-append_front zero p s h = refl
take-append_front (suc m) [] s h = absurd (omega arith)
take-append_front (suc m) (x ∷ p) s h = ap (λ l. x ∷ l) (take-append_front m p s (omega arith))

-- the request's head in all of its bytes: up to the first empty line, with it
abbrev pub request_head : List ℕ → Option (List ℕ)
request_head s = elim (after_blank_line s) [
  | none ↦ none
  | some rest ↦ some (take (length s - length rest) s)
]

-- what came of the calls: an error, or the head if it was found
abbrev pub outcome : Step → Option (Option (List ℕ))
outcome refused = none
outcome (again st) = some none
outcome (head bytes rest) = some (some bytes)

abbrev pub join : List (List ℕ) → List ℕ
join [] = []
join (piece ∷ pieces) = piece ++ join pieces

abbrev pub reads : List (List ℕ) → List Answer
reads [] = []
reads (piece ∷ pieces) = got piece ∷ reads pieces

abbrev pub AreNonempty : List (List ℕ) → Type 0
AreNonempty [] = Unit
AreNonempty (piece ∷ pieces) = (0 < length piece) × AreNonempty pieces

-- the head that ends in a piece, whatever comes behind the piece
request_head-append :
    (b p more rest : List ℕ)
    → scan_request 0 (b ++ p) ≡ ended rest
    → length rest ≤ length p
    → request_head (b ++ (p ++ more)) ≡ some (b ++ take (length p - length rest) p)
request_head-append b p more rest e h =
    let all = b ++ (p ++ more) in
    let used = length p - length rest in
    let size : length all - length (rest ++ more) ≡ length b + used =
      omega
        (arith, h, length-append b (p ++ more), length-append p more, length-append rest more) in
    let scanned : scan_request 0 all ≡ ended (rest ++ more) =
      ap (scan_request 0) (sym (append_assoc b p more))
      ∙ scan_request-append 0 (b ++ p) more
      ∙ ap (λ o. resume o more) e in
    let found : after_blank_line all ≡ some (rest ++ more) =
      sym (scan_request-after_blank_line 0 all (omega arith)) ∙ ap remains_of scanned in
    let prefix : take (length all - length (rest ++ more)) all ≡ b ++ take used p =
      ap (λ i. take i all) size
      ∙ take-length_append b (p ++ more) used
      ∙ ap (λ l. b ++ l) (take-append_front used p more (omega arith)) in
    ground (arith, found, prefix)

http_parsers-resumed :
    (n : ℕ) (b : List ℕ) (k : ℕ) (pieces : List (List ℕ))
    → AreNonempty pieces
    → length b + length (join pieces) ≤ n
    → scan_request 0 b ≡ partial k
    → outcome (http_parsers n (record { buf = b; status = k }) (reads pieces))
      ≡ some (request_head (b ++ join pieces))
unfolding http_parsers http_parser
http_parsers-resumed n b k [] a l e =
    ground (arith, append-nil b, scan_request-after_blank_line 0 b (omega arith))
http_parsers-resumed n b k (p ∷ pieces) (q, a) l e =
    let onwards : scan_request 0 (b ++ p) ≡ scan_request k p =
      scan_request-append 0 b p ∙ ap (λ o. resume o p) e in
    let room : length (b ++ p) + length (join pieces) ≤ n =
      omega (arith, l, length-append b p, length-append p (join pieces)) in
    found (scan_request k p) refl onwards
      (λ k' h. http_parsers-resumed n (b ++ p) k' pieces a room h)
  where
    all : List ℕ
    all = b ++ (p ++ join pieces)

    found :
        (scan : Scan)
        → scan_request k p ≡ scan
        → scan_request 0 (b ++ p) ≡ scan_request k p
        → ((k' : ℕ)
            → scan_request 0 (b ++ p) ≡ partial k'
            → outcome (http_parsers n (record { buf = b ++ p; status = k' }) (reads pieces))
              ≡ some (request_head ((b ++ p) ++ join pieces)))
        → outcome (http_parsers n (record { buf = b; status = k }) (reads (p ∷ pieces)))
          ≡ some (request_head all)
    found (partial k') f o ih = ground (
      arith,
      f,
      l,
      q,
      length-append p (join pieces),
      ih k' (o ∙ f),
      append_assoc b p (join pieces),
    )
    found (ended rest) f o ih =
        let short = length-scan_request k p in
        let shorter : length rest ≤ length p = ground (arith, short, f) in
        ground (
          arith,
          f,
          l,
          q,
          length-append p (join pieces),
          request_head-append b p (join pieces) rest (o ∙ f) shorter,
        )

-- Pieces of a request that are not empty and fit into the buffer together are never refused, and the calls
-- cut out the same head for all of them: what comes up to the first CR LF CR LF of their bytes, with it, or
-- none while there is none.
pub http_parsers-request_head :
    (buffer_size : ℕ) (pieces : List (List ℕ))
    → AreNonempty pieces
    → length (join pieces) ≤ buffer_size
    → outcome (http_parsers buffer_size (record { buf = []; status = 0 }) (reads pieces))
      ≡ some (request_head (join pieces))
http_parsers-request_head n pieces a l =
    http_parsers-resumed n [] 0 pieces a (omega arith) (scan_request-nil 0)
