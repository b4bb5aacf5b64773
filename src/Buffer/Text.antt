-- ===== src/Buffer/Text.antt =====
-- append_json and append_xml against decoders of what they write.
use upsgi.Common.{
  ℕ, ◌≡◌, ◌≢◌, refl, ap, ◌∙◌, Bool, true, false, ◌&&◌, List, [], ◌∷◌, ◌++◌, arith, ◌==◌,
  if◌then◌else◌, append-nil, append_assoc, Option, none, some,
}
use upsgi.Buffer.Ops.{Buffer, done, append}
use upsgi.Buffer.Escape.{json_byte, xml_byte, append_json, append_xml}
use upsgi.Buffer.Memory.{append-bytes, >>=-eq-done}

-- A JSON reader's view of the bytes between the quotes: a backslash takes the byte behind it.
abbrev json_escaped : ℕ → ℕ
json_escaped c =
    if c == b't' then b'\t' else if c == b'n' then b'\n' else if c == b'r' then 13 else c

abbrev pub json_decode : Bool → List ℕ → List ℕ
json_decode escaped [] = []
json_decode true (c ∷ cs) = json_escaped c ∷ json_decode false cs
json_decode false (c ∷ cs) =
    let plain = json_decode false cs in
    let escape = json_decode true cs in if c == b'\\' then escape else c ∷ plain

abbrev pub json_text : List ℕ → List ℕ
json_text [] = []
json_text (c ∷ cs) = json_byte c ++ json_text cs

json_decode-byte :
    (c : ℕ) (rest : List ℕ) → json_decode false (json_byte c ++ rest) ≡ c ∷ json_decode false rest
unfolding json_byte
json_decode-byte c rest = ground arith

json_decode-text : (cs : List ℕ) → json_decode false (json_text cs) ≡ cs
json_decode-text [] = refl
json_decode-text (c ∷ cs) =
    json_decode-byte c (json_text cs) ∙ ap (λ l. c ∷ l) (json_decode-text cs)

module _ (page_size : ℕ) (alloc : ℕ → Bool) where
  append_json-text :
      (ub : Buffer) (cs : List ℕ) {b : Buffer}
      → append_json page_size alloc ub cs ≡ done b
      → b.bytes ≡ ub.bytes ++ json_text cs
  unfolding append_json
  append_json-text ub [] h = ground (arith, append-nil ub.bytes)
  append_json-text ub (c ∷ cs) h =
      let (a, first, later) =
        >>=-eq-done (append page_size alloc ub (json_byte c))
          (λ b. append_json page_size alloc b cs) h in
      append_json-text a cs later
      ∙ ap (λ l. l ++ json_text cs) (append-bytes page_size alloc ub (json_byte c) first)
      ∙ append_assoc ub.bytes (json_byte c) (json_text cs)

  -- When append_json succeeds, what it has added behind the old bytes is text that a JSON reader reads
  -- back as the given bytes.
  pub append_json-decode :
      (ub : Buffer) (cs : List ℕ) {b : Buffer}
      → append_json page_size alloc ub cs ≡ done b
      → (added : List ℕ) × (b.bytes ≡ ub.bytes ++ added) × (json_decode false added ≡ cs)
  append_json-decode ub cs h = (json_text cs, append_json-text ub cs h, json_decode-text cs)

-- An XML reader's view: `&name;` stands for one character, any other byte for itself. The state is the
-- name read so far, inside a reference.
abbrev pub same : List ℕ → List ℕ → Bool
same [] [] = true
same (x ∷ xs) (y ∷ ys) = x == y && same xs ys
same _ _ = false

abbrev named : List ℕ → ℕ
named n =
    if same n (b'q' ∷ b'u' ∷ b'o' ∷ b't' ∷ [])
    then b'"'
    else if same n (b'a' ∷ b'p' ∷ b'o' ∷ b's' ∷ [])
    then 39
    else if same n (b'l' ∷ b't' ∷ [])
    then b'<'
    else if same n (b'g' ∷ b't' ∷ [])
    then b'>'
    else b'&'

abbrev pub xml_decode : Option (List ℕ) → List ℕ → List ℕ
xml_decode state [] = []
xml_decode none (c ∷ cs) =
    let plain = xml_decode none cs in
    let reference = xml_decode (some []) cs in if c == b'&' then reference else c ∷ plain
xml_decode (some n) (c ∷ cs) =
    let more = xml_decode (some (n ++ (c ∷ []))) cs in
    let over = xml_decode none cs in if c == b';' then named n ∷ over else more

abbrev pub xml_text : List ℕ → List ℕ
xml_text [] = []
xml_text (c ∷ cs) = xml_byte c ++ xml_text cs

-- no byte that would end an attribute or open a tag
abbrev pub IsInert : List ℕ → Type 0
IsInert [] = Unit
IsInert (c ∷ cs) = (c ≢ b'"') × (c ≢ 39) × (c ≢ b'<') × (c ≢ b'>') × IsInert cs

IsInert-append : (xs ys : List ℕ) → IsInert xs → IsInert ys → IsInert (xs ++ ys)
IsInert-append [] ys hx hy = hy
IsInert-append (x ∷ xs) ys (a, b, c, d, hx) hy = (a, b, c, d, IsInert-append xs ys hx hy)

xml_byte-IsInert : (c : ℕ) → IsInert (xml_byte c)
unfolding xml_byte
xml_byte-IsInert c = ground arith

xml_text-IsInert : (cs : List ℕ) → IsInert (xml_text cs)
xml_text-IsInert [] = tt
xml_text-IsInert (c ∷ cs) =
    IsInert-append (xml_byte c) (xml_text cs) (xml_byte-IsInert c) (xml_text-IsInert cs)

xml_decode-byte :
    (c : ℕ) (rest : List ℕ) → xml_decode none (xml_byte c ++ rest) ≡ c ∷ xml_decode none rest
unfolding xml_byte
xml_decode-byte c rest = ground arith

xml_decode-text : (cs : List ℕ) → xml_decode none (xml_text cs) ≡ cs
xml_decode-text [] = refl
xml_decode-text (c ∷ cs) = xml_decode-byte c (xml_text cs) ∙ ap (λ l. c ∷ l) (xml_decode-text cs)

module _ (page_size : ℕ) (alloc : ℕ → Bool) where
  append_xml-text :
      (ub : Buffer) (cs : List ℕ) {b : Buffer}
      → append_xml page_size alloc ub cs ≡ done b
      → b.bytes ≡ ub.bytes ++ xml_text cs
  unfolding append_xml
  append_xml-text ub [] h = ground (arith, append-nil ub.bytes)
  append_xml-text ub (c ∷ cs) h =
      let (a, first, later) =
        >>=-eq-done (append page_size alloc ub (xml_byte c)) (λ b. append_xml page_size alloc b cs)
          h in
      append_xml-text a cs later
      ∙ ap (λ l. l ++ xml_text cs) (append-bytes page_size alloc ub (xml_byte c) first)
      ∙ append_assoc ub.bytes (xml_byte c) (xml_text cs)

  -- When append_xml succeeds, what it has added behind the old bytes holds no quote, apostrophe or
  -- angle bracket, and an XML reader reads it back as the given bytes.
  pub append_xml-decode :
      (ub : Buffer) (cs : List ℕ) {b : Buffer}
      → append_xml page_size alloc ub cs ≡ done b
      → (added : List ℕ) × (b.bytes ≡ ub.bytes ++ added)
        × IsInert added
        × (xml_decode none added ≡ cs)
  append_xml-decode ub cs h =
      (xml_text cs, append_xml-text ub cs h, xml_text-IsInert cs, xml_decode-text cs)
