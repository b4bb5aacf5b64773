-- ===== src/Buffer/Escape.antt =====
-- core/buffer.c: upsgi_buffer_append_json and upsgi_buffer_append_xml.
use upsgi.Common.{ℕ, Bool, List, [], ◌∷◌, ◌==◌, if◌then◌else◌}
use upsgi.Buffer.Ops.{Buffer, Outcome, done, append, ◌>>=◌}

-- what append_json appends for one byte: \t, \n, \r, \" and \\ are escaped
unfoldable pub json_byte : ℕ → List ℕ
json_byte c =
    if c == b'\t'
    then b'\\' ∷ b't' ∷ []
    else if c == b'\n'
    then b'\\' ∷ b'n' ∷ []
    else if c == 13
    then b'\\' ∷ b'r' ∷ []
    else if c == b'"'
    then b'\\' ∷ b'"' ∷ []
    else if c == b'\\'
    then b'\\' ∷ b'\\' ∷ []
    else c ∷ []

-- what append_xml appends for one byte: &quot; &apos; &lt; &gt; &amp;
unfoldable pub xml_byte : ℕ → List ℕ
xml_byte c =
    if c == b'"'
    then b'&' ∷ b'q' ∷ b'u' ∷ b'o' ∷ b't' ∷ b';' ∷ []
    else if c == 39
    then b'&' ∷ b'a' ∷ b'p' ∷ b'o' ∷ b's' ∷ b';' ∷ []
    else if c == b'<'
    then b'&' ∷ b'l' ∷ b't' ∷ b';' ∷ []
    else if c == b'>'
    then b'&' ∷ b'g' ∷ b't' ∷ b';' ∷ []
    else if c == b'&'
    then b'&' ∷ b'a' ∷ b'm' ∷ b'p' ∷ b';' ∷ []
    else c ∷ []

module _ (page_size : ℕ) (alloc : ℕ → Bool) where
  unfoldable pub append_json : Buffer → List ℕ → Outcome
  append_json ub [] = done ub
  append_json ub (c ∷ cs) = append page_size alloc ub (json_byte c) >>= λ b. append_json b cs

  unfoldable pub append_xml : Buffer → List ℕ → Outcome
  append_xml ub [] = done ub
  append_xml ub (c ∷ cs) = append page_size alloc ub (xml_byte c) >>= λ b. append_xml b cs
