-- ===== src/Vars/Fields.antt =====
-- Which of the variables of a request decides about a field.
use upsgi.Wire.Equal.{equal-eq}
use upsgi.Common.{
  chain-some, ℕ, ◌≡◌, ◌⊎◌, refl, sym, ◌∙◌, arith, true, false, ◌&&◌, List, [], ◌∷◌, ◌++◌, Option,
  none, some, if◌then◌else◌, length,
}
use upsgi.Common.Text.{codes}
use upsgi.Buffer.Encode.{bytes16le}
use upsgi.Wire.Range.{equal}
use upsgi.Wire.RoundTrip.{packet, IsPacket}
use upsgi.Vars.Types.{Settings, Wsgi}
use upsgi.Vars.Hooks
use upsgi.Vars.Parse.{accepted, push_iovec, add_var, parse_vars}
use upsgi.Vars.Packets.{add_vars, result_of-accepted, parse_vars-packet}

length-equal : (xs ys : List ℕ) → equal xs ys ≡ true → length xs ≡ length ys
unfolding equal
length-equal [] [] e = refl
length-equal [] (y ∷ ys) e = absurd (ground arith)
length-equal (x ∷ xs) [] e = absurd (ground arith)
length-equal (x ∷ xs) (y ∷ ys) e = ground (arith, length-equal xs ys)

-- a key is one of two different names at most
pub equal_clash : (key a b : List ℕ) → equal a b ≡ false → (equal key a && equal key b) ≡ false
equal_clash key a b h = ground (arith, equal-eq key a, h)

-- the value of the last variable of a name, or what there was
abbrev pub last_named : List ℕ → List (List ℕ × List ℕ) → List ℕ → List ℕ
last_named name [] old = old
last_named name ((key, val) ∷ vars) old = last_named name vars (if equal key name then val else old)

-- the fields that one variable decides
abbrev plain_fields : Wsgi → List (List ℕ)
plain_fields w =
    w.uri ∷ w.method ∷ w.query_string ∷ w.path_info ∷ w.protocol ∷ w.content_type ∷ w.cookie ∷ []

abbrev fields_of : Option Wsgi → Option (List (List ℕ))
fields_of none = none
fields_of (some w) = some (plain_fields w)

module _ (o : Settings) (behind key buf : List ℕ) (w : Wsgi) where
  abbrev or_old : List ℕ → List ℕ → List ℕ
  or_old name old = if equal key name then buf else old

  -- names of the same length that differ
  clashes_11 :
      ((equal key (codes "SCRIPT_NAME") && equal key (codes "REQUEST_URI")) ≡ false)
      × ((equal key (codes "SCRIPT_NAME") && equal key (codes "HTTP_COOKIE")) ≡ false)
      × ((equal key (codes "REQUEST_URI") && equal key (codes "HTTP_COOKIE")) ≡ false)
      × ((equal key (codes "REMOTE_USER") && equal key (codes "HTTP_COOKIE")) ≡ false)
      × ((equal key (codes "SERVER_NAME") && equal key (codes "HTTP_COOKIE")) ≡ false)
      × ((equal key (codes "REMOTE_ADDR") && equal key (codes "HTTP_COOKIE")) ≡ false)
  unfolding equal
  clashes_11 = (
    equal_clash key (codes "SCRIPT_NAME") (codes "REQUEST_URI") refl,
    equal_clash key (codes "SCRIPT_NAME") (codes "HTTP_COOKIE") refl,
    equal_clash key (codes "REQUEST_URI") (codes "HTTP_COOKIE") refl,
    equal_clash key (codes "REMOTE_USER") (codes "HTTP_COOKIE") refl,
    equal_clash key (codes "SERVER_NAME") (codes "HTTP_COOKIE") refl,
    equal_clash key (codes "REMOTE_ADDR") (codes "HTTP_COOKIE") refl,
  )

  clash_12 : (equal key (codes "QUERY_STRING") && equal key (codes "CONTENT_TYPE")) ≡ false
  unfolding equal
  clash_12 = equal_clash key (codes "QUERY_STRING") (codes "CONTENT_TYPE") refl

  fields-check_5 :
      plain_fields (Hooks.check_5 key buf w)
      ≡ w.uri ∷ w.method ∷ w.query_string ∷ w.path_info ∷ w.protocol ∷ w.content_type ∷ w.cookie
        ∷ []
  unfolding Hooks.check_5
  fields-check_5 = ground (arith)

  fields-check_9 :
      plain_fields (Hooks.check_9 key buf w)
      ≡ w.uri
        ∷ w.method
        ∷ w.query_string
        ∷ or_old (codes "PATH_INFO") w.path_info
        ∷ w.protocol
        ∷ w.content_type
        ∷ w.cookie
        ∷ []
  unfolding Hooks.check_9
  fields-check_9 = ground (arith)

  fields-check_10 :
      plain_fields (Hooks.check_10 o behind key buf w)
      ≡ w.uri ∷ w.method ∷ w.query_string ∷ w.path_info ∷ w.protocol ∷ w.content_type ∷ w.cookie
        ∷ []
  unfolding Hooks.check_10
  fields-check_10 = ground (arith)

  fields-check_11 :
      plain_fields (Hooks.check_11 key buf w)
      ≡ or_old (codes "REQUEST_URI") w.uri
        ∷ w.method
        ∷ w.query_string
        ∷ w.path_info
        ∷ w.protocol
        ∷ w.content_type
        ∷ or_old (codes "HTTP_COOKIE") w.cookie
        ∷ []
  unfolding Hooks.check_11
  fields-check_11 = ground (arith, clashes_11)

  fields-check_12 :
      plain_fields (Hooks.check_12 o key buf w)
      ≡ w.uri
        ∷ w.method
        ∷ or_old (codes "QUERY_STRING") w.query_string
        ∷ w.path_info
        ∷ w.protocol
        ∷ or_old (codes "CONTENT_TYPE") w.content_type
        ∷ w.cookie
        ∷ []
  unfolding Hooks.check_12 Hooks.set_environment
  fields-check_12 = ground (arith, clash_12)

  fields-check_13 :
      plain_fields (Hooks.check_13 key buf w)
      ≡ w.uri ∷ w.method ∷ w.query_string ∷ w.path_info ∷ w.protocol ∷ w.content_type ∷ w.cookie
        ∷ []
  unfolding Hooks.check_13
  fields-check_13 = ground (arith)

  set_content_length_fields :
      (fields_of (Hooks.set_content_length o buf w) ≡ none)
      ⊎ (fields_of (Hooks.set_content_length o buf w) ≡ some (plain_fields w))
  unfolding Hooks.set_content_length Hooks.with_length Hooks.note_body
  set_content_length_fields = ground arith

  clash_14 : (equal key (codes "REQUEST_METHOD") && equal key (codes "CONTENT_LENGTH")) ≡ false
  unfolding equal
  clash_14 = equal_clash key (codes "REQUEST_METHOD") (codes "CONTENT_LENGTH") refl

  fields-check_14 :
      (fields_of (Hooks.check_14 o key buf w) ≡ none)
      ⊎ (fields_of (Hooks.check_14 o key buf w)
          ≡ some (
              w.uri
              ∷ or_old (codes "REQUEST_METHOD") w.method
              ∷ w.query_string
              ∷ w.path_info
              ∷ w.protocol
              ∷ w.content_type
              ∷ w.cookie
              ∷ []))
  unfolding Hooks.check_14
  fields-check_14 = ground (arith, set_content_length_fields, clash_14)

  fields-check_15 :
      plain_fields (Hooks.check_15 key buf w)
      ≡ w.uri
        ∷ w.method
        ∷ w.query_string
        ∷ w.path_info
        ∷ or_old (codes "SERVER_PROTOCOL") w.protocol
        ∷ w.content_type
        ∷ w.cookie
        ∷ []
  unfolding Hooks.check_15
  fields-check_15 = ground (arith)

  fields-check_18 :
      plain_fields (Hooks.check_18 key buf w)
      ≡ w.uri ∷ w.method ∷ w.query_string ∷ w.path_info ∷ w.protocol ∷ w.content_type ∷ w.cookie
        ∷ []
  unfolding Hooks.check_18
  fields-check_18 = ground (arith)

  fields-check_20 :
      plain_fields (Hooks.check_20 o key buf w)
      ≡ w.uri ∷ w.method ∷ w.query_string ∷ w.path_info ∷ w.protocol ∷ w.content_type ∷ w.cookie
        ∷ []
  unfolding Hooks.check_20
  fields-check_20 = ground (arith)

  fields-check_22 :
      (fields_of (Hooks.check_22 o key buf w) ≡ none)
      ⊎ (fields_of (Hooks.check_22 o key buf w)
          ≡ some (
              w.uri ∷ w.method ∷ w.query_string ∷ w.path_info ∷ w.protocol ∷ w.content_type
              ∷ w.cookie ∷ []))
  unfolding Hooks.check_22 Hooks.set_chunked Hooks.note_body
  fields-check_22 = ground (arith)

  fields-check_27 :
      plain_fields (Hooks.check_27 key buf w)
      ≡ w.uri ∷ w.method ∷ w.query_string ∷ w.path_info ∷ w.protocol ∷ w.content_type ∷ w.cookie
        ∷ []
  unfolding Hooks.check_27
  fields-check_27 = ground (arith)

  fields-proto_hook :
      (fields_of (Hooks.proto_hook o behind key buf w) ≡ none)
      ⊎ (fields_of (Hooks.proto_hook o behind key buf w)
          ≡ some (
              or_old (codes "REQUEST_URI") w.uri
              ∷ or_old (codes "REQUEST_METHOD") w.method
              ∷ or_old (codes "QUERY_STRING") w.query_string
              ∷ or_old (codes "PATH_INFO") w.path_info
              ∷ or_old (codes "SERVER_PROTOCOL") w.protocol
              ∷ or_old (codes "CONTENT_TYPE") w.content_type
              ∷ or_old (codes "HTTP_COOKIE") w.cookie
              ∷ []))
  unfolding Hooks.proto_hook
  fields-proto_hook = ground (
    arith,
    length-equal key (codes "REQUEST_URI"),
    length-equal key (codes "REQUEST_METHOD"),
    length-equal key (codes "QUERY_STRING"),
    length-equal key (codes "PATH_INFO"),
    length-equal key (codes "SERVER_PROTOCOL"),
    length-equal key (codes "CONTENT_TYPE"),
    length-equal key (codes "HTTP_COOKIE"),
    fields-check_5,
    fields-check_9,
    fields-check_10,
    fields-check_11,
    fields-check_12,
    fields-check_13,
    fields-check_14,
    fields-check_15,
    fields-check_18,
    fields-check_20,
    fields-check_22,
    fields-check_27,
  )

  -- a variable that is added
  record Added (w' : Wsgi) : Type 0 where
    uri : w'.uri ≡ or_old (codes "REQUEST_URI") w.uri
    method : w'.method ≡ or_old (codes "REQUEST_METHOD") w.method
    query_string : w'.query_string ≡ or_old (codes "QUERY_STRING") w.query_string
    path_info : w'.path_info ≡ or_old (codes "PATH_INFO") w.path_info
    protocol : w'.protocol ≡ or_old (codes "SERVER_PROTOCOL") w.protocol
    content_type : w'.content_type ≡ or_old (codes "CONTENT_TYPE") w.content_type
    cookie : w'.cookie ≡ or_old (codes "HTTP_COOKIE") w.cookie

  add_var-Added : {w' : Wsgi} → add_var o behind key buf w ≡ some w' → Added w'
  unfolding add_var push_iovec
  add_var-Added {w'} e =
      let (hooked, p, e1) =
        chain-some (Hooks.proto_hook o behind key buf w)
          (λ h. elim (push_iovec o key h) [
            | none ↦ none
            | some k ↦ push_iovec o (Hooks.stored key buf) k
          ])
          e in
      let (keyed, q, e2) =
        chain-some (push_iovec o key hooked) (push_iovec o (Hooks.stored key buf)) e1 in
      let fields = fields-proto_hook in
      let kept : plain_fields w' ≡ plain_fields hooked = ground (arith, q, e2) in
      ground (arith, p, fields, kept)

add_vars-last_named :
    (o : Settings) (slack : List ℕ) (vars : List (List ℕ × List ℕ)) (w : Wsgi) {w' : Wsgi}
    → add_vars o slack vars w ≡ some w'
    → (w'.uri ≡ last_named (codes "REQUEST_URI") vars w.uri)
      × (w'.method ≡ last_named (codes "REQUEST_METHOD") vars w.method)
      × (w'.query_string ≡ last_named (codes "QUERY_STRING") vars w.query_string)
      × (w'.path_info ≡ last_named (codes "PATH_INFO") vars w.path_info)
      × (w'.protocol ≡ last_named (codes "SERVER_PROTOCOL") vars w.protocol)
      × (w'.content_type ≡ last_named (codes "CONTENT_TYPE") vars w.content_type)
      × (w'.cookie ≡ last_named (codes "HTTP_COOKIE") vars w.cookie)
add_vars-last_named o slack [] w e = ground arith
add_vars-last_named o slack ((key, val) ∷ vars) w e =
    let behind = (bytes16le (length val) ++ (val ++ packet vars)) ++ slack in
    let (w1, p, e1) = chain-some (add_var o behind key val w) (add_vars o slack vars) e in
    let one = add_var-Added o behind key val w p in
    let more = add_vars-last_named o slack vars w1 e1 in ground (arith, one, more)

-- Of an accepted packet, the last variable of its name decides about the request's URI, method, query
-- string, PATH_INFO, protocol, content type and cookie; a field without a variable keeps its value.
pub parse_vars-last_named :
    (o : Settings) (slack : List ℕ) (vars : List (List ℕ × List ℕ)) (w : Wsgi) {w' : Wsgi}
    → IsPacket vars
    → parse_vars o slack (packet vars) w ≡ accepted w'
    → (w'.uri ≡ last_named (codes "REQUEST_URI") vars w.uri)
      × (w'.method ≡ last_named (codes "REQUEST_METHOD") vars w.method)
      × (w'.query_string ≡ last_named (codes "QUERY_STRING") vars w.query_string)
      × (w'.path_info ≡ last_named (codes "PATH_INFO") vars w.path_info)
      × (w'.protocol ≡ last_named (codes "SERVER_PROTOCOL") vars w.protocol)
      × (w'.content_type ≡ last_named (codes "CONTENT_TYPE") vars w.content_type)
      × (w'.cookie ≡ last_named (codes "HTTP_COOKIE") vars w.cookie)
parse_vars-last_named o slack vars w p e =
    add_vars-last_named o slack vars (record w { path_info_pos = none; script_name_pos = none })
      (result_of-accepted _ (sym (parse_vars-packet o slack vars w p) ∙ e))
