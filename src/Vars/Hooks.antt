-- ===== src/Vars/Hooks.antt =====
-- upsgi_proto_check_5 to _27 of core/protocol.c and their dispatch by the length of the key. A hook that
-- returns 0 gives the request. `key` has the length of the hook's name, so that memcmp() over that length
-- compares the whole key; `behind` is the memory behind the key, for the hook that reads further.
use mathlib.Core.Option
use upsgi.Common.{
  ℕ, ◌+◌, true, not, ◌&&◌, List, [], ◌∷◌, ◌++◌, Option, none, some, ltb, ◌==◌, if◌then◌else◌,
  length, take,
}
use upsgi.Common.Text.{codes}
use upsgi.BodySched.Ops.{note_request}
use upsgi.Wire.Range.{equal, parse_http_range}
use upsgi.Wire.Length.{get_content_length}
use upsgi.Http.Names.{same_name}
use upsgi.Vars.Types.{Settings, Wsgi}

-- upsgi_body_sched_note_request() of the request
unfoldable pub note_body : Settings → Wsgi → Wsgi
note_body o w = record w { sched = note_request o.body_scheduler o.now w.sched }

unfoldable pub check_5 : List ℕ → List ℕ → Wsgi → Wsgi
check_5 key buf w = if equal key (codes "HTTPS") then record w { https = buf } else w

-- var_cnt + 1 is the position that the value gets
unfoldable pub check_9 : List ℕ → List ℕ → Wsgi → Wsgi
check_9 key buf w =
    if equal key (codes "PATH_INFO")
    then record w { path_info = buf; path_info_pos = some (length w.hvec + 1) }
    else if equal key (codes "HTTP_HOST")
    then record w { host = buf }
    else w

-- the comparison with HTTP_IF_RANGE is over 13 bytes
unfoldable pub check_10 : Settings → List ℕ → List ℕ → List ℕ → Wsgi → Wsgi
check_10 o behind key buf w =
    let w' =
      if o.honour_range && equal (take 13 (key ++ behind)) (codes "HTTP_IF_RANGE")
      then record w { if_range = buf }
      else w in
    if o.honour_range && equal key (codes "HTTP_RANGE")
    then record w' { range = parse_http_range buf }
    else if o.dynamic_apps && equal key (codes "UPSGI_FILE")
    then record w' { file = buf; dynamic = true }
    else if o.dynamic_apps && equal key (codes "UPSGI_HOME")
    then record w' { home = buf }
    else w'

unfoldable pub check_11 : List ℕ → List ℕ → Wsgi → Wsgi
check_11 key buf w =
    if equal key (codes "SCRIPT_NAME")
    then record w { script_name = buf; script_name_pos = some (length w.hvec + 1) }
    else if equal key (codes "REQUEST_URI")
    then record w { uri = buf }
    else if equal key (codes "REMOTE_USER")
    then record w { remote_user = buf }
    else if length w.host == 0 && equal key (codes "SERVER_NAME")
    then record w { host = buf }
    else if length w.remote_addr == 0 && equal key (codes "REMOTE_ADDR")
    then record w { remote_addr = buf }
    else if equal key (codes "HTTP_COOKIE")
    then record w { cookie = buf }
    else if equal key (codes "UPSGI_APPID")
    then record w { appid = buf }
    else if equal key (codes "UPSGI_CHDIR")
    then record w { chdir = buf }
    else if equal key (codes "HTTP_ORIGIN")
    then record w { http_origin = buf }
    else w

-- a C string ends before its first NUL
unfoldable pub c_string : List ℕ → List ℕ
c_string [] = []
c_string (c ∷ s) = if c == 0 then [] else c ∷ c_string s

-- the bytes before and behind the first equal sign
unfoldable pub split_equal : List ℕ → Option (List ℕ × List ℕ)
split_equal [] = none
split_equal (c ∷ s) =
    let rest = split_equal s in
    if c == b'=' then some ([], s) else Option.map (λ (r : List ℕ × List ℕ). (c ∷ r.0, r.1)) rest

unfoldable pub set_environment : List ℕ → Wsgi → Wsgi
set_environment buf w = elim (split_equal buf) [
  | none ↦ w
  | some r ↦ record w { setenv = w.setenv ++ (c_string r.0, c_string r.1) ∷ [] }
]

unfoldable pub check_12 : Settings → List ℕ → List ℕ → Wsgi → Wsgi
check_12 o key buf w =
    if equal key (codes "QUERY_STRING")
    then record w { query_string = buf }
    else if equal key (codes "CONTENT_TYPE")
    then record w { content_type = buf }
    else if equal key (codes "HTTP_REFERER")
    then record w { referer = buf }
    else if equal key (codes "UPSGI_SCHEME")
    then record w { scheme = buf }
    else if o.dynamic_apps && equal key (codes "UPSGI_SCRIPT")
    then record w { script = buf; dynamic = true }
    else if o.dynamic_apps && equal key (codes "UPSGI_MODULE")
    then record w { module_ = buf; dynamic = true }
    else if equal key (codes "UPSGI_PYHOME")
    then record w { home = buf }
    else if equal key (codes "UPSGI_SETENV")
    then set_environment buf w
    else w

unfoldable pub check_13 : List ℕ → List ℕ → Wsgi → Wsgi
check_13 key buf w =
    if equal key (codes "DOCUMENT_ROOT") then record w { document_root = buf } else w

-- the length of the body; none is the return value -1
unfoldable pub with_length : Settings → ℕ → Wsgi → Option Wsgi
with_length o cl w =
    let framed = record w {
      has_content_length = true;
      sched = (record (w.sched.0) { post_cl = cl }, w.sched.1);
    } in
    if w.sched.0.body_is_chunked
    then none
    else if ltb 0 o.limit_post && ltb o.limit_post cl
    then none
    else some (if ltb 0 cl then note_body o framed else framed)

unfoldable pub set_content_length : Settings → List ℕ → Wsgi → Option Wsgi
set_content_length o buf w = elim (get_content_length buf) [
  | none ↦ none
  | some cl ↦ with_length o cl w
]

unfoldable pub check_14 : Settings → List ℕ → List ℕ → Wsgi → Option Wsgi
check_14 o key buf w =
    if equal key (codes "REQUEST_METHOD")
    then some (record w { method = buf })
    else if equal key (codes "CONTENT_LENGTH")
    then set_content_length o buf w
    else if equal key (codes "UPSGI_POSTFILE")
    then some (record w { has_post_file = o.fopen (c_string buf) })
    else if o.dynamic_apps && equal key (codes "UPSGI_CALLABLE")
    then some (record w { callable = buf; dynamic = true })
    else some w

unfoldable pub check_15 : List ℕ → List ℕ → Wsgi → Wsgi
check_15 key buf w =
    if equal key (codes "SERVER_PROTOCOL")
    then record w { protocol = buf }
    else if equal key (codes "HTTP_USER_AGENT")
    then record w { user_agent = buf }
    else w

unfoldable pub check_18 : List ℕ → List ℕ → Wsgi → Wsgi
check_18 key buf w =
    if equal key (codes "HTTP_AUTHORIZATION")
    then record w { authorization = buf }
    else if equal key (codes "UPSGI_TOUCH_RELOAD")
    then record w { touch_reload = buf }
    else w

unfoldable pub check_20 : Settings → List ℕ → List ℕ → Wsgi → Wsgi
check_20 o key buf w =
    let w' = if equal key (codes "HTTP_X_FORWARDED_SSL") then record w { https = buf } else w in
    if o.log_x_forwarded_for && equal key (codes "HTTP_X_FORWARDED_FOR")
    then record w { remote_addr = buf }
    else if equal key (codes "HTTP_ACCEPT_ENCODING")
    then record w' { encoding = buf }
    else w'

-- the body comes in chunks; none is the return value -1
unfoldable pub set_chunked : Settings → List ℕ → Wsgi → Option Wsgi
set_chunked o buf w =
    let framed = record w { sched = (record (w.sched.0) { body_is_chunked = true }, w.sched.1) } in
    if not (same_name buf (codes "chunked"))
    then some w
    else if w.has_content_length
    then none
    else some (note_body o framed)

unfoldable pub check_22 : Settings → List ℕ → List ℕ → Wsgi → Option Wsgi
check_22 o key buf w =
    let w' = if equal key (codes "HTTP_X_FORWARDED_PROTO") then record w { scheme = buf } else w in
    if equal key (codes "HTTP_IF_MODIFIED_SINCE")
    then some (record w { if_modified_since = buf })
    else if equal key (codes "HTTP_SEC_WEBSOCKET_KEY")
    then some (record w { http_sec_websocket_key = buf })
    else if equal key (codes "HTTP_TRANSFER_ENCODING")
    then set_chunked o buf w'
    else some w'

unfoldable pub check_27 : List ℕ → List ℕ → Wsgi → Wsgi
check_27 key buf w =
    if equal key (codes "HTTP_SEC_WEBSOCKET_PROTOCOL")
    then record w { http_sec_websocket_protocol = buf }
    else w

-- upsgi.proto_hooks[], which has a hook for these lengths between UPSGI_PROTO_MIN_CHECK and
-- UPSGI_PROTO_MAX_CHECK
unfoldable pub proto_hook : Settings → List ℕ → List ℕ → List ℕ → Wsgi → Option Wsgi
proto_hook o behind key buf w =
    let n = length key in
    if n == 5
    then some (check_5 key buf w)
    else if n == 9
    then some (check_9 key buf w)
    else if n == 10
    then some (check_10 o behind key buf w)
    else if n == 11
    then some (check_11 key buf w)
    else if n == 12
    then some (check_12 o key buf w)
    else if n == 13
    then some (check_13 key buf w)
    else if n == 14
    then check_14 o key buf w
    else if n == 15
    then some (check_15 key buf w)
    else if n == 18
    then some (check_18 key buf w)
    else if n == 20
    then some (check_20 o key buf w)
    else if n == 22
    then check_22 o key buf w
    else if n == 27
    then some (check_27 key buf w)
    else some w

-- what the value's bytes are behind the hooks: UPSGI_SETENV ends the name at the equal sign by a NUL
unfoldable pub stored : List ℕ → List ℕ → List ℕ
stored key buf =
    if equal key (codes "UPSGI_SETENV")
    then elim (split_equal buf) [ none ↦ buf | some r ↦ r.0 ++ 0 ∷ r.1 ]
    else buf
