-- ===== src/Vars/Types.antt =====
-- The fields of struct wsgi_request and struct upsgi_server (upsgi.h) that upsgi_parse_vars and its checks
-- of the variables use. A pointer with its length is the bytes that it shows; none yet and empty are one.
use upsgi.Common.{ℕ, Bool, List, Option}
use upsgi.BodySched.Types.{State}
use upsgi.Wire.Range.{HttpRange}

-- struct upsgi_server; `now` is upsgi_micros() when the request is registered, and `fopen` says which files
-- can be opened
pub record Settings : Type 0 where
  pub honour_range : Bool
  pub dynamic_apps : Bool
  pub log_x_forwarded_for : Bool
  pub limit_post : ℕ
  pub vec_size : ℕ
  pub body_scheduler : Bool
  pub now : ℕ
  pub fopen : List ℕ → Bool

-- struct wsgi_request. post_cl and body_is_chunked stand with the fields of the body scheduler in `sched`,
-- hvec holds the first var_cnt entries, and a position of -1 is none. `setenv` lists the calls of setenv().
pub record Wsgi : Type 0 where
  pub https : List ℕ
  pub path_info : List ℕ
  pub host : List ℕ
  pub if_range : List ℕ
  pub script_name : List ℕ
  pub uri : List ℕ
  pub remote_user : List ℕ
  pub remote_addr : List ℕ
  pub cookie : List ℕ
  pub appid : List ℕ
  pub chdir : List ℕ
  pub http_origin : List ℕ
  pub query_string : List ℕ
  pub content_type : List ℕ
  pub referer : List ℕ
  pub scheme : List ℕ
  pub script : List ℕ
  pub module_ : List ℕ
  pub home : List ℕ
  pub file : List ℕ
  pub callable : List ℕ
  pub document_root : List ℕ
  pub method : List ℕ
  pub protocol : List ℕ
  pub user_agent : List ℕ
  pub authorization : List ℕ
  pub touch_reload : List ℕ
  pub encoding : List ℕ
  pub if_modified_since : List ℕ
  pub http_sec_websocket_key : List ℕ
  pub http_sec_websocket_protocol : List ℕ
  pub dynamic : Bool
  pub range : HttpRange
  pub has_content_length : Bool
  pub has_post_file : Bool
  pub setenv : List (List ℕ × List ℕ)
  pub path_info_pos : Option ℕ
  pub script_name_pos : Option ℕ
  pub hvec : List (List ℕ)
  pub sched : State
