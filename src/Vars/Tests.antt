-- ===== src/Vars/Tests.antt =====
-- Runs of upsgi_parse_vars.
use upsgi.Common.{ℕ, ◌≤◌, ◌≡◌, refl, arith, true, false, List, [], ◌∷◌, ◌++◌, none, some, length}
use upsgi.Common.Text.{codes}
use upsgi.Buffer.Encode.{bytes16le}
use upsgi.BodySched.Types.{Request, Core, lane_none, lane_interactive}
use upsgi.BodySched.Ops.{note_request}
use upsgi.BodySched.Promote.{update_depth_max}
use upsgi.Wire.Range.{range_invalid, equal}
use upsgi.Wire.Length.{get_content_length}
use upsgi.Wire.Parse.{read16}
use upsgi.Wire.RoundTrip.{packet}
use upsgi.Vars.Types.{Settings, Wsgi}
use upsgi.Vars.Hooks
use upsgi.Vars.Parse.{accepted, parse_vars, parse_vars_loop, parse_value, add_var, push_iovec}
use upsgi.Vars.Body.{IsFramed}
use upsgi.Vars.Framing.{parse_vars-IsFramed}
use upsgi.Vars.Packets.{add_vars, result_of, parse_vars-packet}
use upsgi.Vars.Fields.{last_named, parse_vars-last_named}
use upsgi.Vars.Slots.{entries, IsAt, has_var, parse_vars-entries}
use upsgi.Vars.Total.{parse_vars-cut_off}

abbrev settings : Settings
settings = record {
  honour_range = true;
  dynamic_apps = false;
  log_x_forwarded_for = false;
  limit_post = 100;
  vec_size = 21;
  body_scheduler = true;
  now = 7;
  fopen = λ name. false;
}

abbrev idle : Request
idle = record {
  post_cl = 0;
  body_is_chunked = false;
  started_at_us = 0;
  last_service_us = 0;
  bytes_observed = 0;
  deficit_bytes = 0;
  last_budget_bytes = 0;
  rounds_observed = 0;
  full_budget_turns = 0;
  registered = false;
  lane_class = lane_none;
  promoted_by_bytes = false;
  promoted_by_rounds = false;
  promoted_by_residency = false;
  marked_complete = false;
  last_budget_capped = false;
  disabled_fallback_noted = false;
  recent_wait_event = false;
}

abbrev quiet : Core
quiet = record {
  rounds = 0;
  interactive_turns = 0;
  bulk_turns = 0;
  requeues = 0;
  promotions_to_bulk = 0;
  no_credit_skips = 0;
  empty_read_events = 0;
  eagain_events = 0;
  completed_items = 0;
  bytes_interactive = 0;
  bytes_bulk = 0;
  bytes_total = 0;
  credit_granted_bytes = 0;
  credit_unused_bytes = 0;
  active_items = 0;
  interactive_depth_max = 0;
  bulk_depth_max = 0;
  residency_us_max = 0;
  residency_us_p50_sample = 0;
  residency_us_p95_sample = 0;
  items_promoted_by_bytes = 0;
  items_promoted_by_rounds = 0;
  items_promoted_by_residency = 0;
  near_complete_fastfinishes = 0;
  overflow_protection_hits = 0;
  disabled_fallbacks = 0;
  full_budget_turns = 0;
  wait_relief_events = 0;
  yield_hints = 0;
  interactive_depth_current = 0;
  bulk_depth_current = 0;
  residency_hist = 0 ∷ 0 ∷ 0 ∷ 5 ∷ 0 ∷ 0 ∷ 0 ∷ 0 ∷ 0 ∷ 1 ∷ 0 ∷ 0 ∷ 0 ∷ 0 ∷ 0 ∷ 0 ∷ [];
}

abbrev fresh : Wsgi
fresh = record {
  https = [];
  path_info = [];
  host = [];
  if_range = [];
  script_name = [];
  uri = [];
  remote_user = [];
  remote_addr = [];
  cookie = [];
  appid = [];
  chdir = [];
  http_origin = [];
  query_string = [];
  content_type = [];
  referer = [];
  scheme = [];
  script = [];
  module_ = [];
  home = [];
  file = [];
  callable = [];
  document_root = [];
  method = [];
  protocol = [];
  user_agent = [];
  authorization = [];
  touch_reload = [];
  encoding = [];
  if_modified_since = [];
  http_sec_websocket_key = [];
  http_sec_websocket_protocol = [];
  dynamic = false;
  range = range_invalid;
  has_content_length = false;
  has_post_file = false;
  setenv = [];
  path_info_pos = none;
  script_name_pos = none;
  hvec = [];
  sched = (idle, quiet);
}

abbrev vars : List (List ℕ × List ℕ)
vars =
    (codes "PATH_INFO", codes "/old")
    ∷ (codes "CONTENT_LENGTH", codes "5")
    ∷ (codes "PATH_INFO", codes "/a")
    ∷ []

abbrev read : Wsgi
read = record fresh {
  path_info = codes "/a";
  path_info_pos = some 5;
  has_content_length = true;
  hvec = entries vars;
  sched = (
    record idle {
      post_cl = 5;
      registered = true;
      lane_class = lane_interactive;
      started_at_us = 7;
      last_service_us = 7;
    },
    record quiet { active_items = 1; interactive_depth_current = 1; interactive_depth_max = 1 },
  );
}

run_vars : parse_vars settings [] (packet vars) fresh ≡ accepted read
unfolding parse_vars parse_vars_loop parse_value add_var push_iovec read16 equal get_content_length
    note_request update_depth_max Hooks.proto_hook Hooks.check_9 Hooks.check_14
    Hooks.set_content_length Hooks.with_length Hooks.note_body Hooks.stored
run_vars = refl

parse_vars-IsFramed_example : IsFramed 100 true read.sched
unfolding parse_vars parse_vars_loop parse_value add_var push_iovec read16 equal get_content_length
    note_request update_depth_max Hooks.proto_hook Hooks.check_9 Hooks.check_14
    Hooks.set_content_length Hooks.with_length Hooks.note_body Hooks.stored
parse_vars-IsFramed_example =
    parse_vars-IsFramed settings [] (packet vars) fresh {w' = read} (ground arith) refl

parse_vars-packet_example :
    parse_vars settings [] (packet vars) fresh ≡ result_of (add_vars settings [] vars fresh)
parse_vars-packet_example = parse_vars-packet settings [] vars fresh (omega arith)

parse_vars-last_named_example :
    ([] ≡ last_named (codes "REQUEST_URI") vars [])
    × ([] ≡ last_named (codes "REQUEST_METHOD") vars [])
    × ([] ≡ last_named (codes "QUERY_STRING") vars [])
    × (codes "/a" ≡ last_named (codes "PATH_INFO") vars [])
    × ([] ≡ last_named (codes "SERVER_PROTOCOL") vars [])
    × ([] ≡ last_named (codes "CONTENT_TYPE") vars [])
    × ([] ≡ last_named (codes "HTTP_COOKIE") vars [])
unfolding parse_vars parse_vars_loop parse_value add_var push_iovec read16 equal get_content_length
    note_request update_depth_max Hooks.proto_hook Hooks.check_9 Hooks.check_14
    Hooks.set_content_length Hooks.with_length Hooks.note_body Hooks.stored
parse_vars-last_named_example =
    parse_vars-last_named settings [] vars fresh {w' = read} (omega arith) refl

parse_vars-entries_example :
    (read.hvec ≡ entries vars)
    × (length read.hvec ≤ 16)
    × IsAt (some 5) (codes "/a") read.hvec
    × IsAt none [] read.hvec
    × (true ≡ has_var (codes "PATH_INFO") vars)
    × (false ≡ has_var (codes "SCRIPT_NAME") vars)
unfolding parse_vars parse_vars_loop parse_value add_var push_iovec read16 equal get_content_length
    note_request update_depth_max Hooks.proto_hook Hooks.check_9 Hooks.check_14
    Hooks.set_content_length Hooks.with_length Hooks.note_body Hooks.stored
parse_vars-entries_example =
    parse_vars-entries settings [] vars fresh {w' = read} (omega arith) (omega arith) refl

parse_vars-cut_off_example :
    parse_vars settings [] (bytes16le 65535 ++ packet vars) fresh
    ≡ parse_vars settings [] (packet vars) fresh
parse_vars-cut_off_example =
    parse_vars-cut_off settings [] 65535 vars fresh (omega arith) (omega arith) (omega arith)
      (omega arith)

-- two apps above the path
abbrev apps : List (List ℕ)
apps = codes "/a" ∷ codes "/a/b" ∷ codes "/a/bc" ∷ []

-- a request without SCRIPT_NAME
abbrev unmanaged : Wsgi
unmanaged = record fresh {
  path_info = codes "/a/b/c";
  path_info_pos = some 1;
  script_name_pos = none;
  hvec = codes "PATH_INFO" ∷ codes "/a/b/c" ∷ [];
}
