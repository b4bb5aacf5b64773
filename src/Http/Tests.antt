-- ===== src/Http/Tests.antt =====
-- Runs of the request parser of proto/http.c.
use upsgi.Common.{
  suc, ℕ, ◌<◌, ◌≡◌, refl, arith, true, false, ◌&&◌, List, [], ◌∷◌, map, none, some, length,
}
use upsgi.Common.Text.{codes}
use upsgi.Wire.RoundTrip.{packet}
use upsgi.Http.Names.{same_name, header_name_eq, header_normalize_name}
use upsgi.Http.Path.{
  url_decode, path_info, decode_from, decode_end, decode_byte, drop_segment, hex2num,
}
use upsgi.Http.Headers.{
  Slot, scan_headers, parse_headers, has_token, is_content_length, is_chunked, is_folded, add_line,
  header_to_cgi, before_colon, skip_spaces, find, reject_duplicate, emit_headers, note_framing,
  add_upsgi_header, needs_prefix, has_token_from, skip_separators, trim_end, token_of,
  skip_to_comma,
}
use upsgi.Http.Smuggling.{has_slot, parse_headers-framing}
use upsgi.Http.Fields.{cgi_var, parse_headers-packet}
use upsgi.Http.Render.{header_block, slot_of, scan_headers-header_block}
use upsgi.Wire.Parse.{parsed, hooked_parse}
use upsgi.Http.Token.{some_element_is, has_token-some_element_is}
use upsgi.Http.Named.{parse_headers-hooked_parse}
use upsgi.Http.Request.{http_parsers}
use upsgi.Http.Pieces.{outcome, reads, http_parsers-request_head}
use upsgi.Http.Decode.{path_info-url_decode}

abbrev two_headers : List (List ℕ × List ℕ)
two_headers = (codes "Host", codes "a.b") ∷ (codes "Via", codes "x") ∷ []

abbrev length_and_chunked : List (List ℕ × List ℕ)
length_and_chunked =
    (codes "Content-Length", codes "5") ∷ (codes "Transfer-Encoding", codes "chunked") ∷ []

abbrev host_and_length : List (List ℕ × List ℕ)
host_and_length = (codes "Host", codes "a.b") ∷ (codes "content-length", codes "5") ∷ []

-- a path without dot segments is copied, a dot segment goes with its parent
url_decode-dots : url_decode false (codes "/a/../b%20c") ≡ codes "/b c"
unfolding url_decode decode_from decode_end decode_byte drop_segment hex2num
url_decode-dots = refl

-- an escaped dot is no dot of a dot segment
url_decode-escaped_dots : url_decode false (codes "/a/%2e%2e/b") ≡ codes "/a/../b"
unfolding url_decode decode_from decode_end decode_byte drop_segment hex2num
url_decode-escaped_dots = refl

has_token-last : has_token (codes "close") (codes "keep-alive, Close;q=1") ≡ true
unfolding has_token has_token_from skip_separators same_name trim_end token_of skip_to_comma
has_token-last = refl

parse_headers-clash : parse_headers 4096 [] (header_block length_and_chunked) ≡ none
unfolding parse_headers scan_headers is_folded add_line header_to_cgi before_colon skip_spaces find
    same_name reject_duplicate emit_headers note_framing is_content_length add_upsgi_header
    needs_prefix is_chunked has_token has_token_from skip_separators trim_end token_of skip_to_comma
    header_normalize_name header_name_eq
parse_headers-clash = refl

-- a second line with a name that may not repeat
parse_headers-duplicate :
    parse_headers 4096 [] (header_block ((codes "host", codes "c") ∷ two_headers)) ≡ none
unfolding parse_headers scan_headers is_folded add_line header_to_cgi before_colon skip_spaces find
    same_name reject_duplicate emit_headers note_framing is_content_length add_upsgi_header
    needs_prefix is_chunked has_token has_token_from skip_separators trim_end token_of skip_to_comma
    header_normalize_name header_name_eq
parse_headers-duplicate = refl

-- a list that ends in the token chunked counts as chunked here
is_chunked-list : is_chunked (slot_of (codes "Transfer-Encoding", codes "gzip, chunked")) ≡ true
unfolding is_chunked has_token has_token_from skip_separators same_name trim_end token_of
    skip_to_comma
is_chunked-list = refl

path_info-url_decode_example :
    path_info false (codes "/a/../b") ≡ url_decode false (codes "/a/../b")
path_info-url_decode_example = path_info-url_decode false (codes "/a/../b")

scan_headers-header_block_example :
    scan_headers [] [] (header_block two_headers) ≡ some (map slot_of two_headers)
unfolding scan_headers find is_folded skip_spaces same_name
scan_headers-header_block_example = scan_headers-header_block [] two_headers (ground arith)

abbrev out : List ℕ
out = packet (map cgi_var (map slot_of host_and_length))

parse_headers-framing_example :
    (table : List Slot) × (scan_headers [] [] (header_block host_and_length) ≡ some table)
    × ((has_slot is_content_length table && has_slot is_chunked table) ≡ false)
unfolding parse_headers scan_headers is_folded add_line header_to_cgi before_colon skip_spaces find
    same_name reject_duplicate emit_headers note_framing is_content_length add_upsgi_header
    needs_prefix is_chunked has_token has_token_from skip_separators trim_end token_of skip_to_comma
    header_normalize_name header_name_eq
parse_headers-framing_example =
    parse_headers-framing 4096 [] (header_block host_and_length) {out = out} refl

parse_headers-packet_example :
    (table : List Slot) × (scan_headers [] [] (header_block host_and_length) ≡ some table)
    × (out ≡ packet (map cgi_var table))
    × (length out < 4096)
unfolding parse_headers scan_headers is_folded add_line header_to_cgi before_colon skip_spaces find
    same_name reject_duplicate emit_headers note_framing is_content_length add_upsgi_header
    needs_prefix is_chunked has_token has_token_from skip_separators trim_end token_of skip_to_comma
    header_normalize_name header_name_eq
parse_headers-packet_example =
    parse_headers-packet 4096 [] (header_block host_and_length) {out = out} (omega arith) refl

has_token-some_element_is_example :
    has_token (codes "chunked") (codes "gzip, Chunked")
    ≡ some_element_is (codes "chunked") (codes "gzip" ∷ codes " Chunked" ∷ [])
has_token-some_element_is_example =
    has_token-some_element_is b'c' (codes "hunked") (codes "gzip, Chunked")

parse_headers-hooked_parse_example :
    (table : List Slot) × (scan_headers [] [] (header_block host_and_length) ≡ some table)
    × (hooked_parse (suc (length out)) out ≡ parsed (map cgi_var table))
unfolding parse_headers scan_headers is_folded add_line header_to_cgi before_colon skip_spaces find
    same_name reject_duplicate emit_headers note_framing is_content_length add_upsgi_header
    needs_prefix is_chunked has_token has_token_from skip_separators trim_end token_of skip_to_comma
    header_normalize_name header_name_eq
parse_headers-hooked_parse_example =
    parse_headers-hooked_parse 4096 (header_block host_and_length) {out = out} (omega arith)
      (omega arith) refl

-- an empty line that is cut in two
abbrev pieces : List (List ℕ)
pieces = (b'G' ∷ 13 ∷ 10 ∷ 13 ∷ []) ∷ (10 ∷ b'x' ∷ []) ∷ []

http_parsers-request_head_example :
    outcome (http_parsers 16 (record { buf = []; status = 0 }) (reads pieces))
    ≡ some (some (b'G' ∷ 13 ∷ 10 ∷ 13 ∷ 10 ∷ []))
http_parsers-request_head_example = http_parsers-request_head 16 pieces (omega arith) (omega arith)
