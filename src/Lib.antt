-- ===== src/Lib.antt =====
-- Verification of upsgi, a prefork PSGI application server in C.
--
-- BodySched models core/body_scheduler.c, the scheduler that decides how many bytes of a request body
-- one read may take. A request and the core that serves it are two records (BodySched/Types) with the
-- body_sched_ fields of struct wsgi_request and struct upsgi_core of upsgi.h; a function that writes
-- through both pointers returns the new pair. Unsigned fields keep their wrap-around. The clock
-- upsgi_micros() is an argument of each call that reads it.
--
-- Buffer models core/buffer.c: a growing buffer is the bytes before `pos`, the size `len` of the
-- allocation and the limit. An operation returns `done` for 0 and `failed` for -1, each with the buffer
-- that it leaves, or `overrun` where it would write outside the allocation. Whether realloc() finds
-- room for a size is a parameter. Not modelled are the functions that print with snprintf.
--
-- Wire models the packet parsers of core/protocol.c over the bytes from `ptrbuf` to `bufferend`, with a
-- hook's calls as a list, Content-Length and Range values, and upsgi_str_num of core/utils.c. The loops
-- take fuel; one unit more than there are bytes is enough.
--
-- Chunked models core/chunked.c: Chunked/Socket receives from a list of answers of the socket, under a
-- scheduler that is given by an interface, which Chunked/Receive fills with BodySched; Chunked/Input is
-- upsgi_chunked_read with the parser of chunk lines. upsgi_chunked_read_smart is not modelled.
--
-- Http models the header block and PATH_INFO of proto/http.c: Http/Headers has the rules for a
-- header's name, the table of headers, http_header_value_has_token, and the two loops of http_parse;
-- Http/Path has http_path_needs_decode and http_url_decode4 of core/utils.c. The header block is the
-- bytes from the first header to the end of the empty line. Http/Request is upsgi_proto_http_parser
-- over the answers of read(), which cuts the head of a request out of the pieces that arrive. The
-- table keeps its slots in order; that malloc() finds room is assumed. strncasecmp() is that of the C
-- locale.
--
-- Vars models upsgi_parse_vars of core/protocol.c: Vars/Hooks has the checks of a variable by the length
-- of its key, upsgi_proto_check_5 to _27, Vars/Parse the loop over the packet with the entries of hvec,
-- and Vars/Mounts its part for manage-script-name, with the writes to hvec. A field of struct
-- wsgi_request that is a pointer with a length is the bytes it shows. A request with a body is registered
-- with BodySched. Not modelled are the post buffering and the checks for static files behind the loop.
--
-- WebSocket models core/websockets.c over Buffer: WebSocket/Send builds and writes frames,
-- WebSocket/Receive is the loop of upsgi_websocket_recv_do with its phases. What the socket, the wait for it,
-- the clock and a write of the body answer is given by lists and functions of numbers; a turn of the loop
-- spends one unit of fuel, and each theorem names the fuel that is enough. Not modelled is
-- upsgi_websocket_handshake.
--
-- Cache models core/cache.c. Cache/Bitmap is the bitmap of the blocks: the search for consecutive free
-- blocks, marking and unmarking, and the part of upsgi_cache_set2 that gives a new value its place; a
-- byte is a number below 256, and its bits are read with the masks of the source. Cache/Items,
-- Cache/Values, Cache/Ops and Cache/Life are the items, the hash table, the stack of unused items and
-- the list of the least recently used ones: a pointer to an item is its index, the items and the bytes
-- of the values are functions, and a call is one step, as it runs under the cache's lock.
-- upsgi_cache_get_index is Items.get_index, and so on by name; the rounds of its loop are max_items,
-- and the alarm of a longer chain is a result. Cache/Links has doubly linked lists over pointers, which
-- both the chains of the hash table and the list of use are, Cache/Table the invariant of the hash
-- table and the steps that keep it, Cache/View the map of keys to entries that the calls are compared
-- with, for caches without a bitmap, and below it the calls, and Cache/Lru the list of use. Not
-- modelled are the options, the file of a store, the remote calls, and the messages between nodes, of
-- which only the commands are listed.
pub mod Common
pub mod BodySched
pub mod Buffer
pub mod Wire
pub mod Chunked
pub mod Http
pub mod Vars
pub mod WebSocket
pub mod Cache
