-- ===== src/Cache/Life.antt =====
-- The calls of core/cache.c around the ones that set and read: a new cache, one that is restored from the
-- items in its file or from another node, the sweeper, and the two smaller reads.
use mathlib.Core.Option
use upsgi.Common.{
  ℕ, zero, suc, ◌+◌, ◌-◌, ◌*◌, ◌/◌, ◌%◌, ◌^◌, Bool, false, ◌&&◌, ◌||◌, List, [], ◌∷◌, ◌++◌, Option,
  none, some, ltb, leb, ◌==◌, if◌then◌else◌, add64,
}
use upsgi.Cache.Bitmap.{Blocks}
use upsgi.Cache.Items.{Settings, Item, Cache, set_slot, del_index, get_index, del2}
use upsgi.Cache.Ops.{flags_of, num_of, read_bytes, hit_item, set2, get_value}

-- the indices from `i` on are pushed on the stack
unfoldable pub push_from : ℕ → ℕ → List ℕ → List ℕ
push_from zero i unused = unused
push_from (suc count) i unused = push_from count (i + 1) (i ∷ unused)

unfoldable pub zeros : ℕ → List ℕ
zeros zero = []
zeros (suc n) = 0 ∷ zeros n

-- the bitmap of upsgi_cache_init; the bits behind the last block are set
unfoldable pub init_bitmap : ℕ → ℕ → Blocks
init_bitmap blocks blocksize =
    let m = blocks % 8 in
    record {
      blocks = blocks;
      blocksize = blocksize;
      blocks_bitmap = zeros (blocks / 8) ++ (if ltb 0 m then 255 / 2 ^ m ∷ [] else []);
      blocks_bitmap_pos = 0;
    }

abbrev pub no_item : Item
no_item = record {
  flags = 0;
  keysize = 0;
  hash = 0;
  valsize = 0;
  first_block = 0;
  expires = 0;
  hits = 0;
  prev = 0;
  next = 0;
  lru_prev = 0;
  lru_next = 0;
  key = [];
}

-- upsgi_cache_init for a cache without a file, on the memory of its values
unfoldable pub init : Settings → Option Blocks → (ℕ → ℕ) → Cache
init o bitmap memory = record {
  items = λ j. no_item;
  hashtable = λ b. 0;
  unused = push_from (o.max_items - 1) 1 [];
  bitmap = bitmap;
  n_items = 0;
  last_modified_at = 0;
  full = 0;
  cache_hits = 0;
  miss = 0;
  next_scan = 0;
  lru_head = 0;
  lru_tail = 0;
  memory = memory;
  sent = [];
}

-- one item in upsgi_cache_fix, which counts the items and looks for the next scan
unfoldable pub fix_item : Settings → ℕ → Cache → Cache
fix_item o i c =
    let uci = c.items i in
    let slotted = if uci.prev == 0 then set_slot (uci.hash % o.hashsize) i c else c in
    let earlier = ltb 0 uci.expires && (c.next_scan == 0 || ltb uci.expires c.next_scan) in
    if ltb 0 uci.keysize
    then record slotted {
      next_scan = if earlier then uci.expires else c.next_scan;
      lru_head = if c.lru_head == 0 && uci.lru_prev == 0 then i else c.lru_head;
      lru_tail = if c.lru_tail == 0 && uci.lru_next == 0 then i else c.lru_tail;
      n_items = c.n_items + 1;
    }
    else record c { unused = i ∷ c.unused }

unfoldable pub fix_from : Settings → ℕ → ℕ → Cache → Cache
fix_from o zero i c = c
fix_from o (suc count) i c = fix_from o count (i + 1) (fix_item o i c)

unfoldable pub cache_fix : Settings → Cache → Cache
cache_fix o c =
    fix_from o (o.max_items - 1) 1 (record c { unused = []; next_scan = 0; n_items = 0 })

-- upsgi_cache_init and upsgi_cache_fix for a cache whose items and memory come from a file or another node
unfoldable pub restore : Settings → Option Blocks → (ℕ → Item) → (ℕ → ℕ) → Cache
restore o bitmap items memory = cache_fix o (record (init o bitmap memory) { items = items })

-- one item in cache_sweeper_free_items
unfoldable pub sweeper_item : Settings → ℕ → ℕ → Cache → Cache
sweeper_item o now i c =
    let started = if i == 1 then record c { next_scan = 0 } else c in
    let uci = c.items i in
    let later = record started { next_scan = uci.expires } in
    if uci.expires == 0
    then started
    else if leb uci.expires now
    then del_index o now i started
    else if started.next_scan == 0 || ltb uci.expires started.next_scan
    then later
    else started

unfoldable pub sweeper_from : Settings → ℕ → ℕ → ℕ → Cache → Cache
sweeper_from o now zero i c = c
sweeper_from o now (suc count) i c = sweeper_from o now count (i + 1) (sweeper_item o now i c)

-- cache_sweeper_free_items
unfoldable pub cache_sweeper_free_items : Settings → Bool → ℕ → Cache → Cache
cache_sweeper_free_items o no_expire now c =
    let swept = sweeper_from o now (o.max_items - 1) 1 c in
    if no_expire || (o.purge_lru || o.lazy_expire)
    then c
    else if c.next_scan == 0 || ltb now c.next_scan
    then c
    else swept

-- upsgi_cache_exists2: the index, 0 without one; none is the alarm
unfoldable pub exists2 : Settings → ℕ → List ℕ → Cache → Option (ℕ × Cache)
exists2 o now key c = get_index o now key c

-- the number of the item at an index, 0 for the index 0
unfoldable pub num_found : Settings → ℕ → Cache → ℕ × Cache
num_found o index c =
    let uci = c.items index in
    let num = num_of (read_bytes c.memory (uci.first_block * o.blocksize) 8) in
    if index == 0
    then (0, record c { miss = add64 c.miss 1 })
    else if (flags_of uci.flags).ungettable
    then (0, c)
    else (num, hit_item o false index c)

-- upsgi_cache_num2: the bits of the number; none is the alarm
unfoldable pub num2 : Settings → ℕ → List ℕ → Cache → Option (ℕ × Cache)
num2 o now key c = elim (get_index o now key c) [
  | none ↦ none
  | some r ↦ some (num_found o r.0 r.1)
]

-- a call, with its time
pub data Call : Type 0 where
  exists_call : ℕ → List ℕ → Call
  get_call : ℕ → Bool → List ℕ → Call
  num_call : ℕ → List ℕ → Call
  del_call : ℕ → List ℕ → Bool → Call
  set_call : ℕ → List ℕ → List ℕ → ℕ → ℕ → Call
  sweep_call : Bool → ℕ → Call

unfoldable pub call : Settings → Call → Cache → Option Cache
call o (exists_call now key) c = Option.map (λ r. r.1) (exists2 o now key c)
call o (get_call now moves key) c = Option.map (λ r. r.1) (get_value o now moves key c)
call o (num_call now key) c = Option.map (λ r. r.1) (num2 o now key c)
call o (del_call now key is_local) c = Option.map (λ r. r.1) (del2 o now key is_local c)
call o (set_call now key val expires flags) c =
    Option.map (λ r. r.1) (set2 o now key val expires flags c)
call o (sweep_call no_expire now) c = some (cache_sweeper_free_items o no_expire now c)

-- the calls one after the other; none is the alarm
unfoldable pub run : Settings → List Call → Cache → Option Cache
run o [] c = some c
run o (x ∷ calls) c = elim (call o x c) [ none ↦ none | some d ↦ run o calls d ]
