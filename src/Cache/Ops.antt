-- ===== src/Cache/Ops.antt =====
-- Reading and setting items in core/cache.c.
use mathlib.Core.Option
use upsgi.Common.{
  ℕ, zero, suc, ◌+◌, ◌-◌, ◌*◌, ◌%◌, ◌^◌, Bool, true, false, not, ◌&&◌, ◌||◌, List, [], ◌∷◌, Option,
  none, some, ltb, leb, ◌==◌, if◌then◌else◌, length, add64,
}
use upsgi.Cache.Bitmap.{unmark_blocks, place}
pub use upsgi.Cache.Values.{Flags}
unfoldable pub use upsgi.Cache.Values.{
  flag, flags_of, write_bytes, read_bytes, num_of, div_signed, do_math, value_bytes,
}
use upsgi.Cache.Items.{
  Settings, Item, Cache, change, lru_remove_item, lru_add_item, set_slot, del_index, send_command,
  get_index,
}

-- the loop of cache_full over the items from `i` on that have expired: how many go, and the cache
unfoldable pub sweep_from : Settings → ℕ → ℕ → ℕ → ℕ → Cache → ℕ × Cache
sweep_from o now zero i removed c = (removed, c)
sweep_from o now (suc count) i removed c =
    let uci = c.items i in
    let expired = ltb 0 uci.expires && leb uci.expires now in
    sweep_from o now count (i + 1) (if expired then removed + 1 else removed)
      (if expired then send_command o 11 [] (del_index o now i c) else c)

-- the loop of cache_full that deletes every item
unfoldable pub clear_from : Settings → ℕ → ℕ → ℕ → Cache → Cache
clear_from o now zero i c = c
clear_from o now (suc count) i c =
    clear_from o now count (i + 1) (send_command o 11 [] (del_index o now i c))

unfoldable pub cache_full : Settings → ℕ → Cache → Cache
cache_full o now c =
    let counted = record c { full = c.full + 1 } in
    let purged =
      if o.purge_lru && not (c.lru_head == 0)
      then del_index o now c.lru_head counted
      else counted in
    let swept =
      sweep_from o now (o.max_items - 1) 1 0
        (record purged { next_scan = add64 now o.sweep_on_full }) in
    let sweeps = ltb 0 o.sweep_on_full && leb purged.next_scan now in
    let removed = if sweeps then swept.0 else 0 in
    let c' = if sweeps then swept.1 else purged in
    if o.clear_on_full && removed == 0 then clear_from o now (o.max_items - 1) 1 c' else c'

-- when an item expires, and the next scan
unfoldable pub expiry : Settings → ℕ → Flags → ℕ → Cache → ℕ × Cache
expiry o now f expires c =
    let later = add64 expires now in
    let scanned =
      if c.next_scan == 0 || ltb later c.next_scan then record c { next_scan = later } else c in
    if o.purge_lru || (expires == 0 || f.absexpire) then (expires, c) else (later, scanned)

-- the last item of a chain; none is a chain that does not end
unfoldable pub last_link : (ℕ → Item) → ℕ → ℕ → Option ℕ
last_link items zero slot = none
last_link items (suc rounds) slot =
    let next = (items slot).next in
    let rest = last_link items rounds next in if next == 0 then some slot else rest

-- the item joins the chain of its hash
unfoldable pub link_item : Settings → ℕ → Cache → Option Cache
link_item o index c =
    let slot = (c.items index).hash % o.hashsize in
    let last_index = c.hashtable slot in
    if last_index == 0
    then some (set_slot slot index c)
    else elim (last_link c.items o.max_items last_index) [
      | none ↦ none
      | some last ↦ some (
          change index (λ x. record x { prev = last })
            (change last (λ x. record x { next = index }) c))
    ]

-- the fields of a new item, and its value
unfoldable pub fill_item : Settings → Flags → ℕ → List ℕ → List ℕ → ℕ → ℕ → ℕ → Cache → Cache
fill_item o f flags key val expires first_block index c =
    let bytes = value_bytes f o.math_initial val in
    record (change index
      (λ x. record x {
        first_block = first_block;
        expires = expires;
        hash = o.hash_of key;
        hits = 0;
        flags = flags;
        key = key;
        valsize = length val;
        keysize = length key;
        prev = 0;
        next = 0;
      })
      c) { memory = write_bytes (first_block * o.blocksize) bytes c.memory }

-- a new item at an index that was unused, with its place
unfoldable pub insert_item : Settings → ℕ → ℕ → List ℕ → List ℕ → ℕ → ℕ → ℕ → Cache → Option Cache
insert_item o now flags key val expires first_block index c =
    let f = flags_of flags in
    let listed = if o.purge_lru then lru_add_item index c else c in
    let (due, scanned) = expiry o now f expires listed in
    elim (link_item o index (fill_item o f flags key val due first_block index scanned)) [
      | none ↦ none
      | some linked ↦ some (record linked { n_items = add64 linked.n_items 1 })
    ]

-- what is done behind a successful change
unfoldable pub done_item : Settings → ℕ → Flags → List ℕ → Bool → Cache → Bool × Cache
done_item o now f key ret c =
    let c' = if o.use_last_modified then record c { last_modified_at = now } else c in
    (ret, if ret && not f.local then send_command o 10 key c' else c')

-- a new item at an index that was popped from the stack
unfoldable pub place_item :
    Settings → ℕ → ℕ → List ℕ → List ℕ → ℕ → ℕ → Cache → Option (Bool × Cache)
place_item o now flags key val expires index c =
    let finish : Option Cache → Option (Bool × Cache) =
      Option.map (done_item o now (flags_of flags) key true) in
    let refused =
      change index (λ x. record x { first_block = 2 ^ 64 - 1 })
        (record c { unused = index ∷ c.unused }) in
    elim c.bitmap [
      | none ↦ finish (insert_item o now flags key val expires index index c)
      | some b ↦ elim (place b (length val)) [
        | none ↦ some (false, cache_full o now refused)
        | some r ↦
            finish
              (insert_item o now flags key val expires r.0 index (record c { bitmap = some r.1 }))
      ]
    ]

unfoldable pub pop_item : Settings → ℕ → ℕ → List ℕ → List ℕ → ℕ → Cache → Option (Bool × Cache)
pop_item o now flags key val expires c = elim c.unused [
  | [] ↦ some (false, c)
  | index ∷ unused ↦ place_item o now flags key val expires index (record c { unused = unused })
]

-- the time of an item that is set again, and its place in the list of the least recently used ones
unfoldable pub renew_item : Settings → ℕ → Flags → ℕ → ℕ → Cache → Cache
renew_item o now f expires index c =
    let listed = if o.purge_lru then lru_add_item index (lru_remove_item index c) else c in
    let (due, scanned) = expiry o now f expires listed in
    if f.fixexpire then c else change index (λ x. record x { expires = due }) scanned

-- the value of an item that is set again, at its place
unfoldable pub rewrite_item : Settings → Flags → List ℕ → ℕ → ℕ → Cache → Cache
rewrite_item o f val first_block index c =
    let address = first_block * o.blocksize in
    let num = num_of (read_bytes c.memory address 8) in
    record (change index (λ x. record x { first_block = first_block; valsize = length val }) c) {
      memory = write_bytes address (value_bytes f num val) c.memory;
    }

unfoldable pub update_item : Settings → ℕ → ℕ → List ℕ → List ℕ → ℕ → ℕ → Cache → Bool × Cache
update_item o now flags key val expires index c =
    let f = flags_of flags in
    let c' = renew_item o now f expires index c in
    let uci = c'.items index in
    elim c'.bitmap [
      | none ↦ done_item o now f key true (rewrite_item o f val uci.first_block index c')
      | some b ↦ elim (place b (length val)) [
        | none ↦ (false, cache_full o now c')
        | some r ↦
            let moved = record c' {
              bitmap = some (unmark_blocks r.1 uci.first_block uci.valsize);
            } in
            done_item o now f key true (rewrite_item o f val r.0 index moved)
      ]
    ]

-- a key that was looked up is set: at a new item, or at the one that has it
unfoldable pub set_found :
    Settings → ℕ → ℕ → List ℕ → List ℕ → ℕ → ℕ → Cache → Option (Bool × Cache)
set_found o now flags key val expires index c =
    let f = flags_of flags in
    let room : Cache = elim c.unused [ [] ↦ cache_full o now c | i ∷ unused ↦ c ] in
    if index == 0
    then pop_item o now flags key val expires room
    else if f.update
    then some (update_item o now flags key val expires index c)
    else some (done_item o now f key false c)

-- upsgi_cache_set2: whether it returns 0; none is the alarm
unfoldable pub set2 : Settings → ℕ → List ℕ → List ℕ → ℕ → ℕ → Cache → Option (Bool × Cache)
set2 o now key val expires flags c =
    let f = flags_of flags in
    if length key == 0 || length val == 0
    then some (false, c)
    else if ltb o.max_keysize (length key) || ltb o.max_item_size (length val)
    then some (false, c)
    else if f.math && not (length val == 8)
    then some (false, c)
    else elim (get_index o now key c) [
      | none ↦ none
      | some r ↦ set_found o now flags key val expires r.0 r.1
    ]

-- a value that is read counts as a hit; upsgi_cache_get2 and _get3 also move it in the list of the least
-- recently used items, upsgi_cache_get4 does not
unfoldable pub hit_item : Settings → Bool → ℕ → Cache → Cache
hit_item o moves index c =
    let c' = if moves && o.purge_lru then lru_add_item index (lru_remove_item index c) else c in
    record (change index (λ x. record x { hits = add64 x.hits 1 }) c') {
      cache_hits = add64 c'.cache_hits 1;
    }

-- the item at an index and its value, or NULL for the index 0
unfoldable pub get_found : Settings → Bool → ℕ → Cache → Option (Item × List ℕ) × Cache
get_found o moves index c =
    let uci = c.items index in
    let value = read_bytes c.memory (uci.first_block * o.blocksize) uci.valsize in
    if index == 0
    then (none, record c { miss = add64 c.miss 1 })
    else if (flags_of uci.flags).ungettable
    then (none, c)
    else (some (uci, value), hit_item o moves index c)

-- upsgi_cache_get2, _get3 and _get4; none is the alarm
unfoldable pub get_value :
    Settings → ℕ → Bool → List ℕ → Cache → Option (Option (Item × List ℕ) × Cache)
get_value o now moves key c = elim (get_index o now key c) [
  | none ↦ none
  | some r ↦ some (get_found o moves r.0 r.1)
]
