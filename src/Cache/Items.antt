-- ===== src/Cache/Items.antt =====
-- The items of a cache of core/cache.c, its hash table, the stack of unused items and the list of the least
-- recently used ones. A pointer to an item is its index. The bytes of the values are a memory from addresses;
-- `sent` lists the messages to other nodes, as command and key.
use upsgi.Common.{
  ℕ, ◌%◌, Bool, true, false, not, ◌&&◌, ◌||◌, zero, suc, List, [], ◌∷◌, ◌++◌, Option, none, some,
  ltb, leb, ◌==◌, if◌then◌else◌, length, sub64,
}
use mathlib.Core.Option
use upsgi.Wire.Range.{equal}
use upsgi.Cache.Bitmap.{Blocks, unmark_blocks}

-- what does not change; `hash` is uc->hash->func, and `nodes` says whether there are other nodes
pub record Settings : Type 0 where
  pub max_items : ℕ
  pub max_keysize : ℕ
  pub blocksize : ℕ
  pub max_item_size : ℕ
  pub hashsize : ℕ
  pub hash_of : List ℕ → ℕ
  pub math_initial : ℕ
  pub purge_lru : Bool
  pub lazy_expire : Bool
  pub use_last_modified : Bool
  pub clear_on_full : Bool
  pub sweep_on_full : ℕ
  pub nodes : Bool

-- struct upsgi_cache_item; `key` are the bytes that were put there last
pub record Item : Type 0 where
  pub flags : ℕ
  pub keysize : ℕ
  pub hash : ℕ
  pub valsize : ℕ
  pub first_block : ℕ
  pub expires : ℕ
  pub hits : ℕ
  pub prev : ℕ
  pub next : ℕ
  pub lru_prev : ℕ
  pub lru_next : ℕ
  pub key : List ℕ

-- struct upsgi_cache; `unused` is the stack, its top first, and `bitmap` is none without one
pub record Cache : Type 0 where
  pub items : ℕ → Item
  pub hashtable : ℕ → ℕ
  pub unused : List ℕ
  pub bitmap : Option Blocks
  pub n_items : ℕ
  pub last_modified_at : ℕ
  pub full : ℕ
  pub cache_hits : ℕ
  pub miss : ℕ
  pub next_scan : ℕ
  pub lru_head : ℕ
  pub lru_tail : ℕ
  pub memory : ℕ → ℕ
  pub sent : List (ℕ × List ℕ)

-- a write through the pointer to an item
unfoldable pub change : ℕ → (Item → Item) → Cache → Cache
change index f c = record c { items = λ j. if j == index then f (c.items j) else c.items j }

unfoldable pub lru_remove_item : ℕ → Cache → Cache
lru_remove_item index c =
    let curr = c.items index in
    let c' =
      if curr.lru_next == 0
      then record c { lru_tail = curr.lru_prev }
      else change curr.lru_next (λ x. record x { lru_prev = curr.lru_prev }) c in
    if curr.lru_prev == 0
    then record c' { lru_head = curr.lru_next }
    else change curr.lru_prev (λ x. record x { lru_next = curr.lru_next }) c'

unfoldable pub lru_add_item : ℕ → Cache → Cache
lru_add_item index c =
    let c' =
      if c.lru_tail == 0
      then record c { lru_head = index }
      else change c.lru_tail (λ x. record x { lru_next = index }) c in
    record (change index (λ x. record x { lru_next = 0; lru_prev = c.lru_tail }) c') {
      lru_tail = index;
    }

-- uc->hashtable[at] = slot
unfoldable pub set_slot : ℕ → ℕ → Cache → Cache
set_slot at slot c = record c { hashtable = λ b. if b == at then slot else c.hashtable b }

-- the item leaves the chain of its hash
unfoldable pub unlink_item : Settings → ℕ → Cache → Cache
unlink_item o index c =
    let uci = c.items index in
    let at = uci.hash % o.hashsize in
    let c1 =
      if uci.prev == 0
      then set_slot at uci.next c
      else change uci.prev (λ x. record x { next = uci.next }) c in
    let c2 = if uci.next == 0 then c1 else change uci.next (λ x. record x { prev = uci.prev }) c1 in
    if uci.prev == 0 && uci.next == 0 then set_slot at 0 c2 else c2

-- an item that holds a key is given back
unfoldable pub free_item : Settings → ℕ → Cache → Cache
free_item o index c =
    let uci = c.items index in
    let freed = record c {
      bitmap = Option.map (λ b. unmark_blocks b uci.first_block uci.valsize) c.bitmap;
      unused = index ∷ c.unused;
    } in
    let unlinked = unlink_item o index freed in
    let c' = if o.purge_lru then lru_remove_item index unlinked else unlinked in
    record c' { n_items = sub64 c'.n_items 1 }

unfoldable pub reset_item : ℕ → Cache → Cache
reset_item index =
    change index
      (λ x. record x { keysize = 0; valsize = 0; hash = 0; prev = 0; next = 0; expires = 0 })

-- upsgi_cache_del2 with an index that is not 0, up to its message; `now` is the time
unfoldable pub del_index : Settings → ℕ → ℕ → Cache → Cache
del_index o now index c =
    let c' = reset_item index (if ltb 0 (c.items index).keysize then free_item o index c else c) in
    if o.use_last_modified then record c' { last_modified_at = now } else c'

-- cache_send_udp_command, which is not called for UPSGI_CACHE_FLAG_LOCAL
unfoldable pub send_command : Settings → ℕ → List ℕ → Cache → Cache
send_command o cmd key c = if o.nodes then record c { sent = c.sent ++ (cmd, key) ∷ [] } else c

unfoldable pub check_lazy : Settings → ℕ → ℕ → Cache → ℕ × Cache
check_lazy o now slot c =
    let uci = c.items slot in
    if uci.expires == 0 || not o.lazy_expire
    then (slot, c)
    else if leb uci.expires now
    then (0, del_index o now slot c)
    else (slot, c)

-- a slot, or the alarm of a chain that is longer than there are items
pub data Lookup : Type 0 where
  at : ℕ → Lookup
  alarm : Lookup

unfoldable pub is_item : List ℕ → ℕ → Item → Bool
is_item key hash uci = uci.hash == hash && (uci.keysize == length key && equal uci.key key)

-- the loop behind `cycle`, with as many rounds left
unfoldable pub cycle : List ℕ → ℕ → (ℕ → Item) → ℕ → ℕ → Lookup
cycle key hash items zero slot = if (items slot).next == 0 then at 0 else alarm
cycle key hash items (suc rounds) slot =
    let slot' = (items slot).next in
    let rest = cycle key hash items rounds slot' in
    if slot' == 0 then at 0 else if is_item key hash (items slot') then at slot' else rest

unfoldable pub get_slot : Settings → List ℕ → Cache → Lookup
get_slot o key c =
    let hash = o.hash_of key in
    let slot = c.hashtable (hash % o.hashsize) in
    let uci = c.items slot in
    if slot == 0
    then at 0
    else if not (uci.hash % o.hashsize == hash % o.hashsize)
    then at 0
    else if is_item key hash uci
    then at slot
    else cycle key hash c.items o.max_items slot

-- upsgi_cache_get_index; none is the alarm
unfoldable pub get_index : Settings → ℕ → List ℕ → Cache → Option (ℕ × Cache)
get_index o now key c = elim (get_slot o key c) [
  | at slot ↦ some (if slot == 0 then (0, c) else check_lazy o now slot c)
  | alarm ↦ none
]

-- upsgi_cache_del2 with a key: whether it returns 0
unfoldable pub del2 : Settings → ℕ → List ℕ → Bool → Cache → Option (Bool × Cache)
del2 o now key is_local c = elim (get_index o now key c) [
  | none ↦ none
  | some r ↦
      let c' = del_index o now r.0 r.1 in
      some (
        if r.0 == 0
        then (false, r.1)
        else (true, if is_local then c' else send_command o 11 key c'))
]
