-- ===== src/Cache/View/Remove.antt =====
-- upsgi_cache_del2 and upsgi_cache_get_index over the map of a cache.

use upsgi.Common.{
  ℕ, ◌≤◌, ◌<◌, ◌≡◌, ◌≢◌, ◌⊎◌, refl, ap, sym, ◌∙◌, arith, Bool, true, false, not, ◌||◌, List, [],
  Option, none, some, leb, ◌==◌, if◌then◌else◌,
}
use upsgi.Cache.Items.{
  Settings, Item, Cache, Lookup, at, alarm, del_index, free_item, reset_item, change, unlink_item,
  set_slot, lru_remove_item, check_lazy, get_index, send_command, del2,
}
use upsgi.Cache.Table.{bucket, Holds, Finds, found, missing, get_slot-Finds}
use upsgi.Cache.Table.Delete.{content, Deleted, del_index-Deleted, chains_without}
use upsgi.Cache.Table.Unlink.{Deleted-IsTable}
use upsgi.Cache.Table.Insert.{SameTable, SameTable-refl}
use upsgi.Cache.View.Same.{SameTable-IsCache, SameTable-lookup, send_command-SameTable}
use upsgi.Cache.View.{Holds-unique, entry_of, lookup, IsCache, lookup-none, lookup-same}

-- A step that touches only what stands under one key.
pub record Only (o : Settings) (key : List ℕ) (c c' : Cache) : Type 0 where
  pub cache : IsCache o c'
  pub others : (key' : List ℕ) → key' ≢ key → lookup o c' key' ≡ lookup o c key'

module _ (o : Settings) (now i : ℕ) (c : Cache) where
  memory-del_index : (del_index o now i c).memory ≡ c.memory
  unfolding del_index free_item reset_item change unlink_item set_slot lru_remove_item
  memory-del_index = ground arith

  bitmap-del_index : c.bitmap ≡ none → (del_index o now i c).bitmap ≡ none
  unfolding del_index free_item reset_item change unlink_item set_slot lru_remove_item
  bitmap-del_index e = ground (arith, e)

module _ (o : Settings) (now i : ℕ) (key : List ℕ) (c : Cache) (v : IsCache o c)
    (h : Holds c key i) where
  abbrev c' : Cache
  c' = del_index o now i c

  deleted : Deleted o i c c'
  deleted = del_index-Deleted o now i c h.live

  content_back : (j : ℕ) → j ≢ i → content (c'.items j) ≡ content (c.items j)
  content_back = deleted.content_of

  live_ne : (j : ℕ) → 0 < (c'.items j).keysize → j ≢ i
  live_ne j live e = ground (arith, live, ap (λ k. (c'.items k).keysize) e, deleted.dead)

  pub del_index-IsCache : IsCache o c'
  del_index-IsCache = record {
    chains = chains_without (bucket o (c.items i)) i v.chains;
    table = Deleted-IsTable o i c c' v.chains v.table deleted h.index h.live;
    plain = bitmap-del_index o now i c v.plain;
    place = λ j nz live.
        let same = content_back j (live_ne j live) in
        ap (λ (x : Item). x.first_block) same
        ∙ v.place j nz (omega (arith, ap (λ (x : Item). x.keysize) same, live));
    size = λ j nz live.
        let same = content_back j (live_ne j live) in
        let small = v.size j nz (omega (arith, ap (λ (x : Item). x.keysize) same, live)) in
        omega (arith, ap (λ (x : Item). x.valsize) same, small);
  }

  pub Holds-back : (key' : List ℕ) (j : ℕ) → Holds c' key' j → Holds c key' j
  Holds-back key' j hj =
      let same = content_back j (live_ne j hj.live) in
      record {
        index = hj.index;
        live = omega (arith, ap (λ (x : Item). x.keysize) same, hj.live);
        is_key = sym (ap (λ (x : Item). x.key) same) ∙ hj.is_key;
      }

  Holds-forth :
      (key' : List ℕ) (j : ℕ)
      → key' ≢ key
      → Holds c key' j
      → Holds c' key' j × (entry_of o c'.memory (c'.items j) ≡ entry_of o c.memory (c.items j))
  Holds-forth key' j ne hj =
      let other : j ≢ i = λ e. ne (sym hj.is_key ∙ ap (λ k. (c.items k).key) e ∙ h.is_key) in
      let same = content_back j other in
      (
        record {
          index = hj.index;
          live = omega (arith, ap (λ (x : Item). x.keysize) same, hj.live);
          is_key = ap (λ (x : Item). x.key) same ∙ hj.is_key;
        },
        ap (λ m. entry_of o m (c'.items j)) (memory-del_index o now i c)
            ∙ ap (λ (x : Item). entry_of o c.memory x) same,
      )

  pub del_index-Only : Only o key c c'
  del_index-Only = record {
    cache = del_index-IsCache;
    others = λ key' ne.
        lookup-same o c c' key' v del_index-IsCache (λ j. Holds-forth key' j ne) (Holds-back key');
  }

  pub del_index-absent : (j : ℕ) → ¬ Holds c' key j
  del_index-absent j hj = live_ne j hj.live (Holds-unique o c v key j i (Holds-back key j hj) h)

pub Only-SameTable :
    (o : Settings) (key : List ℕ) (c d d' : Cache)
    → SameTable d d'
    → Only o key c d
    → Only o key c d'
Only-SameTable o key c d d' s only = record {
  cache = SameTable-IsCache o d d' s only.cache;
  others = λ key' ne. SameTable-lookup o d d' s only.cache key' ∙ only.others key' ne;
}

pub Only-refl : (o : Settings) (key : List ℕ) (c : Cache) → IsCache o c → Only o key c c
Only-refl o key c v = record { cache = v; others = λ key' ne. refl }

-- What a search for a key gives: the item that holds it and the cache as it was, or none, if no item held the
-- key, or one that had expired, which is deleted.
pub data Got (o : Settings) (now : ℕ) (key : List ℕ) (c : Cache) : Option (ℕ × Cache) → Type 0 where
  present : {i : ℕ} → Holds c key i → Got o now key c (some (i, c))
  absent :
      {c' : Cache}
      → Only o key c c'
      → ((j : ℕ) → ¬ Holds c' key j)
      → (c.unused ≢ [] → c'.unused ≢ [])
      → ((j : ℕ)
          → Holds c key j
          → (o.lazy_expire ≡ true) × (0 < (c.items j).expires) × ((c.items j).expires ≤ now))
      → Got o now key c (some (0, c'))

module _ (o : Settings) (now : ℕ) (key : List ℕ) (c : Cache) (v : IsCache o c) where
  lazy-Got :
      (i : ℕ) (kept expired : Bool)
      → ((c.items i).expires == 0 || not o.lazy_expire) ≡ kept
      → leb (c.items i).expires now ≡ expired
      → Holds c key i
      → Got o now key c
          (some (if kept then (i, c) else if expired then (0, del_index o now i c) else (i, c)))
  lazy-Got i true expired e e' h = present h
  lazy-Got i false false e e' h = present h
  lazy-Got i false true e e' h =
      absent (del_index-Only o now i key c v h) (del_index-absent o now i key c v h) stays (λ j hj.
        let same : j ≡ i = Holds-unique o c v key j i hj h in
        let expires : (c.items j).expires ≡ (c.items i).expires =
          ap (λ k. (c.items k).expires) same in
        (ground (arith, e), ground (arith, e, expires), ground (arith, e', expires)))
    where
      stays : c.unused ≢ [] → (del_index o now i c).unused ≢ []
      stays some_unused z = ground (arith, (del_index-Deleted o now i c h.live).unused_of, z)

  pub get_index-Got : Got o now key c (get_index o now key c)
  unfolding get_index check_lazy
  get_index-Got = step (get_slot-Finds o c key v.chains v.table)
    where
      step :
          {r : Lookup}
          → Finds c key r
          → Got o now key c (elim r [
            | at slot ↦ some (if slot == 0 then (0, c) else check_lazy o now slot c)
            | alarm ↦ none
          ])
      step (found {i} h) =
          let test : (i == 0) ≡ false = ground (arith, h.index) in
          rw test (
            lazy-Got i ((c.items i).expires == 0 || not o.lazy_expire) (leb (c.items i).expires now)
              refl refl h)
      step (missing f) = absent (Only-refl o key c v) f (λ u. u) (λ j h. absurd (f j h))

  sent :
      (is_local : Bool) (d : Cache) → SameTable d (if is_local then d else send_command o 11 key d)
  sent true d = SameTable-refl d
  sent false d = send_command-SameTable o 11 key d

  -- Of a sound cache without a bitmap, upsgi_cache_del2 of a key ends, the key has no entry behind it, and
  -- every other key has the entry that it had; it returns 0 when an item held the key that had not expired.
  pub del2-Only :
      (is_local : Bool)
      → (r : Bool × Cache) × (del2 o now key is_local c ≡ some r)
        × Only o key c r.1
        × (lookup o r.1 key ≡ none)
        × ((j : ℕ)
            → Holds c key j
            → (c.items j).expires ≡ 0 ⊎ now < (c.items j).expires
            → r.0 ≡ true)
  unfolding del2
  del2-Only is_local = step get_index-Got
    where
      step :
          {g : Option (ℕ × Cache)}
          → Got o now key c g
          → (r : Bool × Cache) × (elim g [
            | none ↦ none
            | some r ↦
                let c' = del_index o now r.0 r.1 in
                some (
                  if r.0 == 0
                  then (false, r.1)
                  else (true, if is_local then c' else send_command o 11 key c'))
          ]
              ≡ some r)
            × Only o key c r.1
            × (lookup o r.1 key ≡ none)
            × ((j : ℕ)
                → Holds c key j
                → (c.items j).expires ≡ 0 ⊎ now < (c.items j).expires
                → r.0 ≡ true)
      step (present {i} h) =
          let d = del_index o now i c in
          let same = sent is_local d in
          let sent_d = if is_local then d else send_command o 11 key d in
          let only = Only-SameTable o key c d sent_d same (del_index-Only o now i key c v h) in
          let gone : lookup o sent_d key ≡ none =
            SameTable-lookup o d sent_d same (del_index-IsCache o now i key c v h) key
            ∙ lookup-none o d (del_index-IsCache o now i key c v h) key
                (del_index-absent o now i key c v h) in
          ((true, sent_d), ground (arith, h.index), only, gone, (λ j hj e. refl))
      step (absent {c'} only none_holds stays expired) = (
        (false, c'),
        refl,
        only,
        lookup-none o c' only.cache key none_holds,
        (λ j h e. ground (arith, expired j h, e)),
      )
