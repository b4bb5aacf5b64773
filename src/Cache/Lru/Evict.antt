-- ===== src/Cache/Lru/Evict.antt =====
-- Setting a new key of a cache that is full and purges the least recently used item.
use mathlib.Core.Path.{subst}
use upsgi.Common.{
  ℕ, zero, ◌+◌, ◌≤◌, ◌<◌, ◌≡◌, ◌≢◌, refl, ap, ◌∙◌, arith, true, false, List, [], ◌∷◌, ◌++◌, none,
  some, length,
}
use upsgi.Cache.Items.{Settings, Cache, Lookup, at, alarm, get_slot, get_index, del_index}
use upsgi.Cache.Ops.{
  flags_of, cache_full, done_item, insert_item, place_item, pop_item, set_found, set2,
}
use upsgi.Cache.Table.{Holds, Finds, found, missing, get_slot-Finds}
use upsgi.Cache.Table.Delete.{del_index-Deleted}
use upsgi.Cache.Table.Insert.{SameTable}
use upsgi.Cache.View.Same.{SameTable-IsCache, SameTable-lookup}
use upsgi.Cache.View.{Entry, lookup, IsCache, lookup-some, lookup-none}
use upsgi.Cache.View.Remove.{Only, del_index-Only, del_index-IsCache, del_index-absent, Holds-back}
use upsgi.Cache.View.Inserted
use upsgi.Cache.View.Put.{due, result, insert_item-result}
use upsgi.Cache.View.Steps.{Only-trans, popped, popped-IsCache, popped-lookup, top-idle}
use upsgi.Cache.View.Set.{Stores, given, done_item-Stores}
use upsgi.Cache.View.Purge.{counted-SameTable}
use upsgi.Cache.Lru.{IsLru}
use upsgi.Cache.Lru.Order.{SameLru, SameLru-IsLru, del_index-IsLru, placed-IsLru}

-- a key without an entry is not found
module _ (o : Settings) (now : ℕ) (key : List ℕ) (c : Cache) (v : IsCache o c)
    (gone : lookup o c key ≡ none) where
  pub none_holds : (j : ℕ) → ¬ Holds c key j
  none_holds j h = ground (arith, lookup-some o c v key j h, gone)

  get_index-missing : get_index o now key c ≡ some (0, c)
  unfolding get_index
  get_index-missing = step (get_slot o key c) refl (get_slot-Finds o c key v.chains v.table)
    where
      step :
          (r : Lookup) → get_slot o key c ≡ r → Finds c key r → get_index o now key c ≡ some (0, c)
      step (at i) e (found h) = absurd (none_holds i h)
      step (at zero) e (missing f) = ground (arith, e)
      step alarm e f = elim f [ ]

-- a full cache, and the first item of its list
module _ (o : Settings) (now : ℕ) (c : Cache) (v : IsCache o c) (i : ℕ) (l : List ℕ)
    (s : IsLru c (i ∷ l)) (live : 0 < (c.items i).keysize) (lru : o.purge_lru ≡ true)
    (no_sweep : o.sweep_on_full ≡ 0) (no_clear : o.clear_on_full ≡ false) where
  abbrev old_key : List ℕ
  old_key = (c.items i).key

  abbrev counted : Cache
  counted = record c { full = c.full + 1 }

  abbrev pub purged : Cache
  purged = del_index o now i counted

  nonzero : i ≢ 0
  nonzero = s.chain.1

  cache_full-purged : cache_full o now c ≡ purged
  unfolding cache_full
  cache_full-purged =
      let head : c.lru_head ≡ i = s.chain.0 in
      ground
        (arith, ap (λ k. del_index o now k counted) head, head, nonzero, lru, no_sweep, no_clear)

  same : SameTable c counted
  same = counted-SameTable (c.full + 1) c.next_scan c

  counted-IsCache : IsCache o counted
  counted-IsCache = SameTable-IsCache o c counted same v

  holder : Holds counted old_key i
  holder = record { index = nonzero; live = live; is_key = refl }

  purged-IsCache : IsCache o purged
  purged-IsCache = del_index-IsCache o now i old_key counted counted-IsCache holder

  purged-gone : lookup o purged old_key ≡ none
  purged-gone =
      lookup-none o purged purged-IsCache old_key
        (del_index-absent o now i old_key counted counted-IsCache holder)

  purged-others : (key' : List ℕ) → key' ≢ old_key → lookup o purged key' ≡ lookup o c key'
  purged-others key' ne =
      (del_index-Only o now i old_key counted counted-IsCache holder).others key' ne
      ∙ SameTable-lookup o c counted same v key'

  purged-unused : purged.unused ≡ i ∷ c.unused
  purged-unused = (del_index-Deleted o now i counted live).unused_of

  purged-IsLru : IsLru purged l
  purged-IsLru =
      let same_lru : SameLru c counted = record {
        next_of = λ j. refl;
        prev_of = λ j. refl;
        head_of = refl;
        tail_of = refl;
      } in
      subst (λ m. IsLru purged m) (ground arith)
        (del_index-IsLru o now i counted (i ∷ l) lru live
          (SameLru-IsLru c counted (i ∷ l) same_lru s) (ground arith))

  module _ (flags : ℕ) (key val : List ℕ) (expires : ℕ) (full : c.unused ≡ [])
      (gone : lookup o c key ≡ none) (some_key : 0 < length key) (fits : length val ≤ o.blocksize)
      (plain : (flags_of flags).math ≡ false) where
    fresh : (j : ℕ) → ¬ Holds purged key j
    fresh j h = none_holds o now key c v gone j (
        let back = Holds-back o now i old_key counted counted-IsCache holder key j h in
        record { index = back.index; live = back.live; is_key = back.is_key })

    top : purged.unused ≡ i ∷ []
    top = purged-unused ∙ ap (λ m. i ∷ m) full

    abbrev cp : Cache
    cp = popped o purged purged-IsCache i [] top

    vp : IsCache o cp
    vp = popped-IsCache o purged purged-IsCache i [] top

    idle : (i ≢ 0) × (i < o.max_items) × ((purged.items i).keysize ≡ 0)
    idle = top-idle o purged purged-IsCache i [] top

    fresh' : (j : ℕ) → ¬ Holds cp key j
    fresh' j h = fresh j (record { index = h.index; live = h.live; is_key = h.is_key })

    abbrev d : Cache
    d = result o now flags key val expires i cp vp.chains vp.table idle.2

    inserted : insert_item o now flags key val expires i i cp ≡ some d
    inserted = insert_item-result o now flags key val expires i cp vp.chains vp.table idle.2

    only : Only o key purged d
    only =
        Only-trans o key purged cp d
          (record {
            cache = vp;
            others = λ key' ne. popped-lookup o purged purged-IsCache i [] top key';
          })
          (Inserted.only o now flags key val expires i cp vp idle.2 nonzero idle.1 refl some_key
            fits fresh' plain)

    abbrev new_entry : Entry
    new_entry = record {
      flags = flags;
      expires = due o now flags key val expires i cp;
      value = val;
    }

    stores : Stores o flags key val purged (done_item o now (flags_of flags) key true d)
    stores =
        done_item-Stores o now flags key val expires purged purged-IsCache some_key fits plain d
          new_entry only
          (Inserted.new_entry o now flags key val expires i cp vp idle.2 nonzero idle.1 refl
            some_key fits fresh' plain)
          refl (given refl)

    abbrev done_cache : Cache
    done_cache = (done_item o now (flags_of flags) key true d).1

    done_item-true : done_item o now (flags_of flags) key true d ≡ (true, done_cache)
    unfolding done_item
    done_item-true = refl

    is_stored : (e : Entry) × (lookup o done_cache key ≡ some e) × (e.value ≡ val)
    unfolding done_item
    is_stored = let (e, here, value, rest) = stores.stored refl in (e, here, value)

    list : IsLru done_cache (l ++ i ∷ [])
    list =
        let purged_list : IsLru cp l =
          SameLru-IsLru purged cp l
            (record { next_of = λ j. refl; prev_of = λ j. refl; head_of = refl; tail_of = refl })
            purged-IsLru in
        placed-IsLru o now flags key val expires i cp d l lru inserted nonzero purged_list
          (ground (arith, s.apart))

    pop_item-done :
        pop_item o now flags key val expires purged
        ≡ some (done_item o now (flags_of flags) key true d)
    unfolding pop_item place_item
    pop_item-done = ground (arith, top, purged-IsCache.plain, inserted)

    set_found-done : set_found o now flags key val expires 0 c ≡ some (true, done_cache)
    unfolding set_found
    set_found-done =
        let room : elim c.unused [ [] ↦ cache_full o now c | index ∷ unused ↦ c ] ≡ purged =
          ground (arith, full, cache_full-purged) in
        ap (pop_item o now flags key val expires) room ∙ pop_item-done ∙ ap some done_item-true

    new_ne : old_key ≢ key
    new_ne e = none_holds o now key c v gone i (record { index = nonzero; live = live; is_key = e })

    -- A new key is set in a sound cache without a bitmap that is full and purges the least recently used
    -- item, with no sweep and no clearing, and with sizes that it takes and no arithmetic: the call returns
    -- 0, the value stands under the key, the key of the first item of the list has no entry any more, all
    -- other keys have theirs, and the item of the new key stands at the end of the list.
    pub set2-evicts :
        length key ≤ o.max_keysize
        → 0 < length val
        → length val ≤ o.max_item_size
        → (r : Cache) × (set2 o now key val expires flags c ≡ some (true, r))
          × ((e : Entry) × (lookup o r key ≡ some e) × (e.value ≡ val))
          × (lookup o r (c.items i).key ≡ none)
          × ((key' : List ℕ)
              → key' ≢ key
              → key' ≢ (c.items i).key
              → lookup o r key' ≡ lookup o c key')
          × IsLru r (l ++ i ∷ [])
    unfolding set2
    set2-evicts key_small some_val val_small = (
      done_cache,
      ground (
        arith,
        plain,
        some_key,
        some_val,
        key_small,
        val_small,
        get_index-missing o now key c v gone,
        set_found-done,
      ),
      is_stored,
      stores.only.others old_key new_ne ∙ purged-gone,
      (λ key' ne ne'. stores.only.others key' ne ∙ purged-others key' ne'),
      list,
    )
