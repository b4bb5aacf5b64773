-- ===== src/Cache/View/Purge.antt =====
-- Deleting items by their index over the map of a cache: cache_full and the sweeper of core/cache.c.
use mathlib.Core.Path.{subst}
use upsgi.Common.{
  ℕ, zero, suc, ◌+◌, ◌≤◌, ◌<◌, ◌-◌, ◌≡◌, ◌≢◌, ◌⊎◌, inl, inr, refl, ap, sym, ◌∙◌, arith, Bool, true,
  false, not, ◌&&◌, List, [], ltb, leb, ◌==◌, if◌then◌else◌, add64,
}
use upsgi.Cache.Items.{Settings, Item, Cache, change, reset_item, del_index, send_command}
use upsgi.Cache.Ops.{sweep_from, clear_from, cache_full}
use upsgi.Cache.Links.{has, distinct, equal_or_not, Chain, Chain-frame}
use upsgi.Cache.Table.{nexts, prevs, bucket, IsKeyed, IsTable, Holds}
use upsgi.Cache.Table.Insert.{SameTable}
use upsgi.Cache.View.Same.{
  SameTable-IsCache, SameTable-SameKeys, SameKeys-Holds_back, send_command-SameTable,
}
use upsgi.Cache.View.{IsCache}
use upsgi.Cache.View.Remove.{del_index-IsCache, Holds-back}

-- a step that leaves a cache with no other keys than before
pub record Shrunk (o : Settings) (c c' : Cache) : Type 0 where
  pub cache : IsCache o c'
  pub back : (key : List ℕ) (j : ℕ) → Holds c' key j → Holds c key j

pub Shrunk-refl : (o : Settings) (c : Cache) → IsCache o c → Shrunk o c c
Shrunk-refl o c v = record { cache = v; back = λ key j h. h }

pub Shrunk-trans : (o : Settings) (c d e : Cache) → Shrunk o c d → Shrunk o d e → Shrunk o c e
Shrunk-trans o c d e a b = record {
  cache = b.cache;
  back = λ key j h. a.back key j (b.back key j h);
}

pub Shrunk-SameTable : (o : Settings) (c d e : Cache) → Shrunk o c d → SameTable d e → Shrunk o c e
Shrunk-SameTable o c d e a s = record {
  cache = SameTable-IsCache o d e s a.cache;
  back = λ key j h. a.back key j (SameKeys-Holds_back o d e (SameTable-SameKeys o d e s) key j h);
}

-- an item that holds no key
module _ (o : Settings) (now i : ℕ) (c : Cache) (v : IsCache o c)
    (idle : (c.items i).keysize ≡ 0) where
  abbrev c' : Cache
  c' = del_index o now i c

  t : IsTable o c v.chains
  t = v.table

  items_of : (j : ℕ) → j ≢ i → c'.items j ≡ c.items j
  unfolding del_index reset_item change
  items_of j ne = ground (arith, idle, ne)

  dead : (c'.items i).keysize ≡ 0
  unfolding del_index reset_item change
  dead = ground (arith, idle)

  unused_of : c'.unused ≡ c.unused
  unfolding del_index reset_item change
  unused_of = ground (arith, idle)

  slot_of : (b : ℕ) → c'.hashtable b ≡ c.hashtable b
  unfolding del_index reset_item change
  slot_of b = ground (arith, idle)

  bitmap_of : c'.bitmap ≡ c.bitmap
  unfolding del_index reset_item change
  bitmap_of = ground (arith, idle)

  outside : (b j : ℕ) → has j (v.chains b) ≡ true → j ≢ i
  outside b j h e = ground (arith, (t.keyed b j h).filled, ap (λ k. (c.items k).keysize) e, idle)

  live_ne : (j : ℕ) → 0 < (c'.items j).keysize → j ≢ i
  live_ne j live e = ground (arith, live, ap (λ k. (c'.items k).keysize) e, dead)

  live_back : (j : ℕ) → 0 < (c'.items j).keysize → 0 < (c.items j).keysize
  live_back j live = subst (λ (x : Item). 0 < x.keysize) (items_of j (live_ne j live)) live

  idle-IsCache : IsCache o c'
  idle-IsCache = record {
    chains = v.chains;
    table = record {
      linked = λ b.
          subst (λ r. Chain (nexts c') (prevs c') 0 r (v.chains b)) (sym (slot_of b))
            (Chain-frame (nexts c) (prevs c) (nexts c') (prevs c') 0 (c.hashtable b) (v.chains b)
              (λ j h. (
                ap (λ (x : Item). x.next) (items_of j (outside b j h)),
                ap (λ (x : Item). x.prev) (items_of j (outside b j h)),
              ))
              (t.linked b));
      apart = t.apart;
      keyed = λ b j h.
          subst (λ (x : Item). IsKeyed o b x) (sym (items_of j (outside b j h))) (t.keyed b j h);
      below = t.below;
      reached = λ j nz live.
          subst (λ (x : Item). has j (v.chains (bucket o x)) ≡ true)
            (sym (items_of j (live_ne j live))) (t.reached j nz (live_back j live));
      keys = λ b j k hj hk e. t.keys b j k hj hk (
          sym (ap (λ (x : Item). x.key) (items_of j (outside b j hj)))
          ∙ e
          ∙ ap (λ (x : Item). x.key) (items_of k (outside b k hk)));
      idle = λ j h.
          let (nz, small, empty) = t.idle j (subst (λ l. has j l ≡ true) unused_of h) in
          (
            nz,
            small,
            elim (equal_or_not j i) [
              | inl (test, e) ↦ ap (λ k. (c'.items k).keysize) e ∙ dead
              | inr (test, ne) ↦ ap (λ (x : Item). x.keysize) (items_of j ne) ∙ empty
            ],
          );
      once = subst (λ l. distinct l ≡ true) (sym unused_of) t.once;
    };
    plain = bitmap_of ∙ v.plain;
    place = λ j nz live.
        ap (λ (x : Item). x.first_block) (items_of j (live_ne j live))
        ∙ v.place j nz (live_back j live);
    size = λ j nz live.
        subst (λ (x : Item). x.valsize ≤ o.blocksize) (sym (items_of j (live_ne j live)))
          (v.size j nz (live_back j live));
  }

  idle-Shrunk : Shrunk o c c'
  idle-Shrunk = record {
    cache = idle-IsCache;
    back = λ key j h. record {
      index = h.index;
      live = live_back j h.live;
      is_key = sym (ap (λ (x : Item). x.key) (items_of j (live_ne j h.live))) ∙ h.is_key;
    };
  }

zero_or_not : (n : ℕ) → (n ≡ 0) ⊎ (0 < n)
zero_or_not n = ground arith

-- any item
pub del_index-Shrunk :
    (o : Settings) (now i : ℕ) (c : Cache) → IsCache o c → i ≢ 0 → Shrunk o c (del_index o now i c)
del_index-Shrunk o now i c v nz = elim (zero_or_not (c.items i).keysize) [
  | inl idle ↦ idle-Shrunk o now i c v idle
  | inr live ↦
      let h : Holds c (c.items i).key i = record { index = nz; live = live; is_key = refl } in
      record {
        cache = del_index-IsCache o now i (c.items i).key c v h;
        back = Holds-back o now i (c.items i).key c v h;
      }
]

sweep_from-Shrunk :
    (o : Settings) (now count i removed : ℕ) (c : Cache)
    → IsCache o c
    → i ≢ 0
    → Shrunk o c (sweep_from o now count i removed c).1
unfolding sweep_from
sweep_from-Shrunk o now zero i removed c v nz = Shrunk-refl o c v
sweep_from-Shrunk o now (suc count) i removed c v nz =
    let expired = ltb 0 (c.items i).expires && leb (c.items i).expires now in
    let d = if expired then send_command o 11 [] (del_index o now i c) else c in
    let one : Shrunk o c d = swept_item expired in
    Shrunk-trans o c d
      (sweep_from o now count (i + 1) (if expired then removed + 1 else removed) d).1 one
      (sweep_from-Shrunk o now count (i + 1) (if expired then removed + 1 else removed) d one.cache
        (omega arith))
  where
    swept_item :
        (b : Bool) → Shrunk o c (if b then send_command o 11 [] (del_index o now i c) else c)
    swept_item true =
        let d = del_index o now i c in
        Shrunk-SameTable o c d (send_command o 11 [] d) (del_index-Shrunk o now i c v nz)
          (send_command-SameTable o 11 [] d)
    swept_item false = Shrunk-refl o c v

clear_from-Shrunk :
    (o : Settings) (now count i : ℕ) (c : Cache)
    → IsCache o c
    → i ≢ 0
    → Shrunk o c (clear_from o now count i c)
unfolding clear_from
clear_from-Shrunk o now zero i c v nz = Shrunk-refl o c v
clear_from-Shrunk o now (suc count) i c v nz =
    let d = del_index o now i c in
    let e = send_command o 11 [] d in
    let one =
      Shrunk-SameTable o c d e (del_index-Shrunk o now i c v nz)
        (send_command-SameTable o 11 [] d) in
    Shrunk-trans o c e (clear_from o now count (i + 1) e) one
      (clear_from-Shrunk o now count (i + 1) e one.cache (omega arith))

branch :
    (o : Settings) (c : Cache) (b : Bool) (x y : Cache)
    → (b ≡ true → Shrunk o c x)
    → Shrunk o c y
    → Shrunk o c (if b then x else y)
branch o c true x y hx hy = hx refl
branch o c false x y hx hy = hy

-- the counters of a cache
pub counted-SameTable :
    (full next_scan : ℕ) (c : Cache) → SameTable c (record c { full = full; next_scan = next_scan })
counted-SameTable full next_scan c = record {
  next_of = λ j. refl;
  prev_of = λ j. refl;
  content_of = λ j. refl;
  slot_of = λ b. refl;
  unused_of = refl;
  memory_of = refl;
  bitmap_of = refl;
}

pub cache_full-Shrunk :
    (o : Settings) (now : ℕ) (c : Cache) → IsCache o c → Shrunk o c (cache_full o now c)
unfolding cache_full
cache_full-Shrunk o now c v =
    let counted = record c { full = c.full + 1 } in
    let s1 : Shrunk o c counted =
      Shrunk-SameTable o c c counted (Shrunk-refl o c v)
        (counted-SameTable (c.full + 1) c.next_scan c) in
    let purges = o.purge_lru && not (c.lru_head == 0) in
    let purged = if purges then del_index o now c.lru_head counted else counted in
    let s2 : Shrunk o c purged =
      branch o c purges (del_index o now c.lru_head counted) counted
        (λ e.
          Shrunk-trans o c counted (del_index o now c.lru_head counted) s1
            (del_index-Shrunk o now c.lru_head counted s1.cache (ground (arith, e))))
        s1 in
    let scanned = record purged { next_scan = add64 now o.sweep_on_full } in
    let s3 : Shrunk o c scanned =
      Shrunk-SameTable o c purged scanned s2
        (counted-SameTable purged.full (add64 now o.sweep_on_full) purged) in
    let swept = sweep_from o now (o.max_items - 1) 1 0 scanned in
    let s4 : Shrunk o c swept.1 =
      Shrunk-trans o c scanned swept.1 s3
        (sweep_from-Shrunk o now (o.max_items - 1) 1 0 scanned s3.cache (omega arith)) in
    let sweeps = ltb 0 o.sweep_on_full && leb purged.next_scan now in
    let c' = if sweeps then swept.1 else purged in
    let s5 : Shrunk o c c' = branch o c sweeps swept.1 purged (λ e. s4) s2 in
    branch o c (o.clear_on_full && (if sweeps then swept.0 else 0) == 0)
      (clear_from o now (o.max_items - 1) 1 c') c'
      (λ e.
        Shrunk-trans o c c' (clear_from o now (o.max_items - 1) 1 c') s5
          (clear_from-Shrunk o now (o.max_items - 1) 1 c' s5.cache (omega arith)))
      s5
