-- ===== src/Cache/View/Fix.antt =====
-- upsgi_cache_fix over the map of a cache.
use mathlib.Core.Path.{subst}
use upsgi.Common.{
  ℕ, zero, suc, ◌+◌, ◌-◌, ◌≤◌, ◌<◌, ◌≡◌, ◌≢◌, inl, inr, refl, ap, sym, ◌∙◌, arith, true, ◌&&◌, List,
  [], ◌∷◌, none, ltb, ◌==◌, if◌then◌else◌,
}
use upsgi.Cache.Items.{Settings, Item, Cache, set_slot}
use upsgi.Cache.Life.{init, fix_item, fix_from, cache_fix, restore}
use upsgi.Cache.Links.{has, distinct, Chain, Chain-frame, equal_or_not}
use upsgi.Cache.Table.{nexts, prevs, bucket, IsKeyed, IsTable}
use upsgi.Cache.View.{entry_of, lookup, IsCache, lookup-same}

module _ (next prev : ℕ → ℕ) where
  behind_first :
      (p q : ℕ) (l : List ℕ) (i : ℕ) → p ≢ 0 → Chain next prev p q l → has i l ≡ true → prev i ≢ 0
  behind_first p q [] i nz chain h = ground (arith, h)
  behind_first p q (x ∷ l) i nz (here, live, back, chain) h = elim (equal_or_not i x) [
    | inl (test, e) ↦ λ z. nz (sym back ∙ ap prev (sym e) ∙ z)
    | inr (test, ne) ↦ behind_first x (next x) l i live chain (ground (arith, h, test))
  ]

  -- only the first item of a chain has none before it
  first_of :
      (q : ℕ) (l : List ℕ) (i : ℕ) → Chain next prev 0 q l → has i l ≡ true → prev i ≡ 0 → q ≡ i
  first_of q [] i chain h z = ground (arith, h)
  first_of q (x ∷ l) i (here, live, back, chain) h z = elim (equal_or_not i x) [
    | inl (test, e) ↦ here ∙ sym e
    | inr (test, ne) ↦ absurd (behind_first x (next x) l i live chain (ground (arith, h, test)) z)
  ]

module _ (o : Settings) (c : Cache) (v : IsCache o c) where
  t : IsTable o c v.chains
  t = v.table

  -- the slots once the items below `k` have been seen
  record Fixed (k : ℕ) (d : Cache) : Type 0 where
    items_of : d.items ≡ c.items
    memory_of : d.memory ≡ c.memory
    bitmap_of : d.bitmap ≡ none
    slot_of : (b : ℕ) → d.hashtable b ≡ (if ltb (c.hashtable b) k then c.hashtable b else 0)
    idle_of : (j : ℕ) → has j d.unused ≡ true → (j ≢ 0) × (j < k) × ((c.items j).keysize ≡ 0)
    once_of : distinct d.unused ≡ true

  head-live :
      (b i : ℕ)
      → i ≢ 0
      → c.hashtable b ≡ i
      → (0 < (c.items i).keysize) × ((c.items i).prev ≡ 0) × (bucket o (c.items i) ≡ b)
  head-live b i nz e = step (v.chains b) (t.linked b) (t.keyed b)
    where
      step :
          (l : List ℕ)
          → Chain (nexts c) (prevs c) 0 (c.hashtable b) l
          → ((j : ℕ) → has j l ≡ true → IsKeyed o b (c.items j))
          → (0 < (c.items i).keysize) × ((c.items i).prev ≡ 0) × (bucket o (c.items i) ≡ b)
      step [] chain keyed = ground (arith, chain, nz, e)
      step (x ∷ l) (here, live, back, chain) keyed =
          let same : x ≡ i = sym here ∙ e in
          let k = keyed i (ground (arith, same)) in
          (k.filled, ap (prevs c) (sym same) ∙ back, k.in_bucket)

  live-head :
      (i : ℕ)
      → i ≢ 0
      → 0 < (c.items i).keysize
      → (c.items i).prev ≡ 0
      → c.hashtable (bucket o (c.items i)) ≡ i
  live-head i nz live z =
      let b = bucket o (c.items i) in
      first_of (nexts c) (prevs c) (c.hashtable b) (v.chains b) i (t.linked b) (t.reached i nz live)
        z

  fix_item-items : (k : ℕ) (d : Cache) → (fix_item o k d).items ≡ d.items
  unfolding fix_item set_slot
  fix_item-items k d = ground arith

  fix_item-memory : (k : ℕ) (d : Cache) → (fix_item o k d).memory ≡ d.memory
  unfolding fix_item set_slot
  fix_item-memory k d = ground arith

  fix_item-bitmap : (k : ℕ) (d : Cache) → (fix_item o k d).bitmap ≡ d.bitmap
  unfolding fix_item set_slot
  fix_item-bitmap k d = ground arith

  fix_item-slot :
      (k : ℕ) (d : Cache) (b : ℕ)
      → d.items ≡ c.items
      → (fix_item o k d).hashtable b ≡ (
          if ltb 0 (c.items k).keysize && ((c.items k).prev == 0 && b == bucket o (c.items k))
          then k
          else d.hashtable b)
  unfolding fix_item set_slot
  fix_item-slot k d b e = ground (arith, ap (λ f. f k) e)

  fix_item-unused :
      (k : ℕ) (d : Cache)
      → d.items ≡ c.items
      → (fix_item o k d).unused ≡ (if ltb 0 (c.items k).keysize then d.unused else k ∷ d.unused)
  unfolding fix_item set_slot
  fix_item-unused k d e = ground (arith, ap (λ f. f k) e)

  fix_item-Fixed : (k : ℕ) (d : Cache) → k ≢ 0 → Fixed k d → Fixed (k + 1) (fix_item o k d)
  fix_item-Fixed k d nz s =
      let unused = fix_item-unused k d s.items_of in
      record {
        items_of = fix_item-items k d ∙ s.items_of;
        memory_of = fix_item-memory k d ∙ s.memory_of;
        bitmap_of = fix_item-bitmap k d ∙ s.bitmap_of;
        slot_of = λ b.
            ground (
              arith,
              fix_item-slot k d b s.items_of,
              s.slot_of b,
              head-live b k nz,
              live-head k nz,
            );
        idle_of = λ j h. ground (
          arith,
          ap (λ l. has j l) unused,
          h,
          s.idle_of j,
          ap (λ i. (c.items i).keysize) {x = j} {y = k},
          nz,
        );
        once_of = ground (arith, ap distinct unused, s.once_of, s.idle_of k);
      }

  fix_from-Fixed :
      (count k : ℕ) (d : Cache) → k ≢ 0 → Fixed k d → Fixed (k + count) (fix_from o count k d)
  unfolding fix_from
  fix_from-Fixed zero k d nz s = subst (λ n. Fixed n d) (omega arith) s
  fix_from-Fixed (suc count) k d nz s =
      let e : k + 1 + count ≡ k + suc count = omega arith in
      subst (λ n. Fixed n (fix_from o (suc count) k d)) e
        (fix_from-Fixed count (k + 1) (fix_item o k d) (omega arith) (fix_item-Fixed k d nz s))

  abbrev fresh : Cache
  fresh = record (init o none c.memory) { items = c.items; unused = []; next_scan = 0; n_items = 0 }

  fresh-Fixed : Fixed 1 fresh
  unfolding init
  fresh-Fixed = record {
    items_of = refl;
    memory_of = refl;
    bitmap_of = refl;
    slot_of = λ b. ground arith;
    idle_of = λ j h. ground (arith, h);
    once_of = refl;
  }

  abbrev c' : Cache
  c' = restore o none c.items c.memory

  fixed : Fixed (1 + (o.max_items - 1)) c'
  unfolding restore cache_fix init
  fixed = fix_from-Fixed (o.max_items - 1) 1 fresh (omega arith) fresh-Fixed

  first_below : (b : ℕ) → c.hashtable b < 1 + (o.max_items - 1)
  first_below b = step (v.chains b) (t.linked b) (t.below b)
    where
      step :
          (l : List ℕ)
          → Chain (nexts c) (prevs c) 0 (c.hashtable b) l
          → ((j : ℕ) → has j l ≡ true → j < o.max_items)
          → c.hashtable b < 1 + (o.max_items - 1)
      step [] chain below = omega (arith, chain)
      step (x ∷ l) (here, live, back, chain) below =
          let low = below x (ground arith) in omega (arith, here, low)

  slot_same : (b : ℕ) → c'.hashtable b ≡ c.hashtable b
  slot_same b = ground (arith, fixed.slot_of b, first_below b)

  item_same : (j : ℕ) → c'.items j ≡ c.items j
  item_same j = ap (λ f. f j) fixed.items_of

  live_back : (j : ℕ) → 0 < (c'.items j).keysize → 0 < (c.items j).keysize
  live_back j live = subst (λ (x : Item). 0 < x.keysize) (item_same j) live

  restore-IsCache : IsCache o c'
  restore-IsCache = record {
    chains = v.chains;
    table = record {
      linked = λ b.
          subst (λ r. Chain (nexts c') (prevs c') 0 r (v.chains b)) (sym (slot_same b))
            (Chain-frame (nexts c) (prevs c) (nexts c') (prevs c') 0 (c.hashtable b) (v.chains b)
              (λ j h.
                (ap (λ (x : Item). x.next) (item_same j), ap (λ (x : Item). x.prev) (item_same j)))
              (t.linked b));
      apart = t.apart;
      keyed = λ b j h. subst (λ (x : Item). IsKeyed o b x) (sym (item_same j)) (t.keyed b j h);
      below = t.below;
      reached = λ j nz live.
          subst (λ (x : Item). has j (v.chains (bucket o x)) ≡ true) (sym (item_same j))
            (t.reached j nz (live_back j live));
      keys = λ b j k hj hk e. t.keys b j k hj hk (
          sym (ap (λ (x : Item). x.key) (item_same j))
          ∙ e
          ∙ ap (λ (x : Item). x.key) (item_same k));
      idle = λ j h.
          let (nz, low, dead) = fixed.idle_of j h in
          (nz, omega (arith, nz, low), ap (λ (x : Item). x.keysize) (item_same j) ∙ dead);
      once = fixed.once_of;
    };
    plain = fixed.bitmap_of;
    place = λ j nz live.
        ap (λ (x : Item). x.first_block) (item_same j) ∙ v.place j nz (live_back j live);
    size = λ j nz live.
        subst (λ (x : Item). x.valsize ≤ o.blocksize) (sym (item_same j))
          (v.size j nz (live_back j live));
  }

  -- A cache without a bitmap that is set up again by upsgi_cache_fix from the items and the memory of a
  -- sound one is sound and has the same entry under every key.
  pub restore-lookup : IsCache o c' × ((key : List ℕ) → lookup o c' key ≡ lookup o c key)
  restore-lookup = (
    restore-IsCache,
    λ key.
        lookup-same o c c' key v restore-IsCache
          (λ j h. (
            record {
              index = h.index;
              live = subst (λ (x : Item). 0 < x.keysize) (sym (item_same j)) h.live;
              is_key = ap (λ (x : Item). x.key) (item_same j) ∙ h.is_key;
            },
            ap (λ m. entry_of o m (c'.items j)) fixed.memory_of
                ∙ ap (λ (x : Item). entry_of o c.memory x) (item_same j),
          ))
          (λ j h. record {
            index = h.index;
            live = live_back j h.live;
            is_key = sym (ap (λ (x : Item). x.key) (item_same j)) ∙ h.is_key;
          }),
  )
