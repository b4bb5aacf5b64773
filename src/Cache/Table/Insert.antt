-- ===== src/Cache/Table/Insert.antt =====
-- What setting a new item does to the pointers of a cache.
use mathlib.Core.Path.{subst}
use upsgi.Common.{
  ℕ, zero, suc, ◌<◌, ◌≡◌, ◌≢◌, refl, ap, sym, ◌∙◌, arith, ◌&&◌, List, [], ◌∷◌, some, ◌==◌,
  if◌then◌else◌, length,
}
use upsgi.Cache.Items.{Settings, Cache, change, set_slot, lru_add_item}
use upsgi.Cache.Ops.{Flags, expiry, last_link, link_item}
use upsgi.Cache.Links.{last_of, Chain}
use upsgi.Cache.Table.{nexts, prevs, bucket}
use upsgi.Cache.Table.Delete.{content}

-- two states with the same hash table and the same items, up to the list of the least recently used ones
pub record SameTable (c c' : Cache) : Type 0 where
  pub next_of : (j : ℕ) → nexts c' j ≡ nexts c j
  pub prev_of : (j : ℕ) → prevs c' j ≡ prevs c j
  pub content_of : (j : ℕ) → content (c'.items j) ≡ content (c.items j)
  pub slot_of : (b : ℕ) → c'.hashtable b ≡ c.hashtable b
  pub unused_of : c'.unused ≡ c.unused
  pub memory_of : c'.memory ≡ c.memory
  pub bitmap_of : c'.bitmap ≡ c.bitmap

pub lru_add_item-SameTable : (i : ℕ) (c : Cache) → SameTable c (lru_add_item i c)
unfolding lru_add_item change
lru_add_item-SameTable i c = record {
  next_of = λ j. ground arith;
  prev_of = λ j. ground arith;
  content_of = λ j. ground arith;
  slot_of = λ b. ground arith;
  unused_of = ground arith;
  memory_of = ground arith;
  bitmap_of = ground arith;
}

pub expiry-SameTable :
    (o : Settings) (now : ℕ) (f : Flags) (expires : ℕ) (c : Cache)
    → SameTable c ((expiry o now f expires c).1)
unfolding expiry
expiry-SameTable o now f expires c = record {
  next_of = λ j. ground arith;
  prev_of = λ j. ground arith;
  content_of = λ j. ground arith;
  slot_of = λ b. ground arith;
  unused_of = ground arith;
  memory_of = ground arith;
  bitmap_of = ground arith;
}

pub SameTable-refl : (c : Cache) → SameTable c c
SameTable-refl c = record {
  next_of = λ j. refl;
  prev_of = λ j. refl;
  content_of = λ j. refl;
  slot_of = λ b. refl;
  unused_of = refl;
  memory_of = refl;
  bitmap_of = refl;
}

pub SameTable-trans : {a b c : Cache} → SameTable a b → SameTable b c → SameTable a c
SameTable-trans s t = record {
  next_of = λ j. t.next_of j ∙ s.next_of j;
  prev_of = λ j. t.prev_of j ∙ s.prev_of j;
  content_of = λ j. t.content_of j ∙ s.content_of j;
  slot_of = λ b. t.slot_of b ∙ s.slot_of b;
  unused_of = t.unused_of ∙ s.unused_of;
  memory_of = t.memory_of ∙ s.memory_of;
  bitmap_of = t.bitmap_of ∙ s.bitmap_of;
}

-- the last item of a chain is found
pub last_link-last_of :
    (c : Cache) (p x : ℕ) (l : List ℕ) (rounds : ℕ)
    → Chain (nexts c) (prevs c) p (nexts c x) l
    → length l < rounds
    → last_link c.items rounds x ≡ some (last_of x l)
unfolding last_link
last_link-last_of c p x l zero chain h = absurd (omega arith)
last_link-last_of c p x [] (suc rounds) chain h = ground (arith, chain)
last_link-last_of c p x (y ∷ l) (suc rounds) (here, nonzero, back, chain) h =
    let rest = last_link-last_of c y y l rounds chain (omega arith) in
    subst (λ r. (if r == 0 then some x else last_link c.items rounds r) ≡ some (last_of y l))
      (sym here) (ground (arith, rest, nonzero))

-- the state in which the new item stands behind the last one of its chain
pub record Linked (o : Settings) (b0 i last : ℕ) (f c' : Cache) : Type 0 where
  pub next_of : (j : ℕ) → j ≢ 0 → nexts c' j ≡ (if j == last then i else nexts f j)
  pub prev_of : (j : ℕ) → prevs c' j ≡ (if j == i then last else prevs f j)
  pub content_of : (j : ℕ) → content (c'.items j) ≡ content (f.items j)
  pub slot_of : (b : ℕ) → c'.hashtable b ≡ (if last == 0 && b == b0 then i else f.hashtable b)
  pub unused_of : c'.unused ≡ f.unused
  pub memory_of : c'.memory ≡ f.memory
  pub bitmap_of : c'.bitmap ≡ f.bitmap

module _ (o : Settings) (i b0 : ℕ) (f : Cache) (fresh : prevs f i ≡ 0) where
  pub link_item-empty :
      bucket o (f.items i) ≡ b0
      → f.hashtable b0 ≡ 0
      → (c' : Cache) × (link_item o i f ≡ some c') × Linked o b0 i 0 f c'
  unfolding link_item set_slot
  link_item-empty home e =
      let empty : f.hashtable (bucket o (f.items i)) ≡ 0 = ap f.hashtable home ∙ e in
      (
        set_slot (bucket o (f.items i)) i f,
        ground (arith, empty),
        record {
          next_of = λ j nz. ground (arith, nz);
          prev_of = λ j. ground (arith, fresh, ap (prevs f) {x = j} {y = i});
          content_of = λ j. refl;
          slot_of = λ b. ground (arith, home);
          unused_of = refl;
          memory_of = refl;
          bitmap_of = refl;
        },
      )

  pub link_item-behind :
      (last : ℕ)
      → bucket o (f.items i) ≡ b0
      → f.hashtable b0 ≢ 0
      → last ≢ 0
      → last_link f.items o.max_items (f.hashtable b0) ≡ some last
      → (c' : Cache) × (link_item o i f ≡ some c') × Linked o b0 i last f c'
  unfolding link_item change
  link_item-behind last home some_slot nonzero e =
      let walk : last_link f.items o.max_items (f.hashtable (bucket o (f.items i))) ≡ some last =
        ap (λ b. last_link f.items o.max_items (f.hashtable b)) home ∙ e in
      let full : f.hashtable (bucket o (f.items i)) ≢ 0 =
        λ z. some_slot (ap f.hashtable (sym home) ∙ z) in
      (
        change i (λ x. record x { prev = last }) (change last (λ x. record x { next = i }) f),
        ground (arith, walk, full),
        record {
          next_of = λ j nz. ground arith;
          prev_of = λ j. ground arith;
          content_of = λ j. ground arith;
          slot_of = λ b. ground (arith, nonzero);
          unused_of = refl;
          memory_of = refl;
          bitmap_of = refl;
        },
      )
