-- ===== src/Cache/View/Rewrite.antt =====
-- The map of a cache behind a value that is set again.
use mathlib.Core.Path.{subst}
use upsgi.Common.{
  ℕ, ◌*◌, ◌≤◌, ◌<◌, ◌≡◌, ◌≢◌, inl, inr, ap, sym, ◌∙◌, arith, Bool, true, false, List, some,
  if◌then◌else◌, length,
}
use upsgi.Cache.Items.{Settings, Item, Cache, change, lru_remove_item, lru_add_item}
use upsgi.Cache.Ops.{
  Flags, flags_of, expiry, renew_item, rewrite_item, write_bytes, read_bytes, num_of,
}
use upsgi.Cache.Links.{equal_or_not}
use upsgi.Cache.Table.{Holds}
use upsgi.Cache.Table.Delete.{content}
use upsgi.Cache.Table.Insert.{
  SameTable, SameTable-refl, SameTable-trans, lru_add_item-SameTable, expiry-SameTable,
}
use upsgi.Cache.View.Same.{SameKeys, SameKeys-IsTable, SameKeys-Holds, SameKeys-Holds_back}
use upsgi.Cache.View.{entry_of, lookup, IsCache, lookup-some, lookup-same}
use upsgi.Cache.View.Memory.{entry_of-elsewhere, entry_of-written}
use upsgi.Cache.View.Remove.{Only}
use upsgi.Cache.View.Inserted.{value_bytes-plain}

pub lru_remove_item-SameTable : (i : ℕ) (c : Cache) → SameTable c (lru_remove_item i c)
unfolding lru_remove_item change
lru_remove_item-SameTable i c = record {
  next_of = λ j. ground arith;
  prev_of = λ j. ground arith;
  content_of = λ j. ground arith;
  slot_of = λ b. ground arith;
  unused_of = ground arith;
  memory_of = ground arith;
  bitmap_of = ground arith;
}

-- an item moves to the end of the list of the least recently used ones
pub touch-SameTable :
    (b : Bool) (i : ℕ) (c : Cache)
    → SameTable c (if b then lru_add_item i (lru_remove_item i c) else c)
touch-SameTable true i c =
    SameTable-trans (lru_remove_item-SameTable i c) (lru_add_item-SameTable i (lru_remove_item i c))
touch-SameTable false i c = SameTable-refl c

-- a step that changes the expiry and the size of one item
pub record Rewritten (i : ℕ) (val : List ℕ) (c c' : Cache) : Type 0 where
  pub keys : SameKeys c c'
  pub others : (j : ℕ) → j ≢ i → content (c'.items j) ≡ content (c.items j)
  pub block : (c'.items i).first_block ≡ (c.items i).first_block
  pub kept : (c'.items i).flags ≡ (c.items i).flags
  pub valsize : (c'.items i).valsize ≡ length val
  pub bitmap_of : c'.bitmap ≡ c.bitmap

module _ (o : Settings) (now flags : ℕ) (val : List ℕ) (expires i : ℕ) (c : Cache) where
  abbrev f : Flags
  f = flags_of flags

  abbrev listed : Cache
  listed = if o.purge_lru then lru_add_item i (lru_remove_item i c) else c

  abbrev scanned : Cache
  scanned = (expiry o now f expires listed).1

  s : SameTable c scanned
  s = SameTable-trans (touch-SameTable o.purge_lru i c) (expiry-SameTable o now f expires listed)

  abbrev renewed : Cache
  renewed = renew_item o now f expires i c

  abbrev uci : Item
  uci = renewed.items i

  renewed_memory : renewed.memory ≡ c.memory
  unfolding renew_item change
  renewed_memory = ground (arith, s.memory_of)

  pub renewed_bitmap : renewed.bitmap ≡ c.bitmap
  unfolding renew_item change
  renewed_bitmap = ground (arith, s.bitmap_of)

  renewed_block : uci.first_block ≡ (c.items i).first_block
  unfolding renew_item change
  renewed_block = ground (arith, ap (λ (x : Item). x.first_block) (s.content_of i))

  abbrev result : Cache
  result = rewrite_item o f val uci.first_block i renewed

  pub rewrite_item-Rewritten : Rewritten i val c result
  unfolding rewrite_item renew_item change
  rewrite_item-Rewritten = record {
    keys = record {
      next_of = λ j. ground (arith, s.next_of j);
      prev_of = λ j. ground (arith, s.prev_of j);
      key_of = λ j. ground (arith, s.content_of j, ap (λ (x : Item). x.key) (s.content_of j));
      keysize_of = λ j. ground (arith, ap (λ (x : Item). x.keysize) (s.content_of j));
      hash_of = λ j. ground (arith, ap (λ (x : Item). x.hash) (s.content_of j));
      slot_of = λ b. ground (arith, s.slot_of b);
      unused_of = ground (arith, s.unused_of);
    };
    others = λ j ne. ground (arith, s.content_of j, ne);
    block = ground (arith, ap (λ (x : Item). x.first_block) (s.content_of i));
    kept = ground (arith, ap (λ (x : Item). x.flags) (s.content_of i));
    valsize = ground arith;
    bitmap_of = ground (arith, s.bitmap_of);
  }

  pub rewrite_item-memory :
      f.math ≡ false
      → result.memory ≡ write_bytes ((c.items i).first_block * o.blocksize) val c.memory
  unfolding rewrite_item
  rewrite_item-memory plain =
      let num = num_of (read_bytes renewed.memory (uci.first_block * o.blocksize) 8) in
      ap (λ bytes. write_bytes (uci.first_block * o.blocksize) bytes renewed.memory)
        (value_bytes-plain flags num val plain)
      ∙ ap (λ (b : ℕ). write_bytes (b * o.blocksize) val renewed.memory) renewed_block
      ∙ ap (write_bytes ((c.items i).first_block * o.blocksize) val) renewed_memory

-- the map behind such a step
module _ (o : Settings) (key val : List ℕ) (i : ℕ) (c c' : Cache) (v : IsCache o c)
    (h : Holds c key i) (fits : length val ≤ o.blocksize) (w : Rewritten i val c c') where
  keysize_of : (j : ℕ) → (c'.items j).keysize ≡ (c.items j).keysize
  keysize_of = w.keys.keysize_of

  pub rewritten-IsCache : IsCache o c'
  rewritten-IsCache = record {
    chains = v.chains;
    table = SameKeys-IsTable o c c' w.keys v.chains v.table;
    plain = w.bitmap_of ∙ v.plain;
    place = λ j nz live. elim (equal_or_not j i) [
      | inl (test, e) ↦
          subst (λ k. (c'.items k).first_block ≡ k) (sym e) (w.block ∙ v.place i h.index h.live)
      | inr (test, ne) ↦
          ap (λ (x : Item). x.first_block) (w.others j ne)
          ∙ v.place j nz (omega (arith, keysize_of j, live))
    ];
    size = λ j nz live. elim (equal_or_not j i) [
      | inl (test, e) ↦
          subst (λ k. (c'.items k).valsize ≤ o.blocksize) (sym e) (omega (arith, w.valsize, fits))
      | inr (test, ne) ↦
          let bound = v.size j nz (omega (arith, keysize_of j, live)) in
          omega (arith, ap (λ (x : Item). x.valsize) (w.others j ne), bound)
    ];
  }

  module _
      (written : c'.memory ≡ write_bytes ((c.items i).first_block * o.blocksize) val c.memory) where
    memory' : c'.memory ≡ write_bytes (i * o.blocksize) val c.memory
    memory' =
        written
        ∙ ap (λ (b : ℕ). write_bytes (b * o.blocksize) val c.memory) (v.place i h.index h.live)

    -- the entry of another item
    other_entry :
        (j : ℕ)
        → j ≢ 0
        → 0 < (c.items j).keysize
        → j ≢ i
        → entry_of o c'.memory (c'.items j) ≡ entry_of o c.memory (c.items j)
    other_entry j nz live ne =
        ap (λ (y : Item). entry_of o c'.memory y) (w.others j ne)
        ∙ entry_of-elsewhere o i j val c c'.memory v nz live (λ e. ne (sym e)) fits memory'

    pub rewritten-Only : Only o key c c'
    rewritten-Only = record {
      cache = rewritten-IsCache;
      others = λ key' ne.
          lookup-same o c c' key' v rewritten-IsCache
            (λ j hj.
              let other : j ≢ i =
                λ e. ne (sym hj.is_key ∙ ap (λ k. (c.items k).key) e ∙ h.is_key) in
              (SameKeys-Holds o c c' w.keys key' j hj, other_entry j hj.index hj.live other))
            (SameKeys-Holds_back o c c' w.keys key');
    }

    pub rewritten_entry :
        lookup o c' key
        ≡ some (record { flags = (c.items i).flags; expires = (c'.items i).expires; value = val })
    rewritten_entry =
        lookup-some o c' rewritten-IsCache key i (SameKeys-Holds o c c' w.keys key i h)
        ∙ ap some (
            entry_of-written o i val (c'.items i) c.memory c'.memory
              (w.block ∙ v.place i h.index h.live) w.valsize memory')
        ∙ ap (λ k. some (record { flags = k; expires = (c'.items i).expires; value = val })) w.kept
