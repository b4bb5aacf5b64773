-- ===== src/Cache/Table/Delete.antt =====
-- What deleting an item does to a cache.
use mathlib.Core.Option
use upsgi.Cache.Bitmap.{unmark_blocks}
use upsgi.Common.{ℕ, ◌<◌, ◌≡◌, ◌≢◌, ap, arith, not, ◌&&◌, List, ◌∷◌, ◌==◌, if◌then◌else◌}
use upsgi.Cache.Items.{
  Settings, Item, Cache, change, set_slot, unlink_item, lru_remove_item, free_item, reset_item,
  del_index,
}
use upsgi.Cache.Links.{without}
use upsgi.Cache.Table.{nexts, prevs, bucket}

-- an item without its pointers and its hits
abbrev pub content : Item → Item
content x = record x { prev = 0; next = 0; lru_prev = 0; lru_next = 0; hits = 0 }

module _ (o : Settings) (i : ℕ) (c : Cache) where
  abbrev uci : Item
  uci = c.items i

  next-unlink_item :
      (j : ℕ)
      → nexts (unlink_item o i c) j
        ≡ (if not (uci.prev == 0) && j == uci.prev then uci.next else nexts c j)
  unfolding unlink_item change set_slot
  next-unlink_item j = ground arith

  prev-unlink_item :
      (j : ℕ)
      → prevs (unlink_item o i c) j
        ≡ (if not (uci.next == 0) && j == uci.next then uci.prev else prevs c j)
  unfolding unlink_item change set_slot
  prev-unlink_item j = ground arith

  hashtable-unlink_item :
      (b : ℕ)
      → (unlink_item o i c).hashtable b
        ≡ (if uci.prev == 0 && b == bucket o uci then uci.next else c.hashtable b)
  unfolding unlink_item change set_slot
  hashtable-unlink_item b = ground arith

  content-unlink_item : (j : ℕ) → content ((unlink_item o i c).items j) ≡ content (c.items j)
  unfolding unlink_item change set_slot
  content-unlink_item j = ground arith

  unused-unlink_item : (unlink_item o i c).unused ≡ c.unused
  unfolding unlink_item change set_slot
  unused-unlink_item = ground arith

-- the list of the least recently used items is no part of the hash table
module _ (i : ℕ) (c : Cache) where
  pub content-lru_remove_item :
      (j : ℕ)
      → (content ((lru_remove_item i c).items j) ≡ content (c.items j))
        × (nexts (lru_remove_item i c) j ≡ nexts c j)
        × (prevs (lru_remove_item i c) j ≡ prevs c j)
  unfolding lru_remove_item change
  content-lru_remove_item j = (ground arith, ground arith, ground arith)

  pub table-lru_remove_item :
      ((lru_remove_item i c).hashtable ≡ c.hashtable) × ((lru_remove_item i c).unused ≡ c.unused)
  unfolding lru_remove_item change
  table-lru_remove_item = (ground arith, ground arith)

-- What del_index makes of an item that holds a key.
pub record Deleted (o : Settings) (i : ℕ) (c c' : Cache) : Type 0 where
  pub dead : (c'.items i).keysize ≡ 0
  pub next_of :
      (j : ℕ) → j ≢ 0 → j ≢ i → nexts c' j ≡ (if j == prevs c i then nexts c i else nexts c j)
  pub prev_of :
      (j : ℕ) → j ≢ 0 → j ≢ i → prevs c' j ≡ (if j == nexts c i then prevs c i else prevs c j)
  pub slot_of :
      (b : ℕ)
      → c'.hashtable b
        ≡ (if prevs c i == 0 && b == bucket o (c.items i) then nexts c i else c.hashtable b)
  pub content_of : (j : ℕ) → j ≢ i → content (c'.items j) ≡ content (c.items j)
  pub unused_of : c'.unused ≡ i ∷ c.unused

pub del_index-Deleted :
    (o : Settings) (now i : ℕ) (c : Cache)
    → 0 < (c.items i).keysize
    → Deleted o i c (del_index o now i c)
unfolding del_index free_item reset_item change
del_index-Deleted o now i c live =
    let freed = record c {
      bitmap =
          Option.map (λ b. unmark_blocks b (c.items i).first_block (c.items i).valsize) c.bitmap;
      unused = i ∷ c.unused;
    } in
    let unlinked = unlink_item o i freed in
    record {
      dead = ground arith;
      next_of = λ j nz ne.
          ground (arith, next-unlink_item o i freed j, content-lru_remove_item i unlinked j);
      prev_of = λ j nz ne.
          ground (arith, prev-unlink_item o i freed j, content-lru_remove_item i unlinked j);
      slot_of = λ b. ground (
        arith,
        hashtable-unlink_item o i freed b,
        ap (λ h. h b) ((table-lru_remove_item i unlinked).0),
      );
      content_of = λ j ne.
          ground (arith, content-unlink_item o i freed j, content-lru_remove_item i unlinked j);
      unused_of = ground (arith, unused-unlink_item o i freed, table-lru_remove_item i unlinked);
    }

-- the chains without the item
abbrev pub chains_without : ℕ → ℕ → (ℕ → List ℕ) → ℕ → List ℕ
chains_without b0 i chains b = if b == b0 then without i (chains b) else chains b
