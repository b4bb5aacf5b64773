-- ===== src/Cache/Lru/Order.antt =====
-- What the calls of a cache do to its list of the least recently used items.
use mathlib.Core.Path.{subst}
use mathlib.Core.Option
use upsgi.Common.{
  ℕ, ◌%◌, ◌<◌, ◌≡◌, ◌≢◌, inl, inr, refl, ap, sym, ◌∙◌, arith, Bool, true, false, List, [], ◌∷◌,
  ◌++◌, Option, none, some, ◌==◌, add64, Bool-cases,
}
use upsgi.Cache.Bitmap.{unmark_blocks}
use upsgi.Cache.Items.{
  Settings, Cache, change, set_slot, lru_remove_item, lru_add_item, unlink_item, free_item,
  reset_item, del_index, send_command,
}
use upsgi.Cache.Ops.{
  Flags, flags_of, expiry, last_link, link_item, fill_item, insert_item, done_item, hit_item,
}
use upsgi.Cache.Links.{has, without, Chain, Chain-frame, has-without_self}
use upsgi.Cache.Lru.{IsLru, lru_nexts, lru_prevs, lru_remove_item-IsLru, lru_add_item-IsLru}

-- two states with the same list
pub record SameLru (c c' : Cache) : Type 0 where
  pub next_of : (j : ℕ) → lru_nexts c' j ≡ lru_nexts c j
  pub prev_of : (j : ℕ) → lru_prevs c' j ≡ lru_prevs c j
  pub head_of : c'.lru_head ≡ c.lru_head
  pub tail_of : c'.lru_tail ≡ c.lru_tail

pub SameLru-IsLru : (c c' : Cache) (l : List ℕ) → SameLru c c' → IsLru c l → IsLru c' l
SameLru-IsLru c c' l s w = record {
  chain =
      subst (λ r. Chain (lru_nexts c') (lru_prevs c') 0 r l) (sym s.head_of)
        (Chain-frame (lru_nexts c) (lru_prevs c) (lru_nexts c') (lru_prevs c') 0 c.lru_head l
          (λ j h. (s.next_of j, s.prev_of j)) w.chain);
  apart = w.apart;
  tail = s.tail_of ∙ w.tail;
}

SameLru-trans : (c d e : Cache) → SameLru c d → SameLru d e → SameLru c e
SameLru-trans c d e a b = record {
  next_of = λ j. b.next_of j ∙ a.next_of j;
  prev_of = λ j. b.prev_of j ∙ a.prev_of j;
  head_of = b.head_of ∙ a.head_of;
  tail_of = b.tail_of ∙ a.tail_of;
}

counted-SameLru : (c d : Cache) → SameLru c d → SameLru c (record d { n_items = add64 d.n_items 1 })
counted-SameLru c d s = record {
  next_of = s.next_of;
  prev_of = s.prev_of;
  head_of = s.head_of;
  tail_of = s.tail_of;
}

some-inj : {x y : Cache} → some x ≡ some y → x ≡ y
some-inj {x} e = ap (λ (r : Option Cache). elim r [ none ↦ x | some z ↦ z ]) e

set_slot-SameLru : (b i : ℕ) (c : Cache) → SameLru c (set_slot b i c)
unfolding set_slot
set_slot-SameLru b i c = record {
  next_of = λ j. refl;
  prev_of = λ j. refl;
  head_of = refl;
  tail_of = refl;
}

appended-SameLru :
    (last i : ℕ) (c : Cache)
    → SameLru c
        (change i (λ x. record x { prev = last }) (change last (λ x. record x { next = i }) c))
unfolding change
appended-SameLru last i c = record {
  next_of = λ j. ground arith;
  prev_of = λ j. ground arith;
  head_of = refl;
  tail_of = refl;
}

module _ (o : Settings) (i : ℕ) (c d : Cache) where
  abbrev slot : ℕ
  slot = (c.items i).hash % o.hashsize

  abbrev appended : ℕ → Cache
  appended last =
      change i (λ x. record x { prev = last }) (change last (λ x. record x { next = i }) c)

  link_item-SameLru : link_item o i c ≡ some d → SameLru c d
  unfolding link_item
  link_item-SameLru e = elim (Bool-cases (c.hashtable slot == 0)) [
    | inl empty ↦
        let same : some (set_slot slot i c) ≡ some d = ground (arith, empty, e) in
        subst (λ (y : Cache). SameLru c y) (some-inj same) (set_slot-SameLru slot i c)
    | inr full ↦ step full (last_link c.items o.max_items (c.hashtable slot)) refl
  ]
    where
      step :
          (c.hashtable slot == 0) ≡ false
          → (last : Option ℕ) → last_link c.items o.max_items (c.hashtable slot) ≡ last
          → SameLru c d
      step full none w = ground (arith, full, w, e)
      step full (some last) w =
          let same : some (appended last) ≡ some d = ground (arith, full, w, e) in
          subst (λ (y : Cache). SameLru c y) (some-inj same) (appended-SameLru last i c)

module _ (o : Settings) where
  hit-SameLru :
      (i : ℕ) (c : Cache)
      → o.purge_lru ≡ true
      → SameLru (lru_add_item i (lru_remove_item i c)) (hit_item o true i c)
  unfolding hit_item change
  hit-SameLru i c lru = record {
    next_of = λ j. ground (arith, lru);
    prev_of = λ j. ground (arith, lru);
    head_of = ground (arith, lru);
    tail_of = ground (arith, lru);
  }

  pub hit_item-IsLru :
      (i : ℕ) (c : Cache) (l : List ℕ)
      → o.purge_lru ≡ true
      → i ≢ 0
      → IsLru c l
      → has i l ≡ true
      → IsLru (hit_item o true i c) (without i l ++ i ∷ [])
  hit_item-IsLru i c l lru nz s h =
      SameLru-IsLru (lru_add_item i (lru_remove_item i c)) (hit_item o true i c)
        (without i l ++ i ∷ []) (hit-SameLru i c lru)
        (lru_add_item-IsLru i (lru_remove_item i c) (without i l) (lru_remove_item-IsLru i c l s h)
          nz (has-without_self i l s.apart))

module _ (o : Settings) (now : ℕ) where
  freed : ℕ → Cache → Cache
  freed i c = record c {
    bitmap = Option.map (λ b. unmark_blocks b (c.items i).first_block (c.items i).valsize) c.bitmap;
    unused = i ∷ c.unused;
  }

  unlink_item-SameLru : (i : ℕ) (c : Cache) → SameLru c (unlink_item o i (freed i c))
  unfolding unlink_item change set_slot freed
  unlink_item-SameLru i c = record {
    next_of = λ j. ground arith;
    prev_of = λ j. ground arith;
    head_of = ground arith;
    tail_of = ground arith;
  }

  del_index-SameLru :
      (i : ℕ) (c : Cache)
      → o.purge_lru ≡ true
      → 0 < (c.items i).keysize
      → SameLru (lru_remove_item i (unlink_item o i (freed i c))) (del_index o now i c)
  unfolding del_index free_item reset_item change freed
  del_index-SameLru i c lru live = record {
    next_of = λ j. ground (arith, lru, live);
    prev_of = λ j. ground (arith, lru, live);
    head_of = ground (arith, lru, live);
    tail_of = ground (arith, lru, live);
  }

  pub del_index-IsLru :
      (i : ℕ) (c : Cache) (l : List ℕ)
      → o.purge_lru ≡ true
      → 0 < (c.items i).keysize
      → IsLru c l
      → has i l ≡ true
      → IsLru (del_index o now i c) (without i l)
  del_index-IsLru i c l lru live s h =
      let unlinked = unlink_item o i (freed i c) in
      SameLru-IsLru (lru_remove_item i unlinked) (del_index o now i c) (without i l)
        (del_index-SameLru i c lru live)
        (lru_remove_item-IsLru i unlinked l (SameLru-IsLru c unlinked l (unlink_item-SameLru i c) s)
          h)

  done_item-SameLru :
      (f : Flags) (key : List ℕ) (ret : Bool) (c : Cache)
      → SameLru c (done_item o now f key ret c).1
  unfolding done_item send_command
  done_item-SameLru f key ret c = record {
    next_of = λ j. ground arith;
    prev_of = λ j. ground arith;
    head_of = ground arith;
    tail_of = ground arith;
  }

  module _ (flags : ℕ) (key val : List ℕ) (expires i : ℕ) (c : Cache)
      (lru : o.purge_lru ≡ true) where
    abbrev scanned : Cache
    scanned = (expiry o now (flags_of flags) expires (lru_add_item i c)).1

    abbrev filled : Cache
    filled =
        fill_item o (flags_of flags) flags key val
          (expiry o now (flags_of flags) expires (lru_add_item i c)).0 i i scanned

    filled-SameLru : SameLru (lru_add_item i c) filled
    unfolding fill_item expiry change
    filled-SameLru = record {
      next_of = λ j. ground (arith, lru);
      prev_of = λ j. ground (arith, lru);
      head_of = ground (arith, lru);
      tail_of = ground (arith, lru);
    }

    pub insert_item-SameLru :
        (d : Cache)
        → insert_item o now flags key val expires i i c ≡ some d
        → SameLru (lru_add_item i c) d
    unfolding insert_item
    insert_item-SameLru d = step (link_item o i filled) refl
      where
        step :
            (linked : Option Cache)
            → link_item o i filled ≡ linked
            → insert_item o now flags key val expires i i c ≡ some d
            → SameLru (lru_add_item i c) d
        step none e h = ground (arith, lru, e, h)
        step (some x) e h =
            let same : some (record x { n_items = add64 x.n_items 1 }) ≡ some d =
              ground (arith, lru, e, h) in
            subst (λ (y : Cache). SameLru (lru_add_item i c) y) (some-inj same)
              (SameLru-trans (lru_add_item i c) filled (record x { n_items = add64 x.n_items 1 })
                filled-SameLru (counted-SameLru filled x (link_item-SameLru o i filled x e)))

  -- a new item goes to the end
  pub placed-IsLru :
      (flags : ℕ) (key val : List ℕ) (expires i : ℕ) (c d : Cache) (l : List ℕ)
      → o.purge_lru ≡ true
      → insert_item o now flags key val expires i i c ≡ some d
      → i ≢ 0
      → IsLru c l
      → has i l ≡ false
      → IsLru (done_item o now (flags_of flags) key true d).1 (l ++ i ∷ [])
  placed-IsLru flags key val expires i c d l lru e nz s h =
      SameLru-IsLru d (done_item o now (flags_of flags) key true d).1 (l ++ i ∷ [])
        (done_item-SameLru (flags_of flags) key true d)
        (SameLru-IsLru (lru_add_item i c) d (l ++ i ∷ [])
          (insert_item-SameLru flags key val expires i c lru d e) (lru_add_item-IsLru i c l s nz h))
