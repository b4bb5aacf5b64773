-- ===== src/Cache/View/Get.antt =====
-- upsgi_cache_get2, upsgi_cache_get3 and upsgi_cache_get4 over the map of a cache.
use mathlib.Core.Path.{subst}
use upsgi.Common.{
  ℕ, ◌*◌, ◌≤◌, ◌<◌, ◌≡◌, ◌⊎◌, inl, inr, refl, arith, Bool, true, false, ◌&&◌, List, Option, none,
  some, ◌==◌, if◌then◌else◌, add64, Bool-cases,
}
use upsgi.Cache.Items.{Settings, Item, Cache, change, lru_add_item, lru_remove_item}
use upsgi.Cache.Ops.{flags_of, read_bytes, hit_item, get_found, get_value}
use upsgi.Cache.Table.{Holds}
use upsgi.Cache.Table.Insert.{SameTable, SameTable-trans}
use upsgi.Cache.View.Same.{SameTable-lookup}
use upsgi.Cache.View.{Entry, entry_of, lookup, IsCache, lookup-some, lookup-holder}
use upsgi.Cache.View.Remove.{Only, Only-refl, Only-SameTable, Got, present, absent, get_index-Got}
use upsgi.Cache.View.Rewrite.{touch-SameTable}

hit-SameTable :
    (i : ℕ) (c : Cache)
    → SameTable c (record (change i (λ x. record x { hits = add64 x.hits 1 }) c) {
      cache_hits = add64 c.cache_hits 1;
    })
unfolding change
hit-SameTable i c = record {
  next_of = λ j. ground arith;
  prev_of = λ j. ground arith;
  content_of = λ j. ground arith;
  slot_of = λ b. refl;
  unused_of = refl;
  memory_of = refl;
  bitmap_of = refl;
}

pub hit_item-SameTable :
    (o : Settings) (moves : Bool) (i : ℕ) (c : Cache) → SameTable c (hit_item o moves i c)
unfolding hit_item
hit_item-SameTable o moves i c =
    SameTable-trans (touch-SameTable (moves && o.purge_lru) i c)
      (hit-SameTable i (if moves && o.purge_lru then lru_add_item i (lru_remove_item i c) else c))

pub missed-SameTable : (c : Cache) → SameTable c (record c { miss = add64 c.miss 1 })
missed-SameTable c = record {
  next_of = λ j. refl;
  prev_of = λ j. refl;
  content_of = λ j. refl;
  slot_of = λ b. refl;
  unused_of = refl;
  memory_of = refl;
  bitmap_of = refl;
}

-- an entry that lazy expiry deletes when it is looked up
abbrev pub IsStale : Settings → ℕ → Entry → Type 0
IsStale o now e = (o.lazy_expire ≡ true) × (0 < e.expires) × (e.expires ≤ now)

-- What reading a key does: the value of its entry, or nothing, when there is no entry, or it has expired, or is
-- not to be read; every entry but an expired one stays.
pub record IsRead (o : Settings) (now : ℕ) (key : List ℕ) (c : Cache)
    (r : Option (Item × List ℕ) × Cache) : Type 0 where
  pub only : Only o key c r.1
  pub value :
      (x : Item) (bytes : List ℕ)
      → r.0 ≡ some (x, bytes)
      → (lookup o r.1 key ≡ lookup o c key)
        × (lookup o c key ≡ some (record { flags = x.flags; expires = x.expires; value = bytes }))
        × ((flags_of x.flags).ungettable ≡ false)
  pub missed :
      (e : Entry)
      → r.0 ≡ none
      → lookup o c key ≡ some e
      → IsStale o now e ⊎ ((flags_of e.flags).ungettable ≡ true)

module _ (o : Settings) (now : ℕ) (moves : Bool) (key : List ℕ) (c : Cache) (v : IsCache o c) where
  hidden-IsRead :
      (i : ℕ)
      → Holds c key i
      → (flags_of (c.items i).flags).ungettable ≡ true
      → IsRead o now key c (none, c)
  hidden-IsRead i h e = record {
    only = Only-refl o key c v;
    value = λ x bytes z. ground (arith, z);
    missed = λ entry z l. inr (ground (arith, lookup-some o c v key i h, l, e));
  }

  shown-IsRead :
      (i : ℕ)
      → Holds c key i
      → (flags_of (c.items i).flags).ungettable ≡ false
      → IsRead o now key c (
        some (
          c.items i,
          read_bytes c.memory ((c.items i).first_block * o.blocksize) (c.items i).valsize,
        ),
        hit_item o moves i c,
      )
  shown-IsRead i h e =
      let same = hit_item-SameTable o moves i c in
      record {
        only = Only-SameTable o key c c (hit_item o moves i c) same (Only-refl o key c v);
        value = λ x bytes z. (
          SameTable-lookup o c (hit_item o moves i c) same v key,
          ground (arith, lookup-some o c v key i h, z),
          ground (arith, e, z),
        );
        missed = λ entry z l. ground (arith, z);
      }

  present-IsRead : (i : ℕ) → Holds c key i → IsRead o now key c (get_found o moves i c)
  unfolding get_found
  present-IsRead i h =
      let test : (i == 0) ≡ false = ground (arith, h.index) in
      elim (Bool-cases (flags_of (c.items i).flags).ungettable) [
        | inl e ↦ rw (test, e) (hidden-IsRead i h e)
        | inr e ↦ rw (test, e) (shown-IsRead i h e)
      ]

  absent-IsRead :
      (d : Cache)
      → Only o key c d
      → ((j : ℕ) → Holds c key j → IsStale o now (entry_of o c.memory (c.items j)))
      → IsRead o now key c (get_found o moves 0 d)
  unfolding get_found
  absent-IsRead d only expired = record {
    only = Only-SameTable o key c d (record d { miss = add64 d.miss 1 }) (missed-SameTable d) only;
    value = λ x bytes z. ground (arith, z);
    missed = λ e z l.
        let (j, h, same) = lookup-holder o c v key e l in
        inl (subst (λ (x : Entry). IsStale o now x) same (expired j h));
  }

  -- Of a sound cache without a bitmap, upsgi_cache_get2, _get3 and _get4 end; the other keys keep what
  -- stands under them; what they give is the item and the value of the entry that stands under the key,
  -- which stays and is one to be read; they give nothing for an entry only if lazy expiry removed it or it
  -- is not one to be read.
  pub get_value-IsRead :
      (r : Option (Item × List ℕ) × Cache) × (get_value o now moves key c ≡ some r)
      × IsRead o now key c r
  unfolding get_value
  get_value-IsRead = step (get_index-Got o now key c v)
    where
      step :
          {g : Option (ℕ × Cache)}
          → Got o now key c g
          → (r : Option (Item × List ℕ) × Cache) × (elim g [
            | none ↦ none
            | some p ↦ some (get_found o moves p.0 p.1)
          ]
              ≡ some r)
            × IsRead o now key c r
      step (present {i} h) = (get_found o moves i c, refl, present-IsRead i h)
      step (absent {c' = d} only none_holds stays expired) =
          (get_found o moves 0 d, refl, absent-IsRead d only expired)
