-- ===== src/Cache/View/Steps.antt =====
-- The first and the last steps of upsgi_cache_set2: popping an unused item, and what is done behind a change.

use upsgi.Common.{
  ℕ, ◌<◌, ◌≡◌, ◌≢◌, refl, ap, ◌∙◌, arith, Bool, true, false, not, ◌&&◌, List, ◌∷◌, if◌then◌else◌,
}
use upsgi.Cache.Items.{Settings, Cache, send_command}
use upsgi.Cache.Ops.{Flags, done_item}
use upsgi.Cache.Links.{has, distinct}
use upsgi.Cache.Table.Insert.{SameTable, SameTable-refl, SameTable-trans}
use upsgi.Cache.View.Same.{send_command-SameTable}
use upsgi.Cache.View.{lookup, IsCache, lookup-same}
use upsgi.Cache.View.Remove.{Only}

pub Only-trans :
    (o : Settings) (key : List ℕ) (c d e : Cache) → Only o key c d → Only o key d e → Only o key c e
Only-trans o key c d e a b = record {
  cache = b.cache;
  others = λ key' ne. b.others key' ne ∙ a.others key' ne;
}

module _ (o : Settings) (now : ℕ) (f : Flags) (key : List ℕ) where
  stamped-SameTable :
      (b : Bool) (c : Cache) → SameTable c (if b then record c { last_modified_at = now } else c)
  stamped-SameTable true c = record {
    next_of = λ j. refl;
    prev_of = λ j. refl;
    content_of = λ j. refl;
    slot_of = λ b. refl;
    unused_of = refl;
    memory_of = refl;
    bitmap_of = refl;
  }
  stamped-SameTable false c = SameTable-refl c

  told-SameTable : (b : Bool) (c : Cache) → SameTable c (if b then send_command o 10 key c else c)
  told-SameTable true c = send_command-SameTable o 10 key c
  told-SameTable false c = SameTable-refl c

  pub done_item-SameTable : (ret : Bool) (c : Cache) → SameTable c (done_item o now f key ret c).1
  unfolding done_item
  done_item-SameTable ret c = SameTable-trans (stamped-SameTable o.use_last_modified c) (
      told-SameTable (ret && not f.local)
        (if o.use_last_modified then record c { last_modified_at = now } else c))

  pub done_item-ret : (ret : Bool) (c : Cache) → (done_item o now f key ret c).0 ≡ ret
  unfolding done_item
  done_item-ret ret c = refl

-- the cache without the item on top of its stack
module _ (o : Settings) (c : Cache) (v : IsCache o c) (i : ℕ) (unused : List ℕ)
    (top : c.unused ≡ i ∷ unused) where
  abbrev pub popped : Cache
  popped = record c { unused = unused }

  unused_in : (j : ℕ) → has j unused ≡ true → has j c.unused ≡ true
  unused_in j h = ground (arith, ap (λ l. has j l) top, h)

  pub popped-IsCache : IsCache o popped
  popped-IsCache = record {
    chains = v.chains;
    table = record {
      linked = v.table.linked;
      apart = v.table.apart;
      keyed = v.table.keyed;
      below = v.table.below;
      reached = v.table.reached;
      keys = v.table.keys;
      idle = λ j h. v.table.idle j (unused_in j h);
      once = ground (arith, v.table.once, ap distinct top);
    };
    plain = v.plain;
    place = v.place;
    size = v.size;
  }

  pub popped-lookup : (key : List ℕ) → lookup o popped key ≡ lookup o c key
  popped-lookup key =
      lookup-same o c popped key v popped-IsCache
        (λ j h. (record { index = h.index; live = h.live; is_key = h.is_key }, refl))
        (λ j h. record { index = h.index; live = h.live; is_key = h.is_key })

  pub top-idle : (i ≢ 0) × (i < o.max_items) × ((c.items i).keysize ≡ 0)
  top-idle = v.table.idle i (ground (arith, ap (λ l. has i l) top))

  pub top-apart : has i unused ≡ false
  top-apart = ground (arith, v.table.once, ap distinct top)
