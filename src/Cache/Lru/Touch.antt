-- ===== src/Cache/Lru/Touch.antt =====
-- Reading a key of a cache that purges the least recently used item.

use upsgi.Common.{ℕ, ◌*◌, ◌≡◌, ◌≢◌, ap, arith, true, false, List, [], ◌∷◌, ◌++◌, Option, some}
use upsgi.Cache.Items.{Settings, Item, Cache, get_index}
use upsgi.Cache.Ops.{flags_of, read_bytes, hit_item, get_found, get_value}
use upsgi.Cache.Links.{has, without}
use upsgi.Cache.Table.{Holds}
use upsgi.Cache.View.{IsCache, Holds-unique}
use upsgi.Cache.View.Remove.{Got, present, absent, get_index-Got}
use upsgi.Cache.Lru.{IsLru}
use upsgi.Cache.Lru.Order.{hit_item-IsLru}

module _ (o : Settings) (now : ℕ) (key : List ℕ) (c : Cache) (i : ℕ) (l : List ℕ) (v : IsCache o c)
    (h : Holds c key i) (lru : o.purge_lru ≡ true) (eager : o.lazy_expire ≡ false)
    (readable : (flags_of (c.items i).flags).ungettable ≡ false) (s : IsLru c l)
    (listed : has i l ≡ true) where
  found_here : get_index o now key c ≡ some (i, c)
  found_here = step (get_index-Got o now key c v)
    where
      step : {g : Option (ℕ × Cache)} → Got o now key c g → g ≡ some (i, c)
      step (present {i = j} hj) = ap (λ k. some (k, c)) (Holds-unique o c v key j i hj h)
      step (absent only none_holds stays expired) = ground (arith, expired i h, eager)

  -- In a sound cache without a bitmap and without lazy expiry that purges the least recently used item,
  -- upsgi_cache_get2 and _get3 of a key that an item of the list holds, which is one to be read, give its
  -- value and move the item to the end of the list.
  pub get_value-IsLru :
      (x : Item) × (d : Cache) × (get_value o now true key c
        ≡ some (
          some (x, read_bytes c.memory ((c.items i).first_block * o.blocksize) (c.items i).valsize),
          d,
        ))
      × IsLru d (without i l ++ i ∷ [])
  unfolding get_value get_found
  get_value-IsLru =
      let nz : i ≢ 0 = h.index in
      (
        c.items i,
        hit_item o true i c,
        ground (arith, found_here, nz, readable),
        hit_item-IsLru o i c l lru nz s listed,
      )
