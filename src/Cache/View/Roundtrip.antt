-- ===== src/Cache/View/Roundtrip.antt =====
-- Setting a key of a cache and reading it.

use upsgi.Common.{
  ℕ, ◌≤◌, ◌<◌, ◌≡◌, ◌≢◌, ◌⊎◌, refl, ap, ◌∙◌, arith, Bool, true, false, List, [], Option, none, some,
  length,
}
use upsgi.Cache.Items.{Settings, Item, Cache}
use upsgi.Cache.Ops.{flags_of, set2, get_value}
use upsgi.Cache.View.{Entry, lookup, IsCache}
use upsgi.Cache.View.Set.{Stores, IsFlags, given, kept, set2-Stores}
use upsgi.Cache.View.Get.{IsRead, get_value-IsRead}

module _ (o : Settings) (key : List ℕ) (c : Cache) (e : Entry) (v : IsCache o c)
    (here : lookup o c key ≡ some e) (eager : o.lazy_expire ≡ false)
    (readable : (flags_of e.flags).ungettable ≡ false) where
  -- reading an entry that is there
  pub get_value-entry :
      (now : ℕ) (moves : Bool)
      → (x : Item) × (d : Cache) × (get_value o now moves key c ≡ some (some (x, e.value), d))
  get_value-entry now moves = step (get_value-IsRead o now moves key c v)
    where
      step :
          (r : Option (Item × List ℕ) × Cache) × (get_value o now moves key c ≡ some r)
            × IsRead o now key c r
          → (x : Item) × (d : Cache) × (get_value o now moves key c ≡ some (some (x, e.value), d))
      step ((none, d), eq, w) = ground (arith, w.missed e refl here, eager, readable)
      step ((some (x, bytes), d), eq, w) =
          let (same, found, shown) = w.value x bytes refl in
          let value : bytes ≡ e.value = ground (arith, found, here) in
          (x, d, eq ∙ ap (λ b. some (some (x, b), d)) value)

module _ (o : Settings) (now flags : ℕ) (key val : List ℕ) (expires : ℕ) (c : Cache)
    (v : IsCache o c) (some_key : 0 < length key) (key_small : length key ≤ o.max_keysize)
    (some_val : 0 < length val) (val_small : length val ≤ o.max_item_size)
    (fits : length val ≤ o.blocksize) (plain : (flags_of flags).math ≡ false) (free : c.unused ≢ [])
    (eager : o.lazy_expire ≡ false) (readable : (flags_of flags).ungettable ≡ false) where
  -- In a sound cache without a bitmap that has an unused item and no lazy expiry, a key and a value of
  -- sizes that it takes are set without arithmetic, to be read, and with the flag to update or where the
  -- key has no entry, and an entry that the key had is one to be read: the call returns 0, and every later
  -- read of the key gives the value, when nothing else is done in between.
  pub get_value-set2 :
      ((flags_of flags).update ≡ true) ⊎ (lookup o c key ≡ none)
      → ((e : Entry) → lookup o c key ≡ some e → (flags_of e.flags).ungettable ≡ false)
      → (d : Cache) × (set2 o now key val expires flags c ≡ some (true, d))
        × ((later : ℕ) (moves : Bool)
            → (x : Item) × (d' : Cache) × (get_value o later moves key d
                ≡ some (some (x, val), d')))
  get_value-set2 allowed was_readable = step (
      set2-Stores o now flags key val expires c v some_key fits plain free key_small some_val
        val_small)
    where
      entry_readable : (e : Entry) → IsFlags o flags key c e → (flags_of e.flags).ungettable ≡ false
      entry_readable e (given h) = ap (λ k. (flags_of k).ungettable) h ∙ readable
      entry_readable e (kept old l h) = ap (λ k. (flags_of k).ungettable) h ∙ was_readable old l

      step :
          (r : Bool × Cache) × (set2 o now key val expires flags c ≡ some r)
            × Stores o flags key val c r
          → (d : Cache) × (set2 o now key val expires flags c ≡ some (true, d))
            × ((later : ℕ) (moves : Bool)
                → (x : Item) × (d' : Cache) × (get_value o later moves key d
                    ≡ some (some (x, val), d')))
      step ((false, d), eq, s) =
          let (no_update, same, there) = s.refused refl in absurd (not_both no_update there)
        where
          not_both : (flags_of flags).update ≡ false → lookup o c key ≢ none → ⊥
          not_both n h = ground (arith, allowed, n, h)
      step ((true, d), eq, s) =
          let (e, found, value, its_flags) = s.stored refl in
          (
            d,
            eq,
            λ later moves.
                let (x, d', got) =
                  get_value-entry o key d e s.only.cache found eager (entry_readable e its_flags)
                    later moves in
                (x, d', got ∙ ap (λ b. some (some (x, b), d')) value),
          )
