-- ===== src/Cache/View/Set.antt =====
-- upsgi_cache_set2 over the map of a cache.

use upsgi.Common.{
  ℕ, ◌≤◌, ◌<◌, ◌≡◌, ◌≢◌, inl, inr, refl, ap, ◌∙◌, arith, Bool, true, false, List, [], ◌∷◌, Option,
  none, some, length, Bool-cases,
}
use upsgi.Cache.Items.{Settings, Cache}
use upsgi.Cache.Ops.{
  Flags, flags_of, cache_full, done_item, place_item, pop_item, set_found, update_item, renew_item,
  rewrite_item, set2,
}
use upsgi.Cache.Table.{Holds}
use upsgi.Cache.View.Same.{SameTable-lookup}
use upsgi.Cache.View.{Entry, entry_of, lookup, IsCache, lookup-some, lookup-none}
use upsgi.Cache.View.Steps.{
  Only-trans, done_item-SameTable, done_item-ret, popped, popped-IsCache, popped-lookup, top-idle,
  top-apart,
}
use upsgi.Cache.View.Remove.{Only, Only-refl, Only-SameTable, Got, present, absent, get_index-Got}
use upsgi.Cache.View.Inserted
use upsgi.Cache.View.Put.{due, result, insert_item-result}
use upsgi.Cache.View.Rewrite.{
  rewrite_item-Rewritten, rewrite_item-memory, renewed_bitmap, rewritten-Only, rewritten_entry,
}

-- the flags of an entry that was set: the ones of the call, or the ones it had
pub data IsFlags (o : Settings) (flags : ℕ) (key : List ℕ) (c : Cache) (e : Entry) : Type 0 where
  given : e.flags ≡ flags → IsFlags o flags key c e
  kept : (old : Entry) → lookup o c key ≡ some old → e.flags ≡ old.flags → IsFlags o flags key c e

-- What setting a key does: the value stands under the key, or the call fails, where the key has an entry that
-- may not be changed; the other keys keep their entries.
pub record Stores (o : Settings) (flags : ℕ) (key val : List ℕ) (c : Cache) (r : Bool × Cache)
    : Type 0 where
  pub only : Only o key c r.1
  pub stored :
      r.0 ≡ true
      → (e : Entry) × (lookup o r.1 key ≡ some e) × (e.value ≡ val) × IsFlags o flags key c e
  pub refused :
      r.0 ≡ false
      → ((flags_of flags).update ≡ false)
        × (lookup o r.1 key ≡ lookup o c key)
        × (lookup o c key ≢ none)

module _ (o : Settings) (now flags : ℕ) (key val : List ℕ) (expires : ℕ) (c : Cache)
    (v : IsCache o c) where
  pub update_item-plain :
      (i : ℕ)
      → update_item o now flags key val expires i c
        ≡ done_item o now (flags_of flags) key true (
            rewrite_item o
              (flags_of flags)
              val
              ((renew_item o now (flags_of flags) expires i c).items i).first_block
              i
              (renew_item o now (flags_of flags) expires i c))
  unfolding update_item
  update_item-plain i = ground (arith, renewed_bitmap o now flags val expires i c, v.plain)

module _ (o : Settings) (now flags : ℕ) (key val : List ℕ) (expires : ℕ) (c : Cache)
    (v : IsCache o c) (some_key : 0 < length key) (fits : length val ≤ o.blocksize)
    (plain : (flags_of flags).math ≡ false) where
  abbrev f : Flags
  f = flags_of flags

  -- behind a change that leaves the value under the key
  pub done_item-Stores :
      (d : Cache) (e : Entry)
      → Only o key c d
      → lookup o d key ≡ some e
      → e.value ≡ val
      → IsFlags o flags key c e
      → Stores o flags key val c (done_item o now f key true d)
  done_item-Stores d e only found value its_flags =
      let same = done_item-SameTable o now f key true d in
      record {
        only = Only-SameTable o key c d (done_item o now f key true d).1 same only;
        stored = λ h. (
          e,
          SameTable-lookup o d (done_item o now f key true d).1 same only.cache key ∙ found,
          value,
          its_flags,
        );
        refused = λ h. ground (arith, h, done_item-ret o now f key true d);
      }

  -- a new item
  pop_item-Stores :
      ((j : ℕ) → ¬ Holds c key j)
      → c.unused ≢ []
      → (r : Bool × Cache) × (pop_item o now flags key val expires c ≡ some r)
        × Stores o flags key val c r
  unfolding pop_item place_item
  pop_item-Stores none_holds free = step c.unused refl
    where
      step :
          (unused : List ℕ)
          → c.unused ≡ unused
          → (r : Bool × Cache) × (elim unused [
            | [] ↦ some (false, c)
            | index ∷ rest ↦
                place_item o now flags key val expires index (record c { unused = rest })
          ]
              ≡ some r)
            × Stores o flags key val c r
      step [] e = absurd (free e)
      step (i ∷ rest) e =
          let cp = popped o c v i rest e in
          let vp = popped-IsCache o c v i rest e in
          let (nonzero, small, dead) = top-idle o c v i rest e in
          let apart = top-apart o c v i rest e in
          let none_holds' = λ (j : ℕ) (h : Holds cp key j).
            none_holds j (record { index = h.index; live = h.live; is_key = h.is_key }) in
          let d = result o now flags key val expires i cp vp.chains vp.table dead in
          let only =
            Inserted.only o now flags key val expires i cp vp dead nonzero small apart some_key fits
              none_holds' plain in
          let entry =
            Inserted.new_entry o now flags key val expires i cp vp dead nonzero small apart some_key
              fits none_holds' plain in
          let inserted =
            insert_item-result o now flags key val expires i cp vp.chains vp.table dead in
          (
            done_item o now f key true d,
            ground (arith, v.plain, inserted),
            done_item-Stores d
                (record {
                  flags = flags;
                  expires = due o now flags key val expires i cp;
                  value = val;
                })
                (Only-trans o key c cp d
                  (record { cache = vp; others = λ key' ne. popped-lookup o c v i rest e key' })
                  only)
                entry refl (given refl),
          )

  -- an item that has the key already
  update_item-Stores :
      (i : ℕ)
      → Holds c key i
      → Stores o flags key val c (update_item o now flags key val expires i c)
  update_item-Stores i h =
      let w = rewrite_item-Rewritten o now flags val expires i c in
      let renewed = renew_item o now f expires i c in
      let d = rewrite_item o f val (renewed.items i).first_block i renewed in
      let written = rewrite_item-memory o now flags val expires i c plain in
      rw (update_item-plain o now flags key val expires c v i) (
        done_item-Stores d
          (record { flags = (c.items i).flags; expires = (d.items i).expires; value = val })
          (rewritten-Only o key val i c d v h fits w written)
          (rewritten_entry o key val i c d v h fits w written) refl
          (kept (entry_of o c.memory (c.items i)) (lookup-some o c v key i h) refl))

  kept-Stores :
      (i : ℕ)
      → Holds c key i
      → f.update ≡ false
      → Stores o flags key val c (done_item o now f key false c)
  kept-Stores i h e =
      let same = done_item-SameTable o now f key false c in
      let only =
        Only-SameTable o key c c (done_item o now f key false c).1 same (Only-refl o key c v) in
      record {
        only = only;
        stored = λ r. ground (arith, r, done_item-ret o now f key false c);
        refused = λ r. (
          e,
          SameTable-lookup o c (done_item o now f key false c).1 same v key,
          λ z. ground (arith, lookup-some o c v key i h, z),
        );
      }

module _ (o : Settings) (now flags : ℕ) (key val : List ℕ) (expires : ℕ) (c : Cache)
    (v : IsCache o c) (some_key : 0 < length key) (fits : length val ≤ o.blocksize)
    (plain : (flags_of flags).math ≡ false) (free : c.unused ≢ []) where
  given_flags :
      (d : Cache)
      → lookup o d key ≡ none
      → {e : Entry} → IsFlags o flags key d e
      → IsFlags o flags key c e
  given_flags d z (given h) = given h
  given_flags d z (kept old h same) = ground (arith, z, h)

  set_found-Stores :
      {g : Option (ℕ × Cache)}
      → Got o now key c g
      → (r : Bool × Cache) × (elim g [
        | none ↦ none
        | some p ↦ set_found o now flags key val expires p.0 p.1
      ]
          ≡ some r)
        × Stores o flags key val c r
  unfolding set_found
  set_found-Stores (present {i} h) = elim (Bool-cases (flags_of flags).update) [
    | inl e ↦ (
      update_item o now flags key val expires i c,
      ground (arith, h.index, e),
      update_item-Stores o now flags key val expires c v some_key fits plain i h,
    )
    | inr e ↦ (
      done_item o now (flags_of flags) key false c,
      ground (arith, h.index, e),
      kept-Stores o now flags key val expires c v some_key fits plain i h e,
    )
  ]
  set_found-Stores (absent {c' = d} only none_holds stays expired) =
      let room : elim d.unused [ [] ↦ cache_full o now d | index ∷ unused ↦ d ] ≡ d =
        ground (arith, stays free) in
      let (r, e, s) =
        pop_item-Stores o now flags key val expires d only.cache some_key fits plain none_holds
          (stays free) in
      (
        r,
        ap (pop_item o now flags key val expires) room ∙ e,
        record {
          only = Only-trans o key c d r.1 only s.only;
          stored = λ z.
              let (entry, found, value, its_flags) = s.stored z in
              (
                entry,
                found,
                value,
                given_flags d (lookup-none o d only.cache key none_holds) its_flags,
              );
          refused = λ z.
              let (no_update, same, present') = s.refused z in
              absurd (present' (lookup-none o d only.cache key none_holds));
        },
      )

  -- Of a sound cache without a bitmap that has an unused item, with a key and a value of sizes that it
  -- takes and no arithmetic: upsgi_cache_set2 ends; the other keys keep what stands under them; when it
  -- returns 0 the value stands under the key, with the flags of the call or those of the entry that was
  -- there; otherwise the key had an entry, the flag to update is off, and what stands under the key stays.
  pub set2-Stores :
      length key ≤ o.max_keysize
      → 0 < length val
      → length val ≤ o.max_item_size
      → (r : Bool × Cache) × (set2 o now key val expires flags c ≡ some r)
        × Stores o flags key val c r
  unfolding set2
  set2-Stores key_small some_val val_small =
      let (r, e, s) = set_found-Stores (get_index-Got o now key c v) in
      (r, ground (arith, plain, e, some_key, some_val, key_small, val_small), s)
