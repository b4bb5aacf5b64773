-- ===== src/Cache/View/Stays.antt =====
-- The hash table of a cache behind any call of upsgi_cache_set2.

use upsgi.Common.{
  ℕ, ◌≤◌, ◌<◌, ◌≡◌, inl, inr, refl, arith, Bool, true, false, not, ◌&&◌, ◌||◌, List, [], ◌∷◌,
  Option, none, some, ltb, ◌==◌, length, Bool-cases,
}
use upsgi.Cache.Items.{Settings, Cache}
use upsgi.Cache.Ops.{
  Flags, flags_of, cache_full, done_item, place_item, pop_item, update_item, renew_item,
  rewrite_item, set_found, set2,
}
use upsgi.Cache.Table.{Holds}
use upsgi.Cache.View.Same.{SameTable-IsCache}
use upsgi.Cache.View.{IsCache}
use upsgi.Cache.View.Remove.{Got, present, absent, get_index-Got}
use upsgi.Cache.View.Inserted
use upsgi.Cache.View.Put.{result, insert_item-result}
use upsgi.Cache.View.Rewrite.{rewrite_item-Rewritten, rewritten-IsCache}
use upsgi.Cache.View.Steps.{done_item-SameTable, popped, popped-IsCache, top-idle, top-apart}
use upsgi.Cache.View.Set.{update_item-plain}
use upsgi.Cache.View.Purge.{Shrunk, cache_full-Shrunk, Shrunk-refl}

module _ (o : Settings) (now flags : ℕ) (key val : List ℕ) (expires : ℕ) (some_key : 0 < length key)
    (fits : length val ≤ o.blocksize) where
  abbrev f : Flags
  f = flags_of flags

  done_item-IsCache :
      (ret : Bool) (d : Cache) → IsCache o d → IsCache o (done_item o now f key ret d).1
  done_item-IsCache ret d v =
      SameTable-IsCache o d (done_item o now f key ret d).1 (done_item-SameTable o now f key ret d)
        v

  pop_item-IsCache :
      (c : Cache)
      → IsCache o c
      → ((j : ℕ) → ¬ Holds c key j)
      → (r : Bool × Cache) × (pop_item o now flags key val expires c ≡ some r) × IsCache o r.1
  unfolding pop_item place_item
  pop_item-IsCache c v none_holds = step c.unused refl
    where
      step :
          (unused : List ℕ)
          → c.unused ≡ unused
          → (r : Bool × Cache) × (elim unused [
            | [] ↦ some (false, c)
            | index ∷ rest ↦
                place_item o now flags key val expires index (record c { unused = rest })
          ]
              ≡ some r)
            × IsCache o r.1
      step [] e = ((false, c), refl, v)
      step (i ∷ rest) e =
          let cp = popped o c v i rest e in
          let vp = popped-IsCache o c v i rest e in
          let (nonzero, small, dead) = top-idle o c v i rest e in
          let apart = top-apart o c v i rest e in
          let none_holds' = λ (j : ℕ) (h : Holds cp key j).
            none_holds j (record { index = h.index; live = h.live; is_key = h.is_key }) in
          let d = result o now flags key val expires i cp vp.chains vp.table dead in
          let inserted =
            insert_item-result o now flags key val expires i cp vp.chains vp.table dead in
          (
            done_item o now f key true d,
            ground (arith, v.plain, inserted),
            done_item-IsCache true d (
                Inserted.cache o now flags key val expires i cp vp dead nonzero small apart some_key
                  fits none_holds'),
          )

  update_item-IsCache :
      (c : Cache) (i : ℕ)
      → IsCache o c
      → Holds c key i
      → IsCache o (update_item o now flags key val expires i c).1
  update_item-IsCache c i v h =
      let w = rewrite_item-Rewritten o now flags val expires i c in
      let renewed = renew_item o now f expires i c in
      let d = rewrite_item o f val (renewed.items i).first_block i renewed in
      rw (update_item-plain o now flags key val expires c v i)
        (done_item-IsCache true d (rewritten-IsCache o key val i c d v h fits w))

  full_or_not :
      (d : Cache)
      → IsCache o d
      → Shrunk o d (elim d.unused [ [] ↦ cache_full o now d | index ∷ unused ↦ d ])
  full_or_not d v = step d.unused
    where
      step :
          (unused : List ℕ)
          → Shrunk o d (elim unused [ [] ↦ cache_full o now d | index ∷ rest ↦ d ])
      step [] = cache_full-Shrunk o now d v
      step (i ∷ rest) = Shrunk-refl o d v

  set_found-IsCache :
      (c : Cache) {g : Option (ℕ × Cache)}
      → IsCache o c
      → Got o now key c g
      → (r : Bool × Cache) × (elim g [
        | none ↦ none
        | some p ↦ set_found o now flags key val expires p.0 p.1
      ]
          ≡ some r)
        × IsCache o r.1
  unfolding set_found
  set_found-IsCache c v (present {i} h) = elim (Bool-cases f.update) [
    | inl e ↦ (
      update_item o now flags key val expires i c,
      ground (arith, h.index, e),
      update_item-IsCache c i v h,
    )
    | inr e ↦
        (done_item o now f key false c, ground (arith, h.index, e), done_item-IsCache false c v)
  ]
  set_found-IsCache c v (absent {c' = d} only none_holds stays expired) =
      let room : Cache = elim d.unused [ [] ↦ cache_full o now d | index ∷ unused ↦ d ] in
      let fewer = full_or_not d only.cache in
      pop_item-IsCache room fewer.cache (λ j h. none_holds j (fewer.back key j h))

module _ (o : Settings) (enough : o.max_item_size ≤ o.blocksize) where
  pub set2-IsCache :
      (now : ℕ) (key val : List ℕ) (expires flags : ℕ) (c : Cache)
      → IsCache o c
      → (r : Bool × Cache) × (set2 o now key val expires flags c ≡ some r) × IsCache o r.1
  unfolding set2
  set2-IsCache now key val expires flags c v =
      elim (Bool-cases (length key == 0 || length val == 0)) [
        | inl bad ↦ ((false, c), ground (arith, bad), v)
        | inr good ↦
            elim (Bool-cases (ltb o.max_keysize (length key) || ltb o.max_item_size (length val))) [
              | inl bad ↦ ((false, c), ground (arith, good, bad), v)
              | inr small ↦ elim (Bool-cases ((flags_of flags).math && not (length val == 8))) [
                | inl bad ↦ ((false, c), ground (arith, good, small, bad), v)
                | inr right ↦
                    let (r, e, w) =
                      set_found-IsCache o now flags key val expires (ground (arith, good))
                        (ground (arith, small, enough)) c v (get_index-Got o now key c v) in
                    (r, ground (arith, good, small, right, e), w)
              ]
            ]
      ]
