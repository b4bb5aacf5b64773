-- ===== src/Cache/View/Run.antt =====
-- Any calls of a cache that has no bitmap of blocks.

use upsgi.Common.{
  ℕ, zero, suc, ◌+◌, ◌-◌, ◌≤◌, ◌<◌, ◌≡◌, ◌≢◌, inl, inr, refl, arith, Bool, true, false, ◌&&◌, ◌||◌,
  List, [], ◌∷◌, Option, none, some, ltb, leb, ◌==◌, if◌then◌else◌, Bool-cases,
}
use upsgi.Cache.Items.{Settings, Cache, del_index}
use upsgi.Cache.Ops.{flags_of}
use upsgi.Cache.Links.{has, distinct}
use upsgi.Cache.View.Same.{SameTable-IsCache}
use upsgi.Cache.View.{IsCache}
use upsgi.Cache.View.Remove.{Got, present, absent, get_index-Got, del2-Only}
use upsgi.Cache.View.Stays.{set2-IsCache}
use upsgi.Cache.Table.Insert.{SameTable, SameTable-refl}
use upsgi.Cache.View.Get.{missed-SameTable, hit_item-SameTable, get_value-IsRead}
use upsgi.Cache.View.Purge.{del_index-Shrunk, counted-SameTable}
use upsgi.Cache.Life.{
  sweeper_item, sweeper_from, cache_sweeper_free_items, exists2, num_found, num2, init, push_from,
  Call, exists_call, get_call, num_call, del_call, set_call, sweep_call, call, run,
}

module _ (o : Settings) (now : ℕ) where
  sweeper_item-IsCache :
      (i : ℕ) (c : Cache) → IsCache o c → i ≢ 0 → IsCache o (sweeper_item o now i c)
  unfolding sweeper_item
  sweeper_item-IsCache i c v nz =
      let started = if i == 1 then record c { next_scan = 0 } else c in
      let scan = λ (d : Cache) (n : ℕ) (w : IsCache o d).
        SameTable-IsCache o d (record d { next_scan = n }) (counted-SameTable d.full n d) w in
      let vs : IsCache o started = either (i == 1) (record c { next_scan = 0 }) c (scan c 0 v) v in
      either ((c.items i).expires == 0) started
        (if leb (c.items i).expires now
          then del_index o now i started
          else if started.next_scan == 0 || ltb (c.items i).expires started.next_scan
          then record started { next_scan = (c.items i).expires }
          else started)
        vs
        (either (leb (c.items i).expires now) (del_index o now i started)
          (if started.next_scan == 0 || ltb (c.items i).expires started.next_scan
            then record started { next_scan = (c.items i).expires }
            else started)
          ((del_index-Shrunk o now i started vs nz).cache)
          (either (started.next_scan == 0 || ltb (c.items i).expires started.next_scan)
            (record started { next_scan = (c.items i).expires }) started
            (scan started (c.items i).expires vs) vs))
    where
      either : (b : Bool) (x y : Cache) → IsCache o x → IsCache o y → IsCache o (if b then x else y)
      either true x y hx hy = hx
      either false x y hx hy = hy

  sweeper_from-IsCache :
      (count i : ℕ) (c : Cache) → IsCache o c → i ≢ 0 → IsCache o (sweeper_from o now count i c)
  unfolding sweeper_from
  sweeper_from-IsCache zero i c v nz = v
  sweeper_from-IsCache (suc count) i c v nz =
      sweeper_from-IsCache count (i + 1) (sweeper_item o now i c) (sweeper_item-IsCache i c v nz)
        (omega arith)

  cache_sweeper_free_items-IsCache :
      (no_expire : Bool) (c : Cache)
      → IsCache o c
      → IsCache o (cache_sweeper_free_items o no_expire now c)
  unfolding cache_sweeper_free_items
  cache_sweeper_free_items-IsCache no_expire c v =
      elim (Bool-cases (no_expire || (o.purge_lru || o.lazy_expire))) [
        | inl e ↦ rw e v
        | inr e ↦ elim (Bool-cases (c.next_scan == 0 || ltb now c.next_scan)) [
          | inl e' ↦ rw (e, e') v
          | inr e' ↦ rw (e, e') (sweeper_from-IsCache (o.max_items - 1) 1 c v (omega arith))
        ]
      ]

module _ (o : Settings) (now : ℕ) (key : List ℕ) (c : Cache) (v : IsCache o c) where
  exists2-IsCache : (r : ℕ × Cache) × (exists2 o now key c ≡ some r) × IsCache o r.1
  unfolding exists2
  exists2-IsCache = step (get_index-Got o now key c v)
    where
      step :
          {g : Option (ℕ × Cache)}
          → Got o now key c g
          → (r : ℕ × Cache) × (g ≡ some r) × IsCache o r.1
      step (present {i} h) = ((i, c), refl, v)
      step (absent {c' = d} only none_holds stays expired) = ((0, d), refl, only.cache)

  num_found-SameTable : (i : ℕ) (d : Cache) → SameTable d (num_found o i d).1
  unfolding num_found
  num_found-SameTable i d = elim (Bool-cases (i == 0)) [
    | inl e ↦ rw e (missed-SameTable d)
    | inr e ↦ elim (Bool-cases (flags_of (d.items i).flags).ungettable) [
      | inl e' ↦ rw (e, e') (SameTable-refl d)
      | inr e' ↦ rw (e, e') (hit_item-SameTable o false i d)
    ]
  ]

  num2-IsCache : (r : ℕ × Cache) × (num2 o now key c ≡ some r) × IsCache o r.1
  unfolding num2
  num2-IsCache = step (get_index-Got o now key c v)
    where
      step :
          {g : Option (ℕ × Cache)}
          → Got o now key c g
          → (r : ℕ × Cache) × (elim g [ none ↦ none | some p ↦ some (num_found o p.0 p.1) ]
              ≡ some r)
            × IsCache o r.1
      step (present {i} h) = (
        num_found o i c,
        refl,
        SameTable-IsCache o c (num_found o i c).1 (num_found-SameTable i c) v,
      )
      step (absent {c' = d} only none_holds stays expired) = (
        num_found o 0 d,
        refl,
        SameTable-IsCache o d (num_found o 0 d).1 (num_found-SameTable 0 d) only.cache,
      )

module _ (o : Settings) (enough : o.max_item_size ≤ o.blocksize) where
  call-IsCache :
      (x : Call) (c : Cache) → IsCache o c → (d : Cache) × (call o x c ≡ some d) × IsCache o d
  unfolding call
  call-IsCache (exists_call now key) c v =
      let (r, e, w) = exists2-IsCache o now key c v in (r.1, rw e refl, w)
  call-IsCache (get_call now moves key) c v =
      let (r, e, w) = get_value-IsRead o now moves key c v in (r.1, rw e refl, w.only.cache)
  call-IsCache (num_call now key) c v =
      let (r, e, w) = num2-IsCache o now key c v in (r.1, rw e refl, w)
  call-IsCache (del_call now key is_local) c v =
      let (r, e, w, gone, rest) = del2-Only o now key c v is_local in (r.1, rw e refl, w.cache)
  call-IsCache (set_call now key val expires flags) c v =
      let (r, e, w) = set2-IsCache o enough now key val expires flags c v in (r.1, rw e refl, w)
  call-IsCache (sweep_call no_expire now) c v = (
    cache_sweeper_free_items o no_expire now c,
    refl,
    cache_sweeper_free_items-IsCache o now no_expire c v,
  )

  run-cons :
      (x : Call) (calls : List Call) (c d r : Cache)
      → call o x c ≡ some d
      → run o calls d ≡ some r
      → run o (x ∷ calls) c ≡ some r
  unfolding run
  run-cons x calls c d r e e' = ground (arith, e, e')

  -- Any calls
  pub run-IsCache :
      (calls : List Call) (c : Cache)
      → IsCache o c
      → (d : Cache) × (run o calls c ≡ some d) × IsCache o d
  unfolding run
  run-IsCache [] c v = (c, refl, v)
  run-IsCache (x ∷ calls) c v =
      let (d, e, w) = call-IsCache x c v in
      let (r, e', w') = run-IsCache calls d w in (r, run-cons x calls c d r e e', w')

-- the stack of a new cache
push_from-has :
    (count i : ℕ) (unused : List ℕ) (j : ℕ)
    → has j (push_from count i unused) ≡ (has j unused || (leb i j && ltb j (i + count)))
unfolding push_from
push_from-has zero i unused j = ground arith
push_from-has (suc count) i unused j = ground (arith, push_from-has count (i + 1) (i ∷ unused) j)

push_from-distinct :
    (count i : ℕ) (unused : List ℕ)
    → ((j : ℕ) → has j unused ≡ true → j < i)
    → distinct unused ≡ true
    → distinct (push_from count i unused) ≡ true
unfolding push_from
push_from-distinct zero i unused below apart = apart
push_from-distinct (suc count) i unused below apart =
    push_from-distinct count (i + 1) (i ∷ unused) (λ j h. ground (arith, below j, h))
      (ground (arith, below i, apart))

pub init-IsCache : (o : Settings) (memory : ℕ → ℕ) → IsCache o (init o none memory)
unfolding init
init-IsCache o memory = record {
  chains = λ b. [];
  table = record {
    linked = λ b. refl;
    apart = λ b. refl;
    keyed = λ b j h. ground (arith, h);
    below = λ b j h. ground (arith, h);
    reached = λ j nz live. ground (arith, live);
    keys = λ b j k hj hk e. ground (arith, hj);
    idle = λ j h.
        let inside = push_from-has (o.max_items - 1) 1 [] j in
        (ground (arith, inside, h), ground (arith, inside, h), refl);
    once = push_from-distinct (o.max_items - 1) 1 [] (λ j h. ground (arith, h)) refl;
  };
  plain = refl;
  place = λ j nz live. ground (arith, live);
  size = λ j nz live. ground (arith, live);
}

-- Any calls on a new cache without a bitmap, whose largest value fits into a block, all return and none
-- raises the alarm of a chain that does not end, and behind them the hash table, its chains, the stack of
-- unused items and the places of the values are sound.
pub run-init :
    (o : Settings)
    → o.max_item_size ≤ o.blocksize
    → (calls : List Call) (memory : ℕ → ℕ)
    → (d : Cache) × (run o calls (init o none memory) ≡ some d) × IsCache o d
run-init o enough calls memory =
    run-IsCache o enough calls (init o none memory) (init-IsCache o memory)
