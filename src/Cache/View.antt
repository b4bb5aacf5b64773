-- ===== src/Cache/View.antt =====
-- The map of a cache: what stands under each key, as a search finds it.
pub mod Same
pub mod Remove
pub mod Memory
pub mod Put
pub mod Inserted
pub mod Rewrite
pub mod Steps
pub mod Set
pub mod Get
pub mod Roundtrip
pub mod Purge
pub mod Stays
pub mod Run
pub mod Fix
use mathlib.Core.Path.{subst}
use upsgi.Common.{
  ℕ, ◌*◌, ◌%◌, ◌≤◌, ◌<◌, ◌≡◌, ◌≢◌, refl, ap, sym, ◌∙◌, arith, true, List, Option, none, some, ◌==◌,
  if◌then◌else◌,
}
use upsgi.Cache.Items.{Settings, Item, Cache, Lookup, at, alarm, get_slot}
use upsgi.Cache.Ops.{read_bytes}
use upsgi.Cache.Links.{has}
use upsgi.Cache.Table.{bucket, IsTable, Holds, Finds, found, missing, get_slot-Finds}

-- what stands under a key
pub record Entry : Type 0 where
  pub flags : ℕ
  pub expires : ℕ
  pub value : List ℕ

abbrev pub entry_of : Settings → (ℕ → ℕ) → Item → Entry
entry_of o memory uci = record {
  flags = uci.flags;
  expires = uci.expires;
  value = read_bytes memory (uci.first_block * o.blocksize) uci.valsize;
}

unfoldable pub entry_at : Settings → Cache → Lookup → Option Entry
entry_at o c (at i) = if i == 0 then none else some (entry_of o c.memory (c.items i))
entry_at o c alarm = none

-- the entry of a key, if it has one
unfoldable pub lookup : Settings → Cache → List ℕ → Option Entry
unfolding entry_at
lookup o c key = entry_at o c (get_slot o key c)

-- A cache without a bitmap of blocks, between the calls: its hash table, and each item's value in the block
-- of the item.
pub record IsCache (o : Settings) (c : Cache) : Type 0 where
  pub chains : ℕ → List ℕ
  pub table : IsTable o c chains
  pub plain : c.bitmap ≡ none
  pub place : (j : ℕ) → j ≢ 0 → 0 < (c.items j).keysize → (c.items j).first_block ≡ j
  pub size : (j : ℕ) → j ≢ 0 → 0 < (c.items j).keysize → (c.items j).valsize ≤ o.blocksize

module _ (o : Settings) (c : Cache) (v : IsCache o c) (key : List ℕ) where
  pub Holds-unique : (i j : ℕ) → Holds c key i → Holds c key j → i ≡ j
  Holds-unique i j hi hj =
      let t = v.table in
      let ki = t.reached i hi.index hi.live in
      let kj = t.reached j hj.index hj.live in
      let same : (c.items i).key ≡ (c.items j).key = hi.is_key ∙ sym hj.is_key in
      let hash : (c.items j).hash ≡ (c.items i).hash =
        (t.keyed (bucket o (c.items j)) j kj).hashed
        ∙ ap o.hash_of (sym same)
        ∙ sym ((t.keyed (bucket o (c.items i)) i ki).hashed) in
      t.keys (bucket o (c.items i)) i j ki
        (subst (λ h. has j (v.chains (h % o.hashsize)) ≡ true) hash kj) same

  pub lookup-some :
      (i : ℕ) → Holds c key i → lookup o c key ≡ some (entry_of o c.memory (c.items i))
  unfolding lookup entry_at
  lookup-some i h = step (get_slot-Finds o c key v.chains v.table)
    where
      step : {r : Lookup} → Finds c key r → entry_at o c r ≡ some (entry_of o c.memory (c.items i))
      step (found {i = j} hj) =
          subst (λ k. entry_at o c (at k) ≡ some (entry_of o c.memory (c.items i)))
            (Holds-unique i j h hj) (ground (arith, h.index))
      step (missing f) = absurd (f i h)

  pub lookup-none : ((i : ℕ) → ¬ Holds c key i) → lookup o c key ≡ none
  unfolding lookup entry_at
  lookup-none none_holds = step (get_slot-Finds o c key v.chains v.table)
    where
      step : {r : Lookup} → Finds c key r → entry_at o c r ≡ none
      step (found {i = j} hj) = absurd (none_holds j hj)
      step (missing f) = refl

  pub lookup-holder :
      (e : Entry)
      → lookup o c key ≡ some e
      → (j : ℕ) × Holds c key j × (entry_of o c.memory (c.items j) ≡ e)
  lookup-holder e l = step (get_slot-Finds o c key v.chains v.table)
    where
      step :
          {r : Lookup}
          → Finds c key r
          → (j : ℕ) × Holds c key j × (entry_of o c.memory (c.items j) ≡ e)
      step (found {i = j} h) = (j, h, ground (arith, lookup-some j h, l))
      step (missing f) = ground (arith, lookup-none f, l)

-- a key has the same entry in two caches if the same items hold it with the same entries
pub lookup-same :
    (o : Settings) (c c' : Cache) (key : List ℕ)
    → IsCache o c
    → IsCache o c'
    → ((j : ℕ)
        → Holds c key j
        → Holds c' key j × (entry_of o c'.memory (c'.items j) ≡ entry_of o c.memory (c.items j)))
    → ((j : ℕ) → Holds c' key j → Holds c key j)
    → lookup o c' key ≡ lookup o c key
lookup-same o c c' key v v' forth back = step (get_slot-Finds o c key v.chains v.table)
  where
    step : {r : Lookup} → Finds c key r → lookup o c' key ≡ lookup o c key
    step (found {i} h) =
        let (h', e) = forth i h in
        lookup-some o c' v' key i h' ∙ ap some e ∙ sym (lookup-some o c v key i h)
    step (missing f) =
        lookup-none o c' v' key (λ j h. f j (back j h)) ∙ sym (lookup-none o c v key f)
