-- ===== src/Cache/View/Inserted.antt =====
-- The map of a cache behind a new item.
use mathlib.Core.Path.{subst}
use upsgi.Common.{
  ℕ, ◌*◌, ◌≤◌, ◌<◌, ◌≡◌, ◌≢◌, inl, inr, ap, sym, ◌∙◌, arith, false, List, some, length,
}
use upsgi.Cache.Items.{Settings, Item, Cache}
use upsgi.Cache.Ops.{flags_of, value_bytes, write_bytes}
use upsgi.Cache.Links.{has, equal_or_not}
use upsgi.Cache.Table.{Holds}
use upsgi.Cache.Table.Delete.{content}
use upsgi.Cache.Table.Added.{Added-IsTable, chains_with}
use upsgi.Cache.View.{entry_of, lookup, IsCache, lookup-some, lookup-same}
use upsgi.Cache.View.Memory.{entry_of-elsewhere, entry_of-written}
use upsgi.Cache.View.Remove.{Only}
use upsgi.Cache.View.Put.{
  due, result, added, old_content, result-IsNew, memory-result, bitmap-result,
}

pub value_bytes-plain :
    (flags num : ℕ) (val : List ℕ)
    → (flags_of flags).math ≡ false
    → value_bytes (flags_of flags) num val ≡ val
unfolding value_bytes
value_bytes-plain flags num val e = ground (arith, e)

module _ (o : Settings) (now flags : ℕ) (key val : List ℕ) (expires i : ℕ) (c : Cache)
    (v : IsCache o c) (dead : (c.items i).keysize ≡ 0) (nonzero : i ≢ 0) (small : i < o.max_items)
    (popped : has i c.unused ≡ false) (some_key : 0 < length key) (fits : length val ≤ o.blocksize)
    (absent : (j : ℕ) → ¬ Holds c key j) where
  abbrev c' : Cache
  c' = result o now flags key val expires i c v.chains v.table dead

  old : (j : ℕ) → j ≢ i → content (c'.items j) ≡ content (c.items j)
  old = old_content o now flags key val expires i c v.chains v.table dead

  abbrev new : Item
  new = c'.items i

  new_valsize : new.valsize ≡ length val
  new_valsize = (result-IsNew o now flags key val expires i c v.chains v.table dead).new_valsize

  new_block : new.first_block ≡ i
  new_block = (result-IsNew o now flags key val expires i c v.chains v.table dead).new_block

  keysize_of : (j : ℕ) → j ≢ i → (c'.items j).keysize ≡ (c.items j).keysize
  keysize_of j ne = ap (λ (x : Item). x.keysize) (old j ne)

  pub cache : IsCache o c'
  cache = record {
    chains = chains_with o i key c c' v.chains;
    table =
        Added-IsTable o i key c c' v.chains v.table
          (added o now flags key val expires i c v.chains v.table dead nonzero) nonzero small dead
          popped some_key absent;
    plain = bitmap-result o now flags key val expires i c v.chains v.table dead ∙ v.plain;
    place = λ j nz live. elim (equal_or_not j i) [
      | inl (test, e) ↦ subst (λ k. (c'.items k).first_block ≡ k) (sym e) new_block
      | inr (test, ne) ↦
          ap (λ (x : Item). x.first_block) (old j ne)
          ∙ v.place j nz (omega (arith, keysize_of j ne, live))
    ];
    size = λ j nz live. elim (equal_or_not j i) [
      | inl (test, e) ↦
          subst (λ k. (c'.items k).valsize ≤ o.blocksize) (sym e) (omega (arith, new_valsize, fits))
      | inr (test, ne) ↦
          let bound = v.size j nz (omega (arith, keysize_of j ne, live)) in
          omega (arith, ap (λ (x : Item). x.valsize) (old j ne), bound)
    ];
  }

  module _ (plain : (flags_of flags).math ≡ false) where
    memory' : c'.memory ≡ write_bytes (i * o.blocksize) val c.memory
    memory' =
        memory-result o now flags key val expires i c v.chains v.table dead
        ∙ ap (λ b. write_bytes (i * o.blocksize) b c.memory)
            (value_bytes-plain flags o.math_initial val plain)

    -- the entry of an old item
    old_entry :
        (j : ℕ)
        → j ≢ 0
        → 0 < (c.items j).keysize
        → j ≢ i
        → entry_of o c'.memory (c'.items j) ≡ entry_of o c.memory (c.items j)
    old_entry j nz live ne =
        ap (λ (y : Item). entry_of o c'.memory y) (old j ne)
        ∙ entry_of-elsewhere o i j val c c'.memory v nz live (λ e. ne (sym e)) fits memory'

    new_holds : Holds c' key i
    new_holds =
        let n = result-IsNew o now flags key val expires i c v.chains v.table dead in
        record { index = nonzero; live = omega (arith, n.new_size, some_key); is_key = n.new_key }

    pub only : Only o key c c'
    only = record {
      cache = cache;
      others = λ key' ne.
          lookup-same o c c' key' v cache
            (λ j h.
              let other : j ≢ i =
                λ e. ground (arith, h.live, ap (λ k. (c.items k).keysize) e, dead) in
              (
                record {
                  index = h.index;
                  live = omega (arith, keysize_of j other, h.live);
                  is_key = ap (λ (x : Item). x.key) (old j other) ∙ h.is_key;
                },
                old_entry j h.index h.live other,
              ))
            (λ j h.
              let other : j ≢ i =
                λ e. ne (sym h.is_key ∙ ap (λ k. (c'.items k).key) e ∙ new_holds.is_key) in
              record {
                index = h.index;
                live = omega (arith, keysize_of j other, h.live);
                is_key = sym (ap (λ (x : Item). x.key) (old j other)) ∙ h.is_key;
              });
    }

    pub new_entry :
        lookup o c' key
        ≡ some
            (record { flags = flags; expires = due o now flags key val expires i c; value = val })
    new_entry =
        let n = result-IsNew o now flags key val expires i c v.chains v.table dead in
        lookup-some o c' cache key i new_holds
        ∙ ap some (entry_of-written o i val new c.memory c'.memory new_block new_valsize memory')
        ∙ ap (λ k. some (record { flags = k; expires = new.expires; value = val })) n.new_flags
        ∙ ap (λ k. some (record { flags = flags; expires = k; value = val })) n.new_expires
