-- ===== src/Cache/View/Put.antt =====
-- insert_item over the map of a cache.
use mathlib.Core.Path.{subst}
use upsgi.Common.{
  ℕ, ◌*◌, ◌%◌, ◌≤◌, ◌≡◌, ◌≢◌, inl, inr, ap, sym, ◌∙◌, arith, true, List, [], ◌∷◌, some, ◌==◌,
  if◌then◌else◌, length, add64, Bool-cases,
}
use upsgi.Cache.Items.{Settings, Item, Cache, change, lru_add_item}
use upsgi.Cache.Ops.{
  Flags, flags_of, expiry, last_link, link_item, fill_item, insert_item, value_bytes, write_bytes,
}
use upsgi.Cache.Links.{has, last_of, Chain, Chain-frame, not_has-0, length-distinct, has-last_of}
use upsgi.Cache.Table.{nexts, prevs, bucket, IsTable}
use upsgi.Cache.Table.Delete.{content}
use upsgi.Cache.Table.Insert.{
  SameTable, SameTable-refl, SameTable-trans, lru_add_item-SameTable, expiry-SameTable,
  last_link-last_of, Linked, link_item-empty, link_item-behind,
}
use upsgi.Cache.Table.Added.{Added}

module _ (o : Settings) (now flags : ℕ) (key val : List ℕ) (expires i : ℕ) (c : Cache) where
  abbrev pub f : Flags
  f = flags_of flags

  abbrev pub listed : Cache
  listed = if o.purge_lru then lru_add_item i c else c

  abbrev pub scanned : Cache
  scanned = (expiry o now f expires listed).1

  abbrev pub due : ℕ
  due = (expiry o now f expires listed).0

  abbrev pub filled : Cache
  filled = fill_item o f flags key val due i i scanned

  listed-SameTable : SameTable c listed
  listed-SameTable = elim (Bool-cases o.purge_lru) [
    | inl e ↦ rw e (lru_add_item-SameTable i c)
    | inr e ↦ rw e (SameTable-refl c)
  ]

  scanned-SameTable : SameTable c scanned
  scanned-SameTable = SameTable-trans listed-SameTable (expiry-SameTable o now f expires listed)

  next-filled : (j : ℕ) → nexts filled j ≡ (if j == i then 0 else nexts c j)
  unfolding fill_item change
  next-filled j = ground (arith, scanned-SameTable.next_of j)

  prev-filled : (j : ℕ) → prevs filled j ≡ (if j == i then 0 else prevs c j)
  unfolding fill_item change
  prev-filled j = ground (arith, scanned-SameTable.prev_of j)

  slot-filled : (b : ℕ) → filled.hashtable b ≡ c.hashtable b
  unfolding fill_item change
  slot-filled b = scanned-SameTable.slot_of b

  content-filled : (j : ℕ) → j ≢ i → content (filled.items j) ≡ content (c.items j)
  unfolding fill_item change
  content-filled j ne = ground (arith, scanned-SameTable.content_of j, ne)

  unused-filled : filled.unused ≡ c.unused
  unfolding fill_item change
  unused-filled = scanned-SameTable.unused_of

  memory-filled :
      filled.memory ≡ write_bytes (i * o.blocksize) (value_bytes f o.math_initial val) c.memory
  unfolding fill_item change
  memory-filled =
      ap (write_bytes (i * o.blocksize) (value_bytes f o.math_initial val))
        scanned-SameTable.memory_of

  abbrev pub home : ℕ
  home = o.hash_of key % o.hashsize

  -- the fields of the new item
  pub record IsNew (x : Item) : Type 0 where
    pub new_key : x.key ≡ key
    pub new_size : x.keysize ≡ length key
    pub new_hash : x.hash ≡ o.hash_of key
    pub new_valsize : x.valsize ≡ length val
    pub new_block : x.first_block ≡ i
    pub new_flags : x.flags ≡ flags
    pub new_expires : x.expires ≡ due

  filled-IsNew : IsNew (filled.items i)
  unfolding fill_item change
  filled-IsNew = record {
    new_key = ground arith;
    new_size = ground arith;
    new_hash = ground arith;
    new_valsize = ground arith;
    new_block = ground arith;
    new_flags = ground arith;
    new_expires = ground arith;
  }

  nonzero_last :
      (x : ℕ) (l : List ℕ)
      → x ≢ 0
      → Chain (nexts filled) (prevs filled) x (nexts filled x) l
      → last_of x l ≢ 0
  nonzero_last x l nz chain z = ground (
    arith,
    has-last_of x l,
    not_has-0 (nexts filled) (prevs filled) x (nexts filled x) l chain,
    nz,
    z,
  )

  module _ (chains : ℕ → List ℕ) (t : IsTable o c chains) (dead : (c.items i).keysize ≡ 0) where
    outside : (b j : ℕ) → has j (chains b) ≡ true → j ≢ i
    outside b j h e = ground (arith, (t.keyed b j h).filled, ap (λ k. (c.items k).keysize) e, dead)

    filled-Chain : (b : ℕ) → Chain (nexts filled) (prevs filled) 0 (filled.hashtable b) (chains b)
    filled-Chain b =
        subst (λ r. Chain (nexts filled) (prevs filled) 0 r (chains b)) (sym (slot-filled b))
          (Chain-frame (nexts c) (prevs c) (nexts filled) (prevs filled) 0 (c.hashtable b)
            (chains b)
            (λ j h. (
              ground (arith, next-filled j, outside b j h),
              ground (arith, prev-filled j, outside b j h),
            ))
            (t.linked b))

    in_home : bucket o (filled.items i) ≡ home
    in_home = ap (λ h. h % o.hashsize) filled-IsNew.new_hash

    pub linked :
        (c' : Cache) × (link_item o i filled ≡ some c')
        × Linked o home i (last_of 0 (chains home)) filled c'
    linked =
        step (chains home) (filled-Chain home)
          (length-distinct o.max_items (chains home) (t.apart home) (t.below home))
      where
        step :
            (l : List ℕ)
            → Chain (nexts filled) (prevs filled) 0 (filled.hashtable home) l
            → length l ≤ o.max_items
            → (c' : Cache) × (link_item o i filled ≡ some c')
              × Linked o home i (last_of 0 l) filled c'
        step [] chain enough =
            link_item-empty o i home filled (ground (arith, prev-filled i)) in_home chain
        step (x ∷ l) (here, nonzero, back, chain) enough =
            let walk = last_link-last_of filled x x l o.max_items chain (omega arith) in
            link_item-behind o i home filled (ground (arith, prev-filled i)) (last_of x l) in_home
              (λ z. nonzero (sym here ∙ z)) (nonzero_last x l nonzero chain)
              (ap (last_link filled.items o.max_items) here ∙ walk)

    abbrev pub c1 : Cache
    c1 = linked.0

    abbrev pub result : Cache
    result = record c1 { n_items = add64 c1.n_items 1 }

    l : Linked o home i (last_of 0 (chains home)) filled c1
    l = linked.2

    pub insert_item-result : insert_item o now flags key val expires i i c ≡ some result
    unfolding insert_item
    insert_item-result = ground (arith, linked.1)

    content_of : (j : ℕ) → content (result.items j) ≡ content (filled.items j)
    content_of = l.content_of

    pub result-IsNew : IsNew (result.items i)
    result-IsNew =
        let same = content_of i in
        record {
          new_key = ap (λ (x : Item). x.key) same ∙ filled-IsNew.new_key;
          new_size = ap (λ (x : Item). x.keysize) same ∙ filled-IsNew.new_size;
          new_hash = ap (λ (x : Item). x.hash) same ∙ filled-IsNew.new_hash;
          new_valsize = ap (λ (x : Item). x.valsize) same ∙ filled-IsNew.new_valsize;
          new_block = ap (λ (x : Item). x.first_block) same ∙ filled-IsNew.new_block;
          new_flags = ap (λ (x : Item). x.flags) same ∙ filled-IsNew.new_flags;
          new_expires = ap (λ (x : Item). x.expires) same ∙ filled-IsNew.new_expires;
        }

    pub old_content : (j : ℕ) → j ≢ i → content (result.items j) ≡ content (c.items j)
    old_content j ne = content_of j ∙ content-filled j ne

    pub memory-result :
        result.memory ≡ write_bytes (i * o.blocksize) (value_bytes f o.math_initial val) c.memory
    memory-result = l.memory_of ∙ memory-filled

    pub bitmap-result : result.bitmap ≡ c.bitmap
    unfolding fill_item change
    bitmap-result = l.bitmap_of ∙ scanned-SameTable.bitmap_of

    module _ (nonzero : i ≢ 0) where
      not_last : last_of 0 (chains home) ≢ i
      not_last e =
          ground
            (arith, has-last_of 0 (chains home), outside home (last_of 0 (chains home)), e, nonzero)

      pub added : Added o i key (last_of 0 (chains home)) c result
      added = record {
        next_of = λ j nz ne. ground (arith, l.next_of j nz, next-filled j, ne);
        prev_of = λ j ne. ground (arith, l.prev_of j, prev-filled j, ne);
        next_new = ground (arith, l.next_of i nonzero, next-filled i, not_last);
        prev_new = ground (arith, l.prev_of i);
        slot_of = λ b. ground (arith, l.slot_of b, slot-filled b);
        content_of = old_content;
        new_key = result-IsNew.new_key;
        new_size = result-IsNew.new_size;
        new_hash = result-IsNew.new_hash;
        unused_of = l.unused_of ∙ unused-filled;
      }
