-- ===== src/Cache/Table/Unlink.antt =====
-- The hash table behind the deletion of an item.
use mathlib.Core.Path.{subst}
use upsgi.Common.{
  ℕ, ◌%◌, ◌<◌, ◌≡◌, ◌≢◌, inl, inr, ap, sym, ◌∙◌, arith, true, false, List, ◌==◌, if◌then◌else◌,
  length,
}
use upsgi.Cache.Items.{Settings, Item, Cache}
use upsgi.Cache.Links.{
  has, distinct, without, Chain, equal_or_not, Chain-frame, Chain-first, not_has-0, next-in,
  prev-in, unlink-Chain, has-without_ne, has-without_self, has-of_without, distinct-without,
}
use upsgi.Cache.Table.{nexts, prevs, bucket, IsKeyed, IsTable}
use upsgi.Cache.Table.Delete.{content, Deleted, chains_without}

pub IsKeyed-content :
    (o : Settings) (b : ℕ) {x y : Item} → content x ≡ content y → IsKeyed o b y → IsKeyed o b x
IsKeyed-content o b {x} {y} e k =
    let hash : x.hash ≡ y.hash = ap (λ (u : Item). u.hash) e in
    let key : x.key ≡ y.key = ap (λ (u : Item). u.key) e in
    let size : x.keysize ≡ y.keysize = ap (λ (u : Item). u.keysize) e in
    record {
      hashed = hash ∙ k.hashed ∙ ap o.hash_of (sym key);
      sized = size ∙ k.sized ∙ ap length (sym key);
      filled = omega (arith, size, k.filled);
      in_bucket = ap (λ h. h % o.hashsize) hash ∙ k.in_bucket;
    }

module _ (o : Settings) (i : ℕ) (c c' : Cache) (chains : ℕ → List ℕ) (t : IsTable o c chains)
    (d : Deleted o i c c') (nonzero : i ≢ 0) (live : 0 < (c.items i).keysize) where
  abbrev b0 : ℕ
  b0 = bucket o (c.items i)

  inside : has i (chains b0) ≡ true
  inside = t.reached i nonzero live

  no_zero : (b : ℕ) → has 0 (chains b) ≡ false
  no_zero b = not_has-0 (nexts c) (prevs c) 0 (c.hashtable b) (chains b) (t.linked b)

  -- an item stands in the chain of its bucket only
  own : (b j : ℕ) → has j (chains b) ≡ true → bucket o (c.items j) ≡ b
  own b j h = (t.keyed b j h).in_bucket

  not_next : (b j : ℕ) → b ≢ b0 → has j (chains b) ≡ true → j ≢ nexts c i
  not_next b j ne h e =
      elim (next-in (nexts c) (prevs c) 0 (c.hashtable b0) (chains b0) i (t.linked b0) inside) [
        | inl z ↦ absurd (ground (arith, no_zero b, e, z, h))
        | inr m ↦ ne (sym (own b j h) ∙ ap (λ k. bucket o (c.items k)) e ∙ own b0 (nexts c i) m)
      ]

  not_prev : (b j : ℕ) → b ≢ b0 → has j (chains b) ≡ true → j ≢ prevs c i
  not_prev b j ne h e =
      elim (prev-in (nexts c) (prevs c) 0 (c.hashtable b0) (chains b0) i (t.linked b0) inside) [
        | inl z ↦ absurd (ground (arith, no_zero b, e, z, h))
        | inr m ↦ ne (sym (own b j h) ∙ ap (λ k. bucket o (c.items k)) e ∙ own b0 (prevs c i) m)
      ]

  not_self : (b j : ℕ) → b ≢ b0 → has j (chains b) ≡ true → j ≢ i
  not_self b j ne h e = ne (sym (own b j h) ∙ ap (λ k. bucket o (c.items k)) e)

  other_linked : (b : ℕ) → b ≢ b0 → Chain (nexts c') (prevs c') 0 (c'.hashtable b) (chains b)
  other_linked b ne =
      let slot : c'.hashtable b ≡ c.hashtable b = ground (arith, d.slot_of b, ne) in
      subst (λ r. Chain (nexts c') (prevs c') 0 r (chains b)) (sym slot)
        (Chain-frame (nexts c) (prevs c) (nexts c') (prevs c') 0 (c.hashtable b) (chains b)
          (λ j h.
            let nz : j ≢ 0 = λ z. ground (arith, no_zero b, h, z) in
            let ns = not_self b j ne h in
            (
              ground (arith, d.next_of j nz ns, not_prev b j ne h),
              ground (arith, d.prev_of j nz ns, not_next b j ne h),
            ))
          (t.linked b))

  own_linked : Chain (nexts c') (prevs c') 0 (c'.hashtable b0) (without i (chains b0))
  own_linked =
      let c0 = t.linked b0 in
      let head : (prevs c i == 0) ≡ (c.hashtable b0 == i) = ground (
        arith,
        prev-in (nexts c) (prevs c) 0 (c.hashtable b0) (chains b0) i c0 inside,
        no_zero b0,
        first,
        nonzero,
      ) in
      let slot : (if c.hashtable b0 == i then nexts c i else c.hashtable b0) ≡ c'.hashtable b0 =
        ground (arith, d.slot_of b0, head) in
      subst (λ r. Chain (nexts c') (prevs c') 0 r (without i (chains b0))) slot
        (unlink-Chain (nexts c) (prevs c) (nexts c') (prevs c') i d.next_of d.prev_of 0
          (c.hashtable b0) (chains b0) c0 (t.apart b0) (no_zero b0) inside)
    where
      first : c.hashtable b0 ≡ i → prevs c i ≡ 0
      first e =
          ap (prevs c) (sym e)
          ∙ Chain-first (nexts c) (prevs c) 0 (c.hashtable b0) (chains b0) (t.linked b0)
              (λ z. nonzero (sym e ∙ z))

  abbrev chains' : ℕ → List ℕ
  chains' = chains_without b0 i chains

  -- the members of the new chains are those of the old ones, but for the item
  member : (b j : ℕ) → has j (chains' b) ≡ true → (has j (chains b) ≡ true) × (j ≢ i)
  member b j h = elim (equal_or_not b b0) [
    | inl (test, e) ↦
        let h' : has j (without i (chains b)) ≡ true =
          subst (λ u. has j (if u then without i (chains b) else chains b) ≡ true) test h in
        (
          has-of_without i j (chains b) h',
          λ same. ground (
            arith,
            has-without_self i (chains b) (t.apart b),
            subst (λ k. has k (without i (chains b)) ≡ true) same h',
          ),
        )
    | inr (test, ne) ↦
        let h' : has j (chains b) ≡ true =
          subst (λ u. has j (if u then without i (chains b) else chains b) ≡ true) test h in
        (h', not_self b j ne h')
  ]

  member_of : (b j : ℕ) → has j (chains b) ≡ true → j ≢ i → has j (chains' b) ≡ true
  member_of b j h ne = ground (arith, h, has-without_ne i j (chains b) ne)

  same_content : (b j : ℕ) → has j (chains' b) ≡ true → content (c'.items j) ≡ content (c.items j)
  same_content b j h = d.content_of j ((member b j h).1)

  linked : (b : ℕ) → Chain (nexts c') (prevs c') 0 (c'.hashtable b) (chains' b)
  linked b = elim (equal_or_not b b0) [
    | inl (test, e) ↦ rw test (
        subst (λ k. Chain (nexts c') (prevs c') 0 (c'.hashtable k) (without i (chains k))) (sym e)
          own_linked)
    | inr (test, ne) ↦ rw test (other_linked b ne)
  ]

  idle : (j : ℕ) → has j c'.unused ≡ true → (j ≢ 0) × (j < o.max_items) × ((c'.items j).keysize ≡ 0)
  idle j h = elim (equal_or_not j i) [
    | inl (test, e) ↦
        subst (λ k. (k ≢ 0) × (k < o.max_items) × ((c'.items k).keysize ≡ 0)) (sym e)
          (nonzero, t.below b0 i inside, d.dead)
    | inr (test, ne) ↦
        let in_stack : has j c.unused ≡ true =
          ground (arith, subst (λ l. has j l ≡ true) d.unused_of h) in
        let (nz, small, dead) = t.idle j in_stack in
        (nz, small, ap (λ (x : Item). x.keysize) (d.content_of j ne) ∙ dead)
  ]

  reached :
      (j : ℕ) → j ≢ 0 → 0 < (c'.items j).keysize → has j (chains' (bucket o (c'.items j))) ≡ true
  reached j nz filled =
      let ne : j ≢ i = λ e. ground (arith, filled, ap (λ k. (c'.items k).keysize) e, d.dead) in
      let same = d.content_of j ne in
      let keysize : (c'.items j).keysize ≡ (c.items j).keysize =
        ap (λ (x : Item). x.keysize) same in
      let at_home =
        member_of (bucket o (c.items j)) j (t.reached j nz (omega (arith, keysize, filled))) ne in
      subst (λ b. has j (chains' b) ≡ true) (sym (ap (λ (x : Item). bucket o x) same)) at_home

  keys :
      (b j k : ℕ)
      → has j (chains' b) ≡ true
      → has k (chains' b) ≡ true
      → (c'.items j).key ≡ (c'.items k).key
      → j ≡ k
  keys b j k hj hk same = t.keys b j k ((member b j hj).0) ((member b k hk).0) (
      sym (ap (λ (x : Item). x.key) (same_content b j hj))
      ∙ same
      ∙ ap (λ (x : Item). x.key) (same_content b k hk))

  pub Deleted-IsTable : IsTable o c' chains'
  Deleted-IsTable = record {
    linked = linked;
    apart = λ b. ground (arith, t.apart b, distinct-without i (chains b));
    keyed = λ b j h. IsKeyed-content o b (same_content b j h) (t.keyed b j ((member b j h).0));
    below = λ b j h. t.below b j ((member b j h).0);
    reached = reached;
    keys = keys;
    idle = idle;
    once =
        subst (λ l. distinct l ≡ true) (sym d.unused_of) (ground (arith, t.idle i, t.once, live));
  }

-- Deleting an item leaves a table: nobody holds its key any more, and the other items are as they were.
pub record Dropped (o : Settings) (i : ℕ) (c c' : Cache) : Type 0 where
  pub chains : ℕ → List ℕ
  pub table : IsTable o c' chains
  pub gone : (c'.items i).keysize ≡ 0
  pub others : (j : ℕ) → j ≢ i → content (c'.items j) ≡ content (c.items j)
