-- ===== src/Cache/Table/Added.antt =====
-- The hash table behind a new item.
use mathlib.Core.Path.{subst}
use upsgi.Common.{
  ℕ, ◌%◌, ◌<◌, ◌≡◌, ◌≢◌, ◌⊎◌, inl, inr, ap, sym, ◌∙◌, arith, true, false, ◌&&◌, List, [], ◌∷◌, ◌++◌,
  ◌==◌, if◌then◌else◌, length, Bool-cases,
}
use upsgi.Cache.Items.{Settings, Item, Cache}
use upsgi.Cache.Links.{
  has, distinct, last_of, Chain, equal_or_not, Chain-frame, not_has-0, empty_iff, has-last_of,
  push-Chain, has-snoc, distinct-snoc,
}
use upsgi.Cache.Table.{nexts, prevs, bucket, IsKeyed, IsTable, Holds}
use upsgi.Cache.Table.Delete.{content}
use upsgi.Cache.Table.Unlink.{IsKeyed-content}

-- The state in which the item `i` with this key stands behind the last item of its chain.
pub record Added (o : Settings) (i : ℕ) (key : List ℕ) (last : ℕ) (c c' : Cache) : Type 0 where
  pub next_of : (j : ℕ) → j ≢ 0 → j ≢ i → nexts c' j ≡ (if j == last then i else nexts c j)
  pub prev_of : (j : ℕ) → j ≢ i → prevs c' j ≡ prevs c j
  pub next_new : nexts c' i ≡ 0
  pub prev_new : prevs c' i ≡ last
  pub slot_of :
      (b : ℕ)
      → c'.hashtable b ≡ (if last == 0 && b == o.hash_of key % o.hashsize then i else c.hashtable b)
  pub content_of : (j : ℕ) → j ≢ i → content (c'.items j) ≡ content (c.items j)
  pub new_key : (c'.items i).key ≡ key
  pub new_size : (c'.items i).keysize ≡ length key
  pub new_hash : (c'.items i).hash ≡ o.hash_of key
  pub unused_of : c'.unused ≡ c.unused

module _ (o : Settings) (i : ℕ) (key : List ℕ) (c c' : Cache) (chains : ℕ → List ℕ) where
  abbrev home : ℕ
  home = o.hash_of key % o.hashsize

  abbrev pub chains_with : ℕ → List ℕ
  chains_with b = if b == home then chains b ++ i ∷ [] else chains b

  module _ (t : IsTable o c chains) (d : Added o i key (last_of 0 (chains home)) c c')
      (nonzero : i ≢ 0) (small : i < o.max_items) (dead : (c.items i).keysize ≡ 0)
      (popped : has i c.unused ≡ false) (some_key : 0 < length key)
      (absent : (j : ℕ) → ¬ Holds c key j) where
    abbrev last : ℕ
    last = last_of 0 (chains home)

    no_zero : (b : ℕ) → has 0 (chains b) ≡ false
    no_zero b = not_has-0 (nexts c) (prevs c) 0 (c.hashtable b) (chains b) (t.linked b)

    outside : (b : ℕ) → has i (chains b) ≡ false
    outside b = elim (Bool-cases (has i (chains b))) [
      | inl h ↦ absurd (omega (arith, (t.keyed b i h).filled, dead))
      | inr h ↦ h
    ]

    not_self : (b j : ℕ) → has j (chains b) ≡ true → j ≢ i
    not_self b j h e = ground (arith, h, outside b, ap (λ k. has k (chains b)) e)

    not_last : (b j : ℕ) → b ≢ home → has j (chains b) ≡ true → j ≢ last
    not_last b j ne h e = elim (has-last_of 0 (chains home)) [
      | inl z ↦ absurd (ground (arith, no_zero b, e, z, h))
      | inr m ↦ ne (
          sym ((t.keyed b j h).in_bucket)
          ∙ ap (λ k. bucket o (c.items k)) e
          ∙ (t.keyed home last m).in_bucket)
    ]

    not_zero : (b j : ℕ) → has j (chains b) ≡ true → j ≢ 0
    not_zero b j h z = ground (arith, no_zero b, h, z)

    other_linked : (b : ℕ) → b ≢ home → Chain (nexts c') (prevs c') 0 (c'.hashtable b) (chains b)
    other_linked b ne =
        let slot : c'.hashtable b ≡ c.hashtable b = ground (arith, d.slot_of b, ne) in
        subst (λ r. Chain (nexts c') (prevs c') 0 r (chains b)) (sym slot)
          (Chain-frame (nexts c) (prevs c) (nexts c') (prevs c') 0 (c.hashtable b) (chains b)
            (λ j h.
              let ns = not_self b j h in
              (ground (arith, d.next_of j (not_zero b j h) ns, not_last b j ne h), d.prev_of j ns))
            (t.linked b))

    own_linked : Chain (nexts c') (prevs c') 0 (c'.hashtable home) (chains home ++ i ∷ [])
    own_linked =
        let ends : (c.hashtable home == 0) ≡ (0 == last) =
          empty_iff (nexts c) (prevs c) 0 (c.hashtable home) (chains home) (t.linked home)
            (no_zero home) in
        let slot : (if c.hashtable home == 0 then i else c.hashtable home) ≡ c'.hashtable home =
          ground (arith, d.slot_of home, ends) in
        subst (λ r. Chain (nexts c') (prevs c') 0 r (chains home ++ i ∷ [])) slot
          (push-Chain (nexts c) (prevs c) (nexts c') (prevs c') i nonzero 0 (c.hashtable home)
            (chains home) (t.linked home) (t.apart home) (no_zero home) (outside home)
            (λ z. nonzero (sym z)) (λ j h. d.next_of j (not_zero home j h) (not_self home j h))
            (λ j h. d.prev_of j (not_self home j h)) d.next_new d.prev_new)

    -- a member of a new chain is one of the old ones, or the item in its own
    member :
        (b j : ℕ) → has j (chains_with b) ≡ true → (has j (chains b) ≡ true) ⊎ (j ≡ i) × (b ≡ home)
    member b j h = ground (arith, h, has-snoc j i (chains b))

    member_of : (b j : ℕ) → has j (chains b) ≡ true → has j (chains_with b) ≡ true
    member_of b j h = ground (arith, h, has-snoc j i (chains b))

    member_new : has i (chains_with home) ≡ true
    member_new = ground (arith, has-snoc i i (chains home))

    linked : (b : ℕ) → Chain (nexts c') (prevs c') 0 (c'.hashtable b) (chains_with b)
    linked b = elim (equal_or_not b home) [
      | inl (test, e) ↦ rw test (
          subst (λ k. Chain (nexts c') (prevs c') 0 (c'.hashtable k) (chains k ++ i ∷ [])) (sym e)
            own_linked)
      | inr (test, ne) ↦ rw test (other_linked b ne)
    ]

    same_content : (b j : ℕ) → has j (chains b) ≡ true → content (c'.items j) ≡ content (c.items j)
    same_content b j h = d.content_of j (not_self b j h)

    new-IsKeyed : IsKeyed o home (c'.items i)
    new-IsKeyed = record {
      hashed = d.new_hash ∙ ap o.hash_of (sym d.new_key);
      sized = d.new_size ∙ ap length (sym d.new_key);
      filled = omega (arith, d.new_size, some_key);
      in_bucket = ap (λ h. h % o.hashsize) d.new_hash;
    }

    keyed : (b j : ℕ) → has j (chains_with b) ≡ true → IsKeyed o b (c'.items j)
    keyed b j h = elim (member b j h) [
      | inl m ↦ IsKeyed-content o b (same_content b j m) (t.keyed b j m)
      | inr (e, eb) ↦
          subst (λ k. IsKeyed o b (c'.items k)) (sym e)
            (subst (λ b. IsKeyed o b (c'.items i)) (sym eb) new-IsKeyed)
    ]

    below : (b j : ℕ) → has j (chains_with b) ≡ true → j < o.max_items
    below b j h = elim (member b j h) [
      | inl m ↦ t.below b j m
      | inr (e, eb) ↦ omega (arith, e, small)
    ]

    key_of : (b j : ℕ) → has j (chains b) ≡ true → (c'.items j).key ≡ (c.items j).key
    key_of b j h = ap (λ (x : Item). x.key) (same_content b j h)

    -- none of the old items has the new key
    old_key : (b j : ℕ) → has j (chains b) ≡ true → (c'.items j).key ≢ (c'.items i).key
    old_key b j h e = absent j (record {
      index = not_zero b j h;
      live = (t.keyed b j h).filled;
      is_key = sym (key_of b j h) ∙ e ∙ d.new_key;
    })

    keys :
        (b j k : ℕ)
        → has j (chains_with b) ≡ true
        → has k (chains_with b) ≡ true
        → (c'.items j).key ≡ (c'.items k).key
        → j ≡ k
    keys b j k hj hk same = elim (member b j hj) [
      | inl mj ↦ elim (member b k hk) [
        | inl mk ↦ t.keys b j k mj mk (sym (key_of b j mj) ∙ same ∙ key_of b k mk)
        | inr (ek, eb) ↦ absurd (old_key b j mj (same ∙ ap (λ k. (c'.items k).key) ek))
      ]
      | inr (ej, eb) ↦ elim (member b k hk) [
        | inl mk ↦ absurd (old_key b k mk (sym same ∙ ap (λ k. (c'.items k).key) ej))
        | inr (ek, eb') ↦ ej ∙ sym ek
      ]
    ]

    reached :
        (j : ℕ)
        → j ≢ 0
        → 0 < (c'.items j).keysize
        → has j (chains_with (bucket o (c'.items j))) ≡ true
    reached j nz filled = elim (equal_or_not j i) [
      | inl (test, e) ↦
          subst (λ k. has k (chains_with (bucket o (c'.items k))) ≡ true) (sym e)
            (subst (λ b. has i (chains_with b) ≡ true) (sym new-IsKeyed.in_bucket) member_new)
      | inr (test, ne) ↦
          let same = d.content_of j ne in
          let keysize : (c'.items j).keysize ≡ (c.items j).keysize =
            ap (λ (x : Item). x.keysize) same in
          let at_home =
            member_of (bucket o (c.items j)) j (t.reached j nz (omega (arith, keysize, filled))) in
          subst (λ b. has j (chains_with b) ≡ true) (sym (ap (λ (x : Item). bucket o x) same))
            at_home
    ]

    idle :
        (j : ℕ) → has j c'.unused ≡ true → (j ≢ 0) × (j < o.max_items) × ((c'.items j).keysize ≡ 0)
    idle j h =
        let in_stack : has j c.unused ≡ true = subst (λ l. has j l ≡ true) d.unused_of h in
        let ne : j ≢ i = λ e. ground (arith, popped, ap (λ k. has k c.unused) e, in_stack) in
        let (nz, below_max, dead_j) = t.idle j in_stack in
        (nz, below_max, ap (λ (x : Item). x.keysize) (d.content_of j ne) ∙ dead_j)

    pub Added-IsTable : IsTable o c' chains_with
    Added-IsTable = record {
      linked = linked;
      apart = λ b. ground (arith, t.apart b, outside b, distinct-snoc i (chains b));
      keyed = keyed;
      below = below;
      reached = reached;
      keys = keys;
      idle = idle;
      once = subst (λ l. distinct l ≡ true) (sym d.unused_of) t.once;
    }
