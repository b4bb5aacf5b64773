-- ===== src/Cache/Table.antt =====
-- The hash table of a cache: what holds of it between the calls, and what a search finds.
pub mod Delete
pub mod Unlink
pub mod Insert
pub mod Added
use mathlib.Core.Path.{subst}
use upsgi.Common.{
  ℕ, zero, suc, ◌%◌, ◌≤◌, ◌<◌, ◌≡◌, ◌≢◌, inl, inr, refl, ap, sym, ◌∙◌, arith, Bool, true, false,
  not, List, [], ◌∷◌, ◌==◌, if◌then◌else◌, length,
}
use upsgi.Wire.Range.{equal}
use upsgi.Cache.Items.{Settings, Item, Cache, Lookup, at, alarm, is_item, cycle, get_slot}
use upsgi.Wire.Equal.{equal-eq, equal_refl}
use upsgi.Cache.Links.{has, distinct, Chain, equal_or_not, length-distinct, not_has-0}

abbrev pub nexts : Cache → ℕ → ℕ
nexts c j = (c.items j).next

abbrev pub prevs : Cache → ℕ → ℕ
prevs c j = (c.items j).prev

-- the bucket of an item
abbrev pub bucket : Settings → Item → ℕ
bucket o uci = uci.hash % o.hashsize

-- an item that holds its key
pub record IsKeyed (o : Settings) (b : ℕ) (uci : Item) : Type 0 where
  pub hashed : uci.hash ≡ o.hash_of uci.key
  pub sized : uci.keysize ≡ length uci.key
  pub filled : 0 < uci.keysize
  pub in_bucket : bucket o uci ≡ b

-- Each bucket's chain, as a list of items; every item that holds a key stands in the chain of its bucket, no
-- two of a chain have the same key, and the unused items hold none.
pub record IsTable (o : Settings) (c : Cache) (chains : ℕ → List ℕ) : Type 0 where
  pub linked : (b : ℕ) → Chain (nexts c) (prevs c) 0 (c.hashtable b) (chains b)
  pub apart : (b : ℕ) → distinct (chains b) ≡ true
  pub keyed : (b i : ℕ) → has i (chains b) ≡ true → IsKeyed o b (c.items i)
  pub below : (b i : ℕ) → has i (chains b) ≡ true → i < o.max_items
  pub reached :
      (i : ℕ) → i ≢ 0 → 0 < (c.items i).keysize → has i (chains (bucket o (c.items i))) ≡ true
  pub keys :
      (b i j : ℕ)
      → has i (chains b) ≡ true
      → has j (chains b) ≡ true
      → (c.items i).key ≡ (c.items j).key
      → i ≡ j
  pub idle :
      (i : ℕ) → has i c.unused ≡ true → (i ≢ 0) × (i < o.max_items) × ((c.items i).keysize ≡ 0)
  pub once : distinct c.unused ≡ true

-- an item that holds the key
pub record Holds (c : Cache) (key : List ℕ) (i : ℕ) : Type 0 where
  pub index : i ≢ 0
  pub live : 0 < (c.items i).keysize
  pub is_key : (c.items i).key ≡ key

-- what a search for a key gives
pub data Finds (c : Cache) (key : List ℕ) : Lookup → Type 0 where
  found : {i : ℕ} → Holds c key i → Finds c key (at i)
  missing : ((i : ℕ) → ¬ Holds c key i) → Finds c key (at 0)

-- what a search of a part of a chain gives
data FindsIn (items : ℕ → Item) (key : List ℕ) (l : List ℕ) : Lookup → Type 0 where
  inside : {i : ℕ} → has i l ≡ true → (items i).key ≡ key → FindsIn items key l (at i)
  outside : ((j : ℕ) → has j l ≡ true → (items j).key ≢ key) → FindsIn items key l (at 0)

module _ (o : Settings) (c : Cache) (key : List ℕ) where
  is_item-key : (uci : Item) → is_item key (o.hash_of key) uci ≡ true → uci.key ≡ key
  unfolding is_item
  is_item-key uci e = ground (arith, equal-eq uci.key key)

  is_item-true :
      (b : ℕ) (uci : Item)
      → IsKeyed o b uci
      → uci.key ≡ key
      → is_item key (o.hash_of key) uci ≡ true
  unfolding is_item
  is_item-true b uci k e =
      let same : equal uci.key key ≡ true =
        subst (λ x. equal uci.key x ≡ true) e (equal_refl uci.key) in
      let hash : uci.hash ≡ o.hash_of key = k.hashed ∙ ap o.hash_of e in
      let size : uci.keysize ≡ length key = k.sized ∙ ap length e in
      ground (arith, same, hash, size)

  FindsIn-cons :
      (b x : ℕ) (l : List ℕ) (t : Bool) {r : Lookup}
      → is_item key (o.hash_of key) (c.items x) ≡ t
      → IsKeyed o b (c.items x)
      → FindsIn c.items key l r
      → FindsIn c.items key (x ∷ l) (if t then at x else r)
  FindsIn-cons b x l true e k f = inside (ground arith) (is_item-key (c.items x) e)
  FindsIn-cons b x l false e k (inside h same) = inside (ground arith) same
  FindsIn-cons b x l false e k (outside f) = outside (λ j h same. elim (equal_or_not j x) [
    | inl (test, here) ↦
        ground (arith, is_item-true b (c.items x) k (ap (λ i. (c.items i).key) (sym here) ∙ same))
    | inr (test, other) ↦ f j (ground arith) same
  ])

  cycle-FindsIn :
      (b p : ℕ) (l : List ℕ) (rounds slot : ℕ)
      → Chain (nexts c) (prevs c) p (nexts c slot) l
      → ((i : ℕ) → has i l ≡ true → IsKeyed o b (c.items i))
      → length l ≤ rounds
      → FindsIn c.items key l (cycle key (o.hash_of key) c.items rounds slot)
  unfolding cycle
  cycle-FindsIn b p [] zero slot chain keyed enough =
      subst (λ r. FindsIn c.items key [] (if r == 0 then at 0 else alarm)) (sym chain)
        (outside (λ j h same. ground arith))
  cycle-FindsIn b p [] (suc rounds) slot chain keyed enough =
      subst
        (λ r. FindsIn c.items key [] (
          if r == 0
          then at 0
          else if is_item key (o.hash_of key) (c.items r)
          then at r
          else cycle key (o.hash_of key) c.items rounds r))
        (sym chain) (outside (λ j h same. ground arith))
  cycle-FindsIn b p (x ∷ l) zero slot chain keyed enough = absurd (omega arith)
  cycle-FindsIn b p (x ∷ l) (suc rounds) slot (here, nonzero, back, chain) keyed enough =
      let rest =
        cycle-FindsIn b x l rounds x chain (λ i h. keyed i (ground arith))
          (omega (arith, enough)) in
      let test : (x == 0) ≡ false = ground (arith, nonzero) in
      subst
        (λ r. FindsIn c.items key (x ∷ l) (
          if r == 0
          then at 0
          else if is_item key (o.hash_of key) (c.items r)
          then at r
          else cycle key (o.hash_of key) c.items rounds r))
        (sym here)
        (rw test (
          FindsIn-cons b x l (is_item key (o.hash_of key) (c.items x)) refl (keyed x (ground arith))
            rest))

  module _ (chains : ℕ → List ℕ) (t : IsTable o c chains) where
    abbrev home : ℕ
    home = o.hash_of key % o.hashsize

    -- the search from a slot
    abbrev search_from : ℕ → Lookup
    search_from r =
        if r == 0
        then at 0
        else if not (bucket o (c.items r) == home)
        then at 0
        else if is_item key (o.hash_of key) (c.items r)
        then at r
        else cycle key (o.hash_of key) c.items o.max_items r

    get_slot-FindsIn : FindsIn c.items key (chains home) (get_slot o key c)
    unfolding get_slot
    get_slot-FindsIn =
        first (chains home) (t.linked home) (t.keyed home)
          (length-distinct o.max_items (chains home) (t.apart home) (t.below home))
      where
        first :
            (l : List ℕ)
            → Chain (nexts c) (prevs c) 0 (c.hashtable home) l
            → ((i : ℕ) → has i l ≡ true → IsKeyed o home (c.items i))
            → length l ≤ o.max_items
            → FindsIn c.items key l (get_slot o key c)
        first [] chain keyed enough =
            subst (λ r. FindsIn c.items key [] (search_from r)) (sym chain)
              (outside (λ j h same. ground arith))
        first (x ∷ l) (here, nonzero, back, chain) keyed enough =
            let k = keyed x (ground arith) in
            let rest =
              cycle-FindsIn home x l o.max_items x chain (λ i h. keyed i (ground arith))
                (omega (arith, enough)) in
            let test : (x == 0) ≡ false = ground (arith, nonzero) in
            let stays : not (bucket o (c.items x) == home) ≡ false = ground (arith, k.in_bucket) in
            subst (λ r. FindsIn c.items key (x ∷ l) (search_from r)) (sym here)
              (rw (test, stays)
                (FindsIn-cons home x l (is_item key (o.hash_of key) (c.items x)) refl k rest))

    Finds-of_FindsIn : {r : Lookup} → FindsIn c.items key (chains home) r → Finds c key r
    Finds-of_FindsIn (inside {i} h same) = found (record {
      index = ground (
        arith,
        h,
        not_has-0 (nexts c) (prevs c) 0 (c.hashtable home) (chains home) (t.linked home),
      );
      live = (t.keyed home i h).filled;
      is_key = same;
    })
    Finds-of_FindsIn (outside f) = missing (λ i holds.
        let stands = t.reached i holds.index holds.live in
        let hash : (c.items i).hash ≡ o.hash_of key =
          (t.keyed (bucket o (c.items i)) i stands).hashed ∙ ap o.hash_of holds.is_key in
        let at_home : has i (chains home) ≡ true =
          subst (λ h. has i (chains (h % o.hashsize)) ≡ true) hash stands in
        f i at_home holds.is_key)

    -- A search finds the item that holds the key, and gives 0 if there is none.
    pub get_slot-Finds : Finds c key (get_slot o key c)
    get_slot-Finds = Finds-of_FindsIn get_slot-FindsIn
