-- ===== src/Cache/Links.antt =====
-- Doubly linked chains of items by their indices, where 0 is no item: the chains of equal hashes and the list
-- of the least recently used items.
use mathlib.Core.Path.{subst}
use upsgi.Common.{
  ℕ, zero, suc, ◌≤◌, ◌<◌, ◌≡◌, ◌≢◌, ◌⊎◌, inl, inr, refl, ap, sym, ◌∙◌, arith, Bool, true, false,
  not, ◌&&◌, ◌||◌, List, [], ◌∷◌, ◌++◌, ◌==◌, if◌then◌else◌, length,
}

abbrev pub has : ℕ → List ℕ → Bool
has j [] = false
has j (i ∷ l) = j == i || has j l

abbrev pub distinct : List ℕ → Bool
distinct [] = true
distinct (i ∷ l) = not (has i l) && distinct l

-- the list without the first `i`
abbrev pub without : ℕ → List ℕ → List ℕ
without i [] = []
without i (x ∷ l) = if x == i then l else x ∷ without i l

-- the last element, or `d`
abbrev pub last_of : ℕ → List ℕ → ℕ
last_of d [] = d
last_of d (x ∷ l) = last_of x l

pub length-without : (i : ℕ) (l : List ℕ) → length l ≤ suc (length (without i l))
length-without i [] = omega arith
length-without i (x ∷ l) = ground (arith, length-without i l)

pub has-of_without : (i j : ℕ) (l : List ℕ) → has j (without i l) ≡ true → has j l ≡ true
has-of_without i j [] h = h
has-of_without i j (x ∷ l) h = ground (arith, has-of_without i j l)

-- from `q` the `next` pointers lead through the items of the list to 0, and `prev` leads back to `p`
abbrev pub Chain : (next prev : ℕ → ℕ) → ℕ → ℕ → List ℕ → Type 0
Chain next prev p q [] = q ≡ 0
Chain next prev p q (i ∷ l) = (q ≡ i) × (i ≢ 0) × (prev i ≡ p) × Chain next prev i (next i) l

pub has-without : (i j : ℕ) (l : List ℕ) → has j l ≡ false → has j (without i l) ≡ false
has-without i j [] h = refl
has-without i j (x ∷ l) h = ground (arith, has-without i j l)

pub has-without_ne : (i j : ℕ) (l : List ℕ) → j ≢ i → has j (without i l) ≡ has j l
has-without_ne i j [] h = refl
has-without_ne i j (x ∷ l) h = ground (arith, has-without_ne i j l)

pub distinct-without : (i : ℕ) (l : List ℕ) → distinct l ≡ true → distinct (without i l) ≡ true
distinct-without i [] h = refl
distinct-without i (x ∷ l) h = ground (arith, distinct-without i l, has-without i x l)

pub has-without_self : (i : ℕ) (l : List ℕ) → distinct l ≡ true → has i (without i l) ≡ false
has-without_self i [] h = refl
has-without_self i (x ∷ l) h = ground (arith, has-without_self i l)

pub has-snoc : (j k : ℕ) (l : List ℕ) → has j (l ++ k ∷ []) ≡ (has j l || j == k)
has-snoc j k [] = ground arith
has-snoc j k (x ∷ l) = ground (arith, has-snoc j k l)

pub distinct-snoc :
    (k : ℕ) (l : List ℕ) → distinct l ≡ true → has k l ≡ false → distinct (l ++ k ∷ []) ≡ true
distinct-snoc k [] h f = refl
distinct-snoc k (x ∷ l) h f = ground (arith, distinct-snoc k l, has-snoc x k l)

pub last_of-snoc : (d k : ℕ) (l : List ℕ) → last_of d (l ++ k ∷ []) ≡ k
last_of-snoc d k [] = refl
last_of-snoc d k (x ∷ l) = last_of-snoc x k l

pub has-last_of : (d : ℕ) (l : List ℕ) → (last_of d l ≡ d) ⊎ (has (last_of d l) l ≡ true)
has-last_of d [] = inl refl
has-last_of d (x ∷ l) = ground (arith, has-last_of x l)

module _ (n v : ℕ → ℕ) where
  pub not_has-0 : (p q : ℕ) (l : List ℕ) → Chain n v p q l → has 0 l ≡ false
  not_has-0 p q [] c = refl
  not_has-0 p q (i ∷ l) (a, b, d, c) = ground (arith, b, not_has-0 i (n i) l c)

  -- a chain survives a change elsewhere
  pub Chain-frame :
      (n' v' : ℕ → ℕ) (p q : ℕ) (l : List ℕ)
      → ((j : ℕ) → has j l ≡ true → (n' j ≡ n j) × (v' j ≡ v j))
      → Chain n v p q l
      → Chain n' v' p q l
  Chain-frame n' v' p q [] same c = c
  Chain-frame n' v' p q (i ∷ l) same (a, b, d, c) =
      let (sn, sv) = same i (ground arith) in
      (
        a,
        b,
        sv ∙ d,
        subst (λ r. Chain n' v' i r l) (sym sn)
            (Chain-frame n' v' i (n i) l (λ j h. same j (ground arith)) c),
      )

  pub Chain-first : (p q : ℕ) (l : List ℕ) → Chain n v p q l → q ≢ 0 → v q ≡ p
  Chain-first p q [] c h = absurd (h c)
  Chain-first p q (x ∷ l) (a, b, d, c) h = ap v a ∙ d

  pub empty_iff :
      (x q : ℕ) (l : List ℕ) → Chain n v x q l → has x l ≡ false → (q == 0) ≡ (x == last_of x l)
  empty_iff x q [] c h = ground (arith, c)
  empty_iff x q (y ∷ m) (a, b, d, c) h = ground (arith, a, b, has-last_of y m)

  pub next-in :
      (p q : ℕ) (l : List ℕ) (i : ℕ)
      → Chain n v p q l
      → has i l ≡ true
      → (n i ≡ 0) ⊎ (has (n i) l ≡ true)
  next-in p q [] i c h = absurd (ground arith)
  next-in p q (x ∷ []) i c h = ground (arith, c)
  next-in p q (x ∷ y ∷ l) i (a, b, d, c) h = ground (arith, c, next-in x (n x) (y ∷ l) i c)

  pub prev-in :
      (p q : ℕ) (l : List ℕ) (i : ℕ)
      → Chain n v p q l
      → has i l ≡ true
      → ((i ≡ q) × (v i ≡ p)) ⊎ (has (v i) l ≡ true)
  prev-in p q [] i c h = absurd (ground arith)
  prev-in p q (x ∷ l) i (a, b, d, c) h = ground (arith, prev-in x (n x) l i c)

pub equal_or_not : (x i : ℕ) → ((x == i) ≡ true) × (x ≡ i) ⊎ ((x == i) ≡ false) × (x ≢ i)
equal_or_not x i = ground arith

-- different numbers below `n` are at most `n` many
pub length-distinct :
    (n : ℕ) (l : List ℕ) → distinct l ≡ true → ((j : ℕ) → has j l ≡ true → j < n) → length l ≤ n
length-distinct zero [] d h = omega arith
length-distinct zero (x ∷ l) d h = absurd (omega (arith, h x (ground arith)))
length-distinct (suc n) l d h =
    let below : (j : ℕ) → has j (without n l) ≡ true → j < n =
      λ j m. ground (arith, h j, has-of_without n j l, has-without_self n l, equal_or_not j n) in
    omega
      (arith, length-without n l, length-distinct n (without n l) (distinct-without n l d) below)

-- What unlinking `i` makes of the pointers: those of its neighbours pass it by.
module _ (n v n' v' : ℕ → ℕ) (i : ℕ)
    (hn : (j : ℕ) → j ≢ 0 → j ≢ i → n' j ≡ (if j == v i then n i else n j))
    (hv : (j : ℕ) → j ≢ 0 → j ≢ i → v' j ≡ (if j == n i then v i else v j)) where
  unlink_head :
      (p : ℕ) (l : List ℕ)
      → v i ≡ p
      → Chain n v i (n i) l
      → has p l ≡ false
      → has i l ≡ false
      → distinct l ≡ true
      → Chain n' v' p (n i) l
  unlink_head p [] e c hp hi hd = c
  unlink_head p (y ∷ m) e (a, b, d, c) hp hi hd =
      let same : n' y ≡ n y = ground (arith, hn y) in
      let members : (j : ℕ) → has j m ≡ true → (n' j ≡ n j) × (v' j ≡ v j) = λ j h. (
        ground (arith, hn j, not_has-0 n v y (n y) m c),
        ground (arith, hv j, not_has-0 n v y (n y) m c),
      ) in
      (
        a,
        b,
        ground (arith, hv y),
        subst (λ r. Chain n' v' y r m) (sym same) (Chain-frame n v n' v' y (n y) m members c),
      )

  pub unlink-Chain :
      (p q : ℕ) (l : List ℕ)
      → Chain n v p q l
      → distinct l ≡ true
      → has p l ≡ false
      → has i l ≡ true
      → Chain n' v' p (if q == i then n i else q) (without i l)
  unlink-Chain p q [] c hd hp hi = absurd (ground arith)
  unlink-Chain p q (x ∷ l) (a, b, d, c) hd hp hi = elim (equal_or_not x i) [
    | inl (test, e) ↦
        let found : (q == i) ≡ true = ground arith in
        let rest = subst (λ r. Chain n v r (n r) l) e c in
        rw (found, test)
          (unlink_head p l (ap v (sym e) ∙ d) rest (ground arith) (ground arith) (ground arith))
    | inr (test, e) ↦
        let other : (q == i) ≡ false = ground arith in
        let inside : has i l ≡ true = ground arith in
        let next_out : n i ≢ x = ground (arith, next-in n v x (n x) l i c inside) in
        let nonzero : i ≢ 0 = ground (arith, not_has-0 n v x (n x) l c) in
        let first : n x ≡ i → v i ≡ x =
          λ e. ap v (sym e) ∙ Chain-first n v x (n x) l c (λ z. nonzero (sym e ∙ z)) in
        let back : (n x == i) ≡ (x == v i) =
          ground (arith, prev-in n v x (n x) l i c inside, first) in
        let jump : (if n x == i then n i else n x) ≡ n' x = ground (arith, hn x, back) in
        let rest = unlink-Chain x (n x) l c (ground arith) (ground arith) inside in
        rw (other, test)
          (a, b, ground (arith, hv x), subst (λ r. Chain n' v' x r (without i l)) jump rest)
  ]

  -- the last item, behind the change
  pub last_of-unlink :
      (p q : ℕ) (l : List ℕ)
      → Chain n v p q l
      → distinct l ≡ true
      → has p l ≡ false
      → has i l ≡ true
      → last_of p (without i l) ≡ (if n i == 0 then v i else last_of p l)
  last_of-unlink p q [] c hd hp hi = absurd (ground arith)
  last_of-unlink p q (x ∷ []) (a, b, d, c) hd hp hi =
      let e : i ≡ x = ground arith in ground (arith, ap n e, ap v e)
  last_of-unlink p q (x ∷ y ∷ m) (a, b, d, c) hd hp hi =
      let same : x ≡ i → n x ≡ n i = λ e. ap n e in
      ground (arith, c, same, last_of-unlink x (n x) (y ∷ m) c)

-- What putting `k` behind the last item makes of the pointers.
module _ (n v n' v' : ℕ → ℕ) (k : ℕ) (nonzero : k ≢ 0) where
  pub push-Chain :
      (p q : ℕ) (l : List ℕ)
      → Chain n v p q l
      → distinct l ≡ true
      → has p l ≡ false
      → has k l ≡ false
      → p ≢ k
      → ((j : ℕ) → has j l ≡ true → n' j ≡ (if j == last_of p l then k else n j))
      → ((j : ℕ) → has j l ≡ true → v' j ≡ v j)
      → n' k ≡ 0
      → v' k ≡ last_of p l
      → Chain n' v' p (if q == 0 then k else q) (l ++ k ∷ [])
  push-Chain p q [] c hd hp hk pk hn hv en ev = ground (arith, c)
  push-Chain p q (x ∷ l) (a, b, d, c) hd hp hk pk hn hv en ev =
      let ends : (n x == 0) ≡ (x == last_of x l) = empty_iff n v x (n x) l c (ground arith) in
      let jump : (if n x == 0 then k else n x) ≡ n' x = ground (arith, hn x, ends) in
      let rest =
        push-Chain x (n x) l c (ground arith) (ground arith) (ground arith) (ground arith)
          (λ j h. hn j (ground arith)) (λ j h. hv j (ground arith)) en ev in
      (
        ground arith,
        b,
        hv x (ground arith) ∙ d,
        subst (λ r. Chain n' v' x r (l ++ k ∷ [])) jump rest,
      )
