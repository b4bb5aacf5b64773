-- ===== src/Cache/Lru.antt =====
-- The list of the least recently used items of a cache.
pub mod Order
pub mod Evict
pub mod Touch
use mathlib.Core.Path.{subst}
use upsgi.Common.{
  ℕ, ◌≡◌, ◌≢◌, ap, sym, arith, true, false, List, [], ◌∷◌, ◌++◌, ◌==◌, if◌then◌else◌,
}
use upsgi.Cache.Items.{Cache, change, lru_remove_item, lru_add_item}
use upsgi.Cache.Links.{
  has, distinct, without, last_of, Chain, not_has-0, Chain-first, prev-in, has-last_of,
  unlink-Chain, last_of-unlink, push-Chain, distinct-without, distinct-snoc, last_of-snoc,
}

abbrev pub lru_nexts : Cache → ℕ → ℕ
lru_nexts c j = (c.items j).lru_next

abbrev pub lru_prevs : Cache → ℕ → ℕ
lru_prevs c j = (c.items j).lru_prev

-- the items from the least recently used one on
pub record IsLru (c : Cache) (l : List ℕ) : Type 0 where
  pub chain : Chain (lru_nexts c) (lru_prevs c) 0 c.lru_head l
  pub apart : distinct l ≡ true
  pub tail : c.lru_tail ≡ last_of 0 l

next-lru_remove_item :
    (i : ℕ) (c : Cache) (j : ℕ)
    → j ≢ 0
    → j ≢ i
    → lru_nexts (lru_remove_item i c) j
      ≡ (if j == lru_prevs c i then lru_nexts c i else lru_nexts c j)
unfolding lru_remove_item change
next-lru_remove_item i c j nz ne = ground (arith, nz, ne)

prev-lru_remove_item :
    (i : ℕ) (c : Cache) (j : ℕ)
    → j ≢ 0
    → j ≢ i
    → lru_prevs (lru_remove_item i c) j
      ≡ (if j == lru_nexts c i then lru_prevs c i else lru_prevs c j)
unfolding lru_remove_item change
prev-lru_remove_item i c j nz ne = ground (arith, nz, ne)

nonzero_last : (n v : ℕ → ℕ) (x : ℕ) (l : List ℕ) → x ≢ 0 → Chain n v x (n x) l → last_of x l ≢ 0
nonzero_last n v x l nz chain z =
    ground (arith, has-last_of x l, not_has-0 n v x (n x) l chain, nz, z)

module _ (i : ℕ) (c : Cache) (l : List ℕ) (s : IsLru c l) where
  none_zero : has 0 l ≡ false
  none_zero = not_has-0 (lru_nexts c) (lru_prevs c) 0 c.lru_head l s.chain

  head_iff : has i l ≡ true → (c.lru_head == i) ≡ (lru_prevs c i == 0)
  head_iff h = ground (
    arith,
    prev-in (lru_nexts c) (lru_prevs c) 0 c.lru_head l i s.chain h,
    none_zero,
    Chain-first (lru_nexts c) (lru_prevs c) 0 c.lru_head l s.chain,
    h,
    ap (lru_prevs c) {x = c.lru_head} {y = i},
  )

  pub lru_remove_item-IsLru : has i l ≡ true → IsLru (lru_remove_item i c) (without i l)
  unfolding lru_remove_item change
  lru_remove_item-IsLru h =
      let d = lru_remove_item i c in
      let hn = next-lru_remove_item i c in
      let hv = prev-lru_remove_item i c in
      record {
        chain =
            subst (λ r. Chain (lru_nexts d) (lru_prevs d) 0 r (without i l))
              (ground (arith, head_iff h))
              (unlink-Chain (lru_nexts c) (lru_prevs c) (lru_nexts d) (lru_prevs d) i hn hv 0
                c.lru_head l s.chain s.apart none_zero h);
        apart = distinct-without i l s.apart;
        tail = ground (
          arith,
          s.tail,
          last_of-unlink (lru_nexts c) (lru_prevs c) (lru_nexts d) (lru_prevs d) i hn hv 0
              c.lru_head l s.chain s.apart none_zero h,
        );
      }

  empty_iff : (c.lru_tail == 0) ≡ (c.lru_head == 0)
  empty_iff = step l s.chain s.tail
    where
      step :
          (m : List ℕ)
          → Chain (lru_nexts c) (lru_prevs c) 0 c.lru_head m
          → c.lru_tail ≡ last_of 0 m
          → (c.lru_tail == 0) ≡ (c.lru_head == 0)
      step [] chain e = ground (arith, chain, e)
      step (x ∷ m) (here, live, back, chain) e =
          ground (arith, here, live, e, nonzero_last (lru_nexts c) (lru_prevs c) x m live chain)

  pub lru_add_item-IsLru : i ≢ 0 → has i l ≡ false → IsLru (lru_add_item i c) (l ++ i ∷ [])
  unfolding lru_add_item change
  lru_add_item-IsLru nz h =
      let d = lru_add_item i c in
      record {
        chain =
            subst (λ r. Chain (lru_nexts d) (lru_prevs d) 0 r (l ++ i ∷ []))
              (ground (arith, empty_iff))
              (push-Chain (lru_nexts c) (lru_prevs c) (lru_nexts d) (lru_prevs d) i nz 0 c.lru_head
                l s.chain s.apart none_zero h (λ z. nz (sym z))
                (λ j m. ground (
                  arith,
                  s.tail,
                  m,
                  h,
                  none_zero,
                  ap (λ k. has k l) {x = j} {y = i},
                  ap (λ k. has k l) {x = j} {y = 0},
                ))
                (λ j m. ground (arith, m, h, ap (λ k. has k l) {x = j} {y = i})) (ground arith)
                (ground (arith, s.tail)));
        apart = distinct-snoc i l s.apart h;
        tail = sym (last_of-snoc 0 i l);
      }
