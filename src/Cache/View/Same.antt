-- ===== src/Cache/View/Same.antt =====
-- Steps that leave the map of a cache as it is.
use mathlib.Core.Path.{subst}
use upsgi.Common.{ℕ, ◌%◌, ◌≡◌, ap, sym, ◌∙◌, arith, true, List, length}
use upsgi.Cache.Items.{Settings, Item, Cache, send_command}
use upsgi.Cache.Links.{has, distinct, Chain, Chain-frame}
use upsgi.Cache.Table.{nexts, prevs, IsKeyed, IsTable, Holds}
use upsgi.Cache.Table.Insert.{SameTable}
use upsgi.Cache.View.{entry_of, lookup, IsCache, lookup-same}

-- two states with the same hash table and the same keys
pub record SameKeys (c c' : Cache) : Type 0 where
  pub next_of : (j : ℕ) → nexts c' j ≡ nexts c j
  pub prev_of : (j : ℕ) → prevs c' j ≡ prevs c j
  pub key_of : (j : ℕ) → (c'.items j).key ≡ (c.items j).key
  pub keysize_of : (j : ℕ) → (c'.items j).keysize ≡ (c.items j).keysize
  pub hash_of : (j : ℕ) → (c'.items j).hash ≡ (c.items j).hash
  pub slot_of : (b : ℕ) → c'.hashtable b ≡ c.hashtable b
  pub unused_of : c'.unused ≡ c.unused

module _ (o : Settings) (c c' : Cache) (s : SameKeys c c') where
  SameKeys-IsKeyed : (b j : ℕ) → IsKeyed o b (c.items j) → IsKeyed o b (c'.items j)
  SameKeys-IsKeyed b j k = record {
    hashed = s.hash_of j ∙ k.hashed ∙ ap o.hash_of (sym (s.key_of j));
    sized = s.keysize_of j ∙ k.sized ∙ ap length (sym (s.key_of j));
    filled = omega (arith, s.keysize_of j, k.filled);
    in_bucket = ap (λ h. h % o.hashsize) (s.hash_of j) ∙ k.in_bucket;
  }

  pub SameKeys-IsTable : (chains : ℕ → List ℕ) → IsTable o c chains → IsTable o c' chains
  SameKeys-IsTable chains t = record {
    linked = λ b.
        subst (λ r. Chain (nexts c') (prevs c') 0 r (chains b)) (sym (s.slot_of b))
          (Chain-frame (nexts c) (prevs c) (nexts c') (prevs c') 0 (c.hashtable b) (chains b)
            (λ j h. (s.next_of j, s.prev_of j)) (t.linked b));
    apart = t.apart;
    keyed = λ b j h. SameKeys-IsKeyed b j (t.keyed b j h);
    below = t.below;
    reached = λ j nz live.
        subst (λ h. has j (chains (h % o.hashsize)) ≡ true) (sym (s.hash_of j))
          (t.reached j nz (omega (arith, s.keysize_of j, live)));
    keys = λ b j k hj hk e. t.keys b j k hj hk (sym (s.key_of j) ∙ e ∙ s.key_of k);
    idle = λ j h.
        let (nz, small, dead) = t.idle j (subst (λ l. has j l ≡ true) s.unused_of h) in
        (nz, small, s.keysize_of j ∙ dead);
    once = subst (λ l. distinct l ≡ true) (sym s.unused_of) t.once;
  }

  pub SameKeys-Holds : (key : List ℕ) (j : ℕ) → Holds c key j → Holds c' key j
  SameKeys-Holds key j h = record {
    index = h.index;
    live = omega (arith, s.keysize_of j, h.live);
    is_key = s.key_of j ∙ h.is_key;
  }

  pub SameKeys-Holds_back : (key : List ℕ) (j : ℕ) → Holds c' key j → Holds c key j
  SameKeys-Holds_back key j h = record {
    index = h.index;
    live = omega (arith, s.keysize_of j, h.live);
    is_key = sym (s.key_of j) ∙ h.is_key;
  }

module _ (o : Settings) (c c' : Cache) (s : SameTable c c') where
  pub SameTable-SameKeys : SameKeys c c'
  SameTable-SameKeys = record {
    next_of = s.next_of;
    prev_of = s.prev_of;
    key_of = λ j. ap (λ (x : Item). x.key) (s.content_of j);
    keysize_of = λ j. ap (λ (x : Item). x.keysize) (s.content_of j);
    hash_of = λ j. ap (λ (x : Item). x.hash) (s.content_of j);
    slot_of = s.slot_of;
    unused_of = s.unused_of;
  }

  pub SameTable-IsCache : IsCache o c → IsCache o c'
  SameTable-IsCache v = record {
    chains = v.chains;
    table = SameKeys-IsTable o c c' SameTable-SameKeys v.chains v.table;
    plain = s.bitmap_of ∙ v.plain;
    place = λ j nz live.
        ap (λ (x : Item). x.first_block) (s.content_of j)
        ∙ v.place j nz (omega (arith, SameTable-SameKeys.keysize_of j, live));
    size = λ j nz live.
        let small = v.size j nz (omega (arith, SameTable-SameKeys.keysize_of j, live)) in
        omega (arith, ap (λ (x : Item). x.valsize) (s.content_of j), small);
  }

  pub SameTable-lookup : IsCache o c → (key : List ℕ) → lookup o c' key ≡ lookup o c key
  SameTable-lookup v key =
      lookup-same o c c' key v (SameTable-IsCache v)
        (λ j h. (
          SameKeys-Holds o c c' SameTable-SameKeys key j h,
          ap (λ m. entry_of o m (c'.items j)) s.memory_of
              ∙ ap (λ (x : Item). entry_of o c.memory x) (s.content_of j),
        ))
        (SameKeys-Holds_back o c c' SameTable-SameKeys key)

-- the steps that do no more than that
pub send_command-SameTable :
    (o : Settings) (cmd : ℕ) (key : List ℕ) (c : Cache) → SameTable c (send_command o cmd key c)
unfolding send_command
send_command-SameTable o cmd key c = record {
  next_of = λ j. ground arith;
  prev_of = λ j. ground arith;
  content_of = λ j. ground arith;
  slot_of = λ b. ground arith;
  unused_of = ground arith;
  memory_of = ground arith;
  bitmap_of = ground arith;
}
