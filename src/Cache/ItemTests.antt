-- ===== src/Cache/ItemTests.antt =====
-- A cache of three items, whose keys all have the same hash.
use mathlib.Core.Path.{subst}
use upsgi.Common.{
  ℕ, ◌*◌, ◌<◌, ◌≤◌, ◌≡◌, ◌≢◌, ◌⊎◌, inl, refl, sym, arith, Bool, true, false, List, [], ◌∷◌, Option,
  none, some, length,
}
use upsgi.Wire.Range.{equal}
use upsgi.Cache.Items.{
  Settings, Item, Cache, del2, change, lru_add_item, lru_remove_item, set_slot, send_command,
  check_lazy, is_item, cycle, get_slot, get_index,
}
use upsgi.Cache.Ops.{
  flag, flags_of, write_bytes, read_bytes, value_bytes, expiry, last_link, link_item, fill_item,
  insert_item, done_item, place_item, pop_item, set_found, set2, get_value,
}
use upsgi.Cache.Life.{
  init, push_from, call, restore, Call, set_call, get_call, del_call, num_call, sweep_call, run,
}
use upsgi.Cache.Table.{Holds}
use upsgi.Cache.View.{Entry, entry_at, lookup, IsCache}
use upsgi.Cache.View.Remove.{Only, del2-Only}
use upsgi.Cache.View.Set.{Stores, set2-Stores}
use upsgi.Cache.View.Get.{IsRead, get_value-IsRead}
use upsgi.Cache.View.Roundtrip.{get_value-set2}
use upsgi.Cache.View.Run.{run-init}
use upsgi.Cache.View.Fix.{restore-lookup}
use upsgi.Cache.Lru.{IsLru}
use upsgi.Cache.Lru.Touch.{get_value-IsLru}
use upsgi.Cache.Lru.Evict.{set2-evicts}

abbrev settings : Bool → Settings
settings lru = record {
  max_items = 3;
  max_keysize = 4;
  blocksize = 8;
  max_item_size = 8;
  hashsize = 2;
  hash_of = λ key. length key;
  math_initial = 0;
  purge_lru = lru;
  lazy_expire = false;
  use_last_modified = true;
  clear_on_full = false;
  sweep_on_full = 0;
  nodes = false;
}

abbrev zeroed : ℕ → ℕ
zeroed a = 0

abbrev sets_a : List Call
sets_a = set_call 5 (97 ∷ []) (1 ∷ 2 ∷ []) 0 0 ∷ []

abbrev sets_both : List Call
sets_both = set_call 5 (97 ∷ []) (1 ∷ 2 ∷ []) 0 0 ∷ set_call 6 (98 ∷ []) (3 ∷ []) 0 0 ∷ []

abbrev after : Settings → List Call → Cache
after o calls = elim (run o calls (init o none zeroed)) [ none ↦ init o none zeroed | some c ↦ c ]

after-IsCache :
    (o : Settings) (calls : List Call) → o.max_item_size ≤ o.blocksize → IsCache o (after o calls)
after-IsCache o calls enough = step (run-init o enough calls zeroed)
  where
    step :
        (d : Cache) × (run o calls (init o none zeroed) ≡ some d) × IsCache o d
        → IsCache o (after o calls)
    step (d, e, v) =
        subst (λ (r : Option Cache). IsCache o (elim r [ none ↦ init o none zeroed | some c ↦ c ]))
          (sym e) v

abbrev one : Cache
one = after (settings false) sets_a

one-IsCache : IsCache (settings false) one
one-IsCache = after-IsCache (settings false) sets_a (omega arith)

-- the item of the key is on top of the stack
one-facts :
    (one.unused ≡ 1 ∷ [])
    × (lookup (settings false) one (97 ∷ [])
        ≡ some (record { flags = 0; expires = 0; value = 1 ∷ 2 ∷ [] }))
    × (lookup (settings false) one (98 ∷ []) ≡ none)
unfolding run call set2 set_found pop_item place_item insert_item fill_item link_item set_slot
    last_link change lru_add_item lru_remove_item expiry done_item send_command value_bytes flags_of
    flag write_bytes read_bytes get_index get_slot cycle is_item equal check_lazy init push_from
    lookup entry_at
one-facts = (refl, refl, refl)

abbrev both : Cache
both = after (settings true) sets_both

both-IsCache : IsCache (settings true) both
both-IsCache = after-IsCache (settings true) sets_both (omega arith)

both-facts :
    (both.unused ≡ [])
    × (lookup (settings true) both (99 ∷ []) ≡ none)
    × ((both.items 2).keysize ≡ 1)
    × ((both.items 2).key ≡ 97 ∷ [])
unfolding run call set2 set_found pop_item place_item insert_item fill_item link_item set_slot
    last_link change lru_add_item lru_remove_item expiry done_item send_command value_bytes flags_of
    flag write_bytes read_bytes get_index get_slot cycle is_item equal check_lazy init push_from
    lookup entry_at
both-facts = (refl, refl, refl, refl)

both-IsLru : IsLru both (2 ∷ 1 ∷ [])
unfolding run call set2 set_found pop_item place_item insert_item fill_item link_item set_slot
    last_link change lru_add_item lru_remove_item expiry done_item send_command value_bytes flags_of
    flag write_bytes read_bytes get_index get_slot cycle is_item equal check_lazy init push_from
    lookup entry_at
both-IsLru = record {
  chain = (refl, (λ z. ground (arith, z)), refl, (refl, (λ z. ground (arith, z)), refl, refl));
  apart = refl;
  tail = refl;
}

one-free : one.unused ≢ []
one-free z = ground (arith, one-facts.0, z)

plain : (flags_of 2).math ≡ false
unfolding flags_of flag
plain = refl

plain_0 : (flags_of 0).math ≡ false
unfolding flags_of flag
plain_0 = refl

updates : (flags_of 2).update ≡ true
unfolding flags_of flag
updates = refl

readable : (flags_of 2).ungettable ≡ false
unfolding flags_of flag
readable = refl

readable_0 :
    (e : Entry)
    → lookup (settings false) one (97 ∷ []) ≡ some e
    → (flags_of e.flags).ungettable ≡ false
unfolding flags_of flag
readable_0 e h = ground (arith, one-facts.1, h)

-- another key of the same hash
set2-Stores_example :
    (r : Bool × Cache) × (set2 (settings false) 7 (98 ∷ []) (4 ∷ []) 60 2 one ≡ some r)
    × Stores (settings false) 2 (98 ∷ []) (4 ∷ []) one r
set2-Stores_example =
    set2-Stores (settings false) 7 2 (98 ∷ []) (4 ∷ []) 60 one one-IsCache (omega arith)
      (omega arith) plain one-free (omega arith) (omega arith) (omega arith)

get_value-set2_example :
    (d : Cache) × (set2 (settings false) 7 (97 ∷ []) (4 ∷ []) 60 2 one ≡ some (true, d))
    × ((later : ℕ) (moves : Bool)
        → (x : Item) × (d' : Cache) × (get_value (settings false) later moves (97 ∷ []) d
            ≡ some (some (x, 4 ∷ []), d')))
get_value-set2_example =
    get_value-set2 (settings false) 7 2 (97 ∷ []) (4 ∷ []) 60 one one-IsCache (omega arith)
      (omega arith) (omega arith) (omega arith) (omega arith) plain one-free refl readable
      (inl updates) readable_0

del2-Only_example :
    (r : Bool × Cache) × (del2 (settings false) 9 (97 ∷ []) true one ≡ some r)
    × Only (settings false) (97 ∷ []) one r.1
    × (lookup (settings false) r.1 (97 ∷ []) ≡ none)
    × ((j : ℕ)
        → Holds one (97 ∷ []) j
        → (one.items j).expires ≡ 0 ⊎ 9 < (one.items j).expires
        → r.0 ≡ true)
del2-Only_example = del2-Only (settings false) 9 (97 ∷ []) one one-IsCache true

get_value-IsRead_example :
    (r : Option (Item × List ℕ) × Cache) × (get_value (settings false) 9 true (97 ∷ []) one
      ≡ some r)
    × IsRead (settings false) 9 (97 ∷ []) one r
get_value-IsRead_example = get_value-IsRead (settings false) 9 true (97 ∷ []) one one-IsCache

-- the least recently used of the two items goes
set2-evicts_example :
    (r : Cache) × (set2 (settings true) 8 (99 ∷ []) (5 ∷ []) 0 0 both ≡ some (true, r))
    × ((e : Entry) × (lookup (settings true) r (99 ∷ []) ≡ some e) × (e.value ≡ 5 ∷ []))
    × (lookup (settings true) r (both.items 2).key ≡ none)
    × ((key' : List ℕ)
        → key' ≢ 99 ∷ []
        → key' ≢ (both.items 2).key
        → lookup (settings true) r key' ≡ lookup (settings true) both key')
    × IsLru r (1 ∷ 2 ∷ [])
set2-evicts_example =
    set2-evicts (settings true) 8 both both-IsCache 2 (1 ∷ []) both-IsLru
      (omega (arith, both-facts.2)) refl refl refl 0 (99 ∷ []) (5 ∷ []) 0 both-facts.0 both-facts.1
      (omega arith) (omega arith) plain_0 (omega arith) (omega arith) (omega arith)

both-holds : Holds both (97 ∷ []) 2
both-holds = record {
  index = λ z. ground (arith, z);
  live = omega (arith, both-facts.2);
  is_key = both-facts.3;
}

both-readable : (flags_of (both.items 2).flags).ungettable ≡ false
unfolding run call set2 set_found pop_item place_item insert_item fill_item link_item set_slot
    last_link change lru_add_item lru_remove_item expiry done_item send_command value_bytes flags_of
    flag write_bytes read_bytes get_index get_slot cycle is_item equal check_lazy init push_from
    lookup entry_at
both-readable = refl

get_value-IsLru_example :
    (x : Item) × (d : Cache) × (get_value (settings true) 9 true (97 ∷ []) both
      ≡ some (
        some (x, read_bytes both.memory ((both.items 2).first_block * 8) (both.items 2).valsize),
        d,
      ))
    × IsLru d (1 ∷ 2 ∷ [])
get_value-IsLru_example =
    get_value-IsLru (settings true) 9 (97 ∷ []) both 2 (2 ∷ 1 ∷ []) both-IsCache both-holds refl
      refl both-readable both-IsLru refl

restore-lookup_example :
    IsCache (settings false) (restore (settings false) none one.items one.memory)
    × ((key : List ℕ)
        → lookup (settings false) (restore (settings false) none one.items one.memory) key
          ≡ lookup (settings false) one key)
restore-lookup_example = restore-lookup (settings false) one one-IsCache

run-init_example :
    (d : Cache) × (run
        (settings false)
        (set_call 5 (97 ∷ []) (1 ∷ []) 0 0
          ∷ num_call 6 (97 ∷ [])
          ∷ del_call 7 (97 ∷ []) true
          ∷ sweep_call false 8
          ∷ get_call 9 true (97 ∷ [])
          ∷ [])
        (init (settings false) none zeroed)
      ≡ some d)
    × IsCache (settings false) d
run-init_example =
    run-init (settings false) (omega arith)
      (set_call 5 (97 ∷ []) (1 ∷ []) 0 0
        ∷ num_call 6 (97 ∷ [])
        ∷ del_call 7 (97 ∷ []) true
        ∷ sweep_call false 8
        ∷ get_call 9 true (97 ∷ [])
        ∷ [])
      zeroed
