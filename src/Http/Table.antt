-- ===== src/Http/Table.antt =====
-- The table of the headers of http_parse: a name has one slot.
use upsgi.Common.{
  ℕ, ◌≡◌, refl, arith, Bool, true, false, List, [], ◌∷◌, ◌++◌, Option, none, some, if◌then◌else◌,
}
use upsgi.Http.Names.{same_name}
use upsgi.Http.Headers.{
  Slot, find, merge, add_line, header_to_cgi, needs_prefix, scan_headers, reject_duplicate,
}

-- no two slots have the same name but for its case
abbrev pub distinct : List Slot → Bool
distinct [] = true
distinct (slot ∷ table) = elim (find slot.key table) [ none ↦ distinct table | some other ↦ false ]

same_name_comm : (xs ys : List ℕ) → same_name xs ys ≡ same_name ys xs
unfolding same_name
same_name_comm [] [] = refl
same_name_comm [] (y ∷ ys) = refl
same_name_comm (x ∷ xs) [] = refl
same_name_comm (x ∷ xs) (y ∷ ys) = ground (arith, same_name_comm xs ys)

find-merge :
    (key other value : List ℕ) (table : List Slot)
    → find key table ≡ none
    → find key (merge other value table) ≡ none
unfolding find merge
find-merge key other value [] e = refl
find-merge key other value (slot ∷ table) e = ground (arith, find-merge key other value table)

distinct-merge :
    (key value : List ℕ) (table : List Slot)
    → distinct table ≡ true
    → distinct (merge key value table) ≡ true
unfolding merge
distinct-merge key value [] d = d
distinct-merge key value (slot ∷ table) d =
    ground (arith, find-merge slot.key key value table, distinct-merge key value table)

find-append :
    (key : List ℕ) (table : List Slot) (slot : Slot)
    → find key table ≡ none
    → same_name slot.key key ≡ false
    → find key (table ++ slot ∷ []) ≡ none
unfolding find
find-append key [] slot e h = ground arith
find-append key (s ∷ table) slot e h = ground (arith, find-append key table slot)

distinct-append :
    (table : List Slot) (slot : Slot)
    → distinct table ≡ true
    → find slot.key table ≡ none
    → distinct (table ++ slot ∷ []) ≡ true
unfolding find
distinct-append [] slot d e = ground arith
distinct-append (s ∷ table) slot d e =
    ground (
      arith,
      find-append s.key table slot,
      same_name_comm slot.key s.key,
      distinct-append table slot,
    )

-- a step of the first loop keeps the names distinct
keeps_distinct : Option (List Slot) → Bool
keeps_distinct none = true
keeps_distinct (some table) = distinct table

add_line-distinct :
    (line : List ℕ) (table : List Slot)
    → distinct table ≡ true
    → keeps_distinct (add_line line table) ≡ true
unfolding add_line keeps_distinct
add_line-distinct line table d =
    elim (header_to_cgi line)
      as (λ o.
        keeps_distinct (elim o [ none ↦ none | some r ↦ stored r (find r.0 table) ]) ≡ true) [
          | none ↦ refl
          | some r ↦ kept r (find r.0 table) refl
        ]
  where
    stored : List ℕ × List ℕ → Option Slot → Option (List Slot)
    stored r o = elim o [
      | some slot ↦ if reject_duplicate r.0 then none else some (merge r.0 r.1 table)
      | none ↦ some (table ++ record { key = r.0; value = r.1; has_prefix = needs_prefix r.0 } ∷ [])
    ]

    kept :
        (r : List ℕ × List ℕ) (o : Option Slot)
        → find r.0 table ≡ o
        → keeps_distinct (stored r o) ≡ true
    kept r none a =
        distinct-append table (record { key = r.0; value = r.1; has_prefix = needs_prefix r.0 }) d a
    kept r (some slot) a = ground (arith, distinct-merge r.0 r.1 table)

scan_headers-distinct :
    (line : List ℕ) (table : List Slot) (bytes : List ℕ)
    → distinct table ≡ true
    → keeps_distinct (scan_headers line table bytes) ≡ true
unfolding scan_headers keeps_distinct
scan_headers-distinct line table [] d = d
scan_headers-distinct line table (c ∷ []) d = ground arith
scan_headers-distinct [] table (c ∷ b ∷ bytes) d =
    let more = scan_headers-distinct (c ∷ []) table (b ∷ bytes) d in ground (arith, more)
scan_headers-distinct (a ∷ line) table (c ∷ b ∷ bytes) d =
    let more = scan_headers-distinct (a ∷ line ++ c ∷ []) table (b ∷ bytes) d in
    let one = add_line-distinct (a ∷ line) table d in
    let table' : List Slot = elim (add_line (a ∷ line) table) [ none ↦ [] | some t ↦ t ] in
    let next = scan_headers-distinct [] table' bytes in ground (arith, more, one, next)

-- The table of an accepted header block has at most one slot for a name, whatever the case of its letters.
pub scan_headers-distinct_names :
    (bytes : List ℕ) {table : List Slot}
    → scan_headers [] [] bytes ≡ some table
    → distinct table ≡ true
unfolding keeps_distinct
scan_headers-distinct_names bytes e =
    let all = scan_headers-distinct [] [] bytes refl in ground (arith, all)
