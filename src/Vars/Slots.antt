-- ===== src/Vars/Slots.antt =====
-- The entries of hvec that upsgi_parse_vars fills, and the positions that it remembers.
use upsgi.Common.{
  chain-some, ℕ, zero, suc, ◌+◌, ◌-◌, ◌≤◌, ◌≡◌, ◌⊎◌, inl, inr, refl, ap, sym, ◌∙◌, arith, Bool,
  ◌||◌, true, false, List, [], ◌∷◌, ◌++◌, Option, none, some, if◌then◌else◌, length, get_elem?,
  length-append, append_assoc, append-nil,
}
use mathlib.Core.Path.{subst}
use mathlib.Core.Option.{some-injective}
use upsgi.Common.Text.{codes}
use upsgi.Buffer.Encode.{bytes16le}
use upsgi.Wire.Range.{equal}
use upsgi.Wire.RoundTrip.{packet, IsPacket}
use upsgi.Vars.Types.{Settings, Wsgi}
use upsgi.Vars.Hooks
use upsgi.Vars.Parse.{accepted, push_iovec, add_var, parse_vars}
use upsgi.Vars.Packets.{add_vars, result_of-accepted, parse_vars-packet}
use upsgi.Vars.Fields.{equal_clash}
use upsgi.Wire.Equal.{equal-eq}

-- the entries of the variables, in order
abbrev pub entries : List (List ℕ × List ℕ) → List (List ℕ)
entries [] = []
entries ((key, val) ∷ vars) = key ∷ Hooks.stored key val ∷ entries vars

-- a remembered position is that of the field's value
abbrev pub IsAt : Option ℕ → List ℕ → List (List ℕ) → Type 0
IsAt none field hvec = Unit
IsAt (some i) field hvec = get_elem? hvec i ≡ some field

get_elem?-append_left :
    (i : ℕ) (xs ys : List (List ℕ)) {x : List ℕ}
    → get_elem? xs i ≡ some x
    → get_elem? (xs ++ ys) i ≡ some x
get_elem?-append_left i [] ys e = absurd (ground arith)
get_elem?-append_left zero (x ∷ xs) ys e = e
get_elem?-append_left (suc i) (x ∷ xs) ys e = get_elem?-append_left i xs ys e

get_elem?-append_second :
    (xs : List (List ℕ)) (a b : List ℕ) → get_elem? (xs ++ a ∷ b ∷ []) (length xs + 1) ≡ some b
get_elem?-append_second [] a b = refl
get_elem?-append_second (x ∷ xs) a b = ground (arith, get_elem?-append_second xs a b)

-- whether a position is recorded
abbrev pub is_recorded : Option ℕ → Bool
is_recorded none = false
is_recorded (some i) = true

-- whether a variable has the name
abbrev pub has_var : List ℕ → List (List ℕ × List ℕ) → Bool
has_var name [] = false
has_var name ((key, val) ∷ vars) = equal key name || has_var name vars

-- what a hook does to the entries and positions
module _ (o : Settings) (behind key buf : List ℕ) (w : Wsgi) where
  abbrev positions : Wsgi → List (List ℕ) × (Option ℕ × (List ℕ × (Option ℕ × List ℕ)))
  positions x = (x.hvec, (x.path_info_pos, (x.path_info, (x.script_name_pos, x.script_name))))

  abbrev positions_of :
      Option Wsgi → Option (List (List ℕ) × (Option ℕ × (List ℕ × (Option ℕ × List ℕ))))
  positions_of none = none
  positions_of (some x) = some (positions x)

  abbrev at_path_info : List (List ℕ) × (Option ℕ × (List ℕ × (Option ℕ × List ℕ)))
  at_path_info = (w.hvec, (some (length w.hvec + 1), (buf, (w.script_name_pos, w.script_name))))

  abbrev at_script_name : List (List ℕ) × (Option ℕ × (List ℕ × (Option ℕ × List ℕ)))
  at_script_name = (w.hvec, (w.path_info_pos, (w.path_info, (some (length w.hvec + 1), buf))))

  positions-check_5 : positions (Hooks.check_5 key buf w) ≡ positions w
  unfolding Hooks.check_5
  positions-check_5 = ground arith

  positions-check_10 : positions (Hooks.check_10 o behind key buf w) ≡ positions w
  unfolding Hooks.check_10
  positions-check_10 = ground arith

  positions-check_12 : positions (Hooks.check_12 o key buf w) ≡ positions w
  unfolding Hooks.check_12 Hooks.set_environment
  positions-check_12 = ground arith

  positions-check_13 : positions (Hooks.check_13 key buf w) ≡ positions w
  unfolding Hooks.check_13
  positions-check_13 = ground arith

  positions-check_15 : positions (Hooks.check_15 key buf w) ≡ positions w
  unfolding Hooks.check_15
  positions-check_15 = ground arith

  positions-check_18 : positions (Hooks.check_18 key buf w) ≡ positions w
  unfolding Hooks.check_18
  positions-check_18 = ground arith

  positions-check_20 : positions (Hooks.check_20 o key buf w) ≡ positions w
  unfolding Hooks.check_20
  positions-check_20 = ground arith

  positions-check_27 : positions (Hooks.check_27 key buf w) ≡ positions w
  unfolding Hooks.check_27
  positions-check_27 = ground arith

  positions-check_9 :
      positions (Hooks.check_9 key buf w)
      ≡ (if equal key (codes "PATH_INFO") then at_path_info else positions w)
  unfolding Hooks.check_9
  positions-check_9 = ground arith

  positions-check_11 :
      positions (Hooks.check_11 key buf w)
      ≡ (if equal key (codes "SCRIPT_NAME") then at_script_name else positions w)
  unfolding Hooks.check_11
  positions-check_11 = ground arith

  positions-check_14 :
      (positions_of (Hooks.check_14 o key buf w) ≡ none)
      ⊎ (positions_of (Hooks.check_14 o key buf w) ≡ some (positions w))
  unfolding Hooks.check_14 Hooks.set_content_length Hooks.with_length Hooks.note_body
  positions-check_14 = ground arith

  positions-check_22 :
      (positions_of (Hooks.check_22 o key buf w) ≡ none)
      ⊎ (positions_of (Hooks.check_22 o key buf w) ≡ some (positions w))
  unfolding Hooks.check_22 Hooks.set_chunked Hooks.note_body
  positions-check_22 = ground arith

  abbrev named_path : Bool
  named_path = equal key (codes "PATH_INFO")

  abbrev named_script : Bool
  named_script = equal key (codes "SCRIPT_NAME")

  length_named : (name : List ℕ) → equal key name ≡ true → length key ≡ length name
  length_named name h = ap length (equal-eq key name h)

  positions-proto_hook :
      let r = positions_of (Hooks.proto_hook o behind key buf w) in
      (r ≡ none)
      ⊎ (((r ≡ some (positions w)) × (named_path ≡ false) × (named_script ≡ false))
          ⊎ (((r ≡ some at_path_info) × (named_path ≡ true) × (named_script ≡ false))
              ⊎ ((r ≡ some at_script_name) × (named_path ≡ false) × (named_script ≡ true))))
  unfolding Hooks.proto_hook
  positions-proto_hook = ground (
    arith,
    positions-check_5,
    positions-check_9,
    positions-check_10,
    positions-check_11,
    positions-check_12,
    positions-check_13,
    positions-check_14,
    positions-check_15,
    positions-check_18,
    positions-check_20,
    positions-check_22,
    positions-check_27,
    length_named (codes "PATH_INFO"),
    length_named (codes "SCRIPT_NAME"),
  )

  -- both positions are those of their fields
  abbrev IsPlaced : List (List ℕ) × (Option ℕ × (List ℕ × (Option ℕ × List ℕ))) → Type 0
  IsPlaced (hvec, (p, (path_info, (q, script_name)))) =
      IsAt p path_info hvec × IsAt q script_name hvec

  IsAt-append :
      (p : Option ℕ) (field : List ℕ) (hvec more : List (List ℕ))
      → IsAt p field hvec
      → IsAt p field (hvec ++ more)
  IsAt-append none field hvec more h = tt
  IsAt-append (some i) field hvec more h = get_elem?-append_left i hvec more h

  hvec-pushes :
      (hooked : Wsgi) {w' : Wsgi}
      → elim (push_iovec o key hooked) [
        | none ↦ none
        | some k ↦ push_iovec o (Hooks.stored key buf) k
      ]
        ≡ some w'
      → (positions w' ≡ (
        hooked.hvec ++ key ∷ Hooks.stored key buf ∷ [],
        (hooked.path_info_pos, (hooked.path_info, (hooked.script_name_pos, hooked.script_name))),
      ))
        × (length w'.hvec ≤ o.vec_size - 5)
  unfolding push_iovec
  hvec-pushes hooked {w'} e = ground (
    arith,
    append_assoc hooked.hvec (key ∷ []) (Hooks.stored key buf ∷ []),
    length-append (hooked.hvec ++ key ∷ []) (Hooks.stored key buf ∷ []),
    length-append hooked.hvec (key ∷ []),
  )

  stored_plain :
      (name : List ℕ)
      → equal key name ≡ true
      → equal name (codes "UPSGI_SETENV") ≡ false
      → Hooks.stored key buf ≡ buf
  unfolding Hooks.stored
  stored_plain name e d = ground (arith, equal_clash key name (codes "UPSGI_SETENV") d)

  -- a variable that is added stands behind the others, and the positions are right
  record Placed (w' : Wsgi) : Type 0 where
    hvec : w'.hvec ≡ w.hvec ++ key ∷ Hooks.stored key buf ∷ []
    room : length w'.hvec ≤ o.vec_size - 5
    path_info : IsAt w'.path_info_pos w'.path_info w'.hvec
    script_name : IsAt w'.script_name_pos w'.script_name w'.hvec
    path_recorded : is_recorded w'.path_info_pos ≡ (is_recorded w.path_info_pos || named_path)
    script_recorded :
        is_recorded w'.script_name_pos ≡ (is_recorded w.script_name_pos || named_script)

  abbrev more : List (List ℕ)
  more = key ∷ Hooks.stored key buf ∷ []

  placed :
      (w' : Wsgi) (p q : Option ℕ) (f g : List ℕ)
      → positions w' ≡ (w.hvec ++ more, (p, (f, (q, g))))
      → length w'.hvec ≤ o.vec_size - 5
      → IsAt p f (w.hvec ++ more)
      → IsAt q g (w.hvec ++ more)
      → is_recorded p ≡ (is_recorded w.path_info_pos || named_path)
      → is_recorded q ≡ (is_recorded w.script_name_pos || named_script)
      → Placed w'
  placed w' p q f g e r a b rp rq =
      let both : IsPlaced (positions w') = subst IsPlaced (sym e) (a, b) in
      record {
        hvec = ap (λ x. x.0) e;
        room = r;
        path_info = both.0;
        script_name = both.1;
        path_recorded = ap (λ x. is_recorded (x.1.0)) e ∙ rp;
        script_recorded = ap (λ x. is_recorded (x.1.1.1.0)) e ∙ rq;
      }

  new-IsAt :
      (name : List ℕ)
      → equal key name ≡ true
      → equal name (codes "UPSGI_SETENV") ≡ false
      → IsAt (some (length w.hvec + 1)) buf (w.hvec ++ more)
  new-IsAt name k d =
      get_elem?-append_second w.hvec key (Hooks.stored key buf)
      ∙ ap (λ b. some b) (stored_plain name k d)

  add_var-Placed :
      {w' : Wsgi} → IsPlaced (positions w) → add_var o behind key buf w ≡ some w' → Placed w'
  unfolding add_var equal
  add_var-Placed {w'} (a, b) e =
      let (hooked, p, e1) =
        chain-some (Hooks.proto_hook o behind key buf w)
          (λ h. elim (push_iovec o key h) [
            | none ↦ none
            | some k ↦ push_iovec o (Hooks.stored key buf) k
          ])
          e in
      let (q, r) = hvec-pushes hooked e1 in
      let old_path = IsAt-append w.path_info_pos w.path_info w.hvec more a in
      let old_script = IsAt-append w.script_name_pos w.script_name w.hvec more b in
      elim positions-proto_hook [
        | inl n ↦ absurd (ground (arith, n, p))
        | inr h ↦ elim h [
          | inl (same, np, ns) ↦
              placed w' w.path_info_pos w.script_name_pos w.path_info w.script_name
                (ground (arith, q, p, same)) r old_path old_script (ground (arith, np))
                (ground (arith, ns))
          | inr h' ↦ elim h' [
            | inl (at, k, ns) ↦
                placed w' (some (length w.hvec + 1)) w.script_name_pos buf w.script_name
                  (ground (arith, q, p, at)) r (new-IsAt (codes "PATH_INFO") k refl) old_script
                  (ground (arith, k)) (ground (arith, ns))
            | inr (at, np, k) ↦
                placed w' w.path_info_pos (some (length w.hvec + 1)) w.path_info buf
                  (ground (arith, q, p, at)) r old_path (new-IsAt (codes "SCRIPT_NAME") k refl)
                  (ground (arith, np)) (ground (arith, k))
          ]
        ]
      ]

add_vars-Placed :
    (o : Settings) (slack : List ℕ) (vars : List (List ℕ × List ℕ)) (w : Wsgi) {w' : Wsgi}
    → IsAt w.path_info_pos w.path_info w.hvec
    → IsAt w.script_name_pos w.script_name w.hvec
    → length w.hvec ≤ o.vec_size - 5
    → add_vars o slack vars w ≡ some w'
    → (w'.hvec ≡ w.hvec ++ entries vars)
      × (length w'.hvec ≤ o.vec_size - 5)
      × IsAt w'.path_info_pos w'.path_info w'.hvec
      × IsAt w'.script_name_pos w'.script_name w'.hvec
      × (is_recorded w'.path_info_pos
          ≡ (is_recorded w.path_info_pos || has_var (codes "PATH_INFO") vars))
      × (is_recorded w'.script_name_pos
          ≡ (is_recorded w.script_name_pos || has_var (codes "SCRIPT_NAME") vars))
add_vars-Placed o slack [] w {w'} a b r e =
    let same : w ≡ w' = some-injective w w' e in
    subst
      (λ (x : Wsgi).
        (x.hvec ≡ w.hvec ++ [])
        × (length x.hvec ≤ o.vec_size - 5)
        × IsAt x.path_info_pos x.path_info x.hvec
        × IsAt x.script_name_pos x.script_name x.hvec
        × (is_recorded x.path_info_pos ≡ (is_recorded w.path_info_pos || false))
        × (is_recorded x.script_name_pos ≡ (is_recorded w.script_name_pos || false)))
      same (sym (append-nil w.hvec), r, a, b, ground arith, ground arith)
add_vars-Placed o slack ((key, val) ∷ vars) w a b r e =
    let behind = (bytes16le (length val) ++ (val ++ packet vars)) ++ slack in
    let (w1, p, e1) = chain-some (add_var o behind key val w) (add_vars o slack vars) e in
    let one = add_var-Placed o behind key val w (a, b) p in
    let (h, room, c, d, np, ns) =
      add_vars-Placed o slack vars w1 one.path_info one.script_name one.room e1 in
    (
      ground (
        arith,
        h,
        one.hvec,
        append_assoc w.hvec (key ∷ Hooks.stored key val ∷ []) (entries vars),
      ),
      room,
      c,
      d,
      ground (arith, np, one.path_recorded),
      ground (arith, ns, one.script_recorded),
    )

-- Of an accepted packet, hvec holds the key and the value of each variable, in order, behind what it held,
-- where UPSGI_SETENV has a NUL for the first equal sign of its value, five entries below its size at most,
-- if it was so before; a position is remembered for PATH_INFO and for SCRIPT_NAME exactly when a variable
-- has that name, and it is that of the field's value.
pub parse_vars-entries :
    (o : Settings) (slack : List ℕ) (vars : List (List ℕ × List ℕ)) (w : Wsgi) {w' : Wsgi}
    → IsPacket vars
    → length w.hvec ≤ o.vec_size - 5
    → parse_vars o slack (packet vars) w ≡ accepted w'
    → (w'.hvec ≡ w.hvec ++ entries vars)
      × (length w'.hvec ≤ o.vec_size - 5)
      × IsAt w'.path_info_pos w'.path_info w'.hvec
      × IsAt w'.script_name_pos w'.script_name w'.hvec
      × (is_recorded w'.path_info_pos ≡ has_var (codes "PATH_INFO") vars)
      × (is_recorded w'.script_name_pos ≡ has_var (codes "SCRIPT_NAME") vars)
parse_vars-entries o slack vars w p r e =
    add_vars-Placed o slack vars (record w { path_info_pos = none; script_name_pos = none }) tt tt r
      (result_of-accepted _ (sym (parse_vars-packet o slack vars w p) ∙ e))
