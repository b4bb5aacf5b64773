-- ===== src/Vars/Parse.antt =====
-- The loop of upsgi_parse_vars over the bytes from `ptrbuf` to `bufferend`. A turn spends one unit of fuel;
-- `stuck` means that it ran out. `slack` is what the buffer holds behind the packet.
use upsgi.Common.{
  ℕ, zero, suc, ◌-◌, List, [], ◌∷◌, ◌++◌, Option, none, some, ltb, leb, ◌==◌, if◌then◌else◌, length,
  take, drop,
}
use upsgi.Wire.Parse.{read16}
use upsgi.Vars.Types.{Settings, Wsgi}
use upsgi.Vars.Hooks.{proto_hook, stored}

pub data Result : Type 0 where
  accepted : Wsgi → Result
  refused stuck : Result

-- an iovec more, if there is room
unfoldable pub push_iovec : Settings → List ℕ → Wsgi → Option Wsgi
push_iovec o bytes w =
    if ltb (length w.hvec) (o.vec_size - 5)
    then some (record w { hvec = w.hvec ++ bytes ∷ [] })
    else none

-- one variable: its hook, and the iovecs of its key and value
unfoldable pub add_var : Settings → List ℕ → List ℕ → List ℕ → Wsgi → Option Wsgi
add_var o behind key buf w = elim (proto_hook o behind key buf w) [
  | none ↦ none
  | some hooked ↦ elim (push_iovec o key hooked) [
    | none ↦ none
    | some keyed ↦ push_iovec o (stored key buf) keyed
  ]
]

-- a value behind its key, and the rest
unfoldable pub parse_value :
    Settings → List ℕ → (List ℕ → Wsgi → Result) → List ℕ → List ℕ → Wsgi → Result
parse_value o slack next key ptrbuf w =
    let strsize = read16 ptrbuf in
    let value = drop 2 ptrbuf in
    if ltb (length ptrbuf) 2
    then refused
    else if ltb (length value) strsize
    then refused
    else elim (add_var o (ptrbuf ++ slack) key (take strsize value) w) [
      | none ↦ refused
      | some w' ↦ next (drop strsize value) w'
    ]

-- a key whose size is too large for what is left is passed over: the loop goes on behind its size
unfoldable pub parse_vars_loop : Settings → List ℕ → ℕ → List ℕ → Wsgi → Result
parse_vars_loop o slack zero ptrbuf w = stuck
parse_vars_loop o slack (suc fuel) ptrbuf w =
    let strsize = read16 ptrbuf in
    let key = drop 2 ptrbuf in
    let rest =
      parse_value o slack (parse_vars_loop o slack fuel) (take strsize key) (drop strsize key) w in
    let onwards = parse_vars_loop o slack fuel key w in
    if length ptrbuf == 0
    then accepted w
    else if leb (length ptrbuf) 2
    then refused
    else if strsize == 0
    then refused
    else if ltb strsize (length key)
    then rest
    else onwards

-- the variables of a request that is not parsed yet; a unit of fuel for each byte and one more
unfoldable pub parse_vars : Settings → List ℕ → List ℕ → Wsgi → Result
parse_vars o slack packet w =
    parse_vars_loop o slack (suc (length packet)) packet
      (record w { path_info_pos = none; script_name_pos = none })
