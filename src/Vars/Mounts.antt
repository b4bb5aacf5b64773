-- ===== src/Vars/Mounts.antt =====
-- manage-script-name in upsgi_parse_vars: SCRIPT_NAME and PATH_INFO by the mountpoints of the apps.
pub mod Choice
pub mod Managed
use mathlib.Core.Path.{subst}
use upsgi.Common.Text.{codes}
use upsgi.Vars.Types.{Settings, Wsgi}
use upsgi.Wire.Equal.{equal_refl}
use upsgi.Common.{
  ℕ, zero, suc, ◌+◌, ◌-◌, sym, ◌∙◌, Option, none, some, ◌≢◌, ◌⊎◌, inl, inr, ◌%◌, ◌^◌, ◌≤◌, ◌<◌, ◌≡◌,
  refl, ap, arith, Bool, true, false, not, ◌&&◌, ◌||◌, List, [], ◌∷◌, ◌++◌, ltb, leb, ◌==◌,
  if◌then◌else◌, length, get_or, take, drop, take_append, length-append,
}
use upsgi.Wire.Range.{equal}

-- a mountpoint without its last slash
unfoldable pub trim_slash : List ℕ → List ℕ
trim_slash [] = []
trim_slash (c ∷ []) = if c == b'/' then [] else c ∷ []
trim_slash (c ∷ d ∷ m) = c ∷ trim_slash (d ∷ m)

-- what the loop changes: PATH_INFO begins `at` bytes into the path, and has a length of 16 bits
pub record Mount : Type 0 where
  pub best_found : ℕ
  pub script_name : List ℕ
  pub at : ℕ
  pub path_info_len : ℕ
  pub hvec : List (List ℕ)

-- hvec[at] = entry
unfoldable pub set_entry : ℕ → List ℕ → List (List ℕ) → List (List ℕ)
set_entry at entry [] = []
set_entry zero entry (x ∷ hvec) = entry ∷ hvec
set_entry (suc at) entry (x ∷ hvec) = x ∷ set_entry at entry hvec

-- the bytes that PATH_INFO shows, where `behind` is the memory behind the path
unfoldable pub shown : List ℕ → List ℕ → ℕ → ℕ → List ℕ
shown behind path at len = take len (drop at (path ++ behind))

-- one app; script_name_pos is `s`, and path_info_pos is `p`
unfoldable pub try_mount : List ℕ → ℕ → ℕ → List ℕ → Mount → List ℕ → Mount
try_mount behind s p path m mountpoint =
    let trimmed = trim_slash mountpoint in
    let n = length trimmed in
    let at = length mountpoint in
    let len = (length path + 2 ^ 16 - length mountpoint) % 2 ^ 16 in
    if ltb (length path) n
      || (leb n m.best_found
          || (not (equal (take n path) trimmed)
              || (ltb n (length path) && not (get_or path n 0 == b'/'))))
    then m
    else record {
      best_found = n;
      script_name = mountpoint;
      at = at;
      path_info_len = len;
      hvec = set_entry p (shown behind path at len) (set_entry s mountpoint m.hvec);
    }

-- the loop over the apps
unfoldable pub try_mounts : List ℕ → ℕ → ℕ → List ℕ → Mount → List (List ℕ) → Mount
try_mounts behind s p path m [] = m
try_mounts behind s p path m (mountpoint ∷ apps) =
    try_mounts behind s p path (try_mount behind s p path m mountpoint) apps

-- SCRIPT_NAME gets two entries of hvec if it has none; none is the return value -1
unfoldable pub slot_script_name : Settings → Wsgi → Option Wsgi
slot_script_name o w = elim w.script_name_pos [
  | some s ↦ some w
  | none ↦
      if leb (o.vec_size - 6) (length w.hvec)
      then none
      else some (record w {
        hvec = w.hvec ++ codes "SCRIPT_NAME" ∷ [] ∷ [];
        script_name_pos = some (length w.hvec + 1);
      })
]

-- the loop for a request whose positions are `s` and `p`
unfoldable pub mount_at : List ℕ → List (List ℕ) → ℕ → ℕ → Wsgi → Wsgi
mount_at behind apps s p w =
    let first : Mount = record {
      best_found = 0;
      script_name = w.script_name;
      at = 0;
      path_info_len = length w.path_info;
      hvec = w.hvec;
    } in
    let m = try_mounts behind s p w.path_info first apps in
    record w {
      script_name = m.script_name;
      path_info = shown behind w.path_info m.at m.path_info_len;
      hvec = m.hvec;
    }

-- the part of upsgi_parse_vars for manage-script-name, which `enabled` says; none is the return value -1
unfoldable pub manage_script_name : Bool → Settings → List ℕ → List (List ℕ) → Wsgi → Option Wsgi
manage_script_name enabled o behind apps w =
    if not enabled || (length apps == 0 || length w.path_info == 0)
    then some w
    else elim w.path_info_pos [
      | none ↦ some w
      | some p ↦ elim (slot_script_name o w) [
        | none ↦ none
        | some w' ↦ elim w'.script_name_pos [
          | none ↦ some w'
          | some s ↦ some (mount_at behind apps s p w')
        ]
      ]
    ]
