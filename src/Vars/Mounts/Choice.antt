-- ===== src/Vars/Mounts/Choice.antt =====
-- The choice of a mountpoint by the loop of manage-script-name.
use mathlib.Core.Path.{subst}
use upsgi.Common.{
  ℕ, zero, suc, ◌+◌, ◌-◌, sym, ◌∙◌, ◌≢◌, ◌⊎◌, inl, inr, ◌^◌, ◌≤◌, ◌<◌, ◌≡◌, refl, ap, arith, Bool,
  true, false, not, ◌&&◌, List, [], ◌∷◌, ◌++◌, ltb, leb, ◌==◌, if◌then◌else◌, length, get_or, take,
  drop, take_append,
}
use upsgi.Wire.Range.{equal}
use upsgi.Vars.Mounts.{trim_slash, Mount, set_entry, shown, try_mount, try_mounts}

-- the path is the mountpoint, or goes on behind it with a slash
abbrev pub lies_below : List ℕ → List ℕ → Bool
lies_below [] [] = true
lies_below (c ∷ path) [] = c == b'/'
lies_below [] (d ∷ mountpoint) = false
lies_below (c ∷ path) (d ∷ mountpoint) = c == d && lies_below path mountpoint

-- the test of the loop, for a mountpoint that is not empty
lies_below_lem :
    (path m : List ℕ)
    → lies_below path m ≡ (
        leb (length m) (length path)
        && (equal (take (length m) path) m
            && not (ltb (length m) (length path) && not (get_or path (length m) 0 == b'/'))))
unfolding equal
lies_below_lem [] [] = refl
lies_below_lem (c ∷ path) [] = ground arith
lies_below_lem [] (d ∷ m) = ground arith
lies_below_lem (c ∷ path) (d ∷ m) = ground (arith, lies_below_lem path m)

-- what the best mountpoint so far says about the two variables; before the first one, nothing has changed
pub record IsSplit (script path : List ℕ) (m : Mount) : Type 0 where
  pub none_yet :
      m.best_found ≡ 0 → (m.script_name ≡ script) × (m.at ≡ 0) × (m.path_info_len ≡ length path)
  pub below : 0 < m.best_found → lies_below path m.script_name ≡ true
  pub split : 0 < m.best_found → path ≡ m.script_name ++ drop m.at path
  pub at : 0 < m.best_found → (m.at ≡ m.best_found) × (length m.script_name ≡ m.best_found)
  pub len : m.at + m.path_info_len ≡ length path

length-set_entry :
    (at : ℕ) (entry : List ℕ) (l : List (List ℕ)) → length (set_entry at entry l) ≡ length l
unfolding set_entry
length-set_entry at entry [] = refl
length-set_entry zero entry (x ∷ l) = refl
length-set_entry (suc at) entry (x ∷ l) = omega (arith, length-set_entry at entry l)

get_or-set_entry :
    (at : ℕ) (entry : List ℕ) (l : List (List ℕ))
    → at < length l
    → get_or (set_entry at entry l) at [] ≡ entry
unfolding set_entry
get_or-set_entry at entry [] h = absurd (omega arith)
get_or-set_entry zero entry (x ∷ l) h = refl
get_or-set_entry (suc at) entry (x ∷ l) h = get_or-set_entry at entry l (omega arith)

get_or-set_entry_ne :
    (at j : ℕ) (entry : List ℕ) (l : List (List ℕ))
    → j ≢ at
    → get_or (set_entry at entry l) j [] ≡ get_or l j []
unfolding set_entry
get_or-set_entry_ne at j entry [] ne = refl
get_or-set_entry_ne zero zero entry (x ∷ l) ne = absurd (ne refl)
get_or-set_entry_ne zero (suc j) entry (x ∷ l) ne = refl
get_or-set_entry_ne (suc at) zero entry (x ∷ l) ne = refl
get_or-set_entry_ne (suc at) (suc j) entry (x ∷ l) ne =
    get_or-set_entry_ne at j entry l (λ e. ne (ap (λ n. suc n) e))

pub shown-drop :
    (behind path : List ℕ) (at len : ℕ)
    → at + len ≡ length path
    → shown behind path at len ≡ drop at path
unfolding shown
shown-drop behind path zero len e =
    ap (λ n. take n (path ++ behind)) {x = len} {y = length path} (omega (arith, e))
    ∙ take_append path behind
shown-drop behind [] (suc at) len e = absurd (omega arith)
shown-drop behind (c ∷ path) (suc at) len e = shown-drop behind path at len (omega (arith, e))

-- no mountpoint above the path is longer than this
abbrev pub AllShorter : List ℕ → ℕ → List (List ℕ) → Type 0
AllShorter path n [] = Unit
AllShorter path n (mountpoint ∷ apps) =
    (lies_below path mountpoint ≡ true → length mountpoint ≤ n) × AllShorter path n apps

abbrev pub NoSlash : List (List ℕ) → Type 0
NoSlash [] = Unit
NoSlash (mountpoint ∷ apps) = (trim_slash mountpoint ≡ mountpoint) × NoSlash apps

split_below : (path m : List ℕ) → lies_below path m ≡ true → path ≡ m ++ drop (length m) path
split_below [] [] h = refl
split_below (c ∷ path) [] h = refl
split_below [] (d ∷ m) h = absurd (ground arith)
split_below (c ∷ path) (d ∷ m) h = ground (arith, split_below path m)

-- one of the apps
abbrev pub IsApp : List ℕ → List (List ℕ) → Type 0
IsApp m [] = ⊥
IsApp m (mountpoint ∷ apps) = (m ≡ mountpoint) ⊎ IsApp m apps

module _ (behind : List ℕ) (s p : ℕ) (path : List ℕ) (small : length path < 2 ^ 16) where
  abbrev pub chosen : Mount → List ℕ → Mount
  chosen m mountpoint = record {
    best_found = length mountpoint;
    script_name = mountpoint;
    at = length mountpoint;
    path_info_len = length path - length mountpoint;
    hvec =
        set_entry p (shown behind path (length mountpoint) (length path - length mountpoint))
          (set_entry s mountpoint m.hvec);
  }

  try_mount_lem :
      (m : Mount) (mountpoint : List ℕ)
      → trim_slash mountpoint ≡ mountpoint
      → try_mount behind s p path m mountpoint ≡ (
          if lies_below path mountpoint && ltb m.best_found (length mountpoint)
          then chosen m mountpoint
          else m)
  unfolding try_mount
  try_mount_lem m mountpoint t = ground (arith, lies_below_lem path mountpoint)

  try_mount-IsSplit :
      (script : List ℕ) (m : Mount) (mountpoint : List ℕ)
      → trim_slash mountpoint ≡ mountpoint
      → IsSplit script path m
      → IsSplit script path (try_mount behind s p path m mountpoint)
  try_mount-IsSplit script m mountpoint t v = ground (
    arith,
    v.none_yet,
    v.below,
    v.split,
    v.at,
    try_mount_lem m mountpoint t,
    lies_below_lem path mountpoint,
    split_below path mountpoint,
  )

  best_found-try_mount :
      (m : Mount) (mountpoint : List ℕ)
      → trim_slash mountpoint ≡ mountpoint
      → let m' = try_mount behind s p path m mountpoint in
        (m.best_found ≤ m'.best_found)
        × (lies_below path mountpoint ≡ true → length mountpoint ≤ m'.best_found)
  best_found-try_mount m mountpoint t = ground (arith, try_mount_lem m mountpoint t)

  -- the entries of hvec show the two variables
  pub record Shows (size : ℕ) (m : Mount) : Type 0 where
    pub length_of : length m.hvec ≡ size
    pub script_entry : 0 < m.best_found → get_or m.hvec s [] ≡ m.script_name
    pub path_entry : 0 < m.best_found → get_or m.hvec p [] ≡ shown behind path m.at m.path_info_len

  module _ (size : ℕ) (s_in : s < size) (p_in : p < size) (apart : s ≢ p) where
    chosen-Shows :
        (m : Mount) (mountpoint : List ℕ) → Shows size m → Shows size (chosen m mountpoint)
    chosen-Shows m mountpoint w =
        let info = shown behind path (length mountpoint) (length path - length mountpoint) in
        let h = set_entry s mountpoint m.hvec in
        let same : length h ≡ size = length-set_entry s mountpoint m.hvec ∙ w.length_of in
        record {
          length_of = length-set_entry p info h ∙ same;
          script_entry = λ b.
              get_or-set_entry_ne p s info h apart
              ∙ get_or-set_entry s mountpoint m.hvec (omega (arith, w.length_of, s_in));
          path_entry = λ b. get_or-set_entry p info h (omega (arith, same, p_in));
        }

    try_mount-Shows :
        (m : Mount) (mountpoint : List ℕ)
        → trim_slash mountpoint ≡ mountpoint
        → Shows size m
        → Shows size (try_mount behind s p path m mountpoint)
    try_mount-Shows m mountpoint t w =
        subst (λ x. Shows size x) (sym (try_mount_lem m mountpoint t))
          (either (lies_below path mountpoint && ltb m.best_found (length mountpoint)))
      where
        either : (b : Bool) → Shows size (if b then chosen m mountpoint else m)
        either true = chosen-Shows m mountpoint w
        either false = w

    -- what the loop leaves, of the apps that it has seen
    pub record Tried (script : List ℕ) (m : Mount) (apps : List (List ℕ)) (m' : Mount)
        : Type 0 where
      pub split : IsSplit script path m'
      pub shows : Shows size m'
      pub grows : m.best_found ≤ m'.best_found
      pub longest : AllShorter path m'.best_found apps
      pub from : (m' ≡ m) ⊎ IsApp m'.script_name apps

    try_mount-from :
        (m : Mount) (mountpoint : List ℕ)
        → trim_slash mountpoint ≡ mountpoint
        → (try_mount behind s p path m mountpoint ≡ m)
          ⊎ ((try_mount behind s p path m mountpoint).script_name ≡ mountpoint)
    try_mount-from m mountpoint t =
        subst (λ (x : Mount). (x ≡ m) ⊎ (x.script_name ≡ mountpoint))
          (sym (try_mount_lem m mountpoint t))
          (either (lies_below path mountpoint && ltb m.best_found (length mountpoint)))
      where
        either :
            (b : Bool)
            → ((if b then chosen m mountpoint else m) ≡ m)
              ⊎ ((if b then chosen m mountpoint else m).script_name ≡ mountpoint)
        either true = inr refl
        either false = inl refl

    pub try_mounts-Tried :
        (script : List ℕ) (m : Mount) (apps : List (List ℕ))
        → NoSlash apps
        → IsSplit script path m
        → Shows size m
        → Tried script m apps (try_mounts behind s p path m apps)
    unfolding try_mounts
    try_mounts-Tried script m [] n v w = record {
      split = v;
      shows = w;
      grows = omega arith;
      longest = tt;
      from = inl refl;
    }
    try_mounts-Tried script m (mountpoint ∷ apps) (t, n) v w =
        let m1 = try_mount behind s p path m mountpoint in
        let (up, short) = best_found-try_mount m mountpoint t in
        let r =
          try_mounts-Tried script m1 apps n (try_mount-IsSplit script m mountpoint t v)
            (try_mount-Shows m mountpoint t w) in
        record {
          split = r.split;
          shows = r.shows;
          grows = omega (arith, up, r.grows);
          longest = ((λ h. omega (arith, short h, r.grows)), r.longest);
          from = elim r.from [
            | inr later ↦ inr (inr later)
            | inl same ↦ elim (try_mount-from m mountpoint t) [
              | inl kept ↦ inl (same ∙ kept)
              | inr here ↦ inr (inl (ap (λ (x : Mount). x.script_name) same ∙ here))
            ]
          ];
        }
