-- ===== src/Vars/Mounts/Managed.antt =====
-- What manage-script-name makes of a request.
use upsgi.Vars.Types.{Wsgi}
use upsgi.Wire.Equal.{equal_refl}
use upsgi.Common.{
  ℕ, ◌+◌, ◌≢◌, ◌^◌, ◌<◌, ◌≡◌, refl, ap, arith, true, List, [], ◌∷◌, ◌++◌, length, get_or, take,
  length-append,
}
use upsgi.Vars.Mounts.{trim_slash, Mount, try_mount, try_mounts}
use upsgi.Vars.Mounts.Choice.{lies_below, AllShorter, NoSlash, IsApp}

-- What becomes of a request whose positions are `s` and `p`: a mountpoint above the path, with no longer one,
-- becomes SCRIPT_NAME, and the rest of the path PATH_INFO, in the fields and in hvec; or no mountpoint lies
-- above the path but empty ones, and both fields stay.
pub data IsMounted (apps : List (List ℕ)) (s p : ℕ) (path script : List ℕ) (w' : Wsgi)
    : Type 0 where
  mounted :
      IsApp w'.script_name apps
      → lies_below path w'.script_name ≡ true
      → path ≡ w'.script_name ++ w'.path_info
      → AllShorter path (length w'.script_name) apps
      → get_or w'.hvec s [] ≡ w'.script_name
      → get_or w'.hvec p [] ≡ w'.path_info
      → IsMounted apps s p path script w'
  unmounted :
      AllShorter path 0 apps
      → w'.script_name ≡ script
      → w'.path_info ≡ path
      → IsMounted apps s p path script w'

module _ (behind : List ℕ) (apps : List (List ℕ)) (s p : ℕ) (w : Wsgi) (none_ends : NoSlash apps)
    (small : length w.path_info < 2 ^ 16) (s_in : s < length w.hvec) (p_in : p < length w.hvec)
    (apart : s ≢ p) where
  abbrev first : Mount
  first = record {
    best_found = 0;
    script_name = w.script_name;
    at = 0;
    path_info_len = length w.path_info;
    hvec = w.hvec;
  }

  abbrev m : Mount
  m = try_mounts behind s p w.path_info first apps

trim_slash-append : (m : List ℕ) → trim_slash (m ++ b'/' ∷ []) ≡ m
unfolding trim_slash
trim_slash-append [] = refl
trim_slash-append (c ∷ []) = refl
trim_slash-append (c ∷ d ∷ m) = ap (λ l. c ∷ l) (trim_slash-append (d ∷ m))

take-length : (s : List ℕ) → take (length s) s ≡ s
take-length [] = refl
take-length (c ∷ s) = ap (λ l. c ∷ l) (take-length s)

-- A mountpoint that ends in a slash, for the path without it: the path's length underflows to 65535, and the
-- pointer stands behind the end of the path.
pub try_mounts-overrun :
    (behind : List ℕ) (s p : ℕ) (path script : List ℕ) (hvec : List (List ℕ))
    → 0 < length path
    → length path < 2 ^ 16
    → let first : Mount = record {
      best_found = 0;
      script_name = script;
      at = 0;
      path_info_len = length path;
      hvec = hvec;
    } in
      let m = try_mounts behind s p path first ((path ++ b'/' ∷ []) ∷ []) in
      (m.path_info_len ≡ 65535) × (m.at ≡ length path + 1)
unfolding try_mounts try_mount
try_mounts-overrun behind s p path script hvec some_path l = ground (
  arith,
  trim_slash-append path,
  equal_refl path,
  take-length path,
  length-append path (b'/' ∷ []),
)
