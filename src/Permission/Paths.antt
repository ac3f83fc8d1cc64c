-- ===== src/Permission/Paths.antt =====
-- The paths of packages/daemon/src/permission.ts: the auto deny-list and the scope of a grant.
use revdev.Base.{
  Text, text_eq, ℕ, Bool, true, false, not, ◌&&◌, ◌||◌, Option, none, some, List, [], ◌∷◌, ◌++◌,
  map, reverse, length, drop, ◌==◌, if◌then◌else◌,
}
use revdev.Base.Param.{Param, string}

-- A call's parameters: the fields that the permission code reads, where `args` is `params.args` if that is
-- an array, and all others written out in `others`, which only the digest of the parameters reads.
pub record CallParams : Type 0 where
  pub file_path : Param
  pub repo_path : Param
  pub path : Param
  pub cwd : Param
  pub remote : Param
  pub branch : Param
  pub command : Param
  pub name : Param
  pub args : List Param
  pub others : Text

abbrev pub slash : ℕ
slash = b'/'

-- `s.replace(/\\/g, '/')`
unfoldable pub forward_slashes : Text → Text
forward_slashes = map (λ c. if c == 92 then slash else c)

-- `s.replace(/^\.\//, '')`
unfoldable pub strip_dot_slash : Text → Text
strip_dot_slash (c ∷ d ∷ s) = if c == b'.' && d == slash then s else c ∷ d ∷ s
strip_dot_slash s = s

-- `s.replace(/^\/+/, '')`
unfoldable pub strip_leading : Text → Text
strip_leading [] = []
strip_leading (c ∷ s) = let rest = strip_leading s in if c == slash then rest else c ∷ s

-- `s.replace(/\/+$/, '')`
unfoldable pub strip_trailing : Text → Text
unfolding strip_leading
strip_trailing s = reverse (strip_leading (reverse s))

-- `s.startsWith(t)`
unfoldable pub starts_with : Text → Text → Bool
starts_with s [] = true
starts_with [] (d ∷ t) = false
starts_with (c ∷ s) (d ∷ t) = c == d && starts_with s t

-- `s.endsWith(t)`
unfoldable pub ends_with : Text → Text → Bool
unfolding starts_with
ends_with s t = starts_with (reverse s) (reverse t)

-- `s.includes(t)`
unfoldable pub includes : Text → Text → Bool
unfolding starts_with
includes [] t = starts_with [] t
includes (c ∷ s) t = starts_with (c ∷ s) t || includes s t

-- The string in a field, unless it is empty.
unfoldable pub non_empty : Param → Option Text
unfolding text_eq
non_empty (string s) = if text_eq s [] then none else some s
non_empty _ = none

abbrev pub cons_some {ℓ} : {A : Type ℓ} → Option A → List A → List A
cons_some none xs = xs
cons_some (some x) xs = x ∷ xs

abbrev pub text_of : Param → Text
text_of (string s) = s
text_of _ = []

-- What the loop of `denyPathCandidates` adds for one value.
unfoldable pub path_candidates : Text → Text → List Text
unfolding forward_slashes text_eq starts_with ends_with strip_leading
path_candidates repo value =
    let norm = forward_slashes value in
    let boundary = if ends_with repo (slash ∷ []) then repo else repo ++ slash ∷ [] in
    let rel = strip_leading (drop (length repo) norm) in
    if not (text_eq repo []) && (text_eq norm repo || starts_with norm boundary)
    then norm ∷ (if text_eq rel [] then [] else rel ∷ [])
    else norm ∷ []

abbrev pub concat_map {ℓ κ} : {A : Type ℓ} {B : Type κ} → (A → List B) → List A → List B
concat_map f [] = []
concat_map f (x ∷ xs) = f x ++ concat_map f xs

unfoldable pub deny_path_candidates : Option CallParams → List Text
unfolding path_candidates non_empty forward_slashes
deny_path_candidates none = []
deny_path_candidates (some p) =
    let repo = forward_slashes (text_of p.repo_path) in
    concat_map (path_candidates repo) (
      cons_some (non_empty p.file_path)
        (cons_some (non_empty p.path) (cons_some (non_empty p.cwd) [])))

-- The prefix of the deny-list as the loop of `pathMatchesDenyPrefix` compares it.
unfoldable pub normal_prefix : Text → Text
unfolding forward_slashes strip_dot_slash strip_leading strip_trailing
normal_prefix raw = strip_trailing (strip_leading (strip_dot_slash (forward_slashes raw)))

-- One round of that loop, with the normal path and a prefix that is not empty.
unfoldable pub matches_prefix : Text → Text → Bool
unfolding text_eq strip_leading starts_with ends_with includes
matches_prefix norm prefix =
    let relative = strip_leading norm in
    text_eq relative prefix
    || starts_with relative (prefix ++ slash ∷ [])
    || ends_with norm (slash ∷ prefix)
    || includes norm (slash ∷ prefix ++ slash ∷ [])

unfoldable pub path_matches_deny_prefix : Text → List Text → Bool
unfolding text_eq forward_slashes strip_dot_slash normal_prefix matches_prefix
path_matches_deny_prefix path [] = false
path_matches_deny_prefix path (raw ∷ prefixes) =
    let prefix = normal_prefix raw in
    let hit =
      not (text_eq prefix []) && matches_prefix (strip_dot_slash (forward_slashes path)) prefix in
    hit || path_matches_deny_prefix path prefixes

-- The first path-like field of `grantRootMatches`, the empty string if there is none.
unfoldable pub pathish : CallParams → Text
unfolding non_empty
pathish p = elim (non_empty p.file_path) [
  | some s ↦ s
  | none ↦ elim (non_empty p.repo_path) [
    | some s ↦ s
    | none ↦ elim (non_empty p.path) [
      | some s ↦ s
      | none ↦ elim (non_empty p.cwd) [ some s ↦ s | none ↦ [] ]
    ]
  ]
]

unfoldable pub grant_root_matches : Option Text → Option CallParams → Bool
unfolding text_eq pathish starts_with ends_with
grant_root_matches none params = true
grant_root_matches (some scope) none = true
grant_root_matches (some scope) (some p) =
    let at = pathish p in
    let root = if ends_with scope (slash ∷ []) then scope else scope ++ slash ∷ [] in
    text_eq scope [] || text_eq at [] || text_eq at scope || starts_with at root
