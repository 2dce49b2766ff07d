-- ===== src/Permissions.antt =====
-- src/app/services/job_permissions.py: what a workflow job's token may do. Paths, methods and the
-- declared mapping are texts; the warning that the program logs is left out.
pub mod Monotone
pub mod Grants
mod Examples
use github_emulator.Prelude.{
  nat_eq, string_eq, ℕ, String, Bool, true, false, not, ◌&&◌, ◌||◌, Option, none, some, List, [],
  ◌∷◌, map, ◌==◌, if◌then◌else◌,
}
use github_emulator.Prelude.Lists.{any, filter}
use github_emulator.Prelude.Text.{
  Text, codes, text_eq, lower, upper, before, strip_by, is_space, after_prefix, split,
  is_empty_text,
}

-- What a job may declare: nothing, a text such as read-all, a mapping with its keys and values as
-- texts, or a value of another type.
pub data Declared : Type 0 where
  absent : Declared
  shorthand : Text → Declared
  mapping : List (Text × Text) → Declared
  unusable : Declared

abbrev pub Scopes : Type 0
Scopes = List (Text × Text)

abbrev pub scope_by_segment : List (String × String)
scope_by_segment =
    ("issues", "issues")
    ∷ ("labels", "issues")
    ∷ ("milestones", "issues")
    ∷ ("pulls", "pull-requests")
    ∷ ("contents", "contents")
    ∷ ("git", "contents")
    ∷ ("commits", "contents")
    ∷ ("branches", "contents")
    ∷ ("releases", "contents")
    ∷ ("tags", "contents")
    ∷ ("merges", "contents")
    ∷ ("actions", "actions")
    ∷ ("check-runs", "checks")
    ∷ ("check-suites", "checks")
    ∷ ("statuses", "statuses")
    ∷ ("deployments", "deployments")
    ∷ ("packages", "packages")
    ∷ ("pages", "pages")
    ∷ ("discussions", "discussions")
    ∷ ("hooks", "administration")
    ∷ ("keys", "administration")
    ∷ ("collaborators", "administration")
    ∷ ("forks", "contents")
    ∷ []

abbrev pub scope_table : Scopes
scope_table = map (λ e. (codes e.0, codes e.1)) scope_by_segment

abbrev pub read : Text
read = codes "read"

abbrev pub write : Text
write = codes "write"

abbrev pub prefer : Option Text → Option Text → Option Text
prefer (some w) other = some w
prefer none other = other

-- d.get(k) on a dict display, where a later entry replaces an earlier one of the same key
unfoldable pub lookup : Text → Scopes → Option Text
lookup k [] = none
lookup k ((j, v) ∷ d) = prefer (lookup k d) (if j == k then some v else none)

-- {scope: level for scope in set(_SCOPE_BY_SEGMENT.values())}
abbrev pub every_scope : Text → Scopes
every_scope level = map (λ e. (e.1, level)) scope_table

unfoldable pub normalise_permissions : Declared → Option Scopes
normalise_permissions absent = none
normalise_permissions (shorthand s) =
    let value = lower (strip_by is_space s) in
    if value == codes "read-all"
    then some (every_scope read)
    else if value == codes "write-all"
    then some (every_scope write)
    else some []
normalise_permissions (mapping d) = some (map (λ e. (lower e.0, lower e.1)) d)
normalise_permissions unusable = none

abbrev is_slash : ℕ → Bool
is_slash c = c == b'/'

abbrev cut : List Text → Text → Text
cut [] s = s
cut (p ∷ ps) s = let rest = cut ps s in elim (after_prefix p s) [ some t ↦ t | none ↦ rest ]

-- The non-empty segments of a path with no query, without the API prefix.
unfoldable pub split_path : Text → List Text
split_path path =
    filter (λ p. not (is_empty_text p))
      (split b'/'
        (cut (codes "api/v3/" ∷ codes "api/v3" ∷ codes "v3/" ∷ []) (strip_by is_slash path)))

unfoldable pub path_parts : Text → List Text
unfolding split_path
path_parts path = split_path (before b'?' path)

abbrev pub found_scope : Option Text → Option Text × Bool
found_scope none = (none, false)
found_scope (some scope) = (some scope, true)

-- `_scope_for`: the scope, and whether the path is in the map.
unfoldable pub scope_of : List Text → Option Text × Bool
scope_of (a ∷ b ∷ c ∷ []) = (none, a == codes "repos")
scope_of (a ∷ b ∷ c ∷ segment ∷ rest) =
    if a == codes "repos" then found_scope (lookup (lower segment) scope_table) else (none, false)
scope_of _ = (none, false)

abbrev pub is_read_method : Text → Bool
is_read_method method =
    any (λ m. m == upper method) (codes "GET" ∷ codes "HEAD" ∷ codes "OPTIONS" ∷ [])

-- `_is_metadata_read`, after the test on the method
unfoldable pub is_metadata_path : List Text → Bool
is_metadata_path (a ∷ b ∷ c ∷ segment ∷ rest) =
    a == codes "repos" && lower segment == codes "collaborators"
is_metadata_path _ = false

abbrev pub restricted_default : Scopes
restricted_default =
    (codes "contents", read) ∷ (codes "packages", read) ∷ (codes "metadata", read) ∷ []

-- str(repo_default or "write")
abbrev or_write : Option Text → Text
or_write none = write
or_write (some s) = if is_empty_text s then write else s

unfoldable pub default_permissions_for : Option Text → Option Scopes
default_permissions_for repo_default =
    if lower (strip_by is_space (or_write repo_default)) == read
    then some restricted_default
    else none

pub data Refusal : Type 0 where
  metadata_is_read_only not_covered : Refusal
  not_included : Text → Refusal
  level_too_low : Text → Text → Refusal

-- The decision for a governed path, by the level that is granted.
unfoldable pub check_level : Bool → Text → Text → Option Refusal
check_level is_read scope granted =
    if granted == write
    then none
    else if granted == read && is_read
    then none
    else if granted == codes "none"
        || is_empty_text granted
        || not (granted == read || granted == write)
    then some (not_included scope)
    else some (level_too_low scope granted)

-- permissions.get(scope, NONE)
abbrev pub level_of : Option Text → Text
level_of none = codes "none"
level_of (some level) = level

unfoldable pub check_scope : Bool → Option Text × Bool → Scopes → Option Refusal
unfolding check_level
check_scope is_read (some s, mapped) permissions =
    check_level is_read s (level_of (lookup s permissions))
check_scope is_read (none, true) permissions = if is_read then none else some metadata_is_read_only
check_scope is_read (none, false) permissions = if is_read then none else some not_covered

-- `check` once the permissions in force are known: none is no refusal.
unfoldable pub check_scopes : Bool → List Text → Scopes → Option Refusal
unfolding check_scope
check_scopes is_read parts permissions =
    if is_read && is_metadata_path parts
    then none
    else check_scope is_read (scope_of parts) permissions

-- `check` on a request that is taken apart.
unfoldable pub check_parts : Bool → List Text → Declared → Option Text → Option Refusal
unfolding check_scopes
check_parts is_read parts declared repo_default = elim (normalise_permissions declared) [
  | some permissions ↦ check_scopes is_read parts permissions
  | none ↦ elim (default_permissions_for repo_default) [
    | none ↦ none
    | some inherited ↦ elim (normalise_permissions (mapping inherited)) [
      | some permissions ↦ check_scopes is_read parts permissions
      | none ↦ none
    ]
  ]
]

unfoldable pub check : Text → Text → Declared → Option Text → Option Refusal
unfolding check_parts
check method path = check_parts (is_read_method method) (path_parts path)
