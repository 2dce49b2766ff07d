-- ===== src/RepositoryAccess/Access.antt =====
-- `can_read`, `_installation_covers`, `installation_role`, `can_write_contents` and `is_hidden` of
-- src/app/services/repository_access.py, with the session's cache passed along.
use github_emulator.Prelude.{
  ℕ, String, Bool, true, false, not, ◌&&◌, ◌||◌, Option, none, some, List, [], ◌∷◌, ◌++◌, ◌==◌,
  nat_eq, string_eq, if◌then◌else◌,
}
use github_emulator.Prelude.Lists.{any, filter}
use github_emulator.Prelude.Text.{Text, codes, text_eq, before, lower}
use github_emulator.Repositories.{User, Repository, owns, collaborates}
use github_emulator.RepositoryAccess.Rows.{
  OrgMembership, GitHubApp, AppInstallation, Tables, Cache, lookup,
}
use github_emulator.RepositoryAccess.Paths.{repository_from_path}

abbrev is_bot : Option ℕ → ℕ → Bool
is_bot none id = false
is_bot (some bot) id = bot == id

-- select(GitHubApp).where(GitHubApp.bot_user_id == user.id)
abbrev pub app_of : List GitHubApp → User → Option GitHubApp
app_of [] user = none
app_of (a ∷ rest) user = if is_bot a.bot_user_id user.id then some a else app_of rest user

abbrev pub installed_on : GitHubApp → Repository → AppInstallation → Bool
installed_on app repository i =
    i.app_id == app.id && i.account_login == before b'/' repository.full_name

-- not item.repositories or repository.full_name in item.repositories
abbrev pub covers : Repository → AppInstallation → Bool
covers repository i = elim i.repositories [
  | [] ↦ true
  | name ∷ names ↦ any (λ n. n == repository.full_name) (name ∷ names)
]

abbrev pub app_covers : Tables → Repository → Option GitHubApp → Bool
app_covers t repository none = false
app_covers t repository (some app) =
    any (covers repository) (filter (installed_on app repository) t.installations)

unfoldable pub installation_covers : Tables → Repository → User → Bool
installation_covers t repository user = app_covers t repository (app_of t.apps user)

unfoldable pub is_member : Tables → Repository → User → Bool
is_member t repository user =
    repository.owner_type == "Organization"
    && any (λ o. o == repository.owner_id) t.organizations
    && any
        (λ (m : OrgMembership).
          m.org_id == repository.owner_id && m.user_id == user.id && m.state == "active")
        t.memberships

unfoldable pub can_read : Tables → Repository → Option User → Bool
unfolding is_member installation_covers
can_read t repository none = not repository.private
can_read t repository (some user) =
    not repository.private
    || owns repository user
    || collaborates (λ p. true) t.collaborators repository user
    || is_member t repository user
    || installation_covers t repository user

abbrev pub level : Option Text → Text
level none = []
level (some l) = lower l

-- str((installation.permissions or {}).get("contents", "")).lower()
abbrev pub contents : AppInstallation → Text
contents i = level (lookup (codes "contents") i.permissions)

-- The loop over the installations, with the role so far.
unfoldable pub grant : Repository → Option Text → List AppInstallation → Option Text
grant repository role [] = role
grant repository role (i ∷ rest) =
    let skipped = grant repository role rest in
    let reading = grant repository (some (codes "read")) rest in
    if not (covers repository i)
    then skipped
    else if contents i == codes "write"
    then some (codes "write")
    else if contents i == codes "read"
    then reading
    else skipped

unfoldable pub app_role : Tables → Repository → Option GitHubApp → Option Text
unfolding grant
app_role t repository none = none
app_role t repository (some app) =
    grant repository none (filter (installed_on app repository) t.installations)

unfoldable pub installation_role : Tables → Repository → Option User → Option Text
unfolding app_role
installation_role t repository none = none
installation_role t repository (some user) = app_role t repository (app_of t.apps user)

abbrev pub may_push : String → Bool
may_push p = p == "push" || p == "maintain" || p == "admin"

abbrev pub is_write : Option Text → Bool
is_write none = false
is_write (some role) = role == codes "write"

unfoldable pub can_write_contents : Tables → Repository → Option User → Bool
unfolding installation_role
can_write_contents t repository none = false
can_write_contents t repository (some user) =
    owns repository user
    || collaborates may_push t.collaborators repository user
    || is_write (installation_role t repository (some user))

abbrev pub named : List Repository → Text → Option Repository
named [] name = none
named (r ∷ rs) name = if r.full_name == name then some r else named rs name

-- remember_repository; an older entry of the name is hidden by the new one
unfoldable pub remember_repository : Cache → Option Repository → Cache
remember_repository cache none = cache
remember_repository cache (some r) = (r.full_name, r) ∷ cache

unfoldable pub load_from : Tables → Cache → Text → Option Repository → Option Repository × Cache
unfolding remember_repository
load_from t cache name (some r) = (some r, cache)
load_from t cache name none =
    (named t.repositories name, remember_repository cache (named t.repositories name))

-- _load
unfoldable pub load : Tables → Cache → Text → Option Repository × Cache
unfolding load_from
load t cache name = load_from t cache name (lookup name cache)

unfoldable pub refused : Tables → Option User → Option Repository → Bool
unfolding can_read
refused t user none = false
refused t user (some repository) = not (can_read t repository user)

unfoldable pub hide : Tables → Cache → Option User → Option (Text × Text) → Bool × Cache
unfolding load refused
hide t cache user none = (false, cache)
hide t cache user (some (owner, repo)) =
    let loaded = load t cache (owner ++ b'/' ∷ repo) in (refused t user loaded.0, loaded.1)

unfoldable pub is_hidden : Tables → Cache → Text → Option User → Bool × Cache
unfolding repository_from_path hide
is_hidden t cache path user = hide t cache user (repository_from_path path)
