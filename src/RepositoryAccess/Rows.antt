-- ===== src/RepositoryAccess/Rows.antt =====
-- The tables that decide on access to a repository, and the session's cache of repositories.
use github_emulator.Prelude.{
  ℕ, String, Option, none, some, List, [], ◌∷◌, ◌==◌, nat_eq, if◌then◌else◌,
}
use github_emulator.Prelude.Text.{Text, text_eq}
use github_emulator.Repositories.{Repository, Collaborator}

pub record OrgMembership : Type 0 where
  pub org_id : ℕ
  pub user_id : ℕ
  pub state : String

pub record GitHubApp : Type 0 where
  pub id : ℕ
  pub bot_user_id : Option ℕ

-- `repositories` empty stands for the selection "all"; `permissions` maps a name to its level.
pub record AppInstallation : Type 0 where
  pub app_id : ℕ
  pub account_login : Text
  pub repositories : List Text
  pub permissions : List (Text × Text)

pub record Tables : Type 0 where
  pub repositories : List Repository
  pub collaborators : List Collaborator
  pub organizations : List ℕ
  pub memberships : List OrgMembership
  pub apps : List GitHubApp
  pub installations : List AppInstallation

-- db.info["repository_access_cache"]
abbrev pub Cache : Type 0
Cache = List (Text × Repository)

abbrev pub lookup {ℓ} : {A : Type ℓ} → Text → List (Text × A) → Option A
lookup k [] = none
lookup k ((j, a) ∷ rows) = if j == k then some a else lookup k rows
