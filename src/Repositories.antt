-- ===== src/Repositories.antt =====
-- The rows of src/app/models that the repository services share: users, repositories, collaborators,
-- issues and pull requests, with the columns that those services read or write.
use github_emulator.Prelude.{
  ℕ, String, Bool, true, false, Option, none, some, List, [], ◌∷◌, ◌==◌, nat_eq, ◌&&◌, ◌||◌,
  if◌then◌else◌,
}
use github_emulator.Prelude.Lists.{any}
use github_emulator.Prelude.Text.{Text}

pub record User : Type 0 where
  pub id : ℕ
  pub site_admin : Bool

pub record Repository : Type 0 where
  pub id : ℕ
  pub owner_id : ℕ
  pub owner_type : String
  pub name : Text
  pub full_name : Text
  pub default_branch : String
  pub private : Bool
  pub disk_path : Option String
  pub open_issues_count : ℕ

pub record Collaborator : Type 0 where
  pub repo_id : ℕ
  pub user_id : ℕ
  pub permission : String

pub record Issue : Type 0 where
  pub id : ℕ
  pub repo_id : ℕ
  pub number : ℕ
  pub state : String
  pub state_reason : Option String
  pub closed_at : Option ℕ
  pub closed_by_id : Option ℕ

pub record PullRequest : Type 0 where
  pub id : ℕ
  pub issue_id : ℕ
  pub repo_id : ℕ
  pub head_sha : String
  pub base_ref : String
  pub base_sha : String
  pub merged : Bool
  pub draft : Bool
  pub mergeable : Option Bool
  pub last_push_by_id : Option ℕ

-- `WHERE id = …`, for rows with an id
module _ {ℓ} {A : Type ℓ} (id : A → ℕ) where
  abbrev pub find_by : List A → ℕ → Option A
  find_by [] k = none
  find_by (x ∷ xs) k = if id x == k then some x else find_by xs k

abbrev pub is_some {ℓ} : {A : Type ℓ} → Option A → Bool
is_some none = false
is_some (some a) = true

-- actor.site_admin or actor.id == repository.owner_id
abbrev pub owns : Repository → User → Bool
owns repository user = user.site_admin || user.id == repository.owner_id

-- The collaborator rows of a user on a repository.
abbrev pub collaborates : (String → Bool) → List Collaborator → Repository → User → Bool
collaborates level rows repository user =
    any (λ c. c.repo_id == repository.id && c.user_id == user.id && level c.permission) rows
