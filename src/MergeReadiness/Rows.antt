-- ===== src/MergeReadiness/Rows.antt =====
-- The result of src/app/services/merge_readiness_service.py, and the rows that it reads. Each table is
-- held in the order of (created_at, id). Reasons are data in place of their texts.
use github_emulator.Prelude.{ℕ, String, Bool, Option, List, nat_eq, string_eq}
use github_emulator.Repositories.{Repository, Collaborator, Issue}

pub data State : Type 0 where
  unknown clean draft dirty behind blocked : State

pub data Reason : Type 0 where
  incomplete closed is_draft conflicts mergeability_unknown : Reason
  changes_requested last_push_unapproved : Reason
  approvals_missing : ℕ → ℕ → Reason
  check_missing check_failed : String → Reason
  is_behind base_undetermined linear_history : Reason

pub data ReviewDecision : Type 0 where
  changes_needed review_required approved : ReviewDecision

pub record MergeReadiness : Type 0 where
  pub state : State
  pub ready : Bool
  pub mergeable : Option Bool
  pub protected : Bool
  pub reasons : List Reason
  pub review_decision : Option ReviewDecision

pub record ReviewSettings : Type 0 where
  pub dismiss_stale_reviews : Bool
  pub required_approving_review_count : Option ℕ
  pub require_last_push_approval : Bool

-- `checks` has the "context" of each item that is a dict.
pub record CheckSettings : Type 0 where
  pub contexts : List String
  pub checks : List (Option String)
  pub strict : Bool

pub record Protection : Type 0 where
  pub enforce_admins : Bool
  pub required_linear_history : Bool
  pub required_status_checks : Option CheckSettings
  pub required_pull_request_reviews : Option ReviewSettings

pub record Branch : Type 0 where
  pub repo_id : ℕ
  pub name : String
  pub sha : String
  pub protected : Bool
  pub protection : Option Protection

pub record Review : Type 0 where
  pub pull_request_id : ℕ
  pub user_id : ℕ
  pub state : String
  pub commit_id : String

pub record CommitStatus : Type 0 where
  pub repo_id : ℕ
  pub sha : String
  pub context : String
  pub state : String

pub record CheckRun : Type 0 where
  pub repo_id : ℕ
  pub head_sha : String
  pub name : String
  pub status : String
  pub conclusion : Option String

pub record Tables : Type 0 where
  pub issues : List Issue
  pub repositories : List Repository
  pub branches : List Branch
  pub collaborators : List Collaborator
  pub reviews : List Review
  pub statuses : List CommitStatus
  pub checks : List CheckRun
