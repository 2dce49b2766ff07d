-- ===== src/MergeReadiness/Examples.antt =====
-- A pull request to a protected branch with one approval and a required check.
use github_emulator.Prelude.{
  String, ◌≡◌, ◌↔◌, refl, true, false, not, ◌&&◌, none, some, [], ◌∷◌, ◌==◌, nat_eq, string_eq,
}
use github_emulator.Prelude.Lists.{filter}
use github_emulator.Prelude.Text.{codes, text_test}
use github_emulator.Repositories.{Repository, Issue, PullRequest, find_by}
use github_emulator.MergeReadiness.Rows.{Tables, Protection, ReviewSettings, Review}
use github_emulator.MergeReadiness.Repository.{Git, has_merge_conflicts, head_contains_base}
use github_emulator.MergeReadiness.Checks.{context_passes, status_check_reasons, last_where}
use github_emulator.MergeReadiness.Reviews.{current_reviews, review_state_of}
use github_emulator.MergeReadiness.Evaluate.{
  is_behind_base, is_undetermined, evaluate_merge_readiness,
}
use github_emulator.MergeReadiness.Soundness.{Mergeable, evaluate-ready}
use github_emulator.MergeReadiness.Requirements.{Required, status_checks-exact}
use github_emulator.MergeReadiness.Approvals.{Reviewed, current_reviews-last, review_state-Reviewed}

abbrev git : Git
git = record { is_dir = λ p. true; merge_tree = λ p b h. (0, []); is_ancestor = λ p b h. 0 }

abbrev settings : ReviewSettings
settings = record {
  dismiss_stale_reviews = true;
  required_approving_review_count = some 1;
  require_last_push_approval = true;
}

abbrev protection : Protection
protection = record {
  enforce_admins = true;
  required_linear_history = true;
  required_status_checks = some (record { contexts = "ci" ∷ []; checks = []; strict = true });
  required_pull_request_reviews = some settings;
}

abbrev repository : Repository
repository = record {
  id = 1;
  owner_id = 2;
  owner_type = "User";
  name = codes "web";
  full_name = codes "acme/web";
  default_branch = "main";
  private = false;
  disk_path = some "/data/web.git";
  open_issues_count = 3;
}

abbrev issue : Issue
issue = record {
  id = 10;
  repo_id = 1;
  number = 4;
  state = "open";
  state_reason = none;
  closed_at = none;
  closed_by_id = none;
}

abbrev pr : PullRequest
pr = record {
  id = 20;
  issue_id = 10;
  repo_id = 1;
  head_sha = "bb";
  base_ref = "main";
  base_sha = "aa";
  merged = false;
  draft = false;
  mergeable = none;
  last_push_by_id = some 3;
}

abbrev tables : Tables
tables = record {
  issues = issue ∷ [];
  repositories = repository ∷ [];
  branches =
      (record {
        repo_id = 1;
        name = "main";
        sha = "aa";
        protected = true;
        protection = some protection;
      })
      ∷ [];
  collaborators = [];
  reviews =
      (record { pull_request_id = 20; user_id = 4; state = "CHANGES_REQUESTED"; commit_id = "bb" })
      ∷ (record { pull_request_id = 20; user_id = 4; state = "APPROVED"; commit_id = "bb" })
      ∷ [];
  statuses = (record { repo_id = 1; sha = "bb"; context = "ci"; state = "success" }) ∷ [];
  checks = [];
}

is_ready : (evaluate_merge_readiness git tables pr none (some (codes "squash"))).ready ≡ true
unfolding evaluate_merge_readiness has_merge_conflicts is_behind_base head_contains_base
    is_undetermined text_test review_state_of status_check_reasons
is_ready = refl

evaluate-ready_example :
    ((evaluate_merge_readiness git tables pr none (some (codes "squash"))).ready ≡ true)
    ↔ Mergeable git tables repository pr (some (codes "squash")) issue none
evaluate-ready_example =
    evaluate-ready git tables pr issue repository none (some (codes "squash")) refl refl

status_checks-exact_example : (status_check_reasons tables pr protection ≡ []) ↔ (
    (c : String) → Required protection.required_status_checks c → context_passes tables pr c ≡ true)
status_checks-exact_example = status_checks-exact tables pr protection

current_reviews-last_example :
    find_by (λ (r : Review). r.user_id) (current_reviews tables pr) 4
    ≡ last_where
        (λ r. r.user_id == 4)
        (filter (λ r. r.pull_request_id == pr.id && not (r.state == "PENDING")) tables.reviews)
current_reviews-last_example = current_reviews-last tables pr 4

no_review_reasons : (review_state_of tables pr (some settings)).0 ≡ []
unfolding review_state_of
no_review_reasons = refl

review_state-Reviewed_example : Reviewed tables pr settings
review_state-Reviewed_example = review_state-Reviewed tables pr settings no_review_reasons
