-- ===== src/MergeReadiness/Evaluate.antt =====
-- src/app/services/merge_readiness_service.py: `evaluate_merge_readiness`.
use github_emulator.Prelude.{
  ℕ, String, Bool, true, false, not, ◌&&◌, ◌||◌, Option, none, some, List, [], ◌∷◌, ◌++◌, ◌==◌,
  nat_eq, string_eq, if◌then◌else◌,
}
use github_emulator.Prelude.Text.{Text, lower, codes, text_eq}
use github_emulator.Repositories.{User, Repository, Issue, PullRequest, find_by, is_some}
use github_emulator.MergeReadiness.Rows.{
  Tables, Protection, Branch, Reason, State, ReviewDecision, MergeReadiness, unknown, clean, draft,
  dirty, behind, blocked, incomplete, closed, is_draft, conflicts, mergeability_unknown, is_behind,
  base_undetermined, linear_history,
}
use github_emulator.MergeReadiness.Repository.{
  Git, has_merge_conflicts, head_contains_base, is_repository_admin, is_empty,
}
use github_emulator.MergeReadiness.Checks.{status_check_reasons}
use github_emulator.MergeReadiness.Reviews.{review_state_of, is_nil}

abbrev pub plain : State → Bool → Option Bool → List Reason → MergeReadiness
plain s ready mergeable reasons = record {
  state = s;
  ready = ready;
  mergeable = mergeable;
  protected = false;
  reasons = reasons;
  review_decision = none;
}

abbrev pub under_protection :
    State → Bool → Option Bool → List Reason → Option ReviewDecision → MergeReadiness
under_protection s ready mergeable reasons decision = record {
  state = s;
  ready = ready;
  mergeable = mergeable;
  protected = true;
  reasons = reasons;
  review_decision = decision;
}

-- protection.required_linear_history and (merge_method or "").lower() == "merge"
abbrev pub breaks_linear_history : Protection → Option Text → Bool
breaks_linear_history p merge_method =
    p.required_linear_history
    && elim merge_method [ none ↦ false | some m ↦ lower m == codes "merge" ]

-- (protection.required_status_checks or {}).get("strict")
abbrev pub is_strict : Protection → Bool
is_strict p = elim p.required_status_checks [ none ↦ false | some s ↦ s.strict ]

abbrev pub is_falsy : Option Bool → Bool
is_falsy (some false) = true
is_falsy _ = false

-- The base branch has moved past the head, as far as it can be told.
unfoldable pub is_behind_base : PullRequest → String → Option Bool → Bool
is_behind_base pr current (some contains) = not contains
is_behind_base pr current none =
    not (is_empty current) && not (is_empty pr.base_sha) && not (current == pr.base_sha)

unfoldable pub is_undetermined : PullRequest → String → Option Bool → Bool
is_undetermined pr current (some contains) = false
is_undetermined pr current none = is_empty current || is_empty pr.head_sha

-- From `if protection.required_linear_history …` on.
unfoldable pub conclude :
    Protection → Option Text → List Reason → Option ReviewDecision → MergeReadiness
conclude p merge_method reasons decision =
    let all_reasons =
      if breaks_linear_history p merge_method then reasons ++ linear_history ∷ [] else reasons in
    if is_nil all_reasons
    then under_protection clean true (some true) [] decision
    else under_protection blocked false (some true) all_reasons decision

-- The requirements of a protected branch, for an actor who cannot pass them by.
unfoldable pub evaluate_protection :
    Git → Tables → Repository → PullRequest → Branch → Protection → Option Text → MergeReadiness
unfolding conclude
evaluate_protection git t repository pr branch p merge_method =
    let (review, decision) = review_state_of t pr p.required_pull_request_reviews in
    let reasons = review ++ status_check_reasons t pr p in
    let contains = head_contains_base git repository branch.sha pr.head_sha in
    if is_strict p && is_behind_base pr branch.sha contains
    then under_protection behind false (some true) (is_behind ∷ reasons) decision
    else if is_strict p && is_undetermined pr branch.sha contains
    then under_protection unknown false none (base_undetermined ∷ []) decision
    else conclude p merge_method reasons decision

unfoldable pub evaluate_branch :
    Git
    → Tables
    → Repository
    → PullRequest
    → Option User
    → Option Text
    → Branch
    → Option Protection
    → MergeReadiness
unfolding evaluate_protection
evaluate_branch git t repository pr actor merge_method branch none = plain clean true (some true) []
evaluate_branch git t repository pr actor merge_method branch (some p) =
    if not p.enforce_admins
      && is_repository_admin t repository actor
      && not (breaks_linear_history p merge_method)
    then under_protection clean true (some true) [] none
    else evaluate_protection git t repository pr branch p merge_method

abbrev pub find_branch : List Branch → ℕ → String → Option Branch
find_branch [] repo name = none
find_branch (b ∷ bs) repo name =
    let rest = find_branch bs repo name in
    if b.repo_id == repo && b.name == name then some b else rest

-- branch.protection if branch is not None and branch.protected else None
unfoldable pub evaluate_base :
    Git
    → Tables
    → Repository
    → PullRequest
    → Option User
    → Option Text
    → Option Branch
    → MergeReadiness
unfolding evaluate_branch
evaluate_base git t repository pr actor merge_method none = plain clean true (some true) []
evaluate_base git t repository pr actor merge_method (some branch) =
    evaluate_branch git t repository pr actor merge_method branch
      (if branch.protected then branch.protection else none)

unfoldable pub evaluate_open :
    Git → Tables → Issue → Repository → PullRequest → Option User → Option Text → MergeReadiness
unfolding evaluate_base
evaluate_open git t issue repository pr actor merge_method =
    if pr.merged
    then plain clean false (some true) []
    else if not (issue.state == "open")
    then plain unknown false none (closed ∷ [])
    else if pr.draft
    then plain draft false pr.mergeable (is_draft ∷ [])
    else let found = has_merge_conflicts git repository pr in
      if is_falsy pr.mergeable || (elim found [ none ↦ false | some b ↦ b ])
      then plain dirty false (some false) (conflicts ∷ [])
      else if not (is_some pr.mergeable) && not (is_some found)
      then plain unknown false none (mergeability_unknown ∷ [])
      else evaluate_base git t repository pr actor merge_method
          (find_branch t.branches repository.id pr.base_ref)

unfoldable pub evaluate_merge_readiness :
    Git → Tables → PullRequest → Option User → Option Text → MergeReadiness
unfolding evaluate_open
evaluate_merge_readiness git t pr actor merge_method =
    elim (find_by (λ (i : Issue). i.id) t.issues pr.issue_id) [
      | none ↦ plain unknown false none (incomplete ∷ [])
      | some issue ↦ elim (find_by (λ (r : Repository). r.id) t.repositories pr.repo_id) [
        | none ↦ plain unknown false none (incomplete ∷ [])
        | some repository ↦ evaluate_open git t issue repository pr actor merge_method
      ]
    ]
