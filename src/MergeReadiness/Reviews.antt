-- ===== src/MergeReadiness/Reviews.antt =====
-- src/app/services/merge_readiness_service.py: `_review_state`.
use github_emulator.Prelude.{
  ℕ, Bool, true, false, not, ◌&&◌, ◌||◌, Option, none, some, List, [], ◌∷◌, ◌++◌, ◌==◌, nat_eq,
  string_eq, ltb, if◌then◌else◌,
}
use github_emulator.Prelude.Lists.{any, filter, length}
use github_emulator.Repositories.{PullRequest}
use github_emulator.MergeReadiness.Rows.{
  Tables, ReviewSettings, Review, Reason, ReviewDecision, approvals_missing, changes_requested,
  last_push_unapproved, changes_needed, review_required, approved,
}

-- latest_by_user[review.user_id] = review: a user's place is that of the first review
abbrev pub note : Review → List Review → List Review
note r [] = r ∷ []
note r (q ∷ qs) = let rest = note r qs in if q.user_id == r.user_id then r ∷ qs else q ∷ rest

abbrev pub note_all : List Review → List Review → List Review
note_all [] current = current
note_all (r ∷ rs) current = note_all rs (note r current)

abbrev pub current_reviews : Tables → PullRequest → List Review
current_reviews t pr =
    note_all (filter (λ r. r.pull_request_id == pr.id && not (r.state == "PENDING")) t.reviews) []

-- The approvals that count.
abbrev pub approvals : Tables → PullRequest → ReviewSettings → List Review
approvals t pr s =
    let approving = filter (λ r. r.state == "APPROVED") (current_reviews t pr) in
    if s.dismiss_stale_reviews
    then filter (λ r. r.commit_id == pr.head_sha) approving
    else approving

abbrev pub required_count : ReviewSettings → ℕ
required_count s = elim s.required_approving_review_count [ none ↦ 1 | some n ↦ n ]

abbrev pub last_push_approved : PullRequest → ReviewSettings → List Review → Bool
last_push_approved pr s approving = elim pr.last_push_by_id [
  | none ↦ true
  | some pusher ↦ not s.require_last_push_approval || any (λ r. not (r.user_id == pusher)) approving
]

abbrev pub review_reasons : PullRequest → ReviewSettings → List Review → List Reason
review_reasons pr s approving =
    (if ltb (length approving) (required_count s)
      then approvals_missing (required_count s) (length approving) ∷ []
      else [])
    ++ (if last_push_approved pr s approving then [] else last_push_unapproved ∷ [])

abbrev pub is_nil {ℓ} : {A : Type ℓ} → List A → Bool
is_nil [] = true
is_nil _ = false

unfoldable pub review_state_of :
    Tables → PullRequest → Option ReviewSettings → List Reason × Option ReviewDecision
review_state_of t pr none = ([], none)
review_state_of t pr (some s) =
    if any (λ r. r.state == "CHANGES_REQUESTED") (current_reviews t pr)
    then (changes_requested ∷ [], some changes_needed)
    else let reasons = review_reasons pr s (approvals t pr s) in
      (reasons, some (if is_nil reasons then approved else review_required))
