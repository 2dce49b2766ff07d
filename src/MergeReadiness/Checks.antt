-- ===== src/MergeReadiness/Checks.antt =====
-- src/app/services/merge_readiness_service.py: `_required_contexts` and `_status_check_reasons`.
use Prim.Native.String.{compare}
use Prim.Native.Nat.{Ordering}
use github_emulator.Prelude.{
  String, Bool, false, ◌&&◌, ◌||◌, Option, none, some, List, [], ◌∷◌, ◌==◌, nat_eq, string_eq,
  if◌then◌else◌,
}
use github_emulator.Prelude.Lists.{filter}
use github_emulator.Repositories.{PullRequest, is_some}
use github_emulator.MergeReadiness.Rows.{
  Tables, Protection, CommitStatus, CheckRun, Reason, check_failed, check_missing,
}

abbrev pub is_empty : String → Bool
is_empty s = s == ""

abbrev pub place : Ordering → String → String → List String → List String → List String
place Ordering.lt k j l rest = k ∷ j ∷ l
place Ordering.eq k j l rest = j ∷ l
place Ordering.gt k j l rest = j ∷ rest

-- A set of texts, in order.
abbrev pub insert : String → List String → List String
insert k [] = k ∷ []
insert k (j ∷ l) = place (compare k j) k j l (insert k l)

abbrev pub insert_all : List String → List String → List String
insert_all [] set = set
insert_all (k ∷ ks) set = insert k (insert_all ks set)

-- The contexts that `checks` names: an item without one, or with an empty one, is passed over.
abbrev pub named : List (Option String) → List String
named [] = []
named (none ∷ cs) = named cs
named (some c ∷ cs) = let rest = named cs in if is_empty c then rest else c ∷ rest

-- sorted(_required_contexts(protection))
unfoldable pub required_contexts : Protection → List String
required_contexts p = elim p.required_status_checks [
  | none ↦ []
  | some s ↦ insert_all s.contexts (insert_all (named s.checks) [])
]

-- The first row of a descending order: the last row that fits.
module _ {ℓ} {A : Type ℓ} where
  abbrev pub last_where : (A → Bool) → List A → Option A
  last_where p [] = none
  last_where p (x ∷ xs) = elim (last_where p xs) [
    | some y ↦ some y
    | none ↦ if p x then some x else none
  ]

abbrev pub status_passes : Option CommitStatus → Bool
status_passes none = false
status_passes (some s) = s.state == "success"

abbrev pub is_successful : Option String → Bool
is_successful none = false
is_successful (some c) = c == "success" || c == "neutral" || c == "skipped"

abbrev pub check_passes : Option CheckRun → Bool
check_passes none = false
check_passes (some c) = c.status == "completed" && is_successful c.conclusion

abbrev pub latest_status : Tables → PullRequest → String → Option CommitStatus
latest_status t pr context =
    last_where (λ s. s.context == context)
      (filter (λ s. s.repo_id == pr.repo_id && s.sha == pr.head_sha) t.statuses)

abbrev pub latest_check : Tables → PullRequest → String → Option CheckRun
latest_check t pr context =
    last_where (λ c. c.name == context)
      (filter (λ c. c.repo_id == pr.repo_id && c.head_sha == pr.head_sha) t.checks)

abbrev pub context_passes : Tables → PullRequest → String → Bool
context_passes t pr context =
    status_passes (latest_status t pr context) || check_passes (latest_check t pr context)

abbrev pub failure_of : Tables → PullRequest → String → Reason
failure_of t pr context =
    if is_some (latest_status t pr context) || is_some (latest_check t pr context)
    then check_failed context
    else check_missing context

abbrev pub failures : Tables → PullRequest → List String → List Reason
failures t pr [] = []
failures t pr (c ∷ cs) =
    let rest = failures t pr cs in if context_passes t pr c then rest else failure_of t pr c ∷ rest

unfoldable pub status_check_reasons : Tables → PullRequest → Protection → List Reason
unfolding required_contexts
status_check_reasons t pr p = failures t pr (required_contexts p)
