-- ===== src/MergeReadiness/Soundness.antt =====
-- What a ready pull request has passed.
use github_emulator.Prelude.{
  ◌≡◌, ◌≢◌, ◌⊎◌, ◌↔◌, refl, sym, ap, ◌∙◌, subst, Bool, true, false, not, ◌&&◌, Bool-cases, beq_eq,
  Option, none, some, List, [], ◌∷◌, ◌++◌, ◌==◌, nat_eq, string_eq, if◌then◌else◌, inl, inr, arith,
}
use github_emulator.Prelude.Text.{Text}
use github_emulator.Repositories.{User, Repository, Issue, PullRequest, find_by}
use github_emulator.MergeReadiness.Rows.{
  Tables, Protection, Branch, Reason, ReviewDecision, MergeReadiness,
}
use github_emulator.MergeReadiness.Repository.{
  Git, has_merge_conflicts, head_contains_base, is_repository_admin,
}
use github_emulator.MergeReadiness.Checks.{status_check_reasons}
use github_emulator.MergeReadiness.Reviews.{review_state_of, is_nil}
use github_emulator.MergeReadiness.Evaluate.{
  breaks_linear_history, is_strict, is_behind_base, is_undetermined, conclude, evaluate_protection,
  evaluate_branch, evaluate_base, evaluate_open, evaluate_merge_readiness, find_branch,
}

nil-append : (xs ys : List Reason) → is_nil (xs ++ ys) ≡ (is_nil xs && is_nil ys)
nil-append [] ys = refl
nil-append (x ∷ xs) ys = refl

is_nil-eq : (rs : List Reason) → is_nil rs ≡ true → rs ≡ []
is_nil-eq [] h = refl
is_nil-eq (r ∷ rs) h = cc

conclude-ready :
    (p : Protection) (m : Option Text) (rs : List Reason) (d : Option ReviewDecision)
    → (conclude p m rs d).ready ≡ (is_nil rs && not (breaks_linear_history p m))
unfolding conclude
conclude-ready p m rs d = elim (Bool-cases (breaks_linear_history p m)) [
  | inl e ↦ rw (e, nil-append rs) (ground arith)
  | inr e ↦ rw e (ground arith)
]

-- The requirements of a protection are met.
pub record Meets (git : Git) (t : Tables) (repository : Repository) (pr : PullRequest)
    (branch : Branch) (p : Protection) (m : Option Text) : Type 0 where
  pub reviewed : (review_state_of t pr p.required_pull_request_reviews).0 ≡ []
  pub checked : status_check_reasons t pr p ≡ []
  pub up_to_date :
      is_strict p ≡ true
      → let contains = head_contains_base git repository branch.sha pr.head_sha in
        (is_behind_base pr branch.sha contains ≡ false)
        × (is_undetermined pr branch.sha contains ≡ false)
  pub linear : breaks_linear_history p m ≡ false

append-nil_both : (xs ys : List Reason) → is_nil (xs ++ ys) ≡ true → (xs ≡ []) × (ys ≡ [])
append-nil_both [] ys h = (refl, is_nil-eq ys h)
append-nil_both (x ∷ xs) ys h = cc

ready-if :
    (a b : Bool) (x y z : MergeReadiness)
    → x.ready ≡ false
    → y.ready ≡ false
    → (if a then x else if b then y else z).ready ≡ (not a && (not b && z.ready))
ready-if true b x y z p q = p
ready-if false true x y z p q = q
ready-if false false x y z p q = refl

-- The five tests of a protection, taken apart.
tests-apart :
    (s b u n l : Bool)
    → (not (s && b) && (not (s && u) && (n && not l))) ≡ true
    → (s ≡ true → (b ≡ false) × (u ≡ false)) × (n ≡ true) × (l ≡ false)
tests-apart s b u n l h = (λ e. (ground arith, ground arith), ground arith, ground arith)

tests-together :
    (s b u n l : Bool)
    → (s ≡ true → (b ≡ false) × (u ≡ false))
    → n ≡ true
    → l ≡ false
    → (not (s && b) && (not (s && u) && (n && not l))) ≡ true
tests-together false b u n l f e g = ground arith
tests-together true b u n l f e g = ground (arith, (f refl).0, (f refl).1)

module _ (git : Git) (t : Tables) (repository : Repository) (pr : PullRequest)
    (m : Option Text) where
  abbrev behind_test : Branch → Bool
  behind_test branch =
      is_behind_base pr branch.sha (head_contains_base git repository branch.sha pr.head_sha)

  abbrev unknown_test : Branch → Bool
  unknown_test branch =
      is_undetermined pr branch.sha (head_contains_base git repository branch.sha pr.head_sha)

  abbrev reasons_of : Protection → List Reason
  reasons_of p =
      (review_state_of t pr p.required_pull_request_reviews).0 ++ status_check_reasons t pr p

  evaluate_protection-ready :
      (branch : Branch) (p : Protection)
      → (evaluate_protection git t repository pr branch p m).ready ≡ (
          not (is_strict p && behind_test branch)
          && (not (is_strict p && unknown_test branch)
              && (is_nil (reasons_of p) && not (breaks_linear_history p m))))
  unfolding evaluate_protection
  evaluate_protection-ready branch p =
      ready-if (is_strict p && behind_test branch) (is_strict p && unknown_test branch) _ _ _ refl
        refl
      ∙ ap
          (λ z.
            not (is_strict p && behind_test branch)
            && (not (is_strict p && unknown_test branch) && z))
          (conclude-ready p m (reasons_of p)
            (review_state_of t pr p.required_pull_request_reviews).1)

  evaluate_protection-Meets :
      (branch : Branch) (p : Protection)
      → (evaluate_protection git t repository pr branch p m).ready ≡ true
      → Meets git t repository pr branch p m
  evaluate_protection-Meets branch p h =
      let (u, n, l) =
        tests-apart (is_strict p) (behind_test branch) (unknown_test branch) (is_nil (reasons_of p))
          (breaks_linear_history p m) (sym (evaluate_protection-ready branch p) ∙ h) in
      let (r, c) =
        append-nil_both (review_state_of t pr p.required_pull_request_reviews).0
          (status_check_reasons t pr p) n in
      record { reviewed = r; checked = c; up_to_date = u; linear = l }

  Meets-evaluate_protection :
      (branch : Branch) (p : Protection)
      → Meets git t repository pr branch p m
      → (evaluate_protection git t repository pr branch p m).ready ≡ true
  Meets-evaluate_protection branch p h =
      evaluate_protection-ready branch p
      ∙ tests-together (is_strict p) (behind_test branch) (unknown_test branch)
          (is_nil (reasons_of p)) (breaks_linear_history p m) h.up_to_date
          (rw (h.reviewed, h.checked) refl) h.linear

  abbrev in_force : Branch → Bool → Option Protection → Option (Branch × Protection)
  in_force b true (some p) = some (b, p)
  in_force b _ _ = none

  -- The protection in force on the base branch, if there is one.
  abbrev pub protection_of : Option Branch → Option (Branch × Protection)
  protection_of none = none
  protection_of (some b) = in_force b b.protected b.protection

  abbrev pub Bypasses : Option User → Protection → Type 0
  Bypasses actor p =
      (p.enforce_admins ≡ false)
      × (is_repository_admin t repository actor ≡ true)
      × (breaks_linear_history p m ≡ false)

  -- No protection is in force, or the actor may pass it by, or its requirements are met.
  abbrev pub Passes : Option User → Option (Branch × Protection) → Type 0
  Passes actor none = Unit
  Passes actor (some (b, p)) = Bypasses actor p ⊎ Meets git t repository pr b p m

  evaluate_branch-Passes :
      (actor : Option User) (b : Branch) (p : Protection)
      → (evaluate_branch git t repository pr actor m b (some p)).ready ≡ true
      → Bypasses actor p ⊎ Meets git t repository pr b p m
  unfolding evaluate_branch
  evaluate_branch-Passes actor b p h =
      elim (Bool-cases (
        not p.enforce_admins
        && is_repository_admin t repository actor
        && not (breaks_linear_history p m))) [
          | inl e ↦ inl (ground arith, ground arith, ground arith)
          | inr e ↦ inr (evaluate_protection-Meets b p (rw e at h))
        ]

  Passes-evaluate_branch :
      (actor : Option User) (b : Branch) (p : Protection)
      → Bypasses actor p ⊎ Meets git t repository pr b p m
      → (evaluate_branch git t repository pr actor m b (some p)).ready ≡ true
  unfolding evaluate_branch
  Passes-evaluate_branch actor b p h =
      elim (Bool-cases (
        not p.enforce_admins
        && is_repository_admin t repository actor
        && not (breaks_linear_history p m))) [
          | inl e ↦ rw e refl
          | inr e ↦ elim h [
            | inl w ↦ absurd (ground arith)
            | inr w ↦ rw e (Meets-evaluate_protection b p w)
          ]
        ]

  evaluate_protected-Passes :
      (actor : Option User) (b : Branch) (c : Bool) (o : Option Protection)
      → ((evaluate_branch git t repository pr actor m b (if c then o else none)).ready ≡ true)
        ↔ Passes actor (in_force b c o)
  unfolding evaluate_branch
  evaluate_protected-Passes actor b true (some p) =
      (evaluate_branch-Passes actor b p, Passes-evaluate_branch actor b p)
  evaluate_protected-Passes actor b true none = (λ h. tt, λ h. refl)
  evaluate_protected-Passes actor b false o = (λ h. tt, λ h. refl)

  evaluate_base-Passes :
      (actor : Option User) (o : Option Branch)
      → ((evaluate_base git t repository pr actor m o).ready ≡ true)
        ↔ Passes actor (protection_of o)
  unfolding evaluate_base
  evaluate_base-Passes actor none = (λ h. tt, λ h. refl)
  evaluate_base-Passes actor (some b) = evaluate_protected-Passes actor b b.protected b.protection

  -- The pull request is open, not merged and no draft, merges without conflict as far as is known,
  -- and passes the protection of its base branch.
  pub record Mergeable (issue : Issue) (actor : Option User) : Type 0 where
    pub unmerged : pr.merged ≡ false
    pub is_open : issue.state ≡ "open"
    pub undrafted : pr.draft ≡ false
    pub allowed : pr.mergeable ≢ some false
    pub without_conflicts : has_merge_conflicts git repository pr ≢ some true
    pub known : (pr.mergeable ≢ none) ⊎ (has_merge_conflicts git repository pr ≢ none)
    pub passes : Passes actor (protection_of (find_branch t.branches repository.id pr.base_ref))

  evaluate_open-Mergeable :
      (issue : Issue) (actor : Option User)
      → (evaluate_open git t issue repository pr actor m).ready ≡ true
      → Mergeable issue actor
  unfolding evaluate_open
  evaluate_open-Mergeable issue actor h = record {
    unmerged = ground arith;
    is_open = beq_eq issue.state "open" (ground arith);
    undrafted = ground arith;
    allowed = ground arith;
    without_conflicts = ground arith;
    known = ground arith;
    passes =
        (evaluate_base-Passes actor (find_branch t.branches repository.id pr.base_ref)).0
          (ground arith);
  }

  Mergeable-evaluate_open :
      (issue : Issue) (actor : Option User)
      → Mergeable issue actor
      → (evaluate_open git t issue repository pr actor m).ready ≡ true
  unfolding evaluate_open
  Mergeable-evaluate_open issue actor h =
      let base =
        (evaluate_base-Passes actor (find_branch t.branches repository.id pr.base_ref)).1
          h.passes in
      let opened : (issue.state == "open") ≡ true =
        subst (λ s. (s == "open") ≡ true) (sym h.is_open) refl in
      ground (arith, h.unmerged, h.undrafted, h.allowed, h.without_conflicts, h.known)

-- A pull request whose rows are there is ready exactly when it is mergeable.
pub evaluate-ready :
    (git : Git) (t : Tables) (pr : PullRequest) (issue : Issue) (repository : Repository)
    (actor : Option User) (m : Option Text)
    → find_by (λ (i : Issue). i.id) t.issues pr.issue_id ≡ some issue
    → find_by (λ (r : Repository). r.id) t.repositories pr.repo_id ≡ some repository
    → ((evaluate_merge_readiness git t pr actor m).ready ≡ true)
      ↔ Mergeable git t repository pr m issue actor
unfolding evaluate_merge_readiness
evaluate-ready git t pr issue repository actor m i r =
    let opened : evaluate_merge_readiness git t pr actor m
        ≡ evaluate_open git t issue repository pr actor m =
      rw (i, evaluate_merge_readiness) (rw r refl) in
    (
      λ h.
          evaluate_open-Mergeable git t repository pr m issue actor
            (ap (λ x. x.ready) (sym opened) ∙ h),
      λ h. ap (λ x. x.ready) opened ∙ Mergeable-evaluate_open git t repository pr m issue actor h,
    )
