-- ===== src/ClosingIssues/Counted.antt =====
-- `close_linked_issues` keeps the counters in step with the issues.
use mathlib.Core.List.{Memᴰ}
use github_emulator.Prelude.{
  ℕ, ◌+◌, ◌≡◌, refl, sym, ap, ◌∙◌, subst, Bool, true, false, not, Option, none, some, List, [], ◌∷◌,
  map, ◌==◌, nat_eq, string_eq, if◌then◌else◌, if_cases, arith, Bool-cases, inl, inr, beq_eq,
}
use github_emulator.Prelude.Rows.{map-mem}
use github_emulator.Repositories.{Repository, Issue, User, find_by}
use github_emulator.ClosingIssues.Close.{
  Store, close_row, count_down, close_issue, close_open, close_linked_issues,
}
use github_emulator.ClosingIssues.Counters.{
  open_count, Distinct, Distinct-map, id_of, closed_counts,
}

-- Issues have ids of their own, and each repository's counter is the number of its open issues.
pub record Counted (s : Store) : Type 0 where
  pub distinct : Distinct s.issues
  pub counts :
      (r : Repository) → Memᴰ r s.repositories → r.open_issues_count ≡ open_count r.id s.issues

not-false : (b : Bool) → not b ≡ false → b ≡ true
not-false true h = refl
not-false false h = cc

module _ (actor : User) (time : ℕ) where
  counted_row :
      (r : Repository) (repo before after : ℕ)
      → r.open_issues_count ≡ before
      → after + (if repo == r.id then 1 else 0) ≡ before
      → (count_down repo r).open_issues_count ≡ after
  counted_row r repo before after h k = ground arith

  counted_id : (repo : ℕ) (r : Repository) → (count_down repo r).id ≡ r.id
  counted_id repo r = ground arith

  found_id : (is : List Issue) (k : ℕ) (i : Issue) → find_by id_of is k ≡ some i → i.id ≡ k
  found_id [] k i h = cc
  found_id (j ∷ is) k i h = elim (Bool-cases (j.id == k)) [
    | inl e ↦
        let q : some j ≡ some i = sym (ap (λ b. if b then some j else find_by id_of is k) e) ∙ h in
        let p : j ≡ i = cc in ap (λ (x : Issue). x.id) (sym p) ∙ beq_eq j.id k e
    | inr e ↦ found_id is k i (sym (ap (λ b. if b then some j else find_by id_of is k) e) ∙ h)
  ]

  close_issue-Counted :
      (i : Issue) (s : Store)
      → Counted s
      → find_by id_of s.issues i.id ≡ some i
      → (i.state == "open") ≡ true
      → Counted (close_issue actor time i s)
  unfolding close_issue
  close_issue-Counted i s c h o = record {
    distinct = Distinct-map actor time i.id s.issues c.distinct;
    counts = λ r m.
        let (q, k, e) = map-mem (count_down i.repo_id) s.repositories m in
        subst
          (λ x. x.open_issues_count ≡ open_count x.id (map (close_row actor time i.id) s.issues))
          (sym e)
          (subst
            (λ n.
              (count_down i.repo_id q).open_issues_count
              ≡ open_count n (map (close_row actor time i.id) s.issues))
            (sym (counted_id i.repo_id q))
            (counted_row q i.repo_id (open_count q.id s.issues) _ (c.counts q k)
              (closed_counts actor time q.id i s.issues c.distinct h o)));
  }

  close_open-Counted :
      (id : ℕ) (o : Option Issue) (s : Store)
      → find_by id_of s.issues id ≡ o
      → Counted s
      → Counted (close_open actor time o s).0
  unfolding close_issue
  close_open-Counted id none s h c = c
  close_open-Counted id (some i) s h c =
      if_cases (λ (r : Store × List ℕ). Counted r.0) (not (i.state == "open")) (λ e. c)
        (λ e.
          close_issue-Counted i s c (ap (find_by id_of s.issues) (found_id s.issues id i h) ∙ h)
            (not-false _ e))

  -- Where issues have ids of their own and each repository's counter is the number of its open
  -- issues, this is so after close_linked_issues, whatever issues it is given.
  pub close_linked-Counted :
      (ids : List ℕ) (s : Store) → Counted s → Counted (close_linked_issues actor time ids s).0
  unfolding close_linked_issues
  close_linked-Counted [] s c = c
  close_linked-Counted (id ∷ ids) s c =
      close_linked-Counted ids (close_open actor time (find_by id_of s.issues id) s).0
        (close_open-Counted id (find_by id_of s.issues id) s refl c)
