-- ===== src/ClosingIssues/Counters.antt =====
-- The counters of open issues stay right.
use github_emulator.Prelude.{
  ℕ, ◌+◌, ◌≡◌, refl, sym, ap, ◌∙◌, subst, Bool, true, false, ◌&&◌, Bool-cases, some, List, [], ◌∷◌,
  map, ◌==◌, nat_eq, string_eq, inl, inr, if◌then◌else◌, arith, beq_refl,
}
use github_emulator.Prelude.Lists.{any}
use github_emulator.Repositories.{Issue, User, find_by}
use github_emulator.ClosingIssues.Close.{closed_row, close_row}

abbrev pub is_open_in : ℕ → Issue → Bool
is_open_in repo i = i.repo_id == repo && i.state == "open"

-- The number of open issues of a repository.
abbrev pub open_count : ℕ → List Issue → ℕ
open_count repo [] = 0
open_count repo (i ∷ is) =
    let rest = open_count repo is in if is_open_in repo i then 1 + rest else rest

abbrev pub id_of : Issue → ℕ
id_of i = i.id

abbrev pub Distinct : List Issue → Type 0
Distinct [] = Unit
Distinct (i ∷ is) = (any (λ j. j.id == i.id) is ≡ false) × Distinct is

module _ (actor : User) (time : ℕ) where
  closed_elsewhere :
      (k repo : ℕ) (is : List Issue)
      → any (λ j. j.id == k) is ≡ false
      → open_count repo (map (close_row actor time k) is) ≡ open_count repo is
  closed_elsewhere k repo [] h = refl
  closed_elsewhere k repo (i ∷ is) h = ground (arith, closed_elsewhere k repo is (ground arith))

  closed_head :
      (repo : ℕ) (i : Issue) (after before : List Issue)
      → open_count repo after ≡ open_count repo before
      → (i.state == "open") ≡ true
      → open_count repo (closed_row actor time i ∷ after) + (if i.repo_id == repo then 1 else 0)
        ≡ open_count repo (i ∷ before)
  closed_head repo i after before k o = ground arith

  closed_first :
      (repo : ℕ) (i : Issue) (is : List Issue)
      → any (λ j. j.id == i.id) is ≡ false
      → (i.state == "open") ≡ true
      → open_count repo (map (close_row actor time i.id) (i ∷ is))
          + (if i.repo_id == repo then 1 else 0)
        ≡ open_count repo (i ∷ is)
  closed_first repo i is d o =
      subst
        (λ x.
          open_count repo (x ∷ map (close_row actor time i.id) is)
            + (if i.repo_id == repo then 1 else 0)
          ≡ open_count repo (i ∷ is))
        (sym (ap (λ b. if b then closed_row actor time i else i) (beq_refl i.id)))
        (closed_head repo i (map (close_row actor time i.id) is) is
          (closed_elsewhere i.id repo is d) o)

  -- Closing an open issue takes one from its repository's number, and from no other.
  pub closed_counts :
      (repo : ℕ) (i : Issue) (is : List Issue)
      → Distinct is
      → find_by id_of is i.id ≡ some i
      → (i.state == "open") ≡ true
      → open_count repo (map (close_row actor time i.id) is) + (if i.repo_id == repo then 1 else 0)
        ≡ open_count repo is
  closed_counts repo i [] d h o = cc
  closed_counts repo i (j ∷ is) d h o = elim (Bool-cases (j.id == i.id)) [
    | inl e ↦
        let q : some j ≡ some i =
          sym (ap (λ b. if b then some j else find_by id_of is i.id) e) ∙ h in
        let p : j ≡ i = cc in
        subst
          (λ x.
            open_count repo (map (close_row actor time i.id) (x ∷ is))
              + (if i.repo_id == repo then 1 else 0)
            ≡ open_count repo (x ∷ is))
          (sym p) (closed_first repo i is (subst (λ x. any (λ y. y.id == x.id) is ≡ false) p d.0) o)
    | inr e ↦
        let q : find_by id_of is i.id ≡ some i =
          sym (ap (λ b. if b then some j else find_by id_of is i.id) e) ∙ h in
        let k = closed_counts repo i is d.1 q o in ground arith
  ]

  kept_ids :
      (k n : ℕ) (is : List Issue)
      → any (λ j. j.id == n) (map (close_row actor time k) is) ≡ any (λ j. j.id == n) is
  kept_ids k n [] = refl
  kept_ids k n (i ∷ is) = ground (arith, kept_ids k n is)

  same_id : (k : ℕ) (i : Issue) → (close_row actor time k i).id ≡ i.id
  same_id k i = ground arith

  pub Distinct-map :
      (k : ℕ) (is : List Issue) → Distinct is → Distinct (map (close_row actor time k) is)
  Distinct-map k [] d = tt
  Distinct-map k (i ∷ is) d = (
    subst (λ n. any (λ j. j.id == n) (map (close_row actor time k) is) ≡ false) (sym (same_id k i))
        (kept_ids k i.id is ∙ d.0),
    Distinct-map k is d.1,
  )
