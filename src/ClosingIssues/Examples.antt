-- ===== src/ClosingIssues/Examples.antt =====
-- Two issues of one repository, one of them open.
use mathlib.Core.List.{Memᴰ}
use github_emulator.Prelude.{
  ℕ, ◌≡◌, refl, sym, subst, false, none, some, List, [], ◌∷◌, nat_eq, string_eq,
}
use github_emulator.Prelude.Text.{Text, codes, text_test}
use github_emulator.Repositories.{Repository, Issue, User}
use github_emulator.ClosingIssues.References.{Reference, references_of}
use github_emulator.ClosingIssues.Same.{SameIssue}
use github_emulator.ClosingIssues.Close.{Store, close_linked_issues}
use github_emulator.ClosingIssues.Unique.{NoneSame, references_of-Unique}
use github_emulator.ClosingIssues.Counters.{open_count}
use github_emulator.ClosingIssues.Counted.{Counted, close_linked-Counted}

abbrev repository : Repository
repository = record {
  id = 1;
  owner_id = 2;
  owner_type = "User";
  name = codes "web";
  full_name = codes "acme/web";
  default_branch = "main";
  private = false;
  disk_path = none;
  open_issues_count = 1;
}

abbrev issue : ℕ → ℕ → Issue
issue id number = record {
  id = id;
  repo_id = 1;
  number = number;
  state = "open";
  state_reason = none;
  closed_at = none;
  closed_by_id = none;
}

abbrev store : Store
store = record {
  issues = issue 10 1 ∷ record (issue 11 2) { state = "closed" } ∷ [];
  repositories = repository ∷ [];
}

abbrev actor : User
actor = record { id = 2; site_admin = false }

store_counts :
    (r : Repository)
    → Memᴰ r store.repositories
    → r.open_issues_count ≡ open_count r.id store.issues
store_counts r (Memᴰ.head e) =
    subst (λ (x : Repository). x.open_issues_count ≡ open_count x.id store.issues) (sym e) refl
store_counts r (Memᴰ.tail m) = elim m [ ]

store-Counted : Counted store
store-Counted = record { distinct = (refl, (refl, tt)); counts = store_counts }

close_linked-Counted_example : Counted (close_linked_issues actor 100 (10 ∷ 11 ∷ 10 ∷ []) store).0
close_linked-Counted_example =
    close_linked-Counted actor 100 (10 ∷ 11 ∷ 10 ∷ []) store store-Counted

closes_one : (close_linked_issues actor 100 (10 ∷ 11 ∷ 10 ∷ []) store).1 ≡ 10 ∷ []
unfolding close_linked_issues
closes_one = refl

abbrev found : Text → List Reference
found text =
    (record { owner = none; repo = none; number = 1 })
    ∷ (record { owner = some (codes "Acme"); repo = some (codes "WEB"); number = 1 })
    ∷ []

references_of-Unique_example :
    NoneSame repository (references_of found repository (codes "" ∷ []))
    × ((t : Text) (r : Reference)
        → Memᴰ t (codes "" ∷ [])
        → Memᴰ r (found t)
        → (s : Reference) × Memᴰ s (references_of found repository (codes "" ∷ []))
          × SameIssue repository r s)
    × ((s : Reference)
        → Memᴰ s (references_of found repository (codes "" ∷ []))
        → (t : Text) × Memᴰ t (codes "" ∷ []) × Memᴰ s (found t))
references_of-Unique_example = references_of-Unique found repository (codes "" ∷ [])

one_reference :
    references_of found repository (codes "" ∷ [])
    ≡ (record { owner = none; repo = none; number = 1 }) ∷ []
unfolding references_of text_test
one_reference = refl
