-- ===== src/ClosingIssues/Close.antt =====
-- `close_linked_issues`: the issues' rows and their repositories' counters, one after the other.
use github_emulator.Prelude.{
  ℕ, ◌-◌, not, Option, none, some, List, [], ◌∷◌, ◌++◌, map, ◌==◌, nat_eq, string_eq, if◌then◌else◌,
}
use github_emulator.Repositories.{Repository, Issue, User, find_by}

pub record Store : Type 0 where
  pub issues : List Issue
  pub repositories : List Repository

abbrev pub closed_row : User → ℕ → Issue → Issue
closed_row actor time i = record i {
  state = "closed";
  state_reason = some "completed";
  closed_at = some time;
  closed_by_id = some actor.id;
}

abbrev pub close_row : User → ℕ → ℕ → Issue → Issue
close_row actor time id i = if i.id == id then closed_row actor time i else i

-- max(0, open_issues_count - 1)
abbrev pub count_down : ℕ → Repository → Repository
count_down repo_id r =
    if r.id == repo_id then record r { open_issues_count = r.open_issues_count - 1 } else r

unfoldable pub close_issue : User → ℕ → Issue → Store → Store
close_issue actor time i s = record {
  issues = map (close_row actor time i.id) s.issues;
  repositories = map (count_down i.repo_id) s.repositories;
}

abbrev pub close_open : User → ℕ → Option Issue → Store → Store × List ℕ
unfolding close_issue
close_open actor time none s = (s, [])
close_open actor time (some i) s =
    if not (i.state == "open") then (s, []) else (close_issue actor time i s, i.id ∷ [])

-- The issues are objects of the session: each is read as the steps before have left it. The ids
-- of those that were closed are returned.
unfoldable pub close_linked_issues : User → ℕ → List ℕ → Store → Store × List ℕ
unfolding close_open
close_linked_issues actor time [] s = (s, [])
close_linked_issues actor time (id ∷ ids) s =
    let step = close_open actor time (find_by (λ (i : Issue). i.id) s.issues id) s in
    let rest = close_linked_issues actor time ids step.0 in (rest.0, step.1 ++ rest.1)
