-- ===== src/JobGraph/Examples.antt =====
-- Three jobs, declared against the order of their needs.
use github_emulator.Prelude.{
  ℕ, ◌<◌, ◌≡◌, refl, String, true, Option, none, some, List, [], ◌∷◌, map, ◌==◌, string_eq,
  if◌then◌else◌, arith,
}
use github_emulator.Prelude.Rows.{All}
use github_emulator.Value.{Fields, end, field, dict, str}
use github_emulator.JobGraph.Sort.{by_key, topo_sort}
use github_emulator.JobGraph.Visits.{has}
use github_emulator.JobGraph.Listing.{NoRepeat, topo_sort-NoRepeat}
use github_emulator.JobGraph.Ordered.{Ordered, topo_sort-Ordered}
use github_emulator.JobGraph.Build.{JobEntry, permissions_of, job_entries, build_job_graph}

abbrev key : JobEntry → String
key j = j.key

abbrev needs : JobEntry → List String
needs j = j.needs

abbrev entry : String → List String → JobEntry
entry k ks = record { key = k; needs = ks; entry = end }

abbrev jobs : List JobEntry
jobs = entry "deploy" ("test" ∷ "lint" ∷ []) ∷ entry "test" ("build" ∷ []) ∷ entry "build" [] ∷ []

abbrev sorted : List JobEntry
sorted = entry "build" [] ∷ entry "test" ("build" ∷ []) ∷ entry "deploy" ("test" ∷ "lint" ∷ []) ∷ []

sorts : topo_sort key needs jobs ≡ some sorted
unfolding topo_sort
sorts = refl

-- A cycle is cut where it closes.
cycle_ends :
    topo_sort key needs (entry "a" ("b" ∷ []) ∷ entry "b" ("a" ∷ []) ∷ [])
    ≡ some (entry "b" ("a" ∷ []) ∷ entry "a" ("b" ∷ []) ∷ [])
unfolding topo_sort
cycle_ends = refl

topo_sort-NoRepeat_example :
    (r : List JobEntry) × (topo_sort key needs jobs ≡ some r)
    × NoRepeat key r
    × All (λ j. by_key key jobs (key j) ≡ some j) r
    × All (λ j. has key (key j) r ≡ true) jobs
topo_sort-NoRepeat_example = topo_sort-NoRepeat key needs jobs

abbrev depth : String → ℕ
depth k = if k == "deploy" then 2 else if k == "test" then 1 else 0

acyclic : All (λ j. All (λ d. depth d < depth (key j)) (needs j)) jobs
acyclic = ((omega arith, (omega arith, tt)), ((omega arith, tt), (tt, tt)))

topo_sort-Ordered_example : Ordered key needs jobs [] sorted
topo_sort-Ordered_example = topo_sort-Ordered key needs jobs depth acyclic sorted sorts

abbrev config : List String → Fields
config [] = end
config (n ∷ ns) = field "needs" (str n) end

abbrev names : Option (List JobEntry) → List String
names none = []
names (some js) = map key js

builds :
    names (
      build_job_graph (
        field "jobs"
          (dict (field "b" (dict (config ("a" ∷ []))) (field "a" (dict (config [])) end)))
          end))
    ≡ "a" ∷ "b" ∷ []
unfolding build_job_graph topo_sort permissions_of job_entries
builds = refl
