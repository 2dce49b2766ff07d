-- ===== src/JobGraph/Sort.antt =====
-- `_topo_sort`. A job is any value with a key and needs; `visit` runs on fuel, of which the number
-- of jobs and one is enough, and gives none without.
use github_emulator.Prelude.{
  ℕ, zero, suc, ◌+◌, String, Bool, Option, none, some, List, [], ◌∷◌, ◌++◌, ◌==◌, string_eq,
  if◌then◌else◌,
}
use github_emulator.Prelude.Lists.{any, length}

abbrev pub mem : String → List String → Bool
mem k = any (λ x. x == k)

-- The nested function's variables: `visited` and `result`.
pub record State (A : Type 0) : Type 0 where
  pub visited : List String
  pub result : List A

abbrev pub and_then :
    {A : Type 0} → Option (State A) → (State A → Option (State A)) → Option (State A)
and_then none f = none
and_then (some st) f = f st

-- for key in keys: visit(key)
abbrev pub visit_all :
    {A : Type 0} → (String → State A → Option (State A)) → List String → State A → Option (State A)
visit_all visit [] st = some st
visit_all visit (k ∷ ks) st = and_then (visit k st) (visit_all visit ks)

module _ {A : Type 0} where
  abbrev pub pick : Option A → Option A → Option A
  pick (some a) o = some a
  pick none o = o

  -- result.append(job)
  abbrev pub append : A → State A → State A
  append job st = record st { result = st.result ++ (job ∷ []) }

  abbrev pub finished : A → Option (State A) → Option (State A)
  finished job none = none
  finished job (some st) = some (append job st)

  abbrev pub result_of : Option (State A) → Option (List A)
  result_of none = none
  result_of (some st) = some st.result

module _ {A : Type 0} (key : A → String) where
  -- {j["key"]: j for j in jobs}.get(k): the last job of a key counts
  abbrev pub by_key : List A → String → Option A
  by_key [] k = none
  by_key (j ∷ jobs) k = pick (by_key jobs k) (if key j == k then some j else none)

  abbrev pub keys_of : List A → List String
  keys_of [] = []
  keys_of (j ∷ jobs) = key j ∷ keys_of jobs

module _ {A : Type 0} (needs : A → List String) where
  abbrev pub visit_job :
      (String → State A → Option (State A)) → Option A → State A → Option (State A)
  visit_job visit none st = some st
  visit_job visit (some job) st = finished job (visit_all visit (needs job) st)

module _ {A : Type 0} (key : A → String) (needs : A → List String) where
  unfoldable pub visit : List A → ℕ → String → State A → Option (State A)
  visit jobs zero k st = none
  visit jobs (suc fuel) k st =
      let inner =
        visit_job needs (visit jobs fuel) (by_key key jobs k)
          (record st { visited = k ∷ st.visited }) in
      if mem k st.visited then some st else inner

  unfoldable pub topo_sort : List A → Option (List A)
  unfolding visit
  topo_sort jobs = result_of (
      visit_all (visit jobs (length jobs + 1)) (keys_of key jobs)
        (record { visited = []; result = [] }))
