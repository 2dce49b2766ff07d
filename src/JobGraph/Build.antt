-- ===== src/JobGraph/Build.antt =====
-- `build_job_graph`: the entries of the jobs section, sorted. None stands for an exception. Keys
-- are texts. The needs are read here once for each job, as every job is visited once.
use github_emulator.Prelude.{ℕ, String, false, Option, none, some, List, [], ◌∷◌, string_eq}
use github_emulator.Value.{
  pos, Fields, end, field, Items, nil, item, Value, dict, list, str, int, bool, null, get,
}
use github_emulator.JobGraph.Sort.{topo_sort}

-- The dict that is made of one job, with the two of its entries that the sort reads.
pub record JobEntry : Type 0 where
  pub key : String
  pub needs : List String
  pub entry : Fields

abbrev pub get_or : Fields → String → Value → Value
get_or d k v = elim (get d k) [ none ↦ v | some w ↦ w ]

abbrev keys_list : Fields → Items
keys_list end = nil
keys_list (field k v d) = item (str k) (keys_list d)

-- [runs_on] if isinstance(runs_on, str) else list(runs_on)
abbrev as_list : Value → Option Items
as_list (str s) = some (item (str s) nil)
as_list (list is) = some is
as_list (dict d) = some (keys_list d)
as_list _ = none

-- [needs] if isinstance(needs, str) else needs
abbrev one_or_many : Value → Value
one_or_many (str s) = list (item (str s) nil)
one_or_many v = v

abbrev also : String → Option (List String) → Option (List String)
also s none = none
also s (some ss) = some (s ∷ ss)

-- What `visit` is called with. A list or a dict in `needs` cannot be looked up in a set; numbers,
-- truth values and None can, and are no keys.
abbrev need_keys : Items → Option (List String)
need_keys nil = some []
need_keys (item (str s) is) = also s (need_keys is)
need_keys (item (list _) is) = none
need_keys (item (dict _) is) = none
need_keys (item _ is) = need_keys is

-- for dep in job["needs"]
abbrev iterated : Value → Option (List String)
iterated (list is) = need_keys is
iterated (dict d) = need_keys (keys_list d)
iterated _ = none

-- A job's own block replaces the workflow's, which stands in for none.
unfoldable pub permissions_of : Option Value → Option Value → Value
permissions_of (some own) workflow = own
permissions_of none none = dict end
permissions_of none (some null) = dict end
permissions_of none (some shared) = shared

abbrev or_null : Option Value → Value
or_null none = null
or_null (some v) = v

abbrev make_entry : Option Value → String → Fields → Items → Value → List String → JobEntry
unfolding permissions_of
make_entry shared k config runs_on needs keys = record {
  key = k;
  needs = keys;
  entry = field "key" (str k) (
      field "name" (get_or config "name" (str k)) (
        field "runs_on" (list runs_on) (
          field "needs" needs (
            field "steps" (get_or config "steps" (list nil)) (
              field "uses" (or_null (get config "uses")) (
                field "env" (get_or config "env" (dict end)) (
                  field "strategy" (get_or config "strategy" (dict end)) (
                    field "permissions" (permissions_of (get config "permissions") shared) (
                      field "if" (or_null (get config "if")) (
                        field "concurrency" (or_null (get config "concurrency")) (
                          field "outputs" (get_or config "outputs" (dict end)) (
                            field "_call_inputs" (get_or config "_call_inputs" (dict end)) (
                              field "_call_secrets" (get_or config "_call_secrets" (dict end)) (
                                field "_workflow_repository"
                                  (get_or config "_workflow_repository" (str ""))
                                  (field "_workflow_sha" (get_or config "_workflow_sha" (str "")) (
                                    field "_workflow_ref" (get_or config "_workflow_ref" (str "")) (
                                      field "timeout_minutes"
                                        (get_or config "timeout-minutes" (int (pos 360)))
                                        end)))))))))))))))));
}

abbrev job_entry :
    Option Value → String → Fields → Option Items → Value → Option (List String) → Option JobEntry
unfolding make_entry
job_entry shared k config (some runs_on) needs (some keys) =
    some (make_entry shared k config runs_on needs keys)
job_entry shared k config _ _ _ = none

abbrev add_entry : Option JobEntry → Option (List JobEntry) → Option (List JobEntry)
add_entry (some j) (some js) = some (j ∷ js)
add_entry _ _ = none

-- A job whose configuration is no dict is passed over.
unfoldable pub job_entries : Option Value → Fields → Option (List JobEntry)
unfolding job_entry
job_entries shared end = some []
job_entries shared (field k (dict config) rest) =
    add_entry
      (job_entry shared k config (as_list (get_or config "runs-on" (str "ubuntu-latest")))
        (one_or_many (get_or config "needs" (list nil)))
        (iterated (one_or_many (get_or config "needs" (list nil)))))
      (job_entries shared rest)
job_entries shared (field k _ rest) = job_entries shared rest

abbrev sort_entries : Option (List JobEntry) → Option (List JobEntry)
sort_entries none = none
sort_entries (some js) = topo_sort (λ (j : JobEntry). j.key) (λ j. j.needs) js

-- The section under "jobs": nothing in it gives no job.
abbrev graph_of : Option Value → Option Value → Option (List JobEntry)
unfolding job_entries
graph_of shared none = some []
graph_of shared (some (dict jobs)) = sort_entries (job_entries shared jobs)
graph_of shared (some null) = some []
graph_of shared (some (bool false)) = some []
graph_of shared (some (int (pos ℕ.zero))) = some []
graph_of shared (some (str String.[])) = some []
graph_of shared (some (list nil)) = some []
graph_of shared (some _) = none

unfoldable pub build_job_graph : Fields → Option (List JobEntry)
unfolding graph_of
build_job_graph workflow_yaml =
    graph_of (get workflow_yaml "permissions") (get workflow_yaml "jobs")
