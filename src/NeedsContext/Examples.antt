-- ===== src/NeedsContext/Examples.antt =====
-- A prefixed job, and one of the same bare name.
use github_emulator.Prelude.{◌≡◌, refl, String, none, some, List, [], ◌∷◌}
use github_emulator.Value.{end, get, field, dict, str}
use github_emulator.Value.Lookup.{or_else}
use github_emulator.Jobs.{Job, completed, Conclusion, success, failure}
use github_emulator.NeedsContext.Build.{bare_key, build_needs_context}
use github_emulator.NeedsContext.Bare.{IsBare}
use github_emulator.NeedsContext.Entries.{last_of, first_alias, get-build_needs_context}

abbrev job : String → Conclusion → Job
job k c = record {
  id = 1;
  run_id = 3;
  name = k;
  job_key = some k;
  status = completed;
  conclusion = some c;
  completed_at = none;
  steps = [];
  needs = [];
  outputs = end;
  concurrency_group = none;
  pending_render = none;
  runner_id = none;
  runner_name = none;
  started_at = none;
  labels = [];
  outputs_config = end;
}

abbrev jobs : List Job
jobs = job "a / route" success ∷ job "b / route" failure ∷ job "build" success ∷ []

alias_found :
    get (build_needs_context jobs) "route"
    ≡ some (dict (field "outputs" (dict end) (field "result" (str "success") end)))
unfolding build_needs_context
alias_found = refl

get-build_needs_context_example :
    (get (build_needs_context jobs) "route"
      ≡ or_else (last_of jobs "route") (first_alias jobs "route"))
    × ((k : String) → IsBare k (bare_key k))
get-build_needs_context_example = get-build_needs_context jobs "route"
