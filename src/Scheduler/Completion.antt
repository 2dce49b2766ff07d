-- ===== src/Scheduler/Completion.antt =====
-- src/app/services/workflow_scheduler.py: `check_run_completion` and `cancel_workflow_run`.
use github_emulator.Prelude.{
  nat_eq, string_eq, ℕ, String, Bool, true, false, not, ◌&&◌, ◌||◌, none, some, List, [], ◌∷◌, map,
  ◌==◌, if◌then◌else◌, Option,
}
use github_emulator.Prelude.Lists.{any, all, filter}
use github_emulator.Jobs.{
  Conclusion, Job, Run, Db, waiting, in_progress, completed, success, failure, cancelled, skipped,
  status_eq, conclusion_eq, concluded, update_jobs,
}
use github_emulator.Scheduler.Dispatch.{jobs_of, contains, find_run, cancel_job}

abbrev pub is_active : Job → Bool
is_active j = not (status_eq j.status completed)

abbrev pub assign_run : ℕ → (Run → Run) → Db → Db
assign_run id change db = record db { runs = map (λ r. if r.id == id then change r else r) db.runs }

-- {j.name for the jobs that completed with failure}
abbrev pub failed_names : List Job → List String
failed_names jobs =
    map (λ j. j.name) (filter (λ j. status_eq j.status completed && concluded j failure) jobs)

abbrev pub needs_failed : List String → Job → Bool
needs_failed failed j = status_eq j.status waiting && any (contains failed) j.needs

abbrev pub skip_waiting : ℕ → Job → Job
skip_waiting now j = record j {
  status = completed;
  conclusion = some skipped;
  completed_at = some now;
}

abbrev pub truthy : Conclusion → Bool
truthy (Conclusion.other s) = not (s == "")
truthy _ = true

-- [j.conclusion for j in jobs if j.conclusion]
abbrev pub conclusions : List Job → List Conclusion
conclusions [] = []
conclusions (j ∷ jobs) =
    let rest = conclusions jobs in
    elim j.conclusion [ none ↦ rest | some c ↦ if truthy c then c ∷ rest else rest ]

abbrev pub run_conclusion : List Conclusion → Conclusion
run_conclusion cs =
    if any (conclusion_eq failure) cs
    then failure
    else if any (conclusion_eq cancelled) cs
    then cancelled
    else if all (λ c. conclusion_eq c success || conclusion_eq c skipped) cs
    then success
    else failure

unfoldable pub finalize : ℕ → Db → Db
finalize run db =
    assign_run run
      (λ r. record r {
        status = completed;
        conclusion = some (run_conclusion (conclusions (jobs_of db run)));
      })
      db

unfoldable pub set_in_progress : ℕ → Db → Db
set_in_progress run db = assign_run run (λ r. record r { status = in_progress }) db

unfoldable pub skip_after_failure : ℕ → ℕ → List String → Db → Db
skip_after_failure now run failed db =
    update_jobs db (λ j. if j.run_id == run && needs_failed failed j then skip_waiting now j else j)

abbrev pub is_nil {ℓ} : {A : Type ℓ} → List A → Bool
is_nil [] = true
is_nil _ = false

-- The body of `check_run_completion` for a run that has a row.
unfoldable pub conclude_run : ℕ → ℕ → Db → Db
unfolding skip_after_failure
conclude_run now run db =
    let jobs = jobs_of db run in
    let failed = failed_names jobs in
    let db' = skip_after_failure now run failed db in
    let still_active = any (λ j. is_active j && not (needs_failed failed j)) (jobs_of db' run) in
    if is_nil jobs
    then db
    else if any is_active jobs
    then (if is_nil failed
        then set_in_progress run db
        else if still_active
        then set_in_progress run db'
        else finalize run db')
    else finalize run db

unfoldable pub conclude_found : ℕ → ℕ → Db → Option Run → Db
unfolding conclude_run
conclude_found now run db none = db
conclude_found now run db (some _) = conclude_run now run db

unfoldable pub check_run_completion : ℕ → ℕ → Db → Db
unfolding conclude_found
check_run_completion now run db = conclude_found now run db (find_run db.runs run)

abbrev pub cancel_found : ℕ → ℕ → Db → Option Run → Db
cancel_found now run db none = db
cancel_found now run db (some r) =
    if status_eq r.status completed
      && not (elim r.conclusion [ none ↦ false | some c ↦ conclusion_eq c cancelled ])
    then db
    else assign_run run (λ r'. record r' { status = completed; conclusion = some cancelled })
        (update_jobs db (λ j. if j.run_id == run && is_active j then cancel_job now j else j))

unfoldable pub cancel_workflow_run : ℕ → ℕ → Db → Db
cancel_workflow_run now run db = cancel_found now run db (find_run db.runs run)
