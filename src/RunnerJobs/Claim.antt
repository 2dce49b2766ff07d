-- ===== src/RunnerJobs/Claim.antt =====
-- `_poll_for_jobs`: first `_requeue_stale_jobs`, then rounds that look for a queued job. What
-- happens between two rounds is a step of its own.
use github_emulator.Prelude.{
  ℕ, String, Bool, true, false, not, ◌&&◌, ◌||◌, Option, none, some, List, [], ◌∷◌, map, ◌==◌,
  nat_eq, string_eq, if◌then◌else◌,
}
use github_emulator.Prelude.Lists.{any, all, filter}
use github_emulator.Prelude.Text.{
  Text, codes, text_eq, lower, strip_by, is_space, split, is_empty_text,
}
use github_emulator.Jobs.{Job, Run, queued, in_progress, status_eq, assign}
use github_emulator.Scheduler.Dispatch.{Workflows}
use github_emulator.LostRunners.Lose.{is_abandoned, lose_job, requeue_stale_rows}
use github_emulator.RunnerJobs.Store.{Runner, Store, assign_runner, conclude_runs}

-- {label.strip().lower() for label in labels if label.strip()}
abbrev pub clean_labels : List Text → List Text
clean_labels labels =
    filter (λ l. not (is_empty_text l)) (map (λ l. lower (strip_by is_space l)) labels)

-- job.labels or ["self-hosted"]
abbrev pub job_labels : Job → List Text
job_labels job = clean_labels (elim job.labels [ [] ↦ codes "self-hosted" ∷ [] | l ∷ ls ↦ l ∷ ls ])

abbrev pub is_subset : List Text → List Text → Bool
is_subset labels others = all (λ l. any (λ m. m == l) others) labels

abbrev in_scope : Option ℕ → Run → Bool
in_scope none run = true
in_scope (some repository) run = run.repo_id == repository

-- The job is queued, and its run is queued or in progress and in the runner's scope.
abbrev pub is_offered : Option ℕ → List Run → Job → Bool
is_offered repository runs job =
    status_eq job.status queued
    && any
        (λ (r : Run).
          r.id == job.run_id
          && (status_eq r.status queued || status_eq r.status in_progress)
          && in_scope repository r)
        runs

abbrev pub find_offer : Option ℕ → List Text → List Run → List Job → Option Job
find_offer repository labels runs [] = none
find_offer repository labels runs (job ∷ jobs) =
    if is_offered repository runs job && is_subset (job_labels job) labels
    then some job
    else find_offer repository labels runs jobs

unfoldable pub take : ℕ → Runner → Job → Job
take now runner job = record job {
  status = in_progress;
  runner_id = some runner.id;
  runner_name = some runner.name;
  started_at = some now;
}

abbrev start_run : ℕ → Run → Run
start_run id run =
    if run.id == id && status_eq run.status queued then record run { status = in_progress } else run

unfoldable pub claim_job : ℕ → Runner → Option Job → Store → Store
unfolding take
claim_job now runner none s = s
claim_job now runner (some job) s = record {
  db = record {
    jobs = map (assign job.id (take now runner)) s.db.jobs;
    runs = map (start_run job.run_id) s.db.runs;
  };
  runners = assign_runner runner.id (λ r. record r { busy = true; status = "busy" }) s.runners;
}

-- One round: the store, and the job that was claimed, as it was.
unfoldable pub claim_round : ℕ → Runner → Option ℕ → Text → Store → Store × Option Job
unfolding claim_job
claim_round now runner repository labels s =
    let offer = find_offer repository (clean_labels (split b',' labels)) s.db.runs s.db.jobs in
    (claim_job now runner offer s, offer)

abbrev heartbeat : List Runner → ℕ → Option ℕ
heartbeat [] id = none
heartbeat (r ∷ rs) id = if r.id == id then r.last_heartbeat else heartbeat rs id

-- The runs of the jobs that were failed, each once, in the order of the table.
abbrev add_run : ℕ → List ℕ → List ℕ
add_run run runs = if any (λ r. r == run) runs then runs else run ∷ runs

module _ (w : Workflows) (isoformat : ℕ → String) (now : ℕ) where
  unfoldable pub stale_runs : (ℕ → Option ℕ) → ℕ → List Job → List ℕ
  unfolding lose_job
  stale_runs beat cutoff [] = []
  stale_runs beat cutoff (job ∷ jobs) =
      let rest = stale_runs beat cutoff jobs in
      if is_abandoned beat cutoff job && (lose_job isoformat now job).1
      then add_run job.run_id rest
      else rest

  -- The runner held a job that was settled.
  abbrev lost_touch : (ℕ → Option ℕ) → ℕ → List Job → Runner → Runner
  lost_touch beat cutoff jobs r =
      if any
        (λ j. is_abandoned beat cutoff j && elim j.runner_id [ none ↦ false | some k ↦ k == r.id ])
        jobs
      then record r { status = "offline"; busy = false }
      else r

  -- _requeue_stale_jobs
  unfoldable pub requeue_stale_jobs : ℕ → ℕ → Store → Store
  unfolding stale_runs
  requeue_stale_jobs cutoff ack_cutoff s =
      let beat = heartbeat s.runners in
      let jobs = requeue_stale_rows isoformat now beat cutoff ack_cutoff s.db.jobs in
      record {
        db = conclude_runs w now (stale_runs beat cutoff s.db.jobs) (record s.db { jobs = jobs });
        runners = map (lost_touch beat cutoff s.db.jobs) s.runners;
      }
