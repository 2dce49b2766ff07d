-- ===== src/RunnerJobs/Report.antt =====
-- `update_job_progress`, `complete_job` and the concluding of the runs of a runner that registers
-- again. What an output comes to is an argument.
use github_emulator.Prelude.{
  ℕ, String, Bool, ◌&&◌, Option, none, some, List, [], ◌∷◌, ◌==◌, nat_eq, string_eq, if◌then◌else◌,
}
use github_emulator.Value.{Fields}
use github_emulator.Jobs.{
  Job, Step, Conclusion, success, cancelled, completed, status_eq, concluded, assign, update_jobs,
}
use github_emulator.Scheduler.Dispatch.{Workflows}
use github_emulator.LostRunners.Lose.{holds, release_held_jobs}
use github_emulator.RunnerJobs.Store.{
  Store, assign_runner, change_jobs, free_runner, advance, conclude_runs,
}

-- The keys of the body that are read; a conclusion of null is `some none`.
pub record Report : Type 0 where
  pub conclusion : Option (Option Conclusion)
  pub steps : Option (List Step)
  pub step_outputs : Option Fields

-- WHERE id = … AND runner_id = …
abbrev pub find_held : ℕ → ℕ → List Job → Option Job
find_held id runner [] = none
find_held id runner (job ∷ jobs) =
    if job.id == id && holds job.runner_id runner then some job else find_held id runner jobs

abbrev pub or_kept {ℓ} : {A : Type ℓ} → Option A → A → A
or_kept none a = a
or_kept (some b) a = b

-- None where there is no such job.
abbrev pub progress_of : Report → Option Job → Store → Option Store
progress_of body none s = none
progress_of body (some job) s =
    some (change_jobs (assign job.id (λ j. record j { steps = or_kept body.steps j.steps })) s)

unfoldable pub update_job_progress : ℕ → ℕ → Report → Store → Option Store
update_job_progress id runner body s = progress_of body (find_held id runner s.db.jobs) s

abbrev pub is_cancelled : Job → Bool
is_cancelled job = status_eq job.status completed && concluded job cancelled

module _ (resolve_job_outputs : Fields → Fields → Fields) where
  unfoldable pub finish : ℕ → Report → Job → Job
  finish now body job = record job {
    status = completed;
    conclusion = or_kept body.conclusion (some success);
    completed_at = some now;
    steps = or_kept body.steps job.steps;
    outputs = elim body.step_outputs [
      | none ↦ job.outputs
      | some reported ↦ resolve_job_outputs job.outputs_config reported
    ];
  }

  module _ (w : Workflows) (now : ℕ) where
    -- The job's row, the runner's, and then the run's.
    unfoldable pub finish_job : ℕ → Report → Job → Store → Store
    unfolding finish
    finish_job runner body job s = record {
      db = advance w now job.run_id (update_jobs s.db (assign job.id (finish now body)));
      runners = assign_runner runner free_runner s.runners;
    }

    unfoldable pub complete_held : ℕ → Report → Option Job → Store → Option Store
    unfolding finish_job
    complete_held runner body none s = none
    complete_held runner body (some job) s = some (
        if is_cancelled job
        then record s { runners = assign_runner runner free_runner s.runners }
        else finish_job runner body job s)

    unfoldable pub complete_job : ℕ → ℕ → Report → Store → Option Store
    unfolding complete_held
    complete_job id runner body s = complete_held runner body (find_held id runner s.db.jobs) s

module _ (w : Workflows) (isoformat : ℕ → String) (now : ℕ) where
  -- A process registers under the name of a runner: `_release_held_jobs`, then `_conclude_runs`.
  unfoldable pub take_over : ℕ → Store → Store
  take_over runner s =
      let released = release_held_jobs isoformat now runner s.db.jobs in
      record s { db = conclude_runs w now released.1 (record s.db { jobs = released.0 }) }
