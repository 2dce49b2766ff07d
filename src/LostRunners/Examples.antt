-- ===== src/LostRunners/Examples.antt =====
-- A runner with a job that it has started and one that it has not.
use github_emulator.Prelude.{
  ℕ, String, ◌≡◌, refl, none, some, List, [], ◌∷◌, map, nat_eq, string_eq,
}
use github_emulator.Prelude.Rows.{Rel}
use github_emulator.Value.{end}
use github_emulator.Jobs.{Job, Step, in_progress, completed, queued}
use github_emulator.LostRunners.Lose.{release_held_jobs}
use github_emulator.LostRunners.Released.{Released, release_held_jobs-Released}

abbrev step : String → Step
step status = record { status = some status; conclusion = none; message = none; fields = end }

abbrev job : ℕ → List Step → Job
job id steps = record {
  id = id;
  run_id = 3;
  name = "build";
  job_key = some "build";
  status = in_progress;
  conclusion = none;
  completed_at = none;
  steps = steps;
  needs = [];
  outputs = end;
  concurrency_group = none;
  pending_render = none;
  runner_id = some 9;
  runner_name = some "pod";
  started_at = some 1;
  labels = [];
  outputs_config = end;
}

abbrev jobs : List Job
jobs = job 1 (step "in_progress" ∷ step "queued" ∷ []) ∷ job 2 (step "queued" ∷ []) ∷ []

abbrev iso : ℕ → String
iso now = "2026-01-01T00:00:00+00:00"

one_run : (release_held_jobs iso 5 9 jobs).1 ≡ 3 ∷ []
unfolding release_held_jobs
one_run = refl

statuses : map (λ (j : Job). j.status) (release_held_jobs iso 5 9 jobs).0 ≡ completed ∷ queued ∷ []
unfolding release_held_jobs
statuses = refl

release_held_jobs-Released_example : Rel (Released iso 5 9) jobs (release_held_jobs iso 5 9 jobs).0
release_held_jobs-Released_example = release_held_jobs-Released iso 5 9 jobs
