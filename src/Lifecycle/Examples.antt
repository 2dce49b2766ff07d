-- ===== src/Lifecycle/Examples.antt =====
-- A job is claimed, its run is cancelled, and then the runner reports success.
use mathlib.Core.List.{Memᴰ}
use github_emulator.Prelude.{
  ℕ, String, ◌≡◌, ◌≢◌, refl, true, false, none, some, [], ◌∷◌, nat_eq, string_eq,
}
use github_emulator.Prelude.Rows.{All, Rel}
use github_emulator.Prelude.Text.{Text, codes, text_test}
use github_emulator.Value.{Fields, end}
use github_emulator.Jobs.{Job, queued, success}
use github_emulator.Scheduler.Dispatch.{Workflows, cancel_job}
use github_emulator.Scheduler.Completion.{cancel_workflow_run}
use github_emulator.Scheduler.Turns.{UniqueIds}
use github_emulator.RunnerJobs.Store.{Runner, Store}
use github_emulator.RunnerJobs.Claim.{claim_round, take}
use github_emulator.RunnerJobs.Report.{Report, complete_job}
use github_emulator.Lifecycle.Machine.{Next, phase}
use github_emulator.Lifecycle.Rows.{InOrder, IsCancelled}
use github_emulator.Lifecycle.Steps
use github_emulator.Lifecycle.Steps.{Steps}
use github_emulator.Lifecycle.Invariants.{steps-InOrder, steps-Next, steps-IsCancelled}

abbrev plain : Workflows
plain = record {
  build_run_expression_context = λ r. end;
  build_needs_context = λ js. end;
  render_expressions = λ d c. d;
  evaluate_job_if = λ v c. true;
  build_steps_data = λ s e c. [];
}

abbrev iso : ℕ → String
iso n = "2026-01-01T00:00:00+00:00"

abbrev resolve : Fields → Fields → Fields
resolve config outputs = outputs

abbrev job : Job
job = record {
  id = 1;
  run_id = 3;
  name = "build";
  job_key = some "build";
  status = queued;
  conclusion = none;
  completed_at = none;
  steps = [];
  needs = [];
  outputs = end;
  concurrency_group = none;
  pending_render = none;
  runner_id = none;
  runner_name = none;
  started_at = none;
  labels = codes " Linux" ∷ [];
  outputs_config = end;
}

abbrev runner : Runner
runner = record { id = 9; name = "pod"; status = "online"; busy = false; last_heartbeat = some 1 }

abbrev start : Store
start = record {
  db = record {
    jobs = job ∷ [];
    runs = record { id = 3; repo_id = 5; status = queued; conclusion = none } ∷ [];
  };
  runners = runner ∷ [];
}

abbrev labels : Text
labels = codes "self-hosted, linux"

abbrev after_claim : Store
after_claim = (claim_round 5 runner (some 5) labels start).0

abbrev after_cancel : Store
after_cancel = record after_claim { db = cancel_workflow_run 6 3 after_claim.db }

abbrev report : Report
report = record { conclusion = some (some success); steps = none; step_outputs = none }

after_report :
    complete_job resolve plain 7 1 9 report after_cancel
    ≡ some (record after_cancel { runners = runner ∷ [] })
unfolding claim_round cancel_workflow_run cancel_job complete_job text_test
after_report = refl

abbrev final : Store
final = record after_cancel { runners = runner ∷ [] }

not_null : some (some success) ≢ some none
not_null e = cc

history : Steps plain iso resolve start final
history = Steps.first (Steps.claimed 5 runner (some 5) labels) (
    Steps.first (Steps.cancelled 6 3)
      (Steps.first (Steps.completed 7 1 9 report final not_null after_report) Steps.none_left))

start_unique : UniqueIds start.db.jobs
start_unique = (tt, tt)

job-InOrder : InOrder job
job-InOrder = record { open_job = λ n. refl; over = λ e. cc; held = λ e. cc; free = λ e. refl }

start-InOrder : All InOrder start.db.jobs
start-InOrder = (job-InOrder, tt)

steps-InOrder_example : All InOrder final.db.jobs
steps-InOrder_example =
    steps-InOrder plain iso resolve start final start_unique history start-InOrder

steps-Next_example : Rel (λ a b. Next (phase a) (phase b)) after_claim.db.jobs after_cancel.db.jobs
steps-Next_example =
    steps-Next plain iso resolve start after_claim start_unique
      (Steps.first (Steps.claimed 5 runner (some 5) labels) Steps.none_left) after_cancel
      (Steps.cancelled 6 3) start-InOrder

cancelled_row : IsCancelled (cancel_job 6 (take 5 runner job))
unfolding cancel_job
cancelled_row = (refl, refl)

steps-IsCancelled_example : (b : Job) × Memᴰ b final.db.jobs × (b.id ≡ 1) × IsCancelled b
unfolding claim_round cancel_workflow_run cancel_job take text_test
steps-IsCancelled_example =
    steps-IsCancelled plain iso resolve after_cancel final (tt, tt)
      (Steps.first (Steps.completed 7 1 9 report final not_null after_report) Steps.none_left)
      (cancel_job 6 (take 5 runner job)) (Memᴰ.head refl) cancelled_row
