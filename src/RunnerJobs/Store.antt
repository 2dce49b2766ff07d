-- ===== src/RunnerJobs/Store.antt =====
-- The tables that the runner routes use: jobs, runs and runners.
use github_emulator.Prelude.{
  ℕ, String, Bool, false, Option, List, [], ◌∷◌, map, ◌==◌, nat_eq, if◌then◌else◌,
}
use github_emulator.Jobs.{Job, Db, update_jobs}
use github_emulator.Scheduler.Dispatch.{Workflows, dispatch_ready_jobs}
use github_emulator.Scheduler.Completion.{check_run_completion}

pub record Runner : Type 0 where
  pub id : ℕ
  pub name : String
  pub status : String
  pub busy : Bool
  pub last_heartbeat : Option ℕ

pub record Store : Type 0 where
  pub db : Db
  pub runners : List Runner

abbrev pub assign_runner : ℕ → (Runner → Runner) → List Runner → List Runner
assign_runner id change = map (λ (r : Runner). if r.id == id then change r else r)

abbrev pub change_jobs : (Job → Job) → Store → Store
change_jobs change s = record s { db = update_jobs s.db change }

-- runner.busy = False; runner.status = "online"
abbrev pub free_runner : Runner → Runner
free_runner r = record r { busy = false; status = "online" }

module _ (w : Workflows) (now : ℕ) where
  -- dispatch_ready_jobs, then check_run_completion
  unfoldable pub advance : ℕ → Db → Db
  advance run db = check_run_completion now run (dispatch_ready_jobs w now run db).0

  -- _conclude_runs
  unfoldable pub conclude_runs : List ℕ → Db → Db
  unfolding advance
  conclude_runs [] db = db
  conclude_runs (run ∷ runs) db = conclude_runs runs (advance run db)
