-- ===== src/Lifecycle/Steps.antt =====
-- Runs of the system: the operations of the scheduler and of the runners, in any order.
use github_emulator.Prelude.{ℕ, String, ◌≡◌, ◌≢◌, refl, Option, none, some, List, [], ◌∷◌, nat_eq}
use github_emulator.Prelude.Rows.{Rel, Rel-mono, Rel-trans}
use github_emulator.Prelude.Text.{Text}
use github_emulator.Value.{Fields}
use github_emulator.Jobs.{Job}
use github_emulator.Scheduler.Dispatch.{Workflows, dispatch_ready_jobs}
use github_emulator.Scheduler.Completion.{check_run_completion, cancel_workflow_run}
use github_emulator.Scheduler.Turns.{UniqueIds}
use github_emulator.LostRunners.Lose.{release_held_jobs}
use github_emulator.RunnerJobs.Store.{Runner, Store}
use github_emulator.RunnerJobs.Claim.{claim_round, requeue_stale_jobs}
use github_emulator.RunnerJobs.Report.{Report, update_job_progress, complete_job, take_over}
use github_emulator.Lifecycle.Machine.{Turn, Next}
use github_emulator.Lifecycle.Rows.{
  Lawful, Stepped, Kept, Stepped-of, Kept-of, Kept-refl, Kept-trans, Lawful-trans, Change-unique,
}
use github_emulator.Lifecycle.Scheduled.{dispatch-Lawful, completion-Lawful, cancel-Lawful}
use github_emulator.Lifecycle.Runners.{
  release-Lawful, stale-Lawful, conclude_runs-Lawful, claim-Stepped,
}
use github_emulator.Lifecycle.Reports.{progress-Lawful, complete-Lawful}

turns : (xs ys : List Job) → Rel Lawful xs ys → Rel Stepped xs ys
turns xs ys r = Rel-mono Lawful Stepped Stepped-of xs ys r

Kept-rows : (xs : List Job) → Rel Kept xs xs
Kept-rows [] = tt
Kept-rows (x ∷ xs) = (Kept-refl x, Kept-rows xs)

module _ (w : Workflows) (isoformat : ℕ → String) (resolve : Fields → Fields → Fields) where
  pub data Step (s : Store) : Store → Type 0 where
    dispatched : (now run : ℕ) → Step s (record s { db = (dispatch_ready_jobs w now run s.db).0 })
    checked : (now run : ℕ) → Step s (record s { db = check_run_completion now run s.db })
    cancelled : (now run : ℕ) → Step s (record s { db = cancel_workflow_run now run s.db })
    taken_over : (now runner : ℕ) → Step s (take_over w isoformat now runner s)
    requeued :
        (now cutoff ack_cutoff : ℕ)
        → Step s (requeue_stale_jobs w isoformat now cutoff ack_cutoff s)
    claimed :
        (now : ℕ) (runner : Runner) (repository : Option ℕ) (labels : Text)
        → Step s (claim_round now runner repository labels s).0
    progressed :
        (id runner : ℕ) (body : Report) (t : Store)
        → update_job_progress id runner body s ≡ some t
        → Step s t
    completed :
        (now id runner : ℕ) (body : Report) (t : Store)
        → body.conclusion ≢ some none
        → complete_job resolve w now id runner body s ≡ some t
        → Step s t

  pub data Steps : Store → Store → Type 0 where
    none_left : {s : Store} → Steps s s
    first : {s t u : Store} → Step s t → Steps t u → Steps s u

  pub step-Stepped :
      (s t : Store) → UniqueIds s.db.jobs → Step s t → Rel Stepped s.db.jobs t.db.jobs
  unfolding take_over requeue_stale_jobs claim_round
  step-Stepped s _ unique (dispatched now run) = turns _ _ (dispatch-Lawful w now run s.db unique)
  step-Stepped s _ unique (checked now run) = turns _ _ (completion-Lawful now run s.db)
  step-Stepped s _ unique (cancelled now run) = turns _ _ (cancel-Lawful now run s.db)
  step-Stepped s _ unique (taken_over now runner) =
      let start = release-Lawful isoformat now runner s.db.jobs in
      turns _ _ (
        Rel-trans Lawful Lawful Lawful Lawful-trans _ _ _ start (
          conclude_runs-Lawful w now (release_held_jobs isoformat now runner s.db.jobs).1
            (record s.db { jobs = (release_held_jobs isoformat now runner s.db.jobs).0 })
            (Change-unique Turn _ _ start unique)))
  step-Stepped s _ unique (requeued now cutoff ack_cutoff) =
      let start = stale-Lawful isoformat now _ cutoff ack_cutoff s.db.jobs in
      turns _ _ (
        Rel-trans Lawful Lawful Lawful Lawful-trans _ _ _ start (
          conclude_runs-Lawful w now _ (record s.db { jobs = _ })
            (Change-unique Turn _ _ start unique)))
  step-Stepped s _ unique (claimed now runner repository labels) =
      claim-Stepped now runner repository _ s _ refl unique
  step-Stepped s _ unique (progressed id runner body t e) =
      turns _ _ (progress-Lawful id runner body s t unique e)
  step-Stepped s _ unique (completed now id runner body t n e) =
      turns _ _ (complete-Lawful resolve w now id runner body s t n unique e)

  pub Steps-Kept : (s t : Store) → UniqueIds s.db.jobs → Steps s t → Rel Kept s.db.jobs t.db.jobs
  Steps-Kept s _ unique none_left = Kept-rows s.db.jobs
  Steps-Kept s u unique (first {t = t} m ms) =
      let start = step-Stepped s t unique m in
      Rel-trans Kept Kept Kept Kept-trans _ _ _ (Rel-mono Stepped Kept Kept-of _ _ start)
        (Steps-Kept t u (Change-unique Next _ _ start unique) ms)
