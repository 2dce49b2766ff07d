-- ===== src/Lifecycle/Invariants.antt =====
-- What holds of the jobs through every run of the system.
use mathlib.Core.List.{Memᴰ}
use github_emulator.Prelude.{ℕ, String, ◌≡◌, List, [], ◌∷◌}
use github_emulator.Prelude.Rows.{All, Rel, Rel-elim_left}
use github_emulator.Value.{Fields}
use github_emulator.Jobs.{Job}
use github_emulator.Scheduler.Dispatch.{Workflows}
use github_emulator.Scheduler.Turns.{UniqueIds}
use github_emulator.RunnerJobs.Store.{Store}
use github_emulator.Lifecycle.Machine.{Next, phase}
use github_emulator.Lifecycle.Rows.{InOrder, IsCancelled, Stepped, Kept, Change-All, Change-unique}
use github_emulator.Lifecycle.Steps.{Step, Steps, step-Stepped, Steps-Kept}

Stepped-follows :
    (xs ys : List Job)
    → Rel Stepped xs ys
    → All InOrder xs
    → Rel (λ a b. Next (phase a) (phase b)) xs ys
Stepped-follows [] [] r h = tt
Stepped-follows [] (y ∷ ys) r h = absurd r
Stepped-follows (x ∷ xs) [] r h = absurd r
Stepped-follows (x ∷ xs) (y ∷ ys) r h = (r.0.follows h.0, Stepped-follows xs ys r.1 h.1)

-- The operations are those of `Step`: the scheduler's, and the routes of actions_dispatch.py.
module _ (w : Workflows) (isoformat : ℕ → String) (resolve : Fields → Fields → Fields) (s t : Store)
    (unique : UniqueIds s.db.jobs) (run : Steps w isoformat resolve s t) where
  -- Where every job is in order, every job is in order after any operations of the scheduler and
  -- of actions_dispatch.py: it has a conclusion exactly when it is completed, a runner while it is
  -- in progress, and none before. Ids are unique, and no runner reports a conclusion of null.
  pub steps-InOrder : All InOrder s.db.jobs → All InOrder t.db.jobs
  steps-InOrder = Change-All (λ p q. Unit) _ _ (Steps-Kept w isoformat resolve s t unique run)

  -- After any operations of the scheduler and of actions_dispatch.py, the next one changes each
  -- row as the abstract machine does: a waiting job is queued, or ends; a queued one starts to run
  -- on one runner, or ends; a running one goes back to the queue, or ends; any other row keeps its
  -- status, and its runner while it runs. So only a queued job starts to run, a running job is not
  -- passed to another runner, and an ended job does not move. Ids are unique and jobs are in order
  -- at the start, and no runner reports a conclusion of null.
  pub steps-Next :
      (u : Store)
      → Step w isoformat resolve t u
      → All InOrder s.db.jobs
      → Rel (λ a b. Next (phase a) (phase b)) t.db.jobs u.db.jobs
  steps-Next u m h =
      let before = Steps-Kept w isoformat resolve s t unique run in
      Stepped-follows _ _
        (step-Stepped w isoformat resolve t u (Change-unique (λ p q. Unit) _ _ before unique) m)
        (steps-InOrder h)

  -- A job that was cancelled is cancelled after any operations of the scheduler and of
  -- actions_dispatch.py, late reports to its `complete_job` included. Ids are unique, and no
  -- runner reports a conclusion of null.
  pub steps-IsCancelled :
      (a : Job)
      → Memᴰ a s.db.jobs
      → IsCancelled a
      → (b : Job) × Memᴰ b t.db.jobs × (b.id ≡ a.id) × IsCancelled b
  steps-IsCancelled a m h =
      let (b, k, r) = Rel-elim_left Kept _ _ (Steps-Kept w isoformat resolve s t unique run) m in
      (b, k, r.same_id, r.stays_cancelled h)
