-- ===== src/Scheduler/Progress.antt =====
-- How one call of `dispatch_ready_jobs` may change the rows of the job table.
use github_emulator.Prelude.{
  nat_eq, string_eq, ℕ, ◌≡◌, ◌≢◌, ◌⊎◌, ◌≤◌, Option, none, some, inl, inr, arith,
}
use github_emulator.Prelude.Rows.{Rel, Rel-mono}
use github_emulator.Value.{Fields}
use github_emulator.Jobs.{
  Status, Job, Db, PendingRender, waiting, queued, in_progress, completed, cancelled, skipped,
}
use github_emulator.Scheduler.Dispatch.{
  Workflows, skip_job, cancel_job, skip_blocked, dispatch_ready_jobs, base_context, needs_context,
}
use github_emulator.Scheduler.Needs.{NeedsFailed-cases, NeedsMet-cases}
use github_emulator.Scheduler.Rows.{settled}
use github_emulator.Scheduler.Turns.{UniqueIds, Foreign, same, superseded}
use github_emulator.Scheduler.Loop.{Dispatched, rows-Dispatched, jobs-dispatch}

abbrev rank : Status → ℕ
rank waiting = 0
rank queued = 1
rank in_progress = 2
rank completed = 3

-- A row before and after: its identity is kept, its status never goes back, only a runner puts it
-- in progress, a completed row is final, and what the scheduler completes did not run to its end.
pub record Advances (a b : Job) : Type 0 where
  pub id_kept : b.id ≡ a.id
  pub run_kept : b.run_id ≡ a.run_id
  pub name_kept : b.name ≡ a.name
  pub key_kept : b.job_key ≡ a.job_key
  pub needs_kept : b.needs ≡ a.needs
  pub forward : rank a.status ≤ rank b.status
  pub not_started : b.status ≡ in_progress → a.status ≡ in_progress
  pub final : a.status ≡ completed → b ≡ a
  pub ended :
      b.status ≡ completed
      → (a.status ≡ completed) ⊎ (b.conclusion ≡ some skipped) ⊎ (b.conclusion ≡ some cancelled)

run_cases : (m n : ℕ) → (m ≡ n) ⊎ (m ≢ n)
run_cases m n = omega arith

waiting_cases : (s : Status) → (s ≡ waiting) ⊎ (s ≢ waiting)
waiting_cases s = ground arith

Advances-refl : (a : Job) → Advances a a
Advances-refl a = ground arith

Advances-skip : (now : ℕ) (a : Job) → a.status ≡ waiting → Advances a (skip_job now a)
unfolding skip_job
Advances-skip now a h = ground arith

Advances-settled :
    (w : Workflows) (now : ℕ) (base needs : Fields) (a : Job) (p : Option PendingRender)
    → a.status ≡ waiting
    → Advances a (settled w now base needs a p)
unfolding settled skip_job
Advances-settled w now base needs a none h = ground arith
Advances-settled w now base needs a (some p) h = ground arith

Advances-Foreign : (now : ℕ) (a b : Job) → Foreign now a b → Advances a b
unfolding cancel_job
Advances-Foreign now a b same = Advances-refl a
Advances-Foreign now a b (superseded h) = ground arith

pub Advances-Dispatched :
    (w : Workflows) (now run : ℕ) (base needs : Fields) (db : Db) (a b : Job)
    → Dispatched w now run base needs db a b
    → Advances a b
Advances-Dispatched w now run base needs db a b d = elim (run_cases a.run_id run) [
  | inr e ↦ Advances-Foreign now a b (d.elsewhere e)
  | inl e ↦ elim (waiting_cases a.status) [
    | inr s ↦ rw (d.begun e s) (Advances-refl a)
    | inl s ↦ elim (NeedsFailed-cases db run a) [
      | inl f ↦ rw (d.blocked e s f) (Advances-skip now a s)
      | inr f ↦ elim (NeedsMet-cases db run a) [
        | inl u ↦ rw (d.ready e s u f) (Advances-settled w now base needs a a.pending_render s)
        | inr u ↦ rw (d.held e s u f) (Advances-refl a)
      ]
    ]
  ]
]

module _ (w : Workflows) (now run : ℕ) (db : Db) (unique : UniqueIds db.jobs) where
  -- One call of `dispatch_ready_jobs`, row by row: of the run's jobs, those that wait with a failed
  -- need are skipped, those that wait with every need met (and none failed) are queued or skipped
  -- by their condition, and all others are unchanged; a row of another run is unchanged or
  -- superseded while queued or in progress.
  pub dispatch-Dispatched :
      Rel
        (Dispatched w now run
          (base_context w run db)
          (needs_context w run (skip_blocked now run db))
          db)
        db.jobs
        (dispatch_ready_jobs w now run db).0.jobs
  dispatch-Dispatched = rw (jobs-dispatch w now run db) (
      rows-Dispatched w now run (base_context w run db)
        (needs_context w run (skip_blocked now run db)) db unique)

  -- A call of `dispatch_ready_jobs` only moves rows forward: see `Advances`.
  pub dispatch-Advances : Rel Advances db.jobs (dispatch_ready_jobs w now run db).0.jobs
  dispatch-Advances =
      Rel-mono _ _
        (Advances-Dispatched w now run (base_context w run db)
          (needs_context w run (skip_blocked now run db)) db)
        _ _ dispatch-Dispatched
