-- ===== src/Lifecycle/Scheduled.antt =====
-- The operations of the scheduler change every row lawfully.
use github_emulator.Prelude.{
  nat_eq, string_eq, ℕ, String, ◌≡◌, ◌≢◌, ◌⊎◌, refl, true, false, not, ◌&&◌, Option, none, some,
  List, [], ◌∷◌, ◌==◌, inl, inr, if_cases, arith,
}
use github_emulator.Prelude.Rows.{Rel, Rel-map, Rel-mono}
use github_emulator.Prelude.Lists.{any}
use github_emulator.Value.{Fields}
use github_emulator.Jobs.{
  Status, Job, Run, Db, PendingRender, waiting, queued, in_progress, completed, Conclusion,
  cancelled, status_eq, conclusion_eq,
}
use github_emulator.Scheduler.Dispatch.{
  Workflows, skip_job, cancel_job, skip_blocked, dispatch_ready_jobs, base_context, needs_context,
  find_run, jobs_of,
}
use github_emulator.Scheduler.Completion.{
  is_active, needs_failed, skip_after_failure, finalize, set_in_progress, conclude_run,
  check_run_completion, cancel_workflow_run, failed_names, is_nil, cancel_found, conclude_found,
}
use github_emulator.Scheduler.Needs.{NeedsFailed-cases, NeedsMet-cases}
use github_emulator.Scheduler.Rows.{settled}
use github_emulator.Scheduler.Turns.{UniqueIds, Foreign, same, superseded}
use github_emulator.Scheduler.Loop.{Dispatched}
use github_emulator.Scheduler.Progress.{dispatch-Dispatched}
use github_emulator.Lifecycle.Rows.{Lawful, Lawful-refl, Lawful-end, Lawful-queue}

pub Lawful-rows : (xs : List Job) → Rel Lawful xs xs
Lawful-rows [] = tt
Lawful-rows (x ∷ xs) = (Lawful-refl x, Lawful-rows xs)

conclusion_given : {c : Conclusion} → some c ≢ none
conclusion_given e = cc

open_status : (s : Status) → s ≡ waiting → s ≢ completed
open_status s h e = cc

started_open : (s : Status) → (s ≡ queued) ⊎ (s ≡ in_progress) → s ≢ completed
started_open s (inl h) e = cc
started_open s (inr h) e = cc

not_over :
    (j : Job) (run : ℕ) (failed : List String)
    → (j.run_id == run && needs_failed failed j) ≡ true
    → j.status ≢ completed
not_over j run failed h e = ground arith

Lawful-skip : (now : ℕ) (a : Job) → a.status ≡ waiting → Lawful a (skip_job now a)
unfolding skip_job
Lawful-skip now a h =
    Lawful-end a (skip_job now a) refl refl (λ e. open_status a.status h e) refl conclusion_given

Lawful-cancel : (now : ℕ) (a : Job) → a.status ≢ completed → Lawful a (cancel_job now a)
unfolding cancel_job
Lawful-cancel now a n = Lawful-end a (cancel_job now a) refl refl n refl conclusion_given

Lawful-settled :
    (w : Workflows) (now : ℕ) (base needs : Fields) (a : Job) (p : Option PendingRender)
    → a.status ≡ waiting
    → Lawful a (settled w now base needs a p)
unfolding settled skip_job
Lawful-settled w now base needs a none h = Lawful-queue a _ refl refl h refl refl refl
Lawful-settled w now base needs a (some p) h =
    if_cases (Lawful a) (w.evaluate_job_if p.condition _)
      (λ e. Lawful-queue a _ refl refl h refl refl refl)
      (λ e. Lawful-end a _ refl refl (λ z. open_status a.status h z) refl conclusion_given)

Lawful-Foreign : (now : ℕ) (a b : Job) → Foreign now a b → Lawful a b
Lawful-Foreign now a b same = Lawful-refl a
Lawful-Foreign now a b (superseded h) = Lawful-cancel now a (λ e. started_open a.status h e)

same_or : (m n : ℕ) → (m ≡ n) ⊎ (m ≢ n)
same_or m n = omega arith

waiting_or : (s : Status) → (s ≡ waiting) ⊎ (s ≢ waiting)
waiting_or s = ground arith

Lawful-Dispatched :
    (w : Workflows) (now run : ℕ) (base needs : Fields) (db : Db) (a b : Job)
    → Dispatched w now run base needs db a b
    → Lawful a b
Lawful-Dispatched w now run base needs db a b d = elim (same_or a.run_id run) [
  | inr e ↦ Lawful-Foreign now a b (d.elsewhere e)
  | inl e ↦ elim (waiting_or a.status) [
    | inr s ↦ rw (d.begun e s) (Lawful-refl a)
    | inl s ↦ elim (NeedsFailed-cases db run a) [
      | inl f ↦ rw (d.blocked e s f) (Lawful-skip now a s)
      | inr f ↦ elim (NeedsMet-cases db run a) [
        | inl u ↦ rw (d.ready e s u f) (Lawful-settled w now base needs a a.pending_render s)
        | inr u ↦ rw (d.held e s u f) (Lawful-refl a)
      ]
    ]
  ]
]

pub dispatch-Lawful :
    (w : Workflows) (now run : ℕ) (db : Db)
    → UniqueIds db.jobs
    → Rel Lawful db.jobs (dispatch_ready_jobs w now run db).0.jobs
dispatch-Lawful w now run db unique =
    Rel-mono _ _
      (Lawful-Dispatched w now run (base_context w run db)
        (needs_context w run (skip_blocked now run db)) db)
      _ _ (dispatch-Dispatched w now run db unique)

active_open : (j : Job) (run : ℕ) → (j.run_id == run && is_active j) ≡ true → j.status ≢ completed
active_open j run h e = ground arith

abbrev LawfulTo : Db → Db → Type 0
LawfulTo db d = Rel Lawful db.jobs d.jobs

skip_after-Lawful :
    (now run : ℕ) (failed : List String) (db : Db)
    → Rel Lawful db.jobs (skip_after_failure now run failed db).jobs
unfolding skip_after_failure
skip_after-Lawful now run failed db = Rel-map Lawful _ db.jobs (λ (j : Job).
    if_cases (Lawful j) (j.run_id == run && needs_failed failed j)
      (λ e. Lawful-end j _ refl refl (not_over j run failed e) refl conclusion_given)
      (λ e. Lawful-refl j))

conclude-Lawful : (now run : ℕ) (db : Db) → Rel Lawful db.jobs (conclude_run now run db).jobs
unfolding conclude_run finalize set_in_progress
conclude-Lawful now run db =
    let failed = failed_names (jobs_of db run) in
    let skip = skip_after-Lawful now run failed db in
    let here = Lawful-rows db.jobs in
    if_cases (LawfulTo db) (is_nil (jobs_of db run)) (λ e. here)
      (λ e.
        if_cases (LawfulTo db) (any is_active (jobs_of db run))
          (λ f.
            if_cases (LawfulTo db) (is_nil failed) (λ g. here)
              (λ g.
                if_cases (LawfulTo db)
                  (any (λ j. is_active j && not (needs_failed failed j))
                    (jobs_of (skip_after_failure now run failed db) run))
                  (λ h. skip) (λ h. skip)))
          (λ f. here))

found-Lawful :
    (now run : ℕ) (db : Db) (o : Option Run) → Rel Lawful db.jobs (conclude_found now run db o).jobs
unfolding conclude_found
found-Lawful now run db none = Lawful-rows db.jobs
found-Lawful now run db (some r) = conclude-Lawful now run db

pub completion-Lawful :
    (now run : ℕ) (db : Db) → Rel Lawful db.jobs (check_run_completion now run db).jobs
unfolding check_run_completion
completion-Lawful now run db = found-Lawful now run db (find_run db.runs run)

pub cancel-Lawful :
    (now run : ℕ) (db : Db) → Rel Lawful db.jobs (cancel_workflow_run now run db).jobs
unfolding cancel_workflow_run
cancel-Lawful now run db =
    elim (find_run db.runs run) as (λ o. Rel Lawful db.jobs (cancel_found now run db o).jobs) [
      | none ↦ Lawful-rows db.jobs
      | some r ↦
          if_cases (LawfulTo db)
            (status_eq r.status completed
              && not (elim r.conclusion [ none ↦ false | some c ↦ conclusion_eq c cancelled ]))
            (λ e. Lawful-rows db.jobs)
            (λ e. Rel-map Lawful _ db.jobs (λ (j : Job).
              if_cases (Lawful j) (j.run_id == run && is_active j)
                (λ f. Lawful-cancel now j (active_open j run f)) (λ f. Lawful-refl j)))
    ]
