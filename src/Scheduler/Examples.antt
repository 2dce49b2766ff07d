-- ===== src/Scheduler/Examples.antt =====
-- A run with a finished job, a job that needs it and one that needs a failed job, beside a run in
-- the same concurrency group.
use mathlib.Core.List.{Memᴰ}
use mathlib.Core.Bool.{false≢true}
use github_emulator.Prelude.{
  ℕ, String, ◌≡◌, ◌≢◌, ◌⊎◌, ◌<◌, refl, sym, ◌∙◌, subst, true, false, beq_refl, nat_eq, Option, none,
  some, List, [], ◌∷◌, inl, inr, arith, if◌then◌else◌, ◌==◌, string_eq,
}
use github_emulator.Prelude.Rows.{All, All-elim, Rel}
use github_emulator.Value.{end}
use github_emulator.Jobs.{
  Status, Conclusion, Job, Run, Db, waiting, queued, in_progress, completed, success, failure,
  cancelled, skipped, key,
}
use github_emulator.Scheduler.Dispatch.{
  Workflows, promote, supersede_group, supersede_for_concurrency, cancel_job, skip_blocked,
  dispatch_ready_jobs, base_context, needs_context, find_run,
}
use github_emulator.Scheduler.Completion.{check_run_completion, cancel_workflow_run}
use github_emulator.Scheduler.Turns.{UniqueIds}
use github_emulator.Scheduler.Loop.{Dispatched}
use github_emulator.Scheduler.Progress.{Advances, dispatch-Dispatched, dispatch-Advances}
use github_emulator.Scheduler.Liveness.{Idle, Acyclic, dispatch-progress}
use github_emulator.Scheduler.Promotion.{KeysOnce, promoted_needs}
use github_emulator.Scheduler.Conclusion.{InStep, Cancelled, completion-InStep, cancel-exact}
use github_emulator.Scheduler.Verdict.{Verdict, completion-Verdict}

-- Every condition is true and every step list is empty.
abbrev plain : Workflows
plain = record {
  build_run_expression_context = λ r. end;
  build_needs_context = λ js. end;
  render_expressions = λ d c. d;
  evaluate_job_if = λ v c. true;
  build_steps_data = λ s e c. [];
}

abbrev row : ℕ → ℕ → String → Status → Option Conclusion → List String → Option String → Job
row id run name status conclusion needs group = record {
  id = id;
  run_id = run;
  name = name;
  job_key = some name;
  status = status;
  conclusion = conclusion;
  completed_at = none;
  steps = [];
  needs = needs;
  outputs = end;
  concurrency_group = group;
  pending_render = none;
  runner_id = none;
  runner_name = none;
  started_at = none;
  labels = [];
  outputs_config = end;
}

abbrev build : Job
build = row 1 7 "build" completed (some success) [] none

abbrev lint : Job
lint = row 2 7 "lint" completed (some failure) [] none

abbrev test : Job
test = row 3 7 "test" waiting none ("build" ∷ []) (some "ci")

abbrev deploy : Job
deploy = row 4 7 "deploy" waiting none ("build" ∷ "lint" ∷ []) none

abbrev older : Job
older = row 5 6 "test" in_progress none [] (some "ci")

abbrev db : Db
db = record {
  jobs = build ∷ lint ∷ test ∷ deploy ∷ older ∷ [];
  runs = record { id = 7; repo_id = 1; status = in_progress; conclusion = none } ∷ [];
}

db_unique : UniqueIds db.jobs
db_unique = omega arith

statuses : List Job → List Status
statuses [] = []
statuses (j ∷ js) = j.status ∷ statuses js

dispatch_runs :
    (statuses (dispatch_ready_jobs plain 9 7 db).0.jobs
      ≡ completed ∷ completed ∷ queued ∷ completed ∷ completed ∷ [])
    × ((dispatch_ready_jobs plain 9 7 db).1 ≡ 3 ∷ [])
unfolding dispatch_ready_jobs statuses promote supersede_group supersede_for_concurrency cancel_job
dispatch_runs = (refl, refl)

dispatch-Dispatched_example :
    Rel
      (Dispatched plain 9 7
        (base_context plain 7 db)
        (needs_context plain 7 (skip_blocked 9 7 db))
        db)
      db.jobs
      (dispatch_ready_jobs plain 9 7 db).0.jobs
dispatch-Dispatched_example = dispatch-Dispatched plain 9 7 db db_unique

dispatch-Advances_example : Rel Advances db.jobs (dispatch_ready_jobs plain 9 7 db).0.jobs
dispatch-Advances_example = dispatch-Advances plain 9 7 db db_unique

abbrev order : String → ℕ
order name = if name == "build" then 0 else if name == "lint" then 0 else 1

abbrev IdleJob : Job → Type 0
IdleJob j =
    j.run_id ≡ 7
    → (j.status ≡ waiting)
      ⊎ ((j.status ≡ completed) × (j.conclusion ≡ some success))
      ⊎ ((j.status ≡ completed)
          × ((j.conclusion ≡ some failure)
              ⊎ (j.conclusion ≡ some cancelled)
              ⊎ (j.conclusion ≡ some skipped)))

db-Idle : Idle db 7
db-Idle j m e =
    All-elim IdleJob db.jobs
      (
        λ e. inr (inl (refl, refl)),
        (
          λ e. inr (inr (refl, inl refl)),
          (λ e. inl refl, (λ e. inl refl, (λ e. absurd (omega arith), tt))),
        ),
      )
      m e

abbrev Ordered : Job → Type 0
Ordered j =
    j.run_id ≡ 7
    → All
        (λ n.
          (order n < order (key j)) × ((d : Job) × Memᴰ d db.jobs × (d.run_id ≡ 7) × (key d ≡ n)))
        j.needs

db-Acyclic : Acyclic order db 7
db-Acyclic j m e =
    All-elim Ordered db.jobs
      (
        λ e. tt,
        (
          λ e. tt,
          (
            λ e. ((omega arith, (build, Memᴰ.head refl, refl, refl)), tt),
            (
              λ e. (
                (omega arith, (build, Memᴰ.head refl, refl, refl)),
                ((omega arith, (lint, Memᴰ.tail (Memᴰ.head refl), refl, refl)), tt),
              ),
              (λ e. tt, tt),
            ),
          ),
        ),
      )
      m e

dispatch-progress_example :
    (a b : Job) × Memᴰ a db.jobs
    × Memᴰ b (dispatch_ready_jobs plain 9 7 db).0.jobs
    × (a.run_id ≡ 7)
    × (a.status ≡ waiting)
    × (b.id ≡ a.id)
    × (b.status ≢ waiting)
dispatch-progress_example =
    dispatch-progress plain 9 7 db order test db_unique db-Idle db-Acyclic
      (Memᴰ.tail (Memᴰ.tail (Memᴰ.head refl))) refl refl

promotes_test : Memᴰ 3 (dispatch_ready_jobs plain 9 7 db).1
promotes_test = rw dispatch_runs.1 (Memᴰ.head refl)

names_apart : (a b : String) → (a == b) ≡ false → a ≢ b
names_apart a b h e = false≢true (sym h ∙ subst (λ z. (a == z) ≡ true) e (beq_refl a))

other_run : {A : Type 0} (m n : ℕ) → (m == n) ≡ false → m ≡ n → A
other_run m n h e = absurd (false≢true (sym h ∙ subst (λ z. (m == z) ≡ true) e (beq_refl m)))

db_once : KeysOnce 7 db.jobs
db_once = (
  λ e. (
    λ f. names_apart _ _ refl,
    (λ f. names_apart _ _ refl, (λ f. names_apart _ _ refl, (λ f. other_run 6 7 refl f, tt))),
  ),
  (
    λ e. (λ f. names_apart _ _ refl, (λ f. names_apart _ _ refl, (λ f. other_run 6 7 refl f, tt))),
    (
      λ e. (λ f. names_apart _ _ refl, (λ f. other_run 6 7 refl f, tt)),
      (λ e. (λ f. other_run 6 7 refl f, tt), (λ e. tt, tt)),
    ),
  ),
)

promoted_needs_example :
    (a b : Job) × Memᴰ a db.jobs
    × Memᴰ b (dispatch_ready_jobs plain 9 7 db).0.jobs
    × (a.id ≡ 3)
    × (a.run_id ≡ 7)
    × (a.status ≡ waiting)
    × All (λ n. (d : Job) × Memᴰ d db.jobs × (d.run_id ≡ 7) × (key d ≡ n)) a.needs
    × ((d : Job)
        → Memᴰ d db.jobs
        → d.run_id ≡ 7
        → Memᴰ (key d) a.needs
        → (d.status ≡ completed) × (d.conclusion ≡ some success))
    × (b.id ≡ 3)
    × (b.status ≡ queued)
promoted_needs_example = promoted_needs plain 9 7 db 3 db_unique db_once promotes_test

abbrev run7 : Run
run7 = record { id = 7; repo_id = 1; status = in_progress; conclusion = none }

completion-InStep_example : InStep 7 run7 (check_run_completion 9 7 db)
completion-InStep_example = completion-InStep 9 7 db run7 refl refl

abbrev ended_db : Db
ended_db = record db { jobs = build ∷ lint ∷ older ∷ [] }

ended_over : (d : Job) → Memᴰ d ended_db.jobs → d.run_id ≡ 7 → d.status ≡ completed
ended_over d m e =
    All-elim (λ (d : Job). d.run_id ≡ 7 → d.status ≡ completed) ended_db.jobs
      (λ h. refl, (λ h. refl, (λ h. other_run 6 7 refl h, tt))) m e

completion-Verdict_example :
    (c : Conclusion) × Verdict 7 ended_db c
    × (find_run (check_run_completion 9 7 ended_db).runs 7
        ≡ some (record run7 { status = completed; conclusion = some c }))
completion-Verdict_example =
    completion-Verdict 9 7 ended_db run7 build refl (Memᴰ.head refl) refl ended_over

cancel-exact_example :
    Rel (Cancelled 7) db.jobs (cancel_workflow_run 9 7 db).jobs
    × (find_run (cancel_workflow_run 9 7 db).runs 7
        ≡ some (record run7 { status = completed; conclusion = some cancelled }))
cancel-exact_example = cancel-exact 9 7 db run7 refl (inl (ground arith))
