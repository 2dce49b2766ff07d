-- ===== src/Scheduler/Conclusion.antt =====
-- How a run ends: `check_run_completion` and `cancel_workflow_run`.
use mathlib.Core.List.{Memᴰ}
use mathlib.Core.Bool.{false≢true}
use github_emulator.Prelude.{
  nat_eq, string_eq, Bool-cases, if_cases, ℕ, String, ◌≡◌, ◌≢◌, ◌⊎◌, ◌↔◌, refl, sym, ◌∙◌, subst,
  true, false, not, ◌&&◌, ◌||◌, none, some, List, [], ◌∷◌, inl, inr, arith, map, ◌==◌,
  if◌then◌else◌,
}
use github_emulator.Prelude.Lists.{any, all, filter}
use github_emulator.Prelude.Rows.{
  All, All-elim, All-mono, all-All, All-all, any-mem, mem-any, Rel, Rel-map,
}
use github_emulator.Jobs.{
  Conclusion, Job, Run, Db, in_progress, completed, success, failure, cancelled, skipped, status_eq,
  conclusion_eq,
}
use github_emulator.Scheduler.Dispatch.{jobs_of, find_run, cancel_job}
use github_emulator.Scheduler.Completion.{
  is_active, failed_names, needs_failed, skip_waiting, conclusions, run_conclusion, finalize,
  set_in_progress, skip_after_failure, is_nil, conclude_run, check_run_completion,
  cancel_workflow_run,
}

pub find_run-assign :
    (id : ℕ) (change : Run → Run) (rs : List Run) (r : Run)
    → ((r : Run) → (change r).id ≡ r.id)
    → find_run rs id ≡ some r
    → find_run (map (λ r. if r.id == id then change r else r) rs) id ≡ some (change r)
find_run-assign id change [] r keep h = cc
find_run-assign id change (s ∷ rs) r keep h =
    ground (arith, keep s, find_run-assign id change rs r keep)

-- A row that is skipped after a failure no longer waits, so the rows that are still active are
-- those the loop counts.
skipped_row : ℕ → ℕ → List String → Job → Job
skipped_row now run failed j =
    if j.run_id == run && needs_failed failed j then skip_waiting now j else j

active_after :
    (now run : ℕ) (failed : List String) (js : List Job)
    → any
        (λ j. is_active j && not (needs_failed failed j))
        (filter (λ j. j.run_id == run) (map (skipped_row now run failed) js))
      ≡ any is_active (filter (λ j. j.run_id == run) (map (skipped_row now run failed) js))
unfolding skipped_row
active_after now run failed [] = refl
active_after now run failed (j ∷ js) = ground (arith, active_after now run failed js)

-- A run in step with its jobs: completed with the conclusion that theirs give if every one of them
-- is completed, else in progress with its own conclusion.
abbrev pub InStep : ℕ → Run → Db → Type 0
InStep run r db = find_run db.runs run ≡ (
    if any is_active (jobs_of db run)
    then some (record r { status = in_progress })
    else some (record r {
      status = completed;
      conclusion = some (run_conclusion (conclusions (jobs_of db run)));
    }))

module _ (run : ℕ) (r : Run) (db : Db) (found : find_run db.runs run ≡ some r) where
  InStep-set_in_progress :
      any is_active (jobs_of db run) ≡ true → InStep run r (set_in_progress run db)
  unfolding set_in_progress
  InStep-set_in_progress h =
      rw h
        (find_run-assign run (λ r. record r { status = in_progress }) db.runs r (λ r. refl) found)

  InStep-finalize : any is_active (jobs_of db run) ≡ false → InStep run r (finalize run db)
  unfolding finalize
  InStep-finalize h = rw h (find_run-assign run _ db.runs r (λ r. refl) found)

conclude_run-InStep :
    (now run : ℕ) (db : Db) (r : Run)
    → find_run db.runs run ≡ some r
    → is_nil (jobs_of db run) ≡ false
    → InStep run r (conclude_run now run db)
unfolding conclude_run skip_after_failure skipped_row
conclude_run-InStep now run db r found jobs =
    let failed = failed_names (jobs_of db run) in
    let db' = skip_after_failure now run failed db in
    let counted = active_after now run failed db.jobs in
    if_cases (InStep run r) (is_nil (jobs_of db run)) (λ e. absurd (false≢true (sym jobs ∙ e)))
      (λ _.
        if_cases (InStep run r) (any is_active (jobs_of db run))
          (λ active.
            if_cases (InStep run r) (is_nil failed)
              (λ _. InStep-set_in_progress run r db found active)
              (λ _.
                if_cases (InStep run r) _
                  (λ e. InStep-set_in_progress run r db' found (sym counted ∙ e))
                  (λ e. InStep-finalize run r db' found (sym counted ∙ e))))
          (λ done. InStep-finalize run r db found done))

-- After `check_run_completion` on a run that has jobs, the run is completed with the conclusion
-- that its jobs give if every one of them is completed, else in progress with its own conclusion.
pub completion-InStep :
    (now run : ℕ) (db : Db) (r : Run)
    → find_run db.runs run ≡ some r
    → is_nil (jobs_of db run) ≡ false
    → InStep run r (check_run_completion now run db)
unfolding check_run_completion
completion-InStep now run db r found jobs =
    rw (found, check_run_completion) (conclude_run-InStep now run db r found jobs)

conclusion_eq-failure : (c : Conclusion) → conclusion_eq failure c ≡ true → failure ≡ c
conclusion_eq-failure c h = ground arith

pub conclusion_eq-cancelled : (c : Conclusion) → conclusion_eq cancelled c ≡ true → cancelled ≡ c
conclusion_eq-cancelled c h = ground arith

IsPassing_of_true :
    (c : Conclusion)
    → (conclusion_eq c success || conclusion_eq c skipped) ≡ true
    → (c ≡ success) ⊎ (c ≡ skipped)
IsPassing_of_true c h = ground arith

true_of_IsPassing :
    (c : Conclusion)
    → (c ≡ success) ⊎ (c ≡ skipped)
    → (conclusion_eq c success || conclusion_eq c skipped) ≡ true
true_of_IsPassing c h = ground arith

no_failure : (cs : List Conclusion) → (Memᴰ failure cs → ⊥) → any (conclusion_eq failure) cs ≡ false
no_failure cs h = elim (Bool-cases (any (conclusion_eq failure) cs)) [
  | inl e ↦
      let (c, m, q) = any-mem (conclusion_eq failure) cs e in
      absurd (h (subst (λ z. Memᴰ z cs) (sym (conclusion_eq-failure c q)) m))
  | inr e ↦ e
]

no_cancelled :
    (cs : List Conclusion) → (Memᴰ cancelled cs → ⊥) → any (conclusion_eq cancelled) cs ≡ false
no_cancelled cs h = elim (Bool-cases (any (conclusion_eq cancelled) cs)) [
  | inl e ↦
      let (c, m, q) = any-mem (conclusion_eq cancelled) cs e in
      absurd (h (subst (λ z. Memᴰ z cs) (sym (conclusion_eq-cancelled c q)) m))
  | inr e ↦ e
]

passes :
    (cs : List Conclusion)
    → run_conclusion cs ≡ success
    → all (λ c. conclusion_eq c success || conclusion_eq c skipped) cs ≡ true
passes cs h = ground arith

-- The conclusion of a run: failure if some job's is, else cancelled if some job's is, and success
-- exactly when every job's is success or skipped.
pub run_conclusion-exact :
    (cs : List Conclusion)
    → (Memᴰ failure cs → run_conclusion cs ≡ failure)
      × (Memᴰ cancelled cs → (Memᴰ failure cs → ⊥) → run_conclusion cs ≡ cancelled)
      × ((run_conclusion cs ≡ success) ↔ All (λ c. (c ≡ success) ⊎ (c ≡ skipped)) cs)
run_conclusion-exact cs = (
  λ m. rw (mem-any (conclusion_eq failure) cs m refl),
  λ m h. rw (no_failure cs h, mem-any (conclusion_eq cancelled) cs m refl),
  (
    λ h.
        All-mono _ (λ c. (c ≡ success) ⊎ (c ≡ skipped)) cs IsPassing_of_true
          (all-All _ cs (passes cs h)),
    λ h. rw (
      no_failure cs (λ m. elim (All-elim (λ c. (c ≡ success) ⊎ (c ≡ skipped)) cs h m) [
        | inl e ↦ cc
        | inr e ↦ cc
      ]),
      no_cancelled cs (λ m. elim (All-elim (λ c. (c ≡ success) ⊎ (c ≡ skipped)) cs h m) [
        | inl e ↦ cc
        | inr e ↦ cc
      ]),
      All-all (λ c. conclusion_eq c success || conclusion_eq c skipped) cs
          (All-mono (λ c. (c ≡ success) ⊎ (c ≡ skipped)) _ cs true_of_IsPassing h),
    ),
  ),
)

-- A job that does not run to completion on its own.
cancelled_row : ℕ → ℕ → Job → Job
cancelled_row now run j = if j.run_id == run && is_active j then cancel_job now j else j

-- What a cancellation makes of a row.
pub record Cancelled (run : ℕ) (a b : Job) : Type 0 where
  pub stopped : a.run_id ≡ run → b.status ≡ completed
  pub marked : a.run_id ≡ run → a.status ≢ completed → b.conclusion ≡ some cancelled
  pub kept : (a.run_id ≢ run) ⊎ (a.status ≡ completed) → b ≡ a

cancelled_row-Cancelled : (now run : ℕ) (a : Job) → Cancelled run a (cancelled_row now run a)
unfolding cancelled_row cancel_job
cancelled_row-Cancelled now run a = ground arith

proceeds :
    (r : Run)
    → (r.status ≢ completed) ⊎ (r.conclusion ≡ some cancelled)
    → (status_eq r.status completed
        && not (elim r.conclusion [ none ↦ false | some c ↦ conclusion_eq c cancelled ]))
      ≡ false
proceeds r h = ground arith

-- Cancelling a run that is not over, or that was cancelled: every job of it is completed, those
-- that were not have the conclusion cancelled, all other rows are unchanged, and the run's row is
-- completed with the conclusion cancelled.
pub cancel-exact :
    (now run : ℕ) (db : Db) (r : Run)
    → find_run db.runs run ≡ some r
    → (r.status ≢ completed) ⊎ (r.conclusion ≡ some cancelled)
    → let db' = cancel_workflow_run now run db in
      Rel (Cancelled run) db.jobs db'.jobs
      × (find_run db'.runs run
          ≡ some (record r { status = completed; conclusion = some cancelled }))
unfolding cancel_workflow_run cancelled_row
cancel-exact now run db r found h =
    let goes = proceeds r h in
    rw (found, cancel_workflow_run, goes)
      (
        Rel-map (Cancelled run) (cancelled_row now run) db.jobs (cancelled_row-Cancelled now run),
        find_run-assign run _ db.runs r (λ s. refl) found,
      )
