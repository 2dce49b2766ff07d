-- ===== src/Lifecycle/Reports.antt =====
-- A runner's report changes every row lawfully, where the conclusion that it names is not null.
use mathlib.Core.List.{Memᴰ}
use github_emulator.Prelude.{
  nat_eq, string_eq, ℕ, ◌≡◌, ◌≢◌, ◌⊎◌, refl, sym, subst, Bool, true, false, Option, none, some, inl,
  inr, if_cases, arith,
}
use github_emulator.Prelude.Rows.{Rel, Rel-trans}
use github_emulator.Value.{Fields}
use github_emulator.Jobs.{Status, Job, completed, Conclusion, success, assign, update_jobs}
use github_emulator.Scheduler.Dispatch.{Workflows}
use github_emulator.Scheduler.Turns.{UniqueIds}
use github_emulator.RunnerJobs.Store.{Store}
use github_emulator.RunnerJobs.Report.{
  Report, find_held, is_cancelled, finish, finish_job, or_kept, progress_of, update_job_progress,
  complete_held, complete_job,
}
use github_emulator.Lifecycle.Machine.{Turn, stay, phase_of}
use github_emulator.Lifecycle.Rows.{
  IsCancelled, InOrder-ended, Lawful, Lawful-refl, Lawful-trans, Lawful-end, Lawful-same,
  Change-unique,
}
use github_emulator.Lifecycle.Scheduled.{Lawful-rows}
use github_emulator.Lifecycle.Runners.{assign-Change, held, advance-Lawful}

reported : (c : Option (Option Conclusion)) → c ≢ some none → or_kept c (some success) ≢ none
reported none n e = cc
reported (some none) n e = n refl
reported (some (some c)) n e = cc

over_or : (s : Status) → (s ≡ completed) ⊎ (s ≢ completed)
over_or s = ground arith

is_cancelled-lem : (a : Job) → IsCancelled a → is_cancelled a ≡ true
is_cancelled-lem a h = ground arith

different : (b : Bool) → b ≡ true → b ≡ false → ⊥
different b h k = cc

Lawful-finish :
    (resolve : Fields → Fields → Fields) (now : ℕ) (body : Report) (a : Job)
    → body.conclusion ≢ some none
    → is_cancelled a ≡ false
    → Lawful a (finish resolve now body a)
unfolding finish
Lawful-finish resolve now body a n k = elim (over_or a.status) [
  | inr s ↦ Lawful-end a _ refl refl s refl (reported body.conclusion n)
  | inl s ↦ record {
    same_id = refl;
    same_run = refl;
    orderly = λ h. InOrder-ended _ refl (reported body.conclusion n);
    follows = λ h.
        subst (λ t. Turn (phase_of t a.runner_id) (phase_of completed a.runner_id)) (sym s) stay;
    stays_cancelled = λ h. absurd (different _ (is_cancelled-lem a h) k);
  }
]

some-eq : {a b : Store} → some a ≡ some b → a ≡ b
some-eq h = cc

progress_of-Lawful :
    (id runner : ℕ) (body : Report) (s t : Store) (o : Option Job)
    → find_held id runner s.db.jobs ≡ o
    → UniqueIds s.db.jobs
    → progress_of body o s ≡ some t
    → Rel Lawful s.db.jobs t.db.jobs
progress_of-Lawful id runner body s t none h unique e = cc
progress_of-Lawful id runner body s t (some j) h unique e =
    subst (λ (x : Store). Rel Lawful s.db.jobs x.db.jobs) (some-eq e)
      (assign-Change Turn Lawful-refl (λ k. record k { steps = or_kept body.steps k.steps }) j
        s.db.jobs unique (held id runner s.db.jobs j h).0
        (Lawful-same j _ refl refl refl refl refl))

pub progress-Lawful :
    (id runner : ℕ) (body : Report) (s t : Store)
    → UniqueIds s.db.jobs
    → update_job_progress id runner body s ≡ some t
    → Rel Lawful s.db.jobs t.db.jobs
unfolding update_job_progress
progress-Lawful id runner body s t =
    progress_of-Lawful id runner body s t (find_held id runner s.db.jobs) refl

module _ (resolve : Fields → Fields → Fields) (w : Workflows) (now : ℕ) where
  finish_job-Lawful :
      (runner : ℕ) (body : Report) (j : Job) (s : Store)
      → body.conclusion ≢ some none
      → is_cancelled j ≡ false
      → Memᴰ j s.db.jobs
      → UniqueIds s.db.jobs
      → Rel Lawful s.db.jobs (finish_job resolve w now runner body j s).db.jobs
  unfolding finish_job
  finish_job-Lawful runner body j s n k m unique =
      let first =
        assign-Change Turn Lawful-refl (finish resolve now body) j s.db.jobs unique m
          (Lawful-finish resolve now body j n k) in
      Rel-trans Lawful Lawful Lawful Lawful-trans _ _ _ first (
        advance-Lawful w now j.run_id (update_jobs s.db (assign j.id (finish resolve now body)))
          (Change-unique Turn _ _ first unique))

  complete_held-Lawful :
      (id runner : ℕ) (body : Report) (s t : Store) (o : Option Job)
      → body.conclusion ≢ some none
      → find_held id runner s.db.jobs ≡ o
      → UniqueIds s.db.jobs
      → complete_held resolve w now runner body o s ≡ some t
      → Rel Lawful s.db.jobs t.db.jobs
  unfolding complete_held
  complete_held-Lawful id runner body s t none n h unique e = cc
  complete_held-Lawful id runner body s t (some j) n h unique e =
      subst (λ (x : Store). Rel Lawful s.db.jobs x.db.jobs) (some-eq e)
        (if_cases (λ (x : Store). Rel Lawful s.db.jobs x.db.jobs) (is_cancelled j)
          (λ k. Lawful-rows s.db.jobs)
          (λ k. finish_job-Lawful runner body j s n k (held id runner s.db.jobs j h).0 unique))

  pub complete-Lawful :
      (id runner : ℕ) (body : Report) (s t : Store)
      → body.conclusion ≢ some none
      → UniqueIds s.db.jobs
      → complete_job resolve w now id runner body s ≡ some t
      → Rel Lawful s.db.jobs t.db.jobs
  unfolding complete_job
  complete-Lawful id runner body s t n =
      complete_held-Lawful id runner body s t (find_held id runner s.db.jobs) n refl
