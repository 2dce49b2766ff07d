-- ===== src/Lifecycle/Runners.antt =====
-- The runner routes change every row lawfully.
use mathlib.Core.List.{Memᴰ}
use github_emulator.Prelude.{
  nat_eq, string_eq, ℕ, String, ◌≡◌, ◌≢◌, ◌⊎◌, refl, sym, ap, ◌∙◌, subst, Bool, true, not, ◌&&◌,
  Bool-cases, Option, none, some, List, [], ◌∷◌, map, ◌==◌, inl, inr, if◌then◌else◌, if_cases,
  arith, beq_eq,
}
use github_emulator.Prelude.Rows.{Rel, Rel-map, Rel-map_mem, Rel-mono, Rel-trans}
use github_emulator.Jobs.{
  Status, Job, Run, Db, waiting, queued, in_progress, completed, status_eq, assign,
}
use github_emulator.Scheduler.Dispatch.{Workflows, dispatch_ready_jobs}
use github_emulator.Scheduler.Turns.{UniqueIds}
use github_emulator.Scheduler.Loop.{UniqueIds-eq}
use github_emulator.LostRunners.Lose.{
  runs_now, requeue, fail_job, lose_job, is_held, release_row, release_held_jobs, is_abandoned,
  is_unacknowledged, requeue_stale_row, requeue_stale_rows, has_started, holds,
}
use github_emulator.RunnerJobs.Store.{Runner, Store, advance, conclude_runs}
use github_emulator.RunnerJobs.Claim.{
  is_offered, find_offer, take, claim_job, is_subset, job_labels,
}
use github_emulator.RunnerJobs.Report.{find_held}
use github_emulator.Lifecycle.Machine.{
  Phase, Turn, Next, phase_of, running, claimed, requeued, ready,
}
use github_emulator.Lifecycle.Rows.{
  Change, Lawful, Stepped, Stepped-of, Lawful-refl, Lawful-trans, Lawful-end, Change-unique,
}
use github_emulator.Lifecycle.Scheduled.{Lawful-rows, dispatch-Lawful, completion-Lawful}
use github_emulator.Prelude.Text.{Text}

apart : in_progress ≡ completed → ⊥
apart e = cc

queued_apart : queued ≡ completed → ⊥
queued_apart e = cc

not_free : (in_progress ≡ waiting) ⊎ (in_progress ≡ queued) → ⊥
not_free (inl e) = cc
not_free (inr e) = cc

queued_status : (s : Status) → status_eq s queued ≡ true → s ≡ queued
queued_status waiting h = cc
queued_status queued h = refl
queued_status in_progress h = cc
queued_status completed h = cc

running_open : (s : Status) → runs_now s ≡ true → s ≡ in_progress
running_open waiting h = cc
running_open queued h = cc
running_open in_progress h = refl
running_open completed h = cc

back :
    (s : Status) (r : Option ℕ)
    → s ≡ in_progress
    → (s ≡ in_progress → r ≢ none)
    → Turn (phase_of s r) ready
back s none e h = absurd (h e refl)
back s (some r) e h = subst (λ t. Turn (phase_of t (some r)) ready) (sym e) (requeued r)

-- A job in progress may go back to the queue, without its runner.
Lawful-requeue : (a : Job) → a.status ≡ in_progress → Lawful a (requeue a)
unfolding requeue
Lawful-requeue a e = record {
  same_id = refl;
  same_run = refl;
  orderly = λ h. record {
    open_job = λ n. h.open_job (λ z. apart (sym e ∙ z));
    over = λ z. cc;
    held = λ z. cc;
    free = λ z. refl;
  };
  follows = λ h. back a.status a.runner_id e h.held;
  stays_cancelled = λ h. absurd (apart (sym e ∙ h.0));
}

-- A queued job may be taken by a runner.
Lawful-take :
    (now : ℕ) (runner : Runner) (a : Job) → a.status ≡ queued → Stepped a (take now runner a)
unfolding take
Lawful-take now runner a e = record {
  same_id = refl;
  same_run = refl;
  orderly = λ h. record {
    open_job = λ n. h.open_job (λ z. queued_apart (sym e ∙ z));
    over = λ z. cc;
    held = λ z. λ q. cc;
    free = λ z. absurd (not_free z);
  };
  follows = λ h.
      subst (λ t. Next (phase_of t a.runner_id) (running runner.id)) (sym e) (claimed runner.id);
  stays_cancelled = λ h. absurd (queued_apart (sym e ∙ h.0));
}

Lawful-lose :
    (isoformat : ℕ → String) (now : ℕ) (a : Job)
    → a.status ≡ in_progress
    → Lawful a (lose_job isoformat now a).0
unfolding lose_job fail_job
Lawful-lose isoformat now a e =
    if_cases (λ (r : Job × Bool). Lawful a r.0) (not (has_started a.steps))
      (λ s. Lawful-requeue a e)
      (λ s. Lawful-end a _ refl refl (λ z. apart (sym e ∙ z)) refl (λ z. cc))

held_running : (runner : ℕ) (a : Job) → is_held runner a ≡ true → a.status ≡ in_progress
held_running runner a h = running_open a.status (ground arith)

pub release-Lawful :
    (isoformat : ℕ → String) (now runner : ℕ) (jobs : List Job)
    → Rel Lawful jobs (release_held_jobs isoformat now runner jobs).0
unfolding release_held_jobs release_row
release-Lawful isoformat now runner jobs = Rel-map Lawful _ jobs (λ (j : Job).
    if_cases (Lawful j) (is_held runner j)
      (λ e. Lawful-lose isoformat now j (held_running runner j e)) (λ e. Lawful-refl j))

abandoned_running :
    (beat : ℕ → Option ℕ) (cutoff : ℕ) (a : Job)
    → is_abandoned beat cutoff a ≡ true
    → a.status ≡ in_progress
abandoned_running beat cutoff a h = running_open a.status (ground arith)

unacknowledged_running :
    (cutoff : ℕ) (a : Job) → is_unacknowledged cutoff a ≡ true → a.status ≡ in_progress
unacknowledged_running cutoff a h = running_open a.status (ground arith)

pub stale-Lawful :
    (isoformat : ℕ → String) (now : ℕ) (beat : ℕ → Option ℕ) (cutoff ack_cutoff : ℕ)
    (jobs : List Job)
    → Rel Lawful jobs (requeue_stale_rows isoformat now beat cutoff ack_cutoff jobs)
unfolding requeue_stale_rows requeue_stale_row
stale-Lawful isoformat now beat cutoff ack_cutoff jobs = Rel-map Lawful _ jobs (λ (j : Job).
    let settled : Job = if is_abandoned beat cutoff j then (lose_job isoformat now j).0 else j in
    let first : Lawful j settled =
      if_cases (Lawful j) (is_abandoned beat cutoff j)
        (λ e. Lawful-lose isoformat now j (abandoned_running beat cutoff j e))
        (λ e. Lawful-refl j) in
    if_cases (Lawful j) (is_unacknowledged ack_cutoff settled)
      (λ e.
        Lawful-trans j settled (requeue settled) first
          (Lawful-requeue settled (unacknowledged_running ack_cutoff settled e)))
      (λ e. first))

pub advance-Lawful :
    (w : Workflows) (now run : ℕ) (db : Db)
    → UniqueIds db.jobs
    → Rel Lawful db.jobs (advance w now run db).jobs
unfolding advance
advance-Lawful w now run db unique =
    Rel-trans Lawful Lawful Lawful Lawful-trans _ _ _ (dispatch-Lawful w now run db unique)
      (completion-Lawful now run (dispatch_ready_jobs w now run db).0)

pub conclude_runs-Lawful :
    (w : Workflows) (now : ℕ) (runs : List ℕ) (db : Db)
    → UniqueIds db.jobs
    → Rel Lawful db.jobs (conclude_runs w now runs db).jobs
unfolding conclude_runs
conclude_runs-Lawful w now [] db unique = Lawful-rows db.jobs
conclude_runs-Lawful w now (run ∷ runs) db unique =
    let first = advance-Lawful w now run db unique in
    Rel-trans Lawful Lawful Lawful Lawful-trans _ _ _ first
      (conclude_runs-Lawful w now runs (advance w now run db) (Change-unique Turn _ _ first unique))

-- A row that is found by its id is the one that is assigned to.
pub assign-Change :
    (R : Phase → Phase → Type 0)
    → ((a : Job) → Change R a a)
    → (change : Job → Job) (j : Job) (jobs : List Job) → UniqueIds jobs
    → Memᴰ j jobs
    → Change R j (change j)
    → Rel (Change R) jobs (map (assign j.id change) jobs)
assign-Change R keep change j jobs unique m h =
    Rel-map_mem (Change R) (assign j.id change) jobs (λ (k : Job) n.
      if_cases (Change R k) (k.id == j.id)
        (λ e.
          subst (λ (x : Job). Change R x (change x))
            (UniqueIds-eq jobs j k unique m n (sym (beq_eq k.id j.id e))) h)
        (λ e. keep k))

offered :
    (repository : Option ℕ) (labels : List Text) (runs : List Run) (jobs : List Job) (j : Job)
    → find_offer repository labels runs jobs ≡ some j
    → Memᴰ j jobs × (j.status ≡ queued)
offered repository labels runs [] j h = cc
offered repository labels runs (k ∷ jobs) j h =
    elim (Bool-cases (is_offered repository runs k && is_subset (job_labels k) labels)) [
      | inl e ↦
          let q : some k ≡ some j =
            sym (ap (λ b. if b then some k else find_offer repository labels runs jobs) e) ∙ h in
          let p : j ≡ k = cc in
          (
            Memᴰ.head p,
            subst (λ (x : Job). x.status ≡ queued) (sym p) (queued_status k.status (ground arith)),
          )
      | inr e ↦
          let r =
            offered repository labels runs jobs j (
              sym (ap (λ b. if b then some k else find_offer repository labels runs jobs) e) ∙ h) in
          (Memᴰ.tail r.0, r.1)
    ]

-- The claim of an offered job.
pub claim-Stepped :
    (now : ℕ) (runner : Runner) (repository : Option ℕ) (labels : List Text) (s : Store)
    (o : Option Job)
    → find_offer repository labels s.db.runs s.db.jobs ≡ o
    → UniqueIds s.db.jobs
    → Rel Stepped s.db.jobs (claim_job now runner o s).db.jobs
unfolding claim_job
claim-Stepped now runner repository labels s none h unique =
    Rel-mono Lawful Stepped Stepped-of _ _ (Lawful-rows s.db.jobs)
claim-Stepped now runner repository labels s (some j) h unique =
    let r = offered repository labels s.db.runs s.db.jobs j h in
    assign-Change Next (λ a. Stepped-of a a (Lawful-refl a)) (take now runner) j s.db.jobs unique
      r.0 (Lawful-take now runner j r.1)

pub held :
    (id runner : ℕ) (jobs : List Job) (j : Job)
    → find_held id runner jobs ≡ some j
    → Memᴰ j jobs × (holds j.runner_id runner ≡ true)
held id runner [] j h = cc
held id runner (k ∷ jobs) j h = elim (Bool-cases (k.id == id && holds k.runner_id runner)) [
  | inl e ↦
      let q : some k ≡ some j =
        sym (ap (λ b. if b then some k else find_held id runner jobs) e) ∙ h in
      let p : j ≡ k = cc in
      (Memᴰ.head p, subst (λ (x : Job). holds x.runner_id runner ≡ true) (sym p) (ground arith))
  | inr e ↦
      let r =
        held id runner jobs j
          (sym (ap (λ b. if b then some k else find_held id runner jobs) e) ∙ h) in
      (Memᴰ.tail r.0, r.1)
]
