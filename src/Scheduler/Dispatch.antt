-- ===== src/Scheduler/Dispatch.antt =====
-- src/app/services/workflow_scheduler.py: `dispatch_ready_jobs` and `_supersede_for_concurrency`. A
-- function that mutates loaded rows returns the new store; `now` is the clock that `datetime.now`
-- reads; a `flush` changes nothing that is modelled. The context of the run is built before the
-- loop over the ready jobs, not at its first use: the loop completes no job in between.
use github_emulator.Prelude.{
  nat_eq, string_eq, ℕ, String, Bool, true, false, not, ◌&&◌, ◌||◌, Option, none, some, List, [],
  ◌∷◌, map, ◌==◌, if◌then◌else◌,
}
use github_emulator.Prelude.Lists.{any, all, filter}
use github_emulator.Value.{Value, Fields, Items, field, end, str, dict, get, put, merge, is_empty}
use github_emulator.Jobs.{
  Step, PendingRender, Job, Run, Db, waiting, queued, in_progress, completed, success, failure,
  cancelled, skipped, key, status_eq, concluded, assign, update_jobs,
}

-- What the scheduler calls in workflow_service.py and workflow_expressions.py, taken where it
-- returns. An error that one of them lets through, such as the TypeError of a condition that calls
-- contains() with a number, aborts `dispatch_ready_jobs`, and is not modelled here.
pub record Workflows : Type 0 where
  pub build_run_expression_context : Run → Fields
  pub build_needs_context : List Job → Fields
  pub render_expressions : Fields → Fields → Fields
  pub evaluate_job_if : Value → Fields → Bool
  pub build_steps_data : Items → Fields → Fields → List Step

abbrev pub jobs_of : Db → ℕ → List Job
jobs_of db run = filter (λ job. job.run_id == run) db.jobs

abbrev pub succeeded : Job → Bool
succeeded j = status_eq j.status completed && concluded j success

-- {job.job_key or job.name for the jobs that completed with success}
abbrev pub completed_keys : List Job → List String
completed_keys jobs = map key (filter succeeded jobs)

abbrev pub is_unsuccessful : Job → Bool
is_unsuccessful j =
    status_eq j.status completed
    && not (concluded j success)
    && (concluded j failure || concluded j cancelled || concluded j skipped)

abbrev pub unsuccessful_keys : List Job → List String
unsuccessful_keys jobs = map key (filter is_unsuccessful jobs)

abbrev pub contains : List String → String → Bool
contains keys k = any (λ j. j == k) keys

-- {**step, "status": "completed", "conclusion": "skipped"}
abbrev pub skip_step : Step → Step
skip_step step = record step { status = some "completed"; conclusion = some "skipped" }

unfoldable pub skip_job : ℕ → Job → Job
skip_job now job = record job {
  status = completed;
  conclusion = some skipped;
  completed_at = some now;
  steps = map skip_step job.steps;
}

-- The jobs whose dependencies failed are skipped, in the store's order.
abbrev pub must_skip : ℕ → List Job → Job → Bool
must_skip run all_jobs job =
    job.run_id == run
    && status_eq job.status waiting
    && any (contains (unsuccessful_keys all_jobs)) job.needs

-- Of the others that wait, those with every dependency met.
abbrev pub is_ready : List Job → Job → Bool
is_ready all_jobs job =
    status_eq job.status waiting
    && not (any (contains (unsuccessful_keys all_jobs)) job.needs)
    && all (contains (completed_keys all_jobs)) job.needs

-- The first loop: skips what can never run, and collects what is ready.
unfoldable pub skip_blocked : ℕ → ℕ → Db → Db
unfolding skip_job
skip_blocked now run db =
    update_jobs db (λ job. if must_skip run (jobs_of db run) job then skip_job now job else job)

unfoldable pub ready_jobs : ℕ → Db → List Job
ready_jobs run db = filter (is_ready (jobs_of db run)) (jobs_of db run)

-- `SELECT … WHERE concurrency_group = … AND run_id != … AND id != … AND status IN (…)`
abbrev pub superseded_by : Job → String → Job → Bool
superseded_by job group previous =
    elim previous.concurrency_group [ none ↦ false | some g ↦ g == group ]
    && not (previous.run_id == job.run_id)
    && not (previous.id == job.id)
    && (status_eq previous.status queued || status_eq previous.status in_progress)

unfoldable pub cancel_job : ℕ → Job → Job
cancel_job now job = record job {
  status = completed;
  conclusion = some cancelled;
  completed_at = some now;
}

unfoldable pub supersede_for_concurrency : ℕ → Job → String → Db → Db
supersede_for_concurrency now job group db =
    update_jobs db
      (λ previous. if superseded_by job group previous then cancel_job now previous else previous)

-- if job.concurrency_group: await _supersede_for_concurrency(db, job)
unfoldable pub supersede_group : ℕ → Job → Option String → Db → Db
supersede_group now job none db = db
supersede_group now job (some g) db = if g == "" then db else supersede_for_concurrency now job g db

abbrev pub enqueue : Job → Job
enqueue job = record job { status = queued }

-- job.status = "queued", after the superseding
unfoldable pub promote : ℕ → Job → Db → Db
promote now job db =
    update_jobs (supersede_group now job job.concurrency_group db) (assign job.id enqueue)

abbrev pub find_run : List Run → ℕ → Option Run
find_run [] id = none
find_run (r ∷ rs) id = if r.id == id then some r else find_run rs id

abbrev dict_or : Option Value → Fields
dict_or (some (dict d)) = d
dict_or _ = end

abbrev str_or : Option Value → String
str_or (some (str s)) = s
str_or _ = ""

-- What is done to a job whose condition is false.
abbrev pub skip_pending : ℕ → Job → Job
skip_pending now j = record (skip_job now j) { pending_render = none }

module _ (w : Workflows) where
  open w use {
    build_run_expression_context, build_needs_context, render_expressions, evaluate_job_if,
    build_steps_data,
  }

  -- The context of one pending job, over the context of its run and of the completed jobs.
  unfoldable pub job_context : Fields → Fields → PendingRender → Fields
  job_context base needs pending =
      let github = dict_or (get base "github") in
      let repository =
        if pending.workflow_repository == ""
        then str_or (get github "repository")
        else pending.workflow_repository in
      let sha =
        if pending.workflow_sha == "" then str_or (get github "sha") else pending.workflow_sha in
      let context = merge base (
        field "needs" (dict needs) (
          field "matrix" (dict pending.matrix) (
            field "job"
              (dict
                (field "workflow_repository" (str repository) (field "workflow_sha" (str sha) end)))
              end))) in
      let with_inputs =
        if is_empty pending.call_inputs
        then context
        else put context "inputs" (
            dict (
              merge (dict_or (get base "inputs"))
                (render_expressions pending.call_inputs context))) in
      if is_empty pending.call_secrets
      then with_inputs
      else put with_inputs "secrets" (
          dict (
            merge (dict_or (get base "secrets"))
              (render_expressions pending.call_secrets with_inputs)))

  -- job.steps = build_steps_data(…); job.pending_render = None
  abbrev pub render_job : Fields → PendingRender → Job → Job
  render_job context pending j = record j {
    steps = build_steps_data pending.steps pending.env context;
    pending_render = none;
  }

  -- One turn of the loop over the ready jobs: the new store, and whether the job was promoted.
  unfoldable pub settle : ℕ → Fields → Fields → Job → Option PendingRender → Db → Db × Bool
  settle now base needs job none db = (promote now job db, true)
  settle now base needs job (some pending) db =
      let context = job_context base needs pending in
      if evaluate_job_if pending.condition context
      then (promote now job (update_jobs db (assign job.id (render_job context pending))), true)
      else (update_jobs db (assign job.id (skip_pending now)), false)

  -- `for job in ready: …`, with the ids of the promoted jobs
  unfoldable pub settle_all : ℕ → Fields → Fields → List Job → Db → Db × List ℕ
  unfolding settle
  settle_all now base needs [] db = (db, [])
  settle_all now base needs (job ∷ ready) db =
      let (db', done) = settle now base needs job job.pending_render db in
      let (db'', promoted) = settle_all now base needs ready db' in
      (db'', if done then job.id ∷ promoted else promoted)

  -- {} where the run has no row
  abbrev pub base_context : ℕ → Db → Fields
  base_context run db = elim (find_run db.runs run) [
    | none ↦ end
    | some r ↦ build_run_expression_context r
  ]

  abbrev pub needs_context : ℕ → Db → Fields
  needs_context run db =
      build_needs_context (filter (λ j. status_eq j.status completed) (jobs_of db run))

  unfoldable pub dispatch_ready_jobs : ℕ → ℕ → Db → Db × List ℕ
  unfolding skip_blocked ready_jobs settle_all
  dispatch_ready_jobs now run db =
      let db' = skip_blocked now run db in
      settle_all now (base_context run db) (needs_context run db') (ready_jobs run db) db'
