-- ===== src/LostRunners/Lose.antt =====
-- `_requeue`, `_lose_job`, `_release_held_jobs` and the two passes of `_requeue_stale_jobs` over
-- the rows. The form in which Python prints a time is an argument.
use github_emulator.Prelude.{
  ℕ, String, Bool, true, false, not, ◌&&◌, Option, none, some, List, [], ◌∷◌, map, ◌==◌, ltb,
  nat_eq, string_eq, if◌then◌else◌,
}
use github_emulator.Prelude.Lists.{any}
use github_emulator.Value.{str, put}
use github_emulator.Jobs.{Job, Step, Status, queued, in_progress, completed, failure}

abbrev pub runs_now : Status → Bool
runs_now in_progress = true
runs_now _ = false

-- step.get("status") in (None, "queued")
abbrev pub is_pending : Option String → Bool
is_pending none = true
is_pending (some s) = s == "queued"

abbrev pub is_running : Option String → Bool
is_running none = false
is_running (some s) = s == "in_progress"

-- any(step.get("status") not in (None, "queued") for step in steps)
abbrev pub has_started : List Step → Bool
has_started = any (λ (s : Step). not (is_pending s.status))

abbrev pub requeue_step : Step → Step
requeue_step s = record s { status = some "queued"; conclusion = none }

unfoldable pub requeue : Job → Job
requeue job = record job {
  status = queued;
  runner_id = none;
  runner_name = none;
  started_at = none;
  steps = map requeue_step job.steps;
}

abbrev lost_message : String
lost_message =
    "The self-hosted runner lost communication with the server. Verify the machine is running and has a healthy network connection. Anything in your workflow that terminates the runner process, starves it for CPU or memory, or blocks its network access can cause this error."

abbrev pub holds : Option ℕ → ℕ → Bool
holds none runner = false
holds (some r) runner = r == runner

abbrev pub is_held : ℕ → Job → Bool
is_held runner job = holds job.runner_id runner && runs_now job.status

-- A sorted list without repetition: sorted({…})
abbrev pub insert : ℕ → List ℕ → List ℕ
insert n [] = n ∷ []
insert n (m ∷ ms) =
    let rest = insert n ms in if n == m then m ∷ ms else if ltb n m then n ∷ m ∷ ms else m ∷ rest

abbrev pub before_cutoff : ℕ → Option ℕ → Bool
before_cutoff cutoff none = false
before_cutoff cutoff (some t) = ltb t cutoff

abbrev pub is_silent : (ℕ → Option ℕ) → ℕ → Option ℕ → Bool
is_silent heartbeat cutoff none = false
is_silent heartbeat cutoff (some r) = before_cutoff cutoff (heartbeat r)

-- The runner of the job has stopped: `heartbeat` is its last one.
abbrev pub is_abandoned : (ℕ → Option ℕ) → ℕ → Job → Bool
is_abandoned heartbeat cutoff job = runs_now job.status && is_silent heartbeat cutoff job.runner_id

-- A claim that the runner never acted on.
abbrev pub is_unacknowledged : ℕ → Job → Bool
is_unacknowledged cutoff job =
    runs_now job.status && before_cutoff cutoff job.started_at && not (has_started job.steps)

module _ (isoformat : ℕ → String) (now : ℕ) where
  unfoldable pub lose_step : Step → Step
  lose_step s =
      if is_running s.status
      then record s {
        status = some "completed";
        conclusion = some "failure";
        message = some lost_message;
        fields = put s.fields "completed_at" (str (isoformat now));
      }
      else if is_pending s.status
      then record s { status = some "completed"; conclusion = some "skipped" }
      else s

  unfoldable pub fail_job : Job → Job
  unfolding lose_step
  fail_job job = record job {
    steps = map lose_step job.steps;
    status = completed;
    conclusion = some failure;
    completed_at = some now;
  }

  -- The job, and whether it was failed.
  unfoldable pub lose_job : Job → Job × Bool
  unfolding requeue fail_job
  lose_job job = if not (has_started job.steps) then (requeue job, false) else (fail_job job, true)

  unfoldable pub release_row : ℕ → Job → Job
  unfolding lose_job
  release_row runner job = if is_held runner job then (lose_job job).0 else job

  unfoldable pub lost_runs : ℕ → List Job → List ℕ
  unfolding lose_job
  lost_runs runner [] = []
  lost_runs runner (job ∷ jobs) =
      let rest = lost_runs runner jobs in
      if is_held runner job && (lose_job job).1 then insert job.run_id rest else rest

  -- The table afterwards, and the runs that now need concluding.
  unfoldable pub release_held_jobs : ℕ → List Job → List Job × List ℕ
  unfolding release_row lost_runs
  release_held_jobs runner jobs = (map (release_row runner) jobs, lost_runs runner jobs)

  unfoldable pub requeue_stale_row : (ℕ → Option ℕ) → ℕ → ℕ → Job → Job
  unfolding lose_job requeue
  requeue_stale_row heartbeat cutoff ack_cutoff job =
      let settled = if is_abandoned heartbeat cutoff job then (lose_job job).0 else job in
      if is_unacknowledged ack_cutoff settled then requeue settled else settled

  unfoldable pub requeue_stale_rows : (ℕ → Option ℕ) → ℕ → ℕ → List Job → List Job
  unfolding requeue_stale_row
  requeue_stale_rows heartbeat cutoff ack_cutoff =
      map (requeue_stale_row heartbeat cutoff ack_cutoff)
