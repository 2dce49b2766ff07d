-- ===== src/LostRunners/Released.antt =====
-- No job is left with a runner that is gone, and no failed job with a step under way.
use github_emulator.Prelude.{
  ℕ, String, ◌≡◌, ◌⊎◌, refl, Bool, true, false, not, ◌&&◌, none, some, List, [], ◌∷◌, map, nat_eq,
  string_eq, inl, inr, if_cases, arith,
}
use github_emulator.Prelude.Rows.{All, Rel, Rel-map}
use github_emulator.Jobs.{Job, Step, queued, completed, failure}
use github_emulator.LostRunners.Lose.{
  is_pending, is_running, has_started, requeue_step, requeue, lose_step, fail_job, lose_job,
  is_held, release_row, release_held_jobs,
}

-- The step is neither queued nor under way.
abbrev pub is_over : Step → Bool
is_over s = not (is_pending s.status) && not (is_running s.status)

none_started : (ss : List Step) → has_started (map requeue_step ss) ≡ false
none_started [] = refl
none_started (s ∷ ss) = none_started ss

module _ (isoformat : ℕ → String) (now : ℕ) where
  step_over : (s : Step) → is_over (lose_step isoformat now s) ≡ true
  unfolding lose_step
  step_over s =
      if_cases (λ (x : Step). is_over x ≡ true) (is_running s.status) (λ e. refl)
        (λ e.
          if_cases (λ (x : Step). is_over x ≡ true) (is_pending s.status) (λ f. refl)
            (λ f. ground arith))

  steps_over : (ss : List Step) → All (λ s. is_over s ≡ true) (map (lose_step isoformat now) ss)
  steps_over [] = tt
  steps_over (s ∷ ss) = (step_over s, steps_over ss)

  -- The job is back in the queue with no runner and none of its steps started, or it has failed
  -- with every step over.
  abbrev pub Settled : Job → Job → Type 0
  Settled before after =
      (has_started before.steps ≡ false)
        × (after.status ≡ queued)
        × (after.runner_id ≡ none)
        × (has_started after.steps ≡ false)
      ⊎ (has_started before.steps ≡ true)
        × (after.status ≡ completed)
        × (after.conclusion ≡ some failure)
        × All (λ s. is_over s ≡ true) after.steps

  -- A row that the runner held is settled, any other is as it was.
  abbrev pub Released : ℕ → Job → Job → Type 0
  Released runner before after =
      (is_held runner before ≡ true) × Settled before after
      ⊎ (is_held runner before ≡ false) × (after ≡ before)

  requeued_steps : (job : Job) → has_started (requeue job).steps ≡ false
  unfolding requeue
  requeued_steps job = none_started job.steps

  lose_job-Settled : (job : Job) → Settled job (lose_job isoformat now job).0
  unfolding lose_job requeue fail_job
  lose_job-Settled job =
      if_cases (λ (r : Job × Bool). Settled job r.0) (not (has_started job.steps))
        (λ e. inl (ground arith, refl, refl, requeued_steps job))
        (λ e. inr (ground arith, refl, refl, steps_over job.steps))

  release_row-Released :
      (runner : ℕ) (job : Job) → Released runner job (release_row isoformat now runner job)
  unfolding release_row
  release_row-Released runner job =
      if_cases (Released runner job) (is_held runner job) (λ e. inl (e, lose_job-Settled job))
        (λ e. inr (e, refl))

  -- After _release_held_jobs every job that the runner held and that was in progress is back in
  -- the queue with no runner, where none of its steps had started, or has failed with every step
  -- over, where one had; all other rows are unchanged.
  pub release_held_jobs-Released :
      (runner : ℕ) (jobs : List Job)
      → Rel (Released runner) jobs (release_held_jobs isoformat now runner jobs).0
  unfolding release_held_jobs
  release_held_jobs-Released runner jobs =
      Rel-map (Released runner) (release_row isoformat now runner) jobs
        (release_row-Released runner)
