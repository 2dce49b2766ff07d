-- ===== src/Jobs.antt =====
-- src/app/models/actions.py: the rows of `workflow_jobs` and `workflow_runs`, and the store that
-- the workflow services read and write. A SELECT reads the list in its order; an assignment to a
-- loaded object changes the row with that primary key.
use github_emulator.Prelude.{
  nat_eq, string_eq, ℕ, String, Bool, true, false, Option, none, some, List, map, ◌==◌,
  if◌then◌else◌,
}
use github_emulator.Prelude.Text.{Text}
use github_emulator.Value.{Value, Fields, Items}

-- The values that the program writes to `WorkflowJob.status` and `WorkflowRun.status`.
pub data Status : Type 0 where
  waiting queued in_progress completed : Status

-- `Conclusion.other` is any string that a runner reports and the program does not test for.
pub data Conclusion : Type 0 where
  success failure cancelled skipped : Conclusion
  other : String → Conclusion

-- A step record: the keys that the program writes, and the others as they came.
pub record Step : Type 0 where
  pub status : Option String
  pub conclusion : Option String
  pub message : Option String
  pub fields : Fields

-- `WorkflowJob.pending_render`: the parts of a job that wait for its dependencies.
pub record PendingRender : Type 0 where
  pub condition : Value
  pub steps : Items
  pub env : Fields
  pub matrix : Fields
  pub call_inputs : Fields
  pub call_secrets : Fields
  pub workflow_repository : String
  pub workflow_sha : String

-- `needs` is [] where the column is NULL, which every reader treats alike.
pub record Job : Type 0 where
  pub id : ℕ
  pub run_id : ℕ
  pub name : String
  pub job_key : Option String
  pub status : Status
  pub conclusion : Option Conclusion
  pub completed_at : Option ℕ
  pub steps : List Step
  pub needs : List String
  pub outputs : Fields
  pub concurrency_group : Option String
  pub pending_render : Option PendingRender
  pub runner_id : Option ℕ
  pub runner_name : Option String
  pub started_at : Option ℕ
  pub labels : List Text
  pub outputs_config : Fields

pub record Run : Type 0 where
  pub id : ℕ
  pub repo_id : ℕ
  pub status : Status
  pub conclusion : Option Conclusion

pub record Db : Type 0 where
  pub jobs : List Job
  pub runs : List Run

-- job.job_key or job.name
abbrev pub key : Job → String
key job = elim job.job_key [ none ↦ job.name | some k ↦ if k == "" then job.name else k ]

abbrev pub status_eq : Status → Status → Bool
status_eq waiting waiting = true
status_eq queued queued = true
status_eq in_progress in_progress = true
status_eq completed completed = true
status_eq _ _ = false

abbrev pub conclusion_eq : Conclusion → Conclusion → Bool
conclusion_eq success success = true
conclusion_eq failure failure = true
conclusion_eq cancelled cancelled = true
conclusion_eq skipped skipped = true
conclusion_eq (Conclusion.other a) (Conclusion.other b) = a == b
conclusion_eq _ _ = false

-- job.conclusion == c
abbrev pub concluded : Job → Conclusion → Bool
concluded job c = elim job.conclusion [ none ↦ false | some d ↦ conclusion_eq d c ]

-- The assignments `job.x = …` to the loaded object of row `id`.
abbrev pub assign : ℕ → (Job → Job) → Job → Job
assign id change job = if job.id == id then change job else job

abbrev pub update_jobs : Db → (Job → Job) → Db
update_jobs db change = record db { jobs = map change db.jobs }
