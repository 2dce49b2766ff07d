-- ===== src/Lifecycle/Machine.antt =====
-- The abstract machine of a job: it waits, is queued, runs on a runner, and ends.
use github_emulator.Prelude.{ℕ, Option, none, some}
use github_emulator.Jobs.{Job, Status, waiting, queued, in_progress, completed}

pub data Phase : Type 0 where
  idle : Phase
  ready : Phase
  running : ℕ → Phase
  lost : Phase
  ended : Phase

-- What may become of a job without a runner that takes it.
pub data Turn : Phase → Phase → Type 0 where
  stay : {p : Phase} → Turn p p
  promoted : Turn idle ready
  requeued : (runner : ℕ) → Turn (running runner) ready
  skipped : Turn idle ended
  stopped : Turn ready ended
  finished : (runner : ℕ) → Turn (running runner) ended

pub Turn-trans : {p q r : Phase} → Turn p q → Turn q r → Turn p r
Turn-trans stay n = n
Turn-trans promoted stay = promoted
Turn-trans promoted stopped = skipped
Turn-trans (requeued k) stay = requeued k
Turn-trans (requeued k) stopped = finished k
Turn-trans skipped stay = skipped
Turn-trans stopped stay = stopped
Turn-trans (finished k) stay = finished k

-- One operation of the system: a turn, or a claim of a queued job by a runner.
pub data Next : Phase → Phase → Type 0 where
  turn : {p q : Phase} → Turn p q → Next p q
  claimed : (runner : ℕ) → Next ready (running runner)

abbrev pub on_runner : Option ℕ → Phase
on_runner none = lost
on_runner (some r) = running r

abbrev pub phase_of : Status → Option ℕ → Phase
phase_of waiting r = idle
phase_of queued r = ready
phase_of in_progress r = on_runner r
phase_of completed r = ended

-- What the columns of a row show of the machine; `lost` is a row in progress on no runner.
abbrev pub phase : Job → Phase
phase j = phase_of j.status j.runner_id
