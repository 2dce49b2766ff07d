-- ===== src/Lifecycle.antt =====
-- The life of a workflow job across the scheduler (src/app/services/workflow_scheduler.py) and the
-- runner routes (src/app/api/actions_dispatch.py): an abstract machine, and every operation as a
-- step that follows it.
pub mod Machine
pub mod Rows
pub mod Scheduled
pub mod Runners
pub mod Reports
pub mod Steps
pub mod Invariants
mod Examples
