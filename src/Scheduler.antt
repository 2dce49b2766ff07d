-- ===== src/Scheduler.antt =====
-- src/app/services/workflow_scheduler.py: promotion of waiting jobs, superseding by concurrency group,
-- completion and cancellation of a run.
pub mod Dispatch
pub mod Completion
pub mod Rows
pub mod Turns
pub mod Needs
pub mod Loop
pub mod Progress
pub mod Liveness
pub mod Promotion
pub mod Conclusion
pub mod Verdict
mod Examples
