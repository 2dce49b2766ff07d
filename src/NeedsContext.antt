-- ===== src/NeedsContext.antt =====
-- src/app/services/workflow_service.py: the `needs` context of a job's expressions.
pub mod Build
pub mod Bare
pub mod Entries
mod Examples
