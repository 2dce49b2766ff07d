-- ===== src/Triggers.antt =====
-- src/app/services/workflow_triggers.py: whether an event starts a workflow.
pub mod Config
pub mod Match
pub mod Asked
pub mod Filters
mod Examples
