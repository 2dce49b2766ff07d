-- ===== src/CallInputs.antt =====
-- src/app/services/workflow_service.py: the inputs of a reusable workflow's call.
pub mod Apply
pub mod Settled
pub mod Resolved
mod Examples
