-- ===== src/MergeReadiness.antt =====
-- src/app/services/merge_readiness_service.py: whether a pull request may merge.
pub mod Rows
pub mod Repository
pub mod Checks
pub mod Reviews
pub mod Evaluate
pub mod Soundness
pub mod Requirements
pub mod Approvals
mod Examples
