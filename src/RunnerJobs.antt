-- ===== src/RunnerJobs.antt =====
-- src/app/api/actions_dispatch.py: how runners claim jobs and report on them.
pub mod Store
pub mod Claim
pub mod Report
