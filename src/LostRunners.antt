-- ===== src/LostRunners.antt =====
-- src/app/api/actions_dispatch.py: what becomes of the jobs of a runner that is gone.
pub mod Lose
pub mod Released
mod Examples
