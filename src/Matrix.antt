-- ===== src/Matrix.antt =====
-- src/app/services/workflow_service.py: the jobs of a matrix.
pub mod Expand
pub mod Chosen
pub mod Combinations
pub mod Bounds
mod Examples
