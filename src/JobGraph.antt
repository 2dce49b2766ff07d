-- ===== src/JobGraph.antt =====
-- src/app/services/workflow_service.py: the jobs of a workflow in an order of their dependencies.
pub mod Sort
pub mod Visits
pub mod Loop
pub mod Total
pub mod Listing
pub mod Ordered
pub mod Build
mod Examples
