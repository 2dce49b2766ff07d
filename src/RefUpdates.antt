-- ===== src/RefUpdates.antt =====
-- src/app/services/ref_update_service.py: updates of several refs, all or none.
pub mod Plan
pub mod Apply
pub mod Lines
pub mod Checked
pub mod Atomic
pub mod Planned
mod Examples
