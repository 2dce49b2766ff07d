-- ===== src/ClosingIssues.antt =====
-- src/app/services/closing_issue_service.py: the issues that a merged pull request closes.
pub mod References
pub mod Close
pub mod Same
pub mod Unique
pub mod Counters
pub mod Counted
mod Examples
