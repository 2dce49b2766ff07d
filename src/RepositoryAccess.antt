-- ===== src/RepositoryAccess.antt =====
-- src/app/services/repository_access.py: who may see a repository, and who may write its contents.
pub mod Rows
pub mod Paths
pub mod Access
pub mod Roles
pub mod Hidden
mod Examples
