-- ===== src/OrgVariables.antt =====
-- src/app/services/org_variables.py: the variables that a workflow run sees.
pub mod Context
pub mod Precedence
mod Examples
