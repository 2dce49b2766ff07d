-- ===== src/Expressions.antt =====
-- src/app/services/workflow_expressions.py: conditions of jobs, read and evaluated.
pub mod Values
pub mod Tokens
pub mod Functions
pub mod Parser
pub mod Evaluate
pub mod Total
pub mod Ended
pub mod Scanned
pub mod Joined
pub mod JoinedTokens
pub mod Conditions
pub mod ConjunctionText
pub mod Combined
pub mod Conjoined
pub mod Ends
pub mod Literals
pub mod LiteralsRead
pub mod Framed
pub mod FramedSteps
mod Examples
