-- ===== src/Orchestrator/Finality.antt =====
-- What the ordering service and the committer report of a transaction.
pub mod Status
pub mod Reports
pub mod Submitter
pub mod Record
pub mod Recorded
pub mod Passes
pub mod Submission
pub mod Submitted
pub mod Waiting
mod Examples
