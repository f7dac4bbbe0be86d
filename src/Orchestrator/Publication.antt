-- ===== src/Orchestrator/Publication.antt =====
-- lifecycle_ledger.go
pub mod Preparation
pub mod Pending
pub mod Advance
pub mod Finalize
pub mod Sending
pub mod Outcomes
pub mod Steps
pub mod Methods
pub mod Serving
pub mod Prepared
pub mod Visible
mod Examples
