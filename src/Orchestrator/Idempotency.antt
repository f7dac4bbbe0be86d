-- ===== src/Orchestrator/Idempotency.antt =====
-- idempotency.go
pub mod State
pub mod Invariant
pub mod Steps
pub mod Outcomes
pub mod Retries
pub mod Recovery
mod Examples
