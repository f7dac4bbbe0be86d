-- ===== src/Orchestrator/Endorsement.antt =====
-- endorsement_policy.go
pub mod Rules
pub mod Selection
pub mod Soundness
pub mod Termination
mod Examples
