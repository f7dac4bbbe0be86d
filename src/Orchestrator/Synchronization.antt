-- ===== src/Orchestrator/Synchronization.antt =====
-- lifecycle_sync.go
pub mod Loop
pub mod Coverage
mod Examples
