-- ===== src/Orchestrator.antt =====
-- compatibility_service/pkg/orchestrator
pub mod Idempotency
pub mod Endorsement
pub mod LedgerRows
pub mod Synchronization
pub mod Initialization
pub mod Finality
pub mod Publication
