-- ===== src/Lifecycle.antt =====
-- compatibility_service/pkg/lifecycle
pub mod Definition
pub mod Store
pub mod Authorization
pub mod Ledger
pub mod Package
pub mod Server
