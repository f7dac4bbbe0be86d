-- ===== src/Lifecycle/Store.antt =====
-- store.go
pub mod Table
pub mod State
pub mod Operations
pub mod Commits
pub mod Listing
pub mod Revisions
pub mod History
pub mod Lookups
pub mod Activation
pub mod Inclusion
pub mod LedgerUpdate
pub mod Convergence
pub mod Approval
pub mod Initialization
pub mod Resolution
pub mod Examples
