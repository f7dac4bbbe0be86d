-- ===== src/Lifecycle/Server.antt =====
-- rpc.go
pub mod State
pub mod Handlers
pub mod Mirror
pub mod Propagation
pub mod Publication
pub mod Refusal
pub mod Monotone
pub mod Examples
