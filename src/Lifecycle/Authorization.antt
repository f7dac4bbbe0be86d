-- ===== src/Lifecycle/Authorization.antt =====
-- auth.go and request.go
pub mod Operation
pub mod Request
pub mod Check
pub mod Acceptance
pub mod Signing
pub mod Examples
