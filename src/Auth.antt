-- ===== src/Auth.antt =====
-- compatibility_service/pkg/auth
pub mod Verifier
