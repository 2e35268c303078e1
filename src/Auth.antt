-- ===== src/Auth.antt =====
-- Credentials in memory, and their refresh (crates/kiro-trust-auth/src).
pub mod Refresh
pub mod Source
mod Tests
