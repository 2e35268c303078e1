-- ===== src/Request.antt =====
-- The translation of a request, from the Messages API to the upstream's payload
-- (crates/kiro-trust-protocol/src/translate).
pub mod Names
pub mod Content
pub mod Normalize
pub mod Images
pub mod History
mod Tests
