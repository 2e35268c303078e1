-- ===== src/Response.antt =====
-- The translation of the upstream's events to Anthropic's stream
-- (crates/kiro-trust-protocol/src/translate/response.rs).
pub mod Message
pub mod Tags
pub mod Limits
pub mod Emitter
pub mod State
pub mod Push
pub mod Protocol
pub mod Budget
pub mod Streamed
pub mod Overrun
pub mod Accounts
mod Tests
