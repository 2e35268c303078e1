-- ===== src/Eventstream.antt =====
-- crates/kiro-trust-protocol/src/eventstream.rs
pub mod Header
pub mod Frame
pub mod Events
pub mod Stream
mod Tests
