-- ===== src/Net.antt =====
-- Where requests may go (crates/kiro-trust-net/src).
pub mod Region
pub mod Destination
mod Tests
