-- ===== src/Broker/Limits.antt =====
-- The limits on the state of crates/herdr-a2a-core/src/broker.rs, part by part.
pub mod Rules
pub mod Fences
pub mod Parts
pub mod Reconciled
pub mod Maintained
pub mod Steps
pub mod Calls
pub mod Epochs
