-- ===== src/Store.antt =====
-- crates/herdr-a2a-broker/src/store.rs: the parts of the task store.
pub mod Admissions
pub mod Ledger
pub mod Sdk
mod Tests
