-- ===== src/Core.antt =====
-- The crate `herdr-a2a-core`: crates/herdr-a2a-core/src.
pub mod Errors
pub mod Json
pub mod Model
pub mod Validation
pub mod Durability
pub mod Tests
