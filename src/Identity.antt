-- ===== src/Identity.antt =====
-- crates/herdr-a2a-broker/src/identity.rs: the names of agents, and the table of identities.
pub mod Slug
pub mod Names
pub mod Table
mod Tests
