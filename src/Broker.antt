-- ===== src/Broker.antt =====
-- crates/herdr-a2a-core/src/broker.rs: the broker that queues, leases and settles tasks.
pub mod Task
pub mod Deadlines
pub mod State
pub mod Terminal
pub mod Registry
pub mod Restore
pub mod Monad
pub mod Reconcile
pub mod Maintain
pub mod Sessions
pub mod Enqueue
pub mod Deliver
pub mod Settle
pub mod Inspect
pub mod Calls
pub mod Limits
pub mod Scenario
pub mod Tests
