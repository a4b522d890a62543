-- ===== src/Lib.antt =====
-- The broker of herdr-a2a, as a verification library.
--
-- herdr-a2a lets agents that run in terminal panes send each other tasks. Its core, the crate
-- crates/herdr-a2a-core, is a broker: agents register, a sender enqueues a task for a recipient,
-- the recipient polls it under a lease, acknowledges it, and replies to it, fails it or rejects
-- it, or the sender cancels it. Every change is committed to a storage first, and is applied in
-- memory after that. A broker that restarts, or whose storage asks for it, rebuilds its tasks from
-- the storage.
--
-- The modules and what they model:
--   Base            strings as their bytes, machine integers, hash maps and hash sets
--   Core.Errors     `DomainError` of validation.rs, and `Result` with a third case for a panic
--   Core.Json       `serde_json::Value`
--   Core.Model      crates/herdr-a2a-core/src/model.rs
--   Core.Validation crates/herdr-a2a-core/src/validation.rs
--   Core.Durability crates/herdr-a2a-core/src/durability.rs
--   Broker          crates/herdr-a2a-core/src/broker.rs, in these parts:
--     Task          `TaskRecord`, `durable_task` and its variants, `validate_durable_task`
--     State         `State`, its indexes, `validate_active_registration`
--     Deadlines     the heaps of deadlines
--     Terminal      `terminalize_task` and the pruning
--     Registry      `detach_registration`, `retire_registration_id`, the version bumps
--     Restore       `validate_and_reconcile_snapshot`, `restore_task`
--     Monad         the state, the storage and the notifications as one world; `commit_transition`
--     Reconcile     `reconcile_state_if_required`, `recover`
--     Maintain      `maintain_state`, `validate_registration_and_maintain`
--     Sessions      `register`, `renew`, `remove_registration`, `authenticate`, `begin_wait`
--     Enqueue       `enqueue`
--     Deliver       `poll_delivery`, `ack_delivery`
--     Settle        `reply`, `fail_task`, `reject_task`, `cancel_task`
--     Inspect       `task_snapshot`, `list_agents`, `operations_snapshot`
--     Calls         all of these as calls, and histories as lists of calls
--     Limits        what every call does to the sizes and counters of the state
--   Store           the storage behind `BrokerPersistence`, in these parts:
--     Admissions    crates/herdr-a2a-broker/src/store.rs, the registry of projection admissions
--     Ledger        crates/herdr-a2a-broker/src/ledger.rs: the tables, and what the code asks of
--                   its libraries, as the record `Codec`
--       Rows        `validate_durable_for_store`, `decode_durable_task`, and the row it reads
--       Projection  `projection_json`, `apply_authorized_projection`, the outbox
--       Epoch       `parse_canonical_u64`
--       Commit      `commit`
--       Load        `validate_store`, `load`
--       Startup     `prepare_startup`, with `migrate_schema`, `quarantine_owner_only_rows` and
--                   `prune_quarantined`
--       Owners      `claim_task_owner` of store.rs
--     Sdk           `authorize_sdk_projection` and `apply_sdk_projection` of store.rs, in which a
--                   commit does not fail
--   Identity        crates/herdr-a2a-broker/src/identity.rs, in these parts:
--     Slug          `canonical_slug`
--     Names         `canonical_name_from_parts`, `validate_canonical_name`, `RandomSuffix`
--     Table         `resolve_or_create`, `find_by_canonical`, `validate_rows`
--   Broker.Scenario and the modules named Tests hold concrete data and runs on it.
--
-- How the code corresponds. A method locks the state from its first line to its last, so a method
-- is one function of the world, and a history is a list of calls. An early return leaves what was
-- written before it. The time and the new ids that a method draws are its arguments. The storage is
-- a parameter: the record `BrokerPersistence` with `load` and `commit` over a state of its own,
-- about which nothing is assumed. The functions of the platform that the validation calls (the
-- length of encoded JSON, paths) are the record `Platform`. An `i64` time n is held as n + 2^63, so
-- that orders are those of the numbers; `checked_add` fails where the sum leaves the type. `expect`
-- on a missing entry gives the result `panicked`, and the state is then taken to be the one before
-- the step that panicked.
-- A hash map is an association list: what the code does in the order of a hash map is done in the
-- order of that list. Every loop runs over a list; the decimal text of a `u64` has twenty digits at
-- most, which is the fuel its printing is given. A table of the database is a map from its key, or a
-- list of rows; a statement with a condition is a function with that condition, `ORDER BY` sorts,
-- and a transaction that is not committed gives its first database back.
--
-- Not modelled: the methods that wait for notifications (`start_or_resume`, `wait_next`,
-- `wait_for_reply`, `wait_for_agents`) and the snapshot of the directory, UUIDs, serialization and
-- error texts; the faults of the database itself (a failed query or commit), the files of the store
-- and its list of tasks; the rest of the crate herdr-a2a-broker (the protocol
-- and the server), the crate herdr-a2a-cli, the TypeScript integration and the scripts. The waiting
-- methods loop over `poll_delivery` and channels; what is left around the core is mostly input and
-- output.
pub mod Base
pub mod Core
pub mod Broker
pub mod Store
pub mod Identity
