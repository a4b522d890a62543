-- ===== src/Store/Ledger/Rows/Accepted.antt =====
-- What `validate_durable_for_store` has tested on a task that it accepts.
use herdr_a2a.Base.{ℕ, ◌≡◌, true, some, ltb, leb, ◌==◌, i64_zero, i64_add, is_empty}
use herdr_a2a.Base.Outcome.{done, require_then, some_or_then, >>=-eq-done, require-eq-done}
use herdr_a2a.Core.Errors.{is_ok}
use herdr_a2a.Core.Model.{validate_task_id}
use herdr_a2a.Core.Validation.{parse_agent_name, validate_persisted_payload}
use herdr_a2a.Core.Durability.{DurableTask}
use herdr_a2a.Broker.Task.{ack_valid, terminal_times_valid, delivery_ttl_ms}
use herdr_a2a.Store.Ledger.{Codec}
use herdr_a2a.Store.Ledger.Rows.{
  validate_durable_for_store, validate_columns, lease_columns_valid, columns_match_state,
  check_reply_payload,
}

pub validate_columns-parts :
    (task : DurableTask)
    → validate_columns task ≡ done tt
    → (deadline : ℕ) × (i64_add task.created_unix_ms delivery_ttl_ms ≡ some deadline)
      × (leb i64_zero task.created_unix_ms ≡ true)
      × ((task.delivery_deadline_unix_ms == deadline) ≡ true)
      × (ltb 0 task.state_version ≡ true)
      × (ack_valid task task.acknowledged_unix_ms ≡ true)
      × (lease_columns_valid task task.lease ≡ true)
      × (terminal_times_valid task.created_unix_ms task.terminal_unix_ms
            task.retention_deadline_unix_ms
          ≡ true)
      × (columns_match_state task task.state ≡ true)
unfolding validate_columns
validate_columns-parts task h =
    let (deadline, e, h1) = some_or_then _ _ _ h in
    let (created, h2) = require_then _ _ _ h1 in
    let (due, h3) = require_then _ _ _ h2 in
    let (version, h4) = require_then _ _ _ h3 in
    let (ack, h5) = require_then _ _ _ h4 in
    let (lease, h6) = require_then _ _ _ h5 in
    let (terminal, last) = require_then _ _ _ h6 in
    (deadline, e, created, due, version, ack, lease, terminal, require-eq-done _ _ last)

module _ {Task : Type 0} (codec : Codec Task) where
  open codec use {platform}

  pub validate_durable_for_store-parts :
      (task : DurableTask)
      → validate_durable_for_store codec task ≡ done tt
      → (is_ok (validate_task_id task.task_id) ≡ true)
        × (is_ok (validate_task_id task.context_id) ≡ true)
        × (is_ok (parse_agent_name task.sender) ≡ true)
        × (is_ok (parse_agent_name task.recipient) ≡ true)
        × (is_ok (validate_persisted_payload platform task.payload) ≡ true)
        × (is_empty task.payload.file_refs ≡ true)
        × (check_reply_payload codec task.reply ≡ done tt)
        × (validate_columns task ≡ done tt)
  unfolding validate_durable_for_store
  validate_durable_for_store-parts task h =
      let (id, h1) = require_then _ _ _ h in
      let (context, h2) = require_then _ _ _ h1 in
      let (sender, h3) = require_then _ _ _ h2 in
      let (recipient, h4) = require_then _ _ _ h3 in
      let (_, request, h5) = >>=-eq-done _ _ h4 in
      let (bounds, no_files) = require_then _ _ _ request in
      let (_, reply, columns) = >>=-eq-done _ _ h5 in
      (id, context, sender, recipient, bounds, require-eq-done _ _ no_files, reply, columns)
