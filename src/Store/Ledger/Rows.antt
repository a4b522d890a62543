-- ===== src/Store/Ledger/Rows.antt =====
-- A durable task as a row of `delivery_tasks`, and back. Of crates/herdr-a2a-broker/src/ledger.rs.
pub mod Roundtrip
pub mod Accepted
pub mod Restored
use herdr_a2a.Base.{
  ℕ, ◌+◌, ◌-◌, ◌*◌, ◌≡◌, refl, Bool, true, false, ◌&&◌, ◌||◌, not, Option, none, some, List, [],
  ◌∷◌, ltb, leb, ◌==◌, if◌then◌else◌, is_some, is_none, is_none_or, is_empty, Text, text_eq,
  i64_zero, i64_add, i64_sub, i64_of, u64_of, u32_of,
}
use mathlib.Core.Option
use herdr_a2a.Base.Outcome.{Outcome, done, failed, panicked, ◌>>=◌, ◌>>◌, require, some_or}
use herdr_a2a.Core.Errors.{Result, is_ok}
use herdr_a2a.Core.Model.{Payload, validate_task_id}
use herdr_a2a.Core.Validation.{parse_agent_name, validate_persisted_payload}
use herdr_a2a.Core.Durability.{
  DurableTask, DurableTaskState, DurableLease, queued, leased, acknowledged, replied, expired,
}
use herdr_a2a.Broker.Task.{ack_valid, terminal_times_valid, delivery_ttl_ms}
use herdr_a2a.Store.Ledger.{Codec, Stored, StoreError, invalid_data, StoredTaskRow}

abbrev pub delivery_lease_ms : ℕ
delivery_lease_ms = 60000

abbrev check : {A : Type 0} → Result A → Stored (Unit {0})
check result = require (is_ok result) invalid_data

-- The tests on the lease, in `validate_durable_for_store`.
unfoldable pub lease_columns_valid : DurableTask → Option DurableLease → Bool
lease_columns_valid task none = true
lease_columns_valid task (some lease) =
    elim (i64_sub lease.leased_until_unix_ms delivery_lease_ms) [
      | none ↦ false
      | some leased_unix_ms ↦
          (leb task.created_unix_ms leased_unix_ms && text_eq lease.owner task.recipient)
          && ((lease.attempt == task.attempt)
              && is_none_or task.acknowledged_unix_ms
                  (λ ack. leb leased_unix_ms ack && ltb ack lease.leased_until_unix_ms))
    ]

abbrev is_open : DurableTask → Bool
is_open task =
    is_none task.reply && (is_none task.terminal_unix_ms && is_none task.retention_deadline_unix_ms)

abbrev is_over : DurableTask → Bool
is_over task =
    (is_none task.lease && is_none task.acknowledged_unix_ms)
    && (is_some task.terminal_unix_ms && is_some task.retention_deadline_unix_ms)

-- The columns that each state has, in `validate_durable_for_store`.
unfoldable pub columns_match_state : DurableTask → DurableTaskState → Bool
columns_match_state task queued =
    (is_none task.lease && is_none task.acknowledged_unix_ms) && is_open task
columns_match_state task leased =
    (is_some task.lease && is_none task.acknowledged_unix_ms) && is_open task
columns_match_state task acknowledged =
    (is_some task.lease && is_some task.acknowledged_unix_ms) && is_open task
columns_match_state task DurableTaskState.canceled = is_over task && is_none task.reply
columns_match_state task expired = is_over task && is_none task.reply
columns_match_state task _ = is_over task && is_some task.reply

-- The part of `validate_durable_for_store` that reads the times, the lease and the state. The
-- tests on the acknowledgement and on the terminal times are those of the broker.
unfoldable pub validate_columns : DurableTask → Stored (Unit {0})
validate_columns task = do
  deadline ← some_or (i64_add task.created_unix_ms delivery_ttl_ms) invalid_data
  require (leb i64_zero task.created_unix_ms) invalid_data
  require (task.delivery_deadline_unix_ms == deadline) invalid_data
  require (ltb 0 task.state_version) invalid_data
  require (ack_valid task task.acknowledged_unix_ms) invalid_data
  require (lease_columns_valid task task.lease) invalid_data
  require
      (terminal_times_valid task.created_unix_ms task.terminal_unix_ms
        task.retention_deadline_unix_ms)
      invalid_data
  require (columns_match_state task task.state) invalid_data

-- The names of the states.
abbrev pub queued_text : Text
queued_text = b'q' ∷ b'u' ∷ b'e' ∷ b'u' ∷ b'e' ∷ b'd' ∷ []

abbrev pub leased_text : Text
leased_text = b'l' ∷ b'e' ∷ b'a' ∷ b's' ∷ b'e' ∷ b'd' ∷ []

abbrev pub acknowledged_text : Text
acknowledged_text =
    b'a' ∷ b'c' ∷ b'k' ∷ b'n' ∷ b'o' ∷ b'w' ∷ b'l' ∷ b'e' ∷ b'd' ∷ b'g' ∷ b'e' ∷ b'd' ∷ []

abbrev pub replied_text : Text
replied_text = b'r' ∷ b'e' ∷ b'p' ∷ b'l' ∷ b'i' ∷ b'e' ∷ b'd' ∷ []

abbrev pub failed_text : Text
failed_text = b'f' ∷ b'a' ∷ b'i' ∷ b'l' ∷ b'e' ∷ b'd' ∷ []

abbrev pub rejected_text : Text
rejected_text = b'r' ∷ b'e' ∷ b'j' ∷ b'e' ∷ b'c' ∷ b't' ∷ b'e' ∷ b'd' ∷ []

abbrev pub canceled_text : Text
canceled_text = b'c' ∷ b'a' ∷ b'n' ∷ b'c' ∷ b'e' ∷ b'l' ∷ b'e' ∷ b'd' ∷ []

abbrev pub expired_text : Text
expired_text = b'e' ∷ b'x' ∷ b'p' ∷ b'i' ∷ b'r' ∷ b'e' ∷ b'd' ∷ []

unfoldable pub encode_state : DurableTaskState → Text
encode_state queued = queued_text
encode_state leased = leased_text
encode_state acknowledged = acknowledged_text
encode_state replied = replied_text
encode_state DurableTaskState.failed = failed_text
encode_state DurableTaskState.rejected = rejected_text
encode_state DurableTaskState.canceled = canceled_text
encode_state expired = expired_text

unfoldable pub decode_state : Text → Stored DurableTaskState
decode_state state =
    if text_eq state queued_text
    then done queued
    else if text_eq state leased_text
    then done leased
    else if text_eq state acknowledged_text
    then done acknowledged
    else if text_eq state replied_text
    then done replied
    else if text_eq state failed_text
    then done DurableTaskState.failed
    else if text_eq state rejected_text
    then done DurableTaskState.rejected
    else if text_eq state canceled_text
    then done DurableTaskState.canceled
    else if text_eq state expired_text
    then done expired
    else failed invalid_data

-- The parameters of the `INSERT INTO delivery_tasks` of `commit`.
abbrev pub row_of : DurableTask → ℕ → Text → Option Text → StoredTaskRow
row_of task state_version request_json reply_json = record {
  task_id = task.task_id;
  context_id = some task.context_id;
  sender_agent = some task.sender;
  recipient_agent = task.recipient;
  request_json = some request_json;
  created_unix_ms = task.created_unix_ms;
  deadline_unix_ms = task.delivery_deadline_unix_ms;
  state = encode_state task.state;
  state_version = state_version;
  delivery_id = Option.map (λ lease. lease.delivery_id) task.lease;
  lease_expires_unix_ms = Option.map (λ lease. lease.leased_until_unix_ms) task.lease;
  attempt = task.attempt + i64_zero;
  acknowledged_unix_ms = task.acknowledged_unix_ms;
  reply_json = reply_json;
  terminal_unix_ms = task.terminal_unix_ms;
  retain_until_unix_ms = task.retention_deadline_unix_ms;
  legacy_quarantined = false;
}

module _ {Task : Type 0} (codec : Codec Task) where
  open codec use {platform, payload_json, parse_payload, parse_delivery_id}

  abbrev check_payload : Payload → Stored (Unit {0})
  check_payload payload = do
    check (validate_persisted_payload platform payload)
    require (is_empty payload.file_refs) invalid_data

  unfoldable pub check_reply_payload : Option Payload → Stored (Unit {0})
  check_reply_payload none = done tt
  check_reply_payload (some reply) = check_payload reply

  unfoldable pub validate_durable_for_store : DurableTask → Stored (Unit {0})
  validate_durable_for_store task = do
    check (validate_task_id task.task_id)
    check (validate_task_id task.context_id)
    check (parse_agent_name task.sender)
    check (parse_agent_name task.recipient)
    check_payload task.payload
    check_reply_payload task.reply
    validate_columns task

  -- `canonical_json` of a payload
  abbrev encode_payload : Payload → Stored Text
  encode_payload payload = some_or (payload_json payload) invalid_data

  unfoldable pub encode_reply : Option Payload → Stored (Option Text)
  encode_reply none = done none
  encode_reply (some reply) = encode_payload reply >>= λ json. done (some json)

  -- `canonical_decode` of a payload
  unfoldable pub decode_payload : Text → Stored Payload
  decode_payload json = do
    payload ← some_or (parse_payload json) invalid_data
    again ← encode_payload payload
    require (text_eq again json) invalid_data
    done payload

  unfoldable pub decode_reply : Option Text → Stored (Option Payload)
  decode_reply none = done none
  decode_reply (some json) = decode_payload json >>= λ reply. done (some reply)

  unfoldable pub decode_lease : Text → ℕ → Option Text → Option ℕ → Stored (Option DurableLease)
  decode_lease owner attempt none none = done none
  decode_lease owner attempt (some delivery_id) (some leased_until) = do
    id ← some_or (parse_delivery_id delivery_id) invalid_data
    done (
        some (record {
          delivery_id = id;
          owner = owner;
          leased_until_unix_ms = leased_until;
          attempt = attempt;
        }))
  decode_lease owner attempt _ _ = failed invalid_data

  -- `u64::try_from(version).ok().filter(|version| *version > 0)`
  abbrev pub positive_version : ℕ → Stored ℕ
  positive_version version = do
    n ← some_or (u64_of version) invalid_data
    require (ltb 0 n) invalid_data
    done n

  -- The end of `decode_durable_task`.
  unfoldable pub validated : DurableTask → Stored DurableTask
  validated task = validate_durable_for_store task >> done task

  unfoldable pub decode_durable_task : StoredTaskRow → Stored DurableTask
  decode_durable_task row = do
    require (not row.legacy_quarantined) invalid_data
    context_id ← some_or row.context_id invalid_data
    sender ← some_or row.sender_agent invalid_data
    request_json ← some_or row.request_json invalid_data
    state_version ← positive_version row.state_version
    attempt ← some_or (u32_of row.attempt) invalid_data
    check (parse_agent_name sender)
    check (parse_agent_name row.recipient_agent)
    payload ← decode_payload request_json
    reply ← decode_reply row.reply_json
    state ← decode_state row.state
    lease ← decode_lease row.recipient_agent attempt row.delivery_id row.lease_expires_unix_ms
    validated (record {
      task_id = row.task_id;
      context_id = context_id;
      sender = sender;
      recipient = row.recipient_agent;
      payload = payload;
      created_unix_ms = row.created_unix_ms;
      delivery_deadline_unix_ms = row.deadline_unix_ms;
      state_version = state_version;
      state = state;
      lease = lease;
      attempt = attempt;
      acknowledged_unix_ms = row.acknowledged_unix_ms;
      reply = reply;
      terminal_unix_ms = row.terminal_unix_ms;
      retention_deadline_unix_ms = row.retain_until_unix_ms;
    })

  -- The row that `commit` writes for a task.
  unfoldable pub encode_durable_task : DurableTask → Stored StoredTaskRow
  encode_durable_task task = do
    state_version ← some_or (i64_of task.state_version) invalid_data
    request_json ← encode_payload task.payload
    reply_json ← encode_reply task.reply
    done (row_of task state_version request_json reply_json)
