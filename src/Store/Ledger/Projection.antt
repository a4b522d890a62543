-- ===== src/Store/Ledger/Projection.antt =====
-- The A2A view of a durable task, the outbox of views to store, and their storing. Of
-- crates/herdr-a2a-broker/src/ledger.rs and crates/herdr-a2a-broker/src/store.rs.
use herdr_a2a.Base.{
  ℕ, Bool, ◌&&◌, not, Option, none, some, List, [], ◌∷◌, ◌++◌, leb, ◌==◌, if◌then◌else◌, is_none,
  is_some_and, length, Text, text_eq, text_lt, i64_of, i64_sub, u64_of,
}
use herdr_a2a.Base.Map.{Map}
use herdr_a2a.Base.Map
use herdr_a2a.Base.Outcome.{done, failed, ◌>>=◌, ◌>>◌, require, some_or}
use herdr_a2a.Core.Json.{Value, null, object}
use herdr_a2a.Core.Model.{Payload}
use herdr_a2a.Core.Durability.{
  DurableTask, DurableTaskState, queued, leased, acknowledged, replied, expired,
}
use herdr_a2a.Store.Ledger.{
  Codec, Stored, invalid_data, projection_not_authorized, TaskState, submitted, working, completed,
  rejected, canceled, Role, user, agent, ProjectedMessage, ProjectedTask, ProjectionRow, OutboxRow,
  Database,
}
use herdr_a2a.Store.Ledger.Rows.{
  delivery_lease_ms, validate_durable_for_store, decode_durable_task, positive_version,
}

-- The time that `projection_json` shows.
unfoldable pub transition_time : DurableTask → DurableTaskState → Stored ℕ
transition_time task queued = done task.created_unix_ms
transition_time task leased = do
  lease ← some_or task.lease invalid_data
  some_or (i64_sub lease.leased_until_unix_ms delivery_lease_ms) invalid_data
transition_time task acknowledged = some_or task.acknowledged_unix_ms invalid_data
transition_time task _ = some_or task.terminal_unix_ms invalid_data

-- The A2A state that `projection_json` shows.
unfoldable pub projected_state : DurableTaskState → TaskState
projected_state queued = submitted
projected_state leased = working
projected_state acknowledged = working
projected_state replied = completed
projected_state DurableTaskState.failed = TaskState.failed
projected_state DurableTaskState.rejected = rejected
projected_state DurableTaskState.canceled = canceled
projected_state expired = TaskState.failed

-- `json_object`
unfoldable pub json_object : Value → Stored (Option Value)
json_object null = done none
json_object (object fields) = done (some (object fields))
json_object _ = failed invalid_data

-- "-request" and "-reply"
abbrev request_suffix : Text
request_suffix = b'-' ∷ b'r' ∷ b'e' ∷ b'q' ∷ b'u' ∷ b'e' ∷ b's' ∷ b't' ∷ []

abbrev reply_suffix : Text
reply_suffix = b'-' ∷ b'r' ∷ b'e' ∷ b'p' ∷ b'l' ∷ b'y' ∷ []

abbrev message_of : DurableTask → Text → Role → Payload → Stored ProjectedMessage
message_of task suffix role payload = do
  metadata ← json_object payload.metadata
  done (record {
    message_id = task.task_id ++ suffix;
    context_id = task.context_id;
    task_id = task.task_id;
    role = role;
    text = payload.text;
    metadata = metadata;
  })

unfoldable pub reply_message : DurableTask → Option Payload → Stored (Option ProjectedMessage)
reply_message task none = done none
reply_message task (some reply) =
    message_of task reply_suffix agent reply >>= λ message. done (some message)

pub record TaskColumns : Type 0 where
  pub task_id : Text
  pub context_id : Text
  pub state : Text
  pub status_timestamp : Text
  pub task_json : Text

abbrev pub row_of_columns : TaskColumns → ℕ → ProjectionRow
row_of_columns columns version = record {
  context_id = columns.context_id;
  state = columns.state;
  status_timestamp = columns.status_timestamp;
  version = version;
  task_json = columns.task_json;
}

-- `==` of two rows of `tasks`
unfoldable pub projection_eq : ProjectionRow → ProjectionRow → Bool
projection_eq a b =
    (text_eq a.context_id b.context_id && text_eq a.state b.state)
    && (text_eq a.status_timestamp b.status_timestamp
        && ((a.version == b.version) && text_eq a.task_json b.task_json))

-- `INSERT INTO tasks … ON CONFLICT … WHERE excluded.version >= tasks.version`
unfoldable pub upsert_projection : Map ProjectionRow → Text → ProjectionRow → Map ProjectionRow
upsert_projection m task_id row = elim (Map.get m task_id) [
  | none ↦ Map.insert m task_id row
  | some old ↦ if leb old.version row.version then Map.insert m task_id row else m
]

-- `DELETE FROM projection_outbox WHERE task_id = ?1 AND state_version = ?2`
unfoldable pub delete_outbox : Map OutboxRow → Text → ℕ → Map OutboxRow
delete_outbox m task_id state_version = elim (Map.get m task_id) [
  | none ↦ m
  | some row ↦ if row.state_version == state_version then Map.remove m task_id else m
]

-- `ORDER BY task_id`
unfoldable pub insert_ordered {ℓ} : {V : Type ℓ} → Text × V → List (Text × V) → List (Text × V)
insert_ordered row [] = row ∷ []
insert_ordered row (other ∷ rows) =
    let rest = insert_ordered row rows in
    if text_lt (other.0) (row.0) then other ∷ rest else row ∷ other ∷ rows

unfoldable pub order_by_task_id {ℓ} : {V : Type ℓ} → Map V → List (Text × V)
order_by_task_id [] = []
order_by_task_id (row ∷ m) = insert_ordered row (order_by_task_id m)

abbrev pub upserted : Database → TaskColumns → OutboxRow → Map ProjectionRow
upserted db columns entry =
    upsert_projection db.tasks columns.task_id (row_of_columns columns entry.state_version)

abbrev pub with_projection : Database → TaskColumns → OutboxRow → Database
with_projection db columns entry = record db {
  tasks = upserted db columns entry;
  projection_outbox = delete_outbox db.projection_outbox columns.task_id entry.state_version;
}

module _ {Task : Type 0} (codec : Codec Task) where
  open codec use {
    is_timestamp, projected, task_text, parse_task, id_of, context_of, state_text, status_text,
  }

  unfoldable pub project : DurableTask → Stored ProjectedTask
  project task = do
    validate_durable_for_store codec task
    timestamp ← transition_time task task.state
    require (is_timestamp timestamp) invalid_data
    request ← message_of task request_suffix user task.payload
    reply ← reply_message task task.reply
    done (record {
      id = task.task_id;
      context_id = task.context_id;
      state = projected_state task.state;
      message = reply;
      timestamp = timestamp;
      history = request ∷ [];
    })

  unfoldable pub projection_json : DurableTask → Stored Text
  projection_json task =
      project task >>= λ projection. some_or (task_text (projected projection)) invalid_data

  -- `TaskColumns::from_task`
  unfoldable pub columns_of_task : Task → Stored TaskColumns
  columns_of_task task = do
    state ← some_or (state_text task) invalid_data
    json ← some_or (task_text task) invalid_data
    done (record {
      task_id = id_of task;
      context_id = context_of task;
      state = state;
      status_timestamp = status_text task;
      task_json = json;
    })

  unfoldable pub validate_outbox_entry : Database → Text → OutboxRow → Stored (Unit {0})
  validate_outbox_entry db task_id entry = do
    row ← some_or (Map.get db.delivery_tasks task_id) invalid_data
    require (not row.legacy_quarantined) invalid_data
    durable ← decode_durable_task codec row
    durable_version ← some_or (i64_of durable.state_version) invalid_data
    require (entry.state_version == durable_version) invalid_data
    json ← projection_json durable
    require (text_eq entry.task_json json) invalid_data

  -- What becomes of a projection that no outbox entry awaits: it must be the stored one.
  unfoldable pub known_projection : Option ProjectionRow → TaskColumns → Stored ℕ
  known_projection none columns = failed projection_not_authorized
  known_projection (some stored) columns =
      if text_eq stored.task_json columns.task_json
      then positive_version codec stored.version
      else failed projection_not_authorized

  -- The projection of an outbox entry is stored and the entry deleted.
  unfoldable pub store_projection : Database → TaskColumns → OutboxRow → Stored (ℕ × Database)
  store_projection db columns entry = do
    validate_outbox_entry db columns.task_id entry
    require (text_eq entry.task_json columns.task_json) projection_not_authorized
    applied ← some_or (Map.get (upserted db columns entry) columns.task_id) invalid_data
    require (projection_eq applied (row_of_columns columns entry.state_version)) invalid_data
    version ← positive_version codec entry.state_version
    done (version, with_projection db columns entry)

  unfoldable pub apply_authorized_projection : Database → TaskColumns → Stored (ℕ × Database)
  apply_authorized_projection db columns = elim (Map.get db.projection_outbox columns.task_id) [
    | none ↦ known_projection (Map.get db.tasks columns.task_id) columns >>= λ version.
        done (version, db)
    | some entry ↦ store_projection db columns entry
  ]

  -- One round of the loop of `apply_pending_projections_on_connection`.
  unfoldable pub apply_pending : Database → Text → OutboxRow → Stored Database
  apply_pending db task_id entry = do
    task ← some_or (parse_task entry.task_json) invalid_data
    require (text_eq (id_of task) task_id) invalid_data
    columns ← columns_of_task task
    applied ← apply_authorized_projection db columns
    version ← some_or (u64_of entry.state_version) invalid_data
    require (applied.0 == version) invalid_data
    done (applied.1)

  unfoldable pub apply_all_pending : Database → List (Text × OutboxRow) → Stored Database
  apply_all_pending db [] = done db
  apply_all_pending db ((task_id, entry) ∷ pending) =
      apply_pending db task_id entry >>= λ db'. apply_all_pending db' pending

  -- `apply_pending_projections_on_connection`
  unfoldable pub apply_pending_projections : Database → Stored (ℕ × Database)
  apply_pending_projections db =
      let pending = order_by_task_id db.projection_outbox in
      apply_all_pending db pending >>= λ db'. done (length pending, db')

  unfoldable pub clean_authoritative_projection : Database → Text → Stored (DurableTask × Text)
  clean_authoritative_projection db task_id = do
    require (is_none (Map.get db.projection_outbox task_id)) invalid_data
    row ← some_or (Map.get db.delivery_tasks task_id) invalid_data
    require (not row.legacy_quarantined) invalid_data
    durable ← decode_durable_task codec row
    version ← some_or (i64_of durable.state_version) invalid_data
    json ← projection_json durable
    task ← some_or (parse_task json) invalid_data
    expected ← columns_of_task task
    require
        (is_some_and (Map.get db.tasks task_id)
          (λ stored. projection_eq stored (row_of_columns expected version)))
        invalid_data
    done (durable, json)
