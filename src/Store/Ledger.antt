-- ===== src/Store/Ledger.antt =====
-- crates/herdr-a2a-broker/src/ledger.rs: the tables behind `BrokerPersistence`.
pub mod Rows
pub mod Projection
pub mod Epoch
pub mod Commit
pub mod Load
pub mod Startup
pub mod Owners
use herdr_a2a.Base.{ℕ, Option, List, [], Text, Bool}
use herdr_a2a.Base.Map.{Map}
use herdr_a2a.Base.Outcome.{Outcome}
use herdr_a2a.Core.Json.{Value}
use herdr_a2a.Core.Model.{Payload, DeliveryId}
use herdr_a2a.Core.Validation.{Platform}

-- `StoreError::InvalidData`, by its message where the code compares it.
pub data StoreError : Type 0 where
  invalid_data projection_not_authorized : StoreError

abbrev pub Stored : Type 0 → Type 0
Stored A = Outcome StoreError A

-- The states of an A2A task that the broker uses.
pub data TaskState : Type 0 where
  submitted working completed failed rejected canceled : TaskState

pub data Role : Type 0 where
  user agent : Role

-- What `projection_json` fills in of an A2A message.
pub record ProjectedMessage : Type 0 where
  pub message_id : Text
  pub context_id : Text
  pub task_id : Text
  pub role : Role
  pub text : Text
  pub metadata : Option Value

-- What `projection_json` fills in of an A2A task. The time is in milliseconds.
pub record ProjectedTask : Type 0 where
  pub id : Text
  pub context_id : Text
  pub state : TaskState
  pub message : Option ProjectedMessage
  pub timestamp : ℕ
  pub history : List ProjectedMessage

-- What the code asks of its libraries: JSON through `serde_json`, times through `chrono`, UUIDs,
-- and the type `Task` of the A2A crate.
pub record Codec (Task : Type 0) : Type 0 where
  pub platform : Platform
  -- `serde_json::to_string(&serde_json::to_value(payload)?)`
  pub payload_json : Payload → Option Text
  -- `serde_json::from_str` at a payload
  pub parse_payload : Text → Option Payload
  -- `DeliveryId::parse`
  pub parse_delivery_id : Text → Option DeliveryId
  -- `Utc.timestamp_millis_opt(ms).single()` is there
  pub is_timestamp : ℕ → Bool
  -- `Utc.timestamp_millis_opt(ms).single()` by `to_rfc3339_opts`
  pub timestamp_text : ℕ → Option Text
  -- `serialized_string` of a state
  pub task_state_text : TaskState → Option Text
  -- the A2A task with these fields
  pub projected : ProjectedTask → Task
  -- `serde_json::to_string(&serde_json::to_value(task)?)`
  pub task_text : Task → Option Text
  -- `DateTime::parse_from_rfc3339(text)` with its `timestamp_millis()`
  pub parse_timestamp : Text → Option ℕ
  -- `serde_json::from_str` at an A2A task
  pub parse_task : Text → Option Task
  pub id_of : Task → Text
  pub context_of : Task → Text
  -- `serialized_string(&task.status.state)`
  pub state_text : Task → Option Text
  -- `task.status.timestamp` by `sortable_timestamp`, or the empty text
  pub status_text : Task → Text

pub record StoredTaskRow : Type 0 where
  pub task_id : Text
  pub context_id : Option Text
  pub sender_agent : Option Text
  pub recipient_agent : Text
  pub request_json : Option Text
  pub created_unix_ms : ℕ
  pub deadline_unix_ms : ℕ
  pub state : Text
  pub state_version : ℕ
  pub delivery_id : Option Text
  pub lease_expires_unix_ms : Option ℕ
  pub attempt : ℕ
  pub acknowledged_unix_ms : Option ℕ
  pub reply_json : Option Text
  pub terminal_unix_ms : Option ℕ
  pub retain_until_unix_ms : Option ℕ
  pub legacy_quarantined : Bool

-- A row of `tasks` less its key.
pub record ProjectionRow : Type 0 where
  pub context_id : Text
  pub state : Text
  pub status_timestamp : Text
  pub version : ℕ
  pub task_json : Text

-- A row of `projection_outbox` less its key.
pub record OutboxRow : Type 0 where
  pub state_version : ℕ
  pub task_json : Text

-- A row of `task_owners` less its key.
pub record OwnerRow : Type 0 where
  pub registration_id : Text
  pub recipient : Option Text

-- The database. `broker_meta` is one row, which is there once `user_version` is 1, as are the tables
-- but `tasks` and `task_owners`.
pub record Database : Type 0 where
  pub user_version : ℕ
  pub last_registration_epoch : Text
  pub first_m2a_start_unix_ms : ℕ
  pub delivery_tasks : Map StoredTaskRow
  pub tasks : Map ProjectionRow
  pub projection_outbox : Map OutboxRow
  pub task_owners : Map OwnerRow
