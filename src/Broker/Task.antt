-- ===== src/Broker/Task.antt =====
-- One task of the broker: its record in memory and its durable form. Of
-- crates/herdr-a2a-core/src/broker.rs.
pub mod Valid
pub mod Coherent
use herdr_a2a.Base.{
  ℕ, ◌+◌, ◌-◌, ◌*◌, ◌≡◌, Bool, true, false, ◌&&◌, ◌||◌, not, Option, none, some, List, [], ◌∷◌, leb,
  ltb, ◌==◌, if◌then◌else◌, is_some, is_none, is_some_and, then_some, unwrap_or, Text, text_eq,
  i64_zero, i64_add, u64_succ,
}
use mathlib.Core.Option
use herdr_a2a.Core.Errors.{
  DomainError, persistence_unavailable, task_canceled, task_expired, task_failed, task_rejected,
  Result, ok, err, ◌>>=◌, ◌>>◌, guard, ok_or, map_err,
}
use herdr_a2a.Core.Model.{
  AgentName, DeliveryId, RegistrationCredentials, credentials_eq, QueuedDelivery, ReplyPayload,
  validate_task_id,
}
use herdr_a2a.Core.Durability.{
  DurableTaskState, queued, leased, acknowledged, replied, failed, rejected, canceled, expired,
  DurableLease, DurableTask,
}
use herdr_a2a.Core.Validation.{Platform, parse_agent_name, validate_persisted_payload}

abbrev pub registration_ttl_ms : ℕ
registration_ttl_ms = 30000

abbrev pub delivery_lease_ms : ℕ
delivery_lease_ms = 60000

abbrev pub delivery_ttl_ms : ℕ
delivery_ttl_ms = 24 * 60 * 60 * 1000

abbrev pub terminal_retention_ms : ℕ
terminal_retention_ms = 30 * 24 * 60 * 60 * 1000

abbrev pub max_retained_tasks : ℕ
max_retained_tasks = 4096

abbrev pub max_retired_registration_ids : ℕ
max_retired_registration_ids = max_retained_tasks

abbrev pub max_active_outbound_tasks : ℕ
max_active_outbound_tasks = 32

pub record DeliveryLease : Type 0 where
  pub delivery_id : DeliveryId
  pub owner : Option RegistrationCredentials
  pub leased_until_unix_ms : ℕ
  pub attempt : ℕ

-- A `ReplyWaiter`, the sending half of a channel, is the number of its channel.
abbrev pub ReplyWaiter : Type 0
ReplyWaiter = ℕ

-- `ReplyResult`
abbrev pub ReplyResult : Type 0
ReplyResult = Result ReplyPayload

-- `TaskRecord`, without the counters of the test build.
pub record TaskRecord : Type 0 where
  pub enqueue_sequence : ℕ
  pub state_version : ℕ
  pub original_delivery : QueuedDelivery
  pub delivery : Option QueuedDelivery
  pub recipient : AgentName
  pub sender : AgentName
  pub lease : Option DeliveryLease
  pub last_delivery_attempt : Option ℕ
  pub acknowledged : Bool
  pub acknowledged_unix_ms : Option ℕ
  pub reply : Option ReplyPayload
  pub reply_waiters : List ReplyWaiter
  pub failed : Bool
  pub rejected : Bool
  pub canceled : Bool
  pub expired : Bool
  pub terminal_unix_ms : Option ℕ
  pub terminal_deadline_unix_ms : Option ℕ

-- `lease.owner.as_ref() == Some(credentials)`
abbrev pub is_owned_by : DeliveryLease → RegistrationCredentials → Bool
is_owned_by lease c = is_some_and lease.owner (λ owner. credentials_eq owner c)

-- The test by which the broker finds the tasks that a registration holds and has not acknowledged.
unfoldable pub is_leased_to : TaskRecord → RegistrationCredentials → Bool
is_leased_to task c = not task.acknowledged && is_some_and task.lease (λ lease. is_owned_by lease c)

unfoldable pub next_state_version : TaskRecord → Result ℕ
next_state_version task = ok_or (u64_succ task.state_version) persistence_unavailable

-- The state that `durable_task` reads off a record.
unfoldable pub durable_state : TaskRecord → DurableTaskState
durable_state task =
    if task.failed
    then DurableTaskState.failed
    else if task.rejected
    then DurableTaskState.rejected
    else if is_some task.reply
    then DurableTaskState.replied
    else if task.canceled
    then DurableTaskState.canceled
    else if task.expired
    then DurableTaskState.expired
    else if task.acknowledged
    then acknowledged
    else if is_some task.lease
    then leased
    else queued

-- The lease that `durable_task` reads off a record.
abbrev pub durable_lease : AgentName → DeliveryLease → DurableLease
durable_lease owner lease = record {
  delivery_id = lease.delivery_id;
  owner = owner;
  leased_until_unix_ms = lease.leased_until_unix_ms;
  attempt = lease.attempt;
}

unfoldable pub durable_task : Text → TaskRecord → Result DurableTask
durable_task task_id task = do
  deadline ←
      ok_or (i64_add task.original_delivery.created_unix_ms delivery_ttl_ms) persistence_unavailable
  ok (record {
    task_id = task_id;
    context_id = task.original_delivery.context_id;
    sender = task.sender;
    recipient = task.recipient;
    payload = task.original_delivery.payload;
    created_unix_ms = task.original_delivery.created_unix_ms;
    delivery_deadline_unix_ms = deadline;
    state_version = task.state_version;
    state = durable_state task;
    lease = Option.map (durable_lease task.recipient) task.lease;
    attempt = unwrap_or task.last_delivery_attempt task.original_delivery.attempt;
    acknowledged_unix_ms = task.acknowledged_unix_ms;
    reply = task.reply;
    terminal_unix_ms = task.terminal_unix_ms;
    retention_deadline_unix_ms = task.terminal_deadline_unix_ms;
  })

unfoldable pub durable_requeued_task : Text → TaskRecord → Result DurableTask
durable_requeued_task task_id task = do
  durable ← durable_task task_id task
  version ← next_state_version task
  ok (record durable {
    state_version = version;
    state = queued;
    lease = none;
    acknowledged_unix_ms = none;
  })

unfoldable pub durable_leased_task : Text → TaskRecord → DeliveryLease → Result DurableTask
durable_leased_task task_id task lease = do
  durable ← durable_task task_id task
  version ← next_state_version task
  ok (record durable {
    state_version = version;
    state = leased;
    lease = some (durable_lease task.recipient lease);
    attempt = lease.attempt;
    acknowledged_unix_ms = none;
  })

unfoldable pub durable_acknowledged_task : Text → TaskRecord → ℕ → Result DurableTask
durable_acknowledged_task task_id task now = do
  durable ← durable_task task_id task
  version ← next_state_version task
  ok (record durable {
    state_version = version;
    state = acknowledged;
    acknowledged_unix_ms = some now;
  })

unfoldable pub durable_terminal_task :
    Text → TaskRecord → ℕ → DurableTaskState → Option ReplyPayload → Result DurableTask
durable_terminal_task task_id task now state reply = do
  durable ← durable_task task_id task
  version ← next_state_version task
  retention ← ok_or (i64_add now terminal_retention_ms) persistence_unavailable
  ok (record durable {
    state_version = version;
    state = state;
    lease = none;
    acknowledged_unix_ms = none;
    reply = reply;
    terminal_unix_ms = some now;
    retention_deadline_unix_ms = some retention;
  })

-- `reply_result_for_task`
unfoldable pub reply_result_for_task : TaskRecord → Option ReplyResult
reply_result_for_task task =
    if task.canceled
    then some (err task_canceled)
    else if task.expired
    then some (err task_expired)
    else if task.failed
    then some (err task_failed)
    else if task.rejected
    then some (err task_rejected)
    else Option.map ok task.reply

-- `task.reply.is_some() || task.failed || task.rejected || task.canceled || task.expired`
abbrev pub is_settled : TaskRecord → Bool
is_settled task =
    is_some task.reply || (task.failed || (task.rejected || (task.canceled || task.expired)))

-- The tests on a durable task's times, in `validate_durable_task`.
unfoldable pub terminal_times_valid : ℕ → Option ℕ → Option ℕ → Bool
terminal_times_valid created none none = true
terminal_times_valid created (some terminal) (some retention) =
    leb created terminal
    && is_some_and (i64_add terminal terminal_retention_ms) (λ deadline. retention == deadline)
terminal_times_valid created _ _ = false

-- The fields that each state of a durable task has, in `validate_durable_task`.
unfoldable pub fields_match_state : DurableTask → DurableTaskState → Bool
fields_match_state task queued =
    (is_none task.lease && is_none task.acknowledged_unix_ms)
    && (is_none task.reply && is_none task.terminal_unix_ms)
fields_match_state task leased =
    (is_some task.lease && is_none task.acknowledged_unix_ms)
    && (is_none task.reply && is_none task.terminal_unix_ms)
fields_match_state task acknowledged =
    (is_some task.lease && is_some task.acknowledged_unix_ms)
    && (is_none task.reply && is_none task.terminal_unix_ms)
fields_match_state task DurableTaskState.canceled =
    (is_none task.lease && is_none task.acknowledged_unix_ms)
    && (is_none task.reply && is_some task.terminal_unix_ms)
fields_match_state task DurableTaskState.expired =
    (is_none task.lease && is_none task.acknowledged_unix_ms)
    && (is_none task.reply && is_some task.terminal_unix_ms)
fields_match_state task _ =
    (is_none task.lease && is_none task.acknowledged_unix_ms)
    && (is_some task.reply && is_some task.terminal_unix_ms)

-- The test on the lease, in `validate_durable_task`.
unfoldable pub lease_valid : DurableTask → Option DurableLease → Bool
lease_valid task none = true
lease_valid task (some lease) =
    text_eq lease.owner task.recipient
    && ((lease.attempt == task.attempt) && leb task.created_unix_ms lease.leased_until_unix_ms)

-- The test on the time of the acknowledgement, in `validate_durable_task`.
unfoldable pub ack_valid : DurableTask → Option ℕ → Bool
ack_valid task none = true
ack_valid task (some ack) = leb task.created_unix_ms ack && leb ack task.delivery_deadline_unix_ms

-- The part of `validate_durable_task` that reads the times, the lease and the state.
unfoldable pub validate_durable_times : DurableTask → Result (Unit {0})
validate_durable_times task = do
  deadline ← ok_or (i64_add task.created_unix_ms delivery_ttl_ms) persistence_unavailable
  guard (leb i64_zero task.created_unix_ms) persistence_unavailable
  guard (task.delivery_deadline_unix_ms == deadline) persistence_unavailable
  guard (ltb 0 task.state_version) persistence_unavailable
  guard (lease_valid task task.lease) persistence_unavailable
  guard (ack_valid task task.acknowledged_unix_ms) persistence_unavailable
  guard
      (terminal_times_valid task.created_unix_ms task.terminal_unix_ms
        task.retention_deadline_unix_ms)
      persistence_unavailable
  guard (fields_match_state task task.state) persistence_unavailable

-- The part of `validate_durable_task` that reads the names and the payload.
unfoldable pub validate_durable_header : Platform → DurableTask → Result (Unit {0})
validate_durable_header platform task = do
  _ ← map_err (validate_task_id task.task_id) persistence_unavailable
  _ ← map_err (validate_task_id task.context_id) persistence_unavailable
  _ ← map_err (parse_agent_name task.sender) persistence_unavailable
  _ ← map_err (parse_agent_name task.recipient) persistence_unavailable
  map_err (validate_persisted_payload platform task.payload) persistence_unavailable

-- The part of `validate_durable_task` that reads the reply.
unfoldable pub validate_durable_reply : Platform → Option ReplyPayload → Result (Unit {0})
validate_durable_reply platform none = ok tt
validate_durable_reply platform (some reply) =
    map_err (validate_persisted_payload platform reply) persistence_unavailable

unfoldable pub validate_durable_task : Platform → DurableTask → Result (Unit {0})
validate_durable_task platform task = do
  validate_durable_header platform task
  validate_durable_reply platform task.reply
  validate_durable_times task
