-- ===== src/Broker/Enqueue.antt =====
-- `enqueue`. Of crates/herdr-a2a-core/src/broker.rs.
use herdr_a2a.Base.{
  ℕ, false, not, none, some, [], ◌∷◌, ltb, is_some, length, Text, text_eq, i64_add, u64_succ,
}
use herdr_a2a.Base.Map.{Map}
use herdr_a2a.Base.Map
use herdr_a2a.Core.Errors.{
  persistence_unavailable, duplicate_task, too_many_retained_tasks, sender_mismatch,
  too_many_active_tasks, agent_not_registered, Result, ok, ok_or, expect, guard, ◌>>=◌, ◌>>◌,
}
use herdr_a2a.Core.Model.{AgentName, RegistrationId, RegistrationCredentials, QueuedDelivery}
use herdr_a2a.Core.Durability.{DurableTask, queued, BrokerPersistence}
use herdr_a2a.Core.Validation.{Platform}
use herdr_a2a.Broker.Task.{
  TaskRecord, delivery_ttl_ms, max_retained_tasks, max_active_outbound_tasks,
}
use herdr_a2a.Broker.Deadlines
use herdr_a2a.Broker.State.{
  State, task_queued, record_status_event, index_insert, active_registration_id, push_inbox,
}
use herdr_a2a.Broker.Monad.{M, lift, get_state, modify, emit, Effect, notified, commit_transition}
use herdr_a2a.Broker.Monad
use herdr_a2a.Broker.Maintain.{validate_registration_and_maintain}

-- `DeliveryHandle`
pub record DeliveryHandle : Type 0 where
  pub task_id : Text
  pub context_id : Text

-- The number of tasks that an agent has sent and that are not settled.
unfoldable pub outbound_count : State → AgentName → ℕ
outbound_count state name = elim (Map.get state.outbound_tasks_by_agent name) [
  | none ↦ 0
  | some ids ↦ length ids
]

-- What the tests of `enqueue` hand on.
pub record Admission : Type 0 where
  pub recipient_registration_id : RegistrationId
  pub enqueue_sequence : ℕ
  pub delivery_deadline_unix_ms : ℕ

-- The tests of `enqueue`, in order.
unfoldable pub admit : State → RegistrationCredentials → QueuedDelivery → ℕ → Result Admission
admit state c delivery now = do
  guard (not (is_some (Map.get state.tasks delivery.task_id))) duplicate_task
  guard (ltb (length state.tasks) max_retained_tasks) too_many_retained_tasks
  sender ← expect (Map.get state.registrations c.id)
  guard (text_eq sender.registration.agent.name delivery.sender) sender_mismatch
  guard (ltb (outbound_count state sender.registration.agent.name) max_active_outbound_tasks)
      too_many_active_tasks
  recipient ← ok_or (active_registration_id state delivery.recipient now) agent_not_registered
  sequence ← ok_or (u64_succ state.next_task_sequence) persistence_unavailable
  deadline ← ok_or (i64_add now delivery_ttl_ms) persistence_unavailable
  ok (record {
    recipient_registration_id = recipient;
    enqueue_sequence = sequence;
    delivery_deadline_unix_ms = deadline;
  })

-- `delivery.created_unix_ms = now`
abbrev pub stamp : QueuedDelivery → ℕ → QueuedDelivery
stamp delivery now = record delivery { created_unix_ms = now }

-- The durable form of a new task.
unfoldable pub new_durable : QueuedDelivery → ℕ → DurableTask
new_durable delivery deadline = record {
  task_id = delivery.task_id;
  context_id = delivery.context_id;
  sender = delivery.sender;
  recipient = delivery.recipient;
  payload = delivery.payload;
  created_unix_ms = delivery.created_unix_ms;
  delivery_deadline_unix_ms = deadline;
  state_version = 1;
  state = queued;
  lease = none;
  attempt = delivery.attempt;
  acknowledged_unix_ms = none;
  reply = none;
  terminal_unix_ms = none;
  retention_deadline_unix_ms = none;
}

-- The record of a new task.
unfoldable pub new_record : QueuedDelivery → ℕ → TaskRecord
new_record delivery sequence = record {
  enqueue_sequence = sequence;
  state_version = 1;
  original_delivery = delivery;
  delivery = some delivery;
  recipient = delivery.recipient;
  sender = delivery.sender;
  lease = none;
  last_delivery_attempt = none;
  acknowledged = false;
  acknowledged_unix_ms = none;
  reply = none;
  reply_waiters = [];
  failed = false;
  rejected = false;
  canceled = false;
  expired = false;
  terminal_unix_ms = none;
  terminal_deadline_unix_ms = none;
}

-- What `enqueue` does to the state once its batch is committed.
unfoldable pub insert_task : State → QueuedDelivery → Admission → ℕ → State
insert_task state delivery a now =
    let task_id = delivery.task_id in
    let sender = delivery.sender in
    let recipient = delivery.recipient in
    record_status_event
      (record state {
        next_task_sequence = a.enqueue_sequence;
        registrations =
            Map.alter state.registrations a.recipient_registration_id
              (λ entry. push_inbox entry task_id);
        active_tasks_by_agent =
            index_insert (index_insert state.active_tasks_by_agent sender task_id) recipient
              task_id;
        tasks_by_sender = index_insert state.tasks_by_sender sender task_id;
        tasks_by_recipient = index_insert state.tasks_by_recipient recipient task_id;
        outbound_tasks_by_agent = index_insert state.outbound_tasks_by_agent sender task_id;
        tasks = Map.insert state.tasks task_id (new_record delivery a.enqueue_sequence);
        delivery_deadlines =
            Deadlines.push state.delivery_deadlines (a.delivery_deadline_unix_ms, task_id);
      })
      task_queued sender now

module _ {Store : Type 0} (persistence : BrokerPersistence Store) (platform : Platform) where
  -- What follows the maintenance, in `enqueue`.
  unfoldable pub enqueue_admitted :
      RegistrationCredentials → QueuedDelivery → ℕ → M Store DeliveryHandle
  enqueue_admitted c delivery now = Monad.◌>>=◌ get_state λ state.
      Monad.◌>>=◌ (lift (admit state c delivery now)) λ a.
        Monad.◌>>=◌
          (commit_transition persistence (record {
            registration_epoch_high_watermark = none;
            upsert_tasks = new_durable (stamp delivery now) a.delivery_deadline_unix_ms ∷ [];
            delete_task_ids = [];
          }))
          λ _. Monad.◌>>=◌ (modify (λ s. insert_task s (stamp delivery now) a now)) λ _.
            Monad.◌>>=◌ (emit (notified a.recipient_registration_id ∷ [])) λ _.
              Monad.pure (record { task_id = delivery.task_id; context_id = delivery.context_id })

  unfoldable pub enqueue : RegistrationCredentials → QueuedDelivery → ℕ → M Store DeliveryHandle
  enqueue c delivery now =
      Monad.◌>>=◌ (validate_registration_and_maintain persistence platform c now)
        λ _. enqueue_admitted c delivery now
