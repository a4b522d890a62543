-- ===== src/Broker/Deliver.antt =====
-- `poll_delivery` and `ack_delivery`. Of crates/herdr-a2a-core/src/broker.rs.
pub mod Mirror
pub mod Persisted
pub mod Order
use herdr_a2a.Base.{
  ℕ, Bool, true, false, ◌&&◌, ◌||◌, not, Option, none, some, List, [], ◌∷◌, ltb, leb, min,
  if◌then◌else◌, is_some, is_none, is_some_and, Text, text_eq, i64_add, u64_succ, u32_succ,
}
use herdr_a2a.Base.Map.{Map}
use herdr_a2a.Base.Map
use herdr_a2a.Core.Errors.{
  DomainError, persistence_unavailable, delivery_not_found, delivery_not_owned, Result, ok, err,
  panicked, ok_or, expect, guard, ◌>>=◌, ◌>>◌,
}
use herdr_a2a.Core.Model.{
  AgentName, DeliveryId, RegistrationCredentials, QueuedDelivery, DeliveredMessage,
}
use herdr_a2a.Core.Durability.{DurableTask, PersistenceBatch, BrokerPersistence}
use herdr_a2a.Core.Validation.{Platform}
use herdr_a2a.Broker.Task.{
  TaskRecord, DeliveryLease, is_owned_by, durable_leased_task, durable_acknowledged_task,
  delivery_ttl_ms, delivery_lease_ms,
}
use herdr_a2a.Broker.State.{State, drop_delivery, drop_from_inbox}
use herdr_a2a.Broker.Monad.{M, lift, get_state, modify, modify_or_fail, commit_transition}
use herdr_a2a.Broker.Monad
use herdr_a2a.Broker.Maintain.{validate_registration_and_maintain}
use herdr_a2a.Broker.Sessions.{registered_entry}

-- `single_task_batch`
abbrev pub single_task_batch : DurableTask → PersistenceBatch
single_task_batch task = record {
  registration_epoch_high_watermark = none;
  upsert_tasks = task ∷ [];
  delete_task_ids = [];
}

-- What `poll_delivery` finds for one task of the inbox: nothing, a deadline to wait for, or a lease.
pub data Candidate : Type 0 where
  skipped : Candidate
  busy : ℕ → Candidate
  ready : ℕ → QueuedDelivery → DeliveryLease → DurableTask → Candidate

abbrev pub is_open : TaskRecord → Bool
is_open task = not (task.canceled || (task.expired || (is_some task.reply || task.acknowledged)))

-- The attempt number of the next lease.
unfoldable pub next_attempt : TaskRecord → QueuedDelivery → Result ℕ
next_attempt task delivery = elim task.last_delivery_attempt [
  | none ↦ ok delivery.attempt
  | some attempt ↦ ok_or (u32_succ attempt) persistence_unavailable
]

-- A new lease under `delivery_id`, for a task that is not leased at `now`.
unfoldable pub new_lease :
    RegistrationCredentials
    → DeliveryId
    → Text
    → TaskRecord
    → QueuedDelivery
    → ℕ
    → ℕ
    → Result Candidate
new_lease c delivery_id task_id task delivery now deadline = do
  attempt ← next_attempt task delivery
  until ← ok_or (i64_add now delivery_lease_ms) persistence_unavailable
  let lease : DeliveryLease = record {
    delivery_id = delivery_id;
    owner = some c;
    leased_until_unix_ms = until;
    attempt = attempt;
  }
  durable ← durable_leased_task task_id task lease
  ok (ready deadline delivery lease durable)

-- `lease.leased_until_unix_ms`, where the lease still runs.
abbrev pub running_lease : TaskRecord → ℕ → Option ℕ
running_lease task now = elim task.lease [
  | none ↦ none
  | some lease ↦
      if ltb now lease.leased_until_unix_ms then some lease.leased_until_unix_ms else none
]

-- One round of the loop of `poll_delivery`, up to the commit.
unfoldable pub examine : RegistrationCredentials → DeliveryId → State → Text → ℕ → Result Candidate
examine c delivery_id state task_id now = elim (Map.get state.tasks task_id) [
  | none ↦ ok skipped
  | some task ↦
      if is_open task
      then elim task.delivery [
        | none ↦ ok skipped
        | some delivery ↦
            ok_or (i64_add delivery.created_unix_ms delivery_ttl_ms) persistence_unavailable
            >>= λ deadline. elim (running_lease task now) [
              | some until ↦ ok (busy (min deadline until))
              | none ↦ new_lease c delivery_id task_id task delivery now deadline
            ]
      ]
      else ok skipped
]

-- What the loop finds: the task to deliver, or the next deadline.
pub data Selection : Type 0 where
  selected : Text → QueuedDelivery → DeliveryLease → DurableTask → Selection
  pending : ℕ → Selection

unfoldable pub select_delivery :
    RegistrationCredentials → DeliveryId → State → ℕ → ℕ → List Text → Result Selection
select_delivery c delivery_id state now next_deadline [] = ok (pending next_deadline)
select_delivery c delivery_id state now next_deadline (task_id ∷ task_ids) =
    examine c delivery_id state task_id now >>= λ found. elim found [
      | skipped ↦ select_delivery c delivery_id state now next_deadline task_ids
      | busy deadline ↦
          select_delivery c delivery_id state now (min next_deadline deadline) task_ids
      | ready deadline delivery lease durable ↦ ok (selected task_id delivery lease durable)
    ]

-- The `DeliveredMessage` of a delivery under a lease.
abbrev pub delivered_message : QueuedDelivery → DeliveryLease → DeliveredMessage
delivered_message delivery lease = record {
  delivery_id = lease.delivery_id;
  task_id = delivery.task_id;
  context_id = delivery.context_id;
  sender = delivery.sender;
  recipient = delivery.recipient;
  payload = delivery.payload;
  leased_until_unix_ms = lease.leased_until_unix_ms;
  attempt = lease.attempt;
}

-- The record of a task under a new lease.
unfoldable pub leased_record : TaskRecord → ℕ → DeliveryLease → TaskRecord
leased_record task version lease = record task {
  state_version = version;
  last_delivery_attempt = some lease.attempt;
  lease = some lease;
}

-- What `poll_delivery` does to the state once the lease is committed.
unfoldable pub apply_lease : State → Text → DeliveryLease → Result State
apply_lease state task_id lease = do
  task ← expect (Map.get state.tasks task_id)
  version ← ok_or (u64_succ task.state_version) persistence_unavailable
  let by_delivery = drop_delivery state.tasks_by_delivery task.lease task_id
  ok (record state {
    tasks = Map.insert state.tasks task_id (leased_record task version lease);
    tasks_by_delivery = Map.insert by_delivery lease.delivery_id task_id;
  })

-- `DeliveryPoll`
pub data DeliveryPoll : Type 0 where
  ready_now : DeliveredMessage → DeliveryPoll
  pending_until : ℕ → DeliveryPoll

abbrev pub is_valid_delivery : TaskRecord → DeliveryId → ℕ → Bool
is_valid_delivery task delivery_id now = is_some_and task.lease (λ lease.
    (text_eq lease.delivery_id delivery_id
      && (task.acknowledged || ltb now lease.leased_until_unix_ms))
    && ((is_some task.delivery && not task.canceled) && (not task.expired && is_none task.reply)))

-- What the tests of `ack_delivery` find: an acknowledgement made before, or a task to acknowledge.
pub data AckCheck : Type 0 where
  already : AckCheck
  fresh : Text → TaskRecord → AckCheck

unfoldable pub check_ack : State → RegistrationCredentials → DeliveryId → ℕ → Result AckCheck
check_ack state c delivery_id now = do
  entry ← expect (Map.get state.registrations c.id)
  task_id ← ok_or (Map.get state.tasks_by_delivery delivery_id) delivery_not_found
  task ← expect (Map.get state.tasks task_id)
  guard (is_valid_delivery task delivery_id now) delivery_not_found
  if task.acknowledged
      then (guard (text_eq task.recipient entry.registration.agent.name) delivery_not_owned
          >> ok already)
      else (guard (is_some_and task.lease (λ lease. is_owned_by lease c)) delivery_not_owned
          >> ok (fresh task_id task))

-- The record of an acknowledged task.
unfoldable pub acknowledged_record : TaskRecord → ℕ → ℕ → TaskRecord
acknowledged_record task version now = record task {
  state_version = version;
  acknowledged = true;
  acknowledged_unix_ms = some now;
}

-- What `ack_delivery` does to the state once the acknowledgement is committed.
unfoldable pub apply_ack : State → RegistrationCredentials → Text → ℕ → Result State
apply_ack state c task_id now = do
  task ← expect (Map.get state.tasks task_id)
  version ← ok_or (u64_succ task.state_version) persistence_unavailable
  ok (record state {
    tasks = Map.insert state.tasks task_id (acknowledged_record task version now);
    registrations = Map.alter state.registrations c.id (drop_from_inbox task_id);
  })

module _ {Store : Type 0} (persistence : BrokerPersistence Store) (platform : Platform) where
  abbrev pub deliver : Selection → M Store DeliveryPoll
  deliver (pending next_deadline) = Monad.pure (pending_until next_deadline)
  deliver (selected task_id delivery lease durable) =
      Monad.◌>>=◌ (commit_transition persistence (single_task_batch durable)) λ _.
        Monad.◌>>=◌ (modify_or_fail (λ s. apply_lease s task_id lease))
          λ _. Monad.pure (ready_now (delivered_message delivery lease))

  -- `delivery_id` is the new `DeliveryId`.
  unfoldable pub poll_delivery : RegistrationCredentials → DeliveryId → ℕ → M Store DeliveryPoll
  poll_delivery c delivery_id now =
      Monad.◌>>=◌ (validate_registration_and_maintain persistence platform c now) λ _.
        Monad.◌>>=◌ (registered_entry persistence platform c.id) λ entry.
          Monad.◌>>=◌ get_state λ state.
            Monad.◌>>=◌
              (lift (
                select_delivery c delivery_id state now entry.registration.expires_unix_ms
                  entry.inbox))
              λ found. deliver found

  abbrev pub acknowledge : RegistrationCredentials → ℕ → AckCheck → M Store (Unit {0})
  acknowledge c now already = Monad.pure tt
  acknowledge c now (fresh task_id task) =
      Monad.◌>>=◌ (lift (durable_acknowledged_task task_id task now)) λ durable.
        Monad.◌>>=◌ (commit_transition persistence (single_task_batch durable))
          λ _. modify_or_fail (λ s. apply_ack s c task_id now)

  unfoldable pub ack_delivery : RegistrationCredentials → DeliveryId → ℕ → M Store (Unit {0})
  ack_delivery c delivery_id now =
      Monad.◌>>=◌ (validate_registration_and_maintain persistence platform c now) λ _.
        Monad.◌>>=◌ get_state λ state.
          Monad.◌>>=◌ (lift (check_ack state c delivery_id now)) λ found. acknowledge c now found
