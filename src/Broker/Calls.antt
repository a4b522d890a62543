-- ===== src/Broker/Calls.antt =====
-- The broker's methods as one type of calls, and a history as a list of them. Each call holds the
-- lock throughout; it carries the time at which it runs and the ids that it draws.
use herdr_a2a.Base.{ℕ, List, [], ◌∷◌, Text}
use herdr_a2a.Core.Model.{
  AgentName, RegistrationId, DeliveryId, RegistrationCredentials, VerifiedAgent, QueuedDelivery,
  ReplyPayload,
}
use herdr_a2a.Core.Durability.{BrokerPersistence}
use herdr_a2a.Core.Validation.{Platform}
use herdr_a2a.Broker.Monad.{World}
use herdr_a2a.Broker.Sessions
use herdr_a2a.Broker.Enqueue
use herdr_a2a.Broker.Deliver
use herdr_a2a.Broker.Settle
use herdr_a2a.Broker.Inspect

pub data Call : Type 0 where
  register : RegistrationId → VerifiedAgent → Text → Call
  renew remove_registration authenticate begin_wait : RegistrationCredentials → Call
  end_wait : RegistrationId → Call
  enqueue : RegistrationCredentials → QueuedDelivery → Call
  poll_delivery ack_delivery : RegistrationCredentials → DeliveryId → Call
  reply fail_task reject_task : RegistrationCredentials → Text → ReplyPayload → Call
  cancel_task task_snapshot : RegistrationCredentials → Text → Call
  task_snapshot_for_sender : AgentName → Text → Call
  list_agents operations_snapshot : Call

module _ {Store : Type 0} (persistence : BrokerPersistence Store) (platform : Platform) where
  -- The world after a call at a time.
  unfoldable pub perform : Call → ℕ → World Store → World Store
  perform (register id agent session) now w =
      (Sessions.register persistence platform id agent session now w).1
  perform (renew c) now w = (Sessions.renew persistence platform c now w).1
  perform (remove_registration c) now w =
      (Sessions.remove_registration persistence platform c now w).1
  perform (authenticate c) now w = (Sessions.authenticate persistence platform c now w).1
  perform (begin_wait c) now w = (Sessions.begin_wait persistence platform c now w).1
  perform (end_wait id) now w = (Sessions.end_wait persistence platform id w).1
  perform (enqueue c delivery) now w = (Enqueue.enqueue persistence platform c delivery now w).1
  perform (poll_delivery c id) now w = (Deliver.poll_delivery persistence platform c id now w).1
  perform (ack_delivery c id) now w = (Deliver.ack_delivery persistence platform c id now w).1
  perform (reply c id payload) now w = (Settle.reply persistence platform c id payload now w).1
  perform (fail_task c id message) now w =
      (Settle.fail_task persistence platform c id message now w).1
  perform (reject_task c id message) now w =
      (Settle.reject_task persistence platform c id message now w).1
  perform (cancel_task c id) now w = (Settle.cancel_task persistence platform c id now w).1
  perform (task_snapshot c id) now w = (Inspect.task_snapshot persistence platform c id now w).1
  perform (task_snapshot_for_sender sender id) now w =
      (Inspect.task_snapshot_for_sender persistence platform sender id now w).1
  perform list_agents now w = (Inspect.list_agents persistence platform now w).1
  perform operations_snapshot now w = (Inspect.operations_snapshot persistence platform now w).1

  unfoldable pub run : List (ℕ × Call) → World Store → World Store
  run [] w = w
  run ((now, call) ∷ calls) w = run calls (perform call now w)
