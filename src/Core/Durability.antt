-- ===== src/Core/Durability.antt =====
-- crates/herdr-a2a-core/src/durability.rs: what the broker persists, and the interface of the
-- storage behind it.
use herdr_a2a.Base.{ℕ, Bool, ◌&&◌, Option, List, [], is_none, is_empty, Text}
use herdr_a2a.Core.Errors.{Result, ok}
use herdr_a2a.Core.Model.{AgentName, DeliveryId, RegistrationEpoch, ValidatedPayload, ReplyPayload}

pub data DurableTaskState : Type 0 where
  queued leased acknowledged replied failed rejected canceled expired : DurableTaskState

pub record DurableLease : Type 0 where
  pub delivery_id : DeliveryId
  pub owner : AgentName
  pub leased_until_unix_ms : ℕ
  pub attempt : ℕ

pub record DurableTask : Type 0 where
  pub task_id : Text
  pub context_id : Text
  pub sender : AgentName
  pub recipient : AgentName
  pub payload : ValidatedPayload
  pub created_unix_ms : ℕ
  pub delivery_deadline_unix_ms : ℕ
  pub state_version : ℕ
  pub state : DurableTaskState
  pub lease : Option DurableLease
  pub attempt : ℕ
  pub acknowledged_unix_ms : Option ℕ
  pub reply : Option ReplyPayload
  pub terminal_unix_ms : Option ℕ
  pub retention_deadline_unix_ms : Option ℕ

pub record DurableBrokerSnapshot : Type 0 where
  pub last_registration_epoch : RegistrationEpoch
  pub tasks : List DurableTask

pub record PersistenceBatch : Type 0 where
  pub registration_epoch_high_watermark : Option RegistrationEpoch
  pub upsert_tasks : List DurableTask
  pub delete_task_ids : List Text

pub data PersistenceCommitOutcome : Type 0 where
  complete reconciliation_required : PersistenceCommitOutcome

-- `PersistenceBatch::is_empty`
abbrev pub batch_is_empty : PersistenceBatch → Bool
batch_is_empty b =
    (is_none b.registration_epoch_high_watermark && is_empty b.upsert_tasks)
    && is_empty b.delete_task_ids

-- The trait `BrokerPersistence`, over the storage's own state.
pub record BrokerPersistence (Store : Type 0) : Type 0 where
  pub load : ℕ → Store → Result DurableBrokerSnapshot × Store
  pub commit : PersistenceBatch → Store → Result PersistenceCommitOutcome × Store

-- `VolatilePersistence`: nothing is kept.
abbrev pub volatile_persistence : BrokerPersistence (Unit {0})
volatile_persistence = record {
  load = λ _ store. (ok (record { last_registration_epoch = 0; tasks = [] }), store);
  commit = λ _ store. (ok complete, store);
}
