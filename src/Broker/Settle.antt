-- ===== src/Broker/Settle.antt =====
-- `reply`, `fail_task`, `reject_task` and `cancel_task`. Of crates/herdr-a2a-core/src/broker.rs.
pub mod Mirror
pub mod Final
pub mod Persisted
pub mod Atomic
use herdr_a2a.Base.{
  ℕ, Bool, true, false, ◌&&◌, ◌||◌, not, Option, none, some, List, [], ◌∷◌, if◌then◌else◌, is_some,
  is_some_and, Text, text_eq,
}
use herdr_a2a.Base.Map.{Map}
use herdr_a2a.Base.Map
use herdr_a2a.Core.Errors.{
  DomainError, persistence_unavailable, task_not_found, task_not_owned, task_canceled, task_expired,
  task_failed, task_rejected, task_already_completed, reply_already_submitted, Result, ok, err,
  ok_or, expect, guard, ◌>>=◌, ◌>>◌,
}
use herdr_a2a.Core.Model.{AgentName, RegistrationCredentials, ReplyPayload, payload_eq}
use herdr_a2a.Core.Durability.{DurableTask, DurableTaskState, BrokerPersistence}
use herdr_a2a.Core.Validation.{Platform}
use herdr_a2a.Broker.Task.{TaskRecord, ReplyResult, durable_terminal_task}
use herdr_a2a.Broker.State.{State}
use herdr_a2a.Broker.Terminal.{TerminalState, terminalize_task}
use herdr_a2a.Broker.Monad.{M, lift, get_state, attempt, emit, resolve_all, commit_transition}
use herdr_a2a.Broker.Monad
use herdr_a2a.Broker.Maintain.{validate_registration_and_maintain}
use herdr_a2a.Broker.Deliver.{single_task_batch}

-- What the tests of a settling method find: nothing is left to do, or the task is to be settled.
pub data Settlement : Type 0 where
  settled_before : Settlement
  to_settle : TaskRecord → Settlement

-- `RecipientTerminalState`
pub data RecipientTerminalState : Type 0 where
  failed rejected : RecipientTerminalState

unfoldable pub check_reply :
    State → RegistrationCredentials → Text → ReplyPayload → Result Settlement
check_reply state c task_id reply = do
  entry ← expect (Map.get state.registrations c.id)
  task ← ok_or (Map.get state.tasks task_id) task_not_found
  guard (text_eq task.recipient entry.registration.agent.name) task_not_owned
  guard (not task.canceled) task_canceled
  guard (not task.expired) task_expired
  guard (not (task.failed || task.rejected)) task_already_completed
  elim task.reply [
    | none ↦ ok (to_settle task)
    | some existing ↦
        if payload_eq existing reply then ok settled_before else err reply_already_submitted
  ]

abbrev same_outcome : RecipientTerminalState → TaskRecord → Bool
same_outcome failed task = task.failed
same_outcome rejected task = task.rejected

abbrev is_completed : TaskRecord → Bool
is_completed task =
    task.canceled || (task.expired || (task.failed || (task.rejected || is_some task.reply)))

unfoldable pub check_recipient_terminal :
    State
    → RegistrationCredentials
    → Text
    → ReplyPayload
    → RecipientTerminalState
    → Result Settlement
check_recipient_terminal state c task_id message outcome = do
  entry ← expect (Map.get state.registrations c.id)
  task ← ok_or (Map.get state.tasks task_id) task_not_found
  guard (text_eq task.recipient entry.registration.agent.name) task_not_owned
  if same_outcome outcome task && is_some_and task.reply (λ r. payload_eq r message)
      then ok settled_before
      else (guard (not (is_completed task)) task_already_completed >> ok (to_settle task))

unfoldable pub check_cancel : State → RegistrationCredentials → Text → Result Settlement
check_cancel state c task_id = do
  entry ← expect (Map.get state.registrations c.id)
  task ← ok_or (Map.get state.tasks task_id) task_not_found
  guard (text_eq task.sender entry.registration.agent.name) task_not_owned
  if task.canceled then ok settled_before else do
    guard (not task.expired) task_expired
    guard (not (is_some task.reply)) task_already_completed
    ok (to_settle task)

-- The durable state, the reply and the answer to the waiters, of each outcome.
abbrev pub outcome_state : TerminalState → DurableTaskState
outcome_state (TerminalState.replied _) = DurableTaskState.replied
outcome_state (TerminalState.failed _) = DurableTaskState.failed
outcome_state (TerminalState.rejected _) = DurableTaskState.rejected
outcome_state TerminalState.canceled = DurableTaskState.canceled
outcome_state TerminalState.expired = DurableTaskState.expired

abbrev pub outcome_reply : TerminalState → Option ReplyPayload
outcome_reply (TerminalState.replied reply) = some reply
outcome_reply (TerminalState.failed message) = some message
outcome_reply (TerminalState.rejected message) = some message
outcome_reply TerminalState.canceled = none
outcome_reply TerminalState.expired = none

abbrev pub outcome_answer : TerminalState → ReplyResult
outcome_answer (TerminalState.replied reply) = ok reply
outcome_answer (TerminalState.failed _) = err task_failed
outcome_answer (TerminalState.rejected _) = err task_rejected
outcome_answer TerminalState.canceled = err task_canceled
outcome_answer TerminalState.expired = err task_expired

abbrev pub recipient_outcome : RecipientTerminalState → ReplyPayload → TerminalState
recipient_outcome failed message = TerminalState.failed message
recipient_outcome rejected message = TerminalState.rejected message

module _ {Store : Type 0} (persistence : BrokerPersistence Store) (platform : Platform) where
  -- The end that the settling methods share: commit, settle, answer the waiters.
  unfoldable pub settle_found : Text → ℕ → TerminalState → Settlement → M Store (Unit {0})
  settle_found task_id now outcome settled_before = Monad.pure tt
  settle_found task_id now outcome (to_settle task) =
      Monad.◌>>=◌
        (lift
          (durable_terminal_task task_id task now (outcome_state outcome) (outcome_reply outcome)))
        λ durable. Monad.◌>>=◌ (commit_transition persistence (single_task_batch durable)) λ _.
          Monad.◌>>=◌ (attempt (λ s. terminalize_task s task_id now outcome))
            λ waiters. emit (resolve_all waiters (outcome_answer outcome))

  unfoldable pub reply : RegistrationCredentials → Text → ReplyPayload → ℕ → M Store (Unit {0})
  reply c task_id payload now =
      Monad.◌>>=◌ (validate_registration_and_maintain persistence platform c now) λ _.
        Monad.◌>>=◌ get_state λ state.
          Monad.◌>>=◌ (lift (check_reply state c task_id payload))
            λ found. settle_found task_id now (TerminalState.replied payload) found

  unfoldable pub recipient_terminal :
      RegistrationCredentials
      → Text
      → ReplyPayload
      → RecipientTerminalState
      → ℕ
      → M Store (Unit {0})
  recipient_terminal c task_id message outcome now =
      Monad.◌>>=◌ (validate_registration_and_maintain persistence platform c now) λ _.
        Monad.◌>>=◌ get_state λ state.
          Monad.◌>>=◌ (lift (check_recipient_terminal state c task_id message outcome))
            λ found. settle_found task_id now (recipient_outcome outcome message) found

  unfoldable pub fail_task : RegistrationCredentials → Text → ReplyPayload → ℕ → M Store (Unit {0})
  fail_task c task_id message now = recipient_terminal c task_id message failed now

  unfoldable pub reject_task :
      RegistrationCredentials → Text → ReplyPayload → ℕ → M Store (Unit {0})
  reject_task c task_id message now = recipient_terminal c task_id message rejected now

  unfoldable pub cancel_task : RegistrationCredentials → Text → ℕ → M Store (Unit {0})
  cancel_task c task_id now =
      Monad.◌>>=◌ (validate_registration_and_maintain persistence platform c now) λ _.
        Monad.◌>>=◌ get_state λ state.
          Monad.◌>>=◌ (lift (check_cancel state c task_id))
            λ found. settle_found task_id now TerminalState.canceled found
