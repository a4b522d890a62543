-- ===== src/Broker/Maintain.antt =====
-- `maintain_state` and what every authenticated method begins with. Of
-- crates/herdr-a2a-core/src/broker.rs.
use herdr_a2a.Base.{
  ℕ, Bool, true, false, ◌&&◌, not, none, some, List, [], ◌∷◌, ◌++◌, leb, if◌then◌else◌, is_empty,
  is_some, is_some_and, any, Text, text_eq, i64_add,
}
use herdr_a2a.Base.Map.{Map}
use herdr_a2a.Base.Map
use herdr_a2a.Core.Errors.{
  DomainError, persistence_unavailable, task_expired, Result, ok, err, panicked, ok_or, expect,
}
use herdr_a2a.Core.Errors
use herdr_a2a.Core.Model.{RegistrationId, RegistrationCredentials, credentials_eq, credentials}
use herdr_a2a.Core.Durability.{
  DurableTask, DurableTaskState, PersistenceBatch, BrokerPersistence, batch_is_empty,
}
use herdr_a2a.Core.Validation.{Platform}
use herdr_a2a.Broker.Task.{
  TaskRecord, durable_terminal_task, durable_requeued_task, delivery_ttl_ms,
}
use herdr_a2a.Broker.State.{State, RegistrationState, validate_active_registration}
use herdr_a2a.Broker.Terminal.{
  TerminalState, terminalize_task, prune_delivery_deadlines, prune_terminal_tasks,
}
use herdr_a2a.Broker.Registry.{detach_registration, bump_requeued_versions_for_credentials}
use herdr_a2a.Broker.Monad.{
  M, ◌>>=◌, ◌>>◌, pure, lift, get_state, modify, modify_or_fail, attempt, emit, Effect, notified,
  resolve_all, record_directory, commit_transition,
}
use herdr_a2a.Broker.Reconcile.{reconcile_state_if_required}

-- A task that is not settled, and whose delivery deadline has passed.
unfoldable pub is_due : TaskRecord → ℕ → Result Bool
is_due task now = if is_some task.terminal_deadline_unix_ms then ok false else elim task.delivery [
  | none ↦ ok false
  | some delivery ↦
      Errors.◌>>=◌
        (ok_or (i64_add delivery.created_unix_ms delivery_ttl_ms) persistence_unavailable)
        (λ deadline. ok (leb deadline now))
]

-- `due_task_ids`
unfoldable pub due_task_ids : Map TaskRecord → ℕ → Result (List Text)
due_task_ids [] now = ok []
due_task_ids ((task_id, task) ∷ tasks) now =
    Errors.◌>>=◌ (is_due task now)
      λ due. Errors.◌>>=◌ (due_task_ids tasks now) λ rest. ok (if due then task_id ∷ rest else rest)

-- `expired_registration_ids`
unfoldable pub expired_registration_ids : Map RegistrationState → ℕ → List RegistrationId
expired_registration_ids [] now = []
expired_registration_ids ((id, entry) ∷ entries) now =
    let rest = expired_registration_ids entries now in
    if leb entry.registration.expires_unix_ms now then id ∷ rest else rest

-- `expired_credentials`
unfoldable pub expired_credentials : State → List RegistrationId → List RegistrationCredentials
expired_credentials state [] = []
expired_credentials state (id ∷ ids) =
    let rest = expired_credentials state ids in
    elim (Map.get state.registrations id) [
      | none ↦ rest
      | some entry ↦ credentials entry.registration ∷ rest
    ]

abbrev contains_credentials : List RegistrationCredentials → RegistrationCredentials → Bool
contains_credentials cs owner = any (λ c. credentials_eq c owner) cs

-- The durable forms of the tasks that expire.
unfoldable pub expired_upserts : State → ℕ → List Text → Result (List DurableTask)
expired_upserts state now [] = ok []
expired_upserts state now (task_id ∷ task_ids) =
    Errors.◌>>=◌ (expect (Map.get state.tasks task_id)) λ task.
      Errors.◌>>=◌ (durable_terminal_task task_id task now DurableTaskState.expired none)
        λ durable. Errors.◌>>=◌ (expired_upserts state now task_ids) λ rest. ok (durable ∷ rest)

abbrev loses_lease : List Text → List RegistrationCredentials → Text → TaskRecord → Bool
loses_lease due expired task_id task =
    (not (any (λ d. text_eq d task_id) due) && not task.acknowledged)
    && is_some_and task.lease (λ lease. is_some_and lease.owner (contains_credentials expired))

-- The durable forms of the tasks whose lease ends with a registration.
unfoldable pub requeued_upserts :
    List Text → List RegistrationCredentials → Map TaskRecord → Result (List DurableTask)
requeued_upserts due expired [] = ok []
requeued_upserts due expired ((task_id, task) ∷ tasks) =
    elim (loses_lease due expired task_id task) [
      | false ↦ requeued_upserts due expired tasks
      | true ↦
          Errors.◌>>=◌ (durable_requeued_task task_id task)
            λ durable. Errors.◌>>=◌ (requeued_upserts due expired tasks) λ rest. ok (durable ∷ rest)
    ]

-- `delete_task_ids`
unfoldable pub overdue_task_ids : Map TaskRecord → ℕ → List Text
overdue_task_ids [] now = []
overdue_task_ids ((task_id, task) ∷ tasks) now =
    let rest = overdue_task_ids tasks now in
    if is_some_and task.terminal_deadline_unix_ms (λ deadline. leb deadline now)
    then task_id ∷ rest
    else rest

-- What `maintain_state` reads off the state before it writes anything.
pub record Duties : Type 0 where
  pub due : List Text
  pub expired_ids : List RegistrationId
  pub expired : List RegistrationCredentials
  pub batch : PersistenceBatch

unfoldable pub maintenance_duties : State → ℕ → Result Duties
maintenance_duties state now = Errors.◌>>=◌ (due_task_ids state.tasks now) λ due.
    let ids = expired_registration_ids state.registrations now in
    let expired = expired_credentials state ids in
    Errors.◌>>=◌ (expired_upserts state now due) λ ends.
      Errors.◌>>=◌ (requeued_upserts due expired state.tasks) λ requeues. ok (record {
        due = due;
        expired_ids = ids;
        expired = expired;
        batch = record {
          registration_epoch_high_watermark = none;
          upsert_tasks = ends ++ requeues;
          delete_task_ids = overdue_task_ids state.tasks now;
        };
      })

-- The answers to the waiters of the tasks that expire. The numbers that `terminalize_task` could
-- fail to compute were computed by `expired_upserts` before, so the loop does not stop half way.
unfoldable pub expire_tasks : State → ℕ → List Text → Result (List Effect × State)
expire_tasks state now [] = ok ([], state)
expire_tasks state now (task_id ∷ task_ids) =
    Errors.◌>>=◌ (terminalize_task state task_id now TerminalState.expired) λ done.
      Errors.◌>>=◌ (expire_tasks done.1 now task_ids)
        λ rest. ok (resolve_all done.0 (err task_expired) ++ rest.0, rest.1)

unfoldable pub bump_all : State → List RegistrationCredentials → Result State
bump_all state [] = ok state
bump_all state (c ∷ cs) =
    Errors.◌>>=◌ (bump_requeued_versions_for_credentials state c) λ state'. bump_all state' cs

-- Each registration that has expired is detached, retired and woken.
unfoldable pub detach_all : State → List RegistrationId → State × List Effect
detach_all state [] = (state, [])
detach_all state (id ∷ ids) =
    let (entry, state') = detach_registration state id true in
    let (state'', effects) = detach_all state' ids in
    (state'', if is_some entry then notified id ∷ effects else effects)

unfoldable pub prune : State → ℕ → State
prune state now = prune_terminal_tasks (prune_delivery_deadlines state now) now

module _ {Store : Type 0} (persistence : BrokerPersistence Store) (platform : Platform) where
  abbrev pub detach_expired : List RegistrationId → M Store (Unit {0})
  detach_expired ids w =
      let (state, effects) = detach_all w.state ids in
      (ok tt, record w { state = state; effects = w.effects ++ effects })

  -- What `maintain_state` does once its batch is committed.
  unfoldable pub perform_duties : Duties → ℕ → M Store (Unit {0})
  perform_duties duties now = do
    answers ← attempt (λ s. expire_tasks s now duties.due)
    modify_or_fail (λ s. bump_all s duties.expired)
    detach_expired duties.expired_ids
    if is_empty duties.expired then pure tt else record_directory
    modify (λ s. prune s now)
    emit answers

  unfoldable pub maintain_state : ℕ → M Store (Unit {0})
  maintain_state now = do
    reconcile_state_if_required persistence platform now
    state ← get_state
    duties ← lift (maintenance_duties state now)
    if batch_is_empty duties.batch then pure tt else commit_transition persistence duties.batch
    perform_duties duties now

  unfoldable pub validate_registration_and_maintain :
      RegistrationCredentials → ℕ → M Store (Unit {0})
  validate_registration_and_maintain c now = do
    before ← get_state
    maintain_state now
    lift (validate_active_registration before c now)
