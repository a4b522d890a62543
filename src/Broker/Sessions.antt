-- ===== src/Broker/Sessions.antt =====
-- Registrations: `register`, `renew`, `remove_registration`, `authenticate`, `begin_wait` and the
-- end of a wait. Of crates/herdr-a2a-core/src/broker.rs.
use herdr_a2a.Base.{
  ℕ, Bool, true, false, ◌&&◌, ◌||◌, not, Option, none, some, List, [], ◌∷◌, ltb, ◌==◌,
  if◌then◌else◌, is_empty, is_some, is_none, Text, text_lt, text_eq, i64_add, u64_succ, map,
}
use herdr_a2a.Base.Map.{Map}
use herdr_a2a.Base.Map
use herdr_a2a.Base.TextSet.{TextSet}
use herdr_a2a.Core.Errors.{
  DomainError, persistence_unavailable, wait_already_active, Result, ok, err, panicked, ok_or,
  expect,
}
use herdr_a2a.Core.Errors
use herdr_a2a.Core.Model.{
  AgentName, RegistrationId, RegistrationCredentials, Registration, VerifiedAgent, credentials,
}
use herdr_a2a.Core.Durability.{DurableTask, BrokerPersistence}
use herdr_a2a.Core.Validation.{Platform}
use herdr_a2a.Broker.Task.{TaskRecord, registration_ttl_ms}
use herdr_a2a.Broker.State.{State, RegistrationState, registered, record_status_event}
use herdr_a2a.Broker.Registry.{
  detach_registration, requeued_tasks, bump_requeued_versions_for_credentials,
}
use herdr_a2a.Broker.Monad.{
  M, ◌>>=◌, ◌>>◌, pure, lift, get_state, modify, modify_or_fail, attempt, emit, Effect, notified,
  record_directory, commit_transition,
}
use herdr_a2a.Broker.Maintain.{maintain_state, validate_registration_and_maintain}

-- The id and the entry of the agent's earlier registration.
unfoldable pub earlier_registration :
    State → AgentName → Option (RegistrationId × RegistrationState)
earlier_registration state name = elim (Map.get state.registrations_by_agent name) [
  | none ↦ none
  | some id ↦ elim (Map.get state.registrations id) [ none ↦ none | some entry ↦ some (id, entry) ]
]

abbrev entry_credentials : RegistrationId × RegistrationState → RegistrationCredentials
entry_credentials (id, entry) = credentials entry.registration

-- The durable forms of the tasks that the earlier registration gives back.
unfoldable pub replaced_tasks : State → AgentName → Result (List DurableTask)
replaced_tasks state name = elim (earlier_registration state name) [
  | none ↦ ok []
  | some earlier ↦ requeued_tasks state.tasks (entry_credentials earlier)
]

abbrev waits_for : TaskRecord → AgentName → Bool
waits_for task name =
    (text_eq task.recipient name && not task.acknowledged)
    && ((not task.canceled && not task.expired) && (is_none task.reply && is_some task.delivery))

-- The tasks that wait for the agent, each with its place in the queue.
unfoldable pub waiting_tasks : State → AgentName → TextSet → Result (List (ℕ × Text))
waiting_tasks state name [] = ok []
waiting_tasks state name (task_id ∷ task_ids) =
    Errors.◌>>=◌ (expect (Map.get state.tasks task_id)) λ task.
      Errors.◌>>=◌ (waiting_tasks state name task_ids)
        λ rest. ok (if waits_for task name then (task.enqueue_sequence, task_id) ∷ rest else rest)

abbrev place_before : ℕ × Text → ℕ × Text → Bool
place_before (n, i) (m, j) = ltb n m || ((n == m) && text_lt i j)

unfoldable pub insert_place : ℕ × Text → List (ℕ × Text) → List (ℕ × Text)
insert_place x [] = x ∷ []
insert_place x (y ∷ ys) = if place_before y x then y ∷ insert_place x ys else x ∷ y ∷ ys

-- `sort_unstable`
unfoldable pub sort_places : List (ℕ × Text) → List (ℕ × Text)
sort_places [] = []
sort_places (x ∷ xs) = insert_place x (sort_places xs)

abbrev second : ℕ × Text → Text
second (n, t) = t

-- The inbox that a new registration of the agent begins with.
unfoldable pub initial_inbox : State → AgentName → Result (List Text)
initial_inbox state name = elim (Map.get state.active_tasks_by_agent name) [
  | none ↦ ok []
  | some task_ids ↦
      Errors.◌>>=◌ (waiting_tasks state name task_ids)
        λ places. ok (map second (sort_places places))
]

-- The versions of the tasks that the earlier registration holds go up, and it is detached and retired.
unfoldable pub detach_earlier : State → AgentName → Result (List Effect × State)
detach_earlier state name = elim (Map.get state.registrations_by_agent name) [
  | none ↦ ok ([], state)
  | some id ↦ elim (Map.get state.registrations id) [
    | none ↦ ok ([], (detach_registration state id true).1)
    | some entry ↦
        Errors.◌>>=◌ (bump_requeued_versions_for_credentials state (credentials entry.registration))
          λ bumped. ok (notified id ∷ [], (detach_registration bumped id true).1)
  ]
]

-- The new entry goes into the registrations and into the index of agents.
unfoldable pub list_registration : State → Registration → List Text → ℕ → State
list_registration state r inbox now =
    record_status_event
      (record state {
        registrations_by_agent = Map.insert state.registrations_by_agent r.agent.name r.id;
        registrations =
            Map.insert state.registrations r.id
              (record { registration = r; inbox = inbox; wait_active = false });
      })
      registered r.agent.name now

-- What `register` does to the state once its batch is committed: the wake-up of the old entry.
unfoldable pub install_registration : State → Registration → ℕ → Result (List Effect × State)
install_registration state r now =
    let counted = record state { next_registration_epoch = r.epoch } in
    Errors.◌>>=◌ (detach_earlier counted r.agent.name) λ detached.
      Errors.◌>>=◌ (initial_inbox detached.1 r.agent.name)
        λ inbox. ok (detached.0, list_registration detached.1 r inbox now)

abbrev set_expiry : ℕ → RegistrationState → RegistrationState
set_expiry expiry entry = record entry {
  registration = record (entry.registration) { expires_unix_ms = expiry };
}

abbrev start_wait : RegistrationState → RegistrationState
start_wait entry = record entry { wait_active = true }

abbrev stop_wait : RegistrationState → RegistrationState
stop_wait entry = record entry { wait_active = false }

module _ {Store : Type 0} (persistence : BrokerPersistence Store) (platform : Platform) where
  -- `id` is the new `RegistrationId`.
  unfoldable pub register : RegistrationId → VerifiedAgent → Text → ℕ → M Store Registration
  register id agent harness_session_id now = do
    maintain_state persistence platform now
    expiry ← lift (ok_or (i64_add now registration_ttl_ms) persistence_unavailable)
    state ← get_state
    epoch ← lift (ok_or (u64_succ state.next_registration_epoch) persistence_unavailable)
    let registration : Registration = record {
      id = id;
      epoch = epoch;
      agent = agent;
      harness_session_id = harness_session_id;
      expires_unix_ms = expiry;
    }
    requeued ← lift (replaced_tasks state agent.name)
    commit_transition persistence (record {
      registration_epoch_high_watermark = some epoch;
      upsert_tasks = requeued;
      delete_task_ids = [];
    })
    wakeups ← attempt (λ s. install_registration s registration now)
    record_directory
    emit wakeups
    pure registration

  -- The registration that `validate_registration_and_maintain` has just found active.
  abbrev pub registered_entry : RegistrationId → M Store RegistrationState
  registered_entry id w = (expect (Map.get w.state.registrations id), w)

  unfoldable pub renew : RegistrationCredentials → ℕ → M Store Registration
  renew c now = do
    validate_registration_and_maintain persistence platform c now
    expiry ← lift (ok_or (i64_add now registration_ttl_ms) persistence_unavailable)
    entry ← registered_entry c.id
    modify (λ s. record s { registrations = Map.alter s.registrations c.id (set_expiry expiry) })
    pure (record (entry.registration) { expires_unix_ms = expiry })

  unfoldable pub remove_registration : RegistrationCredentials → ℕ → M Store (Unit {0})
  remove_registration c now = do
    validate_registration_and_maintain persistence platform c now
    state ← get_state
    requeued ← lift (requeued_tasks state.tasks c)
    if is_empty requeued
        then pure tt
        else commit_transition persistence (record {
          registration_epoch_high_watermark = none;
          upsert_tasks = requeued;
          delete_task_ids = [];
        })
    modify_or_fail (λ s. bump_requeued_versions_for_credentials s c)
    _ ← registered_entry c.id
    modify (λ s. (detach_registration s c.id false).1)
    record_directory
    emit (notified c.id ∷ [])

  unfoldable pub authenticate : RegistrationCredentials → ℕ → M Store Registration
  authenticate c now = do
    validate_registration_and_maintain persistence platform c now
    entry ← registered_entry c.id
    pure entry.registration

  unfoldable pub begin_wait : RegistrationCredentials → ℕ → M Store (Unit {0})
  begin_wait c now = do
    validate_registration_and_maintain persistence platform c now
    entry ← registered_entry c.id
    lift (Errors.guard (not entry.wait_active) wait_already_active)
    modify (λ s. record s { registrations = Map.alter s.registrations c.id start_wait })

  -- The `WaitGuard` is dropped.
  unfoldable pub end_wait : RegistrationId → M Store (Unit {0})
  end_wait id = modify (λ s. record s { registrations = Map.alter s.registrations id stop_wait })
