-- ===== src/Broker/Reconcile.antt =====
-- `reconcile_state_if_required` and `recover`. Of crates/herdr-a2a-core/src/broker.rs.
use herdr_a2a.Base.{
  ℕ, Bool, false, ◌&&◌, ◌||◌, not, Option, none, some, List, [], ◌∷◌, ◌++◌, ltb, ◌==◌,
  if◌then◌else◌, is_empty, is_some, is_none, length, max, Text, text_eq, text_lt, u64_max,
}
use mathlib.Core.Option
use herdr_a2a.Base.Map.{Map}
use herdr_a2a.Base.Map
use herdr_a2a.Core.Errors.{
  DomainError, persistence_unavailable, task_not_found, Result, ok, err, panicked,
}
use herdr_a2a.Core.Errors
use herdr_a2a.Core.Model.{AgentName, RegistrationId, RegistrationCredentials, credentials}
use herdr_a2a.Core.Durability.{
  DurableTask, DurableBrokerSnapshot, PersistenceBatch, PersistenceCommitOutcome, complete,
  reconciliation_required, BrokerPersistence, batch_is_empty,
}
use herdr_a2a.Core.Validation.{Platform}
use herdr_a2a.Broker.Task.{TaskRecord, DeliveryLease, ReplyWaiter, reply_result_for_task}
use herdr_a2a.Broker.State.{
  State, default_state, RegistrationState, is_live, registration_of, active_registration_id,
  push_inbox,
}
use herdr_a2a.Broker.Restore.{
  Sweep, sweep_batch, BrokerRecoveryReport, validate_and_reconcile_snapshot, retain_undue,
  sort_tasks, advance_sequence, restore_task, restore_tasks,
}
use herdr_a2a.Broker.Monad.{
  M, ◌>>=◌, ◌>>◌, pure, lift, get_state, modify, modify_or_fail, Effect, notified, resolve_all,
  commit,
}

-- The waiters of each task that has some.
unfoldable pub retained_waiters : Map TaskRecord → Map (List ReplyWaiter)
retained_waiters [] = []
retained_waiters ((task_id, task) ∷ tasks) =
    let rest = retained_waiters tasks in
    if is_empty task.reply_waiters then rest else (task_id, task.reply_waiters) ∷ rest

abbrev clear_inbox : RegistrationState → RegistrationState
clear_inbox entry = record entry { inbox = [] }

-- What is forgotten before the snapshot is restored.
unfoldable pub clear_tasks : State → ℕ → State
clear_tasks state last_registration_epoch = record state {
  next_registration_epoch = max state.next_registration_epoch last_registration_epoch;
  next_task_sequence = 0;
  active_tasks_by_agent = [];
  outbound_tasks_by_agent = [];
  tasks_by_sender = [];
  tasks_by_recipient = [];
  tasks = [];
  tasks_by_delivery = [];
  delivery_deadlines = [];
  terminal_deadlines = [];
  registrations = Map.map_values clear_inbox state.registrations;
}

-- The `active_credentials` of an agent: those of its live registration.
unfoldable pub active_credentials : State → ℕ → AgentName → Option RegistrationCredentials
active_credentials state now agent = elim (registration_of state agent) [
  | none ↦ none
  | some entry ↦ if is_live now entry then some (credentials entry.registration) else none
]

abbrev pub set_owner : Option RegistrationCredentials → DeliveryLease → DeliveryLease
set_owner owner lease = record lease { owner = owner }

abbrev pub own_lease : State → ℕ → TaskRecord → TaskRecord
own_lease state now task = record task {
  lease = Option.map (set_owner (active_credentials state now task.recipient)) task.lease;
}

-- A restored lease belongs to the recipient's live registration.
unfoldable pub own_leases : State → ℕ → State
own_leases state now = record state { tasks = Map.map_values (own_lease state now) state.tasks }

-- The waiters of one task: kept with the task, or answered.
unfoldable pub return_waiters : Text → List ReplyWaiter → State → State × List Effect
return_waiters task_id waiters state = elim (Map.get state.tasks task_id) [
  | none ↦ (state, resolve_all waiters (err task_not_found))
  | some task ↦ elim (reply_result_for_task task) [
    | some result ↦ (state, resolve_all waiters result)
    | none ↦ (
      record state {
        tasks =
            Map.alter state.tasks task_id
              (λ t. record t { reply_waiters = t.reply_waiters ++ waiters });
      },
      [],
    )
  ]
]

unfoldable pub return_all_waiters : Map (List ReplyWaiter) → State → State × List Effect
return_all_waiters [] state = (state, [])
return_all_waiters ((task_id, waiters) ∷ rest) state =
    let (state', effects) = return_waiters task_id waiters state in
    let (state'', more) = return_all_waiters rest state' in (state'', effects ++ more)

-- An entry of `inbox_entries`: a registration, the place in the queue, and the task.
pub record InboxEntry : Type 0 where
  pub registration_id : RegistrationId
  pub sequence : ℕ
  pub task_id : Text

abbrev waits_for_lease : TaskRecord → Bool
waits_for_lease task =
    ((is_some task.delivery && not task.acknowledged) && (not task.canceled && not task.expired))
    && (is_none task.reply && is_none task.lease)

unfoldable pub inbox_entries : State → ℕ → Map TaskRecord → List InboxEntry
inbox_entries state now [] = []
inbox_entries state now ((task_id, task) ∷ tasks) =
    let rest = inbox_entries state now tasks in
    if waits_for_lease task
    then elim (active_registration_id state task.recipient now) [
      | none ↦ rest
      | some id ↦
          record { registration_id = id; sequence = task.enqueue_sequence; task_id = task_id }
          ∷ rest
    ]
    else rest

-- By registration, then by place in the queue, then by task.
abbrev entry_before : InboxEntry → InboxEntry → Bool
entry_before a b =
    text_lt a.registration_id b.registration_id
    || (text_eq a.registration_id b.registration_id
        && (ltb a.sequence b.sequence
            || ((a.sequence == b.sequence) && text_lt a.task_id b.task_id)))

unfoldable pub insert_entry : InboxEntry → List InboxEntry → List InboxEntry
insert_entry e [] = e ∷ []
insert_entry e (x ∷ xs) = if entry_before x e then x ∷ insert_entry e xs else e ∷ x ∷ xs

unfoldable pub sort_entries : List InboxEntry → List InboxEntry
sort_entries [] = []
sort_entries (e ∷ es) = insert_entry e (sort_entries es)

-- The entries go into the inboxes; each wakes its registration.
unfoldable pub push_entries : List InboxEntry → State → State × List Effect
push_entries [] state = (state, [])
push_entries (e ∷ es) state =
    let known = is_some (Map.get state.registrations e.registration_id) in
    let registrations =
      Map.alter state.registrations e.registration_id (λ entry. push_inbox entry e.task_id) in
    let (state', effects) = push_entries es (record state { registrations = registrations }) in
    (state', if known then notified e.registration_id ∷ effects else effects)

-- The last part of the reconciliation: owners, waiters and inboxes.
unfoldable pub reattach : Map (List ReplyWaiter) → State → ℕ → State × List Effect
reattach waiters state now =
    let (state', answers) = return_all_waiters waiters (own_leases state now) in
    let (state'', wakeups) =
      push_entries (sort_entries (inbox_entries state' now state'.tasks)) state' in
    (record state'' { reconciliation_required = false }, answers ++ wakeups)

abbrev pub empty_batch : PersistenceBatch
empty_batch = record {
  registration_epoch_high_watermark = none;
  upsert_tasks = [];
  delete_task_ids = [];
}

abbrev pub require_complete : {Store : Type 0} → PersistenceCommitOutcome → M Store (Unit {0})
require_complete complete = pure tt
require_complete reconciliation_required = lift (err persistence_unavailable)

module _ {Store : Type 0} (persistence : BrokerPersistence Store) (platform : Platform) where
  abbrev pub load : ℕ → M Store DurableBrokerSnapshot
  load now w = let (r, store) = persistence.load now w.store in (r, record w { store = store })

  -- A batch that is not empty is committed, and must be complete.
  abbrev pub commit_recovery : PersistenceBatch → M Store (Unit {0})
  commit_recovery batch =
      if batch_is_empty batch then pure tt else (commit persistence batch >>= require_complete)

  -- The loop over the snapshot: what was restored before an error stays.
  unfoldable pub restore_each : List DurableTask → M Store (Unit {0})
  restore_each [] = pure tt
  restore_each (task ∷ tasks) = do
    modify_or_fail advance_sequence
    modify_or_fail (λ s. restore_task s task)
    restore_each tasks

  unfoldable pub reattach_all : Map (List ReplyWaiter) → ℕ → M Store (Unit {0})
  reattach_all waiters now w =
      let (state, effects) = reattach waiters w.state now in
      (ok tt, record w { state = state; effects = w.effects ++ effects })

  -- The reconciliation itself, once it is required.
  unfoldable pub reconcile_state : ℕ → M Store (Unit {0})
  reconcile_state now = do
    repair ← commit persistence empty_batch
    require_complete repair
    snapshot ← load now
    lift (Errors.guard (not (snapshot.last_registration_epoch == u64_max)) persistence_unavailable)
    sweep ← lift (validate_and_reconcile_snapshot platform snapshot.tasks now)
    commit_recovery (sweep_batch sweep)
    before ← get_state
    modify (λ s. clear_tasks s snapshot.last_registration_epoch)
    restore_each (sort_tasks (retain_undue now sweep.restored))
    reattach_all (retained_waiters before.tasks) now

  unfoldable pub reconcile_state_if_required : ℕ → M Store (Unit {0})
  reconcile_state_if_required now w =
      if w.state.reconciliation_required then reconcile_state now w else (ok tt, w)

  -- The broker that `recover` builds from the snapshot, once its repairs are committed.
  unfoldable pub rebuild : ℕ → ℕ → Sweep → Result (State × BrokerRecoveryReport)
  rebuild now epoch sweep =
      let tasks = sort_tasks (retain_undue now sweep.restored) in
      elim (restore_tasks (record default_state { next_registration_epoch = epoch }) tasks) [
        | ok state ↦ ok (state, record (sweep.report) { restored = length tasks })
        | err e ↦ err e
        | panicked ↦ panicked
      ]

  abbrev rebuild_after :
      Result PersistenceCommitOutcome → ℕ → ℕ → Sweep → Result (State × BrokerRecoveryReport)
  rebuild_after (ok complete) now epoch sweep = rebuild now epoch sweep
  rebuild_after (ok reconciliation_required) now epoch sweep = err persistence_unavailable
  rebuild_after (err e) now epoch sweep = err e
  rebuild_after panicked now epoch sweep = panicked

  abbrev recover_swept : ℕ → ℕ → Sweep → Store → Result (State × BrokerRecoveryReport) × Store
  recover_swept now epoch sweep store =
      if epoch == u64_max
      then (err persistence_unavailable, store)
      else if batch_is_empty (sweep_batch sweep)
      then (rebuild now epoch sweep, store)
      else let (outcome, store') = persistence.commit (sweep_batch sweep) store in
        (rebuild_after outcome now epoch sweep, store')

  abbrev recover_loaded :
      Result DurableBrokerSnapshot → ℕ → Store → Result (State × BrokerRecoveryReport) × Store
  recover_loaded (err e) now store = (err e, store)
  recover_loaded panicked now store = (panicked, store)
  recover_loaded (ok snapshot) now store =
      elim (validate_and_reconcile_snapshot platform snapshot.tasks now) [
        | err e ↦ (err e, store)
        | panicked ↦ (panicked, store)
        | ok sweep ↦ recover_swept now snapshot.last_registration_epoch sweep store
      ]

  -- `recover`: a new broker on the given storage, and the report.
  unfoldable pub recover : ℕ → Store → Result (State × BrokerRecoveryReport) × Store
  recover now store =
      let (loaded, store') = persistence.load now store in recover_loaded loaded now store'
