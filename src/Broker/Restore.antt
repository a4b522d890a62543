-- ===== src/Broker/Restore.antt =====
-- What a restart or a reconciliation reads back from storage. Of
-- crates/herdr-a2a-core/src/broker.rs.
pub mod Roundtrip
pub mod Sweeps
use herdr_a2a.Base.{
  ℕ, ◌+◌, Bool, true, false, ◌&&◌, ◌||◌, not, Option, none, some, List, [], ◌∷◌, ltb, leb, ◌==◌,
  if◌then◌else◌, is_some_and, is_none_or, then_some, length, retain, Text, text_eq, text_lt,
  i64_add, u64_succ,
}
use mathlib.Core.Option
use herdr_a2a.Base.Map.{Map}
use herdr_a2a.Base.Map
use herdr_a2a.Base.TextSet.{TextSet}
use herdr_a2a.Base.TextSet
use herdr_a2a.Core.Errors.{Result, ok, err, ◌>>=◌, ◌>>◌, guard, ok_or, persistence_unavailable}
use herdr_a2a.Core.Model.{QueuedDelivery}
use herdr_a2a.Core.Durability.{
  DurableTask, DurableLease, DurableTaskState, queued, leased, acknowledged, replied, failed,
  rejected, canceled, PersistenceBatch,
}
use herdr_a2a.Core.Validation.{Platform}
use herdr_a2a.Broker.Task.{
  TaskRecord, DeliveryLease, validate_durable_task, max_retained_tasks, terminal_retention_ms,
}
use herdr_a2a.Broker.Deadlines
use herdr_a2a.Broker.State.{State, index_insert}

-- `BrokerRecoveryReport`
pub record BrokerRecoveryReport : Type 0 where
  pub requeued : ℕ
  pub expired : ℕ
  pub pruned : ℕ
  pub restored : ℕ

abbrev pub empty_report : BrokerRecoveryReport
empty_report = record { requeued = 0; expired = 0; pruned = 0; restored = 0 }

abbrev pub is_terminal : DurableTaskState → Bool
is_terminal queued = false
is_terminal leased = false
is_terminal acknowledged = false
is_terminal _ = true

abbrev pub is_leased : DurableTaskState → Bool
is_leased leased = true
is_leased _ = false

-- What becomes of one task of the snapshot.
pub data Verdict : Type 0 where
  pruned : Verdict
  kept expired requeued : DurableTask → Verdict

-- A task whose delivery deadline has passed.
unfoldable pub expire_durable : DurableTask → ℕ → Result DurableTask
expire_durable task now = do
  retention ← ok_or (i64_add now terminal_retention_ms) persistence_unavailable
  version ← ok_or (u64_succ task.state_version) persistence_unavailable
  ok (record task {
    state_version = version;
    state = DurableTaskState.expired;
    lease = none;
    acknowledged_unix_ms = none;
    reply = none;
    terminal_unix_ms = some now;
    retention_deadline_unix_ms = some retention;
  })

-- A task whose lease did not outlive the broker.
unfoldable pub requeue_durable : DurableTask → Result DurableTask
requeue_durable task = do
  version ← ok_or (u64_succ task.state_version) persistence_unavailable
  ok (record task { state_version = version; state = queued; lease = none })

-- What becomes of one task, in the loop of `validate_and_reconcile_snapshot`.
unfoldable pub reconcile_task : DurableTask → ℕ → Result Verdict
reconcile_task task now =
    if is_some_and task.retention_deadline_unix_ms (λ deadline. leb deadline now)
    then ok Verdict.pruned
    else if not (is_terminal task.state) && leb task.delivery_deadline_unix_ms now
    then expire_durable task now >>= (λ t. ok (Verdict.expired t))
    else if is_leased task.state
    then requeue_durable task >>= (λ t. ok (Verdict.requeued t))
    else ok (kept task)

-- What the loop has gathered.
pub record Sweep : Type 0 where
  pub restored : List DurableTask
  pub upsert_tasks : List DurableTask
  pub delete_task_ids : List Text
  pub report : BrokerRecoveryReport

abbrev pub empty_sweep : Sweep
empty_sweep = record {
  restored = [];
  upsert_tasks = [];
  delete_task_ids = [];
  report = empty_report;
}

-- One task's verdict, before those of the tasks behind it.
unfoldable pub add_verdict : Text → Verdict → Sweep → Sweep
add_verdict task_id Verdict.pruned s = record s {
  delete_task_ids = task_id ∷ s.delete_task_ids;
  report = record (s.report) { pruned = s.report.pruned + 1 };
}
add_verdict task_id (kept task) s = record s { restored = task ∷ s.restored }
add_verdict task_id (Verdict.expired task) s = record s {
  restored = task ∷ s.restored;
  upsert_tasks = task ∷ s.upsert_tasks;
  report = record (s.report) { expired = s.report.expired + 1 };
}
add_verdict task_id (Verdict.requeued task) s = record s {
  restored = task ∷ s.restored;
  upsert_tasks = task ∷ s.upsert_tasks;
  report = record (s.report) { requeued = s.report.requeued + 1 };
}

abbrev pub is_known_delivery : TextSet → DurableTask → Bool
is_known_delivery delivery_ids task =
    is_some_and task.lease (λ lease. TextSet.contains delivery_ids lease.delivery_id)

abbrev pub add_delivery_id : TextSet → DurableTask → TextSet
add_delivery_id delivery_ids task = elim task.lease [
  | none ↦ delivery_ids
  | some lease ↦ TextSet.insert delivery_ids lease.delivery_id
]

-- The loop, over the task ids and delivery ids that it has met.
unfoldable pub sweep_tasks : Platform → ℕ → TextSet → TextSet → List DurableTask → Result Sweep
sweep_tasks platform now task_ids delivery_ids [] = ok empty_sweep
sweep_tasks platform now task_ids delivery_ids (task ∷ tasks) = do
  validate_durable_task platform task
  guard (not (TextSet.contains task_ids task.task_id)) persistence_unavailable
  guard (not (is_known_delivery delivery_ids task)) persistence_unavailable
  verdict ← reconcile_task task now
  swept ←
      sweep_tasks platform now (TextSet.insert task_ids task.task_id)
        (add_delivery_id delivery_ids task) tasks
  ok (add_verdict task.task_id verdict swept)

abbrev pub sweep_batch : Sweep → PersistenceBatch
sweep_batch s = record {
  registration_epoch_high_watermark = none;
  upsert_tasks = s.upsert_tasks;
  delete_task_ids = s.delete_task_ids;
}

unfoldable pub validate_and_reconcile_snapshot : Platform → List DurableTask → ℕ → Result Sweep
validate_and_reconcile_snapshot platform tasks now = do
  guard (leb (length tasks) max_retained_tasks) persistence_unavailable
  sweep_tasks platform now [] [] tasks

-- `tasks.retain(|task| task.retention_deadline_unix_ms.is_none_or(|deadline| deadline > now))`
unfoldable pub retain_undue : ℕ → List DurableTask → List DurableTask
retain_undue now = retain (λ task. is_none_or task.retention_deadline_unix_ms (λ d. ltb now d))

-- The order of `sort_by`: by creation time, then by id.
abbrev created_before : DurableTask → DurableTask → Bool
created_before a b =
    ltb a.created_unix_ms b.created_unix_ms
    || ((a.created_unix_ms == b.created_unix_ms) && text_lt a.task_id b.task_id)

unfoldable pub insert_sorted : DurableTask → List DurableTask → List DurableTask
insert_sorted task [] = task ∷ []
insert_sorted task (t ∷ ts) =
    if created_before t task then t ∷ insert_sorted task ts else task ∷ t ∷ ts

unfoldable pub sort_tasks : List DurableTask → List DurableTask
sort_tasks [] = []
sort_tasks (t ∷ ts) = insert_sorted t (sort_tasks ts)

-- The `original_delivery` of `restore_task`.
abbrev pub restored_delivery : DurableTask → QueuedDelivery
restored_delivery task = record {
  task_id = task.task_id;
  context_id = task.context_id;
  sender = task.sender;
  recipient = task.recipient;
  payload = task.payload;
  created_unix_ms = task.created_unix_ms;
  attempt = task.attempt;
}

abbrev restored_lease : DurableLease → DeliveryLease
restored_lease lease = record {
  delivery_id = lease.delivery_id;
  owner = none;
  leased_until_unix_ms = lease.leased_until_unix_ms;
  attempt = lease.attempt;
}

-- `==` of two states, by their place in the enumeration
abbrev place : DurableTaskState → ℕ
place queued = 0
place leased = 1
place acknowledged = 2
place replied = 3
place failed = 4
place rejected = 5
place canceled = 6
place DurableTaskState.expired = 7

abbrev pub state_is : DurableTaskState → DurableTaskState → Bool
state_is a b = place a == place b

-- The `record` of `restore_task`.
unfoldable pub restored_record : ℕ → DurableTask → TaskRecord
restored_record sequence task = record {
  enqueue_sequence = sequence;
  state_version = task.state_version;
  original_delivery = restored_delivery task;
  delivery = then_some (not (is_terminal task.state)) (restored_delivery task);
  recipient = task.recipient;
  sender = task.sender;
  lease = Option.map restored_lease task.lease;
  last_delivery_attempt = then_some (ltb 1 task.state_version) task.attempt;
  acknowledged = state_is task.state acknowledged;
  acknowledged_unix_ms = task.acknowledged_unix_ms;
  reply = task.reply;
  reply_waiters = [];
  failed = state_is task.state failed;
  rejected = state_is task.state rejected;
  canceled = state_is task.state canceled;
  expired = state_is task.state DurableTaskState.expired;
  terminal_unix_ms = task.terminal_unix_ms;
  terminal_deadline_unix_ms = task.retention_deadline_unix_ms;
}

-- A task that is not settled goes into the indexes.
unfoldable pub index_restored : State → DurableTask → State
index_restored state task = record state {
  tasks_by_delivery = elim task.lease [
    | none ↦ state.tasks_by_delivery
    | some lease ↦ Map.insert state.tasks_by_delivery lease.delivery_id task.task_id
  ];
  delivery_deadlines =
      Deadlines.push state.delivery_deadlines (task.delivery_deadline_unix_ms, task.task_id);
  active_tasks_by_agent =
      index_insert (index_insert state.active_tasks_by_agent task.sender task.task_id)
        task.recipient task.task_id;
  outbound_tasks_by_agent = index_insert state.outbound_tasks_by_agent task.sender task.task_id;
  tasks_by_sender = index_insert state.tasks_by_sender task.sender task.task_id;
  tasks_by_recipient = index_insert state.tasks_by_recipient task.recipient task.task_id;
}

unfoldable pub index_terminal : State → DurableTask → Result State
index_terminal state task = do
  deadline ← ok_or task.retention_deadline_unix_ms persistence_unavailable
  ok (record state {
    terminal_deadlines = Deadlines.push state.terminal_deadlines (deadline, task.task_id);
  })

unfoldable pub restore_task : State → DurableTask → Result State
restore_task state task = do
  state' ←
      (if is_terminal task.state then index_terminal state task else ok (index_restored state task))
  ok (record state' {
    tasks = Map.insert state.tasks task.task_id (restored_record state.next_task_sequence task);
  })

-- The counter of the tasks goes up by one before each task is restored.
unfoldable pub advance_sequence : State → Result State
advance_sequence state = do
  sequence ← ok_or (u64_succ state.next_task_sequence) persistence_unavailable
  ok (record state { next_task_sequence = sequence })

-- The loop over the tasks of the snapshot, in `recover` and in `reconcile_state_if_required`.
unfoldable pub restore_tasks : State → List DurableTask → Result State
restore_tasks state [] = ok state
restore_tasks state (task ∷ tasks) = do
  counted ← advance_sequence state
  state' ← restore_task counted task
  restore_tasks state' tasks
