-- ===== src/Broker/Settle/Mirror.antt =====
-- `terminalize_task` against the durable form that is committed before it. Of
-- crates/herdr-a2a-core/src/broker.rs.
use herdr_a2a.Base.{ℕ, ◌≡◌, none, some, arith, i64_add, u64_succ, Text, Option-cases, inl, inr}
use herdr_a2a.Base.Map
use herdr_a2a.Base.Map.{get-insert_self}
use herdr_a2a.Core.Errors.{ok}
use herdr_a2a.Core.Durability.{DurableTask}
use herdr_a2a.Broker.Task.{
  TaskRecord, durable_task, durable_state, durable_terminal_task, next_state_version,
  terminal_retention_ms,
}
use herdr_a2a.Broker.State.{State}
use herdr_a2a.Broker.Terminal.{
  unindex_task, TerminalState, replied, failed, rejected, canceled, expired, settle, settle_task,
  terminalize_task,
}
use herdr_a2a.Broker.Settle.{outcome_state, outcome_reply}

-- The durable form of a settled record is the one that is committed for its outcome.
pub durable_task-settle :
    (task_id : Text) (task : TaskRecord) (version now deadline : ℕ) (o : TerminalState)
    {d : DurableTask}
    → u64_succ task.state_version ≡ some version
    → i64_add now terminal_retention_ms ≡ some deadline
    → durable_terminal_task task_id task now (outcome_state o) (outcome_reply o) ≡ ok d
    → durable_task task_id (settle task version now deadline o) ≡ ok d
unfolding durable_task durable_state durable_terminal_task next_state_version settle
durable_task-settle task_id task version now deadline (replied r) ev ed h = ground arith
durable_task-settle task_id task version now deadline (failed r) ev ed h = ground arith
durable_task-settle task_id task version now deadline (rejected r) ev ed h = ground arith
durable_task-settle task_id task version now deadline canceled ev ed h = ground arith
durable_task-settle task_id task version now deadline expired ev ed h = ground arith

-- Where the durable form of a settlement was computed, the version and the deadline fit.
pub terminal_numbers :
    (task_id : Text) (task : TaskRecord) (now : ℕ) (o : TerminalState) {d : DurableTask}
    → durable_terminal_task task_id task now (outcome_state o) (outcome_reply o) ≡ ok d
    → (version : ℕ) × (deadline : ℕ) × (u64_succ task.state_version ≡ some version)
      × (i64_add now terminal_retention_ms ≡ some deadline)
unfolding durable_terminal_task next_state_version
terminal_numbers task_id task now o h = elim (Option-cases (u64_succ task.state_version)) [
  | inl e ↦ absurd (ground arith)
  | inr (v, e) ↦ elim (Option-cases (i64_add now terminal_retention_ms)) [
    | inl e' ↦ absurd (ground arith)
    | inr (l, e') ↦ (v, l, e, e')
  ]
]

-- If a task without a terminal deadline has `d` as the durable form of an outcome, then
-- `terminalize_task` succeeds on it for that outcome, hands on all of its waiters, and leaves a
-- record whose durable form is `d`.
pub terminalize_task-durable :
    (s : State) (task_id : Text) (now : ℕ) (o : TerminalState) {task : TaskRecord} {d : DurableTask}
    → Map.get s.tasks task_id ≡ some task
    → task.terminal_deadline_unix_ms ≡ none
    → durable_terminal_task task_id task now (outcome_state o) (outcome_reply o) ≡ ok d
    → (s' : State) × (task' : TaskRecord) × (terminalize_task s task_id now o
        ≡ ok (task.reply_waiters, s'))
      × (Map.get s'.tasks task_id ≡ some task')
      × (durable_task task_id task' ≡ ok d)
unfolding terminalize_task settle_task
terminalize_task-durable s task_id now o {task} found unsettled h =
    let (v, l, ev, el) = terminal_numbers task_id task now o h in
    let settled = settle task v now l o in
    let s' : State = record (unindex_task s task task_id l) {
      tasks = Map.insert s.tasks task_id settled;
    } in
    (
      s',
      settled,
      ground arith,
      get-insert_self s.tasks task_id settled,
      durable_task-settle task_id task v now l o ev el h,
    )
