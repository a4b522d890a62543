-- ===== src/Broker/Terminal.antt =====
-- `terminalize_task`, and the pruning of deadlines. Of crates/herdr-a2a-core/src/broker.rs.
use herdr_a2a.Base.{
  ℕ, true, false, none, some, List, [], ◌∷◌, leb, ◌==◌, if◌then◌else◌, is_some, is_some_and, Text,
  i64_add, u64_succ,
}
use herdr_a2a.Base.Map.{Map}
use herdr_a2a.Base.Map
use herdr_a2a.Core.Errors.{Result, ok, ◌>>=◌, ok_or, expect, persistence_unavailable}
use herdr_a2a.Core.Model.{ReplyPayload}
use herdr_a2a.Broker.Task.{TaskRecord, ReplyWaiter, terminal_retention_ms}
use herdr_a2a.Broker.Deadlines.{Deadlines}
use herdr_a2a.Broker.Deadlines
use herdr_a2a.Broker.State.{State, index_remove, drop_delivery, drop_from_inbox}

-- `TerminalState`
pub data TerminalState : Type 0 where
  replied : ReplyPayload → TerminalState
  failed : ReplyPayload → TerminalState
  rejected : ReplyPayload → TerminalState
  canceled : TerminalState
  expired : TerminalState

-- The `match terminal_state` of `terminalize_task`.
abbrev mark_outcome : TaskRecord → TerminalState → TaskRecord
mark_outcome task (replied reply) = record task { reply = some reply }
mark_outcome task (failed message) = record task { reply = some message; failed = true }
mark_outcome task (rejected message) = record task { reply = some message; rejected = true }
mark_outcome task canceled = record task { canceled = true }
mark_outcome task expired = record task { expired = true }

-- The record after `terminalize_task`, given its new version and its retention deadline.
unfoldable pub settle : TaskRecord → ℕ → ℕ → ℕ → TerminalState → TaskRecord
settle task version now deadline outcome =
    mark_outcome
      (record task {
        state_version = version;
        delivery = none;
        lease = none;
        acknowledged = false;
        acknowledged_unix_ms = none;
        reply = none;
        reply_waiters = [];
        failed = false;
        rejected = false;
        canceled = false;
        expired = false;
        terminal_unix_ms = some now;
        terminal_deadline_unix_ms = some deadline;
      })
      outcome

-- The inbox that the recipient's registration keeps forgets the task.
unfoldable pub forget_in_inbox : State → TaskRecord → Text → State
forget_in_inbox state task task_id = elim (Map.get state.registrations_by_agent task.recipient) [
  | none ↦ state
  | some id ↦ record state {
    registrations = Map.alter state.registrations id (drop_from_inbox task_id);
  }
]

-- The indexes and the inbox forget a task, and its retention deadline is queued.
unfoldable pub unindex_task : State → TaskRecord → Text → ℕ → State
unfolding forget_in_inbox
unindex_task state task task_id deadline =
    let state' = forget_in_inbox state task task_id in
    record state' {
      tasks_by_delivery = drop_delivery state.tasks_by_delivery task.lease task_id;
      active_tasks_by_agent =
          index_remove (index_remove state.active_tasks_by_agent task.recipient task_id) task.sender
            task_id;
      outbound_tasks_by_agent = index_remove state.outbound_tasks_by_agent task.sender task_id;
      tasks_by_sender = index_remove state.tasks_by_sender task.sender task_id;
      tasks_by_recipient = index_remove state.tasks_by_recipient task.recipient task_id;
      terminal_deadlines = Deadlines.push state.terminal_deadlines (deadline, task_id);
    }

-- A task that is not settled yet: its waiters, and the new state.
unfoldable pub settle_task :
    State → Text → TaskRecord → ℕ → ℕ → TerminalState → Result (List ReplyWaiter × State)
settle_task state task_id task now deadline outcome = do
  version ← expect (u64_succ task.state_version)
  let settled = settle task version now deadline outcome
  let state' = unindex_task state task task_id deadline
  ok (task.reply_waiters, record state' { tasks = Map.insert state.tasks task_id settled })

unfoldable pub terminalize_task :
    State → Text → ℕ → TerminalState → Result (List ReplyWaiter × State)
terminalize_task state task_id now outcome = do
  deadline ← ok_or (i64_add now terminal_retention_ms) persistence_unavailable
  task ← expect (Map.get state.tasks task_id)
  if is_some task.terminal_deadline_unix_ms
      then ok ([], state)
      else settle_task state task_id task now deadline outcome

-- The loop of `prune_terminal_tasks`, on the heap that is left and the tasks.
unfoldable pub prune_due : Deadlines → Map TaskRecord → ℕ → Deadlines × Map TaskRecord
prune_due [] tasks now = ([], tasks)
prune_due ((deadline, task_id) ∷ rest) tasks now =
    let task_is_due =
      is_some_and (Map.get tasks task_id)
        (λ task. is_some_and task.terminal_deadline_unix_ms (λ d. d == deadline)) in
    let tasks' = if task_is_due then Map.remove tasks task_id else tasks in
    let pruned = prune_due rest tasks' now in
    if leb deadline now then pruned else ((deadline, task_id) ∷ rest, tasks)

unfoldable pub prune_terminal_tasks : State → ℕ → State
prune_terminal_tasks state now =
    let (deadlines, tasks) = prune_due state.terminal_deadlines state.tasks now in
    record state { terminal_deadlines = deadlines; tasks = tasks }

-- The loop of `prune_delivery_deadlines`.
unfoldable pub drop_due : Deadlines → ℕ → Deadlines
drop_due [] now = []
drop_due ((deadline, task_id) ∷ rest) now =
    if leb deadline now then drop_due rest now else (deadline, task_id) ∷ rest

unfoldable pub prune_delivery_deadlines : State → ℕ → State
prune_delivery_deadlines state now = record state {
  delivery_deadlines = drop_due state.delivery_deadlines now;
}
