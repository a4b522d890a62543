-- ===== src/Broker/Settle/Persisted.antt =====
-- `durable_terminal_task` against `validate_durable_task`. Of crates/herdr-a2a-core/src/broker.rs.
use herdr_a2a.Base.{
  ℕ, ◌≤◌, ◌<◌, ◌≡◌, refl, true, none, some, arith, i64_add, u64_succ, u64_succ-some, Text,
}
use herdr_a2a.Core.Errors.{ok}
use herdr_a2a.Core.Durability.{DurableTask}
use herdr_a2a.Core.Validation.{Platform}
use herdr_a2a.Broker.Task.{
  TaskRecord, durable_task, durable_terminal_task, next_state_version, terminal_retention_ms,
  terminal_times_valid, fields_match_state, validate_durable_task, validate_durable_reply,
  validate_durable_header,
}
use herdr_a2a.Broker.Task.Valid.{IsValidTimes, IsValid_of_ok, ok_of_IsValid}
use herdr_a2a.Broker.Terminal.{TerminalState, replied, failed, rejected, canceled, expired}
use herdr_a2a.Broker.Settle.{outcome_state, outcome_reply}
use herdr_a2a.Broker.Settle.Mirror.{terminal_numbers}

-- The terminal form of a durable task.
abbrev terminal_form : DurableTask → ℕ → ℕ → ℕ → TerminalState → DurableTask
terminal_form t version now deadline o = record t {
  state_version = version;
  state = outcome_state o;
  lease = none;
  acknowledged_unix_ms = none;
  reply = outcome_reply o;
  terminal_unix_ms = some now;
  retention_deadline_unix_ms = some deadline;
}

fields_terminal :
    (t : DurableTask) (version now deadline : ℕ) (o : TerminalState)
    → fields_match_state (terminal_form t version now deadline o) (outcome_state o) ≡ true
unfolding fields_match_state
fields_terminal t version now deadline (replied r) = refl
fields_terminal t version now deadline (failed r) = refl
fields_terminal t version now deadline (rejected r) = refl
fields_terminal t version now deadline canceled = refl
fields_terminal t version now deadline expired = refl

times_terminal :
    (t : DurableTask) (version now deadline : ℕ) (o : TerminalState)
    → IsValidTimes t
    → t.created_unix_ms ≤ now
    → 0 < version
    → i64_add now terminal_retention_ms ≡ some deadline
    → IsValidTimes (terminal_form t version now deadline o)
unfolding terminal_times_valid
times_terminal t version now deadline o v later pv el = record {
  deadline = v.deadline;
  created = v.created;
  version = pv;
  lease = tt;
  acknowledged = tt;
  terminal = ground arith;
  fields = fields_terminal t version now deadline o;
}

terminal_form_lem :
    (task_id : Text) (task : TaskRecord) (version now deadline : ℕ) (o : TerminalState)
    {base d : DurableTask}
    → u64_succ task.state_version ≡ some version
    → i64_add now terminal_retention_ms ≡ some deadline
    → durable_task task_id task ≡ ok base
    → durable_terminal_task task_id task now (outcome_state o) (outcome_reply o) ≡ ok d
    → d ≡ terminal_form base version now deadline o
unfolding durable_terminal_task next_state_version
terminal_form_lem task_id task version now deadline o ev el eb h = ground arith

header_terminal :
    (platform : Platform) (t : DurableTask) (version now deadline : ℕ) (o : TerminalState)
    → validate_durable_header platform t ≡ ok tt
    → validate_durable_header platform (terminal_form t version now deadline o) ≡ ok tt
unfolding validate_durable_header
header_terminal platform t version now deadline o h = h

-- What `durable_terminal_task` gives, for any outcome, passes `validate_durable_task`, if the
-- task's durable form before and the outcome's reply pass their validation, and the time is not
-- before the task's creation.
pub durable_terminal_task-valid :
    (platform : Platform) (task_id : Text) (task : TaskRecord) (now : ℕ) (o : TerminalState)
    {base d : DurableTask}
    → durable_task task_id task ≡ ok base
    → validate_durable_task platform base ≡ ok tt
    → base.created_unix_ms ≤ now
    → validate_durable_reply platform (outcome_reply o) ≡ ok tt
    → durable_terminal_task task_id task now (outcome_state o) (outcome_reply o) ≡ ok d
    → validate_durable_task platform d ≡ ok tt
durable_terminal_task-valid platform task_id task now o {base} {d} eb valid later vr h =
    let (version, deadline, ev, el) = terminal_numbers task_id task now o h in
    let v = IsValid_of_ok platform base valid in
    let e = terminal_form_lem task_id task version now deadline o ev el eb h in
    rw e (
      ok_of_IsValid platform (terminal_form base version now deadline o) (record {
        header = header_terminal platform base version now deadline o v.header;
        reply = vr;
        times =
            times_terminal base version now deadline o v.times later
              (omega (arith, u64_succ-some task.state_version ev)) el;
      }))
