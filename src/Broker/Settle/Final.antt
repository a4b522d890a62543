-- ===== src/Broker/Settle/Final.antt =====
-- What the methods say of a task that is settled. Of crates/herdr-a2a-core/src/broker.rs.
use herdr_a2a.Base.{ℕ, ◌≡◌, ◌≢◌, some, arith, Text, text_eq_iff}
use herdr_a2a.Base.Map
use herdr_a2a.Core.Errors.{ok, err, reply_already_submitted}
use herdr_a2a.Core.Model.{RegistrationCredentials, ReplyPayload, DeliveryId, payload_eq_iff}
use herdr_a2a.Broker.Task.{TaskRecord}
use herdr_a2a.Broker.State.{State, RegistrationState}
use herdr_a2a.Broker.Terminal.{TerminalState, replied, settle}
use herdr_a2a.Broker.Deliver.{examine, skipped}
use herdr_a2a.Broker.Settle.{
  settled_before, to_settle, RecipientTerminalState, check_reply, check_recipient_terminal,
  check_cancel,
}

module _ (s : State) (c : RegistrationCredentials) (task_id : Text) (task : TaskRecord)
    (version now deadline : ℕ) (o : TerminalState)
    (found : Map.get s.tasks task_id ≡ some (settle task version now deadline o)) where
  reply_final :
      (payload : ReplyPayload) (t : TaskRecord) → check_reply s c task_id payload ≢ ok (to_settle t)
  unfolding check_reply settle
  reply_final payload t h = ground arith

  recipient_final :
      (message : ReplyPayload) (r : RecipientTerminalState) (t : TaskRecord)
      → check_recipient_terminal s c task_id message r ≢ ok (to_settle t)
  unfolding check_recipient_terminal settle
  recipient_final message r t h = ground arith

  cancel_final : (t : TaskRecord) → check_cancel s c task_id ≢ ok (to_settle t)
  unfolding check_cancel settle
  cancel_final t h = ground arith

  poll_final :
      (delivery_id : DeliveryId) (later : ℕ) → examine c delivery_id s task_id later ≡ ok skipped
  unfolding examine settle
  poll_final delivery_id later = ground arith

  -- If the state holds a task's record as `settle` leaves it, at any version, time, deadline and
  -- outcome, then for every caller and message the checks of `reply`, `fail_task`, `reject_task`
  -- and `cancel_task` do not find the task to settle, and `poll_delivery` skips it at every time.
  pub settle_is_final :
      (payload : ReplyPayload) (r : RecipientTerminalState) (delivery_id : DeliveryId) (later : ℕ)
      (t : TaskRecord)
      → (check_reply s c task_id payload ≢ ok (to_settle t))
        × (check_recipient_terminal s c task_id payload r ≢ ok (to_settle t))
        × (check_cancel s c task_id ≢ ok (to_settle t))
        × (examine c delivery_id s task_id later ≡ ok skipped)
  settle_is_final payload r delivery_id later t = (
    reply_final payload t,
    recipient_final payload r t,
    cancel_final t,
    poll_final delivery_id later,
  )

-- If the state holds a task's record as `settle` leaves it for the reply `first`, and the caller's
-- registration is one of the task's recipient, then the check of `reply` finds nothing left to do
-- for the same reply, and refuses another one, `second`, as already submitted.
pub reply_again :
    (s : State) (c : RegistrationCredentials) (task_id : Text) (task : TaskRecord)
    (version now deadline : ℕ) (first second : ReplyPayload) {entry : RegistrationState}
    → Map.get s.tasks task_id ≡ some (settle task version now deadline (replied first))
    → Map.get s.registrations c.id ≡ some entry
    → entry.registration.agent.name ≡ task.recipient
    → first ≢ second
    → (check_reply s c task_id first ≡ ok settled_before)
      × (check_reply s c task_id second ≡ err reply_already_submitted)
unfolding check_reply settle
reply_again s c task_id task version now deadline first second found registered own ne = (
  ground (arith, text_eq_iff task.recipient task.recipient, payload_eq_iff first first),
  ground (arith, text_eq_iff task.recipient task.recipient, payload_eq_iff first second),
)
