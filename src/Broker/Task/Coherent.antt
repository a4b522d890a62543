-- ===== src/Broker/Task/Coherent.antt =====
-- What the flags of a task's record say together.
use herdr_a2a.Base.{◌≡◌, true, false, none, is_some}
use herdr_a2a.Broker.Task.{TaskRecord}

-- A failed or rejected task has the message as its reply, only an acknowledged task has a time of
-- acknowledgement, and it keeps its lease.
pub record IsCoherent (t : TaskRecord) : Type 0 where
  pub failed_reply : t.failed ≡ true → is_some t.reply ≡ true
  pub rejected_reply : t.rejected ≡ true → is_some t.reply ≡ true
  pub ack_time : t.acknowledged ≡ false → t.acknowledged_unix_ms ≡ none
  pub ack_lease : t.acknowledged ≡ true → is_some t.lease ≡ true
