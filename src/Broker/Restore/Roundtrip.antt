-- ===== src/Broker/Restore/Roundtrip.antt =====
-- The record that `restore_task` builds, and its durable form. Of
-- crates/herdr-a2a-core/src/broker.rs.
use herdr_a2a.Base.{ℕ, ◌≡◌, refl, true, Option, none, some, arith}
use mathlib.Core.Option
use herdr_a2a.Core.Errors.{ok}
use herdr_a2a.Core.Durability.{
  DurableTask, DurableTaskState, DurableLease, queued, leased, acknowledged, replied, failed,
  rejected, canceled, expired,
}
use herdr_a2a.Core.Validation.{Platform}
use herdr_a2a.Broker.Task.{
  durable_task, durable_state, durable_lease, fields_match_state, validate_durable_task,
}
use herdr_a2a.Broker.Task.Valid.{LeaseFits, IsValid_of_ok}
use herdr_a2a.Broker.Restore.{restored_record, restored_lease}

-- The state that is read off a restored record is the one that was stored.
state_restored :
    (n : ℕ) (t : DurableTask) (st : DurableTaskState)
    → t.state ≡ st
    → fields_match_state t st ≡ true
    → durable_state (restored_record n t) ≡ st
unfolding durable_state restored_record fields_match_state
state_restored n t queued e h = ground arith
state_restored n t leased e h = ground arith
state_restored n t acknowledged e h = ground arith
state_restored n t replied e h = ground arith
state_restored n t failed e h = ground arith
state_restored n t rejected e h = ground arith
state_restored n t canceled e h = ground arith
state_restored n t expired e h = ground arith

lease_restored :
    (t : DurableTask) (o : Option DurableLease)
    → LeaseFits t o
    → Option.map (durable_lease t.recipient) (Option.map restored_lease o) ≡ o
lease_restored t none h = refl
lease_restored t (some l) h = ground arith

-- A valid durable task is the durable form of the record that is restored from it, whatever its
-- place in the queue.
pub durable_task-restored_record :
    (platform : Platform) (n : ℕ) (t : DurableTask)
    → validate_durable_task platform t ≡ ok tt
    → durable_task t.task_id (restored_record n t) ≡ ok t
unfolding durable_task restored_record
durable_task-restored_record platform n t h =
    let v = IsValid_of_ok platform t h in
    let s = state_restored n t t.state refl v.times.fields in
    let l = lease_restored t t.lease v.times.lease in ground (arith, v.times.deadline, s, l)
