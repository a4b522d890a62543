-- ===== src/Broker/Deliver/Mirror.antt =====
-- `apply_lease` and `apply_ack`, the parts of `poll_delivery` and `ack_delivery` behind the commit,
-- against the durable forms that are committed. Of crates/herdr-a2a-core/src/broker.rs.
use herdr_a2a.Base.{ℕ, ◌≡◌, true, some, arith, Text, u64_succ, Option-cases, inl, inr}
use herdr_a2a.Base.Map
use herdr_a2a.Base.Map.{get-insert_self}
use herdr_a2a.Core.Errors.{ok}
use herdr_a2a.Core.Model.{RegistrationCredentials, DeliveryId}
use herdr_a2a.Core.Durability.{DurableTask}
use herdr_a2a.Broker.Task.{
  TaskRecord, DeliveryLease, durable_task, durable_state, durable_leased_task,
  durable_acknowledged_task, next_state_version,
}
use herdr_a2a.Broker.Task.Coherent.{IsCoherent}
use herdr_a2a.Broker.State.{State, drop_delivery, drop_from_inbox}
use herdr_a2a.Broker.Deliver.{
  is_open, is_valid_delivery, leased_record, acknowledged_record, apply_lease, apply_ack,
}

module _ (task_id : Text) (task : TaskRecord) (c : IsCoherent task) where
  durable_task-leased_record :
      (version : ℕ) (lease : DeliveryLease) {d : DurableTask}
      → is_open task ≡ true
      → u64_succ task.state_version ≡ some version
      → durable_leased_task task_id task lease ≡ ok d
      → durable_task task_id (leased_record task version lease) ≡ ok d
  unfolding durable_task durable_state durable_leased_task next_state_version leased_record
  durable_task-leased_record version lease unsettled ev h =
      ground (arith, c.failed_reply, c.rejected_reply, c.ack_time)

  durable_task-acknowledged_record :
      (version now : ℕ) (delivery_id : DeliveryId) {d : DurableTask}
      → is_valid_delivery task delivery_id now ≡ true
      → u64_succ task.state_version ≡ some version
      → durable_acknowledged_task task_id task now ≡ ok d
      → durable_task task_id (acknowledged_record task version now) ≡ ok d
  unfolding durable_task durable_state durable_acknowledged_task next_state_version
      acknowledged_record
  durable_task-acknowledged_record version now delivery_id valid ev h =
      ground (arith, c.failed_reply, c.rejected_reply)

leased_version :
    (task_id : Text) (task : TaskRecord) (lease : DeliveryLease) {d : DurableTask}
    → durable_leased_task task_id task lease ≡ ok d
    → (version : ℕ) × (u64_succ task.state_version ≡ some version)
unfolding durable_leased_task next_state_version
leased_version task_id task lease h = elim (Option-cases (u64_succ task.state_version)) [
  | inl e ↦ absurd (ground arith)
  | inr found ↦ found
]

acknowledged_version :
    (task_id : Text) (task : TaskRecord) (now : ℕ) {d : DurableTask}
    → durable_acknowledged_task task_id task now ≡ ok d
    → (version : ℕ) × (u64_succ task.state_version ≡ some version)
unfolding durable_acknowledged_task next_state_version
acknowledged_version task_id task now h = elim (Option-cases (u64_succ task.state_version)) [
  | inl e ↦ absurd (ground arith)
  | inr found ↦ found
]

-- If an open, coherent task has `d` as the durable form of a lease, then `apply_lease` succeeds on
-- it, leaves a record whose durable form is `d`, and leads the new delivery id to the task.
pub apply_lease-durable :
    (s : State) (task_id : Text) (lease : DeliveryLease) {task : TaskRecord} {d : DurableTask}
    → Map.get s.tasks task_id ≡ some task
    → IsCoherent task
    → is_open task ≡ true
    → durable_leased_task task_id task lease ≡ ok d
    → (s' : State) × (task' : TaskRecord) × (apply_lease s task_id lease ≡ ok s')
      × (Map.get s'.tasks task_id ≡ some task')
      × (durable_task task_id task' ≡ ok d)
      × (Map.get s'.tasks_by_delivery lease.delivery_id ≡ some task_id)
unfolding apply_lease
apply_lease-durable s task_id lease {task} found c unsettled h =
    let (v, ev) = leased_version task_id task lease h in
    let by_delivery = drop_delivery s.tasks_by_delivery task.lease task_id in
    let s' : State = record s {
      tasks = Map.insert s.tasks task_id (leased_record task v lease);
      tasks_by_delivery = Map.insert by_delivery lease.delivery_id task_id;
    } in
    (
      s',
      leased_record task v lease,
      ground arith,
      get-insert_self s.tasks task_id (leased_record task v lease),
      durable_task-leased_record task_id task c v lease unsettled ev h,
      get-insert_self by_delivery lease.delivery_id task_id,
    )

-- If a coherent task under a valid delivery has `d` as the durable form of an acknowledgement, then
-- `apply_ack` succeeds on it, and leaves a record whose durable form is `d`.
pub apply_ack-durable :
    (s : State) (cred : RegistrationCredentials) (task_id : Text) (delivery_id : DeliveryId)
    (now : ℕ) {task : TaskRecord} {d : DurableTask}
    → Map.get s.tasks task_id ≡ some task
    → IsCoherent task
    → is_valid_delivery task delivery_id now ≡ true
    → durable_acknowledged_task task_id task now ≡ ok d
    → (s' : State) × (task' : TaskRecord) × (apply_ack s cred task_id now ≡ ok s')
      × (Map.get s'.tasks task_id ≡ some task')
      × (durable_task task_id task' ≡ ok d)
unfolding apply_ack
apply_ack-durable s cred task_id delivery_id now {task} found c valid h =
    let (v, ev) = acknowledged_version task_id task now h in
    let s' : State = record s {
      tasks = Map.insert s.tasks task_id (acknowledged_record task v now);
      registrations = Map.alter s.registrations cred.id (drop_from_inbox task_id);
    } in
    (
      s',
      acknowledged_record task v now,
      ground arith,
      get-insert_self s.tasks task_id (acknowledged_record task v now),
      durable_task-acknowledged_record task_id task c v now delivery_id valid ev h,
    )
