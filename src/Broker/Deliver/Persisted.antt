-- ===== src/Broker/Deliver/Persisted.antt =====
-- The durable forms of leases, acknowledgements and requeued tasks against
-- `validate_durable_task`. Of crates/herdr-a2a-core/src/broker.rs.
use herdr_a2a.Base.{
  ℕ, ◌≤◌, ◌<◌, ◌≡◌, refl, true, Option, none, some, arith, u64_succ, u64_succ-some, Text, is_some,
  Option-cases, inl, inr, sym,
}
use herdr_a2a.Core.Errors.{ok}
use herdr_a2a.Core.Durability.{DurableTask, DurableLease, queued, leased, acknowledged}
use herdr_a2a.Core.Validation.{Platform}
use herdr_a2a.Broker.Task.{
  TaskRecord, DeliveryLease, durable_task, durable_lease, durable_leased_task,
  durable_acknowledged_task, durable_requeued_task, next_state_version, fields_match_state,
  validate_durable_task, validate_durable_header,
}
use herdr_a2a.Broker.Task.Valid.{LeaseFits, IsValid, IsValid_of_ok, ok_of_IsValid}

abbrev leased_form : DurableTask → ℕ → DurableLease → DurableTask
leased_form t version lease = record t {
  state_version = version;
  state = leased;
  lease = some lease;
  attempt = lease.attempt;
  acknowledged_unix_ms = none;
}

abbrev acknowledged_form : DurableTask → ℕ → ℕ → DurableTask
acknowledged_form t version now = record t {
  state_version = version;
  state = acknowledged;
  acknowledged_unix_ms = some now;
}

abbrev requeued_form : DurableTask → ℕ → DurableTask
requeued_form t version = record t {
  state_version = version;
  state = queued;
  lease = none;
  acknowledged_unix_ms = none;
}

module _ (platform : Platform) (base : DurableTask) (v : IsValid platform base) (version : ℕ)
    (pv : 0 < version) (unreplied : base.reply ≡ none)
    (unsettled : base.terminal_unix_ms ≡ none) where
  leased_form-valid :
      (lease : DurableLease)
      → lease.owner ≡ base.recipient
      → base.created_unix_ms ≤ lease.leased_until_unix_ms
      → validate_durable_task platform (leased_form base version lease) ≡ ok tt
  unfolding validate_durable_header fields_match_state
  leased_form-valid lease own later =
      ok_of_IsValid platform (leased_form base version lease) (record {
        header = v.header;
        reply = v.reply;
        times = record {
          deadline = v.times.deadline;
          created = v.times.created;
          version = pv;
          lease = (own, refl, later);
          acknowledged = tt;
          terminal = v.times.terminal;
          fields = ground arith;
        };
      })

  acknowledged_form-valid :
      (now : ℕ)
      → is_some base.lease ≡ true
      → base.created_unix_ms ≤ now
      → now ≤ base.delivery_deadline_unix_ms
      → validate_durable_task platform (acknowledged_form base version now) ≡ ok tt
  unfolding validate_durable_header fields_match_state
  acknowledged_form-valid now held later early =
      ok_of_IsValid platform (acknowledged_form base version now) (record {
        header = v.header;
        reply = v.reply;
        times = record {
          deadline = v.times.deadline;
          created = v.times.created;
          version = pv;
          lease = lease_kept base.lease v.times.lease;
          acknowledged = (later, early);
          terminal = v.times.terminal;
          fields = ground arith;
        };
      })
    where
      lease_kept :
          (o : Option DurableLease)
          → LeaseFits base o
          → LeaseFits (acknowledged_form base version now) o
      lease_kept none h = tt
      lease_kept (some l) h = h

  requeued_form-valid : validate_durable_task platform (requeued_form base version) ≡ ok tt
  unfolding validate_durable_header fields_match_state
  requeued_form-valid = ok_of_IsValid platform (requeued_form base version) (record {
    header = v.header;
    reply = v.reply;
    times = record {
      deadline = v.times.deadline;
      created = v.times.created;
      version = pv;
      lease = tt;
      acknowledged = tt;
      terminal = v.times.terminal;
      fields = ground arith;
    };
  })

leased_version_form :
    (task_id : Text) (task : TaskRecord) (lease : DeliveryLease) {base d : DurableTask}
    → durable_task task_id task ≡ ok base
    → durable_leased_task task_id task lease ≡ ok d
    → (version : ℕ) × (0 < version)
      × (d ≡ leased_form base version (durable_lease task.recipient lease))
unfolding durable_leased_task next_state_version
leased_version_form task_id task lease eb h = elim (Option-cases (u64_succ task.state_version)) [
  | inl e ↦ absurd (ground arith)
  | inr (version, e) ↦ (version, omega (arith, u64_succ-some task.state_version e), ground arith)
]

acknowledged_version_form :
    (task_id : Text) (task : TaskRecord) (now : ℕ) {base d : DurableTask}
    → durable_task task_id task ≡ ok base
    → durable_acknowledged_task task_id task now ≡ ok d
    → (version : ℕ) × (0 < version) × (d ≡ acknowledged_form base version now)
unfolding durable_acknowledged_task next_state_version
acknowledged_version_form task_id task now eb h =
    elim (Option-cases (u64_succ task.state_version)) [
      | inl e ↦ absurd (ground arith)
      | inr (version, e) ↦
          (version, omega (arith, u64_succ-some task.state_version e), ground arith)
    ]

requeued_version_form :
    (task_id : Text) (task : TaskRecord) {base d : DurableTask}
    → durable_task task_id task ≡ ok base
    → durable_requeued_task task_id task ≡ ok d
    → (version : ℕ) × (0 < version) × (d ≡ requeued_form base version)
unfolding durable_requeued_task next_state_version
requeued_version_form task_id task eb h = elim (Option-cases (u64_succ task.state_version)) [
  | inl e ↦ absurd (ground arith)
  | inr (version, e) ↦ (version, omega (arith, u64_succ-some task.state_version e), ground arith)
]

recipient_kept :
    (task_id : Text) (task : TaskRecord) {base : DurableTask}
    → durable_task task_id task ≡ ok base
    → base.recipient ≡ task.recipient
unfolding durable_task
recipient_kept task_id task eb = ground arith

module _ (platform : Platform) (task_id : Text) (task : TaskRecord) {base d : DurableTask}
    (eb : durable_task task_id task ≡ ok base) (valid : validate_durable_task platform base ≡ ok tt)
    (unreplied : base.reply ≡ none) (unsettled : base.terminal_unix_ms ≡ none) where
  -- What `durable_leased_task` gives passes `validate_durable_task`, if the task's durable form
  -- before is valid, without a reply and without a terminal time, and the lease does not end before
  -- the task was created.
  pub durable_leased_task-valid :
      (lease : DeliveryLease)
      → base.created_unix_ms ≤ lease.leased_until_unix_ms
      → durable_leased_task task_id task lease ≡ ok d
      → validate_durable_task platform d ≡ ok tt
  durable_leased_task-valid lease later h =
      let (version, pv, e) = leased_version_form task_id task lease eb h in
      let v = IsValid_of_ok platform base valid in
      rw e (
        leased_form-valid platform base v version pv unreplied unsettled
          (durable_lease task.recipient lease) (sym (recipient_kept task_id task eb)) later)

  -- What `durable_acknowledged_task` gives passes `validate_durable_task`, if the task's durable
  -- form before is valid, without a reply and without a terminal time, and has a lease, and the
  -- time lies between the task's creation and its delivery deadline.
  pub durable_acknowledged_task-valid :
      (now : ℕ)
      → is_some base.lease ≡ true
      → base.created_unix_ms ≤ now
      → now ≤ base.delivery_deadline_unix_ms
      → durable_acknowledged_task task_id task now ≡ ok d
      → validate_durable_task platform d ≡ ok tt
  durable_acknowledged_task-valid now held later early h =
      let (version, pv, e) = acknowledged_version_form task_id task now eb h in
      let v = IsValid_of_ok platform base valid in
      rw e (
        acknowledged_form-valid platform base v version pv unreplied unsettled now held later early)

  -- What `durable_requeued_task` gives passes `validate_durable_task`, if the task's durable form
  -- before is valid, without a reply and without a terminal time.
  pub durable_requeued_task-valid :
      durable_requeued_task task_id task ≡ ok d → validate_durable_task platform d ≡ ok tt
  durable_requeued_task-valid h =
      let (version, pv, e) = requeued_version_form task_id task eb h in
      let v = IsValid_of_ok platform base valid in
      rw e (requeued_form-valid platform base v version pv unreplied unsettled)
