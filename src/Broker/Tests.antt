-- ===== src/Broker/Tests.antt =====
-- The broker on concrete inputs.
use herdr_a2a.Base.{
  ℕ, ◌+◌, ◌≡◌, ◌≢◌, ◌<◌, ◌≤◌, refl, true, false, none, some, List, [], ◌∷◌, arith, length, is_some,
  Text, All,
}
use herdr_a2a.Base.Map.{Map}
use herdr_a2a.Base.Map
use herdr_a2a.Base.TextSet
use herdr_a2a.Core.Errors.{
  ok, err, reply_already_submitted, registration_expired, registration_not_found,
}
use herdr_a2a.Core.Durability.{
  volatile_persistence, DurableTask, DurableTaskState, BrokerPersistence, complete,
  reconciliation_required,
}
use herdr_a2a.Broker.Calls.{run}
use herdr_a2a.Broker.Scenario.{
  agent, alice, alice_id, platform, task_id, bob_id, delivery_id, start, question, answer, delivery,
  queued_record, queued_durable, bob_credentials, lease, leased_task, leased_durable, bob_entry,
  state_with, initial_world, history,
}
use herdr_a2a.Core.Validation.{
  validate_payload, validate_metadata, validate_metadata_node, validate_persisted_payload,
  parse_agent_name,
}
use herdr_a2a.Core.Model.{validate_task_id}
use herdr_a2a.Broker.Task.{
  TaskRecord, durable_task, durable_state, durable_terminal_task, durable_leased_task,
  durable_acknowledged_task, durable_requeued_task, next_state_version, validate_durable_task,
  validate_durable_header, validate_durable_reply, validate_durable_times, fields_match_state,
  terminal_times_valid, lease_valid, ack_valid,
}
use herdr_a2a.Broker.Task.Coherent.{IsCoherent}
use herdr_a2a.Broker.Restore.{restored_record}
use herdr_a2a.Broker.Restore.Roundtrip.{durable_task-restored_record}
use herdr_a2a.Broker.Terminal.{TerminalState, settle, terminalize_task}
use herdr_a2a.Broker.State.{State, validate_active_registration}
use herdr_a2a.Broker.Registry.{detach_registration}
use herdr_a2a.Broker.Registry.Revoke.{IsRetiredValid, detach_registration-revokes}
use herdr_a2a.Broker.Settle.{
  settle_found, settled_before, to_settle, RecipientTerminalState, check_reply,
  check_recipient_terminal, check_cancel,
}
use herdr_a2a.Broker.Monad.{World}
use herdr_a2a.Broker.Settle.Atomic.{settle_found-refused, settle_found-applied}
use herdr_a2a.Broker.Settle.Mirror.{terminalize_task-durable}
use herdr_a2a.Broker.Settle.Persisted.{durable_terminal_task-valid}
use herdr_a2a.Broker.Settle.Final.{settle_is_final, reply_again}
use herdr_a2a.Broker.Deliver.{
  Candidate, skipped, examine, is_open, running_lease, new_lease, select_delivery, Selection,
  selected, pending, apply_lease, apply_ack, is_valid_delivery,
}
use herdr_a2a.Broker.Deliver.Mirror.{apply_lease-durable, apply_ack-durable}
use herdr_a2a.Broker.Deliver.Persisted.{
  durable_leased_task-valid, durable_acknowledged_task-valid, durable_requeued_task-valid,
}
use herdr_a2a.Broker.Deliver.Order.{
  LeasedBy, FirstDeliverable, IsWaiting, select_delivery-first, select_delivery-pending,
}
use herdr_a2a.Broker.Sessions.{register}
use herdr_a2a.Core.Model.{Registration}
use herdr_a2a.Broker.Limits.Epochs.{register-raises}
use herdr_a2a.Broker.Limits.Calls.{IsFenced, IsWithinLimits, run-IsLimited}

initial_world-IsFenced : IsFenced initial_world.state
unfolding herdr_a2a.Broker.Limits.Fences.is_distinct herdr_a2a.Broker.Limits.Fences.is_listed
initial_world-IsFenced = refl

run-IsLimited_example :
    IsWithinLimits 0 (run volatile_persistence platform history initial_world).state
run-IsLimited_example =
    run-IsLimited volatile_persistence platform history initial_world (omega arith) (omega arith)
      initial_world-IsFenced

-- The leased task is valid, and the durable form of its record.
leased_valid : validate_durable_task platform leased_durable ≡ ok tt
unfolding validate_durable_task validate_durable_header validate_durable_reply
    validate_durable_times fields_match_state terminal_times_valid lease_valid ack_valid
    validate_persisted_payload validate_metadata parse_agent_name validate_task_id
    validate_metadata_node herdr_a2a.Core.Validation.validate_persisted_files herdr_a2a.Base.i64_add
    herdr_a2a.Base.text_eq
leased_valid = refl

leased_form : durable_task task_id leased_task ≡ ok leased_durable
unfolding durable_task durable_state herdr_a2a.Base.i64_add
leased_form = refl

queued_valid : validate_durable_task platform queued_durable ≡ ok tt
unfolding validate_durable_task validate_durable_header validate_durable_reply
    validate_durable_times fields_match_state terminal_times_valid lease_valid ack_valid
    validate_persisted_payload validate_metadata parse_agent_name validate_task_id
    validate_metadata_node herdr_a2a.Core.Validation.validate_persisted_files herdr_a2a.Base.i64_add
queued_valid = refl

queued_form : durable_task task_id queued_record ≡ ok queued_durable
unfolding durable_task durable_state herdr_a2a.Base.i64_add
queued_form = refl

durable_task-restored_record_example :
    durable_task task_id (restored_record 7 leased_durable) ≡ ok leased_durable
durable_task-restored_record_example =
    durable_task-restored_record platform 7 leased_durable leased_valid

abbrev answered : DurableTask
answered = record queued_durable {
  state_version = 3;
  state = DurableTaskState.replied;
  reply = some answer;
  terminal_unix_ms = some (start + 3);
  retention_deadline_unix_ms = some (start + 3 + 2592000000);
}

answered_form :
    durable_terminal_task task_id leased_task (start + 3) DurableTaskState.replied (some answer)
    ≡ ok answered
unfolding durable_terminal_task next_state_version durable_task durable_state herdr_a2a.Base.i64_add
    herdr_a2a.Base.u64_succ
answered_form = refl

found : (task : TaskRecord) → Map.get (state_with task).tasks task_id ≡ some task
unfolding Map.get herdr_a2a.Base.text_eq
found task = refl

terminalize_task-durable_example :
    (s' : State) × (task' : TaskRecord) × (terminalize_task
        (state_with leased_task)
        task_id
        (start + 3)
        (TerminalState.replied answer)
      ≡ ok ([], s'))
    × (Map.get s'.tasks task_id ≡ some task')
    × (durable_task task_id task' ≡ ok answered)
terminalize_task-durable_example =
    terminalize_task-durable (state_with leased_task) task_id (start + 3)
      (TerminalState.replied answer) (found leased_task) refl answered_form

answer_valid : validate_durable_reply platform (some answer) ≡ ok tt
unfolding validate_durable_reply validate_persisted_payload validate_metadata validate_metadata_node
    herdr_a2a.Core.Validation.validate_persisted_files
answer_valid = refl

durable_terminal_task-valid_example : validate_durable_task platform answered ≡ ok tt
durable_terminal_task-valid_example =
    durable_terminal_task-valid platform task_id leased_task (start + 3)
      (TerminalState.replied answer) leased_form leased_valid (omega arith) answer_valid
      answered_form

-- The leased task with an outcome.
abbrev settled_as : TerminalState → TaskRecord
settled_as o = settle leased_task 3 (start + 3) (start + 2592000003) o

settle_is_final_example :
    (check_reply (state_with (settled_as TerminalState.canceled)) bob_credentials task_id answer
      ≢ ok (to_settle leased_task))
    × (check_recipient_terminal
          (state_with (settled_as TerminalState.canceled))
          bob_credentials
          task_id
          answer
          RecipientTerminalState.failed
        ≢ ok (to_settle leased_task))
    × (check_cancel (state_with (settled_as TerminalState.canceled)) bob_credentials task_id
        ≢ ok (to_settle leased_task))
    × (examine bob_credentials delivery_id
          (state_with (settled_as TerminalState.canceled))
          task_id
          (start + 70000)
        ≡ ok skipped)
settle_is_final_example =
    settle_is_final (state_with (settled_as TerminalState.canceled)) bob_credentials task_id
      leased_task 3 (start + 3) (start + 2592000003) TerminalState.canceled
      (found (settled_as TerminalState.canceled)) answer RecipientTerminalState.failed delivery_id
      (start + 70000) leased_task

registered_bob :
    (task : TaskRecord) → Map.get (state_with task).registrations bob_id ≡ some bob_entry
unfolding Map.get herdr_a2a.Base.text_eq
registered_bob task = refl

answer_differs : answer ≢ question
answer_differs e = absurd (ground arith)

reply_again_example :
    (check_reply
        (state_with (settled_as (TerminalState.replied answer)))
        bob_credentials
        task_id
        answer
      ≡ ok settled_before)
    × (check_reply
          (state_with (settled_as (TerminalState.replied answer)))
          bob_credentials
          task_id
          question
        ≡ err reply_already_submitted)
reply_again_example =
    reply_again (state_with (settled_as (TerminalState.replied answer))) bob_credentials task_id
      leased_task 3 (start + 3) (start + 2592000003) answer question
      (found (settled_as (TerminalState.replied answer)))
      (registered_bob (settled_as (TerminalState.replied answer))) refl answer_differs

leased_again : durable_leased_task task_id queued_record lease ≡ ok leased_durable
unfolding durable_leased_task next_state_version durable_task durable_state herdr_a2a.Base.i64_add
    herdr_a2a.Base.u64_succ
leased_again = refl

queued_IsCoherent : IsCoherent queued_record
queued_IsCoherent = record {
  failed_reply = λ h. absurd (ground arith);
  rejected_reply = λ h. absurd (ground arith);
  ack_time = λ _. refl;
  ack_lease = λ h. absurd (ground arith);
}

leased_IsCoherent : IsCoherent leased_task
leased_IsCoherent = record {
  failed_reply = λ h. absurd (ground arith);
  rejected_reply = λ h. absurd (ground arith);
  ack_time = λ _. refl;
  ack_lease = λ h. absurd (ground arith);
}

queued_is_open : is_open queued_record ≡ true
queued_is_open = refl

apply_lease-durable_example :
    (s' : State) × (task' : TaskRecord) × (apply_lease (state_with queued_record) task_id lease
      ≡ ok s')
    × (Map.get s'.tasks task_id ≡ some task')
    × (durable_task task_id task' ≡ ok leased_durable)
    × (Map.get s'.tasks_by_delivery delivery_id ≡ some task_id)
apply_lease-durable_example =
    apply_lease-durable (state_with queued_record) task_id lease (found queued_record)
      queued_IsCoherent queued_is_open leased_again

durable_leased_task-valid_example : validate_durable_task platform leased_durable ≡ ok tt
durable_leased_task-valid_example =
    durable_leased_task-valid platform task_id queued_record queued_form queued_valid refl refl
      lease (omega arith) leased_again

abbrev acknowledged_durable : DurableTask
acknowledged_durable = record leased_durable {
  state_version = 3;
  state = DurableTaskState.acknowledged;
  acknowledged_unix_ms = some (start + 2);
}

acknowledged_form :
    durable_acknowledged_task task_id leased_task (start + 2) ≡ ok acknowledged_durable
unfolding durable_acknowledged_task next_state_version durable_task durable_state
    herdr_a2a.Base.i64_add herdr_a2a.Base.u64_succ
acknowledged_form = refl

valid_delivery : is_valid_delivery leased_task delivery_id (start + 2) ≡ true
unfolding herdr_a2a.Base.text_eq
valid_delivery = refl

apply_ack-durable_example :
    (s' : State) × (task' : TaskRecord) × (apply_ack
        (state_with leased_task)
        bob_credentials
        task_id
        (start + 2)
      ≡ ok s')
    × (Map.get s'.tasks task_id ≡ some task')
    × (durable_task task_id task' ≡ ok acknowledged_durable)
apply_ack-durable_example =
    apply_ack-durable (state_with leased_task) bob_credentials task_id delivery_id (start + 2)
      (found leased_task) leased_IsCoherent valid_delivery acknowledged_form

durable_acknowledged_task-valid_example :
    validate_durable_task platform acknowledged_durable ≡ ok tt
durable_acknowledged_task-valid_example =
    durable_acknowledged_task-valid platform task_id leased_task leased_form leased_valid refl refl
      (start + 2) refl (omega arith) (omega arith) acknowledged_form

abbrev requeued_durable : DurableTask
requeued_durable = record queued_durable { state_version = 3 }

requeued_form : durable_requeued_task task_id leased_task ≡ ok requeued_durable
unfolding durable_requeued_task next_state_version durable_task durable_state herdr_a2a.Base.i64_add
    herdr_a2a.Base.u64_succ
requeued_form = refl

durable_requeued_task-valid_example : validate_durable_task platform requeued_durable ≡ ok tt
durable_requeued_task-valid_example =
    durable_requeued_task-valid platform task_id leased_task leased_form leased_valid refl refl
      requeued_form

chosen :
    select_delivery bob_credentials delivery_id
      (state_with queued_record)
      start
      (start + 30000)
      (task_id ∷ [])
    ≡ ok (selected task_id delivery lease leased_durable)
unfolding select_delivery examine new_lease durable_leased_task next_state_version durable_task
    durable_state Map.get herdr_a2a.Base.text_eq herdr_a2a.Base.i64_add
    herdr_a2a.Broker.Deliver.next_attempt herdr_a2a.Base.u64_succ
chosen = refl

select_delivery-first_example :
    FirstDeliverable bob_credentials delivery_id
      (state_with queued_record)
      start
      (task_id ∷ [])
      task_id
    × LeasedBy bob_credentials delivery_id (state_with queued_record) start lease
select_delivery-first_example =
    select_delivery-first bob_credentials delivery_id (state_with queued_record) start
      (start + 30000) (task_id ∷ []) task_id delivery lease leased_durable chosen

waiting :
    select_delivery bob_credentials delivery_id
      (state_with leased_task)
      (start + 1)
      (start + 30000)
      (task_id ∷ [])
    ≡ ok (pending (start + 30000))
unfolding select_delivery examine new_lease Map.get herdr_a2a.Base.text_eq herdr_a2a.Base.i64_add
waiting = refl

select_delivery-pending_example :
    All
      (IsWaiting bob_credentials delivery_id (state_with leased_task) (start + 1) (start + 30000))
      (task_id ∷ [])
    × (start + 30000 ≤ start + 30000)
select_delivery-pending_example =
    select_delivery-pending bob_credentials delivery_id (state_with leased_task) (start + 1)
      (start + 30000) (task_id ∷ []) (start + 30000) waiting

none_retired : IsRetiredValid (state_with leased_task)
none_retired = record { short = omega arith; known = tt }

unknown : TextSet.contains (state_with leased_task).retired_registration_ids bob_id ≡ false
unfolding TextSet.contains
unknown = refl

detach_registration-revokes_example :
    (validate_active_registration
        (detach_registration (state_with leased_task) bob_id true).1
        bob_credentials
        (start + 5)
      ≡ err registration_expired)
    × (validate_active_registration
          (detach_registration (state_with leased_task) bob_id false).1
          bob_credentials
          (start + 5)
        ≡ err registration_not_found)
detach_registration-revokes_example =
    detach_registration-revokes (state_with leased_task) bob_credentials (start + 5) none_retired
      (registered_bob leased_task) unknown

abbrev world_of : TaskRecord → World (Unit {0})
world_of task = record initial_world { state = state_with task }

settle_found-applied_example :
    (w' : World (Unit {0})) × (task' : TaskRecord) × (settle_found volatile_persistence platform
        task_id
        (start + 3)
        (TerminalState.replied answer)
        (to_settle leased_task)
        (world_of leased_task)
      ≡ (ok tt, w'))
    × (w'.store ≡ tt)
    × (w'.effects ≡ [])
    × (Map.get w'.state.tasks task_id ≡ some task')
    × (durable_task task_id task' ≡ ok answered)
settle_found-applied_example =
    settle_found-applied volatile_persistence platform (world_of leased_task) task_id leased_task
      (start + 3) (TerminalState.replied answer) tt answered_form (found leased_task) refl refl

-- A storage whose commits demand a reconciliation.
abbrev demanding_persistence : BrokerPersistence (Unit {0})
demanding_persistence = record volatile_persistence {
  commit = λ _ store. (ok reconciliation_required, store);
}

demand : ok reconciliation_required ≢ ok complete
demand e = absurd (ground arith)

settle_found-refused_example :
    ((settle_found demanding_persistence platform task_id
        (start + 3)
        (TerminalState.replied answer)
        (to_settle leased_task)
        (world_of leased_task)).0
      ≢ ok tt)
    × ((settle_found demanding_persistence platform task_id
          (start + 3)
          (TerminalState.replied answer)
          (to_settle leased_task)
          (world_of leased_task)).1.effects
        ≡ [])
    × ((settle_found demanding_persistence platform task_id
          (start + 3)
          (TerminalState.replied answer)
          (to_settle leased_task)
          (world_of leased_task)).1.state
        ≡ record (state_with leased_task) { reconciliation_required = true })
settle_found-refused_example =
    settle_found-refused demanding_persistence platform (world_of leased_task) task_id leased_task
      (start + 3) (TerminalState.replied answer) tt answered_form (ok reconciliation_required) refl
      demand

abbrev alice_registration : Registration
alice_registration = record {
  id = alice_id;
  epoch = 1;
  agent = agent alice;
  harness_session_id = alice;
  expires_unix_ms = start + 30000;
}

registered_alice :
    register volatile_persistence platform alice_id (agent alice) alice start initial_world ≡ (
      ok alice_registration,
      (register volatile_persistence platform alice_id (agent alice) alice start initial_world).1,
    )
unfolding register herdr_a2a.Broker.Maintain.maintain_state
    herdr_a2a.Broker.Maintain.maintenance_duties herdr_a2a.Broker.Maintain.due_task_ids
    herdr_a2a.Broker.Maintain.expired_upserts herdr_a2a.Broker.Maintain.requeued_upserts
    herdr_a2a.Broker.Maintain.overdue_task_ids herdr_a2a.Broker.Maintain.perform_duties
    herdr_a2a.Broker.Maintain.expire_tasks herdr_a2a.Broker.Maintain.bump_all
    herdr_a2a.Broker.Maintain.detach_all herdr_a2a.Broker.Maintain.expired_credentials
    herdr_a2a.Broker.Maintain.expired_registration_ids herdr_a2a.Broker.Maintain.prune
    herdr_a2a.Broker.Reconcile.reconcile_state_if_required herdr_a2a.Base.i64_add
    herdr_a2a.Base.u64_succ herdr_a2a.Broker.Terminal.prune_terminal_tasks
    herdr_a2a.Broker.Terminal.prune_due herdr_a2a.Broker.Terminal.prune_delivery_deadlines
    herdr_a2a.Broker.Terminal.drop_due herdr_a2a.Broker.Sessions.earlier_registration
    herdr_a2a.Broker.Sessions.replaced_tasks herdr_a2a.Broker.Sessions.install_registration
    herdr_a2a.Broker.Sessions.detach_earlier herdr_a2a.Broker.Sessions.initial_inbox
    herdr_a2a.Broker.Sessions.list_registration herdr_a2a.Broker.Monad.commit_transition
    herdr_a2a.Broker.State.record_status_event Map.get
registered_alice = refl

register-raises_example :
    (0 < 1)
    × (1
        ≤ (register volatile_persistence platform alice_id
            (agent alice)
            alice
            start
            initial_world).1.state.next_registration_epoch)
register-raises_example =
    register-raises volatile_persistence platform alice_id (agent alice) alice start initial_world
      (register volatile_persistence platform alice_id (agent alice) alice start initial_world).1
      alice_registration (omega arith) (omega arith) registered_alice
