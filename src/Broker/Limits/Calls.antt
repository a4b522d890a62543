-- ===== src/Broker/Limits/Calls.antt =====
-- The limits and the methods of crates/herdr-a2a-core/src/broker.rs.
use herdr_a2a.Base.{
  ℕ, true, &&_parts, ◌≤◌, ◌≡◌, refl, List, [], ◌∷◌, arith, Text, Option-cases, inl, inr, length,
  if◌then◌else◌, is_empty, false, not, u64_succ, u64_succ-some, i64_add,
}
use herdr_a2a.Base.Map.{length-insert-le, length-insert_known}
use herdr_a2a.Base.Map
use herdr_a2a.Core.Errors.{Result, ok, guard, ok_or, persistence_unavailable, wait_already_active}
use herdr_a2a.Core.Model.{
  RegistrationId, RegistrationCredentials, Registration, VerifiedAgent, QueuedDelivery,
}
use herdr_a2a.Core.Durability.{BrokerPersistence}
use herdr_a2a.Core.Validation.{Platform}
use herdr_a2a.Broker.Task.{max_retained_tasks, max_retired_registration_ids, registration_ttl_ms}
use herdr_a2a.Broker.State.{State, RegistrationState}
use herdr_a2a.Broker.Registry.{requeued_tasks, bump_requeued_versions_for_credentials}
use herdr_a2a.Broker.Terminal.{TerminalState, terminalize_task}
use herdr_a2a.Broker.Monad.{
  World, M, ◌>>=◌, ◌>>◌, pure, lift, get_state, attempt, emit, record_directory, commit_transition,
}
use herdr_a2a.Broker.Maintain.{maintain_state, validate_registration_and_maintain}
use herdr_a2a.Broker.Sessions.{
  install_registration, replaced_tasks, register, renew, remove_registration, authenticate,
  begin_wait, end_wait, registered_entry,
}
use herdr_a2a.Broker.Enqueue.{admit}
use herdr_a2a.Broker.Deliver.{apply_lease, apply_ack}
use herdr_a2a.Broker.Limits.Reconciled.{HasRoom}
use herdr_a2a.Broker.Task.{durable_terminal_task, durable_acknowledged_task}
use herdr_a2a.Broker.Enqueue.{enqueue, enqueue_admitted, stamp}
use herdr_a2a.Broker.Deliver.{
  check_ack, select_delivery, Selection, selected, pending, AckCheck, already, fresh, deliver,
  acknowledge, poll_delivery, ack_delivery,
}
use herdr_a2a.Broker.Inspect.{
  task_snapshot, task_snapshot_for_sender, list_agents, operations_snapshot,
}
use herdr_a2a.Broker.Settle.{
  check_reply, check_cancel, check_recipient_terminal, recipient_outcome, failed, rejected,
  Settlement, settled_before, to_settle, settle_found, outcome_state, outcome_reply, reply,
  recipient_terminal, fail_task, reject_task, cancel_task,
}
use herdr_a2a.Broker.Calls.{Call, perform, run}
use herdr_a2a.Broker.Limits.Reconciled.{IsLimited-of_room}
use herdr_a2a.Broker.Limits.Rules.{
  Leads, Leads-bind, Leads-then, Leads-lift, Leads-if, Leads-attempt, Leads-change, Leads-read,
  Leads-modify_or_fail, Leads-commit_transition,
}
use herdr_a2a.Broker.Limits.Parts.{
  Floor, IsLimited, IsLimited-same, bump-IsLimited, detach-IsLimited, terminalize_task-IsLimited,
}
use herdr_a2a.Broker.Limits.Fences.{
  is_distinct, is_listed, is_fenced, is_fenced-length, retire-is_fenced,
}
use herdr_a2a.Broker.Limits.Steps.{
  install_registration-IsLimited, admit-room, insert_task-IsLimited, apply_lease-IsLimited,
  apply_ack-IsLimited,
}
use herdr_a2a.Broker.Limits.Maintained.{
  IsLimited-flagged, maintain_state-IsLimited, validate_registration_and_maintain-IsLimited,
}

module _ (floor : Floor) where
  module _ {Store : Type 0} (persistence : BrokerPersistence Store) (platform : Platform) where
    -- The last steps of `register`, for a registration whose epoch has reached the floor.
    install_step-IsLimited :
        (r : Registration) (now : ℕ)
        → floor.reached ≤ r.epoch
        → Leads (IsLimited floor) (IsLimited floor) (
            attempt {Store = Store} (λ s. install_registration s r now) >>= λ wakeups.
            record_directory >> (emit wakeups >> pure r))
    install_step-IsLimited r now n =
        Leads-bind (IsLimited floor) (IsLimited floor) (attempt (λ s. install_registration s r now))
          (λ wakeups. record_directory >> (emit wakeups >> pure r))
          (Leads-attempt (IsLimited floor) (λ s. install_registration s r now)
            (λ s es s' u h. install_registration-IsLimited floor r now s es s' n u h))
          (λ wakeups w u. u)

    register-IsLimited :
        (id : RegistrationId) (agent : VerifiedAgent) (session : Text) (now : ℕ)
        → Leads
            (IsLimited floor)
            (IsLimited floor)
            (register persistence platform id agent session now)
    unfolding register
    register-IsLimited id agent session now =
        Leads-bind (IsLimited floor) (IsLimited floor) (maintain_state persistence platform now) _
          (maintain_state-IsLimited floor persistence platform now)
          (λ _.
            Leads-lift (IsLimited floor) (IsLimited floor)
              (ok_or (i64_add now registration_ttl_ms) persistence_unavailable) _ (λ s v. v)
              (λ expiry _ w v.
                Leads-lift (IsLimited floor) (IsLimited floor)
                  (ok_or (u64_succ w.state.next_registration_epoch) persistence_unavailable) _
                  (λ s u. u)
                  (λ epoch e.
                    Leads-lift (IsLimited floor) (IsLimited floor)
                      (replaced_tasks w.state agent.name) _ (λ s u. u)
                      (λ requeued _.
                        Leads-bind (IsLimited floor) (IsLimited floor)
                          (commit_transition persistence _) _
                          (Leads-commit_transition (IsLimited floor) persistence
                            (IsLimited-flagged floor) _)
                          (λ _. install_step-IsLimited _ now (raised w.state epoch v.epoch e))))
                  w v))
      where
        raised :
            (s : State) (epoch : ℕ)
            → floor.reached ≤ s.next_registration_epoch
            → ok_or (u64_succ s.next_registration_epoch) persistence_unavailable ≡ ok epoch
            → floor.reached ≤ epoch
        raised s epoch h e = elim (Option-cases (u64_succ s.next_registration_epoch)) [
          | inl e' ↦ absurd (ground arith)
          | inr (k, e') ↦ ground (arith, u64_succ-some s.next_registration_epoch e')
        ]

    remove_registration-IsLimited :
        (c : RegistrationCredentials) (now : ℕ)
        → Leads (IsLimited floor) (IsLimited floor) (remove_registration persistence platform c now)
    unfolding remove_registration
    remove_registration-IsLimited c now =
        Leads-bind (IsLimited floor) (IsLimited floor)
          (validate_registration_and_maintain persistence platform c now) _
          (validate_registration_and_maintain-IsLimited floor persistence platform c now)
          (λ _ w.
            Leads-lift (IsLimited floor) (IsLimited floor) (requeued_tasks w.state.tasks c) _
              (λ s v. v)
              (λ requeued _.
                Leads-bind (IsLimited floor) (IsLimited floor)
                  (if is_empty requeued then pure tt else commit_transition persistence _) _
                  (Leads-if (IsLimited floor) (is_empty requeued) (pure tt)
                    (commit_transition persistence _) (λ w v. v)
                    (Leads-commit_transition (IsLimited floor) persistence (IsLimited-flagged floor)
                      _))
                  (λ _.
                    Leads-change (IsLimited floor) (IsLimited floor) (IsLimited floor)
                      (λ s. bump_requeued_versions_for_credentials s c) _
                      (λ s s' v h. bump-IsLimited floor s c s' v h) (λ s v. v)
                      (Leads-bind (IsLimited floor) (IsLimited floor)
                        (registered_entry persistence platform c.id) _ (λ w v. v)
                        (λ _ w v. detach-IsLimited floor w.state c.id false v))))
              w)

    settle_found-IsLimited :
        (id : Text) (now : ℕ) (outcome : TerminalState) (found : Settlement)
        → Leads
            (IsLimited floor)
            (IsLimited floor)
            (settle_found persistence platform id now outcome found)
    unfolding settle_found
    settle_found-IsLimited id now outcome settled_before = λ w v. v
    settle_found-IsLimited id now outcome (to_settle task) =
        Leads-lift (IsLimited floor) (IsLimited floor)
          (durable_terminal_task id task now (outcome_state outcome) (outcome_reply outcome)) _
          (λ s v. v)
          (λ durable _.
            Leads-bind (IsLimited floor) (IsLimited floor) (commit_transition persistence _) _
              (Leads-commit_transition (IsLimited floor) persistence (IsLimited-flagged floor) _)
              (λ _.
                Leads-bind (IsLimited floor) (IsLimited floor)
                  (attempt (λ s. terminalize_task s id now outcome)) _
                  (Leads-attempt (IsLimited floor) _
                    (λ s ws s' v h. terminalize_task-IsLimited floor s id now outcome ws s' v h))
                  (λ waiters w v. v)))

    -- After the maintenance, a method that only reads the state before its last part.
    after_maintenance :
        {A : Type 0} (c : RegistrationCredentials) (now : ℕ) (k : Unit {0} → M Store A)
        → Leads (IsLimited floor) (IsLimited floor) (k tt)
        → Leads
            (IsLimited floor)
            (IsLimited floor)
            (validate_registration_and_maintain persistence platform c now >>= k)
    after_maintenance c now k h =
        Leads-bind (IsLimited floor) (IsLimited floor)
          (validate_registration_and_maintain persistence platform c now) k
          (validate_registration_and_maintain-IsLimited floor persistence platform c now) (λ _. h)

    deliver-IsLimited :
        (found : Selection)
        → Leads (IsLimited floor) (IsLimited floor) (deliver persistence platform found)
    deliver-IsLimited (pending deadline) = λ w v. v
    deliver-IsLimited (selected id delivery lease durable) =
        Leads-bind (IsLimited floor) (IsLimited floor) (commit_transition persistence _) _
          (Leads-commit_transition (IsLimited floor) persistence (IsLimited-flagged floor) _)
          (λ _.
            Leads-change (IsLimited floor) (IsLimited floor) (IsLimited floor)
              (λ s. apply_lease s id lease) _
              (λ s s' v h. apply_lease-IsLimited floor s id lease s' v h) (λ s v. v) (λ w v. v))

    acknowledge-IsLimited :
        (c : RegistrationCredentials) (now : ℕ) (found : AckCheck)
        → Leads (IsLimited floor) (IsLimited floor) (acknowledge persistence platform c now found)
    acknowledge-IsLimited c now already = λ w v. v
    acknowledge-IsLimited c now (fresh id task) =
        Leads-lift (IsLimited floor) (IsLimited floor) (durable_acknowledged_task id task now) _
          (λ s v. v)
          (λ durable _.
            Leads-bind (IsLimited floor) (IsLimited floor) (commit_transition persistence _) _
              (Leads-commit_transition (IsLimited floor) persistence (IsLimited-flagged floor) _)
              (λ _.
                Leads-modify_or_fail (IsLimited floor) (λ s. apply_ack s c id now)
                  (λ s s' v h. apply_ack-IsLimited floor s c id now s' v h)))

    enqueue_admitted-IsLimited :
        (c : RegistrationCredentials) (delivery : QueuedDelivery) (now : ℕ)
        → Leads
            (IsLimited floor)
            (IsLimited floor)
            (enqueue_admitted persistence platform c delivery now)
    unfolding enqueue_admitted
    enqueue_admitted-IsLimited c delivery now =
        Leads-read (IsLimited floor) (IsLimited floor) (HasRoom floor 1)
          (λ s. admit s c delivery now) _ (λ s v. v)
          (λ s a v e. admit-room floor c delivery now s a v e)
          (λ a.
            Leads-then (HasRoom floor 1) (IsLimited floor) (HasRoom floor 1)
              (commit_transition persistence _) _
              (Leads-commit_transition (HasRoom floor 1) persistence
                (λ s v. record {
                  tasks = v.tasks;
                  retired = v.retired;
                  epoch = v.epoch;
                  fenced = v.fenced;
                })
                _)
              (IsLimited-of_room floor 1)
              (λ _ w v. insert_task-IsLimited floor w.state (stamp delivery now) a now v))

    -- A method of a registered agent: maintenance, what it reads, and what it then does.
    method-IsLimited :
        {A B : Type 0} (c : RegistrationCredentials) (now : ℕ) (f : State → Result A)
        (k : A → M Store B)
        → ((a : A) → Leads (IsLimited floor) (IsLimited floor) (k a))
        → Leads (IsLimited floor) (IsLimited floor) (
            validate_registration_and_maintain persistence platform c now >>= λ _.
            get_state >>= λ s. lift (f s) >>= k)
    method-IsLimited c now f k h = after_maintenance c now _ (
        Leads-read (IsLimited floor) (IsLimited floor) (IsLimited floor) f k (λ s v. v)
          (λ s a v e. v) h)

    -- The entry of the calling registration is changed.
    entry_changed :
        (s : State) (id : RegistrationId) (f : RegistrationState → RegistrationState)
        → IsLimited floor s
        → IsLimited floor (record s { registrations = Map.alter s.registrations id f })
    entry_changed s id f v = IsLimited-same floor s _ (omega arith) refl refl refl v

    perform-IsLimited :
        (call : Call) (now : ℕ) (w : World Store)
        → IsLimited floor w.state
        → IsLimited floor (perform persistence platform call now w).state
    unfolding perform reply fail_task reject_task recipient_terminal cancel_task ack_delivery
        enqueue renew authenticate begin_wait end_wait poll_delivery task_snapshot
        task_snapshot_for_sender list_agents operations_snapshot
    perform-IsLimited (Call.register id agent session) now w v =
        register-IsLimited id agent session now w v
    perform-IsLimited (Call.renew c) now w v =
        after_maintenance c now _
          (Leads-lift (IsLimited floor) (IsLimited floor)
            (ok_or (i64_add now registration_ttl_ms) persistence_unavailable) _ (λ s u. u)
            (λ expiry _.
              Leads-bind (IsLimited floor) (IsLimited floor)
                (registered_entry persistence platform c.id) _ (λ w u. u)
                (λ _ w u. entry_changed w.state c.id _ u)))
          w v
    perform-IsLimited (Call.remove_registration c) now w v = remove_registration-IsLimited c now w v
    perform-IsLimited (Call.authenticate c) now w v =
        after_maintenance c now _
          (Leads-bind (IsLimited floor) (IsLimited floor)
            (registered_entry persistence platform c.id) _ (λ w u. u) (λ _ w u. u))
          w v
    perform-IsLimited (Call.begin_wait c) now w v =
        after_maintenance c now _
          (Leads-bind (IsLimited floor) (IsLimited floor)
            (registered_entry persistence platform c.id) _ (λ w u. u)
            (λ entry.
              Leads-lift (IsLimited floor) (IsLimited floor)
                (guard (not entry.wait_active) wait_already_active) _ (λ s u. u)
                (λ _ _ w u. entry_changed w.state c.id _ u)))
          w v
    perform-IsLimited (Call.end_wait id) now w v = entry_changed w.state id _ v
    perform-IsLimited (Call.enqueue c delivery) now w v =
        after_maintenance c now _ (enqueue_admitted-IsLimited c delivery now) w v
    perform-IsLimited (Call.poll_delivery c id) now w v =
        after_maintenance c now _
          (Leads-bind (IsLimited floor) (IsLimited floor)
            (registered_entry persistence platform c.id) _ (λ w u. u)
            (λ entry.
              Leads-read (IsLimited floor) (IsLimited floor) (IsLimited floor)
                (λ s. select_delivery c id s now entry.registration.expires_unix_ms entry.inbox) _
                (λ s u. u) (λ s a u e. u) deliver-IsLimited))
          w v
    perform-IsLimited (Call.ack_delivery c id) now w v =
        method-IsLimited c now (λ s. check_ack s c id now) _ (acknowledge-IsLimited c now) w v
    perform-IsLimited (Call.reply c id payload) now w v =
        method-IsLimited c now (λ s. check_reply s c id payload) _
          (settle_found-IsLimited id now (TerminalState.replied payload)) w v
    perform-IsLimited (Call.fail_task c id message) now w v =
        method-IsLimited c now (λ s. check_recipient_terminal s c id message failed) _
          (settle_found-IsLimited id now (recipient_outcome failed message)) w v
    perform-IsLimited (Call.reject_task c id message) now w v =
        method-IsLimited c now (λ s. check_recipient_terminal s c id message rejected) _
          (settle_found-IsLimited id now (recipient_outcome rejected message)) w v
    perform-IsLimited (Call.cancel_task c id) now w v =
        method-IsLimited c now (λ s. check_cancel s c id) _
          (settle_found-IsLimited id now TerminalState.canceled) w v
    perform-IsLimited (Call.task_snapshot c id) now w v =
        after_maintenance c now _
          (Leads-bind (IsLimited floor) (IsLimited floor)
            (registered_entry persistence platform c.id) _ (λ w u. u) (λ _ w u. u))
          w v
    perform-IsLimited (Call.task_snapshot_for_sender sender id) now w v =
        Leads-bind (IsLimited floor) (IsLimited floor) (maintain_state persistence platform now) _
          (maintain_state-IsLimited floor persistence platform now) (λ _ w u. u) w v
    perform-IsLimited Call.list_agents now w v =
        maintain_state-IsLimited floor persistence platform now w v
    perform-IsLimited Call.operations_snapshot now w v =
        Leads-bind (IsLimited floor) (IsLimited floor) (maintain_state persistence platform now) _
          (maintain_state-IsLimited floor persistence platform now) (λ _ w u. u) w v

-- The set of retired ids has no id twice, and none that is not in the order.
abbrev pub IsFenced : State → Type 0
IsFenced s = is_fenced s.retired_registration_order s.retired_registration_ids ≡ true

-- The counter has reached a number, and the retired ids are fenced.
abbrev fenced_floor : ℕ → Floor
fenced_floor n = record { reached = n; fence = is_fenced; kept = retire-is_fenced }

-- At most 4096 tasks are retained, at most 4096 ids of retired registrations are in their order and
-- at most 4096 in their set, and the counter of registration epochs has reached `floor`.
pub record IsWithinLimits (floor : ℕ) (s : State) : Type 0 where
  pub tasks : length s.tasks ≤ max_retained_tasks
  pub order : length s.retired_registration_order ≤ max_retired_registration_ids
  pub ids : length s.retired_registration_ids ≤ max_retired_registration_ids
  pub epoch : floor ≤ s.next_registration_epoch

IsWithinLimits-of : {n : ℕ} (s : State) → IsLimited (fenced_floor n) s → IsWithinLimits n s
IsWithinLimits-of s v =
    let (distinct, listed) =
      &&_parts (is_distinct s.retired_registration_ids)
        (is_listed s.retired_registration_order s.retired_registration_ids) v.fenced in
    record {
      tasks = v.tasks;
      order = v.retired;
      ids = omega (
        arith,
        v.retired,
        is_fenced-length s.retired_registration_order s.retired_registration_ids distinct listed,
      );
      epoch = v.epoch;
    }

module _ {Store : Type 0} (persistence : BrokerPersistence Store) (platform : Platform) where
  -- From a broker that holds at most 4096 tasks, has at most 4096 ids in the order of retired
  -- registrations, and a set of retired ids without repetitions and with no id that is not in the
  -- order, every history of calls, with any storage and at any times, leads to one that holds at
  -- most 4096 tasks, at most 4096 ids in the order and at most 4096 in the set, and in which the
  -- counter of registration epochs is not lower. A step that panics is taken to leave the state as
  -- it was before the step.
  pub run-IsLimited :
      (calls : List (ℕ × Call)) (w : World Store)
      → length w.state.tasks ≤ max_retained_tasks
      → length w.state.retired_registration_order ≤ max_retired_registration_ids
      → IsFenced w.state
      → IsWithinLimits w.state.next_registration_epoch (run persistence platform calls w).state
  unfolding run
  run-IsLimited calls w t r f =
      IsWithinLimits-of (run persistence platform calls w).state
        (go calls w (record { tasks = t; retired = r; epoch = omega arith; fenced = f }))
    where
      go :
          {floor : Floor} (calls : List (ℕ × Call)) (w : World Store)
          → IsLimited floor w.state
          → IsLimited floor (run persistence platform calls w).state
      go [] w v = v
      go {floor} ((now, call) ∷ calls) w v =
          go {floor = floor} calls (perform persistence platform call now w)
            (perform-IsLimited floor persistence platform call now w v)
