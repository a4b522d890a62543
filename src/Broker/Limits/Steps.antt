-- ===== src/Broker/Limits/Steps.antt =====
-- The limits, and what the methods of crates/herdr-a2a-core/src/broker.rs do to the state.
use herdr_a2a.Base.{
  ℕ, ◌≤◌, ◌≡◌, List, [], ◌∷◌, arith, Text, Option-cases, inl, inr, length, true, not, is_some, ltb,
  ltb→lt, u64_succ,
}
use herdr_a2a.Base.Map.{length-insert-le, length-insert_known}
use herdr_a2a.Base.Map
use herdr_a2a.Core.Errors.{
  Result, ok, err, panicked, >>=-eq-ok, guard-eq-ok, guard, duplicate_task, too_many_retained_tasks,
  ok_or, persistence_unavailable,
}
use herdr_a2a.Core.Errors
use herdr_a2a.Core.Model.{
  RegistrationId, RegistrationCredentials, Registration, credentials, AgentName, QueuedDelivery,
}
use herdr_a2a.Broker.Task.{max_retained_tasks, DeliveryLease}
use herdr_a2a.Broker.State.{State, RegistrationState, record_status_event}
use herdr_a2a.Broker.Registry.{detach_registration, bump_requeued_versions_for_credentials}
use herdr_a2a.Broker.Monad.{Effect, notified}
use herdr_a2a.Broker.Sessions.{
  detach_earlier, install_registration, list_registration, initial_inbox,
}
use herdr_a2a.Broker.Enqueue.{Admission, admit, insert_task, new_record}
use herdr_a2a.Broker.Deliver.{apply_lease, leased_record, apply_ack, acknowledged_record}
use herdr_a2a.Broker.Limits.Reconciled.{HasRoom}
use herdr_a2a.Broker.Limits.Parts.{Floor, IsLimited, bump-IsLimited, detach-IsLimited}

abbrev woken : RegistrationId → State → Result (List Effect × State)
woken id m = ok (notified id ∷ [], (detach_registration m id true).1)

module _ (floor : Floor) where
  detach_earlier-IsLimited :
      (s : State) (name : AgentName) (es : List Effect) (s' : State)
      → IsLimited floor s
      → detach_earlier s name ≡ ok (es, s')
      → IsLimited floor s'
  unfolding detach_earlier
  detach_earlier-IsLimited s name es s' v h =
      elim (Option-cases (Map.get s.registrations_by_agent name)) [
        | inl e ↦ ground arith
        | inr (id, e) ↦ elim (Option-cases (Map.get s.registrations id)) [
          | inl e' ↦ ground (arith, detach-IsLimited floor s id true v)
          | inr (entry, e') ↦
              let (m, e'', f) = bumped id entry (ground arith) in
              ground (
                arith,
                detach-IsLimited floor m id true
                    (bump-IsLimited floor s (credentials entry.registration) m v e''),
              )
        ]
      ]
    where
      bumped :
          (id : RegistrationId) (entry : RegistrationState)
          → Errors.◌>>=◌
              (bump_requeued_versions_for_credentials s (credentials entry.registration))
              (woken id)
            ≡ ok (es, s')
          → (m : State) × (bump_requeued_versions_for_credentials s (credentials entry.registration)
              ≡ ok m)
            × (woken id m ≡ ok (es, s'))
      bumped id entry h' =
          >>=-eq-ok (bump_requeued_versions_for_credentials s (credentials entry.registration)) _ h'

  pub install_registration-IsLimited :
      (r : Registration) (now : ℕ) (s : State) (es : List Effect) (s' : State)
      → floor.reached ≤ r.epoch
      → IsLimited floor s
      → install_registration s r now ≡ ok (es, s')
      → IsLimited floor s'
  unfolding install_registration list_registration record_status_event
  install_registration-IsLimited r now s es s' n v h =
      let (d, e, f) =
        >>=-eq-ok (detach_earlier (record s { next_registration_epoch = r.epoch }) r.agent.name) _
          h in
      let (inbox, e', f') = >>=-eq-ok (initial_inbox d.1 r.agent.name) _ f in
      let u =
        detach_earlier-IsLimited (record s { next_registration_epoch = r.epoch }) r.agent.name d.0
          d.1 (record { tasks = v.tasks; retired = v.retired; epoch = n; fenced = v.fenced }) e in
      ground arith

  -- `admit` leaves room for one more task.
  pub admit-room :
      (c : RegistrationCredentials) (delivery : QueuedDelivery) (now : ℕ) (s : State)
      (a : Admission)
      → IsLimited floor s
      → admit s c delivery now ≡ ok a
      → HasRoom floor 1 s
  unfolding admit
  admit-room c delivery now s a v h =
      let (u, e, f) =
        >>=-eq-ok (guard (not (is_some (Map.get s.tasks delivery.task_id))) duplicate_task) _ h in
      let (u', e', f') =
        >>=-eq-ok (guard (ltb (length s.tasks) max_retained_tasks) too_many_retained_tasks) _ f in
      let small = ltb→lt _ _ (guard-eq-ok _ too_many_retained_tasks e') in
      record {
        tasks = omega (arith, small);
        retired = v.retired;
        epoch = v.epoch;
        fenced = v.fenced;
      }

  pub insert_task-IsLimited :
      (s : State) (delivery : QueuedDelivery) (a : Admission) (now : ℕ)
      → HasRoom floor 1 s
      → IsLimited floor (insert_task s delivery a now)
  unfolding insert_task record_status_event
  insert_task-IsLimited s delivery a now v = record {
    tasks = omega (
      arith,
      v.tasks,
      length-insert-le s.tasks delivery.task_id (new_record delivery a.enqueue_sequence),
    );
    retired = v.retired;
    epoch = v.epoch;
    fenced = v.fenced;
  }

  pub apply_lease-IsLimited :
      (s : State) (id : Text) (lease : DeliveryLease) (s' : State)
      → IsLimited floor s
      → apply_lease s id lease ≡ ok s'
      → IsLimited floor s'
  unfolding apply_lease
  apply_lease-IsLimited s id lease s' v h = elim (Option-cases (Map.get s.tasks id)) [
    | inl e ↦ absurd (ground arith)
    | inr (task, e) ↦ elim (Option-cases (u64_succ task.state_version)) [
      | inl e' ↦ absurd (ground arith)
      | inr (version, e') ↦
          ground (arith, length-insert_known s.tasks id (leased_record task version lease) (e))
    ]
  ]

  pub apply_ack-IsLimited :
      (s : State) (c : RegistrationCredentials) (id : Text) (now : ℕ) (s' : State)
      → IsLimited floor s
      → apply_ack s c id now ≡ ok s'
      → IsLimited floor s'
  unfolding apply_ack
  apply_ack-IsLimited s c id now s' v h = elim (Option-cases (Map.get s.tasks id)) [
    | inl e ↦ absurd (ground arith)
    | inr (task, e) ↦ elim (Option-cases (u64_succ task.state_version)) [
      | inl e' ↦ absurd (ground arith)
      | inr (version, e') ↦
          ground (arith, length-insert_known s.tasks id (acknowledged_record task version now) e)
    ]
  ]
