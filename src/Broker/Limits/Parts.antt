-- ===== src/Broker/Limits/Parts.antt =====
-- The limits, and the functions of the state in crates/herdr-a2a-core/src/broker.rs.
use herdr_a2a.Base.{
  ℕ, ◌≤◌, ◌≡◌, ◌∙◌, refl, inl, inr, Bool, true, false, none, some, List, [], ◌∷◌, arith, length,
  Text, Option-cases, u64_succ, if◌then◌else◌, i64_add, ap,
}
use herdr_a2a.Base.Map.{Map, length-alter, length-remove-le, length-insert_known}
use herdr_a2a.Base.Map
use herdr_a2a.Core.Errors.{ok, >>=-eq-ok}
use herdr_a2a.Core.Model.{RegistrationId, RegistrationCredentials}
use herdr_a2a.Broker.Task.{
  TaskRecord, ReplyWaiter, max_retained_tasks, max_retired_registration_ids, terminal_retention_ms,
}
use herdr_a2a.Broker.Deadlines.{Deadlines}
use herdr_a2a.Broker.State.{State, RegistrationState}
use herdr_a2a.Broker.Terminal.{
  TerminalState, unindex_task, settle, settle_task, terminalize_task, prune_due,
  prune_terminal_tasks, prune_delivery_deadlines,
}
use herdr_a2a.Broker.Registry.{
  retire_registration_id, release_lease, release_leases, unlist_registration, detach_registration,
  bump_if_leased, bump_requeued_versions, bump_requeued_versions_for_credentials,
}
use herdr_a2a.Broker.Registry.Revoke.{retire_registration_id-bounded}
use herdr_a2a.Base.TextSet.{TextSet}

-- What is asked of a state beside the limits: that the counter of registration epochs has reached
-- a number, and that the retired ids and their order pass a test that retiring an id preserves.
pub record Floor : Type 0 where
  pub reached : ℕ
  pub fence : List RegistrationId → TextSet → Bool
  pub kept :
      (s : State) (id : RegistrationId)
      → fence s.retired_registration_order s.retired_registration_ids ≡ true
      → fence
          (retire_registration_id s id).retired_registration_order
          (retire_registration_id s id).retired_registration_ids
        ≡ true

-- At most 4096 tasks are retained, at most 4096 ids are in the order of retired registrations, and
-- the state meets `floor`.
pub record IsLimited (floor : Floor) (s : State) : Type 0 where
  pub tasks : length s.tasks ≤ max_retained_tasks
  pub retired : length s.retired_registration_order ≤ max_retired_registration_ids
  pub epoch : floor.reached ≤ s.next_registration_epoch
  pub fenced : floor.fence s.retired_registration_order s.retired_registration_ids ≡ true

module _ (floor : Floor) where
  -- Two states that agree in these respects.
  pub IsLimited-same :
      (s s' : State)
      → length s'.tasks ≤ length s.tasks
      → s'.retired_registration_order ≡ s.retired_registration_order
      → s'.retired_registration_ids ≡ s.retired_registration_ids
      → s'.next_registration_epoch ≡ s.next_registration_epoch
      → IsLimited floor s
      → IsLimited floor s'
  IsLimited-same s s' t r i e v = record {
    tasks = omega (arith, v.tasks);
    retired = omega (arith, v.retired, ap length r);
    epoch = omega (arith, v.epoch);
    fenced =
        ap (λ x. floor.fence x s'.retired_registration_ids) r
        ∙ (ap (λ x. floor.fence s.retired_registration_order x) i ∙ v.fenced);
  }

  unindex_lem :
      (s : State) (task : TaskRecord) (id : Text) (deadline : ℕ)
      → ((unindex_task s task id deadline).retired_registration_order
          ≡ s.retired_registration_order)
        × ((unindex_task s task id deadline).retired_registration_ids ≡ s.retired_registration_ids)
        × ((unindex_task s task id deadline).next_registration_epoch ≡ s.next_registration_epoch)
  unfolding unindex_task
  unindex_lem s task id deadline = ground arith

  settle_task-IsLimited :
      (s : State) (id : Text) (task : TaskRecord) (now deadline : ℕ) (o : TerminalState)
      (ws : List ReplyWaiter) (s' : State)
      → Map.get s.tasks id ≡ some task
      → IsLimited floor s
      → settle_task s id task now deadline o ≡ ok (ws, s')
      → IsLimited floor s'
  unfolding settle_task
  settle_task-IsLimited s id task now deadline o ws s' found v h =
      elim (Option-cases (u64_succ task.state_version)) [
        | inl e ↦ absurd (ground arith)
        | inr (version, e) ↦ ground (
          arith,
          unindex_lem s task id deadline,
          length-insert_known s.tasks id (settle task version now deadline o) found,
        )
      ]

  pub terminalize_task-IsLimited :
      (s : State) (id : Text) (now : ℕ) (o : TerminalState) (ws : List ReplyWaiter) (s' : State)
      → IsLimited floor s
      → terminalize_task s id now o ≡ ok (ws, s')
      → IsLimited floor s'
  unfolding terminalize_task
  terminalize_task-IsLimited s id now o ws s' v h =
      elim (Option-cases (i64_add now terminal_retention_ms)) [
        | inl e ↦ absurd (ground arith)
        | inr (deadline, e) ↦ elim (Option-cases (Map.get s.tasks id)) [
          | inl e' ↦ absurd (ground arith)
          | inr (task, e') ↦
              ground (arith, settle_task-IsLimited s id task now deadline o ws s' e' v)
        ]
      ]

  prune_due-length :
      (deadlines : Deadlines) (tasks : Map TaskRecord) (now : ℕ)
      → length (prune_due deadlines tasks now).1 ≤ length tasks
  unfolding prune_due
  prune_due-length [] tasks now = omega arith
  prune_due-length ((deadline, id) ∷ rest) tasks now = ground (
    arith,
    prune_due-length rest tasks now,
    prune_due-length rest (Map.remove tasks id) now,
    length-remove-le tasks id,
  )

  pub prune-IsLimited :
      (s : State) (now : ℕ)
      → IsLimited floor s
      → IsLimited floor (prune_terminal_tasks (prune_delivery_deadlines s now) now)
  unfolding prune_terminal_tasks prune_delivery_deadlines
  prune-IsLimited s now v =
      IsLimited-same s _ (prune_due-length s.terminal_deadlines s.tasks now) refl refl refl v

  bump-length :
      (tasks : Map TaskRecord) (c : RegistrationCredentials) (tasks' : Map TaskRecord)
      → bump_requeued_versions tasks c ≡ ok tasks'
      → length tasks' ≡ length tasks
  unfolding bump_requeued_versions
  bump-length [] c tasks' h = ground arith
  bump-length ((id, task) ∷ tasks) c tasks' h =
      let (task', e, f) = >>=-eq-ok (bump_if_leased task c) _ h in
      let (rest, e', f') = >>=-eq-ok (bump_requeued_versions tasks c) _ f in
      ground (arith, bump-length tasks c rest e')

  pub bump-IsLimited :
      (s : State) (c : RegistrationCredentials) (s' : State)
      → IsLimited floor s
      → bump_requeued_versions_for_credentials s c ≡ ok s'
      → IsLimited floor s'
  unfolding bump_requeued_versions_for_credentials
  bump-IsLimited s c s' v h =
      let (tasks, e, f) = >>=-eq-ok (bump_requeued_versions s.tasks c) _ h in
      ground (arith, bump-length s.tasks c tasks e)

  release_lease-IsLimited :
      (s : State) (id : Text) → IsLimited floor s → IsLimited floor (release_lease s id)
  unfolding release_lease
  release_lease-IsLimited s id v = elim (Option-cases (Map.get s.tasks id)) [
    | inl e ↦ rw (e, release_lease) v
    | inr (task, e) ↦
        rw (e, release_lease)
          (ground (arith, length-alter s.tasks id (λ t. record t { lease = none })))
  ]

  release_leases-IsLimited :
      (ids : List Text) (s : State) → IsLimited floor s → IsLimited floor (release_leases s ids)
  unfolding release_leases
  release_leases-IsLimited [] s v = v
  release_leases-IsLimited (id ∷ ids) s v =
      release_leases-IsLimited ids (release_lease s id) (release_lease-IsLimited s id v)

  retire_keeps_tasks :
      (s : State) (id : RegistrationId)
      → length s.tasks ≤ max_retained_tasks
      → length (retire_registration_id s id).tasks ≤ max_retained_tasks
  unfolding retire_registration_id
  retire_keeps_tasks s id h = h

  retire_keeps_epoch :
      (s : State) (id : RegistrationId)
      → floor.reached ≤ s.next_registration_epoch
      → floor.reached ≤ (retire_registration_id s id).next_registration_epoch
  unfolding retire_registration_id
  retire_keeps_epoch s id h = h

  retire-IsLimited :
      (s : State) (id : RegistrationId)
      → IsLimited floor s
      → IsLimited floor (retire_registration_id s id)
  retire-IsLimited s id v = record {
    tasks = retire_keeps_tasks s id v.tasks;
    retired = retire_registration_id-bounded s id;
    epoch = retire_keeps_epoch s id v.epoch;
    fenced = floor.kept s id v.fenced;
  }

  pub detach-IsLimited :
      (s : State) (id : RegistrationId) (retire : Bool)
      → IsLimited floor s
      → IsLimited floor (detach_registration s id retire).1
  unfolding detach_registration unlist_registration
  detach-IsLimited s id retire v = elim (Option-cases (Map.get s.registrations id)) [
    | inl e ↦ rw (e, detach_registration) v
    | inr (entry, e) ↦
        rw (e, detach_registration) (release_leases-IsLimited _ _ (retired retire entry))
  ]
    where
      retired :
          (retire : Bool) (entry : RegistrationState)
          → IsLimited floor (
              if retire
              then retire_registration_id (unlist_registration s entry id) id
              else unlist_registration s entry id)
      retired true entry =
          retire-IsLimited (unlist_registration s entry id) id
            (IsLimited-same s _ (omega arith) refl refl refl v)
      retired false entry = IsLimited-same s _ (omega arith) refl refl refl v
