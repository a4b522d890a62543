-- ===== src/Broker/Limits/Reconciled.antt =====
-- The limits and `reconcile_state_if_required` of crates/herdr-a2a-core/src/broker.rs.
use herdr_a2a.Base.{
  ℕ, true, ◌+◌, ◌≤◌, ◌≡◌, refl, inl, inr, List, [], ◌∷◌, ◌++◌, arith, length, length-retain-le,
  Text, Option-cases, u64_succ, if◌then◌else◌, leb, leb→le, ltb, is_none_or, suc, u64_max, ◌==◌,
  not,
}
use herdr_a2a.Base.Map.{Map, length-alter, length-insert-le, length-map_values}
use herdr_a2a.Base.Map
use herdr_a2a.Core.Errors.{ok, guard, persistence_unavailable, >>=-eq-ok, guard-eq-ok}
use herdr_a2a.Core.Durability.{
  DurableTask, BrokerPersistence, PersistenceBatch, batch_is_empty, PersistenceCommitOutcome,
  complete, reconciliation_required,
}
use herdr_a2a.Core.Validation.{Platform}
use herdr_a2a.Broker.Task.{ReplyWaiter, max_retained_tasks, max_retired_registration_ids}
use herdr_a2a.Broker.State.{State}
use herdr_a2a.Broker.Restore.{
  Sweep, sweep_batch, validate_and_reconcile_snapshot, retain_undue, insert_sorted, sort_tasks,
  restored_record, index_restored, index_terminal, is_terminal, restore_task, advance_sequence,
}
use herdr_a2a.Broker.Restore.Sweeps.{length-sweep_tasks}
use herdr_a2a.Broker.Monad.{get_state, ◌>>◌, pure, commit, ◌>>=◌, modify}
use herdr_a2a.Broker.Reconcile.{
  InboxEntry, clear_tasks, own_lease, own_leases, return_waiters, return_all_waiters, push_entries,
  reattach, reattach_all, restore_each, reconcile_state, reconcile_state_if_required,
  require_complete, empty_batch, load, commit_recovery, retained_waiters,
}
use herdr_a2a.Broker.Limits.Rules.{
  Leads, Leads-bind, Leads-lift, Leads-change, Leads-if, Leads-when,
}
use herdr_a2a.Broker.Limits.Parts.{Floor, IsLimited, IsLimited-same}

length-insert_sorted :
    (t : DurableTask) (ts : List DurableTask) → length (insert_sorted t ts) ≡ length ts + 1
unfolding insert_sorted
length-insert_sorted t [] = refl
length-insert_sorted t (x ∷ ts) = ground (arith, length-insert_sorted t ts)

length-sort_tasks : (ts : List DurableTask) → length (sort_tasks ts) ≡ length ts
unfolding sort_tasks
length-sort_tasks [] = refl
length-sort_tasks (t ∷ ts) =
    omega (arith, length-insert_sorted t (sort_tasks ts), length-sort_tasks ts)

-- The snapshot that is restored holds at most the retained tasks.
restored_bounded :
    (platform : Platform) (tasks : List DurableTask) (now : ℕ) (s : Sweep)
    → validate_and_reconcile_snapshot platform tasks now ≡ ok s
    → length (sort_tasks (retain_undue now s.restored)) ≤ max_retained_tasks
unfolding validate_and_reconcile_snapshot retain_undue
restored_bounded platform tasks now s h =
    let (u, e, f) =
      >>=-eq-ok (guard (leb (length tasks) max_retained_tasks) persistence_unavailable) _ h in
    let small = leb→le _ _ (guard-eq-ok _ persistence_unavailable e) in
    omega (
      arith,
      small,
      length-sweep_tasks platform now tasks [] [] s f,
      length-sort_tasks (retain_undue now s.restored),
      length-retain-le
          (λ (t : DurableTask). is_none_or t.retention_deadline_unix_ms (λ d. ltb now d))
          s.restored,
    )

module _ (floor : Floor) where
  -- The limits, with room for `n` more tasks.
  pub record HasRoom (n : ℕ) (s : State) : Type 0 where
    pub tasks : length s.tasks + n ≤ max_retained_tasks
    pub retired : length s.retired_registration_order ≤ max_retired_registration_ids
    pub epoch : floor.reached ≤ s.next_registration_epoch
    pub fenced : floor.fence s.retired_registration_order s.retired_registration_ids ≡ true

  pub IsLimited-of_room : (n : ℕ) (s : State) → HasRoom n s → IsLimited floor s
  IsLimited-of_room n s v = record {
    tasks = omega (arith, v.tasks);
    retired = v.retired;
    epoch = v.epoch;
    fenced = v.fenced;
  }

  advance-room : (n : ℕ) (s s' : State) → HasRoom n s → advance_sequence s ≡ ok s' → HasRoom n s'
  unfolding advance_sequence
  advance-room n s s' v h = elim (Option-cases (u64_succ s.next_task_sequence)) [
    | inl e ↦ absurd (ground arith)
    | inr (k, e) ↦ ground arith
  ]

  index_terminal_keeps :
      (s s' : State) (t : DurableTask)
      → index_terminal s t ≡ ok s'
      → (s'.retired_registration_order ≡ s.retired_registration_order)
        × (s'.retired_registration_ids ≡ s.retired_registration_ids)
        × (s'.next_registration_epoch ≡ s.next_registration_epoch)
  unfolding index_terminal
  index_terminal_keeps s s' t h = ground arith

  restore-room :
      (n : ℕ) (s s' : State) (t : DurableTask)
      → HasRoom (suc n) s
      → restore_task s t ≡ ok s'
      → HasRoom n s'
  unfolding restore_task index_restored
  restore-room n s s' t v h =
      let (m, e, f) =
        >>=-eq-ok (if is_terminal t.state then index_terminal s t else ok (index_restored s t)) _
          h in
      ground (arith, index_terminal_keeps s m t, length-insert_le' s t)
    where
      length-insert_le' :
          (s : State) (t : DurableTask)
          → length (Map.insert s.tasks t.task_id (restored_record s.next_task_sequence t))
            ≤ length s.tasks + 1
      length-insert_le' s t =
          length-insert-le s.tasks t.task_id (restored_record s.next_task_sequence t)

  -- What is restored fits into the room.
  restore_each-IsLimited :
      {Store : Type 0} (persistence : BrokerPersistence Store) (platform : Platform)
      (ts : List DurableTask)
      → Leads (HasRoom (length ts)) (IsLimited floor) (restore_each persistence platform ts)
  unfolding restore_each
  restore_each-IsLimited persistence platform [] = λ w v. IsLimited-of_room 0 w.state v
  restore_each-IsLimited persistence platform (t ∷ ts) =
      Leads-change (HasRoom (suc (length ts))) (HasRoom (suc (length ts))) (IsLimited floor)
        advance_sequence _ (advance-room (suc (length ts))) (IsLimited-of_room (suc (length ts)))
        (Leads-change (HasRoom (suc (length ts))) (HasRoom (length ts)) (IsLimited floor)
          (λ s. restore_task s t) _ (λ s s' v e. restore-room (length ts) s s' t v e)
          (IsLimited-of_room (suc (length ts))) (restore_each-IsLimited persistence platform ts))

  return_waiters-IsLimited :
      (id : Text) (ws : List ReplyWaiter) (s : State)
      → IsLimited floor s
      → IsLimited floor (return_waiters id ws s).0
  unfolding return_waiters
  return_waiters-IsLimited id ws s v =
      ground
        (arith, length-alter s.tasks id (λ t. record t { reply_waiters = t.reply_waiters ++ ws }))

  return_all_waiters-IsLimited :
      (m : Map (List ReplyWaiter)) (s : State)
      → IsLimited floor s
      → IsLimited floor (return_all_waiters m s).0
  unfolding return_all_waiters
  return_all_waiters-IsLimited [] s v = v
  return_all_waiters-IsLimited ((id, ws) ∷ m) s v =
      return_all_waiters-IsLimited m (return_waiters id ws s).0 (return_waiters-IsLimited id ws s v)

  push_entries-IsLimited :
      (es : List InboxEntry) (s : State) → IsLimited floor s → IsLimited floor (push_entries es s).0
  unfolding push_entries
  push_entries-IsLimited [] s v = v
  push_entries-IsLimited (e ∷ es) s v =
      push_entries-IsLimited es _ (IsLimited-same floor s _ (omega arith) refl refl refl v)

  own_leases-IsLimited :
      (s : State) (now : ℕ) → IsLimited floor s → IsLimited floor (own_leases s now)
  unfolding own_leases
  own_leases-IsLimited s now v =
      IsLimited-same floor s _ (omega (arith, length-map_values (own_lease s now) s.tasks)) refl
        refl refl v

  reattach-IsLimited :
      (ws : Map (List ReplyWaiter)) (s : State) (now : ℕ)
      → IsLimited floor s
      → IsLimited floor (reattach ws s now).0
  unfolding reattach
  reattach-IsLimited ws s now v =
      let owned = own_leases-IsLimited s now v in
      let returned = return_all_waiters-IsLimited ws (own_leases s now) owned in
      IsLimited-same floor _ _ (omega arith) refl refl refl (push_entries-IsLimited _ _ returned)

  clear_tasks-room :
      (s : State) (epoch n : ℕ)
      → n ≤ max_retained_tasks
      → IsLimited floor s
      → HasRoom n (clear_tasks s epoch)
  unfolding clear_tasks
  clear_tasks-room s epoch n h v = record {
    tasks = omega arith;
    retired = v.retired;
    epoch = omega (arith, v.epoch);
    fenced = v.fenced;
  }

  module _ {Store : Type 0} (persistence : BrokerPersistence Store) (platform : Platform) where
    require_complete-IsLimited :
        (outcome : PersistenceCommitOutcome)
        → Leads (IsLimited floor) (IsLimited floor) (require_complete {Store = Store} outcome)
    require_complete-IsLimited complete = λ w v. v
    require_complete-IsLimited reconciliation_required = λ w v. v

    reattach_all-IsLimited :
        (ws : Map (List ReplyWaiter)) (now : ℕ)
        → Leads (IsLimited floor) (IsLimited floor) (reattach_all persistence platform ws now)
    unfolding reattach_all
    reattach_all-IsLimited ws now w v = reattach-IsLimited ws w.state now v

    -- The tasks are cleared, and what is restored is bounded.
    restore-IsLimited :
        (ts : List DurableTask) (epoch now : ℕ)
        → length ts ≤ max_retained_tasks
        → Leads (IsLimited floor) (IsLimited floor) (
            get_state {Store = Store} >>= λ before.
            modify (λ s. clear_tasks s epoch)
            >> (restore_each persistence platform ts
                >> reattach_all persistence platform (retained_waiters before.tasks) now))
    restore-IsLimited ts epoch now small w v =
        Leads-bind (HasRoom (length ts)) (IsLimited floor) (restore_each persistence platform ts)
          (λ _. reattach_all persistence platform (retained_waiters w.state.tasks) now)
          (restore_each-IsLimited persistence platform ts)
          (λ _. reattach_all-IsLimited (retained_waiters w.state.tasks) now)
          (record w { state = clear_tasks w.state epoch })
          (clear_tasks-room w.state epoch (length ts) small v)

    commit_recovery-IsLimited :
        (batch : PersistenceBatch)
        → Leads (IsLimited floor) (IsLimited floor) (commit_recovery persistence platform batch)
    commit_recovery-IsLimited batch =
        Leads-if (IsLimited floor) (batch_is_empty batch) (pure tt)
          (commit persistence batch >>= require_complete) (λ w v. v)
          (Leads-bind (IsLimited floor) (IsLimited floor) (commit persistence batch)
            require_complete (λ w v. v) require_complete-IsLimited)

    reconcile_state-IsLimited :
        (now : ℕ)
        → Leads (IsLimited floor) (IsLimited floor) (reconcile_state persistence platform now)
    unfolding reconcile_state
    reconcile_state-IsLimited now =
        Leads-bind (IsLimited floor) (IsLimited floor) (commit persistence empty_batch) _ (λ w v. v)
          (λ repair.
            Leads-bind (IsLimited floor) (IsLimited floor) (require_complete repair) _
              (require_complete-IsLimited repair)
              (λ _.
                Leads-bind (IsLimited floor) (IsLimited floor) (load persistence platform now) _
                  (λ w v. v)
                  (λ snapshot.
                    Leads-lift (IsLimited floor) (IsLimited floor)
                      (guard (not (snapshot.last_registration_epoch == u64_max))
                        persistence_unavailable)
                      _ (λ s v. v)
                      (λ _ _.
                        Leads-lift (IsLimited floor) (IsLimited floor)
                          (validate_and_reconcile_snapshot platform snapshot.tasks now) _ (λ s v. v)
                          (λ sweep e.
                            Leads-bind (IsLimited floor) (IsLimited floor)
                              (commit_recovery persistence platform (sweep_batch sweep)) _
                              (commit_recovery-IsLimited (sweep_batch sweep))
                              (λ _.
                                restore-IsLimited (sort_tasks (retain_undue now sweep.restored))
                                  snapshot.last_registration_epoch now
                                  (restored_bounded platform snapshot.tasks now sweep e)))))))

    pub reconcile_state_if_required-IsLimited :
        (now : ℕ)
        → Leads
            (IsLimited floor)
            (IsLimited floor)
            (reconcile_state_if_required persistence platform now)
    unfolding reconcile_state_if_required
    reconcile_state_if_required-IsLimited now =
        Leads-when (IsLimited floor) (λ s. s.reconciliation_required)
          (reconcile_state persistence platform now) (reconcile_state-IsLimited now)
