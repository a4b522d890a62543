-- ===== src/Broker/Limits/Maintained.antt =====
-- The limits and `maintain_state` of crates/herdr-a2a-core/src/broker.rs.
use herdr_a2a.Base.{ℕ, ◌≡◌, refl, List, [], ◌∷◌, arith, Text, Bool, if◌then◌else◌, is_empty, true}
use herdr_a2a.Core.Errors.{ok, >>=-eq-ok}
use herdr_a2a.Core.Model.{RegistrationId, RegistrationCredentials}
use herdr_a2a.Core.Durability.{BrokerPersistence, batch_is_empty}
use herdr_a2a.Core.Validation.{Platform}
use herdr_a2a.Broker.State.{State, validate_active_registration}
use herdr_a2a.Broker.Terminal.{TerminalState, terminalize_task}
use herdr_a2a.Broker.Registry.{bump_requeued_versions_for_credentials}
use herdr_a2a.Broker.Monad.{
  ◌>>◌, pure, lift, modify, attempt, emit, Effect, record_directory, commit_transition,
}
use herdr_a2a.Broker.Reconcile.{reconcile_state_if_required}
use herdr_a2a.Broker.Maintain.{
  Duties, maintenance_duties, expire_tasks, bump_all, detach_all, prune, detach_expired,
  perform_duties, maintain_state, validate_registration_and_maintain,
}
use herdr_a2a.Broker.Limits.Rules.{
  Leads, Leads-bind, Leads-lift, Leads-if, Leads-attempt, Leads-change, Leads-commit_transition,
}
use herdr_a2a.Broker.Limits.Parts.{
  Floor, IsLimited, IsLimited-same, terminalize_task-IsLimited, prune-IsLimited, bump-IsLimited,
  detach-IsLimited,
}
use herdr_a2a.Broker.Limits.Reconciled.{reconcile_state_if_required-IsLimited}

module _ (floor : Floor) where
  pub IsLimited-flagged :
      (s : State)
      → IsLimited floor s
      → IsLimited floor (record s { reconciliation_required = true })
  IsLimited-flagged s v = IsLimited-same floor s _ (omega arith) refl refl refl v

  expire_tasks-IsLimited :
      (s : State) (now : ℕ) (ids : List Text) (es : List Effect) (s' : State)
      → IsLimited floor s
      → expire_tasks s now ids ≡ ok (es, s')
      → IsLimited floor s'
  unfolding expire_tasks
  expire_tasks-IsLimited s now [] es s' v h = ground arith
  expire_tasks-IsLimited s now (id ∷ ids) es s' v h =
      let (done, e, f) = >>=-eq-ok (terminalize_task s id now TerminalState.expired) _ h in
      let (rest, e', f') = >>=-eq-ok (expire_tasks done.1 now ids) _ f in
      let u = terminalize_task-IsLimited floor s id now TerminalState.expired done.0 done.1 v e in
      let u' = expire_tasks-IsLimited done.1 now ids rest.0 rest.1 u e' in ground arith

  bump_all-IsLimited :
      (s : State) (cs : List RegistrationCredentials) (s' : State)
      → IsLimited floor s
      → bump_all s cs ≡ ok s'
      → IsLimited floor s'
  unfolding bump_all
  bump_all-IsLimited s [] s' v h = ground arith
  bump_all-IsLimited s (c ∷ cs) s' v h =
      let (m, e, f) = >>=-eq-ok (bump_requeued_versions_for_credentials s c) _ h in
      bump_all-IsLimited m cs s' (bump-IsLimited floor s c m v e) f

  detach_all-IsLimited :
      (ids : List RegistrationId) (s : State)
      → IsLimited floor s
      → IsLimited floor (detach_all s ids).0
  unfolding detach_all
  detach_all-IsLimited [] s v = v
  detach_all-IsLimited (id ∷ ids) s v =
      detach_all-IsLimited ids _ (detach-IsLimited floor s id true v)

  module _ {Store : Type 0} (persistence : BrokerPersistence Store) (platform : Platform) where
    -- The last two steps.
    prune_step-IsLimited :
        (now : ℕ) (es : List Effect)
        → Leads
            (IsLimited floor)
            (IsLimited floor)
            (modify {Store = Store} (λ s. prune s now) >> emit es)
    unfolding prune
    prune_step-IsLimited now es w v = prune-IsLimited floor w.state now v

    -- The step before them.
    directory_step-IsLimited :
        (b : Bool) (now : ℕ) (es : List Effect)
        → Leads (IsLimited floor) (IsLimited floor) (
            (if b then pure {Store = Store} tt else record_directory)
            >> (modify (λ s. prune s now) >> emit es))
    directory_step-IsLimited b now es =
        Leads-bind (IsLimited floor) (IsLimited floor)
          (if b then pure {Store = Store} tt else record_directory)
          (λ _. modify (λ s. prune s now) >> emit es)
          (Leads-if (IsLimited floor) b (pure tt) record_directory (λ w v. v) (λ w v. v))
          (λ _. prune_step-IsLimited now es)

    perform_duties-IsLimited :
        (duties : Duties) (now : ℕ)
        → Leads (IsLimited floor) (IsLimited floor) (perform_duties persistence platform duties now)
    unfolding perform_duties
    perform_duties-IsLimited duties now =
        Leads-bind (IsLimited floor) (IsLimited floor)
          (attempt (λ s. expire_tasks s now duties.due)) _
          (Leads-attempt (IsLimited floor) (λ s. expire_tasks s now duties.due)
            (λ s es s' v e. expire_tasks-IsLimited s now duties.due es s' v e))
          (λ answers.
            Leads-change (IsLimited floor) (IsLimited floor) (IsLimited floor)
              (λ s. bump_all s duties.expired) _
              (λ s s' v e. bump_all-IsLimited s duties.expired s' v e) (λ s v. v)
              (Leads-bind (IsLimited floor) (IsLimited floor)
                (detach_expired persistence platform duties.expired_ids)
                (λ _.
                  (if is_empty duties.expired then pure tt else record_directory)
                  >> (modify (λ s. prune s now) >> emit answers))
                (λ w v. detach_all-IsLimited duties.expired_ids w.state v)
                (λ _. directory_step-IsLimited (is_empty duties.expired) now answers)))

    -- The steps behind the reconciliation, once the duties are known.
    committed_duties-IsLimited :
        (duties : Duties) (now : ℕ)
        → Leads (IsLimited floor) (IsLimited floor) (
            (if batch_is_empty duties.batch
              then pure tt
              else commit_transition persistence duties.batch)
            >> perform_duties persistence platform duties now)
    committed_duties-IsLimited duties now =
        Leads-bind (IsLimited floor) (IsLimited floor)
          (if batch_is_empty duties.batch
            then pure tt
            else commit_transition persistence duties.batch)
          (λ _. perform_duties persistence platform duties now)
          (Leads-if (IsLimited floor) (batch_is_empty duties.batch) (pure tt)
            (commit_transition persistence duties.batch) (λ w v. v)
            (Leads-commit_transition (IsLimited floor) persistence IsLimited-flagged duties.batch))
          (λ _. perform_duties-IsLimited duties now)

    pub maintain_state-IsLimited :
        (now : ℕ)
        → Leads (IsLimited floor) (IsLimited floor) (maintain_state persistence platform now)
    unfolding maintain_state
    maintain_state-IsLimited now =
        Leads-bind (IsLimited floor) (IsLimited floor)
          (reconcile_state_if_required persistence platform now) _
          (reconcile_state_if_required-IsLimited floor persistence platform now)
          (λ _ w.
            Leads-lift (IsLimited floor) (IsLimited floor) (maintenance_duties w.state now) _
              (λ s v. v) (λ duties _. committed_duties-IsLimited duties now) w)

    pub validate_registration_and_maintain-IsLimited :
        (c : RegistrationCredentials) (now : ℕ)
        → Leads
            (IsLimited floor)
            (IsLimited floor)
            (validate_registration_and_maintain persistence platform c now)
    unfolding validate_registration_and_maintain
    validate_registration_and_maintain-IsLimited c now w =
        Leads-bind (IsLimited floor) (IsLimited floor) (maintain_state persistence platform now)
          (λ _. lift (validate_active_registration w.state c now)) (maintain_state-IsLimited now)
          (λ _ w' v. v) w
