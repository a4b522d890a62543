-- ===== src/Broker/Limits/Epochs.antt =====
-- The epochs that `register` of crates/herdr-a2a-core/src/broker.rs hands out.
use herdr_a2a.Base.{
  ℕ, true, List, ◌<◌, ◌≤◌, ◌≡◌, refl, ap, sym, subst, arith, length, Text, Option-cases, inl, inr,
  u64_succ, u64_succ-some, i64_add,
}
use herdr_a2a.Core.Errors.{Result, ok, err, panicked, ok_or, persistence_unavailable}
use herdr_a2a.Core.Model.{RegistrationId, Registration, VerifiedAgent}
use herdr_a2a.Core.Durability.{BrokerPersistence}
use herdr_a2a.Core.Validation.{Platform}
use herdr_a2a.Broker.Task.{registration_ttl_ms, max_retained_tasks, max_retired_registration_ids}
use herdr_a2a.Broker.State.{State}
use herdr_a2a.Broker.Monad.{
  World, M, ◌>>=◌, ◌>>◌, pure, lift, attempt, finish_attempt, continue, emit, Effect,
  record_directory, commit_transition,
}
use herdr_a2a.Broker.Maintain.{maintain_state}
use herdr_a2a.Broker.Sessions.{register, install_registration, replaced_tasks}
use herdr_a2a.Broker.Limits.Parts.{Floor, IsLimited}
use herdr_a2a.Broker.Limits.Steps.{install_registration-IsLimited}
use herdr_a2a.Broker.Limits.Rules.{Leads-commit_transition}
use herdr_a2a.Broker.Limits.Maintained.{maintain_state-IsLimited, IsLimited-flagged}

-- The counter has reached a number; nothing is asked of the retired ids.
abbrev any_floor : ℕ → Floor
any_floor n = record { reached = n; fence = λ _ _. true; kept = λ s id h. refl }

module _ {Store A B : Type 0} where
  -- A method that succeeds did so step by step.
  returns_bind :
      (m : M Store A) (f : A → M Store B) (w w'' : World Store) {b : B}
      → (m >>= f) w ≡ (ok b, w'')
      → (a : A) × (w' : World Store) × (m w ≡ (ok a, w')) × (f a w' ≡ (ok b, w''))
  returns_bind m f w w'' {b} = go (m w) refl
    where
      go :
          (r : Result A × World Store)
          → m w ≡ r
          → continue r f ≡ (ok b, w'')
          → (a : A) × (w' : World Store) × (m w ≡ (ok a, w')) × (f a w' ≡ (ok b, w''))
      go (ok a, w') e h = (a, w', e, h)
      go (err x, w') e h = absurd (cc)
      go (panicked, w') e h = absurd (cc)

  returns_lift :
      (r : Result A) (f : A → M Store B) (w w'' : World Store) {b : B}
      → (lift r >>= f) w ≡ (ok b, w'')
      → (a : A) × (r ≡ ok a) × (f a w ≡ (ok b, w''))
  returns_lift (ok a) f w w'' h = (a, refl, h)
  returns_lift (err x) f w w'' h = absurd (cc)
  returns_lift panicked f w w'' h = absurd (cc)

module _ {Store : Type 0} (persistence : BrokerPersistence Store) (platform : Platform)
    (id : RegistrationId) (agent : VerifiedAgent) (session : Text) (now : ℕ) where
  -- The last steps of `register` return the registration that they install.
  returns_installed :
      (r : Registration) (w w' : World Store) {r' : Registration}
      → (attempt {Store = Store} (λ s. install_registration s r now) >>= λ wakeups.
            record_directory >> (emit wakeups >> pure r))
          w
        ≡ (ok r', w')
      → (es : List Effect) × (s' : State) × (install_registration w.state r now ≡ ok (es, s'))
        × (r ≡ r')
        × (w'.state ≡ s')
  returns_installed r w w' {r'} = go (install_registration w.state r now) refl
    where
      go :
          (x : Result (List Effect × State))
          → install_registration w.state r now ≡ x
          → (continue
              (finish_attempt w x)
              (λ wakeups. record_directory >> (emit wakeups >> pure r)))
            ≡ (ok r', w')
          → (es : List Effect) × (s' : State) × (install_registration w.state r now ≡ ok (es, s'))
            × (r ≡ r')
            × (w'.state ≡ s')
      go (ok (es, s')) e h =
          (es, s', e, cc, sym (ap (λ (x : Result Registration × World Store). x.1.state) h))
      go (err x) e h = absurd (cc)
      go panicked e h = absurd (cc)

  installed_epoch :
      (floor : Floor) (r : Registration) (s : State) (es : List Effect) (s' : State)
      → IsLimited floor s
      → install_registration s r now ≡ ok (es, s')
      → IsLimited (any_floor r.epoch) s'
  unfolding install_registration
  installed_epoch floor r s es s' v e =
      install_registration-IsLimited (any_floor r.epoch) r now
        (record s { next_registration_epoch = r.epoch }) es s' (omega arith)
        (record { tasks = v.tasks; retired = v.retired; epoch = omega arith; fenced = refl }) e

  -- The epoch that comes after the counter.
  next_epoch :
      (n epoch floor : ℕ)
      → floor ≤ n
      → ok_or (u64_succ n) persistence_unavailable ≡ ok epoch
      → floor < epoch
  next_epoch n epoch floor le e = elim (Option-cases (u64_succ n)) [
    | inl e' ↦ absurd (ground arith)
    | inr (k, e') ↦ ground (arith, u64_succ-some n e')
  ]

  -- If `register` succeeds on a broker that holds at most 4096 tasks and at most 4096 ids of retired
  -- registrations, then the epoch of the new registration is greater than the counter of epochs was
  -- before, and the counter afterwards is not lower than that epoch.
  pub register-raises :
      (w w' : World Store) (r : Registration)
      → length w.state.tasks ≤ max_retained_tasks
      → length w.state.retired_registration_order ≤ max_retired_registration_ids
      → register persistence platform id agent session now w ≡ (ok r, w')
      → (w.state.next_registration_epoch < r.epoch) × (r.epoch ≤ w'.state.next_registration_epoch)
  unfolding register
  register-raises w w' r t q h =
      let v : IsLimited (any_floor w.state.next_registration_epoch) w.state = record {
        tasks = t;
        retired = q;
        epoch = omega arith;
        fenced = refl;
      } in
      let (u, w1, e1, h1) = returns_bind (maintain_state persistence platform now) _ w w' h in
      let v1 : IsLimited (any_floor w.state.next_registration_epoch) w1.state =
        subst
          (λ (x : Result (Unit {0}) × World Store).
            IsLimited (any_floor w.state.next_registration_epoch) x.1.state)
          e1
          (maintain_state-IsLimited (any_floor w.state.next_registration_epoch) persistence platform
            now w v) in
      let (expiry, e2, h2) =
        returns_lift (ok_or (i64_add now registration_ttl_ms) persistence_unavailable) _ w1 w' h1 in
      let (epoch, e3, h3) =
        returns_lift (ok_or (u64_succ w1.state.next_registration_epoch) persistence_unavailable) _
          w1 w' h2 in
      let (requeued, e4, h4) = returns_lift (replaced_tasks w1.state agent.name) _ w1 w' h3 in
      let (u', w2, e5, h5) = returns_bind (commit_transition persistence _) _ w1 w' h4 in
      let (es, s', e6, same, st) = returns_installed _ w2 w' h5 in
      let v2 : IsLimited (any_floor w.state.next_registration_epoch) w2.state =
        subst
          (λ (x : Result (Unit {0}) × World Store).
            IsLimited (any_floor w.state.next_registration_epoch) x.1.state)
          e5
          (Leads-commit_transition (IsLimited (any_floor w.state.next_registration_epoch))
            persistence (IsLimited-flagged (any_floor w.state.next_registration_epoch)) _ w1 v1) in
      let high =
        next_epoch w1.state.next_registration_epoch epoch w.state.next_registration_epoch v1.epoch
          e3 in
      let v3 = installed_epoch (any_floor w.state.next_registration_epoch) _ w2.state es s' v2 e6 in
      (
        omega (arith, high, ap (λ (x : Registration). x.epoch) same),
        omega (
          arith,
          v3.epoch,
          ap (λ (x : Registration). x.epoch) same,
          ap (λ (x : State). x.next_registration_epoch) st,
        ),
      )
