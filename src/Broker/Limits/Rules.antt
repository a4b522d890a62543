-- ===== src/Broker/Limits/Rules.antt =====
-- Rules for what a broker method does to the state, whichever way it ends.
use herdr_a2a.Base.{◌≡◌, refl, Bool, true, false, if◌then◌else◌}
use herdr_a2a.Core.Errors.{Result, ok, err, panicked}
use herdr_a2a.Core.Durability.{
  PersistenceBatch, PersistenceCommitOutcome, complete, reconciliation_required, BrokerPersistence,
}
use herdr_a2a.Broker.State.{State}
use herdr_a2a.Broker.Monad.{
  World, M, continue, finish_attempt, finish_change, ◌>>=◌, ◌>>◌, lift, get_state, modify_or_fail,
  attempt, finish_commit, commit_transition,
}

-- From a state with P the method ends in a state with Q.
abbrev pub Leads : {Store A : Type 0} → (State → Type 0) → (State → Type 0) → M Store A → Type 0
Leads {Store} P Q m = (w : World Store) → P w.state → Q (m w).1.state

module _ {Store A B : Type 0} (P Q : State → Type 0) where
  pub Leads-bind :
      (m : M Store A) (f : A → M Store B)
      → Leads P Q m
      → ((a : A) → Leads Q Q (f a))
      → Leads P Q (m >>= f)
  Leads-bind m f hm hf w p = go (m w) (hm w p)
    where
      go : (r : Result A × World Store) → Q r.1.state → Q (continue r f).1.state
      go (ok a, w') q = hf a w' q
      go (err e, w') q = q
      go (panicked, w') q = q

  -- The same by way of a third predicate.
  pub Leads-then :
      (R : State → Type 0) (m : M Store A) (f : A → M Store B)
      → Leads P R m
      → ((s : State) → R s → Q s)
      → ((a : A) → Leads R Q (f a))
      → Leads P Q (m >>= f)
  Leads-then R m f hm weaken hf w p = go (m w) (hm w p)
    where
      go : (r : Result A × World Store) → R r.1.state → Q (continue r f).1.state
      go (ok a, w') q = hf a w' q
      go (err e, w') q = weaken w'.state q
      go (panicked, w') q = weaken w'.state q

  -- A result that is computed from the state first.
  pub Leads-lift :
      (r : Result A) (f : A → M Store B)
      → ((s : State) → P s → Q s)
      → ((a : A) → r ≡ ok a → Leads P Q (f a))
      → Leads P Q (lift r >>= f)
  Leads-lift (ok a) f weaken h w p = h a refl w p
  Leads-lift (err e) f weaken h w p = weaken w.state p
  Leads-lift panicked f weaken h w p = weaken w.state p

  -- A result that is computed from the state as it is read, and what its success shows of the state.
  pub Leads-read :
      (R : State → Type 0) (f : State → Result A) (k : A → M Store B)
      → ((s : State) → P s → Q s)
      → ((s : State) (a : A) → P s → f s ≡ ok a → R s)
      → ((a : A) → Leads R Q (k a))
      → Leads P Q (get_state >>= λ s. lift (f s) >>= k)
  Leads-read R f k weaken shows h w p = go (f w.state) refl
    where
      go : (r : Result A) → f w.state ≡ r → Q ((lift r >>= k) w).1.state
      go (ok a) e = h a w (shows w.state a p e)
      go (err x) e = weaken w.state p
      go panicked e = weaken w.state p

module _ {Store : Type 0} (P : State → Type 0) where
  pub Leads-if :
      {A : Type 0} (b : Bool) (m n : M Store A)
      → Leads P P m
      → Leads P P n
      → Leads P P (if b then m else n)
  Leads-if true m n hm hn = hm
  Leads-if false m n hm hn = hn

  -- A step that is made only in some states.
  pub Leads-when :
      (b : State → Bool) (m : M Store (Unit {0}))
      → Leads P P m
      → Leads P P (λ w. if b w.state then m w else (ok tt, w))
  Leads-when b m h w p = go (b w.state)
    where
      go : (x : Bool) → P (if x then m w else (ok tt, w)).1.state
      go true = h w p
      go false = p

  -- A function of the state that may fail.
  pub Leads-attempt :
      {A : Type 0} (f : State → Result (A × State))
      → ((s : State) (a : A) (s' : State) → P s → f s ≡ ok (a, s') → P s')
      → Leads P P (attempt {Store = Store} f)
  Leads-attempt {A} f h w p = go (f w.state) refl
    where
      go : (r : Result (A × State)) → f w.state ≡ r → P (finish_attempt w r).1.state
      go (ok (a, s)) e = h w.state a s p e
      go (err x) e = p
      go panicked e = p

  pub Leads-modify_or_fail :
      (f : State → Result State)
      → ((s s' : State) → P s → f s ≡ ok s' → P s')
      → Leads P P (modify_or_fail {Store = Store} f)
  Leads-modify_or_fail f h w p = go (f w.state) refl
    where
      go : (r : Result State) → f w.state ≡ r → P (finish_change w r).1.state
      go (ok s) e = h w.state s p e
      go (err x) e = p
      go panicked e = p

  module _ (persistence : BrokerPersistence Store) where
    -- A commit changes at most the flag that asks for a reconciliation.
    pub Leads-commit_transition :
        ((s : State) → P s → P (record s { reconciliation_required = true }))
        → (batch : PersistenceBatch) → Leads P P (commit_transition persistence batch)
    unfolding commit_transition
    Leads-commit_transition flagged batch w p = go (persistence.commit batch w.store)
      where
        go :
            (r : Result PersistenceCommitOutcome × Store)
            → P (continue (r.0, record w { store = r.1 }) (finish_commit persistence)).1.state
        go (ok complete, store) = p
        go (ok reconciliation_required, store) = flagged w.state p
        go (err e, store) = p
        go (panicked, store) = p

-- A change that may fail, and what follows if it does not.
pub Leads-change :
    {Store B : Type 0} (P R Q : State → Type 0) (f : State → Result State) (k : M Store B)
    → ((s s' : State) → P s → f s ≡ ok s' → R s')
    → ((s : State) → P s → Q s)
    → Leads R Q k
    → Leads P Q (modify_or_fail f >> k)
Leads-change {Store} {B} P R Q f k h weaken hk w p = go (f w.state) refl
  where
    go : (r : Result State) → f w.state ≡ r → Q (continue (finish_change w r) (λ _. k)).1.state
    go (ok s) e = hk (record w { state = s }) (h w.state s p e)
    go (err x) e = weaken w.state p
    go panicked e = weaken w.state p
