-- ===== src/Broker/Monad.antt =====
-- The broker's methods as actions. A method holds the lock from its first line to its last, and
-- an early return leaves what was written so far. Of crates/herdr-a2a-core/src/broker.rs.
use herdr_a2a.Base.{ℕ, ◌+◌, ◌%◌, ◌^◌, true, List, [], ◌∷◌, ◌++◌}
use herdr_a2a.Core.Errors.{persistence_unavailable, Result, ok, err, panicked}
use herdr_a2a.Core.Model.{RegistrationId}
use herdr_a2a.Core.Durability.{
  PersistenceBatch, PersistenceCommitOutcome, complete, reconciliation_required, BrokerPersistence,
}
use herdr_a2a.Broker.Task.{ReplyWaiter, ReplyResult}
use herdr_a2a.Broker.State.{State}

-- What the broker does to waiting tasks.
pub data Effect : Type 0 where
  -- `notify.notify_one()` of a registration
  notified : RegistrationId → Effect
  -- `waiter.send(result)`
  resolved : ReplyWaiter → ReplyResult → Effect
  -- `DirectoryChanges::record`
  directory_changed : Effect

-- The same result for every waiter.
abbrev pub resolve_all : List ReplyWaiter → ReplyResult → List Effect
resolve_all [] r = []
resolve_all (waiter ∷ waiters) r = resolved waiter r ∷ resolve_all waiters r

-- The broker's state, its storage, the generation of the directory, and the effects so far.
pub record World (Store : Type 0) : Type 0 where
  pub state : State
  pub store : Store
  pub generation : ℕ
  pub effects : List Effect

abbrev pub M : Type 0 → Type 0 → Type 0
M Store A = World Store → Result A × World Store

module _ {Store : Type 0} where
  -- What follows a step, by how the step ended.
  abbrev pub continue :
      {A B : Type 0} → Result A × World Store → (A → M Store B) → Result B × World Store
  continue (ok a, w) f = f a w
  continue (err e, w) f = (err e, w)
  continue (panicked, w) f = (panicked, w)

  infixl 5 ◌>>=◌ ◌>>◌
  abbrev pub ◌>>=◌ : {A B : Type 0} → M Store A → (A → M Store B) → M Store B
  ◌>>=◌ m f w = continue (m w) f

  abbrev pub ◌>>◌ : {B : Type 0} → M Store (Unit {0}) → M Store B → M Store B
  m >> k = m >>= λ _. k

  abbrev pub pure : {A : Type 0} → A → M Store A
  pure a w = (ok a, w)

  -- A step that does not touch the world: `?` on its result.
  abbrev pub lift : {A : Type 0} → Result A → M Store A
  lift r w = (r, w)

  abbrev pub get_state : M Store State
  get_state w = (ok w.state, w)

  abbrev pub put_state : State → M Store (Unit {0})
  put_state s w = (ok tt, record w { state = s })

  abbrev pub modify : (State → State) → M Store (Unit {0})
  modify f w = (ok tt, record w { state = f w.state })

  abbrev pub finish_attempt :
      {A : Type 0} → World Store → Result (A × State) → Result A × World Store
  finish_attempt w (ok (a, s)) = (ok a, record w { state = s })
  finish_attempt w (err e) = (err e, w)
  finish_attempt w panicked = (panicked, w)

  -- A function of the state that may fail, before it has changed anything.
  abbrev pub attempt : {A : Type 0} → (State → Result (A × State)) → M Store A
  attempt f w = finish_attempt w (f w.state)

  abbrev pub finish_change : World Store → Result State → Result (Unit {0}) × World Store
  finish_change w (ok s) = (ok tt, record w { state = s })
  finish_change w (err e) = (err e, w)
  finish_change w panicked = (panicked, w)

  -- A change of the state that may fail, before it has changed anything.
  abbrev pub modify_or_fail : (State → Result State) → M Store (Unit {0})
  modify_or_fail f w = finish_change w (f w.state)

  abbrev pub emit : List Effect → M Store (Unit {0})
  emit es w = (ok tt, record w { effects = w.effects ++ es })

  -- `DirectoryChanges::record`
  abbrev pub record_directory : M Store (Unit {0})
  record_directory w = (
    ok tt,
    record w {
      generation = (w.generation + 1) % 2 ^ 64;
      effects = w.effects ++ (directory_changed ∷ []);
    },
  )

  module _ (persistence : BrokerPersistence Store) where
    -- `persistence.commit(batch).await?`
    abbrev pub commit : PersistenceBatch → M Store PersistenceCommitOutcome
    commit batch w =
        let (r, store) = persistence.commit batch w.store in (r, record w { store = store })

    abbrev pub finish_commit : PersistenceCommitOutcome → M Store (Unit {0})
    finish_commit complete w = (ok tt, w)
    finish_commit reconciliation_required w = (
      err persistence_unavailable,
      record w { state = record (w.state) { reconciliation_required = true } },
    )

    unfoldable pub commit_transition : PersistenceBatch → M Store (Unit {0})
    commit_transition batch = do outcome ← commit batch; finish_commit outcome
