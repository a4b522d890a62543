-- ===== src/Broker/Settle/Atomic.antt =====
-- `settle_found`, the end that `reply`, `fail_task`, `reject_task` and `cancel_task` share, by the
-- outcome of its commit. Of crates/herdr-a2a-core/src/broker.rs.
use herdr_a2a.Base.{ℕ, Bool, false, if◌then◌else◌, ◌≢◌, ◌≡◌, refl, none, some, ◌++◌, Text, true}
use herdr_a2a.Base.Map
use herdr_a2a.Core.Errors.{Result, ok, err, panicked}
use herdr_a2a.Core.Durability.{
  DurableTask, BrokerPersistence, PersistenceCommitOutcome, complete, reconciliation_required,
}
use herdr_a2a.Core.Validation.{Platform}
use herdr_a2a.Broker.Task.{TaskRecord, durable_task, durable_terminal_task}
use herdr_a2a.Broker.Terminal.{TerminalState}
use herdr_a2a.Broker.Monad.{World, commit_transition, resolve_all}
use herdr_a2a.Broker.Deliver.{single_task_batch}
use herdr_a2a.Broker.Settle.{to_settle, settle_found, outcome_state, outcome_reply, outcome_answer}
use herdr_a2a.Broker.Settle.Mirror.{terminalize_task-durable}

-- The outcomes of a commit that ask for a reconciliation.
abbrev pub is_flagging : Result PersistenceCommitOutcome → Bool
is_flagging (ok reconciliation_required) = true
is_flagging _ = false

module _ {Store : Type 0} (persistence : BrokerPersistence Store) (platform : Platform)
    (w : World Store) (task_id : Text) (task : TaskRecord) (now : ℕ) (o : TerminalState)
    {d : DurableTask} (store : Store)
    (h : durable_terminal_task task_id task now (outcome_state o) (outcome_reply o) ≡ ok d) where
  -- If the commit of the durable form `d` of an outcome does not complete, whether with an error or
  -- with the demand for a reconciliation, then the settling method does not succeed, answers no
  -- waiter, and leaves the state as it was, but for the flag that the demand sets.
  pub settle_found-refused :
      (r : Result PersistenceCommitOutcome)
      → persistence.commit (single_task_batch d) w.store ≡ (r, store)
      → r ≢ ok complete
      → ((settle_found persistence platform task_id now o (to_settle task) w).0 ≢ ok tt)
        × ((settle_found persistence platform task_id now o (to_settle task) w).1.effects
            ≡ w.effects)
        × ((settle_found persistence platform task_id now o (to_settle task) w).1.state ≡ (
            if is_flagging r then record (w.state) { reconciliation_required = true } else w.state))
  unfolding settle_found commit_transition
  settle_found-refused (ok complete) c ne = absurd (ne refl)
  settle_found-refused (ok reconciliation_required) c ne = rw (h, c) (λ x. cc, refl, refl)
  settle_found-refused (err e) c ne = rw (h, c) (λ x. cc, refl, refl)
  settle_found-refused panicked c ne = rw (h, c) (λ x. cc, refl, refl)

  -- If the state holds a task that is not settled, and the commit of the durable form `d` of an
  -- outcome completes, then the settling method succeeds, all the task's waiters are answered, and
  -- the task's record then has the durable form `d`.
  pub settle_found-applied :
      Map.get w.state.tasks task_id ≡ some task
      → task.terminal_deadline_unix_ms ≡ none
      → persistence.commit (single_task_batch d) w.store ≡ (ok complete, store)
      → (w' : World Store) × (task' : TaskRecord) × (settle_found persistence platform task_id now o
            (to_settle task)
            w
          ≡ (ok tt, w'))
        × (w'.store ≡ store)
        × (w'.effects ≡ w.effects ++ resolve_all task.reply_waiters (outcome_answer o))
        × (Map.get w'.state.tasks task_id ≡ some task')
        × (durable_task task_id task' ≡ ok d)
  unfolding settle_found commit_transition
  settle_found-applied found unsettled c =
      let (s', task', e, found', form) =
        terminalize_task-durable w.state task_id now o found unsettled h in
      (
        record w {
          state = s';
          store = store;
          effects = w.effects ++ resolve_all task.reply_waiters (outcome_answer o);
        },
        task',
        rw (h, c, e) refl,
        refl,
        refl,
        found',
        form,
      )
