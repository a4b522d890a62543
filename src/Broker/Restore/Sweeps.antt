-- ===== src/Broker/Restore/Sweeps.antt =====
-- The loop of `validate_and_reconcile_snapshot`, taken apart round by round.
use herdr_a2a.Base.{ℕ, ◌+◌, ◌≤◌, ◌≡◌, ap, not, true, List, [], ◌∷◌, arith, length, Text}
use herdr_a2a.Base.TextSet
use herdr_a2a.Base.TextSet.{TextSet}
use herdr_a2a.Core.Errors.{ok, guard, persistence_unavailable, >>=-eq-ok, guard-eq-ok}
use herdr_a2a.Core.Durability.{DurableTask}
use herdr_a2a.Core.Validation.{Platform}
use herdr_a2a.Broker.Task.{validate_durable_task}
use herdr_a2a.Broker.Restore.{
  Sweep, Verdict, add_verdict, add_delivery_id, is_known_delivery, reconcile_task, sweep_tasks,
}

module _ (platform : Platform) (now : ℕ) where
  -- One round that succeeds, and the rounds behind it.
  pub record Round (ids ds : TextSet) (t : DurableTask) (ts : List DurableTask) (s : Sweep)
      : Type 0 where
    pub verdict : Verdict
    pub rest : Sweep
    pub valid : validate_durable_task platform t ≡ ok tt
    pub new_id : not (TextSet.contains ids t.task_id) ≡ true
    pub new_delivery : not (is_known_delivery ds t) ≡ true
    pub decided : reconcile_task t now ≡ ok verdict
    pub swept :
        sweep_tasks platform now (TextSet.insert ids t.task_id) (add_delivery_id ds t) ts ≡ ok rest
    pub result : s ≡ add_verdict t.task_id verdict rest

  pub sweep_tasks-cons :
      (ids ds : TextSet) (t : DurableTask) (ts : List DurableTask) (s : Sweep)
      → sweep_tasks platform now ids ds (t ∷ ts) ≡ ok s
      → Round ids ds t ts s
  unfolding sweep_tasks
  sweep_tasks-cons ids ds t ts s h =
      let (u, e, h1) = >>=-eq-ok (validate_durable_task platform t) _ h in
      let (u1, e1, h2) =
        >>=-eq-ok (guard (not (TextSet.contains ids t.task_id)) persistence_unavailable) _ h1 in
      let (u2, e2, h3) =
        >>=-eq-ok (guard (not (is_known_delivery ds t)) persistence_unavailable) _ h2 in
      let (v, e3, h4) = >>=-eq-ok (reconcile_task t now) _ h3 in
      let (rest, e4, h5) =
        >>=-eq-ok
          (sweep_tasks platform now (TextSet.insert ids t.task_id) (add_delivery_id ds t) ts) _
          h4 in
      record {
        verdict = v;
        rest = rest;
        valid = e;
        new_id = guard-eq-ok _ persistence_unavailable e1;
        new_delivery = guard-eq-ok _ persistence_unavailable e2;
        decided = e3;
        swept = e4;
        result = cc;
      }

  length-add_verdict :
      (id : Text) (v : Verdict) (s : Sweep)
      → length (add_verdict id v s).restored ≤ length s.restored + 1
  unfolding add_verdict
  length-add_verdict id Verdict.pruned s = omega arith
  length-add_verdict id (Verdict.kept t) s = omega arith
  length-add_verdict id (Verdict.expired t) s = omega arith
  length-add_verdict id (Verdict.requeued t) s = omega arith

  pub length-sweep_tasks :
      (ts : List DurableTask) (ids ds : TextSet) (s : Sweep)
      → sweep_tasks platform now ids ds ts ≡ ok s
      → length s.restored ≤ length ts
  unfolding sweep_tasks
  length-sweep_tasks [] ids ds s h = ground arith
  length-sweep_tasks (t ∷ ts) ids ds s h =
      let r = sweep_tasks-cons ids ds t ts s h in
      omega (
        arith,
        length-sweep_tasks ts (TextSet.insert ids t.task_id) (add_delivery_id ds t) r.rest r.swept,
        length-add_verdict t.task_id r.verdict r.rest,
        ap (λ (x : Sweep). length x.restored) r.result,
      )
