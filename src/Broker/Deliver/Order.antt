-- ===== src/Broker/Deliver/Order.antt =====
-- The choice of a task in `poll_delivery`, of crates/herdr-a2a-core/src/broker.rs.
use herdr_a2a.Base.{
  ℕ, ◌+◌, ◌≤◌, ◌<◌, ◌⊎◌, Bool-cases, false, ltb, if◌then◌else◌, ◌≡◌, ap, subst, inl, inr, true,
  none, some, List, [], ◌∷◌, ◌++◌, arith, is_some, All, Text, Option-cases, min, i64_add,
}
use herdr_a2a.Base.Map
use herdr_a2a.Core.Errors.{ok, Result, >>=-eq-ok}
use herdr_a2a.Core.Model.{RegistrationCredentials, DeliveryId, QueuedDelivery}
use herdr_a2a.Core.Durability.{DurableTask}
use herdr_a2a.Broker.Task.{
  TaskRecord, DeliveryLease, delivery_ttl_ms, delivery_lease_ms, durable_leased_task,
}
use herdr_a2a.Broker.State.{State}
use herdr_a2a.Broker.Deliver.{
  Candidate, skipped, busy, ready, is_open, running_lease, new_lease, examine, Selection, selected,
  pending, select_delivery,
}

-- A task that can be leased at `now`: it is open, not yet delivered for good, and not under a
-- lease that still runs.
abbrev pub IsDeliverable : State → ℕ → Text → Type 0
IsDeliverable s now task_id =
    (task : TaskRecord) × (Map.get s.tasks task_id ≡ some task)
    × (is_open task ≡ true)
    × (is_some task.delivery ≡ true)
    × (running_lease task now ≡ none)

module _ (c : RegistrationCredentials) (delivery_id : DeliveryId) (s : State) (now : ℕ) where
  skipped_not-IsDeliverable :
      (task_id : Text)
      → examine c delivery_id s task_id now ≡ ok skipped
      → ¬ IsDeliverable s now task_id
  unfolding examine new_lease
  skipped_not-IsDeliverable task_id h (task, found, unsettled, has, idle) = ground arith

  busy_not-IsDeliverable :
      (task_id : Text) (d : ℕ)
      → examine c delivery_id s task_id now ≡ ok (busy d)
      → ¬ IsDeliverable s now task_id
  unfolding examine new_lease
  busy_not-IsDeliverable task_id d h (task, found, unsettled, has, idle) = ground arith

  -- What the lease of a task says.
  abbrev pub LeasedBy : DeliveryLease → Type 0
  LeasedBy lease =
      (lease.delivery_id ≡ delivery_id)
      × (lease.owner ≡ some c)
      × (lease.leased_until_unix_ms ≡ now + delivery_lease_ms)

  new_lease-ready :
      (task_id : Text) (task : TaskRecord) (q delivery : QueuedDelivery) (deadline d : ℕ)
      (lease : DeliveryLease) (durable : DurableTask)
      → new_lease c delivery_id task_id task q now deadline ≡ ok (ready d delivery lease durable)
      → LeasedBy lease × (durable_leased_task task_id task lease ≡ ok durable)
  unfolding new_lease i64_add
  new_lease-ready task_id task q delivery deadline d lease durable h = ground arith

  ready-IsDeliverable :
      (task_id : Text) (d : ℕ) (delivery : QueuedDelivery) (lease : DeliveryLease)
      (durable : DurableTask)
      → examine c delivery_id s task_id now ≡ ok (ready d delivery lease durable)
      → IsDeliverable s now task_id × LeasedBy lease
  unfolding examine
  ready-IsDeliverable task_id d delivery lease durable h =
      elim (Option-cases (Map.get s.tasks task_id)) [
        | inl e ↦ absurd (ground arith)
        | inr (task, e) ↦ elim (Option-cases task.delivery) [
          | inl none_left ↦ absurd (ground arith)
          | inr (q, has) ↦ elim (Option-cases (i64_add q.created_unix_ms delivery_ttl_ms)) [
            | inl late ↦ absurd (ground arith)
            | inr (deadline, fits) ↦
                let made : new_lease c delivery_id task_id task q now deadline
                    ≡ ok (ready d delivery lease durable) =
                  ground arith in
                (
                  (task, e, ground arith, ground arith, ground arith),
                  (new_lease-ready task_id task q delivery deadline d lease durable made).0,
                )
          ]
        ]
      ]

  -- The tasks of the inbox before the first one that can be leased.
  abbrev pub FirstDeliverable : List Text → Text → Type 0
  FirstDeliverable inbox task_id =
      (before : List Text) × (after : List Text) × (inbox ≡ before ++ (task_id ∷ after))
      × All (λ id. ¬ IsDeliverable s now id) before
      × IsDeliverable s now task_id

  FirstDeliverable-cons :
      (id task_id : Text) (ids : List Text)
      → ¬ IsDeliverable s now id
      → FirstDeliverable ids task_id
      → FirstDeliverable (id ∷ ids) task_id
  FirstDeliverable-cons id task_id ids refused (before, after, e, all, found) =
      (id ∷ before, after, ap (◌∷◌ id) e, (refused, all), found)

  -- What the loop does with the first task of the inbox.
  abbrev after_candidate : ℕ → Text → List Text → Candidate → Result Selection
  after_candidate next id ids skipped = select_delivery c delivery_id s now next ids
  after_candidate next id ids (busy deadline) =
      select_delivery c delivery_id s now (min next deadline) ids
  after_candidate next id ids (ready deadline delivery lease durable) =
      ok (selected id delivery lease durable)

  after_candidate-eq :
      (next : ℕ) (id : Text) (ids : List Text) {r : Selection}
      → select_delivery c delivery_id s now next (id ∷ ids) ≡ ok r
      → (found : Candidate) × (examine c delivery_id s id now ≡ ok found)
        × (after_candidate next id ids found ≡ ok r)
  unfolding select_delivery
  after_candidate-eq next id ids h =
      let (found, e, f) = >>=-eq-ok (examine c delivery_id s id now) _ h in (found, e, same found f)
    where
      same :
          {r : Selection} (found : Candidate)
          → elim found as (λ x. Result Selection) [
            | skipped ↦ select_delivery c delivery_id s now next ids
            | busy deadline ↦ select_delivery c delivery_id s now (min next deadline) ids
            | ready deadline delivery lease durable ↦ ok (selected id delivery lease durable)
          ]
            ≡ ok r
          → after_candidate next id ids found ≡ ok r
      same skipped f = f
      same (busy d) f = f
      same (ready d delivery lease durable) f = f

  first_ready :
      (id task_id : Text) (ids : List Text) (d : ℕ) (delivery delivery' : QueuedDelivery)
      (lease lease' : DeliveryLease) (durable durable' : DurableTask)
      → examine c delivery_id s id now ≡ ok (ready d delivery' lease' durable')
      → ok (selected id delivery' lease' durable') ≡ ok (selected task_id delivery lease durable)
      → FirstDeliverable (id ∷ ids) task_id × LeasedBy lease
  first_ready id task_id ids d delivery delivery' lease lease' durable durable' e f =
      let same : id ≡ task_id = cc in
      let same_lease : lease' ≡ lease = cc in
      let (deliverable, leased) = ready-IsDeliverable id d delivery' lease' durable' e in
      (
        ([], ids, ap (λ x. x ∷ ids) same, tt, subst (λ x. IsDeliverable s now x) same deliverable),
        subst LeasedBy same_lease leased,
      )

  -- If the loop of `poll_delivery` selects a task, it is the first task of the inbox that can be
  -- leased, and the lease runs for the lease term, belongs to the caller and has the new delivery
  -- id.
  pub select_delivery-first :
      (next : ℕ) (inbox : List Text) (task_id : Text) (delivery : QueuedDelivery)
      (lease : DeliveryLease) (durable : DurableTask)
      → select_delivery c delivery_id s now next inbox
        ≡ ok (selected task_id delivery lease durable)
      → FirstDeliverable inbox task_id × LeasedBy lease
  unfolding select_delivery
  select_delivery-first next [] task_id delivery lease durable h = absurd (ground arith)
  select_delivery-first next (id ∷ ids) task_id delivery lease durable h =
      let (found, e, f) = after_candidate-eq next id ids h in
      go found e f (λ n. select_delivery-first n ids task_id delivery lease durable)
    where
      go :
          (found : Candidate)
          → examine c delivery_id s id now ≡ ok found
          → after_candidate next id ids found ≡ ok (selected task_id delivery lease durable)
          → ((n : ℕ)
              → select_delivery c delivery_id s now n ids
                ≡ ok (selected task_id delivery lease durable)
              → FirstDeliverable ids task_id × LeasedBy lease)
          → FirstDeliverable (id ∷ ids) task_id × LeasedBy lease
      go skipped e f later =
          let (first, leased) = later next f in
          (FirstDeliverable-cons id task_id ids (skipped_not-IsDeliverable id e) first, leased)
      go (busy d) e f later =
          let (first, leased) = later (min next d) f in
          (FirstDeliverable-cons id task_id ids (busy_not-IsDeliverable id d e) first, leased)
      go (ready d delivery' lease' durable') e f later =
          first_ready id task_id ids d delivery delivery' lease lease' durable durable' e f

  -- A task that has nothing to deliver: it is canceled, expired, acknowledged or answered, or its
  -- delivery is gone.
  unfoldable pub IsSettled : TaskRecord → Type 0
  IsSettled task =
      (task.canceled ≡ true)
      ⊎ ((task.expired ≡ true)
          ⊎ ((task.acknowledged ≡ true) ⊎ ((is_some task.reply ≡ true) ⊎ (task.delivery ≡ none))))

  -- A task that is under a lease until after `now`, and for which `until` is neither later than the
  -- end of the lease nor later than the end of its delivery term.
  unfoldable pub IsLeasedPast : ℕ → TaskRecord → Type 0
  IsLeasedPast until task =
      (lease : DeliveryLease) × (delivery : QueuedDelivery) × (task.lease ≡ some lease)
      × (task.delivery ≡ some delivery)
      × (now < lease.leased_until_unix_ms)
      × (until ≤ lease.leased_until_unix_ms)
      × (until ≤ delivery.created_unix_ms + delivery_ttl_ms)

  -- An entry of the inbox that gives nothing to do before `until`.
  unfoldable pub IsWaiting : ℕ → Text → Type 0
  IsWaiting until task_id =
      (Map.get s.tasks task_id ≡ none)
      ⊎ ((task : TaskRecord) × (Map.get s.tasks task_id ≡ some task)
          × (IsSettled task ⊎ IsLeasedPast until task))

  closed-IsSettled : (task : TaskRecord) → is_open task ≡ false → IsSettled task
  unfolding IsSettled
  closed-IsSettled task h = elim (Bool-cases task.canceled) [
    | inl e ↦ inl e
    | inr e ↦ elim (Bool-cases task.expired) [
      | inl f ↦ inr (inl f)
      | inr f ↦ elim (Bool-cases task.acknowledged) [
        | inl g ↦ inr (inr (inl g))
        | inr g ↦ inr (inr (inr (inl (ground arith))))
      ]
    ]
  ]

  -- An entry that is passed over waits, whatever the deadline; one that is busy waits for its own.
  abbrev Passed : ℕ → Text → Candidate → Type 0
  Passed until task_id skipped = Unit
  Passed until task_id (busy deadline) = until ≤ deadline
  Passed until task_id (ready _ _ _ _) = ⊥

  leased-IsLeasedPast :
      (task : TaskRecord) (delivery : QueuedDelivery) (until deadline end : ℕ)
      → task.delivery ≡ some delivery
      → i64_add delivery.created_unix_ms delivery_ttl_ms ≡ some deadline
      → running_lease task now ≡ some end
      → until ≤ min deadline end
      → IsLeasedPast until task
  unfolding IsLeasedPast i64_add
  leased-IsLeasedPast task delivery until deadline end has fits runs early =
      elim (Option-cases task.lease) [
        | inl e ↦ let no : none ≡ some end = rw e at runs in cc
        | inr (lease, e) ↦
            let test : (if ltb now lease.leased_until_unix_ms
                  then some lease.leased_until_unix_ms
                  else none)
                ≡ some end =
              rw e at runs in
            (lease, delivery, e, has, ground arith, ground arith, ground arith)
      ]

  new_lease_not-Passed :
      (until : ℕ) (task_id : Text) (task : TaskRecord) (q : QueuedDelivery) (deadline : ℕ)
      (found : Candidate)
      → new_lease c delivery_id task_id task q now deadline ≡ ok found
      → ¬ Passed until task_id found
  unfolding new_lease
  new_lease_not-Passed until task_id task q deadline skipped h p = ground arith
  new_lease_not-Passed until task_id task q deadline (busy d) h p = ground arith
  new_lease_not-Passed until task_id task q deadline (ready d delivery lease durable) h p = p

  busy-Passed :
      (until : ℕ) (task_id : Text) (m : ℕ) (found : Candidate)
      → ok (busy m) ≡ ok found
      → Passed until task_id found
      → until ≤ m
  busy-Passed until task_id m skipped h p = cc
  busy-Passed until task_id m (busy d) h p = ground arith
  busy-Passed until task_id m (ready d delivery lease durable) h p = cc

  examined-IsWaiting :
      (until : ℕ) (task_id : Text) (found : Candidate)
      → examine c delivery_id s task_id now ≡ ok found
      → Passed until task_id found
      → IsWaiting until task_id
  unfolding examine IsWaiting new_lease IsSettled
  examined-IsWaiting until task_id found h passed = elim (Option-cases (Map.get s.tasks task_id)) [
    | inl e ↦ inl e
    | inr (task, e) ↦ inr (
      task,
      e,
      elim (Bool-cases (is_open task)) [
        | inr closed ↦ inl (closed-IsSettled task closed)
        | inl open_task ↦ elim (Option-cases task.delivery) [
          | inl gone ↦ inl (inr (inr (inr (inr gone))))
          | inr (q, has) ↦ elim (Option-cases (i64_add q.created_unix_ms delivery_ttl_ms)) [
            | inl late ↦ absurd (ground arith)
            | inr (deadline, fits) ↦ elim (Option-cases (running_lease task now)) [
              | inl idle ↦
                  let made : new_lease c delivery_id task_id task q now deadline ≡ ok found =
                    rw (examine, e, open_task, has, fits, idle) at h in
                  absurd (new_lease_not-Passed until task_id task q deadline found made passed)
              | inr (end, runs) ↦
                  let wait : ok (busy (min deadline end)) ≡ ok found =
                    rw (examine, e, open_task, has, fits, runs) at h in
                  inr (
                    leased-IsLeasedPast task q until deadline end has fits runs
                      (busy-Passed until task_id (min deadline end) found wait passed))
            ]
          ]
        ]
      ],
    )
  ]

  -- If the loop of `poll_delivery` selects no task, then each entry of the inbox is of no task, or
  -- of one that is canceled, expired, acknowledged, answered or without a delivery, or of one under
  -- a lease that ends after now; and the deadline that the loop gives is not later than the one it
  -- began with, nor than the end of any of those leases or of the delivery term of their tasks.
  pub select_delivery-pending :
      (next : ℕ) (inbox : List Text) (until : ℕ)
      → select_delivery c delivery_id s now next inbox ≡ ok (pending until)
      → All (IsWaiting until) inbox × (until ≤ next)
  unfolding select_delivery
  select_delivery-pending next [] until h = (tt, ground arith)
  select_delivery-pending next (id ∷ ids) until h =
      let (found, e, f) = after_candidate-eq next id ids h in
      go found e f (λ n. select_delivery-pending n ids until)
    where
      go :
          (found : Candidate)
          → examine c delivery_id s id now ≡ ok found
          → after_candidate next id ids found ≡ ok (pending until)
          → ((n : ℕ)
              → select_delivery c delivery_id s now n ids ≡ ok (pending until)
              → All (IsWaiting until) ids × (until ≤ n))
          → All (IsWaiting until) (id ∷ ids) × (until ≤ next)
      go skipped e f later =
          let (waiting, early) = later next f in
          ((examined-IsWaiting until id skipped e tt, waiting), early)
      go (busy d) e f later =
          let (waiting, early) = later (min next d) f in
          ((examined-IsWaiting until id (busy d) e (omega arith), waiting), omega arith)
      go (ready d delivery' lease' durable') e f later = absurd (cc)
