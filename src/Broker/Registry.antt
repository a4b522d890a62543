-- ===== src/Broker/Registry.antt =====
-- How registrations leave the broker. Of crates/herdr-a2a-core/src/broker.rs.
pub mod Revoke
use herdr_a2a.Base.{
  ℕ, ◌≤◌, Bool, true, false, not, Option, none, some, List, [], ◌∷◌, ◌++◌, ltb, if◌then◌else◌,
  is_some_and, length, Text, text_eq, u64_succ,
}
use herdr_a2a.Base.Map.{Map}
use herdr_a2a.Base.Map
use herdr_a2a.Base.TextSet.{TextSet}
use herdr_a2a.Base.TextSet
use herdr_a2a.Core.Errors.{Result, ok, err, ◌>>=◌, expect}
use herdr_a2a.Core.Model.{RegistrationId, RegistrationCredentials, credentials}
use herdr_a2a.Core.Durability.{DurableTask}
use herdr_a2a.Broker.Task.{
  TaskRecord, is_leased_to, durable_requeued_task, max_retired_registration_ids,
}
use herdr_a2a.Broker.State.{State, RegistrationState, maps_to, drop_delivery}

-- The loop of `retire_registration_id`: the oldest ids go, until the limit is met.
unfoldable pub trim_retired : List RegistrationId → TextSet → List RegistrationId × TextSet
trim_retired [] ids = ([], ids)
trim_retired (oldest ∷ order) ids =
    let trimmed = trim_retired order (TextSet.remove ids oldest) in
    if ltb max_retired_registration_ids (length (oldest ∷ order))
    then trimmed
    else (oldest ∷ order, ids)

unfoldable pub retire_registration_id : State → RegistrationId → State
retire_registration_id state id =
    let known = TextSet.contains state.retired_registration_ids id in
    let order =
      if known
      then state.retired_registration_order
      else state.retired_registration_order ++ (id ∷ []) in
    let (order', ids) = trim_retired order (TextSet.insert state.retired_registration_ids id) in
    record state { retired_registration_order = order'; retired_registration_ids = ids }

-- The ids of the tasks that a registration holds and has not acknowledged.
unfoldable pub leased_task_ids : Map TaskRecord → RegistrationCredentials → List Text
leased_task_ids [] c = []
leased_task_ids ((task_id, task) ∷ tasks) c =
    let rest = leased_task_ids tasks c in if is_leased_to task c then task_id ∷ rest else rest

-- `task.lease.take()`, and the delivery id of the lease is forgotten.
unfoldable pub release_lease : State → Text → State
release_lease state task_id = elim (Map.get state.tasks task_id) [
  | none ↦ state
  | some task ↦ record state {
    tasks = Map.alter state.tasks task_id (λ t. record t { lease = none });
    tasks_by_delivery = drop_delivery state.tasks_by_delivery task.lease task_id;
  }
]

unfoldable pub release_leases : State → List Text → State
release_leases state [] = state
release_leases state (task_id ∷ task_ids) = release_leases (release_lease state task_id) task_ids

-- The registration is removed, and the index of agents forgets it if it leads to it.
unfoldable pub unlist_registration : State → RegistrationState → RegistrationId → State
unlist_registration state entry id =
    let agent = entry.registration.agent.name in
    record state {
      registrations = Map.remove state.registrations id;
      registrations_by_agent =
          if maps_to state.registrations_by_agent agent id
          then Map.remove state.registrations_by_agent agent
          else state.registrations_by_agent;
    }

unfoldable pub detach_registration :
    State → RegistrationId → Bool → Option RegistrationState × State
detach_registration state id retire = elim (Map.get state.registrations id) [
  | none ↦ (none, state)
  | some entry ↦
      let unlisted = unlist_registration state entry id in
      let retired = if retire then retire_registration_id unlisted id else unlisted in
      let held = leased_task_ids retired.tasks (credentials entry.registration) in
      (some entry, release_leases retired held)
]

-- The durable forms of the tasks that go back to the queue when a registration ends.
unfoldable pub requeued_tasks : Map TaskRecord → RegistrationCredentials → Result (List DurableTask)
requeued_tasks [] c = ok []
requeued_tasks ((task_id, task) ∷ tasks) c = elim (is_leased_to task c) [
  | false ↦ requeued_tasks tasks c
  | true ↦ do
    durable ← durable_requeued_task task_id task
    rest ← requeued_tasks tasks c
    ok (durable ∷ rest)
]

abbrev pub bump_if_leased : TaskRecord → RegistrationCredentials → Result TaskRecord
bump_if_leased task c =
    if is_leased_to task c
    then expect (u64_succ task.state_version) >>= (λ v. ok (record task { state_version = v }))
    else ok task

-- The loop of `bump_requeued_versions_for_credentials`.
unfoldable pub bump_requeued_versions :
    Map TaskRecord → RegistrationCredentials → Result (Map TaskRecord)
bump_requeued_versions [] c = ok []
bump_requeued_versions ((task_id, task) ∷ tasks) c = do
  task' ← bump_if_leased task c
  tasks' ← bump_requeued_versions tasks c
  ok ((task_id, task') ∷ tasks')

unfoldable pub bump_requeued_versions_for_credentials :
    State → RegistrationCredentials → Result State
bump_requeued_versions_for_credentials state c = do
  tasks ← bump_requeued_versions state.tasks c
  ok (record state { tasks = tasks })
