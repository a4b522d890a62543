-- ===== src/Broker/Inspect.antt =====
-- The methods that report: `task_snapshot`, `task_snapshot_for_sender`, `list_agents` and
-- `operations_snapshot`. Of crates/herdr-a2a-core/src/broker.rs.
use herdr_a2a.Base.{
  ℕ, ◌+◌, Bool, ◌&&◌, ◌||◌, Option, List, [], ◌∷◌, if◌then◌else◌, is_some, length, map, Text,
  text_eq, text_lt,
}
use herdr_a2a.Base.Map.{Map}
use herdr_a2a.Base.Map
use herdr_a2a.Core.Errors.{task_not_found, task_not_owned, Result, ok, ok_or, guard, ◌>>=◌, ◌>>◌}
use herdr_a2a.Core.Model.{AgentName, RegistrationCredentials, Registration}
use herdr_a2a.Core.Durability.{DurableTask, BrokerPersistence}
use herdr_a2a.Core.Validation.{Platform}
use herdr_a2a.Broker.Task.{TaskRecord, durable_task, is_settled}
use herdr_a2a.Broker.State.{State, RegistrationState, BrokerStatusEvent, is_live}
use herdr_a2a.Broker.Monad.{World, M, lift, get_state}
use herdr_a2a.Broker.Monad
use herdr_a2a.Broker.Maintain.{maintain_state, validate_registration_and_maintain}
use herdr_a2a.Broker.Sessions.{registered_entry}

-- The durable form of a task, for its sender only.
unfoldable pub snapshot_for : State → AgentName → Text → Result DurableTask
snapshot_for state sender task_id = do
  task ← ok_or (Map.get state.tasks task_id) task_not_found
  guard (text_eq task.sender sender) task_not_owned
  durable_task task_id task

-- The registrations that are live, in the order of the map.
unfoldable pub live_registrations : Map RegistrationState → ℕ → List Registration
live_registrations [] now = []
live_registrations ((id, entry) ∷ entries) now =
    let rest = live_registrations entries now in
    if is_live now entry then entry.registration ∷ rest else rest

-- By the name of the agent, then by id.
abbrev listed_before : Registration → Registration → Bool
listed_before a b =
    text_lt a.agent.name b.agent.name || (text_eq a.agent.name b.agent.name && text_lt a.id b.id)

unfoldable pub insert_registration : Registration → List Registration → List Registration
insert_registration r [] = r ∷ []
insert_registration r (x ∷ xs) =
    if listed_before x r then x ∷ insert_registration r xs else r ∷ x ∷ xs

unfoldable pub sort_registrations : List Registration → List Registration
sort_registrations [] = []
sort_registrations (r ∷ rs) = insert_registration r (sort_registrations rs)

-- `BrokerTaskCounts`
pub record BrokerTaskCounts : Type 0 where
  pub queued : ℕ
  pub leased : ℕ
  pub waiting_reply : ℕ
  pub terminal : ℕ

-- One more task in its class.
abbrev count_task : TaskRecord → BrokerTaskCounts → BrokerTaskCounts
count_task task n =
    if is_settled task
    then record n { terminal = n.terminal + 1 }
    else if task.acknowledged
    then record n { waiting_reply = n.waiting_reply + 1 }
    else if is_some task.lease
    then record n { leased = n.leased + 1 }
    else record n { queued = n.queued + 1 }

unfoldable pub count_tasks : Map TaskRecord → BrokerTaskCounts
count_tasks [] = record { queued = 0; leased = 0; waiting_reply = 0; terminal = 0 }
count_tasks ((task_id, task) ∷ tasks) = count_task task (count_tasks tasks)

-- `BrokerOperationsSnapshot`; an agent is shown by its canonical name.
pub record BrokerOperationsSnapshot : Type 0 where
  pub registrations : ℕ
  pub agents : List AgentName
  pub tasks : BrokerTaskCounts
  pub last_event : Option BrokerStatusEvent

abbrev agent_name : Registration → AgentName
agent_name r = r.agent.name

-- The part of `operations_snapshot` that reads the state.
unfoldable pub summarize : State → ℕ → BrokerOperationsSnapshot
summarize state now =
    let agents = map agent_name (sort_registrations (live_registrations state.registrations now)) in
    record {
      registrations = length agents;
      agents = agents;
      tasks = count_tasks state.tasks;
      last_event = state.last_event;
    }

module _ {Store : Type 0} (persistence : BrokerPersistence Store) (platform : Platform) where
  unfoldable pub task_snapshot : RegistrationCredentials → Text → ℕ → M Store DurableTask
  task_snapshot c task_id now =
      Monad.◌>>=◌ (validate_registration_and_maintain persistence platform c now) λ _.
        Monad.◌>>=◌ (registered_entry persistence platform c.id) λ entry.
          Monad.◌>>=◌ get_state
            λ state. lift (snapshot_for state entry.registration.agent.name task_id)

  unfoldable pub task_snapshot_for_sender : AgentName → Text → ℕ → M Store DurableTask
  task_snapshot_for_sender sender task_id now =
      Monad.◌>>=◌ (maintain_state persistence platform now)
        λ _. Monad.◌>>=◌ get_state λ state. lift (snapshot_for state sender task_id)

  abbrev listed : ℕ → Result (Unit {0}) → State → List Registration
  listed now (ok _) state = sort_registrations (live_registrations state.registrations now)
  listed now _ state = []

  -- An error of the maintenance gives the empty list.
  unfoldable pub list_agents : ℕ → World Store → List Registration × World Store
  list_agents now w =
      let (r, w') = maintain_state persistence platform now w in (listed now r w'.state, w')

  unfoldable pub operations_snapshot : ℕ → M Store BrokerOperationsSnapshot
  operations_snapshot now =
      Monad.◌>>=◌ (maintain_state persistence platform now)
        λ _. Monad.◌>>=◌ get_state λ state. Monad.pure (summarize state now)
