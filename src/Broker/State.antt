-- ===== src/Broker/State.antt =====
-- The broker's state, its indexes and the functions that only read it. Of
-- crates/herdr-a2a-core/src/broker.rs.
use herdr_a2a.Base.{
  ℕ, Bool, false, ◌&&◌, not, Option, none, some, List, [], ◌∷◌, ◌++◌, ltb, ◌==◌, if◌then◌else◌,
  is_empty, is_some_and, then_some, Text, text_eq, i64_seconds, retain,
}
use herdr_a2a.Base.Map.{Map}
use herdr_a2a.Base.Map
use herdr_a2a.Base.TextSet.{TextSet}
use herdr_a2a.Base.TextSet
use herdr_a2a.Core.Errors.{registration_expired, registration_not_found, Result, err, guard}
use herdr_a2a.Core.Model.{AgentName, RegistrationId, RegistrationCredentials, Registration}
use herdr_a2a.Broker.Task.{TaskRecord, DeliveryLease}
use herdr_a2a.Broker.Deadlines.{Deadlines}

-- `RegistrationState`. A wake-up of its `notify` is an effect that names the registration.
pub record RegistrationState : Type 0 where
  pub registration : Registration
  pub inbox : List Text
  pub wait_active : Bool

-- The kinds of event that the broker records.
pub data EventKind : Type 0 where
  registered task_queued : EventKind

pub record BrokerStatusEvent : Type 0 where
  pub kind : EventKind
  pub canonical_name : AgentName
  pub unix_time : ℕ

-- `State`. The directory's counter stands in `World`.
pub record State : Type 0 where
  pub reconciliation_required : Bool
  pub last_event : Option BrokerStatusEvent
  pub next_registration_epoch : ℕ
  pub next_task_sequence : ℕ
  pub registrations : Map RegistrationState
  pub registrations_by_agent : Map RegistrationId
  pub retired_registration_ids : TextSet
  pub retired_registration_order : List RegistrationId
  pub active_tasks_by_agent : Map TextSet
  pub outbound_tasks_by_agent : Map TextSet
  pub tasks_by_sender : Map TextSet
  pub tasks_by_recipient : Map TextSet
  pub tasks : Map TaskRecord
  pub tasks_by_delivery : Map Text
  pub delivery_deadlines : Deadlines
  pub terminal_deadlines : Deadlines

-- `State::default()`
abbrev pub default_state : State
default_state = record {
  reconciliation_required = false;
  last_event = none;
  next_registration_epoch = 0;
  next_task_sequence = 0;
  registrations = [];
  registrations_by_agent = [];
  retired_registration_ids = [];
  retired_registration_order = [];
  active_tasks_by_agent = [];
  outbound_tasks_by_agent = [];
  tasks_by_sender = [];
  tasks_by_recipient = [];
  tasks = [];
  tasks_by_delivery = [];
  delivery_deadlines = [];
  terminal_deadlines = [];
}

-- `index.entry(agent).or_default().insert(task_id)`
unfoldable pub index_insert : Map TextSet → AgentName → Text → Map TextSet
index_insert index agent task_id = Map.insert index agent (elim (Map.get index agent) [
  | none ↦ TextSet.insert [] task_id
  | some ids ↦ TextSet.insert ids task_id
])

-- The set loses the id, and an empty set leaves the index.
unfoldable pub index_remove : Map TextSet → AgentName → Text → Map TextSet
index_remove index agent task_id = elim (Map.get index agent) [
  | none ↦ index
  | some ids ↦
      let ids' = TextSet.remove ids task_id in
      if is_empty ids' then Map.remove index agent else Map.insert index agent ids'
]

-- `map.get(k).map(String::as_str) == Some(v)`
abbrev pub maps_to : Map Text → Text → Text → Bool
maps_to m k v = is_some_and (Map.get m k) (λ w. text_eq w v)

-- A delivery id is forgotten, if there is one and it still leads to the task.
unfoldable pub drop_delivery : Map Text → Option DeliveryLease → Text → Map Text
drop_delivery by_delivery none task_id = by_delivery
drop_delivery by_delivery (some lease) task_id =
    if maps_to by_delivery lease.delivery_id task_id
    then Map.remove by_delivery lease.delivery_id
    else by_delivery

unfoldable pub record_status_event : State → EventKind → AgentName → ℕ → State
record_status_event state kind name unix_ms = record state {
  last_event =
      some (record { kind = kind; canonical_name = name; unix_time = i64_seconds unix_ms });
}

-- `registration.expires_unix_ms > now`
abbrev pub is_live : ℕ → RegistrationState → Bool
is_live now entry = ltb now entry.registration.expires_unix_ms

-- The entry that the index of agents leads to.
unfoldable pub registration_of : State → AgentName → Option RegistrationState
registration_of state agent = elim (Map.get state.registrations_by_agent agent) [
  | none ↦ none
  | some id ↦ Map.get state.registrations id
]

unfoldable pub active_registration_id : State → AgentName → ℕ → Option RegistrationId
active_registration_id state agent now = elim (Map.get state.registrations_by_agent agent) [
  | none ↦ none
  | some id ↦ elim (Map.get state.registrations id) [
    | none ↦ none
    | some entry ↦ then_some (is_live now entry) id
  ]
]

-- `push_inbox`
abbrev pub push_inbox : RegistrationState → Text → RegistrationState
push_inbox entry task_id = record entry { inbox = entry.inbox ++ (task_id ∷ []) }

-- `inbox.retain(|queued| queued != task_id)`
unfoldable pub drop_from_inbox : Text → RegistrationState → RegistrationState
drop_from_inbox task_id entry = record entry {
  inbox = retain (λ queued. not (text_eq queued task_id)) entry.inbox;
}

unfoldable pub validate_active_registration :
    State → RegistrationCredentials → ℕ → Result (Unit {0})
validate_active_registration state c now = elim (Map.get state.registrations c.id) [
  | none ↦
      if TextSet.contains state.retired_registration_ids c.id
      then err registration_expired
      else err registration_not_found
  | some entry ↦
      guard
        ((entry.registration.epoch == c.epoch)
          && (is_live now entry
              && maps_to state.registrations_by_agent entry.registration.agent.name c.id))
        registration_expired
]
