-- ===== src/Broker/Scenario.antt =====
-- Concrete data for the tests: two agents, one task between them, and the stages of that task.
use herdr_a2a.Base.{ℕ, ◌+◌, true, false, none, some, List, [], ◌∷◌, Text, i64_zero}
use herdr_a2a.Core.Json.{null}
use herdr_a2a.Core.Model.{Payload, QueuedDelivery, VerifiedAgent, RegistrationCredentials}
use herdr_a2a.Core.Durability.{DurableTask, DurableLease, queued, leased}
use herdr_a2a.Core.Validation.{Platform}
use herdr_a2a.Broker.Task.{TaskRecord, DeliveryLease}
use herdr_a2a.Broker.State.{State, RegistrationState, default_state}
use herdr_a2a.Broker.Monad.{World}
use herdr_a2a.Broker.Calls.{Call}

-- A platform on which every path is absolute, and which encodes every value in four bytes.
abbrev pub platform : Platform
platform = record {
  encoded_length = λ _. 4;
  lossy_length = λ _. 1;
  canonicalize = λ path. some path;
  path_starts_with = λ _ _. true;
}

abbrev pub alice : Text
alice = b'a' ∷ []

abbrev pub bob : Text
bob = b'b' ∷ []

abbrev pub task_id : Text
task_id = b't' ∷ b'1' ∷ []

abbrev pub alice_id : Text
alice_id = b'r' ∷ b'1' ∷ []

abbrev pub bob_id : Text
bob_id = b'r' ∷ b'2' ∷ []

abbrev pub delivery_id : Text
delivery_id = b'd' ∷ b'1' ∷ []

abbrev pub start : ℕ
start = i64_zero + 1000

abbrev pub question : Payload
question = record { text = b'?' ∷ []; metadata = null; file_refs = [] }

abbrev pub answer : Payload
answer = record { text = b'!' ∷ []; metadata = null; file_refs = [] }

abbrev pub delivery : QueuedDelivery
delivery = record {
  task_id = task_id;
  context_id = task_id;
  sender = alice;
  recipient = bob;
  payload = question;
  created_unix_ms = start;
  attempt = 1;
}

-- The task as it is queued.
abbrev pub queued_record : TaskRecord
queued_record = record {
  enqueue_sequence = 1;
  state_version = 1;
  original_delivery = delivery;
  delivery = some delivery;
  recipient = bob;
  sender = alice;
  lease = none;
  last_delivery_attempt = none;
  acknowledged = false;
  acknowledged_unix_ms = none;
  reply = none;
  reply_waiters = [];
  failed = false;
  rejected = false;
  canceled = false;
  expired = false;
  terminal_unix_ms = none;
  terminal_deadline_unix_ms = none;
}

abbrev pub queued_durable : DurableTask
queued_durable = record {
  task_id = task_id;
  context_id = task_id;
  sender = alice;
  recipient = bob;
  payload = question;
  created_unix_ms = start;
  delivery_deadline_unix_ms = start + 86400000;
  state_version = 1;
  state = queued;
  lease = none;
  attempt = 1;
  acknowledged_unix_ms = none;
  reply = none;
  terminal_unix_ms = none;
  retention_deadline_unix_ms = none;
}

abbrev pub bob_credentials : RegistrationCredentials
bob_credentials = record { id = bob_id; epoch = 2 }

-- Bob's lease on the task, and the task under it.
abbrev pub lease : DeliveryLease
lease = record {
  delivery_id = delivery_id;
  owner = some bob_credentials;
  leased_until_unix_ms = start + 60000;
  attempt = 1;
}

abbrev pub durable_lease_of_bob : DurableLease
durable_lease_of_bob = record {
  delivery_id = delivery_id;
  owner = bob;
  leased_until_unix_ms = start + 60000;
  attempt = 1;
}

abbrev pub leased_task : TaskRecord
leased_task = record queued_record {
  state_version = 2;
  lease = some lease;
  last_delivery_attempt = some 1;
}

abbrev pub leased_durable : DurableTask
leased_durable = record queued_durable {
  state_version = 2;
  state = leased;
  lease = some durable_lease_of_bob;
}

abbrev pub agent : Text → VerifiedAgent
agent name = record { name = name; pane_id = name; harness = name; workspace = name }

abbrev pub bob_entry : RegistrationState
bob_entry = record {
  registration = record {
    id = bob_id;
    epoch = 2;
    agent = agent bob;
    harness_session_id = bob;
    expires_unix_ms = start + 30000;
  };
  inbox = task_id ∷ [];
  wait_active = false;
}

-- A state with bob's registration and the task at some stage.
abbrev pub state_with : TaskRecord → State
state_with task = record default_state {
  next_registration_epoch = 2;
  next_task_sequence = 1;
  registrations = (bob_id, bob_entry) ∷ [];
  registrations_by_agent = (bob, bob_id) ∷ [];
  tasks = (task_id, task) ∷ [];
}

abbrev pub initial_world : World (Unit {0})
initial_world = record { state = default_state; store = tt; generation = 0; effects = [] }

abbrev pub alice_credentials : RegistrationCredentials
alice_credentials = record { id = alice_id; epoch = 1 }

-- Both agents register, and the task is queued, leased, acknowledged and answered; then the
-- sender tries to cancel it.
abbrev pub history : List (ℕ × Call)
history =
    (start, Call.register alice_id (agent alice) alice)
    ∷ (start, Call.register bob_id (agent bob) bob)
    ∷ (start, Call.enqueue alice_credentials delivery)
    ∷ (start + 1, Call.poll_delivery bob_credentials delivery_id)
    ∷ (start + 2, Call.ack_delivery bob_credentials delivery_id)
    ∷ (start + 3, Call.reply bob_credentials task_id answer)
    ∷ (start + 4, Call.cancel_task alice_credentials task_id)
    ∷ []
