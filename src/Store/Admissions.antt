-- ===== src/Store/Admissions.antt =====
-- The registry of SDK projections that the broker has admitted but that the SDK has not stored
-- yet. Of crates/herdr-a2a-broker/src/store.rs.
pub mod Queues
pub mod Bounded
pub mod Kept
pub mod Matching
use herdr_a2a.Base.{
  ℕ, zero, suc, ◌+◌, ◌-◌, Bool, true, false, ◌&&◌, not, Option, none, some, List, [], ◌∷◌, ◌++◌,
  map, ltb, leb, ◌==◌, if◌then◌else◌, length, is_empty, unwrap_or, Text, text_eq, u64_succ,
}
use mathlib.Core.Option
use herdr_a2a.Base.Map.{Map}
use herdr_a2a.Base.Map
use herdr_a2a.Base.Outcome.{Outcome, done, failed, panicked, ◌>>=◌, ◌>>◌, some_or, expect_some}
use herdr_a2a.Core.Durability.{DurableTask}

abbrev pub max_sdk_projection_admissions_per_task : ℕ
max_sdk_projection_admissions_per_task = 8

-- `MAX_RETAINED_TASKS`
abbrev pub max_sdk_projection_admissions : ℕ
max_sdk_projection_admissions = 4096

-- The errors of the registry: `A2AError::internal` of a message.
pub data AdmissionError : Type 0 where
  sequence_exhausted : AdmissionError

-- `[u8; 32]`
abbrev pub ProjectionFingerprint : Type 0
ProjectionFingerprint = List ℕ

pub record TaskIncarnation : Type 0 where
  pub context_id : Text
  pub sender : Text
  pub recipient : Text
  pub created_unix_ms : ℕ

-- `From<&DurableTask>`
abbrev pub incarnation_of : DurableTask → TaskIncarnation
incarnation_of task = record {
  context_id = task.context_id;
  sender = task.sender;
  recipient = task.recipient;
  created_unix_ms = task.created_unix_ms;
}

-- `==` of two incarnations
unfoldable pub incarnation_eq : TaskIncarnation → TaskIncarnation → Bool
incarnation_eq a b =
    (text_eq a.context_id b.context_id && text_eq a.sender b.sender)
    && (text_eq a.recipient b.recipient && (a.created_unix_ms == b.created_unix_ms))

pub record SdkProjectionAdmission : Type 0 where
  pub fingerprint : ProjectionFingerprint
  pub version : ℕ
  pub incarnation : TaskIncarnation
  pub sequence : ℕ

-- `VecDeque<SdkProjectionAdmission>`
abbrev pub Queue : Type 0
Queue = List SdkProjectionAdmission

pub record Registry : Type 0 where
  pub by_task : Map Queue
  pub total : ℕ
  pub next_sequence : ℕ

abbrev pub empty_registry : Registry
empty_registry = record { by_task = []; total = 0; next_sequence = 0 }

-- `queue.remove(index)`
unfoldable pub remove_at : Queue → ℕ → Queue
remove_at [] i = []
remove_at (a ∷ q) zero = q
remove_at (a ∷ q) (suc i) = a ∷ remove_at q i

-- What the queue of a task becomes: an empty queue is removed.
unfoldable pub put_queue : Map Queue → Text → Queue → Map Queue
put_queue m task_id q = if is_empty q then Map.remove m task_id else Map.insert m task_id q

-- `by_task.entry(task_id).or_default().push_back(admission)`
unfoldable pub push_back : Map Queue → Text → SdkProjectionAdmission → Map Queue
push_back m task_id admission =
    Map.insert m task_id (unwrap_or (Map.get m task_id) [] ++ (admission ∷ []))

-- One step of `min_by_key`: the first of the least is kept.
unfoldable pub earliest {ℓ} : {A : Type ℓ} → (A → ℕ) → A → Option A → A
earliest key a none = a
earliest key a (some b) = if ltb (key b) (key a) then b else a

-- `enumerate().min_by_key(|(_, admission)| admission.sequence)`: the index and the sequence of the
-- oldest, counted from i.
unfoldable pub oldest_from : ℕ → Queue → Option (ℕ × ℕ)
oldest_from i [] = none
oldest_from i (a ∷ q) = some (earliest (λ o. o.1) (i, a.sequence) (oldest_from (i + 1) q))

abbrev pub earliest_overall : Text → Option (ℕ × ℕ) → Option (Text × ℕ × ℕ) → Option (Text × ℕ × ℕ)
earliest_overall task_id none rest = rest
earliest_overall task_id (some here) rest =
    some (earliest (λ o. o.2) (task_id, here.0, here.1) rest)

-- `flat_map(…).min_by_key(|(_, _, sequence)| *sequence)` over all queues: task, index, sequence.
unfoldable pub oldest_overall : Map Queue → Option (Text × ℕ × ℕ)
oldest_overall [] = none
oldest_overall ((task_id, q) ∷ m) = earliest_overall task_id (oldest_from 0 q) (oldest_overall m)

-- One admission of a queue taken out, in both of the methods below.
unfoldable pub drop_admission : Registry → Text → Queue → ℕ → Registry
drop_admission r task_id q index = record r {
  by_task = put_queue r.by_task task_id (remove_at q index);
  total = r.total - 1;
}

unfoldable pub remove_oldest_for_task : Registry → Text → Outcome AdmissionError Registry
remove_oldest_for_task r task_id = elim (Map.get r.by_task task_id) [
  | none ↦ done r
  | some q ↦ expect_some (oldest_from 0 q) >>= λ oldest. done (drop_admission r task_id q oldest.0)
]

unfoldable pub remove_oldest : Registry → Outcome AdmissionError Registry
remove_oldest r = do
  oldest ← expect_some (oldest_overall r.by_task)
  q ← expect_some (Map.get r.by_task oldest.0)
  done (drop_admission r oldest.0 q oldest.1)

abbrev pub task_is_full : Registry → Text → Bool
task_is_full r task_id =
    length (unwrap_or (Map.get r.by_task task_id) []) == max_sdk_projection_admissions_per_task

-- The two tests that make room, in `record` and in `restore`.
unfoldable pub make_room : Registry → Text → Outcome AdmissionError Registry
make_room r task_id = do
  r1 ← if task_is_full r task_id then remove_oldest_for_task r task_id else done r
  if r1.total == max_sdk_projection_admissions then remove_oldest r1 else done r1

unfoldable pub restore : Registry → Text → SdkProjectionAdmission → Outcome AdmissionError Registry
restore r task_id admission = make_room r task_id >>= λ r1.
    done (record r1 { by_task = push_back r1.by_task task_id admission; total = r1.total + 1 })

-- `record`
unfoldable pub record_admission :
    Registry → Text → ProjectionFingerprint → ℕ → TaskIncarnation → Outcome AdmissionError Registry
record_admission r task_id fingerprint version incarnation = do
  next_sequence ← some_or (u64_succ r.next_sequence) sequence_exhausted
  r1 ← make_room (record r { next_sequence = next_sequence }) task_id
  done (record r1 {
    by_task = push_back r1.by_task task_id (record {
      fingerprint = fingerprint;
      version = version;
      incarnation = incarnation;
      sequence = r.next_sequence;
    });
    total = r1.total + 1;
  })

-- The predicate of `position` in `consume`.
unfoldable pub admits :
    ProjectionFingerprint → ℕ → TaskIncarnation → Bool → SdkProjectionAdmission → Bool
admits fingerprint authoritative_version incarnation superseded admission =
    (text_eq admission.fingerprint fingerprint && incarnation_eq admission.incarnation incarnation)
    && (if superseded
        then ltb admission.version authoritative_version
        else leb admission.version authoritative_version)

-- `position(p)` with what stands there
unfoldable pub find_admission :
    (SdkProjectionAdmission → Bool) → ℕ → Queue → Option (ℕ × SdkProjectionAdmission)
find_admission p i [] = none
find_admission p i (a ∷ q) = if p a then some (i, a) else find_admission p (i + 1) q

unfoldable pub consume :
    Registry
    → Text
    → ProjectionFingerprint
    → ℕ
    → TaskIncarnation
    → Bool
    → Option SdkProjectionAdmission × Registry
consume r task_id fingerprint authoritative_version incarnation superseded =
    elim (Map.get r.by_task task_id) [
      | none ↦ (none, r)
      | some q ↦
          elim (find_admission (admits fingerprint authoritative_version incarnation superseded) 0
            q) [
              | none ↦ (none, r)
              | some found ↦ (some (found.1), drop_admission r task_id q found.0)
            ]
    ]

unfoldable pub remove_task : Registry → Text → Registry
remove_task r task_id = elim (Map.get r.by_task task_id) [
  | none ↦ r
  | some q ↦ record r { by_task = Map.remove r.by_task task_id; total = r.total - length q }
]

-- `retire_sdk_projection_admissions`
unfoldable pub retire_sdk_projection_admissions : Registry → List Text → Registry
retire_sdk_projection_admissions r [] = r
retire_sdk_projection_admissions r (task_id ∷ task_ids) =
    retire_sdk_projection_admissions (remove_task r task_id) task_ids
