-- ===== src/Store/Tests.antt =====
-- The task store on concrete inputs.
use herdr_a2a.Base.{
  ℕ, ◌+◌, ◌≤◌, ◌≡◌, ◌⊎◌, refl, sym, ap, Bool, true, false, Option, none, some, List, [], ◌∷◌, All,
  Text, u64_max, u32_max, i64_zero, arith, max, if◌then◌else◌, is_some_and, text_eq, Bool-cases,
  inl, inr,
}
use herdr_a2a.Base.Map.{Map}
use herdr_a2a.Base.Map
use herdr_a2a.Base.Outcome.{done, failed}
use herdr_a2a.Core.Errors.{ok, err, persistence_unavailable}
use herdr_a2a.Core.Json.{Value, null, boolean, number, string, array, object}
use herdr_a2a.Core.Model.{Payload, FileReference}
use herdr_a2a.Core.Durability.{PersistenceBatch, complete}
use herdr_a2a.Broker.Scenario.{platform, queued_durable, task_id, alice, bob, alice_id}
use herdr_a2a.Broker.Task.{validate_durable_task}
use herdr_a2a.Store.Admissions.{
  TaskIncarnation, SdkProjectionAdmission, Registry, empty_registry, record_admission, consume,
  incarnation_of,
}
use herdr_a2a.Store.Admissions.Bounded.{IsBounded, IsFilled}
use herdr_a2a.Store.Admissions.Queues.{queued}
use herdr_a2a.Store.Admissions.Kept.{record_admission-IsBounded}
use herdr_a2a.Store.Admissions.Matching.{IsAdmissionOf, consume-matches, record_admission-consume}
use herdr_a2a.Store.Ledger.{Codec, Database, StoredTaskRow}
use herdr_a2a.Store.Ledger.Rows.{
  validate_durable_for_store, encode_durable_task, decode_durable_task,
}
use herdr_a2a.Store.Ledger.Rows.Roundtrip.{PayloadParses, decode_durable_task-encode}
use herdr_a2a.Store.Ledger.Rows.Restored.{validate_durable_for_store-accepted}
use herdr_a2a.Store.Sdk.{apply_sdk_projection, WasAdmitted, apply_sdk_projection-admitted}
use herdr_a2a.Store.Ledger.Projection.{TaskColumns, columns_of_task, apply_authorized_projection}
use herdr_a2a.Store.Ledger.{projection_not_authorized}
use herdr_a2a.Store.Ledger.Epoch.{decimal, parse_canonical_u64, parse_canonical_u64-decimal}
use herdr_a2a.Store.Ledger.Commit.{commit, count_retained}
use herdr_a2a.Store.Ledger.Commit.Stores.{IsStored, IsStorable}
use herdr_a2a.Store.Ledger.Commit.Atomic.{HasDistinctIds, commit-IsStored}
use herdr_a2a.Store.Ledger.Commit.Refused.{HasDefect, commit-refused}
use herdr_a2a.Store.Ledger.Commit.Epochs.{commit-epoch}
use herdr_a2a.Store.Ledger.Commit.Capacity.{commit-capacity}
use herdr_a2a.Store.Ledger.Load.{load}
use herdr_a2a.Store.Ledger.Load.{load-accepted}
use herdr_a2a.Store.Ledger.Startup.{prune_quarantined, quarantined_row}
use herdr_a2a.Store.Ledger.Startup.Pruned.{IsExpiredQuarantine, prune_quarantined-rows}
use herdr_a2a.Store.Ledger.Owners.{claim_task_owner, IsOwnedBy, claim_task_owner-owner}

-- A library that prints plain payloads as their text, and A2A tasks as their ids.
abbrev print_parts : Text → Value → List FileReference → Option Text
print_parts text null [] = some text
print_parts text _ _ = none

abbrev codec : Codec Text
codec = record {
  platform = platform;
  payload_json = λ payload. print_parts payload.text payload.metadata payload.file_refs;
  parse_payload = λ text. some (record { text = text; metadata = null; file_refs = [] });
  parse_delivery_id = λ text. some text;
  is_timestamp = λ _. true;
  timestamp_text = λ _. some [];
  task_state_text = λ _. some [];
  projected = λ projection. projection.id;
  task_text = λ task. some task;
  parse_timestamp = λ _. some i64_zero;
  parse_task = λ text. some text;
  id_of = λ task. task;
  context_of = λ task. task;
  state_text = λ _. some [];
  status_text = λ _. [];
}

printed_parts :
    (text : Text) (metadata : Value) (file_refs : List FileReference) (json : Text)
    → print_parts text metadata file_refs ≡ some json
    → ◌≡◌ {A = Option Payload}
        (some (record { text = json; metadata = null; file_refs = [] }))
        (some (record { text = text; metadata = metadata; file_refs = file_refs }))
printed_parts text null [] json h = cc
printed_parts text null (_ ∷ _) json h = cc
printed_parts text (boolean _) file_refs json h = cc
printed_parts text (number _) file_refs json h = cc
printed_parts text (string _) file_refs json h = cc
printed_parts text (array _) file_refs json h = cc
printed_parts text (object _) file_refs json h = cc

codec-parses : (payload : Payload) → PayloadParses codec payload
codec-parses payload json h = printed_parts payload.text payload.metadata payload.file_refs json h

abbrev database : Database
database = record {
  user_version = 1;
  last_registration_epoch = b'3' ∷ [];
  first_m2a_start_unix_ms = i64_zero;
  delivery_tasks = [];
  tasks = [];
  projection_outbox = [];
  task_owners = [];
}

abbrev batch : PersistenceBatch
batch = record {
  registration_epoch_high_watermark = some 12;
  upsert_tasks = queued_durable ∷ [];
  delete_task_ids = [];
}

queued_valid : validate_durable_for_store codec queued_durable ≡ done tt
unfolding validate_durable_for_store herdr_a2a.Core.Model.validate_task_id
    herdr_a2a.Core.Validation.parse_agent_name herdr_a2a.Core.Validation.validate_persisted_payload
    herdr_a2a.Core.Validation.validate_metadata herdr_a2a.Core.Validation.validate_metadata_node
    herdr_a2a.Core.Validation.validate_persisted_files
    herdr_a2a.Store.Ledger.Rows.check_reply_payload herdr_a2a.Store.Ledger.Rows.validate_columns
    herdr_a2a.Base.i64_add herdr_a2a.Broker.Task.ack_valid
    herdr_a2a.Store.Ledger.Rows.lease_columns_valid herdr_a2a.Broker.Task.terminal_times_valid
    herdr_a2a.Store.Ledger.Rows.columns_match_state
queued_valid = refl

committed : (commit codec batch (database, empty_registry)).0 ≡ ok complete
unfolding commit herdr_a2a.Store.Ledger.Commit.commit_encoded
    herdr_a2a.Store.Ledger.Commit.encode_batch herdr_a2a.Store.Ledger.Projection.projection_json
    herdr_a2a.Store.Ledger.Projection.project validate_durable_for_store
    herdr_a2a.Core.Model.validate_task_id herdr_a2a.Core.Validation.parse_agent_name
    herdr_a2a.Core.Validation.validate_persisted_payload herdr_a2a.Core.Validation.validate_metadata
    herdr_a2a.Core.Validation.validate_metadata_node
    herdr_a2a.Core.Validation.validate_persisted_files
    herdr_a2a.Store.Ledger.Rows.check_reply_payload herdr_a2a.Store.Ledger.Rows.validate_columns
    herdr_a2a.Base.i64_add herdr_a2a.Broker.Task.ack_valid
    herdr_a2a.Store.Ledger.Rows.lease_columns_valid Map.get Map.insert Map.remove
    herdr_a2a.Base.text_eq herdr_a2a.Base.text_lt herdr_a2a.Base.TextSet.contains
    herdr_a2a.Base.TextSet.insert herdr_a2a.Base.i64_of herdr_a2a.Base.i64_sub herdr_a2a.Base.u32_of
    herdr_a2a.Base.u64_of herdr_a2a.Broker.Task.terminal_times_valid
    herdr_a2a.Store.Admissions.remove_task
    herdr_a2a.Store.Admissions.retire_sdk_projection_admissions
    herdr_a2a.Store.Ledger.Commit.check_row herdr_a2a.Store.Ledger.Commit.check_suppressed
    herdr_a2a.Store.Ledger.Commit.commit_ledger herdr_a2a.Store.Ledger.Commit.count_new
    herdr_a2a.Store.Ledger.Commit.count_owner_only count_retained
    herdr_a2a.Store.Ledger.Commit.delete_task herdr_a2a.Store.Ledger.Commit.delete_tasks
    herdr_a2a.Store.Ledger.Commit.durable_eq herdr_a2a.Store.Ledger.Commit.finish_commit
    herdr_a2a.Store.Ledger.Commit.is_known herdr_a2a.Store.Ledger.Commit.raise_epoch
    herdr_a2a.Store.Ledger.Commit.settle_projections herdr_a2a.Store.Ledger.Commit.unless_suppressed
    herdr_a2a.Store.Ledger.Commit.upsert_outbox herdr_a2a.Store.Ledger.Commit.upsert_task
    herdr_a2a.Store.Ledger.Commit.upsert_tasks herdr_a2a.Store.Ledger.Commit.write_or_check
    herdr_a2a.Store.Ledger.Epoch.decimal_digits parse_canonical_u64
    herdr_a2a.Store.Ledger.Epoch.read_digits herdr_a2a.Store.Ledger.Projection.apply_all_pending
    herdr_a2a.Store.Ledger.Projection.apply_authorized_projection
    herdr_a2a.Store.Ledger.Projection.apply_pending
    herdr_a2a.Store.Ledger.Projection.apply_pending_projections
    herdr_a2a.Store.Ledger.Projection.columns_of_task
    herdr_a2a.Store.Ledger.Projection.delete_outbox herdr_a2a.Store.Ledger.Projection.insert_ordered
    herdr_a2a.Store.Ledger.Projection.json_object herdr_a2a.Store.Ledger.Projection.known_projection
    herdr_a2a.Store.Ledger.Projection.order_by_task_id
    herdr_a2a.Store.Ledger.Projection.projected_state
    herdr_a2a.Store.Ledger.Projection.projection_eq herdr_a2a.Store.Ledger.Projection.reply_message
    herdr_a2a.Store.Ledger.Projection.store_projection
    herdr_a2a.Store.Ledger.Projection.transition_time
    herdr_a2a.Store.Ledger.Projection.upsert_projection
    herdr_a2a.Store.Ledger.Projection.validate_outbox_entry
    herdr_a2a.Store.Ledger.Rows.columns_match_state decode_durable_task
    herdr_a2a.Store.Ledger.Rows.decode_lease herdr_a2a.Store.Ledger.Rows.decode_payload
    herdr_a2a.Store.Ledger.Rows.decode_reply herdr_a2a.Store.Ledger.Rows.decode_state
    encode_durable_task herdr_a2a.Store.Ledger.Rows.encode_reply
    herdr_a2a.Store.Ledger.Rows.encode_state herdr_a2a.Store.Ledger.Rows.validated
    mathlib.Core.Bool.decide
committed = refl

abbrev saved : Database
saved = (commit codec batch (database, empty_registry)).1

loaded :
    load codec saved ≡ ok (record { last_registration_epoch = 12; tasks = queued_durable ∷ [] })
unfolding load herdr_a2a.Store.Ledger.Load.available herdr_a2a.Store.Ledger.Load.load_snapshot
    herdr_a2a.Store.Ledger.Load.validate_store commit herdr_a2a.Store.Ledger.Commit.commit_encoded
    herdr_a2a.Store.Ledger.Commit.encode_batch herdr_a2a.Store.Ledger.Projection.projection_json
    herdr_a2a.Store.Ledger.Projection.project validate_durable_for_store
    herdr_a2a.Core.Model.validate_task_id herdr_a2a.Core.Validation.parse_agent_name
    herdr_a2a.Core.Validation.validate_persisted_payload herdr_a2a.Core.Validation.validate_metadata
    herdr_a2a.Core.Validation.validate_metadata_node
    herdr_a2a.Core.Validation.validate_persisted_files
    herdr_a2a.Store.Ledger.Rows.check_reply_payload herdr_a2a.Store.Ledger.Rows.validate_columns
    herdr_a2a.Base.i64_add herdr_a2a.Broker.Task.ack_valid
    herdr_a2a.Store.Ledger.Rows.lease_columns_valid herdr_a2a.Broker.Task.terminal_times_valid
    herdr_a2a.Store.Ledger.Rows.columns_match_state
    herdr_a2a.Store.Ledger.Projection.transition_time herdr_a2a.Store.Ledger.Projection.json_object
    herdr_a2a.Store.Ledger.Projection.reply_message herdr_a2a.Store.Ledger.Commit.finish_commit
    herdr_a2a.Store.Ledger.Commit.commit_ledger herdr_a2a.Store.Ledger.Commit.raise_epoch
    parse_canonical_u64 herdr_a2a.Store.Ledger.Epoch.read_digits
    herdr_a2a.Store.Ledger.Commit.delete_tasks count_retained
    herdr_a2a.Store.Ledger.Commit.count_owner_only herdr_a2a.Base.retain Map.get Map.insert
    Map.remove text_eq herdr_a2a.Base.text_lt herdr_a2a.Base.TextSet.contains
    herdr_a2a.Base.TextSet.insert herdr_a2a.Base.i64_of herdr_a2a.Base.i64_sub herdr_a2a.Base.u32_of
    herdr_a2a.Base.u64_of herdr_a2a.Store.Admissions.remove_task
    herdr_a2a.Store.Admissions.retire_sdk_projection_admissions
    herdr_a2a.Store.Ledger.Commit.check_row herdr_a2a.Store.Ledger.Commit.check_suppressed
    herdr_a2a.Store.Ledger.Commit.count_new herdr_a2a.Store.Ledger.Commit.delete_task
    herdr_a2a.Store.Ledger.Commit.durable_eq herdr_a2a.Store.Ledger.Commit.is_known
    herdr_a2a.Store.Ledger.Commit.settle_projections herdr_a2a.Store.Ledger.Commit.unless_suppressed
    herdr_a2a.Store.Ledger.Commit.upsert_outbox herdr_a2a.Store.Ledger.Commit.upsert_task
    herdr_a2a.Store.Ledger.Commit.upsert_tasks herdr_a2a.Store.Ledger.Commit.write_or_check
    herdr_a2a.Store.Ledger.Epoch.decimal_digits herdr_a2a.Store.Ledger.Load.decode_rows
    herdr_a2a.Store.Ledger.Load.is_quarantine_valid herdr_a2a.Store.Ledger.Load.retained_rows
    herdr_a2a.Store.Ledger.Load.validate_all_retained herdr_a2a.Store.Ledger.Load.validate_outbox
    herdr_a2a.Store.Ledger.Load.validate_retained
    herdr_a2a.Store.Ledger.Projection.apply_all_pending
    herdr_a2a.Store.Ledger.Projection.apply_authorized_projection
    herdr_a2a.Store.Ledger.Projection.apply_pending
    herdr_a2a.Store.Ledger.Projection.apply_pending_projections
    herdr_a2a.Store.Ledger.Projection.columns_of_task
    herdr_a2a.Store.Ledger.Projection.delete_outbox herdr_a2a.Store.Ledger.Projection.insert_ordered
    herdr_a2a.Store.Ledger.Projection.known_projection
    herdr_a2a.Store.Ledger.Projection.order_by_task_id
    herdr_a2a.Store.Ledger.Projection.projected_state
    herdr_a2a.Store.Ledger.Projection.projection_eq
    herdr_a2a.Store.Ledger.Projection.store_projection
    herdr_a2a.Store.Ledger.Projection.upsert_projection
    herdr_a2a.Store.Ledger.Projection.validate_outbox_entry decode_durable_task
    herdr_a2a.Store.Ledger.Rows.decode_lease herdr_a2a.Store.Ledger.Rows.decode_payload
    herdr_a2a.Store.Ledger.Rows.decode_reply herdr_a2a.Store.Ledger.Rows.decode_state
    encode_durable_task herdr_a2a.Store.Ledger.Rows.encode_reply
    herdr_a2a.Store.Ledger.Rows.encode_state herdr_a2a.Store.Ledger.Rows.validated
    mathlib.Core.Bool.decide
loaded = refl

-- A batch whose deleted id is empty.
abbrev bad_batch : PersistenceBatch
bad_batch = record {
  registration_epoch_high_watermark = none;
  upsert_tasks = [];
  delete_task_ids = [] ∷ [];
}

bad_batch-HasDefect : HasDefect codec database bad_batch
unfolding HasDefect herdr_a2a.Core.Model.validate_task_id
bad_batch-HasDefect = inr (inr ([], [], [], refl, refl))

claimed : (claim_task_owner codec database task_id alice_id alice (i64_zero + 1000)).0 ≡ done true
unfolding claim_task_owner herdr_a2a.Store.Ledger.Owners.claim_in Map.get
    herdr_a2a.Store.Ledger.Owners.claim_after herdr_a2a.Store.Ledger.Owners.delete_expired
    herdr_a2a.Base.retain herdr_a2a.Store.Ledger.Owners.claim_free count_retained
    herdr_a2a.Store.Ledger.Commit.count_owner_only
claimed = refl

abbrev quarantined : Database
quarantined = record database {
  delivery_tasks =
      (task_id, quarantined_row task_id none bob i64_zero (i64_zero + 1) (i64_zero + 5)) ∷ [];
}

quarantined_found :
    Map.get quarantined.delivery_tasks task_id
    ≡ some (quarantined_row task_id none bob i64_zero (i64_zero + 1) (i64_zero + 5))
unfolding Map.get text_eq
quarantined_found = refl

quarantined-Distinct : Map.Distinct quarantined.delivery_tasks
unfolding Map.Distinct Map.get
quarantined-Distinct = (refl, tt)

abbrev fingerprint : List ℕ
fingerprint = 7 ∷ []

abbrev admission : SdkProjectionAdmission
admission = record {
  fingerprint = fingerprint;
  version = 1;
  incarnation = incarnation_of queued_durable;
  sequence = 0;
}

abbrev admitted : Registry
admitted = record { by_task = (task_id, admission ∷ []) ∷ []; total = 1; next_sequence = 1 }

admitted-IsBounded : IsBounded admitted
unfolding IsBounded Map.Distinct Map.get queued IsFilled
admitted-IsBounded = (
  (refl, tt),
  refl,
  omega arith,
  λ k. elim (Bool-cases (text_eq task_id k)) [
    | inl e ↦ rw (Map.get, e) (omega arith, omega arith)
    | inr e ↦ rw (Map.get, e) tt
  ],
)

consumed :
    (consume admitted task_id fingerprint 1 (incarnation_of queued_durable) false).0
    ≡ some admission
unfolding consume Map.get text_eq herdr_a2a.Store.Admissions.find_admission
    herdr_a2a.Store.Admissions.admits herdr_a2a.Store.Admissions.incarnation_eq
consumed = refl

printed : (row : StoredTaskRow) × (encode_durable_task codec queued_durable ≡ done row)
unfolding encode_durable_task herdr_a2a.Base.i64_of herdr_a2a.Store.Ledger.Rows.encode_reply
printed = (_, refl)

batch-IsStorable : All (IsStorable codec) batch.upsert_tasks
batch-IsStorable = ((codec-parses queued_durable.payload, tt, tt, omega arith), tt)

batch-HasDistinctIds : HasDistinctIds codec batch.upsert_tasks
unfolding HasDistinctIds
batch-HasDistinctIds = ((tt, tt))

decode_durable_task-encode_example : decode_durable_task codec (printed.0) ≡ done queued_durable
decode_durable_task-encode_example =
    decode_durable_task-encode codec queued_durable (codec-parses queued_durable.payload) tt tt
      (omega arith) queued_valid (printed.1)

validate_durable_for_store-accepted_example : validate_durable_task platform queued_durable ≡ ok tt
validate_durable_for_store-accepted_example =
    validate_durable_for_store-accepted codec queued_durable queued_valid

commit-IsStored_example : All (IsStored codec saved) batch.upsert_tasks
commit-IsStored_example =
    commit-IsStored codec batch database empty_registry batch-IsStorable batch-HasDistinctIds
      committed

commit-refused_example :
    commit codec bad_batch (database, empty_registry)
    ≡ (err persistence_unavailable, database, empty_registry)
commit-refused_example = commit-refused codec bad_batch database empty_registry bad_batch-HasDefect

commit-capacity_example : count_retained saved ≤ 4096
commit-capacity_example = commit-capacity codec batch database empty_registry committed

commit-epoch_example :
    (current : ℕ) × (parse_canonical_u64 database.last_registration_epoch ≡ done current)
    × (parse_canonical_u64 saved.last_registration_epoch ≡ done (max current 12))
commit-epoch_example =
    commit-epoch codec batch database empty_registry 12 refl (omega arith) committed

parse_canonical_u64-decimal_example : parse_canonical_u64 (decimal 1234) ≡ done 1234
parse_canonical_u64-decimal_example = parse_canonical_u64-decimal 1234 (omega arith)

load-accepted_example : All (λ t. validate_durable_task platform t ≡ ok tt) (queued_durable ∷ [])
load-accepted_example = load-accepted codec saved loaded

abbrev pruned_row : StoredTaskRow
pruned_row = quarantined_row task_id none bob i64_zero (i64_zero + 1) (i64_zero + 5)

prune_quarantined-rows_example :
    (IsExpiredQuarantine (i64_zero + 9) pruned_row
      × (Map.get ((prune_quarantined (i64_zero + 9) quarantined).1.delivery_tasks) task_id ≡ none))
    ⊎ ((¬ IsExpiredQuarantine (i64_zero + 9) pruned_row)
        × (Map.get ((prune_quarantined (i64_zero + 9) quarantined).1.delivery_tasks) task_id
            ≡ some pruned_row))
prune_quarantined-rows_example =
    prune_quarantined-rows (i64_zero + 9) quarantined task_id pruned_row quarantined-Distinct
      quarantined_found

-- A row that is not quarantined stays, however old it is.
abbrev old_database : Database
old_database = record database {
  delivery_tasks = (task_id, record pruned_row { legacy_quarantined = false }) ∷ [];
}

old_row_kept : (prune_quarantined (i64_zero + 9) old_database).1 ≡ old_database
unfolding prune_quarantined Map.get herdr_a2a.Store.Ledger.Startup.delete_rows
    herdr_a2a.Store.Ledger.Projection.order_by_task_id herdr_a2a.Base.retain
    herdr_a2a.Store.Ledger.Startup.is_prunable
old_row_kept = refl

claim_task_owner-owner_example :
    IsOwnedBy codec
      ((claim_task_owner codec database task_id alice_id alice (i64_zero + 1000)).1)
      task_id
      alice_id
      alice
claim_task_owner-owner_example =
    claim_task_owner-owner codec database task_id alice_id alice (i64_zero + 1000) claimed

record_admission-IsBounded_example :
    (r1 : Registry) × (record_admission admitted task_id fingerprint 2
        (incarnation_of queued_durable)
      ≡ done r1)
    × IsBounded r1
record_admission-IsBounded_example =
    record_admission-IsBounded admitted task_id fingerprint 2 (incarnation_of queued_durable)
      admitted-IsBounded (omega arith)

consume-matches_example :
    IsAdmissionOf fingerprint 1 (incarnation_of queued_durable) admission
    × ((consume admitted task_id fingerprint 1 (incarnation_of queued_durable) false).1.total + 1
        ≡ 1)
consume-matches_example =
    consume-matches admitted task_id fingerprint 1 (incarnation_of queued_durable) false
      admitted-IsBounded consumed

record_admission-consume_example :
    (r1 : Registry) × (record_admission admitted task_id fingerprint 2
        (incarnation_of queued_durable)
      ≡ done r1)
    × (a : SdkProjectionAdmission) × ((consume r1 task_id fingerprint 3
          (incarnation_of queued_durable)
          false).0
        ≡ some a)
    × IsAdmissionOf fingerprint 3 (incarnation_of queued_durable) a
record_admission-consume_example =
    record_admission-consume admitted task_id fingerprint 2 3 (incarnation_of queued_durable)
      admitted-IsBounded (omega arith) (omega arith)

-- A library by which every A2A task is of the same id.
abbrev stale_codec : Codec Text
stale_codec = record codec { id_of = λ _. task_id }

abbrev identity_digest : Text → List ℕ
identity_digest text = text

abbrev stale_task : Text
stale_task = b'x' ∷ []

abbrev stale_columns : TaskColumns
stale_columns = record {
  task_id = task_id;
  context_id = stale_task;
  state = [];
  status_timestamp = [];
  task_json = stale_task;
}

abbrev stale_registry : Registry
stale_registry = record {
  by_task = (task_id, record admission { fingerprint = stale_task; version = 0 } ∷ []) ∷ [];
  total = 1;
  next_sequence = 1;
}

stale_encoded : columns_of_task stale_codec stale_task ≡ done stale_columns
unfolding columns_of_task
stale_encoded = refl

stale_refused :
    apply_authorized_projection stale_codec saved stale_columns ≡ failed projection_not_authorized
unfolding apply_authorized_projection Map.get commit herdr_a2a.Store.Ledger.Commit.commit_encoded
    herdr_a2a.Store.Ledger.Commit.encode_batch herdr_a2a.Store.Ledger.Projection.projection_json
    herdr_a2a.Store.Ledger.Projection.project validate_durable_for_store
    herdr_a2a.Core.Model.validate_task_id herdr_a2a.Core.Validation.parse_agent_name
    herdr_a2a.Core.Validation.validate_persisted_payload herdr_a2a.Core.Validation.validate_metadata
    herdr_a2a.Core.Validation.validate_metadata_node
    herdr_a2a.Core.Validation.validate_persisted_files
    herdr_a2a.Store.Ledger.Rows.check_reply_payload herdr_a2a.Store.Ledger.Rows.validate_columns
    herdr_a2a.Base.i64_add Map.insert Map.remove text_eq herdr_a2a.Base.text_lt
    herdr_a2a.Base.TextSet.contains herdr_a2a.Base.TextSet.insert herdr_a2a.Base.i64_of
    herdr_a2a.Base.i64_sub herdr_a2a.Base.u32_of herdr_a2a.Base.u64_of
    herdr_a2a.Broker.Task.ack_valid herdr_a2a.Broker.Task.terminal_times_valid
    herdr_a2a.Store.Admissions.remove_task
    herdr_a2a.Store.Admissions.retire_sdk_projection_admissions
    herdr_a2a.Store.Ledger.Commit.check_row herdr_a2a.Store.Ledger.Commit.check_suppressed
    herdr_a2a.Store.Ledger.Commit.commit_ledger herdr_a2a.Store.Ledger.Commit.count_new
    herdr_a2a.Store.Ledger.Commit.count_owner_only count_retained
    herdr_a2a.Store.Ledger.Commit.delete_task herdr_a2a.Store.Ledger.Commit.delete_tasks
    herdr_a2a.Store.Ledger.Commit.durable_eq herdr_a2a.Store.Ledger.Commit.finish_commit
    herdr_a2a.Store.Ledger.Commit.is_known herdr_a2a.Store.Ledger.Commit.raise_epoch
    herdr_a2a.Store.Ledger.Commit.settle_projections herdr_a2a.Store.Ledger.Commit.unless_suppressed
    herdr_a2a.Store.Ledger.Commit.upsert_outbox herdr_a2a.Store.Ledger.Commit.upsert_task
    herdr_a2a.Store.Ledger.Commit.upsert_tasks herdr_a2a.Store.Ledger.Commit.write_or_check
    herdr_a2a.Store.Ledger.Epoch.decimal_digits parse_canonical_u64
    herdr_a2a.Store.Ledger.Epoch.read_digits herdr_a2a.Store.Ledger.Projection.apply_all_pending
    herdr_a2a.Store.Ledger.Projection.apply_pending
    herdr_a2a.Store.Ledger.Projection.apply_pending_projections columns_of_task
    herdr_a2a.Store.Ledger.Projection.delete_outbox herdr_a2a.Store.Ledger.Projection.insert_ordered
    herdr_a2a.Store.Ledger.Projection.json_object herdr_a2a.Store.Ledger.Projection.known_projection
    herdr_a2a.Store.Ledger.Projection.order_by_task_id
    herdr_a2a.Store.Ledger.Projection.projected_state
    herdr_a2a.Store.Ledger.Projection.projection_eq herdr_a2a.Store.Ledger.Projection.reply_message
    herdr_a2a.Store.Ledger.Projection.store_projection
    herdr_a2a.Store.Ledger.Projection.transition_time
    herdr_a2a.Store.Ledger.Projection.upsert_projection
    herdr_a2a.Store.Ledger.Projection.validate_outbox_entry
    herdr_a2a.Store.Ledger.Rows.columns_match_state decode_durable_task
    herdr_a2a.Store.Ledger.Rows.decode_lease herdr_a2a.Store.Ledger.Rows.decode_payload
    herdr_a2a.Store.Ledger.Rows.decode_reply herdr_a2a.Store.Ledger.Rows.decode_state
    encode_durable_task herdr_a2a.Store.Ledger.Rows.encode_reply
    herdr_a2a.Store.Ledger.Rows.encode_state herdr_a2a.Store.Ledger.Rows.lease_columns_valid
    herdr_a2a.Store.Ledger.Rows.validated mathlib.Core.Bool.decide
stale_refused = refl

stale_applied :
    (apply_sdk_projection stale_codec identity_digest stale_task saved stale_registry).0 ≡ done 1
unfolding apply_sdk_projection herdr_a2a.Store.Sdk.apply_encoded columns_of_task
    herdr_a2a.Store.Sdk.apply_columns herdr_a2a.Store.Sdk.classify apply_authorized_projection
    Map.get commit herdr_a2a.Store.Ledger.Commit.commit_encoded
    herdr_a2a.Store.Ledger.Commit.encode_batch herdr_a2a.Store.Ledger.Projection.projection_json
    herdr_a2a.Store.Ledger.Projection.project validate_durable_for_store
    herdr_a2a.Core.Model.validate_task_id herdr_a2a.Core.Validation.parse_agent_name
    herdr_a2a.Core.Validation.validate_persisted_payload herdr_a2a.Core.Validation.validate_metadata
    herdr_a2a.Core.Validation.validate_metadata_node
    herdr_a2a.Core.Validation.validate_persisted_files
    herdr_a2a.Store.Ledger.Rows.check_reply_payload herdr_a2a.Store.Ledger.Rows.validate_columns
    herdr_a2a.Base.i64_add herdr_a2a.Broker.Task.ack_valid
    herdr_a2a.Store.Ledger.Rows.lease_columns_valid herdr_a2a.Broker.Task.terminal_times_valid
    herdr_a2a.Store.Ledger.Rows.columns_match_state
    herdr_a2a.Store.Ledger.Projection.transition_time herdr_a2a.Store.Ledger.Projection.json_object
    herdr_a2a.Store.Ledger.Projection.reply_message herdr_a2a.Store.Ledger.Commit.finish_commit
    herdr_a2a.Store.Ledger.Commit.commit_ledger herdr_a2a.Store.Ledger.Commit.raise_epoch
    parse_canonical_u64 Map.insert Map.remove text_eq herdr_a2a.Base.text_lt
    herdr_a2a.Base.TextSet.contains herdr_a2a.Base.TextSet.insert herdr_a2a.Base.i64_of
    herdr_a2a.Base.i64_sub herdr_a2a.Base.u32_of herdr_a2a.Base.u64_of
    herdr_a2a.Store.Admissions.admits consume herdr_a2a.Store.Admissions.drop_admission
    herdr_a2a.Store.Admissions.find_admission herdr_a2a.Store.Admissions.incarnation_eq
    herdr_a2a.Store.Admissions.put_queue herdr_a2a.Store.Admissions.remove_at
    herdr_a2a.Store.Admissions.remove_task
    herdr_a2a.Store.Admissions.retire_sdk_projection_admissions
    herdr_a2a.Store.Ledger.Commit.check_row herdr_a2a.Store.Ledger.Commit.check_suppressed
    herdr_a2a.Store.Ledger.Commit.count_new herdr_a2a.Store.Ledger.Commit.count_owner_only
    count_retained herdr_a2a.Store.Ledger.Commit.delete_task
    herdr_a2a.Store.Ledger.Commit.delete_tasks herdr_a2a.Store.Ledger.Commit.durable_eq
    herdr_a2a.Store.Ledger.Commit.is_known herdr_a2a.Store.Ledger.Commit.settle_projections
    herdr_a2a.Store.Ledger.Commit.unless_suppressed herdr_a2a.Store.Ledger.Commit.upsert_outbox
    herdr_a2a.Store.Ledger.Commit.upsert_task herdr_a2a.Store.Ledger.Commit.upsert_tasks
    herdr_a2a.Store.Ledger.Commit.write_or_check herdr_a2a.Store.Ledger.Epoch.decimal_digits
    herdr_a2a.Store.Ledger.Epoch.read_digits herdr_a2a.Store.Ledger.Projection.apply_all_pending
    herdr_a2a.Store.Ledger.Projection.apply_pending
    herdr_a2a.Store.Ledger.Projection.apply_pending_projections
    herdr_a2a.Store.Ledger.Projection.clean_authoritative_projection
    herdr_a2a.Store.Ledger.Projection.delete_outbox herdr_a2a.Store.Ledger.Projection.insert_ordered
    herdr_a2a.Store.Ledger.Projection.known_projection
    herdr_a2a.Store.Ledger.Projection.order_by_task_id
    herdr_a2a.Store.Ledger.Projection.projected_state
    herdr_a2a.Store.Ledger.Projection.projection_eq
    herdr_a2a.Store.Ledger.Projection.store_projection
    herdr_a2a.Store.Ledger.Projection.upsert_projection
    herdr_a2a.Store.Ledger.Projection.validate_outbox_entry decode_durable_task
    herdr_a2a.Store.Ledger.Rows.decode_lease herdr_a2a.Store.Ledger.Rows.decode_payload
    herdr_a2a.Store.Ledger.Rows.decode_reply herdr_a2a.Store.Ledger.Rows.decode_state
    encode_durable_task herdr_a2a.Store.Ledger.Rows.encode_reply
    herdr_a2a.Store.Ledger.Rows.encode_state herdr_a2a.Store.Ledger.Rows.validated
    herdr_a2a.Store.Sdk.authoritative herdr_a2a.Store.Sdk.check_version
    herdr_a2a.Store.Sdk.close_transaction herdr_a2a.Store.Sdk.consume_admission
    mathlib.Core.Bool.decide
stale_applied = refl

apply_sdk_projection-admitted_example :
    WasAdmitted stale_codec identity_digest saved stale_registry stale_columns 1
apply_sdk_projection-admitted_example =
    apply_sdk_projection-admitted stale_codec identity_digest stale_task stale_columns saved
      stale_registry stale_encoded stale_refused stale_applied
