-- ===== src/Store/Ledger/Commit.antt =====
-- `load` and `commit` of the task store, and the checks that `load` begins with. Of
-- crates/herdr-a2a-broker/src/ledger.rs.
pub mod Stores
pub mod Atomic
pub mod Refused
pub mod Epochs
pub mod Capacity
use herdr_a2a.Base.{
  ℕ, suc, ◌+◌, ◌≡◌, Bool, true, false, ◌&&◌, ◌||◌, not, Option, none, some, List, [], ◌∷◌, leb, ltb,
  ◌==◌, if◌then◌else◌, is_some, is_none, is_some_and, length, retain, all, decide, then_some, Text,
  text_eq, i64_of,
}
use native.Mathlib.Decide.{ℕ_discrete}
use herdr_a2a.Base.Map.{Map}
use herdr_a2a.Base.Map
use herdr_a2a.Base.TextSet.{TextSet}
use herdr_a2a.Base.TextSet
use herdr_a2a.Base.Outcome.{Outcome, done, failed, panicked, ◌>>=◌, ◌>>◌, require, some_or}
use herdr_a2a.Core.Json.{Value-discrete}
use herdr_a2a.Core.Errors.{Result, ok, err, is_ok, persistence_unavailable}
use herdr_a2a.Core.Model.{validate_task_id, Payload-discrete}
use herdr_a2a.Core.Durability.{
  DurableTask, DurableTaskState, DurableLease, queued, leased, acknowledged, replied, expired,
  PersistenceBatch, PersistenceCommitOutcome, complete, reconciliation_required,
  DurableBrokerSnapshot, BrokerPersistence,
}
use herdr_a2a.Store.Admissions.{Registry, retire_sdk_projection_admissions}
use herdr_a2a.Store.Ledger.{
  Codec, Stored, StoreError, invalid_data, StoredTaskRow, OutboxRow, OwnerRow, Database,
}
use herdr_a2a.Store.Ledger.Rows.{
  decode_durable_task, encode_durable_task, validate_durable_for_store,
}
use herdr_a2a.Store.Ledger.Projection.{
  projection_json, columns_of_task, row_of_columns, projection_eq, order_by_task_id,
  validate_outbox_entry, apply_pending_projections,
}
use herdr_a2a.Store.Ledger.Epoch.{decimal, parse_canonical_u64}

-- `MAX_RETAINED_TASKS`
abbrev pub max_retained : ℕ
max_retained = 4096

abbrev pub schema_version : ℕ
schema_version = 1

-- The part of `commit` that raises the registration epoch.
unfoldable pub raise_epoch : Database → Option ℕ → Stored Database
raise_epoch db none = done db
raise_epoch db (some epoch) = do
  current ← parse_canonical_u64 db.last_registration_epoch
  done (if ltb current epoch then record db { last_registration_epoch = decimal epoch } else db)

-- `DELETE FROM … WHERE task_id = ?1` on the four tables
unfoldable pub delete_task : Database → Text → Database
delete_task db task_id = record db {
  projection_outbox = Map.remove db.projection_outbox task_id;
  delivery_tasks = Map.remove db.delivery_tasks task_id;
  task_owners = Map.remove db.task_owners task_id;
  tasks = Map.remove db.tasks task_id;
}

unfoldable pub delete_tasks : Database → List Text → Stored Database
delete_tasks db [] = done db
delete_tasks db (task_id ∷ task_ids) = do
  require (is_ok (validate_task_id task_id)) invalid_data
  delete_tasks (delete_task db task_id) task_ids

-- Owners of tasks that `delivery_tasks` does not have.
unfoldable pub count_owner_only : Map StoredTaskRow → Map OwnerRow → ℕ
count_owner_only rows [] = 0
count_owner_only rows ((task_id, owner) ∷ owners) =
    let rest = count_owner_only rows owners in
    if is_none (Map.get rows task_id) then suc rest else rest

-- The count of the `UNION ALL` query, in `commit` and in `claim_task_owner`.
unfoldable pub count_retained : Database → ℕ
count_retained db = length db.delivery_tasks + count_owner_only db.delivery_tasks db.task_owners

unfoldable pub is_known : Database → Text → Bool
is_known db task_id =
    is_some (Map.get db.delivery_tasks task_id) || is_some (Map.get db.task_owners task_id)

-- The ids of the batch that no table knows, each counted once.
unfoldable pub count_new : Database → TextSet → List (DurableTask × Text) → ℕ
count_new db incoming_ids [] = 0
count_new db incoming_ids ((task, json) ∷ encoded) =
    let rest = count_new db (TextSet.insert incoming_ids task.task_id) encoded in
    if TextSet.contains incoming_ids task.task_id || is_known db task.task_id
    then rest
    else suc rest

-- `ON CONFLICT … WHERE excluded.state_version > delivery_tasks.state_version AND …`
abbrev pub is_newer : StoredTaskRow → Option StoredTaskRow → Bool
is_newer row none = true
is_newer row (some old) = ltb old.state_version row.state_version && not old.legacy_quarantined

-- `INSERT INTO projection_outbox … ON CONFLICT … WHERE …`
unfoldable pub upsert_outbox : Map OutboxRow → Text → OutboxRow → Map OutboxRow
upsert_outbox m task_id entry = elim (Map.get m task_id) [
  | none ↦ Map.insert m task_id entry
  | some old ↦ if ltb old.state_version entry.state_version then Map.insert m task_id entry else m
]

-- The rest of the loop, unless it has returned.
unfoldable pub unless_suppressed :
    Option Database → (Database → Stored (Option Database)) → Stored (Option Database)
unless_suppressed none rest = done none
unless_suppressed (some db) rest = rest db

-- What the loop writes for a task.
abbrev pub written : Database → DurableTask → Text → StoredTaskRow → Database
written db task json row = record db {
  delivery_tasks = Map.insert db.delivery_tasks task.task_id row;
  projection_outbox =
      upsert_outbox db.projection_outbox task.task_id
        (record { state_version = row.state_version; task_json = json });
}

pub DurableTask-discrete : Discrete DurableTask
DurableTask-discrete = hlevel (ℕ_discrete, Value-discrete)

unfoldable pub durable_eq : DurableTask → DurableTask → Bool
durable_eq a b = decide (DurableTask-discrete a b)

module _ {Task : Type 0} (codec : Codec Task) where
  open codec use {parse_task}

  -- The projections of the batch's tasks, which `commit` computes first.
  unfoldable pub encode_batch : List DurableTask → Stored (List (DurableTask × Text))
  encode_batch [] = done []
  encode_batch (task ∷ tasks) = do
    json ← projection_json codec task
    rest ← encode_batch tasks
    done ((task, json) ∷ rest)

  -- What a suppressed row must be for the batch to go on.
  unfoldable pub check_row :
      Database → DurableTask → StoredTaskRow → Bool → Stored (Option Database)
  check_row db task stored true = done none
  check_row db task stored false =
      decode_durable_task codec stored >>= λ durable. done (then_some (durable_eq durable task) db)

  unfoldable pub check_suppressed : Database → DurableTask → Stored (Option Database)
  check_suppressed db task =
      some_or (Map.get db.delivery_tasks task.task_id) invalid_data >>= λ stored.
      check_row db task stored stored.legacy_quarantined

  -- The upsert, with what it makes of the database if it writes.
  unfoldable pub write_or_check :
      Database → Database → DurableTask → Bool → Stored (Option Database)
  write_or_check new_db db task true = done (some new_db)
  write_or_check new_db db task false = check_suppressed db task

  -- One round of the loop over the batch: `none` is the early return with
  -- `ReconciliationRequired`.
  unfoldable pub upsert_task : Database → DurableTask → Text → Stored (Option Database)
  upsert_task db task json = do
    validate_durable_for_store codec task
    let existing = Map.get db.delivery_tasks task.task_id
    require (not (is_some_and existing (λ row. row.legacy_quarantined))) invalid_data
    row ← encode_durable_task codec task
    write_or_check (written db task json row) db task (is_newer row existing)

  unfoldable pub upsert_tasks : Database → List (DurableTask × Text) → Stored (Option Database)
  upsert_tasks db [] = done (some db)
  upsert_tasks db ((task, json) ∷ encoded) = upsert_task db task json >>= λ result.
      unless_suppressed result (λ db'. upsert_tasks db' encoded)

  -- The transaction of `commit`: `none` is a transaction that is rolled back.
  unfoldable pub commit_ledger :
      Database → PersistenceBatch → List (DurableTask × Text) → Stored (Option Database)
  commit_ledger db batch encoded = do
    require (db.user_version == schema_version) invalid_data
    db1 ← raise_epoch db batch.registration_epoch_high_watermark
    db2 ← delete_tasks db1 batch.delete_task_ids
    require (leb (count_retained db2 + count_new db2 [] encoded) max_retained) invalid_data
    upsert_tasks db2 encoded

  -- `apply_pending_projections`, whose errors leave the database as it was.
  unfoldable pub settle_projections : Database → PersistenceCommitOutcome × Database
  settle_projections db = elim (apply_pending_projections codec db) [
    | done applied ↦ (complete, applied.1)
    | failed _ ↦ (reconciliation_required, db)
    | panicked ↦ (reconciliation_required, db)
  ]

  -- What follows the transaction.
  unfoldable pub finish_commit :
      Database
      → Registry
      → List Text
      → Stored (Option Database)
      → Result PersistenceCommitOutcome × Database × Registry
  finish_commit db admissions deleted (done none) =
      (ok reconciliation_required, (settle_projections db).1, admissions)
  finish_commit db admissions deleted (done (some db')) =
      let (outcome, db'') = settle_projections db' in
      (ok outcome, db'', retire_sdk_projection_admissions admissions deleted)
  finish_commit db admissions deleted _ = (err persistence_unavailable, db, admissions)

  -- What follows the encoding of the batch.
  unfoldable pub commit_encoded :
      PersistenceBatch
      → Database
      → Registry
      → Stored (List (DurableTask × Text))
      → Result PersistenceCommitOutcome × Database × Registry
  commit_encoded batch db admissions (done encoded) =
      finish_commit db admissions batch.delete_task_ids (commit_ledger db batch encoded)
  commit_encoded batch db admissions _ = (err persistence_unavailable, db, admissions)

  -- The database and the admissions, before and after.
  unfoldable pub commit :
      PersistenceBatch → Database × Registry → Result PersistenceCommitOutcome × Database × Registry
  commit batch (db, admissions) =
      commit_encoded batch db admissions (encode_batch batch.upsert_tasks)
