-- ===== src/Store/Ledger/Startup.antt =====
-- `prepare_startup`: the migration of the schema, the quarantine of tasks without a sender, and
-- their pruning. Of crates/herdr-a2a-broker/src/ledger.rs.
pub mod Pruned
use herdr_a2a.Base.{
  ℕ, ◌+◌, Bool, true, false, ◌&&◌, not, Option, none, some, List, [], ◌∷◌, leb, ltb, ◌==◌,
  if◌then◌else◌, is_none, is_some_and, length, retain, Text, text_eq, i64_zero, i64_add,
}
use herdr_a2a.Base.Map.{Map}
use herdr_a2a.Base.Map
use herdr_a2a.Base.Outcome.{Outcome, done, failed, panicked, ◌>>=◌, ◌>>◌, require, some_or}
use herdr_a2a.Core.Errors.{is_ok}
use herdr_a2a.Core.Model.{validate_task_id}
use herdr_a2a.Core.Validation.{parse_agent_name}
use herdr_a2a.Broker.Task.{terminal_retention_ms}
use herdr_a2a.Store.Ledger.{
  Codec, Stored, StoreError, invalid_data, StoredTaskRow, ProjectionRow, OwnerRow, Database,
}
use herdr_a2a.Store.Ledger.Projection.{order_by_task_id, apply_pending_projections}
use herdr_a2a.Store.Ledger.Commit.{schema_version, max_retained}
use herdr_a2a.Store.Ledger.Load.{legacy_state, validate_store}

-- `StoreRecoveryReport`
pub record StoreRecoveryReport : Type 0 where
  pub pruned_quarantined_tasks : ℕ
  pub repaired_projections : ℕ
  pub quarantined_legacy_tasks : ℕ

-- The row that stands for a task whose sender is not known.
abbrev pub quarantined_row : Text → Option Text → Text → ℕ → ℕ → ℕ → StoredTaskRow
quarantined_row task_id context_id recipient at state_version retain_until = record {
  task_id = task_id;
  context_id = context_id;
  sender_agent = none;
  recipient_agent = recipient;
  request_json = none;
  created_unix_ms = at;
  deadline_unix_ms = at;
  state = legacy_state;
  state_version = state_version;
  delivery_id = none;
  lease_expires_unix_ms = none;
  attempt = i64_zero;
  acknowledged_unix_ms = none;
  reply_json = none;
  terminal_unix_ms = some at;
  retain_until_unix_ms = some retain_until;
  legacy_quarantined = true;
}

abbrev insert_row : Database → StoredTaskRow → Database
insert_row db row = record db { delivery_tasks = Map.insert db.delivery_tasks row.task_id row }

-- One owner without a task, in `quarantine_owner_only_rows` and in `migrate_schema`.
unfoldable pub quarantine_owner : ℕ → ℕ → Database → Text → OwnerRow → Stored Database
quarantine_owner at retain_until db task_id owner = do
  require (is_ok (validate_task_id task_id)) invalid_data
  recipient ← some_or owner.recipient invalid_data
  require (is_ok (parse_agent_name recipient)) invalid_data
  done (insert_row db (quarantined_row task_id none recipient at (i64_zero + 1) retain_until))

unfoldable pub quarantine_owners : ℕ → ℕ → Database → List (Text × OwnerRow) → Stored Database
quarantine_owners at retain_until db [] = done db
quarantine_owners at retain_until db ((task_id, owner) ∷ owners) =
    quarantine_owner at retain_until db task_id owner >>= λ db'.
    quarantine_owners at retain_until db' owners

unfoldable pub quarantine_owner_only_rows : Database → Stored (ℕ × Database)
quarantine_owner_only_rows db = do
  require (db.user_version == schema_version) invalid_data
  require (leb i64_zero db.first_m2a_start_unix_ms) invalid_data
  retain_until ← some_or (i64_add db.first_m2a_start_unix_ms terminal_retention_ms) invalid_data
  let owner_only = order_by_task_id (
      retain (λ o. is_none (Map.get db.tasks (o.0)) && is_none (Map.get db.delivery_tasks (o.0)))
        db.task_owners)
  require (leb (length db.delivery_tasks + length owner_only) max_retained) invalid_data
  db' ← quarantine_owners db.first_m2a_start_unix_ms retain_until db owner_only
  done (length owner_only, db')

-- `legacy_quarantined = 1 AND retain_until_unix_ms <= ?1`
unfoldable pub is_prunable : ℕ → StoredTaskRow → Bool
is_prunable now row =
    row.legacy_quarantined && is_some_and row.retain_until_unix_ms (λ until. leb until now)

-- `DELETE FROM delivery_tasks WHERE task_id = ?1 AND …`, with the test of the selection again.
unfoldable pub delete_prunable : ℕ → Map StoredTaskRow → Text → Map StoredTaskRow
delete_prunable now rows task_id =
    if is_some_and (Map.get rows task_id) (is_prunable now) then Map.remove rows task_id else rows

-- The rows of the pruned tasks, in all tables.
unfoldable pub delete_rows : ℕ → Database → List (Text × StoredTaskRow) → Database
delete_rows now db [] = db
delete_rows now db ((task_id, row) ∷ rows) =
    delete_rows now
      (record db {
        projection_outbox = Map.remove db.projection_outbox task_id;
        task_owners = Map.remove db.task_owners task_id;
        tasks = Map.remove db.tasks task_id;
        delivery_tasks = delete_prunable now db.delivery_tasks task_id;
      })
      rows

unfoldable pub prune_quarantined : ℕ → Database → ℕ × Database
prune_quarantined now db =
    let rows = order_by_task_id (retain (λ r. is_prunable now (r.1)) db.delivery_tasks) in
    (length rows, delete_rows now db rows)

-- "0"
abbrev zero_epoch : Text
zero_epoch = b'0' ∷ []

-- The tables of `M2A_SCHEMA`, empty.
abbrev with_schema : ℕ → Database → Database
with_schema now db = record db {
  last_registration_epoch = zero_epoch;
  first_m2a_start_unix_ms = now;
  delivery_tasks = [];
  projection_outbox = [];
}

module _ {Task : Type 0} (codec : Codec Task) where
  open codec use {parse_task, id_of, context_of, parse_timestamp}

  -- One stored task of before the schema, in `migrate_schema`.
  unfoldable pub migrate_task : Database → Text → ProjectionRow → Stored Database
  migrate_task db task_id row = do
    require (is_ok (validate_task_id task_id)) invalid_data
    require (is_ok (validate_task_id row.context_id)) invalid_data
    owner ← some_or (Map.get db.task_owners task_id) invalid_data
    recipient ← some_or owner.recipient invalid_data
    require (is_ok (parse_agent_name recipient)) invalid_data
    require (ltb i64_zero row.version) invalid_data
    task ← some_or (parse_task row.task_json) invalid_data
    require (text_eq (id_of task) task_id && text_eq (context_of task) row.context_id) invalid_data
    status_unix_ms ← some_or (parse_timestamp row.status_timestamp) invalid_data
    retain_until ← some_or (i64_add status_unix_ms terminal_retention_ms) invalid_data
    done (
        insert_row db (
          quarantined_row task_id (some row.context_id) recipient status_unix_ms row.version
            retain_until))

  unfoldable pub migrate_tasks : Database → List (Text × ProjectionRow) → Stored Database
  migrate_tasks db [] = done db
  migrate_tasks db ((task_id, row) ∷ rows) =
      migrate_task db task_id row >>= λ db'. migrate_tasks db' rows

  -- `migrate_schema` of a database without the schema
  unfoldable pub create_schema : ℕ → Database → Stored (ℕ × Database)
  create_schema now db = do
    require (db.user_version == 0) invalid_data
    db1 ← migrate_tasks (with_schema now db) (order_by_task_id db.tasks)
    retain_until ← some_or (i64_add now terminal_retention_ms) invalid_data
    db2 ←
        quarantine_owners now retain_until db1
          (order_by_task_id (retain (λ o. is_none (Map.get db.tasks (o.0))) db.task_owners))
    require (leb (length db2.delivery_tasks) max_retained) invalid_data
    done (length db2.delivery_tasks, record db2 { user_version = schema_version })

  unfoldable pub migrate_schema : ℕ → Database → Stored (ℕ × Database)
  migrate_schema now db =
      if db.user_version == schema_version then done (0, db) else create_schema now db

  abbrev count_quarantined : Database → ℕ
  count_quarantined db = length (retain (λ r. r.1.legacy_quarantined) db.delivery_tasks)

  -- A transaction that commits or is rolled back, and what follows it.
  abbrev transact :
      Stored (ℕ × Database)
      → Database
      → (ℕ → Database → Stored StoreRecoveryReport × Database)
      → Stored StoreRecoveryReport × Database
  transact (done applied) db next = next (applied.0) (applied.1)
  transact (failed e) db next = (failed e, db)
  transact panicked db next = (panicked, db)

  abbrev unless_invalid :
      Stored (Unit {0})
      → Database
      → Stored StoreRecoveryReport × Database
      → Stored StoreRecoveryReport × Database
  unless_invalid (done _) db next = next
  unless_invalid (failed e) db next = (failed e, db)
  unless_invalid panicked db next = (panicked, db)

  unfoldable pub prepare_startup : ℕ → Database → Stored StoreRecoveryReport × Database
  prepare_startup now db = unless_invalid (require (leb i64_zero now) invalid_data) db (
      transact (migrate_schema now db) db (λ migrated db1.
        transact (quarantine_owner_only_rows db1) db1 (λ newly_quarantined db2.
          let (pruned, db3) = prune_quarantined now db2 in
          unless_invalid (validate_store codec db3) db3 (
            transact (apply_pending_projections codec db3) db3 (λ repaired db4. (
              done (record {
                pruned_quarantined_tasks = pruned;
                repaired_projections = repaired;
                quarantined_legacy_tasks =
                    if ltb 0 (migrated + newly_quarantined) then count_quarantined db3 else 0;
              }),
              db4,
            ))))))
