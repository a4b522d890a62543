-- ===== src/Store/Ledger/Load.antt =====
-- `load` of the task store, after the checks of `validate_store`. Of
-- crates/herdr-a2a-broker/src/ledger.rs.
use herdr_a2a.Base.{
  ◌≡◌, subst, Bool, ◌&&◌, ◌||◌, not, List, [], ◌∷◌, leb, ◌==◌, is_some, is_none, is_some_and,
  length, retain, all, Text, text_eq, i64_of, u32_of, All,
}
use herdr_a2a.Base.Map.{Map}
use herdr_a2a.Base.Map
use herdr_a2a.Base.Outcome.{
  done, failed, panicked, ◌>>=◌, ◌>>◌, require, some_or, >>=-eq-done, done-injective, require_then,
  some_or_then,
}
use herdr_a2a.Core.Errors.{Result, ok, err, is_ok, persistence_unavailable}
use herdr_a2a.Core.Validation.{parse_agent_name}
use herdr_a2a.Core.Durability.{DurableTask, DurableBrokerSnapshot}
use herdr_a2a.Broker.Task.{validate_durable_task}
use herdr_a2a.Store.Ledger.{Codec, Stored, invalid_data, StoredTaskRow, OutboxRow, Database}
use herdr_a2a.Store.Ledger.Rows.{
  decode_durable_task, validate_durable_for_store, validated, positive_version, decode_payload,
  decode_reply, decode_state, decode_lease,
}
use herdr_a2a.Store.Ledger.Rows.Restored.{validate_durable_for_store-accepted}
use herdr_a2a.Store.Ledger.Projection.{
  projection_json, columns_of_task, row_of_columns, projection_eq, order_by_task_id,
  validate_outbox_entry,
}
use herdr_a2a.Store.Ledger.Epoch.{parse_canonical_u64}
use herdr_a2a.Store.Ledger.Commit.{schema_version, max_retained}

-- 'legacy_identity_unavailable'
abbrev pub legacy_state : Text
legacy_state =
    b'l' ∷ b'e' ∷ b'g' ∷ b'a' ∷ b'c' ∷ b'y' ∷ b'_' ∷ b'i' ∷ b'd' ∷ b'e' ∷ b'n' ∷ b't' ∷ b'i' ∷ b't'
    ∷ b'y' ∷ b'_' ∷ b'u' ∷ b'n' ∷ b'a' ∷ b'v' ∷ b'a' ∷ b'i' ∷ b'l' ∷ b'a' ∷ b'b' ∷ b'l' ∷ b'e' ∷ []

-- The rows that the count of `invalid_quarantine` leaves out.
unfoldable pub is_quarantine_valid : StoredTaskRow → Bool
is_quarantine_valid row =
    not row.legacy_quarantined
    || (is_none row.sender_agent
        && (text_eq row.state legacy_state && is_some row.retain_until_unix_ms))

-- `WHERE legacy_quarantined = 0 ORDER BY task_id`
unfoldable pub retained_rows : Database → List (Text × StoredTaskRow)
retained_rows db = order_by_task_id (retain (λ r. not (r.1.legacy_quarantined)) db.delivery_tasks)

module _ {Task : Type 0} (codec : Codec Task) where
  open codec use {platform, parse_task}

  unfoldable pub validate_outbox : Database → List (Text × OutboxRow) → Stored (Unit {0})
  validate_outbox db [] = done tt
  validate_outbox db ((task_id, entry) ∷ entries) = do
    validate_outbox_entry codec db task_id entry
    validate_outbox db entries

  -- One round of the last loop of `validate_store`.
  unfoldable pub validate_retained : Database → Text → StoredTaskRow → Stored (Unit {0})
  validate_retained db task_id row = do
    durable ← decode_durable_task codec row
    json ← projection_json codec durable
    task ← some_or (parse_task json) invalid_data
    expected ← columns_of_task codec task
    version ← some_or (i64_of durable.state_version) invalid_data
    require
        (is_some_and (Map.get db.tasks task_id)
            (λ stored. projection_eq stored (row_of_columns expected version))
          || is_some (Map.get db.projection_outbox task_id))
        invalid_data

  unfoldable pub validate_all_retained : Database → List (Text × StoredTaskRow) → Stored (Unit {0})
  validate_all_retained db [] = done tt
  validate_all_retained db ((task_id, row) ∷ rows) = do
    validate_retained db task_id row
    validate_all_retained db rows

  unfoldable pub validate_store : Database → Stored (Unit {0})
  validate_store db = do
    require (db.user_version == schema_version) invalid_data
    require (leb (length db.delivery_tasks) max_retained) invalid_data
    require (all (λ r. is_quarantine_valid (r.1)) db.delivery_tasks) invalid_data
    require (leb (length db.projection_outbox) (length db.delivery_tasks)) invalid_data
    validate_outbox db (order_by_task_id db.projection_outbox)
    validate_all_retained db (retained_rows db)

  unfoldable pub decode_rows : List (Text × StoredTaskRow) → Stored (List DurableTask)
  decode_rows [] = done []
  decode_rows ((task_id, row) ∷ rows) = do
    task ← decode_durable_task codec row
    tasks ← decode_rows rows
    done (task ∷ tasks)

  unfoldable pub load_snapshot : Database → Stored DurableBrokerSnapshot
  load_snapshot db = do
    validate_store db
    epoch ← parse_canonical_u64 db.last_registration_epoch
    tasks ← decode_rows (retained_rows db)
    done (record { last_registration_epoch = epoch; tasks = tasks })

  -- `map_err(|_| DomainError::PersistenceUnavailable)`
  unfoldable pub available : Stored DurableBrokerSnapshot → Result DurableBrokerSnapshot
  available (done snapshot) = ok snapshot
  available _ = err persistence_unavailable

  -- `load`
  unfoldable pub load : Database → Result DurableBrokerSnapshot
  load db = available (load_snapshot db)

  validated-valid :
      (t : DurableTask) {task : DurableTask}
      → validated codec t ≡ done task
      → validate_durable_for_store codec task ≡ done tt
  unfolding validated
  validated-valid t h =
      let (_, valid, last) = >>=-eq-done (validate_durable_for_store codec t) _ h in
      subst (λ x. validate_durable_for_store codec x ≡ done tt) (done-injective last) valid

  decode_durable_task-valid :
      (row : StoredTaskRow) {task : DurableTask}
      → decode_durable_task codec row ≡ done task
      → validate_durable_for_store codec task ≡ done tt
  unfolding decode_durable_task
  decode_durable_task-valid row h =
      let (_, h1) = require_then (not row.legacy_quarantined) _ _ h in
      let (_, _, h2) = some_or_then row.context_id _ _ h1 in
      let (sender, _, h3) = some_or_then row.sender_agent _ _ h2 in
      let (json, _, h4) = some_or_then row.request_json _ _ h3 in
      let (_, _, h5) = >>=-eq-done (positive_version codec row.state_version) _ h4 in
      let (attempt, _, h6) = some_or_then (u32_of row.attempt) _ _ h5 in
      let (_, h7) = require_then (is_ok (parse_agent_name sender)) _ _ h6 in
      let (_, h8) = require_then (is_ok (parse_agent_name row.recipient_agent)) _ _ h7 in
      let (_, _, h9) = >>=-eq-done (decode_payload codec json) _ h8 in
      let (_, _, h10) = >>=-eq-done (decode_reply codec row.reply_json) _ h9 in
      let (_, _, h11) = >>=-eq-done (decode_state row.state) _ h10 in
      let (_, _, h12) =
        >>=-eq-done
          (decode_lease codec row.recipient_agent attempt row.delivery_id row.lease_expires_unix_ms)
          _ h11 in
      validated-valid _ h12

  decode_rows-accepted :
      (rows : List (Text × StoredTaskRow)) {tasks : List DurableTask}
      → decode_rows rows ≡ done tasks
      → All (λ t. validate_durable_task platform t ≡ ok tt) tasks
  unfolding decode_rows
  decode_rows-accepted [] h =
      subst (All (λ t. validate_durable_task platform t ≡ ok tt)) (done-injective h) tt
  decode_rows-accepted ((task_id, row) ∷ rows) h =
      let (task, e, h1) = >>=-eq-done (decode_durable_task codec row) _ h in
      let (tasks, rest, h2) = >>=-eq-done (decode_rows rows) _ h1 in
      subst (All (λ t. validate_durable_task platform t ≡ ok tt)) (done-injective h2) (
        validate_durable_for_store-accepted codec task (decode_durable_task-valid row e),
        decode_rows-accepted rows rest,
      )

  available-ok :
      (result : Stored DurableBrokerSnapshot) {snapshot : DurableBrokerSnapshot}
      → available result ≡ ok snapshot
      → result ≡ done snapshot
  unfolding available
  available-ok (done s) h = cc
  available-ok (failed e) h = cc
  available-ok panicked h = cc

  -- Every task of a snapshot that load returns passes the broker's validate_durable_task.
  pub load-accepted :
      (db : Database) {snapshot : DurableBrokerSnapshot}
      → load db ≡ ok snapshot
      → All (λ t. validate_durable_task platform t ≡ ok tt) snapshot.tasks
  unfolding load load_snapshot
  load-accepted db {snapshot} h =
      let loaded = available-ok (load_snapshot db) h in
      let (_, _, h1) = >>=-eq-done (validate_store db) _ loaded in
      let (_, _, h2) = >>=-eq-done (parse_canonical_u64 db.last_registration_epoch) _ h1 in
      let (tasks, e, h3) = >>=-eq-done (decode_rows (retained_rows db)) _ h2 in
      subst (λ s. All (λ t. validate_durable_task platform t ≡ ok tt) s.tasks) (done-injective h3)
        (decode_rows-accepted (retained_rows db) e)
