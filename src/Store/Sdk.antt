-- ===== src/Store/Sdk.antt =====
-- The projections that the A2A SDK stores: `authorize_sdk_projection` and `apply_sdk_projection`.
-- Of crates/herdr-a2a-broker/src/store.rs.
use herdr_a2a.Base.{
  ℕ, ◌<◌, ◌≡◌, refl, ap, ◌∙◌, subst, Bool, true, false, ◌&&◌, not, Option, none, some, ◌==◌, Text,
  text_eq,
}
use herdr_a2a.Base.Map
use herdr_a2a.Base.Outcome.{
  Outcome, done, failed, panicked, ◌>>=◌, ◌>>◌, require, done-injective, >>=-eq-done,
}
use herdr_a2a.Core.Durability.{DurableTask}
use herdr_a2a.Store.Admissions.{
  ProjectionFingerprint, SdkProjectionAdmission, Queue, Registry, AdmissionError, record_admission,
  consume, incarnation_of,
}
use herdr_a2a.Store.Admissions.Matching.{IsAdmissionOf, IsIn, consume-registered}
use herdr_a2a.Store.Ledger.{Codec, Stored, invalid_data, projection_not_authorized, Database}
use herdr_a2a.Store.Ledger.Projection.{
  TaskColumns, columns_of_task, apply_authorized_projection, clean_authoritative_projection,
}

-- The errors of the two methods, by their messages.
pub data SdkError : Type 0 where
  invalid_task database not_authoritative not_authorized sequence_exhausted : SdkError

-- `map_err` of a result of the ledger, and of the registry.
abbrev ledger_result : {A : Type 0} → SdkError → Stored A → Outcome SdkError A
ledger_result e (done a) = done a
ledger_result e (failed _) = failed e
ledger_result e panicked = panicked

ledger_result-done :
    {A : Type 0} (e : SdkError) (result : Stored A) {a : A}
    → ledger_result e result ≡ done a
    → result ≡ done a
ledger_result-done e (done _) h = ap done (done-injective h)
ledger_result-done e (failed _) h = cc
ledger_result-done e panicked h = cc

abbrev registry_result : {A : Type 0} → Outcome AdmissionError A → Outcome SdkError A
registry_result (done a) = done a
registry_result (failed _) = failed sequence_exhausted
registry_result panicked = panicked

-- What `apply_authorized_projection` leaves: the version, whether the projection may have been
-- superseded, and the database of the transaction.
abbrev Application : Type 0
Application = ℕ × Bool × Database

unfoldable pub classify : Database → Stored (ℕ × Database) → Outcome SdkError Application
classify db (done applied) = done (applied.0, false, applied.1)
classify db (failed projection_not_authorized) = done (0, true, db)
classify db (failed invalid_data) = failed database
classify db panicked = panicked

-- The version that is returned, the database and the admissions.
abbrev pub Applied : Type 0
Applied = Outcome SdkError ℕ × Database × Registry

-- The end of the transaction, with what `consume` gives.
unfoldable pub close_transaction :
    Application → Database → Registry → ℕ → Option SdkProjectionAdmission × Registry → Applied
close_transaction (version, true, db') db admissions current (none, _) =
    (failed not_authorized, db, admissions)
close_transaction (version, superseded, db') db admissions current (consumed, admissions') =
    (done current, db', admissions')

closed-some :
    (version : ℕ) (db' db : Database) (admissions : Registry) (current : ℕ)
    (result : Option SdkProjectionAdmission × Registry) {v : ℕ}
    → (close_transaction (version, true, db') db admissions current result).0 ≡ done v
    → (a : SdkProjectionAdmission) × (result.0 ≡ some a) × (current ≡ v)
unfolding close_transaction
closed-some version db' db admissions current (none, _) h = cc
closed-some version db' db admissions current (some a, _) h = (a, refl, done-injective h)

module _ {Task : Type 0} (codec : Codec Task) (digest : Text → ProjectionFingerprint) where
  -- `Err(_) if superseded` and the other errors of `clean_authoritative_projection`
  abbrev authoritative_error : Bool → SdkError
  authoritative_error true = not_authorized
  authoritative_error false = database

  unfoldable pub check_version : Application → DurableTask → Outcome SdkError (Unit {0})
  check_version (version, superseded, db') durable =
      require (not (not superseded && not (version == durable.state_version))) database

  -- The transaction after the task's authoritative state has been read.
  unfoldable pub consume_admission :
      TaskColumns → Application → Database → Registry → Outcome SdkError DurableTask → Applied
  consume_admission columns application db admissions (done durable) =
      close_transaction application db admissions durable.state_version (
        consume admissions columns.task_id (digest columns.task_json) durable.state_version
          (incarnation_of durable) (application.1))
  consume_admission columns application db admissions (failed e) = (failed e, db, admissions)
  consume_admission columns application db admissions panicked = (panicked, db, admissions)

  unfoldable pub authoritative : TaskColumns → Application → Outcome SdkError DurableTask
  authoritative columns application =
      ledger_result (authoritative_error (application.1))
        (clean_authoritative_projection codec (application.2) columns.task_id)
      >>= λ clean. check_version application (clean.0) >> done (clean.0)

  unfoldable pub apply_columns :
      TaskColumns → Database → Registry → Outcome SdkError Application → Applied
  apply_columns columns db admissions (done application) =
      consume_admission columns application db admissions (authoritative columns application)
  apply_columns columns db admissions (failed e) = (failed e, db, admissions)
  apply_columns columns db admissions panicked = (panicked, db, admissions)

  unfoldable pub apply_encoded : Stored TaskColumns → Database → Registry → Applied
  apply_encoded (done columns) db admissions =
      apply_columns columns db admissions
        (classify db (apply_authorized_projection codec db columns))
  apply_encoded _ db admissions = (failed invalid_task, db, admissions)

  unfoldable pub apply_sdk_projection : Task → Database → Registry → Applied
  apply_sdk_projection task db admissions = apply_encoded (columns_of_task codec task) db admissions

  unfoldable pub authorize_sdk_projection : Task → Database → Registry → Outcome SdkError Registry
  authorize_sdk_projection task db admissions = do
    columns ← ledger_result invalid_task (columns_of_task codec task)
    clean ← ledger_result database (clean_authoritative_projection codec db columns.task_id)
    require (text_eq (clean.1) columns.task_json) not_authoritative
    registry_result (
        record_admission admissions columns.task_id (digest columns.task_json)
          (clean.0.state_version) (incarnation_of (clean.0)))

  -- The task's row reads back as a task of this version and agrees with its projection, and the
  -- registry holds under the task's id an admission of this projection for this incarnation of the
  -- task, of an earlier version.
  unfoldable pub WasAdmitted : Database → Registry → TaskColumns → ℕ → Type 0
  WasAdmitted db admissions columns version =
      (durable : DurableTask) × (json : Text) × (clean_authoritative_projection codec db
          columns.task_id
        ≡ done (durable, json))
      × (durable.state_version ≡ version)
      × (queue : Queue) × (a : SdkProjectionAdmission) × (Map.get admissions.by_task columns.task_id
          ≡ some queue)
      × IsIn a queue
      × (a.fingerprint ≡ digest columns.task_json)
      × (a.incarnation ≡ incarnation_of durable)
      × (a.version < version)

  authoritative-read :
      (columns : TaskColumns) (version : ℕ) (db : Database) {durable : DurableTask}
      → authoritative columns (version, true, db) ≡ done durable
      → (json : Text) × (clean_authoritative_projection codec db columns.task_id
          ≡ done (durable, json))
  unfolding authoritative check_version
  authoritative-read columns version db {durable} h =
      let (clean, e, h1) =
        >>=-eq-done
          (ledger_result not_authorized (clean_authoritative_projection codec db columns.task_id)) _
          h in
      let same : clean.0 ≡ durable = done-injective h1 in
      (
        clean.1,
        ledger_result-done not_authorized (clean_authoritative_projection codec db columns.task_id)
              e
            ∙ ap (λ d. done (d, clean.1)) same,
      )

  superseded-admitted :
      (columns : TaskColumns) (version : ℕ) (db : Database) (admissions : Registry)
      (result : Outcome SdkError DurableTask) {v : ℕ}
      → authoritative columns (version, true, db) ≡ result
      → (consume_admission columns (version, true, db) db admissions result).0 ≡ done v
      → WasAdmitted db admissions columns v
  unfolding consume_admission WasAdmitted IsAdmissionOf
  superseded-admitted columns version db admissions (failed _) r h = cc
  superseded-admitted columns version db admissions panicked r h = cc
  superseded-admitted columns version db admissions (done durable) {v} r h =
      let (a, taken, same) =
        closed-some version db db admissions durable.state_version
          (consume admissions columns.task_id (digest columns.task_json) durable.state_version
            (incarnation_of durable) true)
          h in
      let (json, read) = authoritative-read columns version db r in
      let (queue, found, member, matching, earlier) =
        consume-registered admissions columns.task_id (digest columns.task_json)
          durable.state_version (incarnation_of durable) taken in
      (
        durable,
        json,
        read,
        same,
        queue,
        a,
        found,
        member,
        matching.0,
        matching.1,
        subst (λ n. a.version < n) same earlier,
      )

  -- If the ledger does not authorize a projection and apply_sdk_projection succeeds on it all the
  -- same, then the version it returns is that of the task in the database, whose row agrees with
  -- its stored projection, and the registry holds under the task's id an admission of the very
  -- projection (by its digest), for the same incarnation as the task in the database and of an
  -- earlier version than the one returned.
  pub apply_sdk_projection-admitted :
      (task : Task) (columns : TaskColumns) (db : Database) (admissions : Registry) {v : ℕ}
      → columns_of_task codec task ≡ done columns
      → apply_authorized_projection codec db columns ≡ failed projection_not_authorized
      → (apply_sdk_projection task db admissions).0 ≡ done v
      → WasAdmitted db admissions columns v
  unfolding apply_sdk_projection apply_encoded classify apply_columns
  apply_sdk_projection-admitted task columns db admissions e refused h =
      superseded-admitted columns 0 db admissions (authoritative columns (0, true, db)) refl
        (rw (apply_sdk_projection, e, apply_encoded, refused) at h)
