-- ===== src/Store/Ledger/Commit/Atomic.antt =====
-- What `commit` as a whole makes of the database and of the admissions, on each of its outcomes.
use herdr_a2a.Base.{
  ℕ, ◌≡◌, refl, sym, ap, ◌∙◌, subst, true, false, Option, none, some, List, [], ◌∷◌, map, inl, inr,
  leb, ◌==◌, ◌+◌, Text, text_eq, Option-cases, All, u64_of,
}
use herdr_a2a.Base.Map
use herdr_a2a.Base.Outcome.{
  done, failed, panicked, ◌>>=◌, >>=-eq-done, require_then, some_or_then, done-injective,
}
use herdr_a2a.Core.Errors.{ok}
use herdr_a2a.Core.Durability.{DurableTask, PersistenceBatch, complete}
use herdr_a2a.Store.Admissions.{Registry}
use herdr_a2a.Store.Ledger.{Codec, Stored, OutboxRow, Database}
use herdr_a2a.Store.Ledger.Projection.{
  TaskColumns, columns_of_task, validate_outbox_entry, upserted, store_projection, known_projection,
  apply_authorized_projection, apply_pending, apply_all_pending, apply_pending_projections,
  projection_json, order_by_task_id,
}
use herdr_a2a.Store.Ledger.Rows.{positive_version}
use herdr_a2a.Store.Ledger.Commit.{
  raise_epoch, delete_tasks, encode_batch, commit_ledger, settle_projections, finish_commit,
  commit_encoded, commit, upsert_tasks, count_retained, count_new, max_retained, schema_version,
}
use herdr_a2a.Store.Ledger.Commit.Stores.{IsStored, IsStorable, DistinctIds, upsert_tasks-IsStored}

-- The two databases have the same tasks, owners and registration epoch.
abbrev pub SameLedger : Database → Database → Type 0
SameLedger db db' =
    (db'.delivery_tasks ≡ db.delivery_tasks)
    × (db'.task_owners ≡ db.task_owners)
    × (db'.last_registration_epoch ≡ db.last_registration_epoch)

SameLedger-trans : (a b c : Database) → SameLedger a b → SameLedger b c → SameLedger a c
SameLedger-trans a b c (t, o, e) (t', o', e') = (t' ∙ t, o' ∙ o, e' ∙ e)

module _ {Task : Type 0} (codec : Codec Task) where
  store_projection-ledger :
      (db : Database) (columns : TaskColumns) (entry : OutboxRow) {applied : ℕ × Database}
      → store_projection codec db columns entry ≡ done applied
      → SameLedger db (applied.1)
  unfolding store_projection
  store_projection-ledger db columns entry {applied} h =
      let (_, _, h1) = >>=-eq-done (validate_outbox_entry codec db columns.task_id entry) _ h in
      let (_, h2) = require_then _ _ _ h1 in
      let (_, _, h3) = some_or_then (Map.get (upserted db columns entry) columns.task_id) _ _ h2 in
      let (_, h4) = require_then _ _ _ h3 in
      let (_, _, h5) = >>=-eq-done (positive_version codec entry.state_version) _ h4 in
      subst (λ a. SameLedger db (a.1)) (done-injective h5) (refl, refl, refl)

  apply_authorized-ledger :
      (db : Database) (columns : TaskColumns) {applied : ℕ × Database}
      → apply_authorized_projection codec db columns ≡ done applied
      → SameLedger db (applied.1)
  unfolding apply_authorized_projection
  apply_authorized-ledger db columns {applied} h =
      elim (Option-cases (Map.get db.projection_outbox columns.task_id)) [
        | inl e ↦
            let known : (known_projection codec (Map.get db.tasks columns.task_id) columns
                  >>= λ version. done (version, db))
                ≡ done applied =
              rw (apply_authorized_projection, e) at h in
            let (_, _, h1) =
              >>=-eq-done (known_projection codec (Map.get db.tasks columns.task_id) columns)
                (λ version. done (version, db)) known in
            subst (λ a. SameLedger db (a.1)) (done-injective h1) (refl, refl, refl)
        | inr (entry, e) ↦
            store_projection-ledger db columns entry (rw (apply_authorized_projection, e) at h)
      ]

  apply_pending-ledger :
      (db : Database) (task_id : Text) (entry : OutboxRow) {db' : Database}
      → apply_pending codec db task_id entry ≡ done db'
      → SameLedger db db'
  unfolding apply_pending
  apply_pending-ledger db task_id entry {db'} h =
      let (task, _, h1) = some_or_then (codec.parse_task entry.task_json) _ _ h in
      let (_, h2) = require_then _ _ _ h1 in
      let (columns, _, h3) = >>=-eq-done (columns_of_task codec task) _ h2 in
      let (applied, e, h4) = >>=-eq-done (apply_authorized_projection codec db columns) _ h3 in
      let (_, _, h5) = some_or_then (u64_of entry.state_version) _ _ h4 in
      let (_, h6) = require_then _ _ _ h5 in
      subst (SameLedger db) (done-injective h6) (apply_authorized-ledger db columns e)

  apply_all_pending-ledger :
      (db : Database) (pending : List (Text × OutboxRow)) {db' : Database}
      → apply_all_pending codec db pending ≡ done db'
      → SameLedger db db'
  unfolding apply_all_pending
  apply_all_pending-ledger db [] h = subst (SameLedger db) (done-injective h) (refl, refl, refl)
  apply_all_pending-ledger db ((task_id, entry) ∷ pending) {db'} h =
      let (db1, e, h1) =
        >>=-eq-done (apply_pending codec db task_id entry) (λ d. apply_all_pending codec d pending)
          h in
      SameLedger-trans db db1 db' (apply_pending-ledger db task_id entry e)
        (apply_all_pending-ledger db1 pending h1)

  settled-ledger :
      (db : Database) (applied : Stored (ℕ × Database))
      → apply_pending_projections codec db ≡ applied
      → SameLedger db ((settle_projections codec db).1)
  unfolding settle_projections apply_pending_projections
  settled-ledger db (done applied) e =
      let (db', all_applied, last) =
        >>=-eq-done (apply_all_pending codec db (order_by_task_id db.projection_outbox)) _ e in
      rw (settle_projections, e)
        (subst (λ a. SameLedger db (a.1)) (done-injective last)
          (apply_all_pending-ledger db (order_by_task_id db.projection_outbox) all_applied))
  settled-ledger db (failed _) e = rw (settle_projections, e) (refl, refl, refl)
  settled-ledger db panicked e = rw (settle_projections, e) (refl, refl, refl)

  -- Storing the pending projections leaves the tasks, the owners and the registration epoch alone.
  pub settle_projections-ledger : (db : Database) → SameLedger db ((settle_projections codec db).1)
  settle_projections-ledger db = settled-ledger db (apply_pending_projections codec db) refl

  -- What encode_batch gives is the batch's tasks with their projections.
  encode_batch-tasks :
      (tasks : List DurableTask) {encoded : List (DurableTask × Text)}
      → encode_batch codec tasks ≡ done encoded
      → map (λ e. e.0) encoded ≡ tasks
  unfolding encode_batch
  encode_batch-tasks [] h = ap (map (λ e. e.0)) (sym (done-injective h))
  encode_batch-tasks (task ∷ tasks) h =
      let (json, _, h1) = >>=-eq-done (projection_json codec task) _ h in
      let (rest, e, h2) = >>=-eq-done (encode_batch codec tasks) _ h1 in
      ap (map (λ x. x.0)) (sym (done-injective h2))
      ∙ ap (λ x. task ∷ x) (encode_batch-tasks tasks e)

  finish_commit-complete :
      (db : Database) (admissions : Registry) (deleted : List Text)
      (result : Stored (Option Database))
      → (finish_commit codec db admissions deleted result).0 ≡ ok complete
      → (db1 : Database) × (result ≡ done (some db1))
        × SameLedger db1 ((finish_commit codec db admissions deleted result).1)
  unfolding finish_commit
  finish_commit-complete db admissions deleted (done none) h = cc
  finish_commit-complete db admissions deleted (done (some db1)) h =
      (db1, refl, settle_projections-ledger db1)
  finish_commit-complete db admissions deleted (failed e) h = cc
  finish_commit-complete db admissions deleted panicked h = cc

  pub commit_encoded-complete :
      (batch : PersistenceBatch) (db : Database) (admissions : Registry)
      (result : Stored (List (DurableTask × Text)))
      → (commit_encoded codec batch db admissions result).0 ≡ ok complete
      → (encoded : List (DurableTask × Text)) × (result ≡ done encoded)
        × (db1 : Database) × (commit_ledger codec db batch encoded ≡ done (some db1))
        × SameLedger db1 ((commit_encoded codec batch db admissions result).1)
  unfolding commit_encoded
  commit_encoded-complete batch db admissions (done encoded) h =
      let (db1, e, same) =
        finish_commit-complete db admissions batch.delete_task_ids
          (commit_ledger codec db batch encoded) h in
      (encoded, refl, db1, e, same)
  commit_encoded-complete batch db admissions (failed e) h = cc
  commit_encoded-complete batch db admissions panicked h = cc

  -- The steps of the transaction that commits.
  pub commit_ledger-steps :
      (db : Database) (batch : PersistenceBatch) (encoded : List (DurableTask × Text))
      {result : Option Database}
      → commit_ledger codec db batch encoded ≡ done result
      → (db1 db2 : Database) × (raise_epoch db batch.registration_epoch_high_watermark ≡ done db1)
        × (delete_tasks db1 batch.delete_task_ids ≡ done db2)
        × (leb (count_retained db2 + count_new db2 [] encoded) max_retained ≡ true)
        × (upsert_tasks codec db2 encoded ≡ done result)
  unfolding commit_ledger
  commit_ledger-steps db batch encoded h =
      let (_, h1) = require_then (db.user_version == schema_version) _ _ h in
      let (db1, e1, h2) =
        >>=-eq-done (raise_epoch db batch.registration_epoch_high_watermark) _ h1 in
      let (db2, e2, h3) = >>=-eq-done (delete_tasks db1 batch.delete_task_ids) _ h2 in
      let (room, h4) = require_then _ _ _ h3 in (db1, db2, e1, e2, room, h4)

  IsStored-in :
      (db db' : Database) (task : DurableTask)
      → SameLedger db db'
      → IsStored codec db task
      → IsStored codec db' task
  unfolding IsStored
  IsStored-in db db' task (same, _, _) (row, e, read) =
      (row, ap (λ m. Map.get m task.task_id) same ∙ e, read)

  All-IsStored-in :
      (db db' : Database) (encoded : List (DurableTask × Text))
      → SameLedger db db'
      → All (λ e. IsStored codec db (e.0)) encoded
      → All (IsStored codec db') (map (λ e. e.0) encoded)
  All-IsStored-in db db' [] same _ = tt
  All-IsStored-in db db' ((task, json) ∷ encoded) same (here, rest) =
      (IsStored-in db db' task same here, All-IsStored-in db db' encoded same rest)

  -- Distinct ids, and tasks that can be read back, of the batch's tasks alone.
  unfoldable pub HasDistinctIds : List DurableTask → Type 0
  HasDistinctIds [] = Unit
  HasDistinctIds (task ∷ tasks) =
      All (λ t. text_eq t.task_id task.task_id ≡ false) tasks × HasDistinctIds tasks

  All-encoded :
      (P : DurableTask → Type 0) (encoded : List (DurableTask × Text))
      → All P (map (λ e. e.0) encoded)
      → All (λ e. P (e.0)) encoded
  All-encoded P [] _ = tt
  All-encoded P ((task, json) ∷ encoded) (here, rest) = (here, All-encoded P encoded rest)

  distinct_encoded :
      (encoded : List (DurableTask × Text))
      → HasDistinctIds (map (λ e. e.0) encoded)
      → DistinctIds codec encoded
  unfolding HasDistinctIds DistinctIds
  distinct_encoded [] _ = tt
  distinct_encoded ((task, json) ∷ encoded) (other, rest) = (
    All-encoded (λ t. text_eq t.task_id task.task_id ≡ false) encoded other,
    distinct_encoded encoded rest,
  )

  -- If commit reports complete for a batch whose tasks have distinct ids, and each of whose tasks
  -- has payloads that are parsed from the JSON printed for them, a delivery id on its lease (if any) and an
  -- attempt that is a u32, then the database has a row for each of the batch's tasks that is read
  -- back as that task.
  pub commit-IsStored :
      (batch : PersistenceBatch) (db : Database) (admissions : Registry)
      → All (IsStorable codec) batch.upsert_tasks
      → HasDistinctIds batch.upsert_tasks
      → (commit codec batch (db, admissions)).0 ≡ ok complete
      → All (IsStored codec ((commit codec batch (db, admissions)).1)) batch.upsert_tasks
  unfolding commit
  commit-IsStored batch db admissions able distinct h =
      let (encoded, e, db1, ledger, same) =
        commit_encoded-complete batch db admissions (encode_batch codec batch.upsert_tasks) h in
      let (_, db2, _, _, _, upserts) = commit_ledger-steps db batch encoded ledger in
      let tasks = encode_batch-tasks batch.upsert_tasks e in
      subst (All (IsStored codec ((commit codec batch (db, admissions)).1))) tasks (
        All-IsStored-in db1 ((commit codec batch (db, admissions)).1) encoded same (
          upsert_tasks-IsStored codec db2 encoded
            (All-encoded (IsStorable codec) encoded
              (subst (All (IsStorable codec)) (sym tasks) able))
            (distinct_encoded encoded (subst HasDistinctIds (sym tasks) distinct)) upserts))
