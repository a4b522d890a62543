-- ===== src/Store/Ledger/Commit/Refused.antt =====
-- The batches that `commit` of crates/herdr-a2a-broker/src/store.rs does not take.
use herdr_a2a.Base.{
  ◌≡◌, ◌≢◌, ◌⊎◌, refl, subst, true, false, Option, List, [], ◌∷◌, ◌++◌, inl, inr, ◌==◌, Text, All,
  arith,
}
use herdr_a2a.Base.Outcome.{done, failed, panicked, >>=-eq-done, require_then}
use herdr_a2a.Core.Errors.{err, is_ok, persistence_unavailable}
use herdr_a2a.Core.Model.{validate_task_id}
use herdr_a2a.Core.Durability.{DurableTask, PersistenceBatch}
use herdr_a2a.Store.Admissions.{Registry}
use herdr_a2a.Store.Ledger.{Codec, Stored, Database}
use herdr_a2a.Store.Ledger.Projection.{projection_json, project}
use herdr_a2a.Store.Ledger.Rows.{validate_durable_for_store}
use herdr_a2a.Store.Ledger.Commit.{
  encode_batch, delete_tasks, commit_ledger, finish_commit, commit_encoded, commit, schema_version,
}
use herdr_a2a.Store.Ledger.Commit.Atomic.{commit_ledger-steps}

All-middle :
    {A : Type 0} (P : A → Type 0) (before : List A) (x : A) (after : List A)
    → All P (before ++ (x ∷ after))
    → P x
All-middle P [] x after (here, _) = here
All-middle P (_ ∷ before) x after (_, rest) = All-middle P before x after rest

deleted-valid :
    (ids : List Text) (db : Database) {db' : Database}
    → delete_tasks db ids ≡ done db'
    → All (λ id. is_ok (validate_task_id id) ≡ true) ids
unfolding delete_tasks
deleted-valid [] db h = tt
deleted-valid (id ∷ ids) db h =
    let (valid, h1) = require_then _ _ _ h in (valid, deleted-valid ids _ h1)

module _ {Task : Type 0} (codec : Codec Task) where
  projected-valid :
      (task : DurableTask) {json : Text}
      → projection_json codec task ≡ done json
      → validate_durable_for_store codec task ≡ done tt
  unfolding projection_json project
  projected-valid task h =
      let (projection, e, _) = >>=-eq-done (project codec task) _ h in
      let (_, valid, _) = >>=-eq-done (validate_durable_for_store codec task) _ e in valid

  encoded-valid :
      (tasks : List DurableTask) {encoded : List (DurableTask × Text)}
      → encode_batch codec tasks ≡ done encoded
      → All (λ task. validate_durable_for_store codec task ≡ done tt) tasks
  unfolding encode_batch
  encoded-valid [] h = tt
  encoded-valid (task ∷ tasks) h =
      let (_, e, h1) = >>=-eq-done (projection_json codec task) _ h in
      let (_, es, _) = >>=-eq-done (encode_batch codec tasks) _ h1 in
      (projected-valid task e, encoded-valid tasks es)

  -- The database is of another schema, a task that the batch stores is not valid for the store, or
  -- an id that it deletes is not a task id.
  unfoldable pub HasDefect : Database → PersistenceBatch → Type 0
  HasDefect db batch =
      (db.user_version ≢ 1)
      ⊎ (((before : List DurableTask) × (task : DurableTask) × (after : List DurableTask)
            × (batch.upsert_tasks ≡ before ++ (task ∷ after))
            × (validate_durable_for_store codec task ≢ done tt))
          ⊎ ((before : List Text) × (id : Text) × (after : List Text) × (batch.delete_task_ids
                ≡ before ++ (id ∷ after))
              × (is_ok (validate_task_id id) ≡ false)))

  committed_not-HasDefect :
      (db : Database) (batch : PersistenceBatch) (encoded : List (DurableTask × Text))
      {result : Option Database}
      → encode_batch codec batch.upsert_tasks ≡ done encoded
      → commit_ledger codec db batch encoded ≡ done result
      → ¬ HasDefect db batch
  unfolding HasDefect commit_ledger
  committed_not-HasDefect db batch encoded e h (inl version) =
      let (right, _) = require_then (db.user_version == schema_version) _ _ h in ground arith
  committed_not-HasDefect db batch encoded e h (inr (inl (before, task, after, split, invalid))) =
      invalid (
        All-middle (λ t. validate_durable_for_store codec t ≡ done tt) before task after
          (subst (All (λ t. validate_durable_for_store codec t ≡ done tt)) split
            (encoded-valid batch.upsert_tasks e)))
  committed_not-HasDefect db batch encoded e h (inr (inr (before, id, after, split, invalid))) =
      let (db1, _, _, deleted, _, _) = commit_ledger-steps codec db batch encoded h in
      let valid =
        All-middle (λ i. is_ok (validate_task_id i) ≡ true) before id after
          (subst (All (λ i. is_ok (validate_task_id i) ≡ true)) split
            (deleted-valid batch.delete_task_ids db1 deleted)) in
      cc

  finish_commit-refused :
      (db : Database) (admissions : Registry) (deleted : List Text)
      (result : Stored (Option Database))
      → ((r : Option Database) → result ≢ done r)
      → finish_commit codec db admissions deleted result
        ≡ (err persistence_unavailable, db, admissions)
  unfolding finish_commit
  finish_commit-refused db admissions deleted (done r) h = absurd (h r refl)
  finish_commit-refused db admissions deleted (failed _) h = refl
  finish_commit-refused db admissions deleted panicked h = refl

  commit_encoded-refused :
      (batch : PersistenceBatch) (db : Database) (admissions : Registry)
      (result : Stored (List (DurableTask × Text)))
      → encode_batch codec batch.upsert_tasks ≡ result
      → HasDefect db batch
      → commit_encoded codec batch db admissions result
        ≡ (err persistence_unavailable, db, admissions)
  unfolding commit_encoded
  commit_encoded-refused batch db admissions (done encoded) e defect =
      finish_commit-refused db admissions batch.delete_task_ids
        (commit_ledger codec db batch encoded)
        (λ r h. committed_not-HasDefect db batch encoded e h defect)
  commit_encoded-refused batch db admissions (failed _) e defect = refl
  commit_encoded-refused batch db admissions panicked e defect = refl

  -- If the database is not of schema version 1, or the batch stores a task that is not valid for the
  -- store, wherever it stands among the others, or deletes an id that is not a task id, then commit
  -- ends in persistence_unavailable and leaves the database and the admissions as they were.
  pub commit-refused :
      (batch : PersistenceBatch) (db : Database) (admissions : Registry)
      → HasDefect db batch
      → commit codec batch (db, admissions) ≡ (err persistence_unavailable, db, admissions)
  unfolding commit
  commit-refused batch db admissions defect =
      commit_encoded-refused batch db admissions (encode_batch codec batch.upsert_tasks) refl defect
