-- ===== src/Store/Ledger/Commit/Epochs.antt =====
-- The registration epoch that the storage keeps never falls.
use herdr_a2a.Base.{
  ℕ, ◌≤◌, ◌≡◌, refl, sym, ap, ◌∙◌, subst, some, List, [], ◌∷◌, inl, inr, ltb, Text, Bool-cases,
  u64_max, max, arith,
}
use herdr_a2a.Base.Outcome.{done, >>=-eq-done, require_then, done-injective, some-injective}
use herdr_a2a.Core.Errors.{ok}
use herdr_a2a.Core.Durability.{DurableTask, PersistenceBatch, complete}
use herdr_a2a.Store.Admissions.{Registry}
use herdr_a2a.Store.Ledger.{Codec, Database}
use herdr_a2a.Store.Ledger.Epoch.{parse_canonical_u64, decimal, parse_canonical_u64-decimal}
use herdr_a2a.Store.Ledger.Commit.{
  raise_epoch, delete_task, delete_tasks, encode_batch, commit, upsert_task, upsert_tasks,
}
use herdr_a2a.Store.Ledger.Commit.Stores.{upsert_task-cases, upsert_tasks-first}
use herdr_a2a.Store.Ledger.Commit.Atomic.{commit_encoded-complete, commit_ledger-steps}

raise_epoch-raised :
    (db : Database) (epoch : ℕ) {db1 : Database}
    → epoch ≤ u64_max
    → raise_epoch db (some epoch) ≡ done db1
    → (current : ℕ) × (parse_canonical_u64 db.last_registration_epoch ≡ done current)
      × (parse_canonical_u64 db1.last_registration_epoch ≡ done (max current epoch))
unfolding raise_epoch
raise_epoch-raised db epoch {db1} fits h =
    let (current, e, h1) = >>=-eq-done (parse_canonical_u64 db.last_registration_epoch) _ h in
    elim (Bool-cases (ltb current epoch)) [
      | inl newer ↦
          let same : record db { last_registration_epoch = decimal epoch } ≡ db1 =
            done-injective (rw newer at h1) in
          (
            current,
            e,
            subst (λ d. parse_canonical_u64 d.last_registration_epoch ≡ done (max current epoch))
                same (parse_canonical_u64-decimal epoch fits ∙ ap done (ground (arith, newer))),
          )
      | inr older ↦
          let same : db ≡ db1 = done-injective (rw older at h1) in
          (
            current,
            e,
            subst (λ d. parse_canonical_u64 d.last_registration_epoch ≡ done (max current epoch))
                same (e ∙ ap done (ground (arith, older))),
          )
    ]

delete_tasks-epoch :
    (db : Database) (ids : List Text) {db' : Database}
    → delete_tasks db ids ≡ done db'
    → db'.last_registration_epoch ≡ db.last_registration_epoch
unfolding delete_tasks delete_task
delete_tasks-epoch db [] h =
    subst (λ d. d.last_registration_epoch ≡ db.last_registration_epoch) (done-injective h) refl
delete_tasks-epoch db (id ∷ ids) h =
    let (_, h1) = require_then _ _ _ h in delete_tasks-epoch (delete_task db id) ids h1

module _ {Task : Type 0} (codec : Codec Task) where
  upsert_task-epoch :
      (db : Database) (task : DurableTask) (json : Text) {db' : Database}
      → upsert_task codec db task json ≡ done (some db')
      → db'.last_registration_epoch ≡ db.last_registration_epoch
  upsert_task-epoch db task json h =
      let (_, _, _, outcome) = upsert_task-cases codec db task json h in
      elim outcome [
        | inl (_, e) ↦ sym (ap (λ d. d.last_registration_epoch) e)
        | inr (e, _) ↦ sym (ap (λ d. d.last_registration_epoch) e)
      ]

  upsert_tasks-epoch :
      (db : Database) (encoded : List (DurableTask × Text)) {db' : Database}
      → upsert_tasks codec db encoded ≡ done (some db')
      → db'.last_registration_epoch ≡ db.last_registration_epoch
  unfolding upsert_tasks
  upsert_tasks-epoch db [] h =
      sym (ap (λ d. d.last_registration_epoch) (some-injective (done-injective h)))
  upsert_tasks-epoch db ((task, json) ∷ encoded) h =
      let (db1, e, h1) = upsert_tasks-first codec db task json encoded h in
      upsert_tasks-epoch db1 encoded h1 ∙ upsert_task-epoch db task json e

  -- If commit reports complete for a batch with a registration epoch, a u64, then the stored
  -- epoch was readable, and afterwards it is read as the greater of the two.
  pub commit-epoch :
      (batch : PersistenceBatch) (db : Database) (admissions : Registry) (epoch : ℕ)
      → batch.registration_epoch_high_watermark ≡ some epoch
      → epoch ≤ u64_max
      → (commit codec batch (db, admissions)).0 ≡ ok complete
      → (current : ℕ) × (parse_canonical_u64 db.last_registration_epoch ≡ done current)
        × (parse_canonical_u64 ((commit codec batch (db, admissions)).1.last_registration_epoch)
            ≡ done (max current epoch))
  unfolding commit
  commit-epoch batch db admissions epoch given fits h =
      let (encoded, _, db3, ledger, (_, _, kept)) =
        commit_encoded-complete codec batch db admissions (encode_batch codec batch.upsert_tasks)
          h in
      let (db1, db2, raised, deleted, _, upserts) =
        commit_ledger-steps codec db batch encoded ledger in
      let (current, e, now) =
        raise_epoch-raised db epoch fits (subst (λ o. raise_epoch db o ≡ done db1) given raised) in
      (
        current,
        e,
        ap parse_canonical_u64 (
              kept
              ∙ upsert_tasks-epoch db2 encoded upserts
              ∙ delete_tasks-epoch db1 batch.delete_task_ids deleted)
            ∙ now,
      )
