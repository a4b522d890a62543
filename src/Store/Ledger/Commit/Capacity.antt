-- ===== src/Store/Ledger/Commit/Capacity.antt =====
-- A commit keeps the number of retained tasks within its limit.
use herdr_a2a.Base.{
  ◌+◌, ◌≤◌, ◌≡◌, refl, sym, ap, ◌∙◌, subst, true, ◌||◌, none, some, List, [], ◌∷◌, inl, inr, leb→le,
  if◌then◌else◌, is_some, Text, text_eq, text_eq_iff, Bool-cases, Option-cases, arith,
}
use herdr_a2a.Base.Map.{Map}
use herdr_a2a.Base.Map
use herdr_a2a.Base.TextSet.{TextSet}
use herdr_a2a.Base.TextSet
use herdr_a2a.Base.Outcome.{done, done-injective, some-injective}
use herdr_a2a.Core.Errors.{ok}
use herdr_a2a.Core.Durability.{DurableTask, PersistenceBatch, complete}
use herdr_a2a.Store.Admissions.{Registry}
use herdr_a2a.Store.Ledger.{Codec, StoredTaskRow, OwnerRow, Database}
use herdr_a2a.Store.Ledger.Commit.{
  count_owner_only, count_retained, is_known, count_new, encode_batch, commit, upsert_task,
  upsert_tasks, written, max_retained,
}
use herdr_a2a.Store.Ledger.Commit.Stores.{IsStored, upsert_task-cases, upsert_tasks-first}
use herdr_a2a.Store.Ledger.Commit.Atomic.{SameLedger, commit_encoded-complete, commit_ledger-steps}

-- A row more does not make an owner without a row.
count_owner_only-insert-le :
    (rows : Map StoredTaskRow) (owners : Map OwnerRow) (k : Text) (row : StoredTaskRow)
    → count_owner_only (Map.insert rows k row) owners ≤ count_owner_only rows owners
unfolding count_owner_only
count_owner_only-insert-le rows [] k row = omega arith
count_owner_only-insert-le rows ((j, owner) ∷ owners) k row =
    ground (arith, Map.get-insert rows k j row, count_owner_only-insert-le rows owners k row)

-- A row for an owner that had none.
count_owner_only-insert :
    (rows : Map StoredTaskRow) (owners : Map OwnerRow) (k : Text) (row : StoredTaskRow)
    → Map.get rows k ≡ none
    → is_some (Map.get owners k) ≡ true
    → count_owner_only (Map.insert rows k row) owners + 1 ≤ count_owner_only rows owners
unfolding count_owner_only Map.get
count_owner_only-insert rows [] k row fresh owned = absurd (ground arith)
count_owner_only-insert rows ((j, owner) ∷ owners) k row fresh owned =
    elim (Bool-cases (text_eq j k)) [
      | inl e ↦
          let same = (text_eq_iff j k).0 e in
          let before : Map.get rows j ≡ none = ap (Map.get rows) same ∙ fresh in
          let after : Map.get (Map.insert rows k row) j ≡ some row =
            ap (Map.get (Map.insert rows k row)) same ∙ Map.get-insert_self rows k row in
          rw (before, after) (omega (arith, count_owner_only-insert-le rows owners k row))
      | inr e ↦
          let rest = count_owner_only-insert rows owners k row fresh (rw (Map.get, e) at owned) in
          ground (arith, Map.get-insert rows k j row, text_eq_iff j k, text_eq_iff k j)
    ]

retained-insert :
    (db : Database) (task : DurableTask) (json : Text) (row : StoredTaskRow)
    → count_retained (written db task json row)
      ≤ count_retained db + (if is_known db task.task_id then 0 else 1)
unfolding count_retained is_known
retained-insert db task json row =
    let owners = count_owner_only-insert-le db.delivery_tasks db.task_owners task.task_id row in
    let rows = Map.length-insert-le db.delivery_tasks task.task_id row in
    elim (Option-cases (Map.get db.delivery_tasks task.task_id)) [
      | inr (old, e) ↦
          rw e (omega (arith, Map.length-insert_known db.delivery_tasks task.task_id row e))
      | inl e ↦ elim (Bool-cases (is_some (Map.get db.task_owners task.task_id))) [
        | inl o ↦
            rw (e, o)
              (omega (
                arith,
                count_owner_only-insert db.delivery_tasks db.task_owners task.task_id row e o,
              ))
        | inr o ↦ rw (e, o) (omega arith)
      ]
    ]

-- What an id known to one database is to another.
abbrev KnownIn : Database → TextSet → Database → Type 0
KnownIn db seen db' =
    (k : Text) → (TextSet.contains seen k || is_known db k) ≡ true → is_known db' k ≡ true

held-known :
    (db : Database) (id k : Text) {row : StoredTaskRow}
    → Map.get db.delivery_tasks id ≡ some row
    → is_known db k ≡ (if text_eq id k then true else is_known db k)
unfolding is_known
held-known db id k {row} held = elim (Bool-cases (text_eq id k)) [
  | inl e ↦
      let there : Map.get db.delivery_tasks k ≡ some row =
        ap (Map.get db.delivery_tasks) (sym ((text_eq_iff id k).0 e)) ∙ held in
      rw (e, there) refl
  | inr e ↦ rw e refl
]

written-known :
    (db : Database) (task : DurableTask) (json : Text) (row : StoredTaskRow) (k : Text)
    → is_known (written db task json row) k
      ≡ (if text_eq task.task_id k then true else is_known db k)
unfolding is_known
written-known db task json row k =
    ground (arith, Map.get-insert db.delivery_tasks task.task_id k row)

retained_in :
    (db db' : Database) → SameLedger db db' → count_retained db ≤ 4096 → count_retained db' ≤ 4096
unfolding count_retained
retained_in db db' (tasks, owners, _) h = rw (tasks, owners) h

module _ {Task : Type 0} (codec : Codec Task) where
  -- One round: what it retains, and what it knows.
  upsert_task-retained :
      (db : Database) (task : DurableTask) (json : Text) {db1 : Database}
      → upsert_task codec db task json ≡ done (some db1)
      → (count_retained db1 ≤ count_retained db + (if is_known db task.task_id then 0 else 1))
        × ((k : Text) → is_known db1 k ≡ (if text_eq task.task_id k then true else is_known db k))
  unfolding IsStored
  upsert_task-retained db task json {db1} h =
      let (_, row, _, outcome) = upsert_task-cases codec db task json h in
      elim outcome [
        | inl (_, e) ↦
            subst
              (λ d.
                (count_retained d ≤ count_retained db + (if is_known db task.task_id then 0 else 1))
                × ((k : Text)
                    → is_known d k ≡ (if text_eq task.task_id k then true else is_known db k)))
              e (retained-insert db task json row, written-known db task json row)
        | inr (e, (row', held, _)) ↦
            subst
              (λ d.
                (count_retained d ≤ count_retained db + (if is_known db task.task_id then 0 else 1))
                × ((k : Text)
                    → is_known d k ≡ (if text_eq task.task_id k then true else is_known db k)))
              e (omega arith, λ k. held-known db task.task_id k held)
      ]

  upsert_tasks-retained :
      (db : Database) (seen : TextSet) (now : Database) (encoded : List (DurableTask × Text))
      {db' : Database}
      → KnownIn db seen now
      → upsert_tasks codec now encoded ≡ done (some db')
      → count_retained db' ≤ count_retained now + count_new db seen encoded
  unfolding upsert_tasks count_new
  upsert_tasks-retained db seen now [] known h =
      let same = some-injective (done-injective h) in
      subst (λ d. count_retained d ≤ count_retained now + 0) same (omega arith)
  upsert_tasks-retained db seen now ((task, json) ∷ encoded) known h =
      let (now1, e, h1) = upsert_tasks-first codec now task json encoded h in
      let (few, knows) = upsert_task-retained now task json e in
      let rest =
        upsert_tasks-retained db (TextSet.insert seen task.task_id) now1 encoded
          (λ k k_known.
            ground (arith, knows k, known k, TextSet.contains-insert seen task.task_id k))
          h1 in
      elim (Bool-cases (TextSet.contains seen task.task_id || is_known db task.task_id)) [
        | inl c ↦
            let still = known task.task_id c in
            let same : count_retained now1 ≤ count_retained now + 0 =
              subst (λ b. count_retained now1 ≤ count_retained now + (if b then 0 else 1)) still
                few in
            rw c (omega arith)
        | inr c ↦
            let one : (if is_known now task.task_id then 0 else 1) ≤ 1 = ground arith in
            rw c (omega arith)
      ]

  -- If commit reports complete, the database retains at most 4096 tasks, those whose owner alone
  -- is known included.
  pub commit-capacity :
      (batch : PersistenceBatch) (db : Database) (admissions : Registry)
      → (commit codec batch (db, admissions)).0 ≡ ok complete
      → count_retained ((commit codec batch (db, admissions)).1) ≤ 4096
  unfolding commit TextSet.contains
  commit-capacity batch db admissions h =
      let (encoded, _, db3, ledger, same) =
        commit_encoded-complete codec batch db admissions (encode_batch codec batch.upsert_tasks)
          h in
      let (_, db2, _, _, room, upserts) = commit_ledger-steps codec db batch encoded ledger in
      let grown = upsert_tasks-retained db2 [] db2 encoded (λ k known. known) upserts in
      let fits = leb→le (count_retained db2 + count_new db2 [] encoded) max_retained room in
      retained_in db3 ((commit codec batch (db, admissions)).1) same (omega arith)
