-- ===== src/Store/Ledger/Commit/Stores.antt =====
-- A commit that succeeds has stored the tasks of its batch.
use herdr_a2a.Base.{
  ◌≤◌, ◌≡◌, ◌⊎◌, refl, ap, ◌∙◌, subst, Bool, true, false, Option, none, some, List, [], ◌∷◌, inl,
  inr, Text, text_eq, Bool-cases, All, decide, u32_max,
}
use herdr_a2a.Base.Map
use herdr_a2a.Base.Outcome.{
  done, >>=-eq-done, require_then, some_or_then, done-injective, some-injective,
}
use herdr_a2a.Core.Durability.{DurableTask}
use herdr_a2a.Store.Ledger.{Codec, Stored, StoredTaskRow, Database}
use herdr_a2a.Store.Ledger.Rows.{
  decode_durable_task, encode_durable_task, validate_durable_for_store,
}
use herdr_a2a.Store.Ledger.Rows.Roundtrip.{
  PayloadParses, ReplyParses, IdParses, decode_durable_task-encode,
}
use herdr_a2a.Store.Ledger.Commit.{
  is_newer, DurableTask-discrete, durable_eq, check_row, check_suppressed, write_or_check, written,
  unless_suppressed, upsert_task, upsert_tasks,
}

pub durable_eq_sound : (a b : DurableTask) → durable_eq a b ≡ true → a ≡ b
unfolding durable_eq mathlib.Core.Bool.decide
durable_eq_sound a b h =
    elim (DurableTask-discrete a b) as (λ d. decide d ≡ true → a ≡ b) [
      | yes e ↦ λ _. e
      | no _ ↦ λ g. cc
    ]
      h

not_suppressed :
    (result : Option Database) (rest : Database → Stored (Option Database)) {db' : Database}
    → unless_suppressed result rest ≡ done (some db')
    → (db1 : Database) × (result ≡ some db1) × (rest db1 ≡ done (some db'))
unfolding unless_suppressed
not_suppressed none rest h = cc
not_suppressed (some db1) rest h = (db1, refl, h)

module _ {Task : Type 0} (codec : Codec Task) where
  -- The database has a row that is read back as this task.
  unfoldable pub IsStored : Database → DurableTask → Type 0
  IsStored db task =
      (row : StoredTaskRow) × (Map.get db.delivery_tasks task.task_id ≡ some row)
      × (decode_durable_task codec row ≡ done task)

  check_row-IsStored :
      (db : Database) (task : DurableTask) (row : StoredTaskRow) (quarantined : Bool)
      {db' : Database}
      → check_row codec db task row quarantined ≡ done (some db')
      → (db ≡ db') × (decode_durable_task codec row ≡ done task)
  unfolding check_row
  check_row-IsStored db task row true {db'} h = cc
  check_row-IsStored db task row false {db'} h =
      let (durable, e, h1) = >>=-eq-done _ _ h in
      elim (Bool-cases (durable_eq durable task)) [
        | inl same ↦
            let kept : some db ≡ some db' = done-injective (rw same at h1) in
            (some-injective kept, e ∙ ap done (durable_eq_sound durable task same))
        | inr other ↦ let no : none ≡ some db' = done-injective (rw other at h1) in cc
      ]

  check_suppressed-IsStored :
      (db : Database) (task : DurableTask) {db' : Database}
      → check_suppressed codec db task ≡ done (some db')
      → (db ≡ db') × IsStored db task
  unfolding check_suppressed IsStored
  check_suppressed-IsStored db task {db'} h =
      let (row, e, h1) = some_or_then _ _ _ h in
      let (same, read) = check_row-IsStored db task row row.legacy_quarantined h1 in
      (same, (row, e, read))

  write_or_check-cases :
      (new_db db : Database) (task : DurableTask) (newer : Bool) {db' : Database}
      → write_or_check codec new_db db task newer ≡ done (some db')
      → ((newer ≡ true) × (new_db ≡ db')) ⊎ ((db ≡ db') × IsStored db task)
  unfolding write_or_check
  write_or_check-cases new_db db task true h = inl (refl, cc)
  write_or_check-cases new_db db task false h = inr (check_suppressed-IsStored db task h)

  -- upsert_task that goes on has written the task's row over an older one, or changed nothing.
  pub upsert_task-cases :
      (db : Database) (task : DurableTask) (json : Text) {db' : Database}
      → upsert_task codec db task json ≡ done (some db')
      → (validate_durable_for_store codec task ≡ done tt)
        × (row : StoredTaskRow) × (encode_durable_task codec task ≡ done row)
        × (((is_newer row (Map.get db.delivery_tasks task.task_id) ≡ true)
              × (written db task json row ≡ db'))
            ⊎ ((db ≡ db') × IsStored db task))
  unfolding upsert_task
  upsert_task-cases db task json {db'} h =
      let (_, valid, h1) = >>=-eq-done _ _ h in
      let (_, h2) = require_then _ _ _ h1 in
      let (row, er, h3) = >>=-eq-done _ _ h2 in
      (
        valid,
        row,
        er,
        write_or_check-cases (written db task json row) db task
            (is_newer row (Map.get db.delivery_tasks task.task_id)) h3,
      )

  -- What a task needs to be read back as it was: its own payloads are parsed from the JSON that is
  -- printed for them, its lease bears a delivery id, and its attempt is a u32.
  abbrev pub IsStorable : DurableTask → Type 0
  IsStorable task =
      PayloadParses codec task.payload
      × ReplyParses codec task.reply
      × IdParses codec task.lease
      × (task.attempt ≤ u32_max)

  upsert_task-IsStored :
      (db : Database) (task : DurableTask) (json : Text) {db' : Database}
      → IsStorable task
      → upsert_task codec db task json ≡ done (some db')
      → IsStored db' task
  unfolding IsStored
  upsert_task-IsStored db task json {db'} (parses, reply_parses, id_parses, small) h =
      let (valid, row, er, outcome) = upsert_task-cases db task json h in
      elim outcome [
        | inl (_, e) ↦
            subst (λ d. IsStored d task) e
              (
                row,
                Map.get-insert_self db.delivery_tasks task.task_id row,
                decode_durable_task-encode codec task parses reply_parses id_parses small valid er,
              )
        | inr (e, stored) ↦ subst (λ d. IsStored d task) e stored
      ]

  -- upsert_task leaves the rows of other tasks alone.
  pub upsert_task-other :
      (db : Database) (task : DurableTask) (json : Text) (k : Text) {db' : Database}
      → text_eq task.task_id k ≡ false
      → upsert_task codec db task json ≡ done (some db')
      → Map.get db'.delivery_tasks k ≡ Map.get db.delivery_tasks k
  upsert_task-other db task json k {db'} other h =
      let (_, row, _, outcome) = upsert_task-cases db task json h in
      elim outcome [
        | inl (_, e) ↦
            subst (λ d. Map.get d.delivery_tasks k ≡ Map.get db.delivery_tasks k) e
              (rw (Map.get-insert db.delivery_tasks task.task_id k row, other) refl)
        | inr (e, _) ↦ subst (λ d. Map.get d.delivery_tasks k ≡ Map.get db.delivery_tasks k) e refl
      ]

  -- The first round of the loop, and the rest.
  pub upsert_tasks-first :
      (db : Database) (task : DurableTask) (json : Text) (encoded : List (DurableTask × Text))
      {db' : Database}
      → upsert_tasks codec db ((task, json) ∷ encoded) ≡ done (some db')
      → (db1 : Database) × (upsert_task codec db task json ≡ done (some db1))
        × (upsert_tasks codec db1 encoded ≡ done (some db'))
  unfolding upsert_tasks
  upsert_tasks-first db task json encoded h =
      let (result, e, h1) =
        >>=-eq-done (upsert_task codec db task json)
          (λ r. unless_suppressed r (λ d. upsert_tasks codec d encoded)) h in
      let (db1, s, h2) = not_suppressed result (λ d. upsert_tasks codec d encoded) h1 in
      (db1, e ∙ ap done s, h2)

  upsert_tasks-other :
      (db : Database) (encoded : List (DurableTask × Text)) (k : Text) {db' : Database}
      → All (λ e. text_eq (e.0.task_id) k ≡ false) encoded
      → upsert_tasks codec db encoded ≡ done (some db')
      → Map.get db'.delivery_tasks k ≡ Map.get db.delivery_tasks k
  unfolding upsert_tasks
  upsert_tasks-other db [] k {db'} other h =
      subst (λ d. Map.get d.delivery_tasks k ≡ Map.get db.delivery_tasks k)
        (some-injective (done-injective h)) refl
  upsert_tasks-other db ((task, json) ∷ encoded) k (other, others) h =
      let (db1, e1, h1) = upsert_tasks-first db task json encoded h in
      upsert_tasks-other db1 encoded k others h1 ∙ upsert_task-other db task json k other e1

  -- No two tasks have the same id.
  unfoldable pub DistinctIds : List (DurableTask × Text) → Type 0
  DistinctIds [] = Unit
  DistinctIds ((task, json) ∷ encoded) =
      All (λ e. text_eq (e.0.task_id) task.task_id ≡ false) encoded × DistinctIds encoded

  pub upsert_tasks-IsStored :
      (db : Database) (encoded : List (DurableTask × Text)) {db' : Database}
      → All (λ e. IsStorable (e.0)) encoded
      → DistinctIds encoded
      → upsert_tasks codec db encoded ≡ done (some db')
      → All (λ e. IsStored db' (e.0)) encoded
  unfolding DistinctIds IsStored
  upsert_tasks-IsStored db [] _ _ h = tt
  upsert_tasks-IsStored db ((task, json) ∷ encoded) (able, ables) (other, distinct) h =
      let (db1, e1, h1) = upsert_tasks-first db task json encoded h in
      let (row, e, read) = upsert_task-IsStored db task json able e1 in
      (
        (row, upsert_tasks-other db1 encoded task.task_id other h1 ∙ e, read),
        upsert_tasks-IsStored db1 encoded ables distinct h1,
      )
