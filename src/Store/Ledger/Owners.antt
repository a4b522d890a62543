-- ===== src/Store/Ledger/Owners.antt =====
-- The owners of tasks: `claim_task_owner` and `remove_task_owner_if_unpersisted`. Of
-- crates/herdr-a2a-broker/src/store.rs.
use herdr_a2a.Base.{
  ℕ, ◌-◌, ◌≡◌, refl, sym, ap, ◌∙◌, Bool, true, false, ◌&&◌, not, Option, none, some, List, [], ◌∷◌,
  inl, inr, leb, ◌==◌, if◌then◌else◌, is_some, is_none, is_some_and, any, length, retain, Text,
  text_eq, text_eq_iff, text_lt, Bool-cases,
}
use herdr_a2a.Base.Map.{Map}
use herdr_a2a.Base.Map
use herdr_a2a.Base.Outcome.{Outcome, done, failed, panicked, ◌>>=◌, some_or}
use herdr_a2a.Broker.Task.{terminal_retention_ms}
use herdr_a2a.Store.Ledger.{
  Codec, TaskState, completed, canceled, rejected, ProjectionRow, OwnerRow, Database,
}
use herdr_a2a.Store.Ledger.Commit.{schema_version, max_retained, count_retained}

-- The errors of `claim_task_owner`, by their messages.
pub data OwnerError : Type 0 where
  internal already_retained other_registration other_recipient : OwnerError
  capacity_exhausted no_sender_owner : OwnerError

-- `state IN (…) AND status_timestamp <= ?`
unfoldable pub is_expired : List Text → Text → ProjectionRow → Bool
is_expired states cutoff row =
    any (text_eq row.state) states && not (text_lt cutoff row.status_timestamp)

-- The two `DELETE` statements.
unfoldable pub delete_expired : List Text → Text → Database → Database
delete_expired states cutoff db = record db {
  task_owners =
      retain (λ o. not (is_some_and (Map.get db.tasks (o.0)) (is_expired states cutoff)))
        db.task_owners;
  tasks = retain (λ t. not (is_expired states cutoff (t.1))) db.tasks;
}

-- The capacity in use.
abbrev pub retained_owners : Database → ℕ
retained_owners db =
    if db.user_version == schema_version then count_retained db else length db.task_owners

-- What becomes of a claim to a task that has an owner.
unfoldable pub claim_owned : Text → Text → OwnerRow → Outcome OwnerError Bool
claim_owned registration_id recipient owner =
    if not (text_eq owner.registration_id registration_id)
    then failed other_registration
    else if not (is_some_and owner.recipient (text_eq recipient))
    then failed other_recipient
    else done false

-- What becomes of a claim to a task that has none.
unfoldable pub claim_free :
    Database → Database → Text → Text → Text → Outcome OwnerError Bool × Database
claim_free before db task_id registration_id recipient =
    if leb max_retained (retained_owners db)
    then (failed capacity_exhausted, db)
    else if is_some (Map.get db.tasks task_id)
    then (failed no_sender_owner, before)
    else (
      done true,
      record db {
        task_owners =
            Map.insert db.task_owners task_id
              (record { registration_id = registration_id; recipient = some recipient });
      },
    )

-- A claim that is refused is rolled back.
abbrev roll_back_unless :
    Outcome OwnerError Bool → Database → Database → Outcome OwnerError Bool × Database
roll_back_unless (done b) before db = (done b, db)
roll_back_unless (failed e) before db = (failed e, before)
roll_back_unless panicked before db = (panicked, before)

-- The claim after the deletions.
unfoldable pub claim_after :
    Database → Database → Text → Text → Text → Option OwnerRow → Outcome OwnerError Bool × Database
claim_after before db task_id registration_id recipient (some owner) =
    roll_back_unless (claim_owned registration_id recipient owner) before db
claim_after before db task_id registration_id recipient none =
    claim_free before db task_id registration_id recipient

-- The transaction of `claim_task_owner`.
unfoldable pub claim_in :
    List Text → Text → Database → Text → Text → Text → Outcome OwnerError Bool × Database
claim_in states cutoff db task_id registration_id recipient =
    if (db.user_version == schema_version) && is_some (Map.get db.delivery_tasks task_id)
    then (failed already_retained, db)
    else let db' = delete_expired states cutoff db in
      claim_after db db' task_id registration_id recipient (Map.get db'.task_owners task_id)

-- `DELETE FROM task_owners WHERE … AND NOT EXISTS (SELECT 1 FROM tasks …)`
unfoldable pub remove_task_owner_if_unpersisted : Database → Text → Text → Bool × Database
remove_task_owner_if_unpersisted db task_id registration_id =
    if is_some_and (Map.get db.task_owners task_id)
        (λ owner. text_eq owner.registration_id registration_id)
      && is_none (Map.get db.tasks task_id)
    then (true, record db { task_owners = Map.remove db.task_owners task_id })
    else (false, db)

module _ {Task : Type 0} (codec : Codec Task) where
  open codec use {timestamp_text, task_state_text}

  -- The texts of the states in which a task is over.
  abbrev terminal_states : Outcome OwnerError (List Text)
  terminal_states = do
    a ← some_or (task_state_text completed) internal
    b ← some_or (task_state_text canceled) internal
    c ← some_or (task_state_text TaskState.failed) internal
    d ← some_or (task_state_text rejected) internal
    done (a ∷ b ∷ c ∷ d ∷ [])

  abbrev claim_with :
      Outcome OwnerError Text
      → Outcome OwnerError (List Text)
      → Database
      → Text
      → Text
      → Text
      → Outcome OwnerError Bool × Database
  claim_with (done cutoff) (done states) db task_id registration_id recipient =
      claim_in states cutoff db task_id registration_id recipient
  claim_with _ _ db task_id registration_id recipient = (failed internal, db)

  unfoldable pub claim_task_owner :
      Database → Text → Text → Text → ℕ → Outcome OwnerError Bool × Database
  claim_task_owner db task_id registration_id recipient now =
      claim_with (some_or (timestamp_text (now - terminal_retention_ms)) internal) terminal_states
        db task_id registration_id recipient

  recipient_is :
      (o : Option Text) (recipient : Text)
      → is_some_and o (text_eq recipient) ≡ true
      → o ≡ some recipient
  recipient_is none recipient h = cc
  recipient_is (some r) recipient h = ap some (sym ((text_eq_iff recipient r).0 h))

  -- The task has this owner.
  abbrev pub IsOwnedBy : Database → Text → Text → Text → Type 0
  IsOwnedBy db task_id registration_id recipient =
      Map.get db.task_owners task_id
      ≡ some (record { registration_id = registration_id; recipient = some recipient })

  claim_owned-owner :
      (registration_id recipient : Text) (owner : OwnerRow) {b : Bool}
      → claim_owned registration_id recipient owner ≡ done b
      → (owner.registration_id ≡ registration_id) × (owner.recipient ≡ some recipient)
  unfolding claim_owned
  claim_owned-owner registration_id recipient owner {b} h =
      elim (Bool-cases (text_eq owner.registration_id registration_id)) [
        | inr e ↦ let no : failed other_registration ≡ done b = rw (claim_owned, e) at h in cc
        | inl e ↦ elim (Bool-cases (is_some_and owner.recipient (text_eq recipient))) [
          | inr r ↦ let no : failed other_recipient ≡ done b = rw (claim_owned, e, r) at h in cc
          | inl r ↦ (
            (text_eq_iff owner.registration_id registration_id).0 e,
            recipient_is owner.recipient recipient r,
          )
        ]
      ]

  claim_free-owner :
      (before db : Database) (task_id registration_id recipient : Text) {b : Bool}
      → (claim_free before db task_id registration_id recipient).0 ≡ done b
      → IsOwnedBy
          ((claim_free before db task_id registration_id recipient).1)
          task_id
          registration_id
          recipient
  unfolding claim_free
  claim_free-owner before db task_id registration_id recipient {b} h =
      elim (Bool-cases (leb max_retained (retained_owners db))) [
        | inl e ↦ let no : failed capacity_exhausted ≡ done b = rw (claim_free, e) at h in cc
        | inr e ↦ elim (Bool-cases (is_some (Map.get db.tasks task_id))) [
          | inl t ↦ let no : failed no_sender_owner ≡ done b = rw (claim_free, e, t) at h in cc
          | inr t ↦
              rw (claim_free, e, t)
                (Map.get-insert_self db.task_owners task_id
                  (record { registration_id = registration_id; recipient = some recipient }))
        ]
      ]

  rolled_back-owner :
      (result : Outcome OwnerError Bool) (before db : Database) {b : Bool}
      → (roll_back_unless result before db).0 ≡ done b
      → (result ≡ done b) × ((roll_back_unless result before db).1 ≡ db)
  rolled_back-owner (done _) before db h = (h, refl)
  rolled_back-owner (failed e) before db h = cc
  rolled_back-owner panicked before db h = cc

  claim_after-owner :
      (before db : Database) (task_id registration_id recipient : Text) (found : Option OwnerRow)
      {b : Bool}
      → Map.get db.task_owners task_id ≡ found
      → (claim_after before db task_id registration_id recipient found).0 ≡ done b
      → IsOwnedBy
          ((claim_after before db task_id registration_id recipient found).1)
          task_id
          registration_id
          recipient
  unfolding claim_after
  claim_after-owner before db task_id registration_id recipient none e h =
      claim_free-owner before db task_id registration_id recipient h
  claim_after-owner before db task_id registration_id recipient (some owner) e h =
      let (accepted, same) =
        rolled_back-owner (claim_owned registration_id recipient owner) before db h in
      let (id, to) = claim_owned-owner registration_id recipient owner accepted in
      ap (λ d. Map.get d.task_owners task_id) same ∙ e ∙ ap some cc

  claim_in-owner :
      (states : List Text) (cutoff : Text) (db : Database)
      (task_id registration_id recipient : Text) {b : Bool}
      → (claim_in states cutoff db task_id registration_id recipient).0 ≡ done b
      → IsOwnedBy
          ((claim_in states cutoff db task_id registration_id recipient).1)
          task_id
          registration_id
          recipient
  unfolding claim_in
  claim_in-owner states cutoff db task_id registration_id recipient {b} h =
      elim (Bool-cases
        ((db.user_version == schema_version) && is_some (Map.get db.delivery_tasks task_id))) [
          | inl e ↦ let no : failed already_retained ≡ done b = rw (claim_in, e) at h in cc
          | inr e ↦
              let db' = delete_expired states cutoff db in
              rw (claim_in, e)
                (claim_after-owner db db' task_id registration_id recipient
                  (Map.get db'.task_owners task_id) refl (rw (claim_in, e) at h))
        ]

  claim_with-owner :
      (cutoff : Outcome OwnerError Text) (states : Outcome OwnerError (List Text)) (db : Database)
      (task_id registration_id recipient : Text) {b : Bool}
      → (claim_with cutoff states db task_id registration_id recipient).0 ≡ done b
      → IsOwnedBy
          ((claim_with cutoff states db task_id registration_id recipient).1)
          task_id
          registration_id
          recipient
  claim_with-owner (done cutoff) (done states) db task_id registration_id recipient h =
      claim_in-owner states cutoff db task_id registration_id recipient h
  claim_with-owner (done cutoff) (failed e) db task_id registration_id recipient h = cc
  claim_with-owner (done cutoff) panicked db task_id registration_id recipient h = cc
  claim_with-owner (failed e) states db task_id registration_id recipient h = cc
  claim_with-owner panicked states db task_id registration_id recipient h = cc

  -- If claim_task_owner succeeds, whether the claim is new or repeated, then the registration and
  -- the recipient of the claim are the task's owner on record.
  pub claim_task_owner-owner :
      (db : Database) (task_id registration_id recipient : Text) (now : ℕ) {b : Bool}
      → (claim_task_owner db task_id registration_id recipient now).0 ≡ done b
      → IsOwnedBy
          ((claim_task_owner db task_id registration_id recipient now).1)
          task_id
          registration_id
          recipient
  unfolding claim_task_owner
  claim_task_owner-owner db task_id registration_id recipient now h =
      claim_with-owner (some_or (timestamp_text (now - terminal_retention_ms)) internal)
        terminal_states db task_id registration_id recipient h
