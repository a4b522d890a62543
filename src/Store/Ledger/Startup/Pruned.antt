-- ===== src/Store/Ledger/Startup/Pruned.antt =====
-- Pruning removes the quarantined rows whose retention has passed, and no other.
use herdr_a2a.Base.{
  ℕ, ◌≤◌, ◌≡◌, ◌⊎◌, refl, ap, sym, ◌∙◌, subst, Bool, true, false, ◌||◌, ◌&&◌, leb, none, some,
  Option, Option-cases, text_eq_refl, List, [], ◌∷◌, inl, inr, if◌then◌else◌, any, retain,
  is_some_and, Text, text_eq, text_eq_iff, Bool-cases, arith,
}
use herdr_a2a.Base.Map.{Map}
use herdr_a2a.Base.Map
use herdr_a2a.Base.Outcome.{some-injective}
use herdr_a2a.Store.Ledger.{StoredTaskRow, Database}
use herdr_a2a.Store.Ledger.Projection.{insert_ordered, order_by_task_id}
use herdr_a2a.Store.Ledger.Startup.{is_prunable, delete_prunable, delete_rows, prune_quarantined}

abbrev has_key : Text → List (Text × StoredTaskRow) → Bool
has_key k rows = any (λ r. text_eq (r.0) k) rows

get-delete_prunable :
    (now : ℕ) (m : Map StoredTaskRow) (j k : Text)
    → Map.get (delete_prunable now m j) k
      ≡ (if text_eq j k && is_some_and (Map.get m k) (is_prunable now) then none else Map.get m k)
unfolding delete_prunable
get-delete_prunable now m j k = elim (Bool-cases (text_eq j k)) [
  | inl e ↦
      let same : j ≡ k = (text_eq_iff j k).0 e in
      subst
        (λ i. Map.get (delete_prunable now m i) k ≡ (
          if text_eq i k && is_some_and (Map.get m k) (is_prunable now) then none else Map.get m k))
        (sym same) (ground (arith, Map.get-remove m k k, text_eq_refl k))
  | inr e ↦ ground (arith, Map.get-remove m j k)
]

-- A row that is kept once may go later.
pruned_again :
    (p : StoredTaskRow → Bool) (o : Option StoredTaskRow) (here later : Bool)
    → (if later && is_some_and (if here && is_some_and o p then none else o) p
        then none
        else (if here && is_some_and o p then none else o))
      ≡ (if (here || later) && is_some_and o p then none else o)
pruned_again p none true later = ground arith
pruned_again p none false later = refl
pruned_again p (some row) true later = ground arith
pruned_again p (some row) false later = refl

get-delete_rows :
    (now : ℕ) (db : Database) (rows : List (Text × StoredTaskRow)) (k : Text)
    → Map.get ((delete_rows now db rows).delivery_tasks) k ≡ (
        if has_key k rows && is_some_and (Map.get db.delivery_tasks k) (is_prunable now)
        then none
        else Map.get db.delivery_tasks k)
unfolding delete_rows
get-delete_rows now db [] k = refl
get-delete_rows now db ((j, row) ∷ rows) k =
    let db1 : Database = record db {
      projection_outbox = Map.remove db.projection_outbox j;
      task_owners = Map.remove db.task_owners j;
      tasks = Map.remove db.tasks j;
      delivery_tasks = delete_prunable now db.delivery_tasks j;
    } in
    get-delete_rows now db1 rows k
    ∙ rw (get-delete_prunable now db.delivery_tasks j k) (
        pruned_again (is_prunable now) (Map.get db.delivery_tasks k) (text_eq j k) (has_key k rows))

has_key-insert_ordered :
    (row : Text × StoredTaskRow) (rows : List (Text × StoredTaskRow)) (k : Text)
    → has_key k (insert_ordered row rows) ≡ (text_eq (row.0) k || has_key k rows)
unfolding insert_ordered
has_key-insert_ordered row [] k = refl
has_key-insert_ordered row (other ∷ rows) k = ground (arith, has_key-insert_ordered row rows k)

has_key-order : (m : Map StoredTaskRow) (k : Text) → has_key k (order_by_task_id m) ≡ has_key k m
unfolding order_by_task_id
has_key-order [] k = refl
has_key-order (row ∷ m) k =
    has_key-insert_ordered row (order_by_task_id m) k
    ∙ ap (λ b. text_eq (row.0) k || b) (has_key-order m k)

-- no row is kept for a key without one
has_key-retain_absent :
    (p : StoredTaskRow → Bool) (m : Map StoredTaskRow) (k : Text)
    → Map.get m k ≡ none
    → has_key k (retain (λ r. p (r.1)) m) ≡ false
unfolding retain Map.get
has_key-retain_absent p [] k h = refl
has_key-retain_absent p ((j, row) ∷ m) k h = elim (Bool-cases (text_eq j k)) [
  | inl e ↦ let no : some row ≡ none = rw (Map.get, e) at h in cc
  | inr e ↦ let rest = has_key-retain_absent p m k (rw (Map.get, e) at h) in ground (arith, e)
]

has_key-retain :
    (p : StoredTaskRow → Bool) (m : Map StoredTaskRow) (k : Text)
    → Map.Distinct m
    → has_key k (retain (λ r. p (r.1)) m) ≡ is_some_and (Map.get m k) p
unfolding retain Map.get Map.Distinct
has_key-retain p [] k _ = refl
has_key-retain p ((j, row) ∷ m) k (fresh, d) = elim (Bool-cases (text_eq j k)) [
  | inl e ↦
      let gone =
        has_key-retain_absent p m k
          (subst (λ x. Map.get m x ≡ none) ((text_eq_iff j k).0 e) fresh) in
      ground (arith, e)
  | inr e ↦ let rest = has_key-retain p m k d in ground (arith, e)
]

-- The row is quarantined, and its retention ends at a time that has come.
unfoldable pub IsExpiredQuarantine : ℕ → StoredTaskRow → Type 0
IsExpiredQuarantine now row =
    (row.legacy_quarantined ≡ true)
    × (until : ℕ) × (row.retain_until_unix_ms ≡ some until)
    × (until ≤ now)

is_prunable_iff :
    (now : ℕ) (row : StoredTaskRow)
    → ((is_prunable now row ≡ true) × IsExpiredQuarantine now row)
      ⊎ ((is_prunable now row ≡ false) × ¬ IsExpiredQuarantine now row)
unfolding is_prunable IsExpiredQuarantine
is_prunable_iff now row = elim (Bool-cases row.legacy_quarantined) [
  | inl q ↦ elim (Option-cases row.retain_until_unix_ms) [
    | inl e ↦ inr (rw (q, e) refl, λ v. let no : none ≡ some (v.1) = sym e ∙ v.2 in cc)
    | inr (t, e) ↦ elim (Bool-cases (leb t now)) [
      | inl l ↦ inl (rw (q, e, l) refl, (q, t, e, ground arith))
      | inr l ↦ inr (
        rw (q, e, l) refl,
        λ v.
            let same : t ≡ v.1 = some-injective (sym e ∙ v.2) in
            let no : t ≤ now = subst (λ x. x ≤ now) (sym same) (v.3) in ground arith,
      )
    ]
  ]
  | inr q ↦ inr (rw q refl, λ v. let no : true ≡ false = sym (v.0) ∙ q in cc)
]

get-prune_quarantined :
    (now : ℕ) (db : Database) (k : Text)
    → Map.Distinct db.delivery_tasks
    → Map.get ((prune_quarantined now db).1.delivery_tasks) k ≡ (
        if is_some_and (Map.get db.delivery_tasks k) (is_prunable now)
        then none
        else Map.get db.delivery_tasks k)
unfolding prune_quarantined
get-prune_quarantined now db k d =
    let listed =
      has_key-order (retain (λ r. is_prunable now (r.1)) db.delivery_tasks) k
      ∙ has_key-retain (is_prunable now) db.delivery_tasks k d in
    get-delete_rows now db
      (order_by_task_id (retain (λ r. is_prunable now (r.1)) db.delivery_tasks)) k
    ∙ rw listed (ground arith)

-- Where no id has two rows, a task's row goes in prune_quarantined if it is quarantined and has a
-- retention that ends now or earlier; it stays as it was if it is not quarantined, has no end of
-- its retention or one that is still to come.
pub prune_quarantined-rows :
    (now : ℕ) (db : Database) (k : Text) (row : StoredTaskRow)
    → Map.Distinct db.delivery_tasks
    → Map.get db.delivery_tasks k ≡ some row
    → (IsExpiredQuarantine now row
        × (Map.get ((prune_quarantined now db).1.delivery_tasks) k ≡ none))
      ⊎ ((¬ IsExpiredQuarantine now row)
          × (Map.get ((prune_quarantined now db).1.delivery_tasks) k ≡ some row))
prune_quarantined-rows now db k row d h = elim (is_prunable_iff now row) [
  | inl (p, expired) ↦ inl (expired, get-prune_quarantined now db k d ∙ rw (h, p) refl)
  | inr (p, kept) ↦ inr (kept, get-prune_quarantined now db k d ∙ rw (h, p) refl)
]
