-- ===== src/Store/Admissions/Bounded.antt =====
-- The registry counts its admissions, and keeps within its two limits.
use herdr_a2a.Base.{
  ℕ, ◌+◌, ◌≤◌, ◌<◌, ◌≡◌, refl, ap, subst, Option, none, some, [], ◌∷◌, inl, inr, length,
  if◌then◌else◌, unwrap_or, Text, text_eq, text_eq_iff, Bool-cases, Option-cases, arith,
}
use herdr_a2a.Base.Map.{Map}
use herdr_a2a.Base.Map
use herdr_a2a.Store.Admissions.{Queue, Registry, remove_at, put_queue, drop_admission}
use herdr_a2a.Store.Admissions.Queues.{
  queued, queued-remove, queued-remove_absent, length-remove_at,
}

-- the number of admissions of a task
abbrev pub held_for : Map Queue → Text → ℕ
held_for m k = length (unwrap_or (Map.get m k) [])

-- A queue that is there is not empty and not longer than its limit.
abbrev pub FilledQueue : Option Queue → Type 0
FilledQueue none = Unit
FilledQueue (some q) = (1 ≤ length q) × (length q ≤ 8)

unfoldable pub IsFilled : Map Queue → Type 0
IsFilled m = (k : Text) → FilledQueue (Map.get m k)

-- One queue a task, the total is the number of admissions, and both limits hold.
unfoldable pub IsBounded : Registry → Type 0
IsBounded r =
    Map.Distinct r.by_task × (r.total ≡ queued r.by_task) × (r.total ≤ 4096) × IsFilled r.by_task

pub queued-insert :
    (m : Map Queue) (k : Text) (q : Queue)
    → Map.Distinct m
    → queued (Map.insert m k q) + held_for m k ≡ queued m + length q
unfolding queued Map.insert
queued-insert m k q d = elim (Option-cases (Map.get m k)) [
  | inl e ↦ rw e (omega (arith, queued-remove_absent m k e))
  | inr (old, e) ↦ rw e (omega (arith, queued-remove m k d e))
]

queued-put_queue :
    (m : Map Queue) (k : Text) (q : Queue)
    → Map.Distinct m
    → queued (put_queue m k q) + held_for m k ≡ queued m + length q
unfolding put_queue
queued-put_queue m k [] d = elim (Option-cases (Map.get m k)) [
  | inl e ↦ rw e (omega (arith, queued-remove_absent m k e))
  | inr (old, e) ↦ rw e (omega (arith, queued-remove m k d e))
]
queued-put_queue m k (a ∷ q) d = queued-insert m k (a ∷ q) d

put_queue-Distinct :
    (m : Map Queue) (k : Text) (q : Queue) → Map.Distinct m → Map.Distinct (put_queue m k q)
unfolding put_queue
put_queue-Distinct m k [] d = Map.remove-Distinct m k d
put_queue-Distinct m k (a ∷ q) d = Map.insert-Distinct m k (a ∷ q) d

pub insert-IsFilled :
    (m : Map Queue) (k : Text) (q : Queue)
    → IsFilled m
    → 1 ≤ length q
    → length q ≤ 8
    → IsFilled (Map.insert m k q)
unfolding IsFilled
insert-IsFilled m k q f low high j = elim (Bool-cases (text_eq k j)) [
  | inl e ↦ rw (Map.get-insert m k j q, e) (low, high)
  | inr e ↦ rw (Map.get-insert m k j q, e) (f j)
]

pub remove-IsFilled : (m : Map Queue) (k : Text) → IsFilled m → IsFilled (Map.remove m k)
unfolding IsFilled
remove-IsFilled m k f j = elim (Bool-cases (text_eq k j)) [
  | inl e ↦ rw (Map.get-remove m k j, e) tt
  | inr e ↦ rw (Map.get-remove m k j, e) (f j)
]

put_queue-IsFilled :
    (m : Map Queue) (k : Text) (q : Queue) → IsFilled m → length q ≤ 8 → IsFilled (put_queue m k q)
unfolding put_queue
put_queue-IsFilled m k [] f high = remove-IsFilled m k f
put_queue-IsFilled m k (a ∷ q) f high = insert-IsFilled m k (a ∷ q) f (omega arith) high

held_for-put_queue :
    (m : Map Queue) (k j : Text) (q : Queue)
    → held_for (put_queue m k q) j ≡ (if text_eq k j then length q else held_for m j)
unfolding put_queue
held_for-put_queue m k j [] = ground (arith, Map.get-remove m k j)
held_for-put_queue m k j (a ∷ q) = ground (arith, Map.get-insert m k j (a ∷ q))

pub drop_admission-IsBounded :
    (r : Registry) (k : Text) (q : Queue) (i : ℕ)
    → IsBounded r
    → Map.get r.by_task k ≡ some q
    → i < length q
    → IsBounded (drop_admission r k q i) × ((drop_admission r k q i).total + 1 ≡ r.total)
unfolding IsBounded IsFilled drop_admission
drop_admission-IsBounded r k q i (d, counted, low, filled) g within =
    let shorter = length-remove_at q i within in
    let sum = queued-put_queue r.by_task k (remove_at q i) d in
    let held : held_for r.by_task k ≡ length q = rw g refl in
    let size = subst FilledQueue g (filled k) in
    (
      (
        put_queue-Distinct r.by_task k (remove_at q i) d,
        omega arith,
        omega arith,
        put_queue-IsFilled r.by_task k (remove_at q i) filled (omega arith),
      ),
      omega arith,
    )

pub held_for-drop_admission :
    (r : Registry) (k j : Text) (q : Queue) (i : ℕ)
    → Map.get r.by_task k ≡ some q
    → i < length q
    → held_for ((drop_admission r k q i).by_task) j + (if text_eq k j then 1 else 0)
      ≡ held_for r.by_task j
unfolding drop_admission
held_for-drop_admission r k j q i g within =
    let shorter = length-remove_at q i within in
    let held : held_for r.by_task k ≡ length q = rw g refl in
    elim (Bool-cases (text_eq k j)) [
      | inl e ↦
          let same = ap (held_for r.by_task) ((text_eq_iff k j).0 e) in
          rw (held_for-put_queue r.by_task k j (remove_at q i), e) (omega arith)
      | inr e ↦ rw (held_for-put_queue r.by_task k j (remove_at q i), e) (omega arith)
    ]

pub drop_admission-next_sequence :
    (r : Registry) (k : Text) (q : Queue) (i : ℕ)
    → (drop_admission r k q i).next_sequence ≡ r.next_sequence
unfolding drop_admission
drop_admission-next_sequence r k q i = refl

pub held_for-some :
    (m : Map Queue) (k : Text) → 1 ≤ held_for m k → (q : Queue) × (Map.get m k ≡ some q)
held_for-some m k h = elim (Option-cases (Map.get m k)) [
  | inl e ↦ let nothing : held_for m k ≡ 0 = rw e refl in absurd (omega arith)
  | inr found ↦ found
]

pub held_for-le : (r : Registry) (k : Text) → IsBounded r → held_for r.by_task k ≤ 8
unfolding IsBounded IsFilled
held_for-le r k (d, counted, low, filled) = elim (Option-cases (Map.get r.by_task k)) [
  | inl e ↦ rw e (omega arith)
  | inr (q, e) ↦ rw e ((subst FilledQueue e (filled k)).1)
]
