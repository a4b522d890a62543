-- ===== src/Store/Admissions/Kept.antt =====
-- Every operation on the registry keeps it bounded, and none panics.
use herdr_a2a.Base.{
  ℕ, ◌+◌, ◌≤◌, ◌<◌, ◌≡◌, refl, ap, ◌∙◌, Bool, some, List, [], ◌∷◌, ◌++◌, inl, inr, length,
  length-append, ◌==◌, if◌then◌else◌, unwrap_or, Text, text_eq_refl, Bool-cases, Option-cases,
  arith, u64_max, u64_succ_in_range,
}
use herdr_a2a.Base.Map.{Map}
use herdr_a2a.Base.Map
use herdr_a2a.Base.Outcome.{done}
use herdr_a2a.Store.Admissions.{
  SdkProjectionAdmission, ProjectionFingerprint, TaskIncarnation, Queue, Registry, empty_registry,
  push_back, oldest_from, drop_admission, remove_oldest_for_task, remove_oldest, make_room, restore,
  record_admission, admits, find_admission, consume, remove_task, retire_sdk_projection_admissions,
  task_is_full,
}
use herdr_a2a.Store.Admissions.Queues.{
  queued, queued-remove, oldest_from-some, oldest_from-within, oldest_overall-some,
  oldest_overall-held,
}
use herdr_a2a.Store.Admissions.Bounded.{
  held_for, IsFilled, IsBounded, queued-insert, insert-IsFilled, remove-IsFilled,
  drop_admission-IsBounded, held_for-drop_admission, drop_admission-next_sequence, held_for-some,
  held_for-le,
}

remove_oldest_for_task-eq :
    (r : Registry) (k : Text) (q : Queue) (o : ℕ × ℕ)
    → Map.get r.by_task k ≡ some q
    → oldest_from 0 q ≡ some o
    → remove_oldest_for_task r k ≡ done (drop_admission r k q (o.0))
unfolding remove_oldest_for_task
remove_oldest_for_task-eq r k q o g first = rw (remove_oldest_for_task, g, first) refl

-- What the first test of `make_room` leaves.
room_for_task :
    (r : Registry) (k : Text)
    → IsBounded r
    → (r1 : Registry) × ((if task_is_full r k then remove_oldest_for_task r k else done r)
        ≡ done r1)
      × IsBounded r1
      × (held_for r1.by_task k < 8)
      × (r1.next_sequence ≡ r.next_sequence)
unfolding remove_oldest_for_task
room_for_task r k b = elim (Bool-cases (task_is_full r k)) [
  | inl e ↦
      let (q, g) = held_for-some r.by_task k (ground (arith, e)) in
      let size : length q ≡ held_for r.by_task k = rw g refl in
      let (o, first) = oldest_from-some 0 q (ground (arith, e)) in
      let within = oldest_from-within 0 q first in
      let less = held_for-drop_admission r k k q (o.0) g (omega arith) in
      (
        drop_admission r k q (o.0),
        rw e (remove_oldest_for_task-eq r k q o g first),
        (drop_admission-IsBounded r k q (o.0) b g (omega arith)).0,
        ground (arith, text_eq_refl k),
        drop_admission-next_sequence r k q (o.0),
      )
  | inr e ↦ let high = held_for-le r k b in (r, rw e refl, b, ground (arith, e), refl)
]

-- What the second test leaves.
room_for_any :
    (r : Registry) (k : Text)
    → IsBounded r
    → held_for r.by_task k < 8
    → (r1 : Registry) × ((if r.total == 4096 then remove_oldest r else done r) ≡ done r1)
      × IsBounded r1
      × (held_for r1.by_task k < 8)
      × (r1.total < 4096)
      × (r1.next_sequence ≡ r.next_sequence)
unfolding remove_oldest IsBounded
room_for_any r k (d, counted, high, filled) low = elim (Bool-cases (r.total == 4096)) [
  | inl e ↦
      let (o, first) = oldest_overall-some r.by_task (ground (arith, e)) in
      let (q, g, within) = oldest_overall-held r.by_task d first in
      let (b1, one) =
        drop_admission-IsBounded r (o.0) q (o.1) (d, counted, high, filled) g within in
      let less = held_for-drop_admission r (o.0) k q (o.1) g within in
      (
        drop_admission r (o.0) q (o.1),
        rw (e, first, g) refl,
        b1,
        omega arith,
        ground (arith, e),
        drop_admission-next_sequence r (o.0) q (o.1),
      )
  | inr e ↦ (r, rw e refl, (d, counted, high, filled), low, ground (arith, e), refl)
]

pub make_room-done :
    (r : Registry) (k : Text)
    → IsBounded r
    → (r1 : Registry) × (make_room r k ≡ done r1)
      × IsBounded r1
      × (held_for r1.by_task k < 8)
      × (r1.total < 4096)
      × (r1.next_sequence ≡ r.next_sequence)
unfolding make_room
make_room-done r k b =
    let (r1, e1, b1, low1, seq1) = room_for_task r k b in
    let (r2, e2, b2, low2, room2, seq2) = room_for_any r1 k b1 low1 in
    (r2, rw (e1, e2) refl, b2, low2, room2, seq2 ∙ seq1)

-- An admission pushed where there is room.
push_back-IsBounded :
    (r : Registry) (k : Text) (a : SdkProjectionAdmission)
    → IsBounded r
    → held_for r.by_task k < 8
    → r.total < 4096
    → IsBounded (record r { by_task = push_back r.by_task k a; total = r.total + 1 })
unfolding IsBounded push_back
push_back-IsBounded r k a (d, counted, low, filled) few room =
    let q = unwrap_or (Map.get r.by_task k) [] ++ (a ∷ []) in
    let size : length q ≡ held_for r.by_task k + 1 =
      length-append (unwrap_or (Map.get r.by_task k) []) (a ∷ []) in
    let sum = queued-insert r.by_task k q d in
    (
      Map.insert-Distinct r.by_task k q d,
      omega arith,
      omega arith,
      insert-IsFilled r.by_task k q filled (omega arith) (omega arith),
    )

-- From a bounded registry, restore succeeds and leaves a bounded registry.
pub restore-IsBounded :
    (r : Registry) (k : Text) (a : SdkProjectionAdmission)
    → IsBounded r
    → (r1 : Registry) × (restore r k a ≡ done r1) × IsBounded r1
unfolding restore
restore-IsBounded r k a b =
    let (r1, e, b1, low, room, _) = make_room-done r k b in
    (_, rw e refl, push_back-IsBounded r1 k a b1 low room)

-- From a bounded registry whose next sequence is not the last `u64`, record succeeds and leaves a
-- bounded registry.
pub record_admission-IsBounded :
    (r : Registry) (k : Text) (fingerprint : ProjectionFingerprint) (version : ℕ)
    (incarnation : TaskIncarnation)
    → IsBounded r
    → r.next_sequence < u64_max
    → (r1 : Registry) × (record_admission r k fingerprint version incarnation ≡ done r1)
      × IsBounded r1
unfolding record_admission IsBounded
record_admission-IsBounded r k fingerprint version incarnation b more =
    let (r1, e, b1, low, room, _) =
      make_room-done (record r { next_sequence = r.next_sequence + 1 }) k b in
    let admission : SdkProjectionAdmission = record {
      fingerprint = fingerprint;
      version = version;
      incarnation = incarnation;
      sequence = r.next_sequence;
    } in
    (
      record r1 { by_task = push_back r1.by_task k admission; total = r1.total + 1 },
      rw (u64_succ_in_range r.next_sequence more, e) refl,
      push_back-IsBounded r1 k admission b1 low room,
    )

pub find_admission-within :
    (p : SdkProjectionAdmission → Bool) (i : ℕ) (q : Queue) {o : ℕ × SdkProjectionAdmission}
    → find_admission p i q ≡ some o
    → (i ≤ o.0) × (o.0 < i + length q)
unfolding find_admission
find_admission-within p i [] h = cc
find_admission-within p i (a ∷ q) {o} h = elim (Bool-cases (p a)) [
  | inl e ↦
      let taken : some (i, a) ≡ some o = rw e at h in
      let same : (i, a) ≡ o = cc in
      let index : i ≡ o.0 = ap (λ x. x.0) same in (omega arith, omega arith)
  | inr e ↦
      let rest : find_admission p (i + 1) q ≡ some o = rw e at h in
      let within = find_admission-within p (i + 1) q rest in (omega arith, omega arith)
]

-- consume leaves a bounded registry bounded.
pub consume-IsBounded :
    (r : Registry) (k : Text) (fingerprint : ProjectionFingerprint) (version : ℕ)
    (incarnation : TaskIncarnation) (superseded : Bool)
    → IsBounded r
    → IsBounded ((consume r k fingerprint version incarnation superseded).1)
unfolding consume
consume-IsBounded r k fingerprint version incarnation superseded b =
    elim (Option-cases (Map.get r.by_task k)) [
      | inl e ↦ rw (consume, e) b
      | inr (q, g) ↦
          elim (Option-cases
            (find_admission (admits fingerprint version incarnation superseded) 0 q)) [
              | inl e ↦ rw (consume, g, e) b
              | inr (o, e) ↦
                  let within =
                    find_admission-within (admits fingerprint version incarnation superseded) 0 q
                      e in
                  rw (consume, g, e) ((drop_admission-IsBounded r k q (o.0) b g (omega arith)).0)
            ]
    ]

pub remove_task-IsBounded : (r : Registry) (k : Text) → IsBounded r → IsBounded (remove_task r k)
unfolding remove_task IsBounded
remove_task-IsBounded r k (d, counted, low, filled) = elim (Option-cases (Map.get r.by_task k)) [
  | inl e ↦ rw (remove_task, e) (d, counted, low, filled)
  | inr (q, e) ↦
      let fewer = queued-remove r.by_task k d e in
      rw (remove_task, e)
        (
          Map.remove-Distinct r.by_task k d,
          omega arith,
          omega arith,
          remove-IsFilled r.by_task k filled,
        )
]

pub retire-IsBounded :
    (r : Registry) (ks : List Text)
    → IsBounded r
    → IsBounded (retire_sdk_projection_admissions r ks)
unfolding retire_sdk_projection_admissions
retire-IsBounded r [] b = b
retire-IsBounded r (k ∷ ks) b = retire-IsBounded (remove_task r k) ks (remove_task-IsBounded r k b)

pub empty-IsBounded : IsBounded empty_registry
unfolding IsBounded IsFilled queued Map.get Map.Distinct
empty-IsBounded = (tt, refl, omega arith, λ _. tt)
