-- ===== src/Store/Admissions/Queues.antt =====
-- The queues of the registry: their number, their oldest admission, and one taken out.
use herdr_a2a.Base.{
  ℕ, zero, suc, ◌+◌, ◌≤◌, ◌<◌, ◌≡◌, refl, sym, Option, none, some, [], ◌∷◌, inl, inr, length, ltb,
  Text, text_eq_iff, text_eq_refl, ap, ◌∙◌, ◌⊎◌, subst, Bool-cases, arith,
}
use herdr_a2a.Base.Map.{Map}
use herdr_a2a.Base.Map
use herdr_a2a.Store.Admissions.{
  Queue, remove_at, earliest, oldest_from, earliest_overall, oldest_overall,
}

-- the number of admissions in all queues
unfoldable pub queued : Map Queue → ℕ
queued [] = 0
queued ((k, q) ∷ m) = length q + queued m

pub queued-remove_absent :
    (m : Map Queue) (k : Text) → Map.get m k ≡ none → queued (Map.remove m k) ≡ queued m
unfolding queued Map.get Map.remove
queued-remove_absent [] k h = refl
queued-remove_absent ((j, q) ∷ m) k h = ground (arith, queued-remove_absent m k)

pub queued-remove :
    (m : Map Queue) (k : Text) {q : Queue}
    → Map.Distinct m
    → Map.get m k ≡ some q
    → queued (Map.remove m k) + length q ≡ queued m
unfolding queued Map.get Map.remove Map.Distinct
queued-remove [] k d h = cc
queued-remove ((j, v) ∷ m) k {q} (fresh, d) h =
    ground (arith, text_eq_iff j k, queued-remove_absent m k, queued-remove m k {q = q} d)

pub length-remove_at : (q : Queue) (i : ℕ) → i < length q → length (remove_at q i) + 1 ≡ length q
unfolding remove_at
length-remove_at [] i h = absurd (omega arith)
length-remove_at (a ∷ q) zero h = omega arith
length-remove_at (a ∷ q) (suc i) h = ground (arith, length-remove_at q i)

-- The earliest is the given one or what it was compared with.
earliest-cases :
    {A : Type 0} (key : A → ℕ) (a : A) (o : Option A)
    → (earliest key a o ≡ a) ⊎ (o ≡ some (earliest key a o))
unfolding earliest
earliest-cases key a none = inl refl
earliest-cases key a (some b) = elim (Bool-cases (ltb (key b) (key a))) [
  | inl h ↦ inr (rw h refl)
  | inr h ↦ inl (rw h refl)
]

pub oldest_from-some : (i : ℕ) (q : Queue) → 1 ≤ length q → (o : ℕ × ℕ) × (oldest_from i q ≡ some o)
unfolding oldest_from
oldest_from-some i [] h = absurd (omega arith)
oldest_from-some i (a ∷ q) h = (_, refl)

pub oldest_from-within :
    (i : ℕ) (q : Queue) {o : ℕ × ℕ} → oldest_from i q ≡ some o → (i ≤ o.0) × (o.0 < i + length q)
unfolding oldest_from
oldest_from-within i [] h = cc
oldest_from-within i (a ∷ q) {o} h =
    let e : earliest (λ x. x.1) (i, a.sequence) (oldest_from (i + 1) q) ≡ o = cc in
    elim (earliest-cases (λ x. x.1) (i, a.sequence) (oldest_from (i + 1) q)) [
      | inl w ↦
          subst (λ x. (i ≤ x.0) × (x.0 < i + suc (length q))) (sym w ∙ e) (omega arith, omega arith)
      | inr w ↦
          let within = oldest_from-within (i + 1) q (w ∙ ap some e) in (omega arith, omega arith)
    ]

pub oldest_overall-some :
    (m : Map Queue) → 1 ≤ queued m → (o : Text × ℕ × ℕ) × (oldest_overall m ≡ some o)
unfolding oldest_overall oldest_from queued
oldest_overall-some [] h = absurd (omega arith)
oldest_overall-some ((k, []) ∷ m) h = oldest_overall-some m (omega arith)
oldest_overall-some ((k, a ∷ q) ∷ m) h = (_, refl)

-- the oldest of a queue put before the rest is that one or the oldest of the rest
earliest_overall-cases :
    (k : Text) (start : Option (ℕ × ℕ)) (rest : Option (Text × ℕ × ℕ)) {o : Text × ℕ × ℕ}
    → earliest_overall k start rest ≡ some o
    → ((here : ℕ × ℕ) × (start ≡ some here) × ((k, here.0, here.1) ≡ o)) ⊎ (rest ≡ some o)
earliest_overall-cases k none rest h = inr h
earliest_overall-cases k (some here) rest {o} h =
    let e : earliest (λ x. x.2) (k, here.0, here.1) rest ≡ o = cc in
    elim (earliest-cases (λ x. x.2) (k, here.0, here.1) rest) [
      | inl w ↦ inl (here, refl, sym w ∙ e)
      | inr w ↦ inr (w ∙ ap some e)
    ]

pub oldest_overall-held :
    (m : Map Queue) {o : Text × ℕ × ℕ}
    → Map.Distinct m
    → oldest_overall m ≡ some o
    → (q : Queue) × (Map.get m (o.0) ≡ some q) × (o.1 < length q)
unfolding oldest_overall Map.get Map.Distinct
oldest_overall-held [] d h = cc
oldest_overall-held ((k, q) ∷ m) {o} (fresh, d) h =
    elim (earliest_overall-cases k (oldest_from 0 q) (oldest_overall m) h) [
      | inl (here, start, same) ↦
          let within = oldest_from-within 0 q start in
          subst (λ x. (q' : Queue) × (Map.get ((k, q) ∷ m) (x.0) ≡ some q') × (x.1 < length q'))
            same (q, rw (text_eq_refl k) refl, omega arith)
      | inr rest ↦
          let held = oldest_overall-held m d rest in
          (held.0, Map.get-cons_kept m k (o.0) q fresh (held.1), held.2)
    ]
