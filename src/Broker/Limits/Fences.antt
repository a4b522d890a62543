-- ===== src/Broker/Limits/Fences.antt =====
-- The set of retired registration ids and their order, of `retire_registration_id` in
-- crates/herdr-a2a-core/src/broker.rs.
use herdr_a2a.Base.{
  ℕ, ◌≤◌, ◌+◌, ◌≡◌, refl, inl, inr, Bool, true, false, ◌&&◌, ◌||◌, not, List, [], ◌∷◌, ◌++◌, arith,
  length, Text, text_eq, text_eq_iff, text_eq_refl, Bool-cases, ltb, &&_parts, if◌then◌else◌,
}
use herdr_a2a.Base.TextSet
use herdr_a2a.Base.TextSet.{TextSet, contains-remove}
use herdr_a2a.Core.Model.{RegistrationId}
use herdr_a2a.Broker.Task.{max_retired_registration_ids}
use herdr_a2a.Broker.State.{State}
use herdr_a2a.Broker.Registry.{trim_retired, retire_registration_id}

-- no id stands twice in the list that represents the set
unfoldable pub is_distinct : TextSet → Bool
is_distinct [] = true
is_distinct (x ∷ ids) = not (TextSet.contains ids x) && is_distinct ids

-- every id of the set stands in the order
unfoldable pub is_listed : List RegistrationId → TextSet → Bool
is_listed order [] = true
is_listed order (x ∷ ids) = TextSet.contains order x && is_listed order ids

abbrev pub is_fenced : List RegistrationId → TextSet → Bool
is_fenced order ids = is_distinct ids && is_listed order ids

remove-is_listed :
    (order : List RegistrationId) (oldest : RegistrationId) (ids : TextSet)
    → is_listed (oldest ∷ order) ids ≡ true
    → is_listed order (TextSet.remove ids oldest) ≡ true
unfolding is_listed TextSet.remove TextSet.contains herdr_a2a.Base.retain
remove-is_listed order oldest [] h = refl
remove-is_listed order oldest (x ∷ ids) h =
    ground (arith, remove-is_listed order oldest ids, text_eq_iff x oldest, text_eq_iff oldest x)

remove-is_distinct :
    (ids : TextSet) (oldest : RegistrationId)
    → is_distinct ids ≡ true
    → is_distinct (TextSet.remove ids oldest) ≡ true
unfolding is_distinct TextSet.remove herdr_a2a.Base.retain
remove-is_distinct [] oldest h = refl
remove-is_distinct (x ∷ ids) oldest h =
    ground (arith, remove-is_distinct ids oldest, contains-remove ids oldest x)

contains-append :
    (order : List RegistrationId) (id x : RegistrationId)
    → TextSet.contains (order ++ (id ∷ [])) x ≡ (TextSet.contains order x || text_eq id x)
unfolding TextSet.contains
contains-append [] id x = ground arith
contains-append (y ∷ order) id x = ground (arith, contains-append order id x)

append-is_listed :
    (order : List RegistrationId) (id : RegistrationId) (ids : TextSet)
    → is_listed order ids ≡ true
    → is_listed (order ++ (id ∷ [])) ids ≡ true
unfolding is_listed
append-is_listed order id [] h = refl
append-is_listed order id (x ∷ ids) h =
    ground (arith, append-is_listed order id ids, contains-append order id x)

remove-length_absent :
    (ids : TextSet) (x : RegistrationId)
    → TextSet.contains ids x ≡ false
    → length (TextSet.remove ids x) ≡ length ids
unfolding TextSet.contains TextSet.remove herdr_a2a.Base.retain
remove-length_absent [] x h = refl
remove-length_absent (y ∷ ids) x h = ground (arith, remove-length_absent ids x)

remove-length :
    (ids : TextSet) (x : RegistrationId)
    → is_distinct ids ≡ true
    → length ids ≤ length (TextSet.remove ids x) + 1
unfolding is_distinct TextSet.remove herdr_a2a.Base.retain
remove-length [] x h = omega arith
remove-length (y ∷ ids) x h =
    ground (arith, remove-length ids x, remove-length_absent ids x, text_eq_iff y x)

-- A set without repetitions whose ids all stand in the order is no longer than the order.
pub is_fenced-length :
    (order : List RegistrationId) (ids : TextSet)
    → is_distinct ids ≡ true
    → is_listed order ids ≡ true
    → length ids ≤ length order
unfolding is_listed TextSet.contains
is_fenced-length [] [] d l = omega arith
is_fenced-length [] (x ∷ ids) d l = absurd (cc)
is_fenced-length (x ∷ order) ids d l = omega (
  arith,
  remove-length ids x d,
  is_fenced-length order (TextSet.remove ids x) (remove-is_distinct ids x d)
      (remove-is_listed order x ids l),
)

trim-is_fenced :
    (order : List RegistrationId) (ids : TextSet)
    → is_fenced order ids ≡ true
    → is_fenced (trim_retired order ids).0 (trim_retired order ids).1 ≡ true
unfolding trim_retired
trim-is_fenced [] ids h = h
trim-is_fenced (x ∷ order) ids h =
    let (d, l) = &&_parts (is_distinct ids) (is_listed (x ∷ order) ids) h in
    let rest =
      trim-is_fenced order (TextSet.remove ids x)
        (rw (remove-is_distinct ids x d, remove-is_listed order x ids l) refl) in
    elim (Bool-cases (ltb max_retired_registration_ids (length (x ∷ order)))) [
      | inl long ↦ rw (long, trim_retired) rest
      | inr fits ↦ rw (fits, trim_retired) h
    ]

self-is_listed :
    (order : List RegistrationId) (id : RegistrationId)
    → TextSet.contains (order ++ (id ∷ [])) id ≡ true
unfolding TextSet.contains
self-is_listed [] id = rw (text_eq_refl id) refl
self-is_listed (x ∷ order) id = ground (arith, self-is_listed order id)

-- Retiring an id keeps the set without repetitions and within the order.
pub retire-is_fenced :
    (s : State) (id : RegistrationId)
    → is_fenced s.retired_registration_order s.retired_registration_ids ≡ true
    → is_fenced
        (retire_registration_id s id).retired_registration_order
        (retire_registration_id s id).retired_registration_ids
      ≡ true
unfolding retire_registration_id TextSet.insert is_distinct is_listed
retire-is_fenced s id h = elim (Bool-cases (TextSet.contains s.retired_registration_ids id)) [
  | inl old ↦
      rw (retire_registration_id, old)
        (trim-is_fenced s.retired_registration_order s.retired_registration_ids h)
  | inr new ↦
      rw (retire_registration_id, new)
        (trim-is_fenced (s.retired_registration_order ++ (id ∷ []))
          (id ∷ s.retired_registration_ids)
          (let (d, l) =
              &&_parts (is_distinct s.retired_registration_ids)
                (is_listed s.retired_registration_order s.retired_registration_ids) h in
            rw
              (
                new,
                d,
                self-is_listed s.retired_registration_order id,
                append-is_listed s.retired_registration_order id s.retired_registration_ids l,
              )
              refl))
]
