-- ===== src/Broker/Registry/Revoke.antt =====
-- `detach_registration` and `retire_registration_id` of crates/herdr-a2a-core/src/broker.rs, and
-- what `validate_active_registration` says afterwards.
use herdr_a2a.Base.{
  ℕ, ◌≤◌, ◌≡◌, ◌≢◌, refl, inl, inr, Bool, true, false, none, some, List, [], ◌∷◌, ◌++◌, arith,
  length, length-append, Text, text_eq_iff, text_eq_refl, ◌∙◌, All, ap, ltb, Bool-cases,
  if◌then◌else◌,
}
use herdr_a2a.Base.Map.{Map, get-remove, get-alter}
use herdr_a2a.Base.Map
use herdr_a2a.Base.TextSet
use herdr_a2a.Base.TextSet.{TextSet, contains-remove, contains-insert}
use herdr_a2a.Core.Errors.{err, registration_expired, registration_not_found}
use herdr_a2a.Core.Model.{RegistrationId, RegistrationCredentials, credentials}
use herdr_a2a.Broker.Task.{max_retired_registration_ids}
use herdr_a2a.Broker.State.{State, RegistrationState, validate_active_registration}
use herdr_a2a.Broker.Registry.{
  trim_retired, retire_registration_id, leased_task_ids, release_lease, release_leases,
  unlist_registration, detach_registration,
}

-- `trim_retired` drops from the front, down to the limit.
trim_retired-length :
    (order : List RegistrationId) (ids : TextSet)
    → length (trim_retired order ids).0 ≤ max_retired_registration_ids
unfolding trim_retired
trim_retired-length [] ids = omega arith
trim_retired-length (x ∷ order) ids =
    ground (arith, trim_retired-length order (TextSet.remove ids x))

-- The list of retired ids never exceeds its limit.
pub retire_registration_id-bounded :
    (s : State) (id : RegistrationId)
    → length (retire_registration_id s id).retired_registration_order ≤ max_retired_registration_ids
unfolding retire_registration_id
retire_registration_id-bounded s id = trim_retired-length _ _

-- Within the limit nothing is dropped.
trim_retired_short :
    (order : List RegistrationId) (ids : TextSet)
    → length order ≤ max_retired_registration_ids
    → (trim_retired order ids).1 ≡ ids
unfolding trim_retired
trim_retired_short [] ids h = refl
trim_retired_short (x ∷ order) ids h = ground arith

-- The retired ids in their order are within the limit, and all are known.
pub record IsRetiredValid (s : State) : Type 0 where
  pub short : length s.retired_registration_order ≤ max_retired_registration_ids
  pub known :
      All (λ x. TextSet.contains s.retired_registration_ids x ≡ true) s.retired_registration_order

-- At most the oldest id makes room for a new one.
trim_keeps_new :
    (id : RegistrationId) (order : List RegistrationId) (ids : TextSet)
    → length order ≤ max_retired_registration_ids
    → TextSet.contains ids id ≡ false
    → All (λ x. TextSet.contains ids x ≡ true) order
    → TextSet.contains (trim_retired (order ++ (id ∷ [])) (TextSet.insert ids id)).1 id ≡ true
unfolding trim_retired
trim_keeps_new id [] ids short fresh known =
    rw (trim_retired_short (id ∷ []) (TextSet.insert ids id) (omega arith))
      (rw (contains-insert ids id id, text_eq_refl id))
trim_keeps_new id (x ∷ order) ids short fresh known =
    let ids' = TextSet.insert ids id in
    let other : x ≢ id = λ e. cc (ap (TextSet.contains ids) e, known.0) in
    let kept : TextSet.contains (TextSet.remove ids' x) id ≡ true = ground (
      arith,
      contains-remove ids' x id,
      contains-insert ids id id,
      text_eq_iff x id,
      text_eq_refl id,
    ) in
    let rest : length (order ++ (id ∷ [])) ≤ max_retired_registration_ids =
      omega (arith, length-append order (id ∷ [])) in
    let same = trim_retired_short (order ++ (id ∷ [])) (TextSet.remove ids' x) rest in
    elim (Bool-cases (ltb max_retired_registration_ids (length (x ∷ (order ++ (id ∷ [])))))) [
      | inl long ↦ rw (long, trim_retired) (rw same kept)
      | inr fits ↦ rw (fits, trim_retired) (rw (contains-insert ids id id, text_eq_refl id))
    ]

-- A retired id is known afterwards, whatever ids make room for it.
pub contains-retire_registration_id :
    (s : State) (id : RegistrationId)
    → IsRetiredValid s
    → TextSet.contains (retire_registration_id s id).retired_registration_ids id ≡ true
unfolding retire_registration_id
contains-retire_registration_id s id v =
    elim (Bool-cases (TextSet.contains s.retired_registration_ids id)) [
      | inl old ↦ rw old (
          rw
            (trim_retired_short s.retired_registration_order
              (TextSet.insert s.retired_registration_ids id) v.short)
            (rw (contains-insert s.retired_registration_ids id id, text_eq_refl id)))
      | inr new ↦ rw new (
          trim_keeps_new id s.retired_registration_order s.retired_registration_ids v.short new
            v.known)
    ]

-- Releasing leases leaves the registrations and the retired ids alone.
release_lease_keeps :
    (s : State) (id : Text)
    → ((release_lease s id).registrations ≡ s.registrations)
      × ((release_lease s id).retired_registration_ids ≡ s.retired_registration_ids)
unfolding release_lease
release_lease_keeps s id = ground arith

release_leases_keeps :
    (ids : List Text) (s : State)
    → ((release_leases s ids).registrations ≡ s.registrations)
      × ((release_leases s ids).retired_registration_ids ≡ s.retired_registration_ids)
unfolding release_leases
release_leases_keeps [] s = (refl, refl)
release_leases_keeps (id ∷ ids) s =
    let (r, t) = release_leases_keeps ids (release_lease s id) in
    let (r', t') = release_lease_keeps s id in (r ∙ r', t ∙ t')

-- The state of a detached registration, before its leases are released.
abbrev unlisted : State → RegistrationState → RegistrationId → Bool → State
unlisted s entry id retire =
    if retire
    then retire_registration_id (unlist_registration s entry id) id
    else unlist_registration s entry id

detach_registration-eq :
    (s : State) (id : RegistrationId) (retire : Bool) {entry : RegistrationState}
    → Map.get s.registrations id ≡ some entry
    → detach_registration s id retire ≡ (
      some entry,
      release_leases
          (unlisted s entry id retire)
          (leased_task_ids (unlisted s entry id retire).tasks (credentials entry.registration)),
    )
unfolding detach_registration
detach_registration-eq s id retire found = rw (found, detach_registration)

unlisted-registrations :
    (s : State) (entry : RegistrationState) (id : RegistrationId) (retire : Bool)
    → (unlisted s entry id retire).registrations ≡ Map.remove s.registrations id
unfolding retire_registration_id unlist_registration
unlisted-registrations s entry id true = refl
unlisted-registrations s entry id false = refl

detached-registrations :
    (s : State) (id : RegistrationId) (retire : Bool) {entry : RegistrationState}
    → Map.get s.registrations id ≡ some entry
    → Map.get (detach_registration s id retire).1.registrations id ≡ none
detached-registrations s id retire {entry} found = rw (detach_registration-eq s id retire found) (
    rw ((release_leases_keeps _ _).0, unlisted-registrations s entry id retire)
      (rw (get-remove s.registrations id id, text_eq_refl id)))

detached-retired :
    (s : State) (id : RegistrationId) (retire : Bool) {entry : RegistrationState}
    → Map.get s.registrations id ≡ some entry
    → (detach_registration s id retire).1.retired_registration_ids
      ≡ (unlisted s entry id retire).retired_registration_ids
detached-retired s id retire found =
    rw (detach_registration-eq s id retire found) ((release_leases_keeps _ _).1)

retire_after_unlist :
    (s : State) (entry : RegistrationState) (id : RegistrationId)
    → (retire_registration_id (unlist_registration s entry id) id).retired_registration_ids
      ≡ (retire_registration_id s id).retired_registration_ids
unfolding retire_registration_id unlist_registration
retire_after_unlist s entry id = refl

unlist_keeps_retired :
    (s : State) (entry : RegistrationState) (id : RegistrationId)
    → (unlist_registration s entry id).retired_registration_ids ≡ s.retired_registration_ids
unfolding unlist_registration
unlist_keeps_retired s entry id = refl

-- An id without an entry is refused, as expired if it is known to be retired.
validate_missing :
    (s : State) (c : RegistrationCredentials) (now : ℕ)
    → Map.get s.registrations c.id ≡ none
    → validate_active_registration s c now ≡ (
        if TextSet.contains s.retired_registration_ids c.id
        then err registration_expired
        else err registration_not_found)
unfolding validate_active_registration
validate_missing s c now missing = rw (missing, validate_active_registration)

-- In a state whose order of retired ids is at most 4096 long and lists only ids of the retired set,
-- the credentials of a registration that is detached, and whose id was not retired before, are
-- refused at any time: as expired if the detachment retires the id, and as not found if not.
pub detach_registration-revokes :
    (s : State) (c : RegistrationCredentials) (now : ℕ) {entry : RegistrationState}
    → IsRetiredValid s
    → Map.get s.registrations c.id ≡ some entry
    → TextSet.contains s.retired_registration_ids c.id ≡ false
    → (validate_active_registration (detach_registration s c.id true).1 c now
        ≡ err registration_expired)
      × (validate_active_registration (detach_registration s c.id false).1 c now
          ≡ err registration_not_found)
detach_registration-revokes s c now {entry} v found unknown = (
  rw
      (validate_missing (detach_registration s c.id true).1 c now
        (detached-registrations s c.id true found))
      (rw (
        detached-retired s c.id true found,
        retire_after_unlist s entry c.id,
        contains-retire_registration_id s c.id v,
      )),
  rw
      (validate_missing (detach_registration s c.id false).1 c now
        (detached-registrations s c.id false found))
      (rw (detached-retired s c.id false found, unlist_keeps_retired s entry c.id, unknown)),
)
