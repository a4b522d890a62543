-- ===== src/Store/Admissions/Matching.antt =====
-- What an admission that is consumed has to do with the projection it is consumed for.
use herdr_a2a.Base.{
  ℕ, ◌+◌, ◌≤◌, ◌<◌, ◌≡◌, refl, ap, subst, Bool, true, false, none, some, [], ◌∷◌, ◌++◌, inl, inr,
  unwrap_or, ltb, ◌&&◌, Text, text_eq, text_eq_iff, text_eq_refl, Bool-cases, Option-cases,
  &&_parts, arith, u64_max, u64_succ_in_range, le→leb,
}
use herdr_a2a.Base.Map.{Map}
use herdr_a2a.Base.Map
use herdr_a2a.Base.Outcome.{done}
use herdr_a2a.Store.Admissions.{
  SdkProjectionAdmission, ProjectionFingerprint, TaskIncarnation, Queue, Registry, incarnation_eq,
  push_back, record_admission, admits, find_admission, consume,
}
use herdr_a2a.Store.Admissions.Bounded.{IsBounded, drop_admission-IsBounded}
use herdr_a2a.Store.Admissions.Kept.{find_admission-within, make_room-done}

incarnation_eq_sound : (a b : TaskIncarnation) → incarnation_eq a b ≡ true → a ≡ b
unfolding incarnation_eq
incarnation_eq_sound a b h = ground (
  arith,
  text_eq_iff a.context_id b.context_id,
  text_eq_iff a.sender b.sender,
  text_eq_iff a.recipient b.recipient,
)

incarnation_eq_refl : (a : TaskIncarnation) → incarnation_eq a a ≡ true
unfolding incarnation_eq
incarnation_eq_refl a =
    rw (text_eq_refl a.context_id, text_eq_refl a.sender, text_eq_refl a.recipient) (ground arith)

-- The admission is of this projection, of this incarnation of the task, and not of a later version.
unfoldable pub IsAdmissionOf :
    ProjectionFingerprint → ℕ → TaskIncarnation → SdkProjectionAdmission → Type 0
IsAdmissionOf fingerprint version incarnation a =
    (a.fingerprint ≡ fingerprint) × (a.incarnation ≡ incarnation) × (a.version ≤ version)

admits-IsAdmissionOf :
    (fingerprint : ProjectionFingerprint) (version : ℕ) (incarnation : TaskIncarnation)
    (superseded : Bool) (a : SdkProjectionAdmission)
    → admits fingerprint version incarnation superseded a ≡ true
    → IsAdmissionOf fingerprint version incarnation a
unfolding admits IsAdmissionOf
admits-IsAdmissionOf fingerprint version incarnation superseded a h =
    let (same, recent) = &&_parts _ _ h in
    let (f, i) = &&_parts _ _ same in
    (
      (text_eq_iff a.fingerprint fingerprint).0 f,
      incarnation_eq_sound a.incarnation incarnation i,
      ground arith,
    )

admits_refl :
    (fingerprint : ProjectionFingerprint) (version current : ℕ) (incarnation : TaskIncarnation)
    (sequence : ℕ)
    → version ≤ current
    → admits fingerprint current incarnation false (record {
      fingerprint = fingerprint;
      version = version;
      incarnation = incarnation;
      sequence = sequence;
    })
      ≡ true
unfolding admits
admits_refl fingerprint version current incarnation sequence h =
    rw (text_eq_refl fingerprint, incarnation_eq_refl incarnation, le→leb version current h) refl

find_admission-passes :
    (p : SdkProjectionAdmission → Bool) (i : ℕ) (q : Queue) {o : ℕ × SdkProjectionAdmission}
    → find_admission p i q ≡ some o
    → p (o.1) ≡ true
unfolding find_admission
find_admission-passes p i [] h = cc
find_admission-passes p i (a ∷ q) {o} h = elim (Bool-cases (p a)) [
  | inl e ↦
      let taken : some (i, a) ≡ some o = rw e at h in
      let same : (i, a) ≡ o = cc in subst (λ x. p (x.1) ≡ true) same e
  | inr e ↦ find_admission-passes p (i + 1) q (rw e at h)
]

-- The admission is in the queue.
unfoldable pub IsIn : SdkProjectionAdmission → Queue → Type 0
IsIn a q = (before after : Queue) × (q ≡ before ++ (a ∷ after))

find_admission-IsIn :
    (p : SdkProjectionAdmission → Bool) (i : ℕ) (q : Queue) {o : ℕ × SdkProjectionAdmission}
    → find_admission p i q ≡ some o
    → IsIn (o.1) q
unfolding find_admission IsIn
find_admission-IsIn p i [] h = cc
find_admission-IsIn p i (a ∷ q) {o} h = elim (Bool-cases (p a)) [
  | inl e ↦
      let taken : some (i, a) ≡ some o = rw e at h in
      let same : (i, a) ≡ o = cc in ([], q, ap (λ x. x.1 ∷ q) same)
  | inr e ↦
      let (before, after, split) = find_admission-IsIn p (i + 1) q (rw e at h) in
      (a ∷ before, after, ap (λ x. a ∷ x) split)
]

admits_superseded :
    (fingerprint : ProjectionFingerprint) (version : ℕ) (incarnation : TaskIncarnation)
    (a : SdkProjectionAdmission)
    → admits fingerprint version incarnation true a ≡ true
    → a.version < version
unfolding admits
admits_superseded fingerprint version incarnation a h =
    let (_, recent) =
      &&_parts (text_eq a.fingerprint fingerprint && incarnation_eq a.incarnation incarnation)
        (ltb a.version version) h in
    ground arith

-- What consume takes is in the queue of the task; it is of an earlier version where the projection
-- may have been superseded.
pub consume-registered :
    (r : Registry) (k : Text) (fingerprint : ProjectionFingerprint) (version : ℕ)
    (incarnation : TaskIncarnation) {a : SdkProjectionAdmission}
    → (consume r k fingerprint version incarnation true).0 ≡ some a
    → (q : Queue) × (Map.get r.by_task k ≡ some q)
      × IsIn a q
      × IsAdmissionOf fingerprint version incarnation a
      × (a.version < version)
unfolding consume
consume-registered r k fingerprint version incarnation {a} h =
    elim (Option-cases (Map.get r.by_task k)) [
      | inl e ↦ let nothing : none ≡ some a = rw (consume, e) at h in cc
      | inr (q, g) ↦
          elim (Option-cases (find_admission (admits fingerprint version incarnation true) 0 q)) [
            | inl e ↦ let nothing : none ≡ some a = rw (consume, g, e) at h in cc
            | inr (o, e) ↦
                let found : some (o.1) ≡ some a = rw (consume, g, e) at h in
                let same : o.1 ≡ a = cc in
                let passes =
                  find_admission-passes (admits fingerprint version incarnation true) 0 q e in
                subst
                  (λ x.
                    (q' : Queue) × (Map.get r.by_task k ≡ some q')
                    × IsIn x q'
                    × IsAdmissionOf fingerprint version incarnation x
                    × (x.version < version))
                  same
                  (
                    q,
                    g,
                    find_admission-IsIn (admits fingerprint version incarnation true) 0 q e,
                    admits-IsAdmissionOf fingerprint version incarnation true (o.1) passes,
                    admits_superseded fingerprint version incarnation (o.1) passes,
                  )
          ]
    ]

-- An admission that consume takes from a bounded registry is of this projection, of this
-- incarnation of the task and not of a later version, and the registry holds one less than before.
pub consume-matches :
    (r : Registry) (k : Text) (fingerprint : ProjectionFingerprint) (version : ℕ)
    (incarnation : TaskIncarnation) (superseded : Bool) {a : SdkProjectionAdmission}
    → IsBounded r
    → (consume r k fingerprint version incarnation superseded).0 ≡ some a
    → IsAdmissionOf fingerprint version incarnation a
      × ((consume r k fingerprint version incarnation superseded).1.total + 1 ≡ r.total)
unfolding consume
consume-matches r k fingerprint version incarnation superseded {a} b h =
    elim (Option-cases (Map.get r.by_task k)) [
      | inl e ↦ let nothing : none ≡ some a = rw (consume, e) at h in cc
      | inr (q, g) ↦
          elim (Option-cases
            (find_admission (admits fingerprint version incarnation superseded) 0 q)) [
              | inl e ↦ let nothing : none ≡ some a = rw (consume, g, e) at h in cc
              | inr (o, e) ↦
                  let found : some (o.1) ≡ some a = rw (consume, g, e) at h in
                  let within =
                    find_admission-within (admits fingerprint version incarnation superseded) 0 q
                      e in
                  let passes =
                    find_admission-passes (admits fingerprint version incarnation superseded) 0 q
                      e in
                  let same : o.1 ≡ a = cc in
                  (
                    subst (λ x. IsAdmissionOf fingerprint version incarnation x) same
                        (admits-IsAdmissionOf fingerprint version incarnation superseded (o.1)
                          passes),
                    rw (consume, g, e) ((drop_admission-IsBounded r k q (o.0) b g (omega arith)).1),
                  )
            ]
    ]

find_admission-last :
    (p : SdkProjectionAdmission → Bool) (i : ℕ) (q : Queue) (a : SdkProjectionAdmission)
    → p a ≡ true
    → (o : ℕ × SdkProjectionAdmission) × (find_admission p i (q ++ (a ∷ [])) ≡ some o)
unfolding find_admission
find_admission-last p i [] a h = ((i, a), rw h refl)
find_admission-last p i (x ∷ q) a h = elim (Bool-cases (p x)) [
  | inl e ↦ ((i, x), rw e refl)
  | inr e ↦ let (o, found) = find_admission-last p (i + 1) q a h in (o, rw e found)
]

consume_found :
    (r : Registry) (k : Text) (fingerprint : ProjectionFingerprint) (version : ℕ)
    (incarnation : TaskIncarnation) (superseded : Bool) (q : Queue) (o : ℕ × SdkProjectionAdmission)
    → Map.get r.by_task k ≡ some q
    → find_admission (admits fingerprint version incarnation superseded) 0 q ≡ some o
    → (consume r k fingerprint version incarnation superseded).0 ≡ some (o.1)
unfolding consume
consume_found r k fingerprint version incarnation superseded q o g e = rw (consume, g, e) refl

-- After record on a bounded registry with sequences left, consume finds an admission of the
-- recorded projection, as long as the task's version is not less than the recorded one and the
-- projection is not superseded.
pub record_admission-consume :
    (r : Registry) (k : Text) (fingerprint : ProjectionFingerprint) (version current : ℕ)
    (incarnation : TaskIncarnation)
    → IsBounded r
    → r.next_sequence < u64_max
    → version ≤ current
    → (r1 : Registry) × (record_admission r k fingerprint version incarnation ≡ done r1)
      × (a : SdkProjectionAdmission) × ((consume r1 k fingerprint current incarnation false).0
          ≡ some a)
      × IsAdmissionOf fingerprint current incarnation a
unfolding record_admission push_back IsBounded
record_admission-consume r k fingerprint version current incarnation b more recent =
    let a : SdkProjectionAdmission = record {
      fingerprint = fingerprint;
      version = version;
      incarnation = incarnation;
      sequence = r.next_sequence;
    } in
    let (r1, e, _, _, _, _) =
      make_room-done (record r { next_sequence = r.next_sequence + 1 }) k b in
    let old = unwrap_or (Map.get r1.by_task k) [] in
    let r2 : Registry = record r1 { by_task = push_back r1.by_task k a; total = r1.total + 1 } in
    let (o, found) =
      find_admission-last (admits fingerprint current incarnation false) 0 old a
        (admits_refl fingerprint version current incarnation r.next_sequence recent) in
    let passes =
      find_admission-passes (admits fingerprint current incarnation false) 0 (old ++ (a ∷ []))
        found in
    (
      r2,
      rw (u64_succ_in_range r.next_sequence more, e) refl,
      o.1,
      consume_found r2 k fingerprint current incarnation false (old ++ (a ∷ [])) o
          (Map.get-insert_self r1.by_task k (old ++ (a ∷ []))) found,
      admits-IsAdmissionOf fingerprint current incarnation false (o.1) passes,
    )
