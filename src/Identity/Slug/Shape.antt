-- ===== src/Identity/Slug/Shape.antt =====
-- The shape of slugs.
use herdr_a2a.Base.{
  ℕ, ◌≤◌, ◌<◌, ◌≡◌, ◌⊎◌, refl, ap, ◌∙◌, Bool, true, false, ◌&&◌, ◌||◌, not, Option, none, some,
  List, [], ◌∷◌, ◌++◌, inl, inr, ltb, ◌==◌, if◌then◌else◌, length, length-append, is_empty, Text,
  Bool-cases, ltb→lt, arith,
}
use herdr_a2a.Base.Outcome.{some-injective}
use herdr_a2a.Core.Model.{is_ascii_alphanumeric, is_ascii_lowercase, is_ascii_digit}
use herdr_a2a.Identity.Slug.{
  to_ascii_lowercase, push_separator, push_character, gather, trim_dashes, starts_lowercase,
  default_slug, label_characters, or_default, canonical_slug,
}

abbrev pub is_slug_letter : ℕ → Bool
is_slug_letter b = is_ascii_lowercase b || is_ascii_digit b

-- Reads letters and single dashes, from after a dash or not: whether the last was a dash.
unfoldable pub read_slug : Bool → Text → Option Bool
read_slug dash [] = some dash
read_slug dash (b ∷ bs) =
    let after_dash = read_slug true bs in
    let after_letter = read_slug false bs in
    if is_slug_letter b then after_letter else if b == b'-' && not dash then after_dash else none

-- A slug begins with a lowercase letter, consists of letters and digits with single dashes
-- between them, and is of 25 bytes at most.
unfoldable pub IsSlug : Text → Type 0
IsSlug slug =
    (starts_lowercase slug ≡ true) × (read_slug true slug ≡ some false) × (length slug ≤ 25)

read_slug-append :
    (dash : Bool) (xs : Text) (b : ℕ) {last : Bool}
    → read_slug dash xs ≡ some last
    → read_slug dash (xs ++ (b ∷ [])) ≡ read_slug last (b ∷ [])
unfolding read_slug
read_slug-append dash [] b h = ap (λ d. read_slug d (b ∷ [])) (some-injective h)
read_slug-append dash (x ∷ xs) b {last} h = elim (Bool-cases (is_slug_letter x)) [
  | inl e ↦ rw (read_slug, e) (read_slug-append false xs b (rw (read_slug, e) at h))
  | inr e ↦ elim (Bool-cases (x == b'-' && not dash)) [
    | inl d ↦ rw (read_slug, e, d) (read_slug-append true xs b (rw (read_slug, e, d) at h))
    | inr d ↦ let no : none ≡ some last = rw (read_slug, e, d) at h in cc
  ]
]

-- What `gather` has gathered: slugs so far, that end in a dash only when they are full.
abbrev IsGathered : Text → Type 0
IsGathered slug =
    (length slug ≤ 25)
    × ((read_slug true slug ≡ some false)
        ⊎ ((slug ≡ []) ⊎ ((read_slug true slug ≡ some true) × (length slug ≡ 25))))

-- Slugs so far that may end in a dash.
abbrev IsReadable : Text → Type 0
IsReadable slug = (length slug ≤ 25) × (last : Bool) × (read_slug true slug ≡ some last)

gathered-IsReadable : (slug : Text) → IsGathered slug → IsReadable slug
unfolding read_slug
gathered-IsReadable slug (fits, inl r) = (fits, false, r)
gathered-IsReadable slug (fits, inr (inl e)) = (fits, true, ap (read_slug true) e)
gathered-IsReadable slug (fits, inr (inr (r, _))) = (fits, true, r)

separator-IsReadable :
    (slug : Text)
    → is_empty slug ≡ false
    → length slug < 25
    → IsGathered slug
    → IsReadable (slug ++ (b'-' ∷ []))
unfolding read_slug
separator-IsReadable slug some_byte short (_, inl r) =
    (omega (arith, length-append slug (b'-' ∷ [])), true, read_slug-append true slug b'-' r)
separator-IsReadable slug some_byte short (_, inr (inl e)) =
    let empty : is_empty slug ≡ true = ap is_empty e in cc
separator-IsReadable slug some_byte short (_, inr (inr (_, full))) = absurd (omega arith)

push_separator-IsReadable :
    (slug : Text) (separator : Bool) → IsGathered slug → IsReadable (push_separator slug separator)
unfolding push_separator
push_separator-IsReadable slug separator g =
    elim (Bool-cases (separator && (not (is_empty slug) && ltb (length slug) 25))) [
      | inl e ↦ rw (push_separator, e) (separator-IsReadable slug (ground arith) (ground arith) g)
      | inr e ↦ rw (push_separator, e) (gathered-IsReadable slug g)
    ]

lowercase-letter :
    (c : ℕ) → is_ascii_alphanumeric c ≡ true → is_slug_letter (to_ascii_lowercase c) ≡ true
unfolding to_ascii_lowercase
lowercase-letter c h = ground arith

full-IsGathered : (slug : Text) → IsReadable slug → 25 ≤ length slug → IsGathered slug
full-IsGathered slug (fits, false, r) full = (fits, inl r)
full-IsGathered slug (fits, true, r) full = (fits, inr (inr (r, omega arith)))

push_character-IsGathered :
    (slug : Text) (c : ℕ)
    → is_ascii_alphanumeric c ≡ true
    → IsReadable slug
    → IsGathered (push_character slug c)
unfolding push_character read_slug
push_character-IsGathered slug c h (fits, last, r) = elim (Bool-cases (ltb (length slug) 25)) [
  | inl e ↦
      let letter = lowercase-letter c h in
      rw (push_character, e)
        (
          omega (arith, length-append slug (to_ascii_lowercase c ∷ []), ltb→lt _ _ e),
          inl (read_slug-append true slug (to_ascii_lowercase c) r ∙ rw (read_slug, letter) refl),
        )
  | inr e ↦ rw (push_character, e) (full-IsGathered slug (fits, last, r) (ground arith))
]

push-IsGathered :
    (slug : Text) (separator : Bool) (c : ℕ)
    → is_ascii_alphanumeric c ≡ true
    → IsGathered slug
    → IsGathered (push_character (push_separator slug separator) c)
push-IsGathered slug separator c h g =
    push_character-IsGathered (push_separator slug separator) c h
      (push_separator-IsReadable slug separator g)

gather-IsGathered :
    (slug : Text) (separator : Bool) (cs : List ℕ)
    → IsGathered slug
    → IsGathered (gather slug separator cs)
unfolding gather
gather-IsGathered slug separator [] g = g
gather-IsGathered slug separator (c ∷ cs) g = elim (Bool-cases (is_ascii_alphanumeric c)) [
  | inl e ↦
      rw (gather, e)
        (gather-IsGathered (push_character (push_separator slug separator) c) false cs
          (push-IsGathered slug separator c e g))
  | inr e ↦ rw (gather, e) (gather-IsGathered slug true cs g)
]

length-trim_dashes-le : (bs : Text) → length (trim_dashes bs) ≤ length bs
unfolding trim_dashes
length-trim_dashes-le [] = omega arith
length-trim_dashes-le (b ∷ bs) = ground (arith, length-trim_dashes-le bs)

trimmed_rest :
    (bs : Text)
    → (trim_dashes bs ≡ []) ⊎ (read_slug false (trim_dashes bs) ≡ some false)
    → read_slug false (trim_dashes bs) ≡ some false
unfolding read_slug
trimmed_rest bs (inl e) = ap (read_slug false) e
trimmed_rest bs (inr r) = r

trimmed_dash :
    (dash : Bool) (b : ℕ) (bs : Text)
    → is_slug_letter b ≡ false
    → (b == b'-' && not dash) ≡ true
    → (trim_dashes bs ≡ []) ⊎ (read_slug true (trim_dashes bs) ≡ some false)
    → (trim_dashes (b ∷ bs) ≡ []) ⊎ (read_slug dash (trim_dashes (b ∷ bs)) ≡ some false)
unfolding trim_dashes read_slug
trimmed_dash dash b bs e d (inl empty) =
    let is_dash : (b == b'-') ≡ true = ground arith in inl (rw (trim_dashes, is_dash, empty) refl)
trimmed_dash dash b bs e d (inr r) = elim (Bool-cases (b == b'-' && is_empty (trim_dashes bs))) [
  | inl t ↦ inl (rw (trim_dashes, t) refl)
  | inr t ↦ inr (rw (trim_dashes, t, read_slug, e, d) r)
]

read_slug-trim_dashes :
    (dash : Bool) (bs : Text) {last : Bool}
    → read_slug dash bs ≡ some last
    → (trim_dashes bs ≡ []) ⊎ (read_slug dash (trim_dashes bs) ≡ some false)
unfolding trim_dashes read_slug
read_slug-trim_dashes dash [] h = inl refl
read_slug-trim_dashes dash (b ∷ bs) {last} h = elim (Bool-cases (is_slug_letter b)) [
  | inl e ↦
      let not_dash : (b == b'-') ≡ false = ground arith in
      inr (
        rw (trim_dashes, not_dash, read_slug, e)
          (trimmed_rest bs (read_slug-trim_dashes false bs (rw (read_slug, e) at h))))
  | inr e ↦ elim (Bool-cases (b == b'-' && not dash)) [
    | inr d ↦ let no : none ≡ some last = rw (read_slug, e, d) at h in cc
    | inl d ↦ trimmed_dash dash b bs e d (read_slug-trim_dashes true bs (rw (read_slug, e, d) at h))
  ]
]

default-IsSlug : IsSlug default_slug
unfolding IsSlug read_slug
default-IsSlug = (refl, refl, omega arith)

or_default-IsSlug :
    (slug : Text)
    → (slug ≡ []) ⊎ (read_slug true slug ≡ some false)
    → length slug ≤ 25
    → IsSlug (or_default slug)
unfolding IsSlug
or_default-IsSlug slug read fits = elim (Bool-cases (starts_lowercase slug)) [
  | inr e ↦ rw e default-IsSlug
  | inl e ↦ rw e (elim read [
    | inl empty ↦ let no : starts_lowercase slug ≡ false = ap starts_lowercase empty in cc
    | inr r ↦ (e, r, fits)
  ])
]

-- Every canonical slug is a slug.
pub canonical_slug-IsSlug : (label : Option (List ℕ)) → IsSlug (canonical_slug label)
unfolding canonical_slug IsSlug
canonical_slug-IsSlug label =
    let gathered =
      gather-IsGathered [] false (label_characters label) (omega arith, inr (inl refl)) in
    let (fits, last, read) =
      gathered-IsReadable (gather [] false (label_characters label)) gathered in
    or_default-IsSlug (trim_dashes (gather [] false (label_characters label)))
      (read_slug-trim_dashes true (gather [] false (label_characters label)) read)
      (omega (arith, length-trim_dashes-le (gather [] false (label_characters label))))
