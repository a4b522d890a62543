-- ===== src/Identity/Names.antt =====
-- Canonical names: a slug, a dash and a suffix of base32. Of
-- crates/herdr-a2a-broker/src/identity.rs.
use herdr_a2a.Base.{
  ℕ, zero, suc, ◌+◌, ◌-◌, ◌≤◌, ◌≡◌, refl, sym, ◌∙◌, subst, Bool, true, false, ◌&&◌, ◌||◌, not,
  Option, none, some, List, [], ◌∷◌, ◌++◌, map, inl, inr, leb, le→leb, ◌==◌, if◌then◌else◌, length,
  length-append, all, Text, text_eq, text_eq_refl, &&_parts, Bool-cases, arith,
}
use herdr_a2a.Base.Outcome.{Outcome, done, failed, ◌>>=◌, ◌>>◌, require, some_or, done-injective}
use herdr_a2a.Core.Errors.{Result, ok}
use herdr_a2a.Core.Model.{AgentName, is_ascii_lowercase, is_ascii_digit}
use herdr_a2a.Core.Validation.{parse_agent_name, is_name_byte}
use herdr_a2a.Identity.Slug.{canonical_slug}
use herdr_a2a.Identity.Slug.Shape.{IsSlug, read_slug, is_slug_letter, canonical_slug-IsSlug}
use herdr_a2a.Identity.Slug.Fixed.{canonical_slug-slug}

-- `IdentityError`, without the faults of the database.
pub data IdentityError : Type 0 where
  invalid_data workspace_mismatch allocation_exhausted : IdentityError

-- A byte of `a`..=`z`, `2`..=`7`
abbrev pub is_base32 : ℕ → Bool
is_base32 b = is_ascii_lowercase b || (leb b'2' b && leb b b'7')

unfoldable pub validate_suffix : Text → Outcome IdentityError (Unit {0})
validate_suffix suffix =
    require ((leb 4 (length suffix) && leb (length suffix) 8) && all is_base32 suffix) invalid_data

-- `BASE32[usize::from(nibble)]`, for a nibble: the first sixteen of the alphabet are letters.
abbrev base32_of : ℕ → ℕ
base32_of nibble = b'a' + nibble

-- The nibble of a hexadecimal digit.
unfoldable pub nibble_of : ℕ → Option ℕ
nibble_of b =
    if is_ascii_digit b
    then some (b - b'0')
    else if leb b'a' b && leb b b'f'
    then some (b - b'a' + 10)
    else none

abbrev random_suffix_bytes : ℕ
random_suffix_bytes = 6

-- `filter_map(…).take(n)`
unfoldable pub take_nibbles : ℕ → Text → List ℕ
take_nibbles n [] = []
take_nibbles n (b ∷ bs) = elim (nibble_of b) [
  | none ↦ take_nibbles n bs
  | some nibble ↦ elim n [ zero ↦ [] | suc m ↦ nibble ∷ take_nibbles m bs ]
]

-- `bytes().rev()`
unfoldable pub reverse : Text → Text
reverse [] = []
reverse (b ∷ bs) = reverse bs ++ (b ∷ [])

-- `RandomSuffix::suffix`, for the text of a fresh UUID.
unfoldable pub suffix_of : Text → Outcome IdentityError Text
suffix_of id =
    let nibbles = take_nibbles random_suffix_bytes (reverse id) in
    require (length nibbles == random_suffix_bytes) invalid_data >> done (map base32_of nibbles)

-- `AgentName::parse(&format!("{original_role_slug}-{suffix}"))`
abbrev pub joined : Text → Text → Text
joined slug suffix = slug ++ (b'-' ∷ suffix)

-- `map_err` of a parsed name
abbrev pub parsed_name : Result AgentName → Outcome IdentityError AgentName
parsed_name (ok name) = done name
parsed_name _ = failed invalid_data

unfoldable pub canonical_name_from_parts : Text → Text → Outcome IdentityError AgentName
canonical_name_from_parts slug suffix = do
  require (text_eq (canonical_slug (some slug)) slug) invalid_data
  validate_suffix suffix
  parsed_name (parse_agent_name (joined slug suffix))

unfoldable pub strip_prefix : Text → Text → Option Text
strip_prefix [] text = some text
strip_prefix (p ∷ ps) [] = none
strip_prefix (p ∷ ps) (b ∷ bs) = let rest = strip_prefix ps bs in if p == b then rest else none

unfoldable pub validate_canonical_name : Text → Text → Outcome IdentityError (Unit {0})
validate_canonical_name name slug = do
  remainder ← some_or (strip_prefix slug name) invalid_data
  suffix ← some_or (strip_prefix (b'-' ∷ []) remainder) invalid_data
  expected ← canonical_name_from_parts slug suffix
  require (text_eq expected name) invalid_data

name_bytes :
    (dash : Bool) (bs : Text) {last : Bool}
    → read_slug dash bs ≡ some last
    → all is_name_byte bs ≡ true
unfolding read_slug
name_bytes dash [] h = refl
name_bytes dash (b ∷ bs) {last} h = elim (Bool-cases (is_slug_letter b)) [
  | inl e ↦ let rest = name_bytes false bs (rw (read_slug, e) at h) in ground arith
  | inr e ↦ elim (Bool-cases (b == b'-' && not dash)) [
    | inr d ↦ let no : none ≡ some last = rw (read_slug, e, d) at h in cc
    | inl d ↦ let rest = name_bytes true bs (rw (read_slug, e, d) at h) in ground arith
  ]
]

all-append :
    (p : ℕ → Bool) (xs ys : Text) → all p xs ≡ true → all p ys ≡ true → all p (xs ++ ys) ≡ true
all-append p [] ys h g = g
all-append p (x ∷ xs) ys h g = ground (arith, all-append p xs ys)

base32-name_bytes : (bs : Text) → all is_base32 bs ≡ true → all is_name_byte bs ≡ true
base32-name_bytes [] h = refl
base32-name_bytes (b ∷ bs) h = let rest = base32-name_bytes bs in ground arith

joined_short :
    (bs suffix : Text)
    → suc (length bs) ≤ 25
    → length suffix ≤ 6
    → suc (length (bs ++ (b'-' ∷ suffix))) ≤ 32
joined_short bs suffix fits short = omega (arith, length-append bs (b'-' ∷ suffix))

-- A slug with a dash and a suffix of at most six bytes is an agent's name.
joined-name :
    (slug suffix : Text)
    → IsSlug slug
    → length suffix ≤ 6
    → all is_base32 suffix ≡ true
    → parse_agent_name (joined slug suffix) ≡ ok (joined slug suffix)
unfolding parse_agent_name IsSlug
joined-name [] suffix (first, _, _) short h = cc
joined-name (b ∷ bs) suffix (first, read, fits) short h =
    let (_, body) =
      &&_parts (is_name_byte b) (all is_name_byte bs) (name_bytes true (b ∷ bs) read) in
    let bytes = all-append is_name_byte bs (b'-' ∷ suffix) body (base32-name_bytes suffix h) in
    rw
      (
        le→leb (suc (length (bs ++ (b'-' ∷ suffix)))) 32 (joined_short bs suffix fits short),
        first,
        bytes,
      )
      refl

-- For every role, the canonical slug and a suffix of four to six bytes of base32 make a canonical
-- name: the slug, a dash and the suffix.
pub canonical_name_from_parts-slug :
    (label : Option (List ℕ)) (suffix : Text)
    → 4 ≤ length suffix
    → length suffix ≤ 6
    → all is_base32 suffix ≡ true
    → canonical_name_from_parts (canonical_slug label) suffix
      ≡ done (joined (canonical_slug label) suffix)
unfolding canonical_name_from_parts validate_suffix
canonical_name_from_parts-slug label suffix low short h =
    let slug = canonical_slug label in
    let shape = canonical_slug-IsSlug label in
    rw
      (
        canonical_slug-slug slug shape,
        text_eq_refl slug,
        le→leb 4 (length suffix) low,
        le→leb (length suffix) 8 (omega arith),
        h,
        joined-name slug suffix shape short h,
      )
      refl

strip_prefix-append : (xs ys : Text) → strip_prefix xs (xs ++ ys) ≡ some ys
unfolding strip_prefix
strip_prefix-append [] ys = refl
strip_prefix-append (x ∷ xs) ys = ground (arith, strip_prefix-append xs ys)

-- A name that canonical_name_from_parts makes of a role's slug and a suffix of four to six bytes
-- of base32 is a valid canonical name of that slug.
pub validate_canonical_name-made :
    (label : Option (List ℕ)) (suffix : Text) {name : AgentName}
    → 4 ≤ length suffix
    → length suffix ≤ 6
    → all is_base32 suffix ≡ true
    → canonical_name_from_parts (canonical_slug label) suffix ≡ done name
    → validate_canonical_name name (canonical_slug label) ≡ done tt
unfolding validate_canonical_name strip_prefix
validate_canonical_name-made label suffix {name} low short h made =
    let slug = canonical_slug label in
    let expected = canonical_name_from_parts-slug label suffix low short h in
    subst (λ n. validate_canonical_name n slug ≡ done tt) (done-injective (sym expected ∙ made))
      (rw (strip_prefix-append slug (b'-' ∷ suffix), expected, text_eq_refl (joined slug suffix))
        refl)
