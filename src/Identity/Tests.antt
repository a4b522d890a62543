-- ===== src/Identity/Tests.antt =====
-- Names and identities on concrete inputs.
use herdr_a2a.Base.{
  ℕ, ◌≤◌, ◌≡◌, refl, Bool, true, false, Option, none, some, List, [], ◌∷◌, ◌++◌, Text, arith,
}
use herdr_a2a.Base.Outcome.{Outcome, done}
use herdr_a2a.Core.Model.{VerifiedPane}
use herdr_a2a.Identity.Slug.{canonical_slug}
use herdr_a2a.Identity.Slug.Shape.{IsSlug, canonical_slug-IsSlug}
use herdr_a2a.Identity.Slug.Fixed.{canonical_slug-slug}
use herdr_a2a.Identity.Names.{
  IdentityError, allocation_exhausted, canonical_name_from_parts, validate_canonical_name, joined,
  canonical_name_from_parts-slug, validate_canonical_name-made, suffix_of,
}
use herdr_a2a.Identity.Table.{
  IdentityRow, Resolved, allocate, resolve_or_create, new_row, new_identity, check_pane, find_row,
  has_key,
}
use herdr_a2a.Identity.Table.Allocation.{
  HasDistinctNames, resolve_or_create-HasDistinctNames, IsFirstFree, resolve_or_create-IsFirstFree,
}
use herdr_a2a.Identity.Table.Lookup.{IsOnRecord, resolve_or_create-IsOnRecord}

-- "Code - Review"
abbrev role : List ℕ
role = b'C' ∷ b'o' ∷ b'd' ∷ b'e' ∷ b' ' ∷ b'-' ∷ b' ' ∷ b'R' ∷ []

-- "code-r"
abbrev slug : Text
slug = b'c' ∷ b'o' ∷ b'd' ∷ b'e' ∷ b'-' ∷ b'r' ∷ []

-- "abcdef"
abbrev suffix : Text
suffix = b'a' ∷ b'b' ∷ b'c' ∷ b'd' ∷ b'e' ∷ b'f' ∷ []

role-slug : canonical_slug (some role) ≡ slug
unfolding canonical_slug herdr_a2a.Identity.Slug.trim_dashes herdr_a2a.Identity.Slug.gather
    herdr_a2a.Identity.Slug.push_character herdr_a2a.Identity.Slug.push_separator
    herdr_a2a.Identity.Slug.to_ascii_lowercase
role-slug = refl

suffix_of_hex : suffix_of (b'5' ∷ b'4' ∷ b'-' ∷ b'3' ∷ b'2' ∷ b'1' ∷ b'0' ∷ []) ≡ done suffix
unfolding suffix_of herdr_a2a.Identity.Names.take_nibbles herdr_a2a.Identity.Names.reverse
    herdr_a2a.Identity.Names.nibble_of
suffix_of_hex = refl

abbrev pane : VerifiedPane
pane = record {
  pane_id = b'p' ∷ [];
  workspace_id = b'w' ∷ [];
  role = role;
  harness = b'h' ∷ [];
  workspace_path = b'/' ∷ [];
}

abbrev session : Text
session = b's' ∷ []

abbrev source : ℕ → Outcome IdentityError Text
source _ = done suffix

abbrev rows : List IdentityRow
rows = new_row pane session slug (joined slug suffix) ∷ []

resolved :
    (resolve_or_create source none pane session []).0
    ≡ done (new_identity pane session slug (joined slug suffix))
unfolding resolve_or_create herdr_a2a.Identity.Table.after_checks
    herdr_a2a.Identity.Table.check_pane herdr_a2a.Identity.Table.validate_pane
    herdr_a2a.Identity.Table.validate_field herdr_a2a.Identity.Table.has_control
    herdr_a2a.Identity.Table.resolve_found herdr_a2a.Identity.Table.find_row allocate
    herdr_a2a.Identity.Table.draws herdr_a2a.Identity.Table.try_name canonical_name_from_parts
    herdr_a2a.Base.text_eq canonical_slug herdr_a2a.Identity.Slug.trim_dashes
    herdr_a2a.Identity.Slug.gather herdr_a2a.Identity.Slug.push_character
    herdr_a2a.Core.Validation.parse_agent_name herdr_a2a.Core.Validation.parse_role_label
    herdr_a2a.Identity.Names.validate_suffix herdr_a2a.Identity.Slug.push_separator
    herdr_a2a.Identity.Slug.to_ascii_lowercase herdr_a2a.Identity.Table.has_key
    herdr_a2a.Identity.Table.identity_from_parts herdr_a2a.Identity.Table.is_refused
    herdr_a2a.Identity.Table.update_role
resolved = refl

rows-HasDistinctNames : HasDistinctNames rows
unfolding HasDistinctNames
rows-HasDistinctNames = (tt, tt)

slug-IsSlug : IsSlug slug
unfolding IsSlug herdr_a2a.Identity.Slug.Shape.read_slug
slug-IsSlug = (refl, refl, omega arith)

made : canonical_name_from_parts (canonical_slug (some role)) suffix ≡ done (joined slug suffix)
unfolding canonical_name_from_parts herdr_a2a.Base.text_eq canonical_slug
    herdr_a2a.Identity.Slug.trim_dashes herdr_a2a.Identity.Slug.gather
    herdr_a2a.Identity.Slug.push_character herdr_a2a.Identity.Slug.push_separator
    herdr_a2a.Identity.Slug.to_ascii_lowercase herdr_a2a.Identity.Names.validate_suffix
    herdr_a2a.Core.Validation.parse_agent_name
made = refl

canonical_slug-IsSlug_example : IsSlug (canonical_slug (some role))
canonical_slug-IsSlug_example = canonical_slug-IsSlug (some role)

canonical_slug-slug_example : canonical_slug (some slug) ≡ slug
canonical_slug-slug_example = canonical_slug-slug slug slug-IsSlug

canonical_name_from_parts-slug_example :
    canonical_name_from_parts (canonical_slug (some role)) suffix
    ≡ done (joined (canonical_slug (some role)) suffix)
canonical_name_from_parts-slug_example =
    canonical_name_from_parts-slug (some role) suffix (omega arith) (omega arith) refl

validate_canonical_name-made_example :
    validate_canonical_name (joined slug suffix) (canonical_slug (some role)) ≡ done tt
validate_canonical_name-made_example =
    validate_canonical_name-made (some role) suffix (omega arith) (omega arith) refl made

resolve_or_create-HasDistinctNames_example :
    HasDistinctNames ((resolve_or_create source none pane session rows).1)
resolve_or_create-HasDistinctNames_example =
    resolve_or_create-HasDistinctNames source none pane session rows rows-HasDistinctNames

-- A session that the table does not have, whose eight draws give a name that is taken.
abbrev other_session : Text
other_session = b'o' ∷ []

checked : check_pane none pane other_session rows ≡ done tt
unfolding check_pane herdr_a2a.Identity.Table.validate_pane herdr_a2a.Identity.Table.validate_field
    herdr_a2a.Identity.Table.has_control herdr_a2a.Base.text_eq
checked = refl

absent : find_row (has_key pane other_session) rows ≡ none
unfolding find_row has_key herdr_a2a.Base.text_eq
absent = refl

resolve_or_create-IsFirstFree_example :
    IsFirstFree 8
      (λ _. joined slug suffix)
      pane
      other_session
      rows
      (resolve_or_create source none pane other_session rows)
resolve_or_create-IsFirstFree_example =
    resolve_or_create-IsFirstFree source (λ _. joined slug suffix) none pane other_session rows
      checked absent (λ _ _. made)

resolve_or_create-IsOnRecord_example :
    IsOnRecord pane session
      (new_identity pane session slug (joined slug suffix))
      ((resolve_or_create source none pane session []).1)
resolve_or_create-IsOnRecord_example =
    resolve_or_create-IsOnRecord source none pane session [] resolved
