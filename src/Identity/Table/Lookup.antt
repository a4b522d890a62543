-- ===== src/Identity/Table/Lookup.antt =====
-- An identity that was resolved is found again under its key.
use herdr_a2a.Base.{
  ℕ, suc, ◌≡◌, refl, ap, ◌∙◌, subst, ◌&&◌, Option, none, some, List, [], ◌∷◌, inl, inr, leb, length,
  all, Text, text_eq_refl, Bool-cases,
}
use herdr_a2a.Base.Outcome.{
  Outcome, done, failed, panicked, ◌>>=◌, >>=-eq-done, done-injective, some-injective,
}
use herdr_a2a.Core.Errors.{Result, ok, err, invalid_agent_name}
use herdr_a2a.Core.Model.{VerifiedPane, AgentIdentity, AgentName, is_ascii_lowercase}
use herdr_a2a.Core.Validation.{parse_agent_name, parse_role_label, is_name_byte}
use herdr_a2a.Identity.Names.{IdentityError, canonical_name_from_parts, parsed_name}
use herdr_a2a.Identity.Slug.{canonical_slug}
use herdr_a2a.Identity.Table.{
  IdentityRow, has_key, find_row, update_role, identity_from_parts, role_of, new_row, new_identity,
  is_refused, Resolved, try_name, allocate, draws, resolve_found, check_pane, after_checks,
  resolve_or_create, max_allocation_attempts,
}

-- The key has a row with the identity's name and the role of the pane.
abbrev pub IsOnRecord : VerifiedPane → Text → AgentIdentity → List IdentityRow → Type 0
IsOnRecord pane session identity rows =
    (row : IdentityRow) × (find_row (has_key pane session) rows ≡ some row)
    × (row.canonical_name ≡ identity.canonical_name)
    × (row.current_role ≡ pane.role)

parse_agent_name-same :
    (text : Text) {name : AgentName} → parse_agent_name text ≡ ok name → text ≡ name
unfolding parse_agent_name
parse_agent_name-same [] h = cc
parse_agent_name-same (b ∷ bs) {name} h =
    elim (Bool-cases (leb (suc (length bs)) 32 && (is_ascii_lowercase b && all is_name_byte bs))) [
      | inl e ↦ let same : ok (b ∷ bs) ≡ ok name = rw (parse_agent_name, e) at h in cc
      | inr e ↦ let no : err invalid_agent_name ≡ ok name = rw (parse_agent_name, e) at h in cc
    ]

parsed_name-same :
    (text : Text) (result : Result AgentName) {name : AgentName}
    → parse_agent_name text ≡ result
    → parsed_name result ≡ done name
    → text ≡ name
parsed_name-same text (ok n) e h = parse_agent_name-same text e ∙ done-injective h
parsed_name-same text (err _) e h = cc
parsed_name-same text Result.panicked e h = cc

identity_from_parts-name :
    (pane : VerifiedPane) (session name slug : Text) (role : List ℕ) {identity : AgentIdentity}
    → identity_from_parts pane session name slug role ≡ done identity
    → name ≡ identity.canonical_name
unfolding identity_from_parts
identity_from_parts-name pane session name slug role h =
    let (n, e, h1) = >>=-eq-done (parsed_name (parse_agent_name name)) _ h in
    let (_, _, h2) = >>=-eq-done (role_of (parse_role_label role)) _ h1 in
    parsed_name-same name (parse_agent_name name) refl e
    ∙ ap (λ i. i.canonical_name) (done-injective h2)

abbrev with_role : VerifiedPane → IdentityRow → IdentityRow
with_role pane row = record row { current_role = pane.role }

find_row-update_role :
    (pane : VerifiedPane) (session : Text) (rows : List IdentityRow) {row : IdentityRow}
    → find_row (has_key pane session) rows ≡ some row
    → find_row (has_key pane session) (update_role pane session rows)
      ≡ some (record row { current_role = pane.role })
unfolding find_row update_role has_key
find_row-update_role pane session [] h = cc
find_row-update_role pane session (first ∷ rows) {row} h =
    elim (Bool-cases (has_key pane session first)) [
      | inl e ↦
          let same : some first ≡ some row = rw (find_row, e) at h in
          rw (update_role, e, find_row, e) (ap (λ r. some (with_role pane r)) (some-injective same))
      | inr e ↦
          rw (update_role, e, find_row, e)
            (find_row-update_role pane session rows (rw (find_row, e) at h))
    ]

new_row-IsOnRecord :
    (pane : VerifiedPane) (session slug name : Text) (rows : List IdentityRow)
    → IsOnRecord pane session
        (new_identity pane session slug name)
        (new_row pane session slug name ∷ rows)
unfolding find_row has_key
new_row-IsOnRecord pane session slug name rows = (
  new_row pane session slug name,
  rw
      (
        text_eq_refl pane.workspace_id,
        text_eq_refl pane.pane_id,
        text_eq_refl pane.harness,
        text_eq_refl session,
      )
      refl,
  refl,
  refl,
)

-- Whatever a resolution returns is on record.
Settles : VerifiedPane → Text → Resolved → Type 0
Settles pane session (done identity, rows) = IsOnRecord pane session identity rows
Settles pane session (failed _, rows) = Unit
Settles pane session (panicked, rows) = Unit

try_name-Settles :
    (name : Outcome IdentityError AgentName) (pane : VerifiedPane) (session slug : Text)
    (rows : List IdentityRow) (next : Resolved)
    → Settles pane session next
    → Settles pane session (try_name name pane session slug rows next)
unfolding try_name Settles
try_name-Settles (done name) pane session slug rows next s =
    elim (Bool-cases (is_refused (new_row pane session slug name) rows)) [
      | inl taken ↦ rw (try_name, taken) s
      | inr free ↦ rw (try_name, free) (new_row-IsOnRecord pane session slug name rows)
    ]
try_name-Settles (failed _) pane session slug rows next s = tt
try_name-Settles panicked pane session slug rows next s = tt

allocate-Settles :
    (attempts : List (Outcome IdentityError Text)) (pane : VerifiedPane) (session slug : Text)
    (rows : List IdentityRow)
    → Settles pane session (allocate attempts pane session slug rows)
unfolding allocate Settles
allocate-Settles [] pane session slug rows = tt
allocate-Settles (drawn ∷ attempts) pane session slug rows =
    try_name-Settles (drawn >>= canonical_name_from_parts slug) pane session slug rows
      (allocate attempts pane session slug rows) (allocate-Settles attempts pane session slug rows)

Settles-done :
    (pane : VerifiedPane) (session : Text) (result : Resolved) {identity : AgentIdentity}
    → Settles pane session result
    → result.0 ≡ done identity
    → IsOnRecord pane session identity (result.1)
unfolding Settles
Settles-done pane session (done i, rows) s h =
    subst (λ x. IsOnRecord pane session x rows) (done-injective h) s
Settles-done pane session (failed _, rows) s h = cc
Settles-done pane session (panicked, rows) s h = cc

found-IsOnRecord :
    (source : ℕ → Outcome IdentityError Text) (pane : VerifiedPane) (session : Text)
    (rows : List IdentityRow) (found : Option IdentityRow) {identity : AgentIdentity}
    → find_row (has_key pane session) rows ≡ found
    → (resolve_found source pane session rows found).0 ≡ done identity
    → IsOnRecord pane session identity ((resolve_found source pane session rows found).1)
unfolding resolve_found
found-IsOnRecord source pane session rows (some row) e h = (
  record row { current_role = pane.role },
  find_row-update_role pane session rows e,
  identity_from_parts-name pane session row.canonical_name row.original_role_slug pane.role h,
  refl,
)
found-IsOnRecord source pane session rows none e h =
    let slug = canonical_slug (some pane.role) in
    Settles-done pane session
      (allocate (draws max_allocation_attempts source) pane session slug rows)
      (allocate-Settles (draws max_allocation_attempts source) pane session slug rows) h

checked-IsOnRecord :
    (checks : Outcome IdentityError (Unit {0})) (pane : VerifiedPane) (session : Text)
    (rows : List IdentityRow) (next : Resolved) {identity : AgentIdentity}
    → ((next.0 ≡ done identity) → IsOnRecord pane session identity (next.1))
    → (after_checks checks rows next).0 ≡ done identity
    → IsOnRecord pane session identity ((after_checks checks rows next).1)
unfolding after_checks
checked-IsOnRecord (done _) pane session rows next s h = s h
checked-IsOnRecord (failed _) pane session rows next s h = cc
checked-IsOnRecord panicked pane session rows next s h = cc

-- If resolve_or_create returns an identity, new or known, then the table has a row for the pane
-- and the session, with the identity's name and the pane's role.
pub resolve_or_create-IsOnRecord :
    (source : ℕ → Outcome IdentityError Text) (expected : Option Text) (pane : VerifiedPane)
    (session : Text) (rows : List IdentityRow) {identity : AgentIdentity}
    → (resolve_or_create source expected pane session rows).0 ≡ done identity
    → IsOnRecord pane session identity ((resolve_or_create source expected pane session rows).1)
unfolding resolve_or_create
resolve_or_create-IsOnRecord source expected pane session rows h =
    checked-IsOnRecord (check_pane expected pane session rows) pane session rows
      (resolve_found source pane session rows (find_row (has_key pane session) rows))
      (found-IsOnRecord source pane session rows (find_row (has_key pane session) rows) refl) h
