-- ===== src/Identity/Table.antt =====
-- The table of identities: `resolve_or_create`, `find_by_canonical` and `validate_rows`. Of
-- crates/herdr-a2a-broker/src/identity.rs.
pub mod Allocation
pub mod Lookup
use herdr_a2a.Base.{
  ℕ, zero, suc, Bool, true, false, ◌&&◌, ◌||◌, not, Option, none, some, List, [], ◌∷◌, leb, ltb,
  if◌then◌else◌, length, is_empty, any, all, is_some_and, is_none_or, map, Text, text_eq,
}
use mathlib.Core.Option
use herdr_a2a.Base.Outcome.{Outcome, done, failed, panicked, ◌>>=◌, ◌>>◌, require, some_or}
use herdr_a2a.Core.Errors.{Result, ok, is_ok}
use herdr_a2a.Core.Model.{VerifiedPane, AgentIdentity, AgentName, RoleLabel}
use herdr_a2a.Core.Validation.{parse_agent_name, parse_role_label}
use herdr_a2a.Identity.Slug.{canonical_slug}
use herdr_a2a.Identity.Names.{
  IdentityError, invalid_data, workspace_mismatch, allocation_exhausted, parsed_name,
  canonical_name_from_parts, validate_canonical_name,
}

abbrev max_identity_field_bytes : ℕ
max_identity_field_bytes = 1024

abbrev max_workspace_id_bytes : ℕ
max_workspace_id_bytes = 256

abbrev pub max_allocation_attempts : ℕ
max_allocation_attempts = 8

-- `chars().any(char::is_control)` on UTF-8, where a control from 0x80 on takes two bytes, the first
-- of them 0xc2.
unfoldable pub has_control : Text → Bool
has_control [] = false
has_control (b ∷ []) = ltb b 0x20 || (leb 0x7f b && leb b 0x7f)
has_control (b ∷ c ∷ bs) =
    let rest = has_control (c ∷ bs) in
    (ltb b 0x20 || (leb 0x7f b && leb b 0x7f))
    || (((leb 0xc2 b && leb b 0xc2) && ltb c 0xa0) || rest)

unfoldable pub validate_field : Text → ℕ → Outcome IdentityError (Unit {0})
validate_field value maximum =
    require (not (is_empty value || (ltb maximum (length value) || has_control value))) invalid_data

abbrev pub validate_workspace_id : Text → Outcome IdentityError (Unit {0})
validate_workspace_id workspace_id = validate_field workspace_id max_workspace_id_bytes

unfoldable pub validate_pane : VerifiedPane → Text → Outcome IdentityError (Unit {0})
validate_pane pane harness_session_id = do
  validate_workspace_id pane.workspace_id
  validate_field pane.pane_id max_identity_field_bytes
  validate_field pane.harness max_identity_field_bytes
  validate_field harness_session_id max_identity_field_bytes

-- A row of `agent_identities`. The role is a string, held as its characters.
pub record IdentityRow : Type 0 where
  pub workspace_id : Text
  pub pane_id : Text
  pub harness : Text
  pub harness_session_id : Text
  pub canonical_name : Text
  pub original_role_slug : Text
  pub current_role : List ℕ

-- The `WHERE` clause on the primary key.
unfoldable pub has_key : VerifiedPane → Text → IdentityRow → Bool
has_key pane harness_session_id row =
    (text_eq row.workspace_id pane.workspace_id && text_eq row.pane_id pane.pane_id)
    && (text_eq row.harness pane.harness && text_eq row.harness_session_id harness_session_id)

-- `query_row(…).optional()`: the first row that the clause admits.
unfoldable pub find_row : (IdentityRow → Bool) → List IdentityRow → Option IdentityRow
find_row p [] = none
find_row p (row ∷ rows) = let rest = find_row p rows in if p row then some row else rest

-- `UPDATE agent_identities SET current_role = ?1 WHERE …`
unfoldable pub update_role : VerifiedPane → Text → List IdentityRow → List IdentityRow
update_role pane harness_session_id [] = []
update_role pane harness_session_id (row ∷ rows) =
    (if has_key pane harness_session_id row then record row { current_role = pane.role } else row)
    ∷ update_role pane harness_session_id rows

abbrev pub role_of : Result RoleLabel → Outcome IdentityError RoleLabel
role_of (ok role) = done role
role_of _ = failed invalid_data

unfoldable pub identity_from_parts :
    VerifiedPane → Text → Text → Text → List ℕ → Outcome IdentityError AgentIdentity
identity_from_parts pane harness_session_id canonical_name original_role_slug current_role = do
  name ← parsed_name (parse_agent_name canonical_name)
  role ← role_of (parse_role_label current_role)
  done (record {
    canonical_name = name;
    original_role_slug = original_role_slug;
    current_role = role;
    pane_id = pane.pane_id;
    harness = pane.harness;
    harness_session_id = harness_session_id;
    workspace_id = pane.workspace_id;
  })

-- The row that is inserted for a new name.
abbrev pub new_row : VerifiedPane → Text → Text → Text → IdentityRow
new_row pane harness_session_id slug name = record {
  workspace_id = pane.workspace_id;
  pane_id = pane.pane_id;
  harness = pane.harness;
  harness_session_id = harness_session_id;
  canonical_name = name;
  original_role_slug = slug;
  current_role = pane.role;
}

-- The identity that a new row is returned as.
abbrev pub new_identity : VerifiedPane → Text → Text → Text → AgentIdentity
new_identity pane harness_session_id slug name = record {
  canonical_name = name;
  original_role_slug = slug;
  current_role = pane.role;
  pane_id = pane.pane_id;
  harness = pane.harness;
  harness_session_id = harness_session_id;
  workspace_id = pane.workspace_id;
}

-- A constraint of the table refuses the row: its name or its key is taken.
unfoldable pub is_refused : IdentityRow → List IdentityRow → Bool
is_refused new rows =
    any
      (λ row.
        text_eq row.canonical_name new.canonical_name
        || ((text_eq row.workspace_id new.workspace_id && text_eq row.pane_id new.pane_id)
            && (text_eq row.harness new.harness
                && text_eq row.harness_session_id new.harness_session_id)))
      rows

-- The identity or the failure, and the rows that are left.
abbrev pub Resolved : Type 0
Resolved = Outcome IdentityError AgentIdentity × List IdentityRow

-- One attempt with a name, and the attempts after it.
unfoldable pub try_name :
    Outcome IdentityError AgentName
    → VerifiedPane
    → Text
    → Text
    → List IdentityRow
    → Resolved
    → Resolved
try_name (done name) pane harness_session_id slug rows next =
    if is_refused (new_row pane harness_session_id slug name) rows then next else (
      done (new_identity pane harness_session_id slug name),
      new_row pane harness_session_id slug name ∷ rows,
    )
try_name (failed e) pane harness_session_id slug rows next = (failed e, rows)
try_name panicked pane harness_session_id slug rows next = (panicked, rows)

-- The loop over the attempts, with the result of the suffix source at each of them.
unfoldable pub allocate :
    List (Outcome IdentityError Text) → VerifiedPane → Text → Text → List IdentityRow → Resolved
allocate [] pane harness_session_id slug rows = (failed allocation_exhausted, rows)
allocate (drawn ∷ attempts) pane harness_session_id slug rows =
    try_name (drawn >>= canonical_name_from_parts slug) pane harness_session_id slug rows
      (allocate attempts pane harness_session_id slug rows)

-- The first draws of the suffix source.
unfoldable pub draws : ℕ → (ℕ → Outcome IdentityError Text) → List (Outcome IdentityError Text)
draws zero source = []
draws (suc n) source = source 0 ∷ draws n (λ i. source (suc i))

-- What becomes of a key that has a row, and of one that has none.
unfoldable pub resolve_found :
    (ℕ → Outcome IdentityError Text)
    → VerifiedPane
    → Text
    → List IdentityRow
    → Option IdentityRow
    → Resolved
resolve_found source pane harness_session_id rows (some row) = (
  identity_from_parts pane harness_session_id row.canonical_name row.original_role_slug pane.role,
  update_role pane harness_session_id rows,
)
resolve_found source pane harness_session_id rows none =
    allocate (draws max_allocation_attempts source) pane harness_session_id
      (canonical_slug (some pane.role)) rows

-- `SELECT workspace_id FROM agent_identities LIMIT 1`
abbrev pub first_workspace : List IdentityRow → Option Text
first_workspace [] = none
first_workspace (row ∷ rows) = some row.workspace_id

-- The checks of `resolve_or_create`, the pane's and the workspace's.
unfoldable pub check_pane :
    Option Text → VerifiedPane → Text → List IdentityRow → Outcome IdentityError (Unit {0})
check_pane expected_workspace_id pane harness_session_id rows = do
  validate_pane pane harness_session_id
  require (is_none_or expected_workspace_id (λ w. text_eq w pane.workspace_id)) workspace_mismatch
  require (is_none_or (first_workspace rows) (λ w. text_eq w pane.workspace_id)) workspace_mismatch

unfoldable pub after_checks :
    Outcome IdentityError (Unit {0}) → List IdentityRow → Resolved → Resolved
after_checks (done _) rows next = next
after_checks (failed e) rows next = (failed e, rows)
after_checks panicked rows next = (panicked, rows)

unfoldable pub resolve_or_create :
    (ℕ → Outcome IdentityError Text)
    → Option Text
    → VerifiedPane
    → Text
    → List IdentityRow
    → Resolved
resolve_or_create source expected_workspace_id pane harness_session_id rows =
    after_checks (check_pane expected_workspace_id pane harness_session_id rows) rows (
      resolve_found source pane harness_session_id rows
        (find_row (has_key pane harness_session_id) rows))

-- The identity of a row, in `find_by_canonical`.
abbrev identity_of_row :
    AgentName → Option IdentityRow → Outcome IdentityError (Option AgentIdentity)
identity_of_row name none = done none
identity_of_row name (some row) = do
  role ← role_of (parse_role_label row.current_role)
  done (
      some (record {
        canonical_name = name;
        original_role_slug = row.original_role_slug;
        current_role = role;
        pane_id = row.pane_id;
        harness = row.harness;
        harness_session_id = row.harness_session_id;
        workspace_id = row.workspace_id;
      }))

unfoldable pub find_by_canonical :
    AgentName → List IdentityRow → Outcome IdentityError (Option AgentIdentity)
find_by_canonical name rows =
    identity_of_row name (find_row (λ row. text_eq row.canonical_name name) rows)

-- One round of the loop of `validate_rows`.
unfoldable pub validate_row : Option Text → IdentityRow → Outcome IdentityError (Unit {0})
validate_row expected_workspace row = do
  validate_workspace_id row.workspace_id
  validate_field row.pane_id max_identity_field_bytes
  validate_field row.harness max_identity_field_bytes
  validate_field row.harness_session_id max_identity_field_bytes
  validate_canonical_name row.canonical_name row.original_role_slug
  require (is_ok (parse_role_label row.current_role)) invalid_data
  require (is_none_or expected_workspace (λ w. text_eq w row.workspace_id)) workspace_mismatch

unfoldable pub validate_each : Option Text → List IdentityRow → Outcome IdentityError (Unit {0})
validate_each expected_workspace [] = done tt
validate_each expected_workspace (row ∷ rows) = do
  validate_row expected_workspace row
  validate_each expected_workspace rows

-- At most one workspace: `workspaces.len() <= 1`.
unfoldable pub is_one_workspace : List IdentityRow → Bool
is_one_workspace rows =
    is_none_or (first_workspace rows) (λ w. all (λ row. text_eq row.workspace_id w) rows)

unfoldable pub validate_rows : Option Text → List IdentityRow → Outcome IdentityError (Unit {0})
validate_rows expected_workspace rows = do
  validate_each expected_workspace rows
  require (is_one_workspace rows) workspace_mismatch

-- The part of `for_workspace` that may fail.
unfoldable pub for_workspace : Text → List IdentityRow → Outcome IdentityError (Unit {0})
for_workspace workspace_id rows = do
  validate_workspace_id workspace_id
  validate_rows (some workspace_id) rows
