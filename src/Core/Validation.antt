-- ===== src/Core/Validation.antt =====
-- crates/herdr-a2a-core/src/validation.rs: the grammars of names and the limits on payloads.
pub mod Metadata
use herdr_a2a.Base.{
  ℕ, ◌+◌, Bool, true, false, ◌&&◌, ◌||◌, Option, none, some, List, [], ◌∷◌, leb, ltb, ◌==◌, not,
  if◌then◌else◌, length, all, any, is_some, is_some_and, unwrap_or, is_empty, Text, text_eq,
}
use herdr_a2a.Core.Errors.{
  DomainError, invalid_agent_name, invalid_role_label, text_too_large, metadata_too_large,
  metadata_too_deep, too_many_metadata_entries, too_many_file_references, path_too_long,
  file_label_too_long, file_not_found, workspace_not_found, file_outside_workspace, Result, ok, err,
  ◌>>=◌, ◌>>◌, guard, ok_or,
}
use herdr_a2a.Core.Json.{Value, array, object, null, Items, Fields, nil, cons, end, field}
use herdr_a2a.Core.Model.{
  AgentName, RoleLabel, FileReference, Payload, MessagePayload, ValidatedPayload,
  max_role_label_bytes, is_ascii_lowercase, is_ascii_digit, is_underscore_or_dash,
}

abbrev pub max_text_bytes : ℕ
max_text_bytes = 65536

abbrev pub max_metadata_bytes : ℕ
max_metadata_bytes = 32768

abbrev pub max_metadata_depth : ℕ
max_metadata_depth = 8

abbrev pub max_metadata_entries : ℕ
max_metadata_entries = 256

abbrev pub max_file_refs : ℕ
max_file_refs = 32

abbrev pub max_path_bytes : ℕ
max_path_bytes = 4096

abbrev pub max_file_label_bytes : ℕ
max_file_label_bytes = 256

-- What the code asks of its libraries and of the file system.
pub record Platform : Type 0 where
  -- the length of `serde_json::to_vec`
  pub encoded_length : Value → ℕ
  -- the length of `path.to_string_lossy()`
  pub lossy_length : Text → ℕ
  -- `path.canonicalize()`
  pub canonicalize : Text → Option Text
  -- `path.starts_with(base)`
  pub path_starts_with : Text → Text → Bool

abbrev pub is_name_byte : ℕ → Bool
is_name_byte b = (is_ascii_lowercase b || is_ascii_digit b) || is_underscore_or_dash b

-- `AgentName::parse`
unfoldable pub parse_agent_name : Text → Result AgentName
parse_agent_name [] = err invalid_agent_name
parse_agent_name (b ∷ bs) =
    if leb (length (b ∷ bs)) 32 && (is_ascii_lowercase b && all is_name_byte bs)
    then ok (b ∷ bs)
    else err invalid_agent_name

-- The length of a character in UTF-8.
abbrev pub utf8_length : ℕ → ℕ
utf8_length c = if ltb c 0x80 then 1 else if ltb c 0x800 then 2 else if ltb c 0x10000 then 3 else 4

pub utf8_bytes : List ℕ → ℕ
utf8_bytes [] = 0
utf8_bytes (c ∷ cs) = utf8_length c + utf8_bytes cs

-- `char::is_control`
abbrev pub is_control : ℕ → Bool
is_control c = ltb c 0x20 || (leb 0x7f c && ltb c 0xa0)

abbrev pub is_barred_in_role : ℕ → Bool
is_barred_in_role c = is_control c || (c == 0x2028 || c == 0x2029)

-- `RoleLabel::parse`
unfoldable pub parse_role_label : List ℕ → Result RoleLabel
unfolding utf8_bytes
parse_role_label value =
    if is_empty value
      || (ltb max_role_label_bytes (utf8_bytes value) || any is_barred_in_role value)
    then err invalid_role_label
    else ok value

abbrev pub fields_length : Fields → ℕ
fields_length end = 0
fields_length (field _ _ fs) = fields_length fs + 1

abbrev pub items_length : Items → ℕ
items_length nil = 0
items_length (cons _ xs) = items_length xs + 1

-- The depth and entry tests on entering an array or an object: the new number of entries.
abbrev pub enter_node : ℕ → ℕ → ℕ → Result ℕ
enter_node next_depth count entries = do
  guard (leb next_depth max_metadata_depth) metadata_too_deep
  guard (leb (entries + count) max_metadata_entries) too_many_metadata_entries
  ok (entries + count)

-- `validate_metadata_node`: the number of entries so far is passed along and returned.
unfoldable mutual
  pub validate_metadata_node : Value → ℕ → ℕ → Result ℕ
  validate_metadata_node (array items) depth entries =
      enter_node (depth + 1) (items_length items) entries >>= λ entries'.
      validate_items items (depth + 1) entries'
  validate_metadata_node (object fields) depth entries =
      enter_node (depth + 1) (fields_length fields) entries >>= λ entries'.
      validate_fields fields (depth + 1) entries'
  validate_metadata_node _ depth entries = ok entries

  pub validate_items : Items → ℕ → ℕ → Result ℕ
  validate_items nil depth entries = ok entries
  validate_items (cons item items) depth entries =
      validate_metadata_node item depth entries >>= λ entries'. validate_items items depth entries'

  pub validate_fields : Fields → ℕ → ℕ → Result ℕ
  validate_fields end depth entries = ok entries
  validate_fields (field _ value fields) depth entries =
      validate_metadata_node value depth entries >>= λ entries'.
      validate_fields fields depth entries'

module _ (platform : Platform) where
  open platform use {encoded_length, lossy_length, canonicalize, path_starts_with}

  unfoldable pub validate_metadata : Value → Result (Unit {0})
  validate_metadata metadata = do
    guard (leb (encoded_length metadata) max_metadata_bytes) metadata_too_large
    _ ← validate_metadata_node metadata 0 0
    ok tt

  abbrev label_too_long : FileReference → Bool
  label_too_long file_ref =
      is_some_and file_ref.label (λ label. ltb max_file_label_bytes (length label))

  -- `validate_file_reference_shape`
  abbrev validate_file_reference_shape : FileReference → Result (Unit {0})
  validate_file_reference_shape file_ref = do
    guard (leb (length file_ref.path) max_path_bytes) path_too_long
    guard (not (label_too_long file_ref)) file_label_too_long

  -- One round of the loop over `payload.file_refs`, in `validate_payload`.
  unfoldable pub validate_file_reference : Text → FileReference → Result FileReference
  validate_file_reference workspace file_ref = do
    validate_file_reference_shape file_ref
    canonical_path ← ok_or (canonicalize file_ref.path) (file_not_found file_ref.path)
    guard (leb (length canonical_path) max_path_bytes) path_too_long
    let workspace_for_check = unwrap_or (canonicalize workspace) workspace
    guard (path_starts_with canonical_path workspace_for_check)
        (file_outside_workspace canonical_path workspace_for_check)
    guard (is_some (canonicalize workspace)) (workspace_not_found workspace)
    ok (record file_ref { path = canonical_path })

  unfoldable pub validate_file_references : Text → List FileReference → Result (List FileReference)
  validate_file_references workspace [] = ok []
  validate_file_references workspace (r ∷ rs) = do
    r' ← validate_file_reference workspace r
    rs' ← validate_file_references workspace rs
    ok (r' ∷ rs')

  unfoldable pub validate_payload : MessagePayload → Text → Result ValidatedPayload
  validate_payload payload workspace = do
    guard (leb (length payload.text) max_text_bytes) text_too_large
    validate_metadata payload.metadata
    guard (leb (length payload.file_refs) max_file_refs) too_many_file_references
    file_refs ← validate_file_references workspace payload.file_refs
    ok (record { text = payload.text; metadata = payload.metadata; file_refs = file_refs })

  -- The loop of `validate_persisted_payload`.
  unfoldable pub validate_persisted_files : List FileReference → Result (Unit {0})
  validate_persisted_files [] = ok tt
  validate_persisted_files (r ∷ rs) = do
    guard (leb (lossy_length r.path) max_path_bytes) path_too_long
    guard (not (label_too_long r)) file_label_too_long
    validate_persisted_files rs

  unfoldable pub validate_persisted_payload : ValidatedPayload → Result (Unit {0})
  validate_persisted_payload payload = do
    guard (leb (length payload.text) max_text_bytes) text_too_large
    validate_metadata payload.metadata
    guard (leb (length payload.file_refs) max_file_refs) too_many_file_references
    validate_persisted_files payload.file_refs
