-- ===== src/Core/Tests.antt =====
-- The validation of metadata on concrete inputs.
use herdr_a2a.Base.{◌≡◌, ◌≤◌, ◌↔◌, refl, [], ◌∷◌, true}
use herdr_a2a.Core.Errors.{ok}
use herdr_a2a.Core.Json.{Value, null, boolean, array, object, nil, cons, end, field}
use herdr_a2a.Core.Validation.{validate_metadata_node, max_metadata_entries, max_metadata_depth}
use herdr_a2a.Core.Validation.Metadata.{entries, depth, validate_metadata_node_iff}

abbrev sample : Value
sample = object (field (b'k' ∷ []) (array (cons null (cons (boolean true) nil))) end)

validate_metadata_node_iff_example : (validate_metadata_node sample 0 0 ≡ ok 3) ↔ (
    (3 ≡ entries sample)
    × (entries sample ≤ max_metadata_entries)
    × (depth sample ≤ max_metadata_depth))
validate_metadata_node_iff_example = validate_metadata_node_iff sample 3

sample_accepted : validate_metadata_node sample 0 0 ≡ ok 3
unfolding validate_metadata_node
sample_accepted = refl
