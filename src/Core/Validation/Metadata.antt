-- ===== src/Core/Validation/Metadata.antt =====
-- The walk over the metadata against two independent measures: its depth and its number of entries.
use herdr_a2a.Base.{ℕ, ◌+◌, ◌≤◌, ◌≡◌, ◌↔◌, max, arith, ap, ◌∙◌}
use herdr_a2a.Core.Errors.{ok, >>=-eq-ok}
use herdr_a2a.Core.Json.{
  Value, null, boolean, number, string, array, object, Items, Fields, nil, cons, end, field,
}
use herdr_a2a.Core.Validation.{
  validate_metadata_node, validate_items, validate_fields, items_length, fields_length, enter_node,
  max_metadata_depth, max_metadata_entries,
}

-- The number of arrays and objects on the longest way down.
unfoldable mutual
  pub depth : Value → ℕ
  depth (array items) = depth_items items + 1
  depth (object fields) = depth_fields fields + 1
  depth _ = 0

  pub depth_items : Items → ℕ
  depth_items nil = 0
  depth_items (cons v items) = max (depth v) (depth_items items)

  pub depth_fields : Fields → ℕ
  depth_fields end = 0
  depth_fields (field _ v fields) = max (depth v) (depth_fields fields)

-- The number of elements and fields of all arrays and objects.
unfoldable mutual
  pub entries : Value → ℕ
  entries (array items) = items_length items + entries_items items
  entries (object fields) = fields_length fields + entries_fields fields
  entries _ = 0

  pub entries_items : Items → ℕ
  entries_items nil = 0
  entries_items (cons v items) = entries v + entries_items items

  pub entries_fields : Fields → ℕ
  entries_fields end = 0
  entries_fields (field _ v fields) = entries v + entries_fields fields

-- What the tests on entering a node let through.
enter_node-ok :
    (d count n : ℕ) {m : ℕ}
    → enter_node d count n ≡ ok m
    → (m ≡ n + count) × (m ≤ max_metadata_entries) × (d ≤ max_metadata_depth)
enter_node-ok d count n h = ground arith

enter_node_passes :
    (d count n : ℕ)
    → n + count ≤ max_metadata_entries
    → d ≤ max_metadata_depth
    → enter_node d count n ≡ ok (n + count)
enter_node_passes d count n hn hd = ground arith

-- An accepted node stays within the limits, counted from the depth and the entries so far.
abbrev Within : ℕ → ℕ → ℕ → ℕ → ℕ → Type 0
Within d n m deep many =
    (m ≡ n + many) × (m ≤ max_metadata_entries) × (d + deep ≤ max_metadata_depth)

mutual
  unfolding validate_metadata_node depth entries

  node_sound :
      (v : Value) (d n m : ℕ)
      → n ≤ max_metadata_entries
      → d ≤ max_metadata_depth
      → validate_metadata_node v d n ≡ ok m
      → Within d n m (depth v) (entries v)
  node_sound null d n m hn hd h = ground arith
  node_sound (boolean b) d n m hn hd h = ground arith
  node_sound (number t) d n m hn hd h = ground arith
  node_sound (string t) d n m hn hd h = ground arith
  node_sound (array items) d n m hn hd h =
      let (k, e, f) = >>=-eq-ok (enter_node (d + 1) (items_length items) n) _ h in
      let (ek, bk, bd) = enter_node-ok (d + 1) (items_length items) n e in
      omega (arith, ek, items_sound items (d + 1) k m bk bd f)
  node_sound (object fields) d n m hn hd h =
      let (k, e, f) = >>=-eq-ok (enter_node (d + 1) (fields_length fields) n) _ h in
      let (ek, bk, bd) = enter_node-ok (d + 1) (fields_length fields) n e in
      omega (arith, ek, fields_sound fields (d + 1) k m bk bd f)

  items_sound :
      (items : Items) (d n m : ℕ)
      → n ≤ max_metadata_entries
      → d ≤ max_metadata_depth
      → validate_items items d n ≡ ok m
      → Within d n m (depth_items items) (entries_items items)
  items_sound nil d n m hn hd h = ground arith
  items_sound (cons v items) d n m hn hd h =
      let (k, e, f) = >>=-eq-ok (validate_metadata_node v d n) _ h in
      let (ek, bk, bd) = node_sound v d n k hn hd e in
      omega (arith, ek, bd, items_sound items d k m bk hd f)

  fields_sound :
      (fields : Fields) (d n m : ℕ)
      → n ≤ max_metadata_entries
      → d ≤ max_metadata_depth
      → validate_fields fields d n ≡ ok m
      → Within d n m (depth_fields fields) (entries_fields fields)
  fields_sound end d n m hn hd h = ground arith
  fields_sound (field t v fields) d n m hn hd h =
      let (k, e, f) = >>=-eq-ok (validate_metadata_node v d n) _ h in
      let (ek, bk, bd) = node_sound v d n k hn hd e in
      omega (arith, ek, bd, fields_sound fields d k m bk hd f)

mutual
  unfolding validate_metadata_node depth entries

  node_complete :
      (v : Value) (d n : ℕ)
      → n + entries v ≤ max_metadata_entries
      → d + depth v ≤ max_metadata_depth
      → validate_metadata_node v d n ≡ ok (n + entries v)
  node_complete null d n hn hd = ground arith
  node_complete (boolean b) d n hn hd = ground arith
  node_complete (number t) d n hn hd = ground arith
  node_complete (string t) d n hn hd = ground arith
  node_complete (array items) d n hn hd =
      rw (enter_node_passes (d + 1) (items_length items) n (omega arith) (omega arith)) (
        items_complete items (d + 1) (n + items_length items) (omega arith) (omega arith)
        ∙ ap ok (omega arith))
  node_complete (object fields) d n hn hd =
      rw (enter_node_passes (d + 1) (fields_length fields) n (omega arith) (omega arith)) (
        fields_complete fields (d + 1) (n + fields_length fields) (omega arith) (omega arith)
        ∙ ap ok (omega arith))

  items_complete :
      (items : Items) (d n : ℕ)
      → n + entries_items items ≤ max_metadata_entries
      → d + depth_items items ≤ max_metadata_depth
      → validate_items items d n ≡ ok (n + entries_items items)
  items_complete nil d n hn hd = ground arith
  items_complete (cons v items) d n hn hd =
      rw (node_complete v d n (omega arith) (omega arith))
        (items_complete items d (n + entries v) (omega arith) (omega arith) ∙ ap ok (omega arith))

  fields_complete :
      (fields : Fields) (d n : ℕ)
      → n + entries_fields fields ≤ max_metadata_entries
      → d + depth_fields fields ≤ max_metadata_depth
      → validate_fields fields d n ≡ ok (n + entries_fields fields)
  fields_complete end d n hn hd = ground arith
  fields_complete (field t v fields) d n hn hd =
      rw (node_complete v d n (omega arith) (omega arith))
        (fields_complete fields d (n + entries v) (omega arith) (omega arith) ∙ ap ok (omega arith))

-- The walk accepts exactly the metadata with at most 8 nested arrays and objects and at most 256
-- elements and fields in all, and returns their number.
pub validate_metadata_node_iff :
    (v : Value) (m : ℕ)
    → (validate_metadata_node v 0 0 ≡ ok m)
      ↔ ((m ≡ entries v) × (entries v ≤ max_metadata_entries) × (depth v ≤ max_metadata_depth))
validate_metadata_node_iff v m = (
  λ h.
      let w = node_sound v 0 0 m (omega arith) (omega arith) h in
      (omega (arith, w), omega (arith, w), omega (arith, w)),
  λ w. node_complete v 0 0 (omega arith) (omega arith) ∙ ap ok (omega arith),
)
