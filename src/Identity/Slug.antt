-- ===== src/Identity/Slug.antt =====
-- `canonical_slug`: the part of an agent's name that comes from its role. Of
-- crates/herdr-a2a-broker/src/identity.rs.
pub mod Shape
pub mod Fixed
use herdr_a2a.Base.{
  ℕ, ◌+◌, Bool, true, false, ◌&&◌, not, Option, none, some, List, [], ◌∷◌, ◌++◌, ltb, ◌==◌,
  if◌then◌else◌, length, is_empty, Text,
}
use herdr_a2a.Core.Model.{is_ascii_alphanumeric, is_ascii_uppercase, is_ascii_lowercase}

abbrev pub max_slug_bytes : ℕ
max_slug_bytes = 25

-- `to_ascii_lowercase`
unfoldable pub to_ascii_lowercase : ℕ → ℕ
to_ascii_lowercase c = if is_ascii_uppercase c then c + 32 else c

-- The separator that is due before a character.
unfoldable pub push_separator : Text → Bool → Text
push_separator slug separator =
    if separator && (not (is_empty slug) && ltb (length slug) max_slug_bytes)
    then slug ++ (b'-' ∷ [])
    else slug

unfoldable pub push_character : Text → ℕ → Text
push_character slug c =
    if ltb (length slug) max_slug_bytes then slug ++ (to_ascii_lowercase c ∷ []) else slug

-- The loop over the characters of the label.
unfoldable pub gather : Text → Bool → List ℕ → Text
gather slug separator [] = slug
gather slug separator (c ∷ cs) =
    let next = gather (push_character (push_separator slug separator) c) false cs in
    let skip = gather slug true cs in if is_ascii_alphanumeric c then next else skip

-- `while slug.ends_with('-') { slug.pop(); }`
unfoldable pub trim_dashes : Text → Text
trim_dashes [] = []
trim_dashes (b ∷ bs) =
    let rest = trim_dashes bs in if b == b'-' && is_empty rest then [] else b ∷ rest

abbrev pub starts_lowercase : Text → Bool
starts_lowercase [] = false
starts_lowercase (b ∷ bs) = is_ascii_lowercase b

-- "agent"
abbrev pub default_slug : Text
default_slug = b'a' ∷ b'g' ∷ b'e' ∷ b'n' ∷ b't' ∷ []

-- `label.unwrap_or_default().chars()`
abbrev pub label_characters : Option (List ℕ) → List ℕ
label_characters none = []
label_characters (some label) = label

abbrev pub or_default : Text → Text
or_default slug = if starts_lowercase slug then slug else default_slug

unfoldable pub canonical_slug : Option (List ℕ) → Text
canonical_slug label = or_default (trim_dashes (gather [] false (label_characters label)))
