-- ===== src/Core/Model.antt =====
-- crates/herdr-a2a-core/src/model.rs: the data of the domain, and the grammar of task ids.
use herdr_a2a.Base.{
  ℕ, ◌+◌, ◌-◌, ◌*◌, ◌≡◌, refl, ◌↔◌, Bool, true, false, ◌&&◌, ◌||◌, Option, none, some, List, [],
  ◌∷◌, leb, ltb, ◌==◌, if◌then◌else◌, length, all, then_some, Text, text_eq, u64_max, decide,
}
use herdr_a2a.Core.Errors.{invalid_task_id, Result, ok, err}
use herdr_a2a.Core.Json.{Value, Value-discrete}
use native.Mathlib.Decide.{ℕ_discrete}

abbrev pub max_task_id_bytes : ℕ
max_task_id_bytes = 256

abbrev pub max_role_label_bytes : ℕ
max_role_label_bytes = 256

abbrev pub is_ascii_lowercase : ℕ → Bool
is_ascii_lowercase b = leb b'a' b && leb b b'z'

abbrev pub is_ascii_uppercase : ℕ → Bool
is_ascii_uppercase b = leb b'A' b && leb b b'Z'

abbrev pub is_ascii_digit : ℕ → Bool
is_ascii_digit b = leb b'0' b && leb b b'9'

abbrev pub is_ascii_alphanumeric : ℕ → Bool
is_ascii_alphanumeric b = (is_ascii_lowercase b || is_ascii_uppercase b) || is_ascii_digit b

abbrev pub is_underscore_or_dash : ℕ → Bool
is_underscore_or_dash b = b == b'_' || b == b'-'

abbrev is_task_id_byte : ℕ → Bool
is_task_id_byte b = is_ascii_alphanumeric b || is_underscore_or_dash b

unfoldable pub validate_task_id : Text → Result (Unit {0})
validate_task_id task_id =
    if (leb 1 (length task_id) && leb (length task_id) max_task_id_bytes)
      && all is_task_id_byte task_id
    then ok tt
    else err invalid_task_id

-- `AgentName`, `RegistrationId` and `DeliveryId` wrap a string.
abbrev pub AgentName : Type 0
AgentName = Text

abbrev pub RegistrationId : Type 0
RegistrationId = Text

abbrev pub DeliveryId : Type 0
DeliveryId = Text

-- `RoleLabel` wraps a string too, which is scanned by characters: it is held as those.
abbrev pub RoleLabel : Type 0
RoleLabel = List ℕ

pub record VerifiedPane : Type 0 where
  pub pane_id : Text
  pub workspace_id : Text
  pub role : RoleLabel
  pub harness : Text
  pub workspace_path : Text

pub record AgentIdentity : Type 0 where
  pub canonical_name : AgentName
  pub original_role_slug : Text
  pub current_role : RoleLabel
  pub pane_id : Text
  pub harness : Text
  pub harness_session_id : Text
  pub workspace_id : Text

pub record VerifiedAgent : Type 0 where
  pub name : AgentName
  pub pane_id : Text
  pub harness : Text
  pub workspace : Text

-- `RegistrationEpoch` wraps a `u64`.
abbrev pub RegistrationEpoch : Type 0
RegistrationEpoch = ℕ

-- `str::parse::<u64>` of a string of digits: `none` on overflow.
parse_digits : ℕ → Text → Option ℕ
parse_digits acc [] = some acc
parse_digits acc (b ∷ bs) =
    let next = acc * 10 + (b - b'0') in
    let rest = parse_digits next bs in if leb next u64_max then rest else none

abbrev starts_with_zero : Text → Bool
starts_with_zero [] = false
starts_with_zero (b ∷ _) = b == b'0'

abbrev positive_epoch : Option ℕ → Option RegistrationEpoch
positive_epoch none = none
positive_epoch (some value) = then_some (ltb 0 value) value

-- `RegistrationEpoch::parse`
unfoldable pub parse_epoch : Text → Option RegistrationEpoch
unfolding parse_digits
parse_epoch [] = none
parse_epoch (b ∷ bs) =
    if all is_ascii_digit (b ∷ bs)
    then if ltb 1 (length (b ∷ bs)) && starts_with_zero (b ∷ bs)
      then none
      else positive_epoch (parse_digits 0 (b ∷ bs))
    else none

pub record RegistrationCredentials : Type 0 where
  pub id : RegistrationId
  pub epoch : RegistrationEpoch

-- `==` of two credentials
unfoldable pub credentials_eq : RegistrationCredentials → RegistrationCredentials → Bool
credentials_eq a b = text_eq a.id b.id && (a.epoch == b.epoch)

pub record Registration : Type 0 where
  pub id : RegistrationId
  pub epoch : RegistrationEpoch
  pub agent : VerifiedAgent
  pub harness_session_id : Text
  pub expires_unix_ms : ℕ

-- `Registration::credentials`
abbrev pub credentials : Registration → RegistrationCredentials
credentials r = record { id = r.id; epoch = r.epoch }

pub record FileReference : Type 0 where
  pub path : Text
  pub media_type : Option Text
  pub label : Option Text

-- `MessagePayload`, `ValidatedPayload` and `ReplyPayload` have the same three fields.
pub record Payload : Type 0 where
  pub text : Text
  pub metadata : Value
  pub file_refs : List FileReference

abbrev pub MessagePayload : Type 0
MessagePayload = Payload

abbrev pub ValidatedPayload : Type 0
ValidatedPayload = Payload

abbrev pub ReplyPayload : Type 0
ReplyPayload = Payload

pub Payload-discrete : Discrete Payload
Payload-discrete = hlevel (ℕ_discrete, Value-discrete)

pub record QueuedDelivery : Type 0 where
  pub task_id : Text
  pub context_id : Text
  pub sender : AgentName
  pub recipient : AgentName
  pub payload : ValidatedPayload
  pub created_unix_ms : ℕ
  pub attempt : ℕ

pub record DeliveredMessage : Type 0 where
  pub delivery_id : DeliveryId
  pub task_id : Text
  pub context_id : Text
  pub sender : AgentName
  pub recipient : AgentName
  pub payload : ValidatedPayload
  pub leased_until_unix_ms : ℕ
  pub attempt : ℕ

-- `==` of two payloads
pub payload_eq : Payload → Payload → Bool
payload_eq a b = decide (Payload-discrete a b)

pub payload_eq_iff : (a b : Payload) → (payload_eq a b ≡ true) ↔ (a ≡ b)
unfolding payload_eq mathlib.Core.Bool.decide
payload_eq_iff a b = go (Payload-discrete a b)
  where
    go : (d : Dec (a ≡ b)) → (decide d ≡ true) ↔ (a ≡ b)
    go (yes e) = (λ _. e, λ _. refl)
    go (no ne) = (λ h. cc, λ e. absurd (ne e))
