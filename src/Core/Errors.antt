-- ===== src/Core/Errors.antt =====
-- `DomainError` of crates/herdr-a2a-core/src/validation.rs, and the results of fallible code.
use mathlib.Core.Path.{◌≡◌, refl}
use mathlib.Core.Bool.{Bool, true, false}
use mathlib.Core.Option.{Option, none, some}
use herdr_a2a.Base.{Text}

pub data DomainError : Type 0 where
  invalid_agent_name invalid_role_label invalid_registration_id invalid_delivery_id : DomainError
  invalid_task_id text_too_large metadata_too_large metadata_too_deep : DomainError
  too_many_metadata_entries too_many_file_references path_too_long : DomainError
  file_label_too_long : DomainError
  file_not_found : Text → DomainError
  workspace_not_found : Text → DomainError
  file_outside_workspace : Text → Text → DomainError
  registration_not_found registration_expired agent_not_registered sender_mismatch : DomainError
  wait_already_active wait_timed_out delivery_not_found delivery_not_owned : DomainError
  task_not_found task_not_owned duplicate_task reply_wait_already_active : DomainError
  reply_already_submitted task_canceled task_expired task_failed task_rejected : DomainError
  task_already_completed too_many_active_tasks too_many_retained_tasks : DomainError
  persistence_unavailable : DomainError

-- `panicked` is a failed `expect`.
pub data Result {ℓ} (A : Type ℓ) : Type ℓ where
  ok : A → Result A
  err : DomainError → Result A
  panicked : Result A

infixl 5 ◌>>=◌ ◌>>◌
abbrev pub ◌>>=◌ {ℓ κ} : {X : Type ℓ} {Y : Type κ} → Result X → (X → Result Y) → Result Y
panicked >>= next = panicked
err e >>= next = err e
ok x >>= next = next x

abbrev pub ◌>>◌ {ℓ} : {Y : Type ℓ} → Result (Unit {0}) → Result Y → Result Y
first >> next = first >>= λ _. next

-- `if !test { return Err(e) }`
abbrev pub guard : Bool → DomainError → Result (Unit {0})
guard false refusal = err refusal
guard true refusal = ok tt

-- `option.ok_or(e)?`
abbrev pub ok_or {ℓ} : {A : Type ℓ} → Option A → DomainError → Result A
ok_or none e = err e
ok_or (some a) e = ok a

-- `option.expect(…)`
abbrev pub expect {ℓ} : {A : Type ℓ} → Option A → Result A
expect none = panicked
expect (some a) = ok a

-- `result.map_err(|_| e)?`
abbrev pub map_err {ℓ} : {A : Type ℓ} → Result A → DomainError → Result A
map_err (ok a) e = ok a
map_err (err _) e = err e
map_err panicked e = panicked

abbrev pub is_ok {ℓ} : {A : Type ℓ} → Result A → Bool
is_ok (ok a) = true
is_ok (err e) = false
is_ok panicked = false

-- A chain that ends well began well.
pub >>=-eq-ok {ℓ κ} :
    {X : Type ℓ} {Y : Type κ} (first : Result X) (next : X → Result Y) {y : Y}
    → (first >>= next) ≡ ok y
    → (x : X) × (first ≡ ok x) × (next x ≡ ok y)
>>=-eq-ok panicked next h = cc
>>=-eq-ok (err e) next h = cc
>>=-eq-ok (ok x) next h = (x, refl, h)

pub guard-eq-ok : (test : Bool) (e : DomainError) {u : Unit {0}} → guard test e ≡ ok u → test ≡ true
guard-eq-ok false e h = cc
guard-eq-ok true e h = refl
