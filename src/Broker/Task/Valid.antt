-- ===== src/Broker/Task/Valid.antt =====
-- What `validate_durable_task` accepts, field by field.
use herdr_a2a.Base.{
  ℕ, ◌≤◌, ◌<◌, ◌≡◌, refl, true, Option, none, some, arith, text_eq_iff, i64_zero, i64_add,
}
use herdr_a2a.Core.Errors.{ok}
use herdr_a2a.Core.Durability.{DurableTask, DurableLease}
use herdr_a2a.Core.Validation.{Platform}
use herdr_a2a.Broker.Task.{
  validate_durable_task, validate_durable_header, validate_durable_reply, validate_durable_times,
  terminal_times_valid, fields_match_state, lease_valid, ack_valid, delivery_ttl_ms,
}

-- A lease belongs to the task's recipient, has its attempt, and does not end before the task began.
abbrev pub LeaseFits : DurableTask → Option DurableLease → Type 0
LeaseFits t none = Unit
LeaseFits t (some l) =
    (l.owner ≡ t.recipient) × (l.attempt ≡ t.attempt) × (t.created_unix_ms ≤ l.leased_until_unix_ms)

-- An acknowledgement falls between the creation and the delivery deadline.
abbrev pub AckFits : DurableTask → Option ℕ → Type 0
AckFits t none = Unit
AckFits t (some a) = (t.created_unix_ms ≤ a) × (a ≤ t.delivery_deadline_unix_ms)

pub record IsValidTimes (t : DurableTask) : Type 0 where
  pub deadline : i64_add t.created_unix_ms delivery_ttl_ms ≡ some t.delivery_deadline_unix_ms
  pub created : i64_zero ≤ t.created_unix_ms
  pub version : 0 < t.state_version
  pub lease : LeaseFits t t.lease
  pub acknowledged : AckFits t t.acknowledged_unix_ms
  pub terminal :
      terminal_times_valid t.created_unix_ms t.terminal_unix_ms t.retention_deadline_unix_ms ≡ true
  pub fields : fields_match_state t t.state ≡ true

module _ (t : DurableTask) where
  LeaseFits_of_true : (o : Option DurableLease) → lease_valid t o ≡ true → LeaseFits t o
  unfolding lease_valid
  LeaseFits_of_true none h = tt
  LeaseFits_of_true (some l) h = ground (arith, text_eq_iff l.owner t.recipient)

  true_of_LeaseFits : (o : Option DurableLease) → LeaseFits t o → lease_valid t o ≡ true
  unfolding lease_valid
  true_of_LeaseFits none h = refl
  true_of_LeaseFits (some l) h = ground (arith, text_eq_iff l.owner t.recipient)

  AckFits-of_true : (o : Option ℕ) → ack_valid t o ≡ true → AckFits t o
  unfolding ack_valid
  AckFits-of_true none h = tt
  AckFits-of_true (some a) h = ground arith

  true_of_AckFits : (o : Option ℕ) → AckFits t o → ack_valid t o ≡ true
  unfolding ack_valid
  true_of_AckFits none h = refl
  true_of_AckFits (some a) h = ground arith

  -- The tests are exactly these facts.
  pub IsValidTimes-of_ok : validate_durable_times t ≡ ok tt → IsValidTimes t
  unfolding validate_durable_times
  IsValidTimes-of_ok h = record {
    deadline = ground arith;
    created = ground arith;
    version = ground arith;
    lease = LeaseFits_of_true t.lease (ground arith);
    acknowledged = AckFits-of_true t.acknowledged_unix_ms (ground arith);
    terminal = ground arith;
    fields = ground arith;
  }

  pub ok_of_IsValidTimes : IsValidTimes t → validate_durable_times t ≡ ok tt
  unfolding validate_durable_times
  ok_of_IsValidTimes v =
      let l = true_of_LeaseFits t.lease v.lease in
      let a = true_of_AckFits t.acknowledged_unix_ms v.acknowledged in ground (arith, l, a)

module _ (platform : Platform) (t : DurableTask) where
  pub record IsValid : Type 0 where
    pub header : validate_durable_header platform t ≡ ok tt
    pub reply : validate_durable_reply platform t.reply ≡ ok tt
    pub times : IsValidTimes t

  pub IsValid_of_ok : validate_durable_task platform t ≡ ok tt → IsValid
  unfolding validate_durable_task
  IsValid_of_ok h = record {
    header = ground arith;
    reply = ground arith;
    times = IsValidTimes-of_ok t (ground arith);
  }

  pub ok_of_IsValid : IsValid → validate_durable_task platform t ≡ ok tt
  unfolding validate_durable_task
  ok_of_IsValid v = ground (arith, v.header, v.reply, ok_of_IsValidTimes t v.times)
