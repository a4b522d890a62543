-- ===== src/Store/Ledger/Rows/Roundtrip.antt =====
-- A task that is written as a row is read back from that row.
use herdr_a2a.Base.{
  ℕ, ◌≤◌, ◌≡◌, refl, subst, true, false, ◌&&◌, Option, none, some, inl, inr, ltb, leb, ◌==◌,
  is_none_or, Text, text_eq, text_eq_iff, text_eq_refl, Option-cases, arith, i64_sub, i64_of,
  u64_of-i64_of, u32_of-offset, u32_max,
}
use mathlib.Core.Option
use herdr_a2a.Base.Outcome.{done, >>=-eq-done, some_or-eq-done, some_or_then, done-injective}
use herdr_a2a.Core.Model.{Payload}
use herdr_a2a.Core.Durability.{
  DurableTask, DurableTaskState, DurableLease, queued, leased, acknowledged, replied, expired,
}
use herdr_a2a.Store.Ledger.{Codec, invalid_data, StoredTaskRow}
use herdr_a2a.Store.Ledger.Rows.Accepted.{validate_columns-parts, validate_durable_for_store-parts}
use herdr_a2a.Store.Ledger.Rows.{
  encode_state, decode_state, validate_durable_for_store, lease_columns_valid, encode_payload,
  encode_reply, decode_payload, decode_reply, decode_lease, encode_durable_task, row_of, validated,
  decode_durable_task, delivery_lease_ms,
}

-- decode_state reads every state that encode_state writes.
pub decode_state-encode_state :
    (state : DurableTaskState) → decode_state (encode_state state) ≡ done state
unfolding decode_state encode_state text_eq
decode_state-encode_state queued = refl
decode_state-encode_state leased = refl
decode_state-encode_state acknowledged = refl
decode_state-encode_state replied = refl
decode_state-encode_state DurableTaskState.failed = refl
decode_state-encode_state DurableTaskState.rejected = refl
decode_state-encode_state DurableTaskState.canceled = refl
decode_state-encode_state expired = refl

module _ {Task : Type 0} (codec : Codec Task) where
  open codec use {payload_json, parse_payload, parse_delivery_id}

  -- The JSON that is printed from this payload parses to the payload. It is asked of one payload
  -- at a time, since the JSON library may read another number than the one it has printed.
  abbrev pub PayloadParses : Payload → Type 0
  PayloadParses payload =
      (json : Text) → payload_json payload ≡ some json → parse_payload json ≡ some payload

  -- The same of the payload of a reply, if there is a reply.
  abbrev pub ReplyParses : Option Payload → Type 0
  ReplyParses none = Unit
  ReplyParses (some payload) = PayloadParses payload

  -- The id of a lease is a delivery id.
  abbrev pub IdParses : Option DurableLease → Type 0
  IdParses none = Unit
  IdParses (some lease) = parse_delivery_id lease.delivery_id ≡ some lease.delivery_id

  decode_payload-encode_payload :
      (payload : Payload) (json : Text)
      → PayloadParses payload
      → encode_payload codec payload ≡ done json
      → decode_payload codec json ≡ done payload
  unfolding decode_payload
  decode_payload-encode_payload payload json parses h =
      let printed = some_or-eq-done (payload_json payload) invalid_data h in
      rw (parses json printed, printed, text_eq_refl json) refl

  decode_reply-encode_reply :
      (reply : Option Payload) (json : Option Text)
      → ReplyParses reply
      → encode_reply codec reply ≡ done json
      → decode_reply codec json ≡ done reply
  unfolding decode_reply encode_reply
  decode_reply-encode_reply none json parses h =
      let e : none ≡ json = cc in subst (λ j. decode_reply codec j ≡ done none) e refl
  decode_reply-encode_reply (some reply) json parses h =
      let (text, printed, last) = >>=-eq-done _ _ h in
      let e : some text ≡ json = cc in
      subst (λ j. decode_reply codec j ≡ done (some reply)) e
        (rw (decode_payload-encode_payload reply text parses printed) refl)

  lease_columns-same :
      (task : DurableTask) (lease : DurableLease)
      → lease_columns_valid task (some lease) ≡ true
      → (lease.owner ≡ task.recipient) × (lease.attempt ≡ task.attempt)
  unfolding lease_columns_valid
  lease_columns-same task lease h =
      elim (Option-cases (i64_sub lease.leased_until_unix_ms delivery_lease_ms)) [
        | inl e ↦ let no : false ≡ true = rw (lease_columns_valid, e) at h in cc
        | inr (leased_unix_ms, e) ↦
            let tests : ((leb task.created_unix_ms leased_unix_ms
                    && text_eq lease.owner task.recipient)
                  && ((lease.attempt == task.attempt)
                      && is_none_or task.acknowledged_unix_ms
                          (λ ack. leb leased_unix_ms ack && ltb ack lease.leased_until_unix_ms)))
                ≡ true =
              rw (lease_columns_valid, e) at h in
            ground (arith, text_eq_iff lease.owner task.recipient)
      ]

  decode_lease-columns :
      (task : DurableTask) (lease : Option DurableLease)
      → IdParses lease
      → lease_columns_valid task lease ≡ true
      → decode_lease codec task.recipient task.attempt
          (Option.map (λ l. l.delivery_id) lease)
          (Option.map (λ l. l.leased_until_unix_ms) lease)
        ≡ done lease
  unfolding decode_lease lease_columns_valid
  decode_lease-columns task none parses h = refl
  decode_lease-columns task (some lease) parses h =
      let same : (lease.owner ≡ task.recipient) × (lease.attempt ≡ task.attempt) =
        lease_columns-same task lease h in
      rw parses cc

  decode_durable_task-row_of :
      (task : DurableTask) (v : ℕ) (request : Text) (reply : Option Text)
      → PayloadParses task.payload
      → ReplyParses task.reply
      → IdParses task.lease
      → task.attempt ≤ u32_max
      → validate_durable_for_store codec task ≡ done tt
      → i64_of task.state_version ≡ some v
      → encode_payload codec task.payload ≡ done request
      → encode_reply codec task.reply ≡ done reply
      → decode_durable_task codec (row_of task v request reply) ≡ done task
  unfolding decode_durable_task validated
  decode_durable_task-row_of task v request reply parses reply_parses id_parses small valid ev er
        ep =
      let (_, _, sender, recipient, _, _, _, columns) =
        validate_durable_for_store-parts codec task valid in
      let (_, _, _, _, version, _, lease, _, _) = validate_columns-parts task columns in
      rw
        (
          u64_of-i64_of task.state_version ev,
          version,
          u32_of-offset task.attempt small,
          sender,
          recipient,
          decode_payload-encode_payload task.payload request parses er,
          decode_reply-encode_reply task.reply reply reply_parses ep,
          decode_state-encode_state task.state,
          decode_lease-columns task task.lease id_parses lease,
          valid,
        )
        refl

  -- A task that is valid for the store, whose own payloads (the request, and the reply if there is
  -- one) are parsed from the JSON that is printed for them, whose lease bears a delivery id and
  -- whose attempt is a u32 is read back from the row that is written for it.
  pub decode_durable_task-encode :
      (task : DurableTask) {row : StoredTaskRow}
      → PayloadParses task.payload
      → ReplyParses task.reply
      → IdParses task.lease
      → task.attempt ≤ u32_max
      → validate_durable_for_store codec task ≡ done tt
      → encode_durable_task codec task ≡ done row
      → decode_durable_task codec row ≡ done task
  unfolding encode_durable_task
  decode_durable_task-encode task {row} parses reply_parses id_parses small valid h =
      let (v, ev, h1) = some_or_then _ _ _ h in
      let (request, er, h2) = >>=-eq-done _ _ h1 in
      let (reply, ep, h3) = >>=-eq-done _ _ h2 in
      let same : row_of task v request reply ≡ row = done-injective h3 in
      subst (λ r. decode_durable_task codec r ≡ done task) same
        (decode_durable_task-row_of task v request reply parses reply_parses id_parses small valid
          ev er ep)
