-- ===== src/Store/Ledger/Rows/Restored.antt =====
-- What the storage accepts, the broker accepts on a restart: `validate_durable_for_store` of
-- crates/herdr-a2a-broker/src/ledger.rs against `validate_durable_task` of
-- crates/herdr-a2a-core/src/broker.rs.
use herdr_a2a.Base.{◌≡◌, refl, true, Option, none, some, arith, i64_sub}
use herdr_a2a.Base.Outcome.{done, require_then}
use herdr_a2a.Core.Errors.{Result, ok, err, panicked, is_ok, map_err, DomainError}
use herdr_a2a.Core.Model.{Payload, validate_task_id}
use herdr_a2a.Core.Validation.{parse_agent_name, validate_persisted_payload}
use herdr_a2a.Core.Durability.{
  DurableTask, DurableTaskState, DurableLease, queued, leased, acknowledged, replied, expired,
}
use herdr_a2a.Broker.Task.{
  lease_valid, fields_match_state, validate_durable_times, validate_durable_header,
  validate_durable_reply, validate_durable_task,
}
use herdr_a2a.Store.Ledger.{Codec}
use herdr_a2a.Store.Ledger.Rows.{
  validate_durable_for_store, validate_columns, lease_columns_valid, columns_match_state,
  check_reply_payload,
}
use herdr_a2a.Store.Ledger.Rows.Accepted.{validate_columns-parts, validate_durable_for_store-parts}

map_err-is_ok :
    {A : Type 0} (r : Result A) (e : DomainError) → is_ok r ≡ true → (a : A) × (map_err r e ≡ ok a)
map_err-is_ok (ok a) e h = (a, refl)
map_err-is_ok (err x) e h = cc
map_err-is_ok panicked e h = cc

lease_columns-lease_valid :
    (task : DurableTask) (lease : Option DurableLease)
    → lease_columns_valid task lease ≡ true
    → lease_valid task lease ≡ true
unfolding lease_columns_valid lease_valid i64_sub
lease_columns-lease_valid task none h = refl
lease_columns-lease_valid task (some lease) h = ground arith

columns-fields_match_state :
    (task : DurableTask) (state : DurableTaskState)
    → columns_match_state task state ≡ true
    → fields_match_state task state ≡ true
unfolding columns_match_state fields_match_state
columns-fields_match_state task queued h = ground arith
columns-fields_match_state task leased h = ground arith
columns-fields_match_state task acknowledged h = ground arith
columns-fields_match_state task replied h = ground arith
columns-fields_match_state task DurableTaskState.failed h = ground arith
columns-fields_match_state task DurableTaskState.rejected h = ground arith
columns-fields_match_state task DurableTaskState.canceled h = ground arith
columns-fields_match_state task expired h = ground arith

columns-times :
    (task : DurableTask) → validate_columns task ≡ done tt → validate_durable_times task ≡ ok tt
unfolding validate_durable_times
columns-times task h =
    let (deadline, e, created, due, version, ack, lease, terminal, state) =
      validate_columns-parts task h in
    rw
      (
        e,
        created,
        due,
        version,
        lease_columns-lease_valid task task.lease lease,
        ack,
        terminal,
        columns-fields_match_state task task.state state,
      )
      refl

module _ {Task : Type 0} (codec : Codec Task) where
  open codec use {platform}

  checked_reply :
      (reply : Option Payload)
      → check_reply_payload codec reply ≡ done tt
      → validate_durable_reply platform reply ≡ ok tt
  unfolding check_reply_payload validate_durable_reply
  checked_reply none h = refl
  checked_reply (some reply) h =
      let (bounds, _) = require_then _ _ _ h in
      (map_err-is_ok (validate_persisted_payload platform reply) _ bounds).1

  -- A task that validate_durable_for_store accepts passes the broker's validate_durable_task.
  pub validate_durable_for_store-accepted :
      (task : DurableTask)
      → validate_durable_for_store codec task ≡ done tt
      → validate_durable_task platform task ≡ ok tt
  unfolding validate_durable_task validate_durable_header
  validate_durable_for_store-accepted task h =
      let (id, context, sender, recipient, request, _, reply, columns) =
        validate_durable_for_store-parts codec task h in
      rw
        (
          (map_err-is_ok (validate_task_id task.task_id) _ id).1,
          (map_err-is_ok (validate_task_id task.context_id) _ context).1,
          (map_err-is_ok (parse_agent_name task.sender) _ sender).1,
          (map_err-is_ok (parse_agent_name task.recipient) _ recipient).1,
          (map_err-is_ok (validate_persisted_payload platform task.payload) _ request).1,
          checked_reply task.reply reply,
          columns-times task columns,
        )
        refl
