-- ===== src/NativeProtocol/DurableDecode.antt =====
-- A batch that was validated before its offsets were reserved is decoded behind the durable append.
use shard_log.Prelude.{ℕ, ◌≡◌, List, [], length, ◌∙◌, ap, subst, inl, inr, arith, nat_eq}
use shard_log.Outcome.{ok, Result-cases}
use shard_log.NativeProtocol.Wire.{Text}
use shard_log.NativeProtocol.Batch.{
  NativeBatchInfo, inspect_native_log_batch, decode_native_log_batch, stream_count, batch_cursor,
}
use shard_log.NativeProtocol.Validate.{validate_native_log_batch}
use shard_log.NativeProtocol.Events.{
  MetadataField, OtlpLogEvent, tenant_key, event_streams, decode_native_log_events,
}
use shard_log.NativeProtocol.Agreement.{accepted, validate_native_log_batch-accepted}
use shard_log.NativeProtocol.Lockstep.{Agree}
use shard_log.NativeProtocol.EventStreams.{SameBatch, decode_native_log_events-Agree}

-- What the event decoder returns has as many events as the header declares.
decode_native_log_events-count :
    (payload : List ℕ) (r : Text × List OtlpLogEvent)
    → decode_native_log_events payload ≡ ok r
    → (info : NativeBatchInfo) × (inspect_native_log_batch payload ≡ ok info)
      × (r.0 ≡ info.tenant)
      × (length r.1 ≡ info.record_count)
unfolding decode_native_log_events
decode_native_log_events-count payload r h =
    elim (Result-cases (inspect_native_log_batch payload)) [
      | inr (e, x) ↦ absurd (ground arith)
      | inl (info, x) ↦
          let tenant_field : MetadataField = record { key = tenant_key; value = info.tenant } in
          elim (Result-cases (
            event_streams tenant_field (stream_count payload) info.record_count []
              (batch_cursor payload info))) [
                | inr (e, y) ↦ absurd (ground arith)
                | inl ((events, c), y) ↦ (info, x, ground arith, ground arith)
              ]
    ]

-- A payload that `validate_native_log_batch` accepts is decoded by `decode_native_log_events`, to the
-- tenant that the header names and to as many events as the header declares.
pub decode_native_log_events-validated :
    (payload : List ℕ)
    → validate_native_log_batch payload ≡ ok tt
    → (info : NativeBatchInfo) × (events : List OtlpLogEvent) × (inspect_native_log_batch payload
        ≡ ok info)
      × (decode_native_log_events payload ≡ ok (info.tenant, events))
      × (length events ≡ info.record_count)
decode_native_log_events-validated payload valid =
    elim (Result-cases (decode_native_log_batch payload)) [
      | inr (e, x) ↦ absurd (
          ground
            (arith, ap accepted valid, ap accepted x, validate_native_log_batch-accepted payload))
      | inl (batch, x) ↦ elim (Result-cases (decode_native_log_events payload)) [
        | inr (e, y) ↦ absurd (
            subst (λ r. Agree SameBatch (ok batch) r) y
              (subst (λ r. Agree SameBatch r (decode_native_log_events payload)) x
                (decode_native_log_events-Agree payload)))
        | inl ((tenant, events), y) ↦
            let counted = decode_native_log_events-count payload (tenant, events) y in
            (
              counted.0,
              events,
              counted.1,
              y ∙ ap (λ (t : Text). ok (t, events)) counted.2,
              counted.3,
            )
      ]
    ]
