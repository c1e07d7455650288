-- ===== src/NativeProtocol/Tests.antt =====
-- Batches on concrete bytes.
use shard_log.Prelude.{
  ℕ, ◌≡◌, refl, Option, none, some, List, [], ◌∷◌, ◌++◌, map, any, list_beq, false, arith, take,
  drop, length, ◌↔◌,
}
use mathlib.Core.Option
use shard_log.Outcome.{ok}
use shard_log.SinkJournal.Tests.{flat_hash}
use shard_log.NativeProtocol.Frame.{
  NativeFrameHeader, NativeAppendAck, query, success, new_header, decode_header, encode_frame,
  verify_payload, payload_checksum, opcode_from_byte, encode_ack, decode_ack,
}
use shard_log.NativeProtocol.Query.{
  NativeQuery, newest_first, validate_query, validate_tenant, validate_labels, validate_terms,
  validate_string16, encode_native_query,
}
use shard_log.NativeProtocol.QueryLaws.{encode_native_query-valid}
use shard_log.NativeProtocol.FrameRoundTrip.{decode_header-encode_frame, decode_ack-encode_ack}
use shard_log.Bytes.{from_le_bytes}
use shard_log.NativeProtocol.Wire.{
  read_bytes, uint, string, string16, finish, is_utf8, utf8_from, utf8_lead,
}
use shard_log.NativeProtocol.DurableDecode.{decode_native_log_events-validated}
use shard_log.NativeProtocol.Batch.{
  NativeBatchInfo, inspect_native_log_batch, stream_header, decode_native_log_batch,
}
use shard_log.NativeProtocol.Validate.{
  validate_fields, validate_metadata, validate_entry, validate_entries, validate_streams,
  validate_native_log_batch,
}
use shard_log.NativeProtocol.Events.{
  OtlpLogEvent, event_labels, single_fields, event_metadata, decode_event, decode_events,
  event_streams, decode_native_log_events,
}
use shard_log.NativeProtocol.Agreement.{accepted, validate_native_log_batch-accepted}
use shard_log.NativeProtocol.Lockstep.{Agree}
use shard_log.NativeProtocol.EventStreams.{SameBatch, decode_native_log_events-Agree}

-- Tenant "a", a stream with the label k=v, and in it the line "hi" with the metadata m=n.
abbrev small_batch : List ℕ
small_batch =
    (b'S' ∷ b'L' ∷ b'B' ∷ b'1' ∷ 1 ∷ 0 ∷ 1 ∷ 0 ∷ 1 ∷ 0 ∷ 0 ∷ 0 ∷ 0 ∷ 0 ∷ 0 ∷ 0 ∷ b'a' ∷ [])
    ++ (1 ∷ 0 ∷ 0 ∷ 0 ∷ 1 ∷ 0 ∷ 0 ∷ 0 ∷ 1 ∷ 0 ∷ b'k' ∷ 1 ∷ 0 ∷ b'v' ∷ [])
    ++ (5 ∷ 0 ∷ 0 ∷ 0 ∷ 0 ∷ 0 ∷ 0 ∷ 0 ∷ 2 ∷ 0 ∷ 0 ∷ 0 ∷ 1 ∷ 0 ∷ 0 ∷ 0 ∷ b'h' ∷ b'i' ∷ [])
    ++ (1 ∷ 0 ∷ b'm' ∷ 1 ∷ 0 ∷ b'n' ∷ [])

small_batch_valid : validate_native_log_batch small_batch ≡ ok tt
unfolding validate_native_log_batch inspect_native_log_batch validate_streams stream_header uint
    read_bytes validate_fields string16 string is_utf8 utf8_from utf8_lead validate_entries
    validate_entry validate_metadata finish from_le_bytes list_beq any
small_batch_valid = refl

-- A byte less, and the last value is truncated.
truncated_batch : List ℕ → Option (List ℕ)
truncated_batch [] = none
truncated_batch (x ∷ []) = some []
truncated_batch (x ∷ y ∷ xs) = Option.map (λ rest. x ∷ rest) (truncated_batch (y ∷ xs))

truncated_batch_invalid :
    Option.map
      (λ payload. accepted (validate_native_log_batch payload))
      (truncated_batch small_batch)
    ≡ some none
unfolding truncated_batch validate_native_log_batch inspect_native_log_batch validate_streams
    stream_header uint read_bytes validate_fields string16 string is_utf8 utf8_from utf8_lead
    validate_entries validate_entry validate_metadata finish from_le_bytes list_beq any
truncated_batch_invalid = refl

messages : List OtlpLogEvent → List (List ℕ)
messages = map (λ (event : OtlpLogEvent). event.message)

small_batch_events :
    Option.map
      (λ (tenant, events). messages events)
      (accepted (decode_native_log_events small_batch))
    ≡ some ((b'h' ∷ b'i' ∷ []) ∷ [])
unfolding messages decode_native_log_events inspect_native_log_batch event_streams stream_header
    uint read_bytes event_labels string16 string is_utf8 utf8_from utf8_lead decode_events
    decode_event event_metadata single_fields finish from_le_bytes list_beq any
small_batch_events = refl

validate_native_log_batch-accepted_example :
    accepted (validate_native_log_batch small_batch)
    ≡ Option.map (λ batch. tt) (accepted (decode_native_log_batch small_batch))
validate_native_log_batch-accepted_example = validate_native_log_batch-accepted small_batch

decode_native_log_events-Agree_example :
    Agree SameBatch (decode_native_log_batch small_batch) (decode_native_log_events small_batch)
decode_native_log_events-Agree_example = decode_native_log_events-Agree small_batch

decode_header-encode_frame_example :
    (h : NativeFrameHeader) × (new_header flat_hash query 7 success false (5 ∷ 6 ∷ []) ≡ ok h)
    × (decode_header (take 32 (encode_frame (record { header = h; payload = 5 ∷ 6 ∷ [] }))) ≡ ok h)
    × (drop 32 (encode_frame (record { header = h; payload = 5 ∷ 6 ∷ [] })) ≡ 5 ∷ 6 ∷ [])
    × ((other : List ℕ)
        → (verify_payload flat_hash h other ≡ ok tt) ↔ (
            (length other ≡ length {A = ℕ} (5 ∷ 6 ∷ []))
            × (payload_checksum flat_hash other ≡ payload_checksum flat_hash (5 ∷ 6 ∷ []))))
decode_header-encode_frame_example =
    decode_header-encode_frame flat_hash (5 ∷ 6 ∷ []) query 7 success false (omega arith)
      (omega arith)

abbrev small_ack : NativeAppendAck
small_ack = record { partition_id = 3; first_offset = 300; last_offset = 70000 }

decode_ack-encode_ack_example : decode_ack (encode_ack small_ack) ≡ ok small_ack
decode_ack-encode_ack_example =
    decode_ack-encode_ack small_ack (omega arith) (omega arith) (omega arith)

-- Another opcode than the four is refused.
bad_opcode : accepted (opcode_from_byte 5) ≡ none
unfolding opcode_from_byte
bad_opcode = refl

abbrev small_query : NativeQuery
small_query = record {
  tenant = b'a' ∷ [];
  labels = (b'k' ∷ [], b'v' ∷ []) ∷ [];
  terms = (b'h' ∷ b'i' ∷ []) ∷ [];
  start_timestamp_unix_nanos = some 5;
  end_timestamp_unix_nanos = none;
  limit = 10;
  direction = newest_first;
}

small_query_valid : validate_query small_query ≡ ok tt
unfolding validate_query validate_tenant validate_labels validate_terms validate_string16
small_query_valid = refl

encode_native_query-valid_example : (bytes : List ℕ) × (encode_native_query small_query ≡ ok bytes)
encode_native_query-valid_example = encode_native_query-valid small_query small_query_valid

decode_native_log_events-validated_example :
    (info : NativeBatchInfo) × (events : List OtlpLogEvent) × (inspect_native_log_batch small_batch
      ≡ ok info)
    × (decode_native_log_events small_batch ≡ ok (info.tenant, events))
    × (length events ≡ info.record_count)
decode_native_log_events-validated_example =
    decode_native_log_events-validated small_batch small_batch_valid
