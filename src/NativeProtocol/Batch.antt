-- ===== src/NativeProtocol/Batch.antt =====
-- The grouped batch of src/native_protocol.rs: `inspect_native_log_batch` and
-- `decode_native_log_batch`. A `BTreeMap` is an association list; nothing depends on its order. What a
-- `Vec` reserves ahead of its elements is not modelled.
use shard_log.Prelude.{
  ℕ, zero, suc, ◌+◌, ◌^◌, not, ◌||◌, String, List, [], ◌∷◌, ◌++◌, length, is_empty, ltb, list_beq,
  nat_eq, ◌==◌,
}
use shard_log.Bytes.{from_le_bytes}
use shard_log.Outcome.{ok, ◌>>=◌, ◌>>◌, reject}
use shard_log.Map.{Map, insert, contains_key}
use shard_log.NativeProtocol.Wire.{
  message, formatted, Checked, Text, text_eq, is_utf8, slice, Cursor, sum_within, uint, string,
  string16, finish,
}

abbrev pub batch_magic : List ℕ
batch_magic = b'S' ∷ b'L' ∷ b'B' ∷ b'1' ∷ []

abbrev pub batch_header_bytes : ℕ
batch_header_bytes = 16

abbrev pub max_tenant_bytes : ℕ
max_tenant_bytes = 1024

abbrev pub max_labels_per_stream : ℕ
max_labels_per_stream = 256

abbrev pub max_metadata_per_entry : ℕ
max_metadata_per_entry = 256

-- The timestamp is an i64 that is not negative.
pub record LokiEntry : Type 0 where
  pub timestamp_unix_nanos : ℕ
  pub labels : Map Text Text
  pub line : Text
  pub structured_metadata : Map Text Text

pub record NativeLogBatch : Type 0 where
  pub tenant : Text
  pub entries : List LokiEntry

pub record NativeBatchInfo : Type 0 where
  pub tenant : Text
  pub record_count : ℕ

unfoldable pub inspect_native_log_batch : List ℕ → Checked NativeBatchInfo
inspect_native_log_batch payload = do
  reject (ltb (length payload) batch_header_bytes)
      (message "native log batch is shorter than its header")
  reject (not (list_beq (slice 0 4 payload) batch_magic)) (message "invalid native log batch magic")
  reject (not (list_beq (slice 12 16 payload) (0 ∷ 0 ∷ 0 ∷ 0 ∷ [])))
      (message "native log batch reserved bytes must be zero")
  let tenant_len = from_le_bytes (slice 4 6 payload)
  reject (ltb max_tenant_bytes tenant_len) (message "native log batch tenant exceeds its limit")
  reject (not (sum_within batch_header_bytes tenant_len (length payload)))
      (message "native log batch tenant is truncated")
  let tenant = slice batch_header_bytes (batch_header_bytes + tenant_len) payload
  reject (not (is_utf8 tenant)) (message "native log batch tenant is not UTF-8")
  reject (is_empty tenant) (message "native log batch tenant must not be empty")
  ok (record { tenant = tenant; record_count = from_le_bytes (slice 8 12 payload) })

-- The number of streams, and the cursor behind the tenant.
abbrev pub stream_count : List ℕ → ℕ
stream_count payload = from_le_bytes (slice 6 8 payload)

abbrev pub batch_cursor : List ℕ → NativeBatchInfo → Cursor
batch_cursor payload info = record {
  bytes = payload;
  offset = batch_header_bytes + length info.tenant;
}

-- The loops over labels and over metadata, that differ in the words of their errors.
unfoldable pub decode_fields :
    String → String → String → ℕ → Map Text Text → Cursor → Checked (Map Text Text × Cursor)
decode_fields key_field value_field complaint zero fields c = ok (fields, c)
decode_fields key_field value_field complaint (suc n) fields c = do
  (key, c) ← string16 c key_field
  (value, c) ← string16 c value_field
  reject (is_empty key || contains_key key fields) (message complaint)
  decode_fields key_field value_field complaint n (insert key value fields) c

abbrev pub decode_labels : ℕ → Map Text Text → Cursor → Checked (Map Text Text × Cursor)
decode_labels =
    decode_fields "label key" "label value" "native stream contains an empty or duplicate label"

abbrev pub decode_metadata : ℕ → Map Text Text → Cursor → Checked (Map Text Text × Cursor)
decode_metadata =
    decode_fields "metadata key" "metadata value"
      "native entry contains empty or duplicate metadata"

unfoldable pub decode_entry : Map Text Text → Cursor → Checked (LokiEntry × Cursor)
decode_entry labels c = do
  (timestamp, c) ← uint 8 c "timestamp"
  (line_len, c) ← uint 4 c "line length"
  (metadata_count, c) ← uint 2 c "metadata count"
  reject (ltb max_metadata_per_entry metadata_count)
      (message "native entry contains too much structured metadata")
  (reserved, c) ← uint 2 c "entry reserved bytes"
  reject (not (reserved == 0)) (message "native entry reserved bytes must be zero")
  (line, c) ← string c line_len "log line"
  (metadata, c) ← decode_metadata metadata_count [] c
  reject (not (ltb timestamp (2 ^ 63)))
      (message "native log timestamp exceeds the signed i64 range")
  ok (
    record {
      timestamp_unix_nanos = timestamp;
      labels = labels;
      line = line;
      structured_metadata = metadata;
    },
    c,
  )

unfoldable pub decode_entries :
    ℕ → Map Text Text → List LokiEntry → Cursor → Checked (List LokiEntry × Cursor)
decode_entries zero labels entries c = ok (entries, c)
decode_entries (suc n) labels entries c = do
  (entry, c) ← decode_entry labels c
  decode_entries n labels (entries ++ (entry ∷ [])) c

-- The label count and the entry count at the head of a stream.
unfoldable pub stream_header : Cursor → Checked (ℕ × ℕ × Cursor)
stream_header c = do
  (label_count, c) ← uint 2 c "label count"
  reject (ltb max_labels_per_stream label_count) (message "native stream contains too many labels")
  (reserved, c) ← uint 2 c "stream reserved bytes"
  reject (not (reserved == 0)) (message "native stream reserved bytes must be zero")
  (entry_count, c) ← uint 4 c "entry count"
  ok (label_count, entry_count, c)

unfoldable pub decode_streams : ℕ → ℕ → List LokiEntry → Cursor → Checked (List LokiEntry × Cursor)
decode_streams zero record_count entries c = ok (entries, c)
decode_streams (suc n) record_count entries c = do
  (label_count, entry_count, c) ← stream_header c
  (labels, c) ← decode_labels label_count [] c
  reject (not (sum_within (length entries) entry_count record_count))
      (message "native stream counts exceed declared record count")
  (entries, c) ← decode_entries entry_count labels entries c
  decode_streams n record_count entries c

unfoldable pub decode_native_log_batch : List ℕ → Checked NativeLogBatch
decode_native_log_batch payload = do
  info ← inspect_native_log_batch payload
  (entries, c) ←
      decode_streams (stream_count payload) info.record_count [] (batch_cursor payload info)
  reject (not (length entries == info.record_count)) (
      formatted "native batch decoded {} records, expected {}"
        (length entries ∷ info.record_count ∷ []))
  finish c
  ok (record { tenant = info.tenant; entries = entries })
