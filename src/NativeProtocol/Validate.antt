-- ===== src/NativeProtocol/Validate.antt =====
-- `validate_native_log_batch` of src/native_protocol.rs, that walks a batch and keeps no record.
use shard_log.Prelude.{
  ℕ, zero, suc, ◌+◌, ◌^◌, not, ◌||◌, String, List, [], ◌∷◌, ◌++◌, is_empty, any, ltb, leb, nat_eq,
  ◌==◌,
}
use shard_log.Outcome.{ok, ◌>>=◌, ◌>>◌, reject}
use shard_log.NativeProtocol.Wire.{
  message, formatted, Checked, Text, text_eq, Cursor, sum_within, uint, string, string16, finish,
}
use shard_log.NativeProtocol.Batch.{
  max_metadata_per_entry, inspect_native_log_batch, stream_count, batch_cursor, stream_header,
}

-- The loops over the keys, with the keys so far.
unfoldable pub validate_fields : String → String → String → ℕ → List Text → Cursor → Checked Cursor
validate_fields key_field value_field complaint zero keys c = ok c
validate_fields key_field value_field complaint (suc n) keys c = do
  (key, c) ← string16 c key_field
  (value, c) ← string16 c value_field
  reject (is_empty key || any (λ (k : Text). k == key) keys) (message complaint)
  validate_fields key_field value_field complaint n (keys ++ (key ∷ [])) c

abbrev pub validate_labels : ℕ → List Text → Cursor → Checked Cursor
validate_labels =
    validate_fields "label key" "label value" "native stream contains an empty or duplicate label"

-- No key, one key, or a loop.
unfoldable pub validate_metadata : ℕ → Cursor → Checked Cursor
validate_metadata zero c = ok c
validate_metadata (suc zero) c = do
  (key, c) ← string16 c "metadata key"
  (value, c) ← string16 c "metadata value"
  reject (is_empty key) (message "native entry contains empty metadata")
  ok c
validate_metadata (suc (suc n)) c =
    validate_fields "metadata key" "metadata value"
      "native entry contains empty or duplicate metadata" (suc (suc n)) [] c

unfoldable pub validate_entry : Cursor → Checked Cursor
validate_entry c = do
  (timestamp, c) ← uint 8 c "timestamp"
  reject (leb (2 ^ 63) timestamp) (message "native log timestamp exceeds the signed i64 range")
  (line_len, c) ← uint 4 c "line length"
  (metadata_count, c) ← uint 2 c "metadata count"
  reject (ltb max_metadata_per_entry metadata_count)
      (message "native entry contains too much structured metadata")
  (reserved, c) ← uint 2 c "entry reserved bytes"
  reject (not (reserved == 0)) (message "native entry reserved bytes must be zero")
  (line, c) ← string c line_len "log line"
  validate_metadata metadata_count c

unfoldable pub validate_entries : ℕ → Cursor → Checked Cursor
validate_entries zero c = ok c
validate_entries (suc n) c = do c ← validate_entry c; validate_entries n c

unfoldable pub validate_streams : ℕ → ℕ → ℕ → Cursor → Checked (ℕ × Cursor)
validate_streams zero record_count decoded c = ok (decoded, c)
validate_streams (suc n) record_count decoded c = do
  (label_count, entry_count, c) ← stream_header c
  reject (not (sum_within decoded entry_count record_count))
      (message "native stream counts exceed declared record count")
  c ← validate_labels label_count [] c
  c ← validate_entries entry_count c
  validate_streams n record_count (decoded + entry_count) c

unfoldable pub validate_native_log_batch : List ℕ → Checked (Unit {0})
validate_native_log_batch payload = do
  info ← inspect_native_log_batch payload
  (decoded, c) ←
      validate_streams (stream_count payload) info.record_count 0 (batch_cursor payload info)
  reject (not (decoded == info.record_count)) (
      formatted "native batch decoded {decoded_count} records, expected {}"
        (decoded ∷ info.record_count ∷ []))
  finish c
