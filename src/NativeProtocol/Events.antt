-- ===== src/NativeProtocol/Events.antt =====
-- `decode_native_log_events` of src/native_protocol.rs: the durable path, that decodes a batch to
-- normalized events. A value behind an `Arc` is the value; what the loop caches to share an `Arc` with
-- the entry before is kept.
use shard_log.Prelude.{
  ℕ, zero, suc, ◌*◌, ◌%◌, ◌^◌, not, ◌&&◌, ◌||◌, Option, none, some, List, [], ◌∷◌, ◌++◌, length,
  is_empty, any, ltb, leb, nat_eq, ◌==◌, if◌then◌else◌,
}
use Prim.Native.Nat.{bit_xor}
use Prim.Native.Char.{code}
use Prim.Native.String.{String}
use shard_log.Outcome.{ok, ◌>>=◌, ◌>>◌, reject}
use shard_log.NativeProtocol.Wire.{
  message, formatted, Checked, Text, text_eq, Cursor, sum_within, uint, string, string16, finish,
}
use shard_log.NativeProtocol.Batch.{
  max_metadata_per_entry, inspect_native_log_batch, stream_count, batch_cursor, stream_header,
}

abbrev codes : String → List ℕ
codes String.[] = []
codes (String.◌∷◌ c s) = code c ∷ codes s

abbrev pub label_prefix : Text
label_prefix = codes "resource.loki.label."

abbrev pub metadata_prefix : Text
metadata_prefix = codes "attr.loki.metadata."

abbrev pub tenant_key : Text
tenant_key = codes "resource.loki.tenant"

pub record MetadataField : Type 0 where
  pub key : Text
  pub value : Text

pub record OtlpLogEvent : Type 0 where
  pub timestamp_unix_nanos : ℕ
  pub message : Text
  pub fields : List MetadataField
  pub compression_cohort : ℕ

-- FNV-1a of 64 bits over the key, 0xff, the value and 0xfe.
abbrev pub hash_byte : ℕ → ℕ → ℕ
hash_byte hash byte = (bit_xor hash byte * 0x100000001b3) % 2 ^ 64

unfoldable pub hash_bytes : ℕ → List ℕ → ℕ
hash_bytes hash [] = hash
hash_bytes hash (b ∷ bytes) = hash_bytes (hash_byte hash b) bytes

unfoldable pub update_cohort_hash : ℕ → Text → Text → ℕ
unfolding hash_bytes
update_cohort_hash hash key value = hash_byte (hash_bytes hash (key ++ (0xff ∷ value))) 0xfe

abbrev pub cohort_seed : ℕ
cohort_seed = 0xcbf29ce484222325

abbrev pub label_field : Text → Text → MetadataField
label_field key value = record { key = label_prefix ++ key; value = value }

abbrev pub metadata_field : Text → Text → MetadataField
metadata_field key value = record { key = metadata_prefix ++ key; value = value }

-- The labels of a stream, with the keys so far, and the stream's hash.
unfoldable pub event_labels :
    ℕ → List Text → List MetadataField → ℕ → Cursor → Checked (List MetadataField × ℕ × Cursor)
event_labels zero keys fields hash c = ok (fields, hash, c)
event_labels (suc n) keys fields hash c = do
  (key, c) ← string16 c "label key"
  (value, c) ← string16 c "label value"
  reject (is_empty key || any (λ (k : Text). k == key) keys)
      (message "native stream contains an empty or duplicate label")
  event_labels n (keys ++ (key ∷ [])) (fields ++ (label_field key value ∷ []))
      (update_cohort_hash hash key value) c

unfoldable pub event_metadata_loop :
    ℕ → List Text → List MetadataField → Cursor → Checked (List MetadataField × Cursor)
event_metadata_loop zero keys fields c = ok (fields, c)
event_metadata_loop (suc n) keys fields c = do
  (key, c) ← string16 c "metadata key"
  (value, c) ← string16 c "metadata value"
  reject (is_empty key || any (λ (k : Text). k == key) keys)
      (message "native entry contains empty or duplicate metadata")
  event_metadata_loop n (keys ++ (key ∷ [])) (fields ++ (metadata_field key value ∷ [])) c

-- `previous_single_metadata`: the key and the value of the last entry with one, and its fields.
abbrev pub Single : Type 0
Single = Option (Text × Text × List MetadataField)

-- The fields with one more, and what is kept: the kept ones where the key and the value are the same.
unfoldable pub single_fields :
    List MetadataField → Single → Text → Text → List MetadataField × Single
single_fields labels none key value =
    let fields = labels ++ (metadata_field key value ∷ []) in (fields, some (key, value, fields))
single_fields labels (some (key', value', kept)) key value =
    let fields = labels ++ (metadata_field key value ∷ []) in
    if key' == key && value' == value
    then (kept, some (key', value', kept))
    else (fields, some (key, value, fields))

unfoldable pub event_metadata :
    ℕ → List MetadataField → Single → Cursor → Checked (List MetadataField × Single × Cursor)
event_metadata zero labels single c = ok (labels, single, c)
event_metadata (suc zero) labels single c = do
  (key, c) ← string16 c "metadata key"
  (value, c) ← string16 c "metadata value"
  reject (is_empty key) (message "native entry contains empty metadata")
  let (fields, single) = single_fields labels single key value
  ok (fields, single, c)
event_metadata (suc (suc n)) labels single c = do
  (fields, c) ← event_metadata_loop (suc (suc n)) [] labels c
  ok (fields, single, c)

-- `previous_line`, and what of it the event takes.
abbrev pub shared_line : Option Text → Text → Text
shared_line none observed = observed
shared_line (some previous) observed = if previous == observed then previous else observed

unfoldable pub decode_event :
    List MetadataField
    → ℕ
    → Option Text
    → Single
    → Cursor
    → Checked (OtlpLogEvent × Single × Cursor)
decode_event labels cohort previous single c = do
  (timestamp, c) ← uint 8 c "timestamp"
  reject (leb (2 ^ 63) timestamp) (message "native log timestamp exceeds the signed i64 range")
  (line_len, c) ← uint 4 c "line length"
  (metadata_count, c) ← uint 2 c "metadata count"
  reject (ltb max_metadata_per_entry metadata_count)
      (message "native entry contains too much structured metadata")
  (reserved, c) ← uint 2 c "entry reserved bytes"
  reject (not (reserved == 0)) (message "native entry reserved bytes must be zero")
  (observed, c) ← string c line_len "log line"
  (fields, single, c) ← event_metadata metadata_count labels single c
  ok (
    record {
      timestamp_unix_nanos = timestamp;
      message = shared_line previous observed;
      fields = fields;
      compression_cohort = cohort;
    },
    single,
    c,
  )

unfoldable pub decode_events :
    ℕ
    → List MetadataField
    → ℕ
    → Option Text
    → Single
    → List OtlpLogEvent
    → Cursor
    → Checked (List OtlpLogEvent × Cursor)
decode_events zero labels cohort previous single events c = ok (events, c)
decode_events (suc n) labels cohort previous single events c = do
  (event, single, c) ← decode_event labels cohort previous single c
  decode_events n labels cohort (some event.message) single (events ++ (event ∷ [])) c

unfoldable pub event_streams :
    MetadataField → ℕ → ℕ → List OtlpLogEvent → Cursor → Checked (List OtlpLogEvent × Cursor)
event_streams tenant_field zero record_count events c = ok (events, c)
event_streams tenant_field (suc n) record_count events c = do
  (label_count, entry_count, c) ← stream_header c
  reject (not (sum_within (length events) entry_count record_count))
      (message "native stream counts exceed declared record count")
  (labels, cohort, c) ← event_labels label_count [] (tenant_field ∷ []) cohort_seed c
  (events, c) ← decode_events entry_count labels cohort none none events c
  event_streams tenant_field n record_count events c

unfoldable pub decode_native_log_events : List ℕ → Checked (Text × List OtlpLogEvent)
decode_native_log_events payload = do
  info ← inspect_native_log_batch payload
  let tenant_field : MetadataField = record { key = tenant_key; value = info.tenant }
  (events, c) ←
      event_streams tenant_field (stream_count payload) info.record_count []
        (batch_cursor payload info)
  reject (not (length events == info.record_count)) (
      formatted "native batch decoded {} records, expected {}"
        (length events ∷ info.record_count ∷ []))
  finish c
  ok (info.tenant, events)
