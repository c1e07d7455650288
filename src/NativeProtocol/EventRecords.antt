-- ===== src/NativeProtocol/EventRecords.antt =====
-- `decode_native_log_events` against `decode_native_log_batch`, entry by entry.
use shard_log.Prelude.{
  ℕ, ◌^◌, ◌≡◌, refl, not, List, Option, [], ◌∷◌, ◌++◌, ltb, leb, nat_eq, ◌==◌, arith, inl, inr,
}
use mathlib.Core.List.Perm
use mathlib.Core.List.{Perm}
use shard_log.Outcome.{ok, ◌>>=◌, ◌>>◌, reject, Result-cases}
use shard_log.Map.{Map}
use shard_log.NativeProtocol.Wire.{Checked, message, Text, text_eq, Cursor, uint, string}
use shard_log.NativeProtocol.Batch.{
  LokiEntry, decode_metadata, max_metadata_per_entry, decode_entry,
}
use shard_log.NativeProtocol.Agreement.{accepted}
use shard_log.NativeProtocol.Events.{
  MetadataField, OtlpLogEvent, label_field, metadata_field, Single, shared_line, decode_event,
}
use shard_log.NativeProtocol.Lockstep.{Agree, Agree-bind, Agree-read, Agree-accepted}
use shard_log.NativeProtocol.EventLaws.{
  fields_of, Holds, SingleFits, SameFields, event_metadata-Agree, shared_line_lem,
}

-- The timestamp first, as the other decoders check it.
early_entry : Map Text Text → Cursor → Checked (LokiEntry × Cursor)
early_entry labels c = do
  (timestamp, c) ← uint 8 c "timestamp"
  reject (leb (2 ^ 63) timestamp) (message "native log timestamp exceeds the signed i64 range")
  (line_len, c) ← uint 4 c "line length"
  (metadata_count, c) ← uint 2 c "metadata count"
  reject (ltb max_metadata_per_entry metadata_count)
      (message "native entry contains too much structured metadata")
  (reserved, c) ← uint 2 c "entry reserved bytes"
  reject (not (reserved == 0)) (message "native entry reserved bytes must be zero")
  (line, c) ← string c line_len "log line"
  (metadata, c) ← decode_metadata metadata_count [] c
  ok (
    record {
      timestamp_unix_nanos = timestamp;
      labels = labels;
      line = line;
      structured_metadata = metadata;
    },
    c,
  )

decode_entry-early :
    (labels : Map Text Text) (c : Cursor)
    → accepted (decode_entry labels c) ≡ accepted (early_entry labels c)
unfolding decode_entry early_entry
decode_entry-early labels c = elim (Result-cases (uint 8 c "timestamp")) [
  | inr (e, r) ↦ rw r
  | inl ((timestamp, c1), r) ↦ elim (Result-cases (uint 4 c1 "line length")) [
    | inr (e, r1) ↦ ground arith
    | inl ((line_len, c2), r1) ↦ elim (Result-cases (uint 2 c2 "metadata count")) [
      | inr (e, r2) ↦ ground arith
      | inl ((metadata_count, c3), r2) ↦ elim (Result-cases (uint 2 c3 "entry reserved bytes")) [
        | inr (e, r3) ↦ ground arith
        | inl ((reserved, c4), r3) ↦ elim (Result-cases (string c4 line_len "log line")) [
          | inr (e, r4) ↦ ground arith
          | inl ((line, c5), r4) ↦ ground arith
        ]
      ]
    ]
  ]
]

-- An event has its entry's timestamp and line, and as its fields, in some order, the tenant, the
-- entry's labels and its metadata, each under its prefix.
pub record IsEventOf (tenant : MetadataField) (entry : LokiEntry) (event : OtlpLogEvent)
    : Type 0 where
  pub timestamp : event.timestamp_unix_nanos ≡ entry.timestamp_unix_nanos
  pub line : event.message ≡ entry.line
  pub fields : Perm event.fields (
      ((tenant ∷ []) ++ fields_of label_field entry.labels)
      ++ fields_of metadata_field entry.structured_metadata)

module _ (tenant : MetadataField) where
  abbrev pub SameRecord :
      List MetadataField → LokiEntry × Cursor → OtlpLogEvent × Single × Cursor → Type 0
  SameRecord fields (entry, c) (event, single, c') =
      IsEventOf tenant entry event × SingleFits fields single × (c ≡ c')

  event-SameRecord :
      (labels metadata : Map Text Text) (fields found : List MetadataField) (timestamp cohort : ℕ)
      (line : Text) (previous : Option Text) (single : Single) (c c' : Cursor)
      → Holds label_field (tenant ∷ []) labels fields
      → SameFields fields (metadata, c) (found, single, c')
      → SameRecord fields
          (
            record {
              timestamp_unix_nanos = timestamp;
              labels = labels;
              line = line;
              structured_metadata = metadata;
            },
            c,
          )
          (
            record {
              timestamp_unix_nanos = timestamp;
              message = shared_line previous line;
              fields = found;
              compression_cohort = cohort;
            },
            single,
            c',
          )
  event-SameRecord labels metadata fields found timestamp cohort line previous single c c' holds
        (same, fits, here) =
      (
        record {
          timestamp = refl;
          line = shared_line_lem previous line;
          fields = Perm.trans same (Perm.append_right (fields_of metadata_field metadata) holds);
        },
        fits,
        here,
      )

  pub decode_event-Agree :
      (labels : Map Text Text) (fields : List MetadataField) (cohort : ℕ) (previous : Option Text)
      (single : Single) (c : Cursor)
      → Holds label_field (tenant ∷ []) labels fields
      → SingleFits fields single
      → Agree
          (SameRecord fields)
          (decode_entry labels c)
          (decode_event fields cohort previous single c)
  unfolding decode_event early_entry
  decode_event-Agree labels fields cohort previous single c holds fits =
      Agree-accepted (SameRecord fields) (decode_entry labels c) (early_entry labels c) _
        (decode_entry-early labels c)
        (Agree-read (SameRecord fields) (uint 8 c "timestamp") _ _ λ (timestamp, c1).
          Agree-read (SameRecord fields)
            (reject (leb (2 ^ 63) timestamp)
              (message "native log timestamp exceeds the signed i64 range"))
            _ _
            λ in_range.
              Agree-read (SameRecord fields) (uint 4 c1 "line length") _ _ λ (line_len, c2).
                Agree-read (SameRecord fields) (uint 2 c2 "metadata count") _ _
                  λ (metadata_count, c3).
                    Agree-read (SameRecord fields)
                      (reject (ltb max_metadata_per_entry metadata_count)
                        (message "native entry contains too much structured metadata"))
                      _ _
                      λ few.
                        Agree-read (SameRecord fields) (uint 2 c3 "entry reserved bytes") _ _
                          λ (reserved, c4).
                            Agree-read (SameRecord fields)
                              (reject (not (reserved == 0))
                                (message "native entry reserved bytes must be zero"))
                              _ _
                              λ zeros.
                                Agree-read (SameRecord fields) (string c4 line_len "log line") _ _
                                  λ (line, c5).
                                    Agree-bind (SameFields fields) (SameRecord fields) _ _ _ _
                                      (event_metadata-Agree metadata_count fields single c5 fits)
                                      λ (metadata, c6) (found, single', c7) same.
                                        event-SameRecord labels metadata fields found timestamp
                                          cohort line previous single' c6 c7 holds same)
