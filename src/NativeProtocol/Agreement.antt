-- ===== src/NativeProtocol/Agreement.antt =====
-- The validator accepts exactly the batches that the decoder accepts.
use shard_log.Prelude.{
  ℕ, zero, suc, ◌+◌, ◌≡◌, refl, Bool, ◌||◌, String, List, Option, none, some, [], ◌∷◌, ◌++◌, any,
  nat_eq, ◌==◌, arith, inl, inr, length, length-append,
}
use mathlib.Core.Option
use shard_log.Outcome.{ok, err, Result-cases}
use shard_log.Map.{Map, insert, contains_key, lookup}
use shard_log.Map.Laws.{lookup-insert}
use shard_log.NativeProtocol.Wire.{Checked, Text, text_eq, Cursor, uint, string, string16}
use shard_log.NativeProtocol.Batch.{
  inspect_native_log_batch, LokiEntry, stream_count, batch_cursor, stream_header, decode_fields,
  decode_labels, decode_metadata, decode_entry, decode_entries, decode_streams,
  decode_native_log_batch,
}
use shard_log.NativeProtocol.Validate.{
  validate_fields, validate_labels, validate_metadata, validate_entry, validate_entries,
  validate_streams, validate_native_log_batch,
}

-- What a decoder returns, its errors not told apart.
abbrev pub accepted : {A : Type 0} → Checked A → Option A
accepted (ok a) = some a
accepted (err e) = none

abbrev cursor_of : {A : Type 0} → A × Cursor → Cursor
cursor_of (a, c) = c

-- The same keys, in the validator's list and in the decoder's map.
abbrev pub SameKeys : List Text → Map Text Text → Type 0
SameKeys keys fields = (k : Text) → any (λ (x : Text). x == k) keys ≡ contains_key k fields

any-append :
    (p : Text → Bool) (xs : List Text) (y : Text) → any p (xs ++ (y ∷ [])) ≡ (p y || any p xs)
unfolding any
any-append p [] y = refl
any-append p (x ∷ xs) y = ground (arith, any-append p xs y)

pub SameKeys-insert :
    (key value : Text) (keys : List Text) (fields : Map Text Text)
    → SameKeys keys fields
    → SameKeys (keys ++ (key ∷ [])) (insert key value fields)
unfolding contains_key
SameKeys-insert key value keys fields same k =
    ground
      (arith, any-append (λ (x : Text). x == k) keys key, lookup-insert key k value fields, same k)

module _ (key_field value_field complaint : String) where
  validate_fields-accepted :
      (n : ℕ) (keys : List Text) (fields : Map Text Text) (c : Cursor)
      → SameKeys keys fields
      → accepted (validate_fields key_field value_field complaint n keys c)
        ≡ Option.map cursor_of (accepted (decode_fields key_field value_field complaint n fields c))
  unfolding validate_fields decode_fields
  validate_fields-accepted zero keys fields c same = refl
  validate_fields-accepted (suc n) keys fields c same = elim (Result-cases (string16 c key_field)) [
    | inr (e, r) ↦ rw r
    | inl ((key, c1), r) ↦ elim (Result-cases (string16 c1 value_field)) [
      | inr (e, r1) ↦ rw (r, r1)
      | inl ((value, c2), r1) ↦ ground (
        arith,
        r,
        r1,
        same key,
        validate_fields-accepted n (keys ++ (key ∷ [])) (insert key value fields) c2
            (SameKeys-insert key value keys fields same),
      )
    ]
  ]

validate_metadata-accepted :
    (n : ℕ) (c : Cursor)
    → accepted (validate_metadata n c) ≡ Option.map cursor_of (accepted (decode_metadata n [] c))
unfolding validate_metadata
validate_metadata-accepted zero c = unfold decode_fields in refl
validate_metadata-accepted (suc zero) c = unfold decode_fields contains_key lookup in ground arith
validate_metadata-accepted (suc (suc n)) c =
    validate_fields-accepted "metadata key" "metadata value"
      "native entry contains empty or duplicate metadata" (suc (suc n)) [] [] c
      (λ k. unfold any contains_key lookup in refl)

validate_entry-accepted :
    (labels : Map Text Text) (c : Cursor)
    → accepted (validate_entry c) ≡ Option.map cursor_of (accepted (decode_entry labels c))
unfolding validate_entry decode_entry
validate_entry-accepted labels c = elim (Result-cases (uint 8 c "timestamp")) [
  | inr (e, r) ↦ rw r
  | inl ((timestamp, c1), r) ↦ elim (Result-cases (uint 4 c1 "line length")) [
    | inr (e, r1) ↦ ground arith
    | inl ((line_len, c2), r1) ↦ elim (Result-cases (uint 2 c2 "metadata count")) [
      | inr (e, r2) ↦ ground arith
      | inl ((metadata_count, c3), r2) ↦ elim (Result-cases (uint 2 c3 "entry reserved bytes")) [
        | inr (e, r3) ↦ ground arith
        | inl ((reserved, c4), r3) ↦ elim (Result-cases (string c4 line_len "log line")) [
          | inr (e, r4) ↦ ground arith
          | inl ((line, c5), r4) ↦ ground (arith, validate_metadata-accepted metadata_count c5)
        ]
      ]
    ]
  ]
]

validate_entries-accepted :
    (n : ℕ) (labels : Map Text Text) (entries : List LokiEntry) (c : Cursor)
    → accepted (validate_entries n c)
      ≡ Option.map cursor_of (accepted (decode_entries n labels entries c))
unfolding validate_entries decode_entries
validate_entries-accepted zero labels entries c = refl
validate_entries-accepted (suc n) labels entries c = elim (Result-cases (decode_entry labels c)) [
  | inr (e, r) ↦ ground (arith, validate_entry-accepted labels c)
  | inl ((entry, c1), r) ↦ ground (
    arith,
    validate_entry-accepted labels c,
    validate_entries-accepted n labels (entries ++ (entry ∷ [])) c1,
  )
]

length-decode_entries :
    (n : ℕ) (labels : Map Text Text) (entries entries' : List LokiEntry) (c c' : Cursor)
    → decode_entries n labels entries c ≡ ok (entries', c')
    → length entries' ≡ length entries + n
unfolding decode_entries
length-decode_entries zero labels entries entries' c c' h = ground arith
length-decode_entries (suc n) labels entries entries' c c' h =
    elim (Result-cases (decode_entry labels c)) [
      | inr (e, r) ↦ absurd (ground arith)
      | inl ((entry, c1), r) ↦ ground (
        arith,
        length-append entries (entry ∷ []),
        length-decode_entries n labels (entries ++ (entry ∷ [])) entries' c1 c',
      )
    ]

counted : List LokiEntry × Cursor → ℕ × Cursor
counted (entries, c) = (length entries, c)

validate_streams-accepted :
    (n record_count : ℕ) (entries : List LokiEntry) (c : Cursor)
    → accepted (validate_streams n record_count (length entries) c)
      ≡ Option.map counted (accepted (decode_streams n record_count entries c))
unfolding validate_streams decode_streams counted
validate_streams-accepted zero record_count entries c = refl
validate_streams-accepted (suc n) record_count entries c = elim (Result-cases (stream_header c)) [
  | inr (e, r) ↦ rw r
  | inl ((label_count, entry_count, c1), r) ↦
      elim (Result-cases (decode_labels label_count [] c1)) [
        | inr (e, r1) ↦ ground (arith, validate_labels-accepted label_count c1)
        | inl ((labels, c2), r1) ↦
            elim (Result-cases (decode_entries entry_count labels entries c2)) [
              | inr (e, r2) ↦ ground (
                arith,
                validate_labels-accepted label_count c1,
                validate_entries-accepted entry_count labels entries c2,
              )
              | inl ((entries', c3), r2) ↦ ground (
                arith,
                validate_labels-accepted label_count c1,
                validate_entries-accepted entry_count labels entries c2,
                length-decode_entries entry_count labels entries entries' c2 c3 r2,
                validate_streams-accepted n record_count entries' c3,
              )
            ]
      ]
]
  where
    validate_labels-accepted :
        (n : ℕ) (c : Cursor)
        → accepted (validate_labels n [] c) ≡ Option.map cursor_of (accepted (decode_labels n [] c))
    validate_labels-accepted n c =
        validate_fields-accepted "label key" "label value"
          "native stream contains an empty or duplicate label" n [] [] c
          (λ k. unfold any contains_key lookup in refl)

-- `validate_native_log_batch` accepts a payload exactly if `decode_native_log_batch` does.
pub validate_native_log_batch-accepted :
    (payload : List ℕ)
    → accepted (validate_native_log_batch payload)
      ≡ Option.map (λ batch. tt) (accepted (decode_native_log_batch payload))
unfolding validate_native_log_batch decode_native_log_batch counted
validate_native_log_batch-accepted payload =
    elim (Result-cases (inspect_native_log_batch payload)) [
      | inr (e, r) ↦ rw r
      | inl (info, r) ↦
          elim (Result-cases (
            decode_streams (stream_count payload) info.record_count []
              (batch_cursor payload info))) [
                | inr (e, r1) ↦ ground (
                  arith,
                  validate_streams-accepted (stream_count payload) info.record_count []
                      (batch_cursor payload info),
                )
                | inl ((entries, c), r1) ↦ ground (
                  arith,
                  validate_streams-accepted (stream_count payload) info.record_count []
                      (batch_cursor payload info),
                )
              ]
    ]
