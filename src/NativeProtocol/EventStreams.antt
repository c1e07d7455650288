-- ===== src/NativeProtocol/EventStreams.antt =====
-- `decode_native_log_events` against `decode_native_log_batch`, for the loops and the whole payload.
use shard_log.Prelude.{
  ℕ, zero, suc, ◌≡◌, refl, ap, sym, not, List, Option, none, some, [], ◌∷◌, ◌++◌, nat_eq, ◌==◌, inl,
  inr, Bool-cases, length, any,
}
use mathlib.Core.List.Perm
use shard_log.Outcome.{reject, Result-cases}
use shard_log.Map.{Map, lookup, contains_key}
use shard_log.NativeProtocol.Wire.{formatted, Text, text_eq, Cursor, sum_within, finish}
use shard_log.NativeProtocol.Batch.{
  LokiEntry, NativeLogBatch, decode_labels, decode_entry, decode_entries, decode_streams,
  stream_header, stream_count, batch_cursor, inspect_native_log_batch, decode_native_log_batch,
}
use shard_log.NativeProtocol.Events.{
  MetadataField, OtlpLogEvent, label_field, tenant_key, cohort_seed, Single, decode_events,
  event_streams, decode_native_log_events,
}
use shard_log.NativeProtocol.Lockstep.{Agree, Agree-bind, Agree-read}
use shard_log.NativeProtocol.EventLaws.{Holds, SingleFits, SameLabels, event_labels-Agree}
use shard_log.NativeProtocol.EventRecords.{IsEventOf, SameRecord, decode_event-Agree}

module _ (tenant : MetadataField) where
  -- The events so far are those of the entries so far.
  abbrev pub AllEvents : List LokiEntry → List OtlpLogEvent → Type 0
  AllEvents [] [] = Unit
  AllEvents [] (event ∷ events) = ⊥
  AllEvents (entry ∷ entries) [] = ⊥
  AllEvents (entry ∷ entries) (event ∷ events) =
      IsEventOf tenant entry event × AllEvents entries events

  AllEvents-append :
      (entries : List LokiEntry) (events : List OtlpLogEvent) (entry : LokiEntry)
      (event : OtlpLogEvent)
      → AllEvents entries events
      → IsEventOf tenant entry event
      → AllEvents (entries ++ (entry ∷ [])) (events ++ (event ∷ []))
  AllEvents-append [] [] entry event all one = (one, tt)
  AllEvents-append [] (y ∷ events) entry event all one = absurd all
  AllEvents-append (x ∷ entries) [] entry event all one = absurd all
  AllEvents-append (x ∷ entries) (y ∷ events) entry event all one =
      (all.0, AllEvents-append entries events entry event all.1 one)

  AllEvents-length :
      (entries : List LokiEntry) (events : List OtlpLogEvent)
      → AllEvents entries events
      → length events ≡ length entries
  AllEvents-length [] [] all = refl
  AllEvents-length [] (y ∷ events) all = absurd all
  AllEvents-length (x ∷ entries) [] all = absurd all
  AllEvents-length (x ∷ entries) (y ∷ events) all = ap suc (AllEvents-length entries events all.1)

  abbrev SameRecords : List LokiEntry × Cursor → List OtlpLogEvent × Cursor → Type 0
  SameRecords (entries, c) (events, c') = AllEvents entries events × (c ≡ c')

  decode_events-Agree :
      (n : ℕ) (labels : Map Text Text) (fields : List MetadataField) (cohort : ℕ)
      (previous : Option Text) (single : Single) (entries : List LokiEntry)
      (events : List OtlpLogEvent) (c c' : Cursor)
      → Holds label_field (tenant ∷ []) labels fields
      → SingleFits fields single
      → AllEvents entries events
      → c ≡ c'
      → Agree SameRecords
          (decode_entries n labels entries c)
          (decode_events n fields cohort previous single events c')
  unfolding decode_entries decode_events
  decode_events-Agree zero labels fields cohort previous single entries events c c' holds fits all
        here =
      (all, here)
  decode_events-Agree (suc n) labels fields cohort previous single entries events c c' holds fits
        all here =
      rw (sym here) (
        Agree-bind (SameRecord tenant fields) SameRecords (decode_entry labels c) _ _ _
          (decode_event-Agree tenant labels fields cohort previous single c holds fits)
          λ (entry, c1) (event, single', c2) (one, fits', here').
            decode_events-Agree n labels fields cohort (some event.message) single'
              (entries ++ (entry ∷ [])) (events ++ (event ∷ [])) c1 c2 holds fits'
              (AllEvents-append entries events entry event all one) here')

  event_streams-Agree :
      (n record_count : ℕ) (entries : List LokiEntry) (events : List OtlpLogEvent) (c c' : Cursor)
      → AllEvents entries events
      → c ≡ c'
      → Agree SameRecords
          (decode_streams n record_count entries c)
          (event_streams tenant n record_count events c')
  unfolding decode_streams event_streams
  event_streams-Agree zero record_count entries events c c' all here = (all, here)
  event_streams-Agree (suc n) record_count entries events c c' all here =
      rw (sym here, AllEvents-length entries events all)
        (Agree-read SameRecords (stream_header c) _ _ λ (label_count, entry_count, c1).
          let labels =
            event_labels-Agree label_count (tenant ∷ []) [] [] (tenant ∷ []) cohort_seed c1
              (λ k. unfold any contains_key lookup in refl) (Perm.refl (tenant ∷ [])) in
          elim (Bool-cases (sum_within (length entries) entry_count record_count)) [
            | inl room ↦ rw room (
                Agree-bind (SameLabels (tenant ∷ [])) SameRecords _ _ _ _ labels
                  λ (m, c2) (fields, cohort, c3) (holds, same).
                    Agree-bind SameRecords SameRecords _ _ _ _
                      (decode_events-Agree entry_count m fields cohort none none entries events c2
                        c3 holds tt all same)
                      λ (entries', c4) (events', c5) (all', same').
                        event_streams-Agree n record_count entries' events' c4 c5 all' same')
            | inr full ↦ rw full (elim (Result-cases (decode_labels label_count [] c1)) [
              | inl (x, e) ↦ rw e tt
              | inr (x, e) ↦ rw e tt
            ])
          ])

abbrev tenant_field : Text → MetadataField
tenant_field tenant = record { key = tenant_key; value = tenant }

-- The batch and the events of one payload.
abbrev pub SameBatch : NativeLogBatch → Text × List OtlpLogEvent → Type 0
SameBatch batch (tenant, events) =
    (batch.tenant ≡ tenant) × AllEvents (tenant_field tenant) batch.entries events

-- `decode_native_log_events` accepts a payload exactly if `decode_native_log_batch` does. Then it
-- returns the batch's tenant, and an event for each entry, in order: with the entry's timestamp and
-- line, and with its tenant, labels and metadata as fields, in some order.
pub decode_native_log_events-Agree :
    (payload : List ℕ)
    → Agree SameBatch (decode_native_log_batch payload) (decode_native_log_events payload)
unfolding decode_native_log_batch decode_native_log_events
decode_native_log_events-Agree payload =
    Agree-read SameBatch (inspect_native_log_batch payload) _ _ λ info.
      Agree-bind (SameRecords (tenant_field info.tenant)) SameBatch _ _ _ _
        (event_streams-Agree (tenant_field info.tenant) (stream_count payload) info.record_count []
          [] (batch_cursor payload info) (batch_cursor payload info) tt refl)
        λ (entries, c) (events, c') (all, here).
          rw (sym here, AllEvents-length (tenant_field info.tenant) entries events all)
            (Agree-read SameBatch
              (reject (not (length entries == info.record_count)) (
                formatted "native batch decoded {} records, expected {}"
                  (length entries ∷ info.record_count ∷ [])))
              _ _ λ complete. Agree-read SameBatch (finish c) _ _ λ _. (refl, all))
