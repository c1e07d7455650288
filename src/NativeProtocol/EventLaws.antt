-- ===== src/NativeProtocol/EventLaws.antt =====
-- The events of a batch are its entries: `decode_native_log_events` against `decode_native_log_batch`.
use shard_log.Prelude.{
  ℕ, zero, suc, ◌≡◌, refl, Bool, true, false, ◌&&◌, ◌||◌, List, Option, none, some, [], ◌∷◌, ◌++◌,
  map, is_empty, any, nat_eq, ◌==◌, arith, inl, inr, Bool-cases, append-nil, list_beq_iff,
}
use mathlib.Core.List.Perm
use mathlib.Core.List.{Perm, perm_append_singleton, perm_middle}
use shard_log.Map.{Map, insert, remove, contains_key, lookup}
use shard_log.Map.Laws.{remove-eq_of_none}
use shard_log.NativeProtocol.Wire.{Text, text_eq, Cursor, string16}
use shard_log.NativeProtocol.Batch.{decode_fields, decode_labels, decode_metadata}
use shard_log.NativeProtocol.Agreement.{SameKeys, SameKeys-insert}
use shard_log.NativeProtocol.Events.{
  MetadataField, label_field, metadata_field, event_labels, event_metadata_loop, update_cohort_hash,
  Single, single_fields, event_metadata, shared_line,
}
use shard_log.NativeProtocol.Lockstep.{Agree, Agree-read, Agree-guard, Agree-map}

-- The fields that a map stands for, behind those that are there already.
abbrev pub fields_of : (Text → Text → MetadataField) → Map Text Text → List MetadataField
fields_of field m = map (λ ((k, v) : Text × Text). field k v) m

abbrev pub Holds :
    (Text → Text → MetadataField) → List MetadataField → Map Text Text → List MetadataField → Type 0
Holds field before m fields = Perm fields (before ++ fields_of field m)

Holds-insert :
    (field : Text → Text → MetadataField) (before : List MetadataField) (m : Map Text Text)
    (fields : List MetadataField) (key value : Text)
    → lookup key m ≡ none
    → Holds field before m fields
    → Holds field before (insert key value m) (fields ++ (field key value ∷ []))
unfolding insert
Holds-insert field before m fields key value new h = rw (remove-eq_of_none key m new) (
    Perm.trans (perm_append_singleton (field key value) fields) (
      Perm.trans (Perm.cons (field key value) h)
        (Perm.symm (perm_middle before (fields_of field m)))))

lookup-eq-none : (key : Text) (m : Map Text Text) → contains_key key m ≡ false → lookup key m ≡ none
unfolding contains_key
lookup-eq-none key m h = ground arith

-- The labels of a stream, for a map and for fields.
abbrev pub SameLabels :
    List MetadataField → Map Text Text × Cursor → List MetadataField × ℕ × Cursor → Type 0
SameLabels before (m, c) (fields, hash, c') = Holds label_field before m fields × (c ≡ c')

pub event_labels-Agree :
    (n : ℕ) (before : List MetadataField) (m : Map Text Text) (keys : List Text)
    (fields : List MetadataField) (hash : ℕ) (c : Cursor)
    → SameKeys keys m
    → Holds label_field before m fields
    → Agree (SameLabels before) (decode_labels n m c) (event_labels n keys fields hash c)
unfolding decode_fields event_labels
event_labels-Agree zero before m keys fields hash c same h = (h, refl)
event_labels-Agree (suc n) before m keys fields hash c same h =
    Agree-read (SameLabels before) (string16 c "label key") _ _ λ (key, c1).
      Agree-read (SameLabels before) (string16 c1 "label value") _ _ λ (value, c2). rw (same key) (
        Agree-guard (SameLabels before) _ _ _ _ _ λ new.
          event_labels-Agree n before (insert key value m) (keys ++ (key ∷ []))
            (fields ++ (label_field key value ∷ [])) (update_cohort_hash hash key value) c2
            (SameKeys-insert key value keys m same)
            (Holds-insert label_field before m fields key value
              (lookup-eq-none key m (ground arith)) h))

abbrev SameMetadata :
    List MetadataField → Map Text Text × Cursor → List MetadataField × Cursor → Type 0
SameMetadata before (m, c) (fields, c') = Holds metadata_field before m fields × (c ≡ c')

event_metadata_loop-Agree :
    (n : ℕ) (before : List MetadataField) (m : Map Text Text) (keys : List Text)
    (fields : List MetadataField) (c : Cursor)
    → SameKeys keys m
    → Holds metadata_field before m fields
    → Agree (SameMetadata before) (decode_metadata n m c) (event_metadata_loop n keys fields c)
unfolding decode_fields event_metadata_loop
event_metadata_loop-Agree zero before m keys fields c same h = (h, refl)
event_metadata_loop-Agree (suc n) before m keys fields c same h =
    Agree-read (SameMetadata before) (string16 c "metadata key") _ _ λ (key, c1).
      Agree-read (SameMetadata before) (string16 c1 "metadata value") _ _ λ (value, c2).
        rw (same key) (
          Agree-guard (SameMetadata before) _ _ _ _ _ λ new.
            event_metadata_loop-Agree n before (insert key value m) (keys ++ (key ∷ []))
              (fields ++ (metadata_field key value ∷ [])) c2 (SameKeys-insert key value keys m same)
              (Holds-insert metadata_field before m fields key value
                (lookup-eq-none key m (ground arith)) h))

-- What is kept of the entry before is what would be built again.
abbrev pub SingleFits : List MetadataField → Single → Type 0
SingleFits labels none = Unit
SingleFits labels (some (key, value, kept)) = kept ≡ labels ++ (metadata_field key value ∷ [])

single_fields_lem :
    (labels : List MetadataField) (single : Single) (key value : Text)
    → SingleFits labels single
    → ((single_fields labels single key value).0 ≡ labels ++ (metadata_field key value ∷ []))
      × SingleFits labels (single_fields labels single key value).1
unfolding single_fields
single_fields_lem labels none key value fits = (refl, refl)
single_fields_lem labels (some (key', value', kept)) key value fits =
    elim (Bool-cases (key' == key && value' == value)) [
      | inl same ↦ rw same (ground (arith, list_beq_iff key' key, list_beq_iff value' value), fits)
      | inr new ↦ rw new (refl, refl)
    ]

abbrev pub SameFields :
    List MetadataField → Map Text Text × Cursor → List MetadataField × Single × Cursor → Type 0
SameFields labels (m, c) (fields, single, c') =
    Holds metadata_field labels m fields × SingleFits labels single × (c ≡ c')

or-false : (b : Bool) → (b || false) ≡ b
or-false true = refl
or-false false = refl

pub event_metadata-Agree :
    (n : ℕ) (labels : List MetadataField) (single : Single) (c : Cursor)
    → SingleFits labels single
    → Agree (SameFields labels) (decode_metadata n [] c) (event_metadata n labels single c)
unfolding event_metadata
event_metadata-Agree zero labels single c fits =
    unfold decode_fields in (rw (append-nil labels) (Perm.refl labels), fits, refl)
event_metadata-Agree (suc zero) labels single c fits =
    unfold decode_fields contains_key lookup insert remove in
    Agree-read (SameFields labels) (string16 c "metadata key") _ _ λ (key, c1).
      Agree-read (SameFields labels) (string16 c1 "metadata value") _ _ λ (value, c2).
        rw (or-false (is_empty key)) (elim (Bool-cases (is_empty key)) [
          | inl no_key ↦ rw no_key tt
          | inr some_key ↦
              let kept = single_fields_lem labels single key value fits in
              rw some_key
                (rw kept.0 (Perm.refl (labels ++ (metadata_field key value ∷ []))), kept.1, refl)
        ])
event_metadata-Agree (suc (suc n)) labels single c fits =
    Agree-map (SameMetadata labels) (SameFields labels) _ _ _
      (event_metadata_loop-Agree (suc (suc n)) labels [] [] labels c
        (λ k. unfold any contains_key lookup in refl) (rw (append-nil labels) (Perm.refl labels)))
      λ (m, c1) (fields, c2) (holds, same). (holds, fits, same)

pub shared_line_lem :
    (previous : Option Text) (observed : Text) → shared_line previous observed ≡ observed
shared_line_lem none observed = refl
shared_line_lem (some previous) observed = ground (arith, list_beq_iff previous observed)
