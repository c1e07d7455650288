-- ===== src/Stripe/Apply.antt =====
-- The publication of durable records in src/stripe.rs: `apply_durable`, `apply_durable_new_inner` for a record
-- that is indexed, and `apply_durable_idempotent`. What compression answers, and the address of the fields
-- that picks a cache slot, are arguments. `none` is a panic of an `expect`.
use Prim.Native.Nat.{Ordering, compare}
use shard_log.Prelude.{
  ℕ, ◌+◌, ◌^◌, Bool, ◌&&◌, Option, none, some, List, [], ◌∷◌, ◌++◌, length, ltb, leb, nat_eq, ◌==◌,
  list_beq, if◌then◌else◌,
}
use shard_log.Outcome.{ok, err}
use shard_log.Errors.{
  LogDbResult, wrong_stripe, offset_out_of_order, offset_exhausted, duplicate_record,
  conflicting_record, u32_try_from,
}
use shard_log.Map.{Map, lookup, insert}
use shard_log.Partition.{TopicPartition, topic_partition_eq}
use shard_log.NativeProtocol.Wire.{text_eq}
use shard_log.Query.Types.{DurableLogRecord}
use shard_log.Query.Text.{Unicode}
use shard_log.Stripe.Index.{
  PartitionIndex, Slots, CachedMessageTerms, CachedFields, index_terms, index_fields, field_eq,
}

pub record LogStripe : Type 0 where
  pub stream_shard_id : ℕ
  pub partitions : Map TopicPartition PartitionIndex
  pub message_term_cache : Slots CachedMessageTerms
  pub field_cache : Slots CachedFields

-- What the compression side answers for a record: `row_source_bytes` and `resolve_dictionary`, then the
-- sealing of the active block; and the slots of the caches.
pub record Surroundings : Type 0 where
  pub resolved : LogDbResult (Unit {0})
  pub sealed : LogDbResult (Unit {0})
  pub term_slot : ℕ
  pub field_slot : ℕ

unfoldable pub empty_index : PartitionIndex
empty_index = record {
  records = [];
  term_ids = [];
  term_postings = [];
  field_ids = [];
  field_postings = [];
  indexed_through = none;
}

abbrev pub unwrap_index : Option PartitionIndex → PartitionIndex
unwrap_index none = empty_index
unwrap_index (some p) = p

-- The partition of a stripe, which `entry(..).or_default()` creates.
unfoldable pub partition_of : LogStripe → TopicPartition → PartitionIndex
partition_of s tp = unwrap_index (lookup tp s.partitions)

unfoldable pub last_offset : List DurableLogRecord → Option ℕ
last_offset [] = none
last_offset (r ∷ []) = some r.record_ref.offset
last_offset (r ∷ next ∷ records) = last_offset (next ∷ records)

-- `PartitionIndex::record`, of records by offset.
unfoldable pub find_record : ℕ → List DurableLogRecord → Option DurableLogRecord
find_record offset [] = none
find_record offset (r ∷ records) =
    if r.record_ref.offset == offset then some r else find_record offset records

unfoldable pub validate_offset : LogStripe → DurableLogRecord → LogDbResult (Unit {0})
unfolding partition_of last_offset
validate_offset s r = elim (last_offset (partition_of s r.record_ref.topic_partition).records) [
  | none ↦ ok tt
  | some previous ↦
      if ltb (previous + 1) (2 ^ 64)
      then if leb r.record_ref.offset previous
        then err
            (offset_out_of_order r.record_ref.topic_partition (previous + 1) r.record_ref.offset)
        else ok tt
      else err (offset_exhausted r.record_ref.topic_partition)
]

unfoldable pub pop : List DurableLogRecord → List DurableLogRecord
pop [] = []
pop (r ∷ []) = []
pop (r ∷ next ∷ records) = r ∷ pop (next ∷ records)

abbrev pub Applied : Type 0
Applied = Option (LogDbResult ℕ × LogStripe)

abbrev pub put_partition : LogStripe → TopicPartition → PartitionIndex → LogStripe
put_partition s tp p = record s { partitions = insert tp p s.partitions }

-- The record is pushed; if sealing fails it is popped, and else it is indexed, and then visible.
unfoldable pub index_record :
    Unicode → Surroundings → DurableLogRecord → ℕ → PartitionIndex → LogStripe → Applied
unfolding index_terms index_fields
index_record u c r ordinal p s =
    let tp = r.record_ref.topic_partition in
    elim (index_terms u tp c.term_slot r ordinal p s.message_term_cache) [
      | none ↦ none
      | some (term_ids, (p', terms)) ↦
          elim (index_fields tp c.field_slot r ordinal p' s.field_cache) [
            | none ↦ none
            | some (field_ids, (p'', fields)) ↦ some (
              ok r.record_ref.offset,
              record s {
                partitions =
                    insert tp (record p'' { indexed_through = some r.record_ref.offset })
                      s.partitions;
                message_term_cache = terms;
                field_cache = fields;
              },
            )
          ]
    ]

unfoldable pub place_record : Unicode → Surroundings → DurableLogRecord → LogStripe → Applied
unfolding partition_of pop index_record
place_record u c r s =
    let tp = r.record_ref.topic_partition in
    let p = partition_of s tp in
    elim (u32_try_from (length p.records)) [
      | err e ↦ some (err e, put_partition s tp p)
      | ok ordinal ↦
          let pushed : PartitionIndex = record p { records = p.records ++ r ∷ [] } in
          elim c.sealed [
            | err e ↦
                some (err e, put_partition s tp (record pushed { records = pop pushed.records }))
            | ok _ ↦ index_record u c r ordinal pushed s
          ]
    ]

unfoldable pub apply_durable_new : Unicode → Surroundings → DurableLogRecord → LogStripe → Applied
unfolding validate_offset place_record
apply_durable_new u c r s = elim (validate_offset s r) [
  | err e ↦ some (err e, s)
  | ok _ ↦ elim c.resolved [ err e ↦ some (err e, s) | ok _ ↦ place_record u c r s ]
]

unfoldable pub apply_durable : Unicode → Surroundings → DurableLogRecord → LogStripe → Applied
unfolding apply_durable_new partition_of find_record
apply_durable u c r s =
    if s.stream_shard_id == r.stream_shard_id
    then elim (find_record r.record_ref.offset
        (partition_of s r.record_ref.topic_partition).records) [
          | some found ↦
              some (err (duplicate_record r.record_ref.topic_partition r.record_ref.offset), s)
          | none ↦ apply_durable_new u c r s
        ]
    else some (err (wrong_stripe s.stream_shard_id r.stream_shard_id), s)

-- `PartialEq` of the records.
unfoldable pub record_beq : DurableLogRecord → DurableLogRecord → Bool
unfolding list_beq
record_beq a b =
    a.stream_shard_id == b.stream_shard_id
    && (a.record_ref.topic_partition == b.record_ref.topic_partition
        && (a.record_ref.offset == b.record_ref.offset
            && (a.timestamp_unix_nanos == b.timestamp_unix_nanos
                && (a.message == b.message
                    && (list_beq a.fields b.fields
                        && a.compression_cohort == b.compression_cohort)))))

unfoldable pub last_record : List DurableLogRecord → Option DurableLogRecord
last_record [] = none
last_record (r ∷ []) = some r
last_record (r ∷ next ∷ records) = last_record (next ∷ records)

-- The record that a replay meets: none behind the last one, the last one itself, or one found before it.
unfoldable pub existing_record : ℕ → List DurableLogRecord → Option DurableLogRecord
unfolding last_record find_record
existing_record offset records = elim (last_record records) [
  | none ↦ none
  | some last ↦ elim (compare last.record_ref.offset offset) [
    | Ordering.lt ↦ none
    | Ordering.eq ↦ some last
    | Ordering.gt ↦ find_record offset records
  ]
]

abbrev pub unwrap_offset : Option ℕ → ℕ → ℕ
unwrap_offset none offset = offset
unwrap_offset (some through) offset = through

unfoldable pub apply_durable_idempotent :
    Unicode → Surroundings → DurableLogRecord → LogStripe → Applied
unfolding apply_durable_new partition_of existing_record record_beq
apply_durable_idempotent u c r s =
    let p = partition_of s r.record_ref.topic_partition in
    elim (existing_record r.record_ref.offset p.records) [
      | some existing ↦
          if record_beq existing r
          then some (ok (unwrap_offset p.indexed_through r.record_ref.offset), s)
          else some (err (conflicting_record r.record_ref.topic_partition r.record_ref.offset), s)
      | none ↦ apply_durable_new u c r s
    ]

-- A stripe without records.
unfoldable pub new_stripe : ℕ → LogStripe
new_stripe stream_shard_id = record {
  stream_shard_id = stream_shard_id;
  partitions = [];
  message_term_cache = λ slot. none;
  field_cache = λ slot. none;
}
