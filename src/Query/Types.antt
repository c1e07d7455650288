-- ===== src/Query/Types.antt =====
-- The record, predicate and query types of src/types.rs. A set of predicates is a list in the block of
-- `LogPredicate`. A signed integer is given by its sign and magnitude.
use shard_log.Prelude.{ℕ, Option, none, List, [], ◌∷◌, ◌++◌, nat_eq}
use shard_log.Partition.{TopicPartition}
use shard_log.NativeProtocol.Wire.{Text}
use shard_log.NativeProtocol.Events.{MetadataField}

pub record RecordRef : Type 0 where
  pub topic_partition : TopicPartition
  pub offset : ℕ

pub record DurableLogRecord : Type 0 where
  pub stream_shard_id : ℕ
  pub record_ref : RecordRef
  pub timestamp_unix_nanos : ℕ
  pub message : Text
  pub fields : List MetadataField
  pub compression_cohort : ℕ

pub data QueryOrder : Type 0 where
  oldest_first newest_first : QueryOrder

pub data CaseSensitivity : Type 0 where
  sensitive insensitive : CaseSensitivity

pub data TextMatchKind : Type 0 where
  exact contains prefix suffix : TextMatchKind

pub record TextMatcher : Type 0 where
  pub value : Text
  pub kind : TextMatchKind
  pub case_sensitivity : CaseSensitivity

-- What the compiled expression is a function of.
pub record LogRegex : Type 0 where
  pub pattern : Text
  pub case_sensitivity : CaseSensitivity

pub data NumericComparison : Type 0 where
  equal not_equal less_than less_than_or_equal greater_than greater_than_or_equal :
      NumericComparison

-- An `i128`: `negsuc n` is -(n + 1).
pub data ℤ : Type 0 where
  pos : ℕ → ℤ
  negsuc : ℕ → ℤ

mutual
  pub data LogPredicate : Type 0 where
    match_all match_none : LogPredicate
    term : Text → LogPredicate
    message : TextMatcher → LogPredicate
    message_regex : LogRegex → LogPredicate
    field_exists : Text → LogPredicate
    field : Text → TextMatcher → LogPredicate
    field_in : Text → List Text → LogPredicate
    field_regex : Text → LogRegex → LogPredicate
    field_numeric : Text → NumericComparison → ℤ → LogPredicate
    and : LogPredicates → LogPredicate
    or : LogPredicates → LogPredicate
    negate : LogPredicate → LogPredicate

  pub data LogPredicates : Type 0 where
    nil : LogPredicates
    cons : LogPredicate → LogPredicates → LogPredicates

pub data QuerySort : Type 0 where
  by_offset by_timestamp : QuerySort

pub record QueryCursor : Type 0 where
  pub timestamp_unix_nanos : ℕ
  pub offset : ℕ

pub record LogQuery : Type 0 where
  pub topic_partition : TopicPartition
  pub terms : List Text
  pub exact_fields : List MetadataField
  pub predicate : LogPredicate
  pub start_offset : Option ℕ
  pub end_offset : Option ℕ
  pub start_timestamp_unix_nanos : Option ℕ
  pub end_timestamp_unix_nanos : Option ℕ
  pub limit : Option ℕ
  pub order : QueryOrder
  pub sort : QuerySort
  pub after : Option QueryCursor

-- `LogQuery::new`
unfoldable pub new_query : TopicPartition → LogQuery
new_query topic_partition = record {
  topic_partition = topic_partition;
  terms = [];
  exact_fields = [];
  predicate = match_all;
  start_offset = none;
  end_offset = none;
  start_timestamp_unix_nanos = none;
  end_timestamp_unix_nanos = none;
  limit = none;
  order = oldest_first;
  sort = by_offset;
  after = none;
}

unfoldable pub with_term : Text → LogQuery → LogQuery
with_term text q = record q { terms = q.terms ++ text ∷ [] }

unfoldable pub with_field : Text → Text → LogQuery → LogQuery
with_field key value q = record q {
  exact_fields = q.exact_fields ++ (record { key = key; value = value }) ∷ [];
}

-- The predicate that `with_predicate` leaves.
unfoldable pub conjoin : LogPredicate → LogPredicate → LogPredicate
conjoin match_all predicate = predicate
conjoin current predicate = and (cons current (cons predicate nil))

unfoldable pub with_predicate : LogPredicate → LogQuery → LogQuery
unfolding conjoin
with_predicate predicate q = record q { predicate = conjoin q.predicate predicate }
