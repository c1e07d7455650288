-- ===== src/Query/Tests.antt =====
-- Lookups of a few records, with the tables of ASCII for Unicode.
use shard_log.Prelude.{
  ℕ, ◌+◌, ◌≡◌, ◌≢◌, refl, Bool, true, false, Option, none, some, List, [], ◌∷◌, ◌++◌, ◌&&◌, map,
  any, arith,
}
use shard_log.Query.Types.{
  DurableLogRecord, sensitive, exact, term, field, negate, LogQuery, newest_first, by_timestamp,
  by_offset, new_query,
}
use shard_log.Prelude.Sorting.{Distinct}
use shard_log.Query.Text.{
  Unicode, to_ascii_lowercase, is_ascii_uppercase, is_ascii_alphanumeric, contains_text,
  scan_message_terms, text_matches,
}
use shard_log.Query.Matches.{matches, offset_matches, select, predicate_matches, parse_i128}
use shard_log.Query.Types.{negsuc}
use shard_log.Query.Paging.{continued, compare_offsets, select-continued}
use shard_log.Query.Constraints.{required_index_constraints, needs_record_filter}
use shard_log.Query.Literals.{HasLiterals}
use shard_log.Query.Text.{text_matches}
use shard_log.Query.Types.{insensitive, contains, message, and, cons, nil}
use shard_log.Query.Selection.{meets, required_index_constraints-matches, matches_by_index}

-- The tables of ASCII, and a pattern that is a literal.
abbrev pub ascii : Unicode
ascii = record {
  to_lowercase = map to_ascii_lowercase;
  any_uppercase = any is_ascii_uppercase;
  is_alphanumeric = any is_ascii_alphanumeric;
  is_match = λ regex t. contains_text t regex.pattern;
  lowercase_ascii = λ t h. refl;
  uppercase_ascii = λ t h. refl;
}

-- "Id a" with the field k=v.
abbrev pub record_at : ℕ → DurableLogRecord
record_at offset = record {
  stream_shard_id = 1;
  record_ref = record {
    topic_partition = record { topic_id = 1; partition_id = 0 };
    offset = offset;
  };
  timestamp_unix_nanos = 7;
  message = b'I' ∷ b'd' ∷ 0x20 ∷ b'a' ∷ [];
  fields = record { key = b'k' ∷ []; value = b'v' ∷ [] } ∷ [];
  compression_cohort = 0;
}

abbrev pub id_query : LogQuery
id_query = record (new_query (record { topic_id = 1; partition_id = 0 })) {
  terms = (b'i' ∷ b'D' ∷ []) ∷ [];
  predicate =
      field (b'k' ∷ []) (record { value = b'v' ∷ []; kind = exact; case_sensitivity = sensitive });
  order = newest_first;
  sort = by_timestamp;
}

scan_example :
    scan_message_terms ascii (b'I' ∷ b'd' ∷ 0x20 ∷ b'a' ∷ [])
    ≡ (b'I' ∷ b'd' ∷ []) ∷ (b'a' ∷ []) ∷ []
unfolding scan_message_terms
scan_example = refl

parse_example : parse_i128 (b'-' ∷ b'1' ∷ b'2' ∷ []) ≡ some (negsuc 11)
unfolding parse_i128
parse_example = refl

negate_example : predicate_matches ascii (negate (term (b'x' ∷ []))) (record_at 3) ≡ true
unfolding predicate_matches any shard_log.Prelude.list_beq
negate_example = refl

abbrev three : List DurableLogRecord
three = record_at 3 ∷ record_at 5 ∷ record_at 8 ∷ []

three-Distinct : Distinct compare_offsets three
three-Distinct = ((λ h. cc, (λ h. cc, tt)), ((λ h. cc, tt), (tt, tt)))

first_page :
    select ascii (record id_query { limit = some 2 }) three ≡ (record_at 8 ∷ []) ++ record_at 5 ∷ []
unfolding select matches new_query shard_log.Prelude.Sorting.sort_by
    shard_log.Prelude.Sorting.retain shard_log.Query.Matches.all_of
    shard_log.Query.Text.message_has_term any shard_log.Prelude.list_beq predicate_matches
first_page = refl

select-continued_example :
    (record_at 8 ∷ [] ++ record_at 5 ∷ []) ++ select ascii (continued id_query (record_at 5)) three
    ≡ select ascii (record id_query { limit = none }) three
select-continued_example =
    select-continued ascii id_query three 2 (record_at 8 ∷ []) (record_at 5) three-Distinct
      first_page

abbrev literal_query : LogQuery
literal_query = record id_query {
  predicate = and (
      cons
        (field (b'k' ∷ [])
          (record { value = b'v' ∷ []; kind = exact; case_sensitivity = sensitive }))
        (cons
          (message
            (record { value = b'D' ∷ 0x20 ∷ []; kind = contains; case_sensitivity = insensitive }))
          nil));
}

literal_query-matches : matches ascii literal_query (record_at 3) ≡ true
unfolding matches new_query shard_log.Query.Matches.all_of shard_log.Query.Text.message_has_term any
    shard_log.Prelude.list_beq predicate_matches text_matches
literal_query-matches = refl

required_index_constraints-matches_example :
    (meets ascii (record_at 3) (required_index_constraints literal_query) ≡ true)
    × HasLiterals ascii (record_at 3) (required_index_constraints literal_query)
required_index_constraints-matches_example =
    required_index_constraints-matches ascii (record_at 3) literal_query literal_query-matches

abbrev pub offset_query : LogQuery
offset_query = record {
  topic_partition = record { topic_id = 1; partition_id = 0 };
  terms = (b'i' ∷ b'D' ∷ []) ∷ [];
  exact_fields = [];
  predicate =
      field (b'k' ∷ []) (record { value = b'v' ∷ []; kind = exact; case_sensitivity = sensitive });
  start_offset = none;
  end_offset = none;
  start_timestamp_unix_nanos = none;
  end_timestamp_unix_nanos = none;
  limit = none;
  order = newest_first;
  sort = by_offset;
  after = none;
}

no_filter : needs_record_filter offset_query ≡ false
unfolding needs_record_filter shard_log.Query.Constraints.predicate_is_index_only_conjunction
no_filter = refl

matches_by_index_example : matches ascii offset_query (record_at 3) ≡ (
    offset_matches offset_query 3
    && meets ascii (record_at 3) (required_index_constraints offset_query))
matches_by_index_example = matches_by_index ascii (record_at 3) offset_query no_filter
