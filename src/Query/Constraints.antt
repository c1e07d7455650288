-- ===== src/Query/Constraints.antt =====
-- What a lookup demands of an index, src/query.rs: `required_index_constraints`, and the tests that tell
-- whether the postings answer the lookup alone.
use shard_log.Prelude.{
  Bool, true, false, not, ◌&&◌, ◌||◌, Option, none, some, List, [], ◌∷◌, ◌++◌, map,
}
use shard_log.NativeProtocol.Wire.{Text}
use shard_log.NativeProtocol.Events.{MetadataField}
use shard_log.Query.Types.{
  CaseSensitivity, sensitive, insensitive, TextMatchKind, exact, TextMatcher, LogPredicate,
  match_all, match_none, term, message, message_regex, field_exists, field, field_in, field_regex,
  field_numeric, and, or, negate, LogPredicates, nil, cons, QuerySort, by_offset, by_timestamp,
  LogQuery,
}

pub record RequiredIndexConstraints : Type 0 where
  pub terms : List Text
  pub fields : List (Text × Text)
  pub message_literals : List Text
  pub impossible : Bool

abbrev pub is_exact : TextMatchKind → Bool
is_exact exact = true
is_exact _ = false

abbrev pub is_sensitive : CaseSensitivity → Bool
is_sensitive sensitive = true
is_sensitive insensitive = false

-- The guard of the arm for a field: its postings are exact and case-sensitive.
abbrev pub is_indexed : TextMatcher → Bool
is_indexed matcher = is_exact matcher.kind && is_sensitive matcher.case_sensitivity

unfoldable pub push_field : Bool → Text → Text → RequiredIndexConstraints → RequiredIndexConstraints
push_field true key value c = record c { fields = c.fields ++ (key, value) ∷ [] }
push_field false key value c = c

unfoldable mutual
  unfolding push_field

  pub collect_required_constraints :
      LogPredicate → RequiredIndexConstraints → RequiredIndexConstraints
  collect_required_constraints match_all c = c
  collect_required_constraints match_none c = record c { impossible = true }
  collect_required_constraints (term text) c = record c { terms = c.terms ++ text ∷ [] }
  collect_required_constraints (field key matcher) c =
      push_field (is_indexed matcher) key matcher.value c
  collect_required_constraints (and predicates) c = collect_all predicates c
  collect_required_constraints (message matcher) c = record c {
    message_literals = c.message_literals ++ matcher.value ∷ [];
  }
  collect_required_constraints (message_regex regex) c = c
  collect_required_constraints (field_exists key) c = c
  collect_required_constraints (field_in key values) c = c
  collect_required_constraints (field_regex key regex) c = c
  collect_required_constraints (field_numeric key comparison value) c = c
  collect_required_constraints (or predicates) c = c
  collect_required_constraints (negate predicate) c = c

  pub collect_all : LogPredicates → RequiredIndexConstraints → RequiredIndexConstraints
  collect_all nil c = c
  collect_all (cons p ps) c = collect_all ps (collect_required_constraints p c)

unfoldable pub required_index_constraints : LogQuery → RequiredIndexConstraints
required_index_constraints q = collect_required_constraints q.predicate (record {
  terms = q.terms;
  fields = map (λ (f : MetadataField). (f.key, f.value)) q.exact_fields;
  message_literals = [];
  impossible = false;
})

unfoldable mutual
  pub predicate_is_index_only_conjunction : LogPredicate → Bool
  predicate_is_index_only_conjunction match_all = true
  predicate_is_index_only_conjunction match_none = true
  predicate_is_index_only_conjunction (term text) = true
  predicate_is_index_only_conjunction (field key matcher) = is_indexed matcher
  predicate_is_index_only_conjunction (and predicates) = all_index_only predicates
  predicate_is_index_only_conjunction (message matcher) = false
  predicate_is_index_only_conjunction (message_regex regex) = false
  predicate_is_index_only_conjunction (field_exists key) = false
  predicate_is_index_only_conjunction (field_in key values) = false
  predicate_is_index_only_conjunction (field_regex key regex) = false
  predicate_is_index_only_conjunction (field_numeric key comparison value) = false
  predicate_is_index_only_conjunction (or predicates) = false
  predicate_is_index_only_conjunction (negate predicate) = false

  pub all_index_only : LogPredicates → Bool
  all_index_only nil = true
  all_index_only (cons p ps) = predicate_is_index_only_conjunction p && all_index_only ps

abbrev pub is_some {ℓ} : {A : Type ℓ} → Option A → Bool
is_some none = false
is_some (some a) = true

abbrev pub sorts_by_timestamp : QuerySort → Bool
sorts_by_timestamp by_offset = false
sorts_by_timestamp by_timestamp = true

unfoldable pub requires_post_decode : LogQuery → Bool
requires_post_decode q =
    is_some q.start_offset
    || (is_some q.end_offset
        || (is_some q.start_timestamp_unix_nanos
            || (is_some q.end_timestamp_unix_nanos
                || (is_some q.after
                    || (sorts_by_timestamp q.sort
                        || not (predicate_is_index_only_conjunction q.predicate))))))

unfoldable pub can_apply_index_limit : LogQuery → Bool
can_apply_index_limit q =
    not (is_some q.start_offset)
    && (not (is_some q.end_offset)
        && (not (is_some q.start_timestamp_unix_nanos)
            && (not (is_some q.end_timestamp_unix_nanos)
                && (not (is_some q.after)
                    && (not (sorts_by_timestamp q.sort)
                        && predicate_is_index_only_conjunction q.predicate)))))

unfoldable pub needs_record_filter : LogQuery → Bool
needs_record_filter q =
    is_some q.start_timestamp_unix_nanos
    || (is_some q.end_timestamp_unix_nanos
        || (is_some q.after
            || (sorts_by_timestamp q.sort
                || not (predicate_is_index_only_conjunction q.predicate))))
