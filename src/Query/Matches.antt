-- ===== src/Query/Matches.antt =====
-- The evaluation of a lookup, src/query.rs: `predicate_matches`, `LogQuery::matches`, the result order,
-- the page cursor and `select`. `StructuralRecordView` is read off a `DurableLogRecord`.
use Prim.Native.Nat.{Ordering, compare}
use shard_log.Prelude.{
  ℕ, zero, suc, ◌+◌, ◌-◌, ◌*◌, ◌^◌, Bool, true, false, not, ◌&&◌, ◌||◌, Option, none, some, List,
  [], ◌∷◌, is_empty, take, any, ltb, leb, nat_eq, ◌==◌, if◌then◌else◌,
}
use shard_log.Prelude.Sorting.{reverse_ordering, is_lt, is_gt, retain, sort_by}
use shard_log.NativeProtocol.Wire.{Text, text_eq}
use shard_log.NativeProtocol.Events.{MetadataField}
use shard_log.Query.Types.{
  DurableLogRecord, QueryOrder, oldest_first, newest_first, NumericComparison, equal, not_equal,
  less_than, less_than_or_equal, greater_than, greater_than_or_equal, ℤ, pos, negsuc, LogPredicate,
  match_all, match_none, term, message, message_regex, field_exists, field, field_in, field_regex,
  field_numeric, and, or, negate, LogPredicates, nil, cons, QuerySort, by_offset, by_timestamp,
  QueryCursor, LogQuery,
}
use shard_log.Query.Text.{Unicode, text_matches, message_has_term}

-- `str::parse::<i128>`: a sign, and digits of which there is one at least; `none` out of range.
unfoldable pub parse_digits : Text → ℕ → Option ℕ
parse_digits [] value = some value
parse_digits (b ∷ bytes) value =
    if leb b'0' b && leb b b'9' then parse_digits bytes (value * 10 + (b - b'0')) else none

unfoldable pub at_most : ℕ → Option ℕ → Option ℕ
at_most limit none = none
at_most limit (some value) = if leb value limit then some value else none

unfoldable pub parse_magnitude : Text → ℕ → Option ℕ
unfolding parse_digits at_most
parse_magnitude digits limit =
    if is_empty digits then none else at_most limit (parse_digits digits 0)

unfoldable pub signed : Bool → Option ℕ → Option ℤ
signed negative none = none
signed false (some value) = some (pos value)
signed true (some zero) = some (pos 0)
signed true (some (suc n)) = some (negsuc n)

unfoldable pub parse_i128 : Text → Option ℤ
unfolding parse_magnitude signed
parse_i128 [] = none
parse_i128 (b ∷ bytes) =
    if b == b'-'
    then signed true (parse_magnitude bytes (2 ^ 127))
    else signed false (parse_magnitude (if b == b'+' then bytes else b ∷ bytes) (2 ^ 127 - 1))

-- `Ord` of `i128`.
abbrev pub compare_i128 : ℤ → ℤ → Ordering
compare_i128 (pos a) (pos b) = compare a b
compare_i128 (pos a) (negsuc b) = Ordering.gt
compare_i128 (negsuc a) (pos b) = Ordering.lt
compare_i128 (negsuc a) (negsuc b) = compare b a

abbrev pub is_eq : Ordering → Bool
is_eq Ordering.eq = true
is_eq _ = false

unfoldable pub compare_numeric : ℤ → NumericComparison → ℤ → Bool
compare_numeric observed equal expected = is_eq (compare_i128 observed expected)
compare_numeric observed not_equal expected = not (is_eq (compare_i128 observed expected))
compare_numeric observed less_than expected = is_lt (compare_i128 observed expected)
compare_numeric observed less_than_or_equal expected = not (is_gt (compare_i128 observed expected))
compare_numeric observed greater_than expected = is_gt (compare_i128 observed expected)
compare_numeric observed greater_than_or_equal expected =
    not (is_lt (compare_i128 observed expected))

unfoldable pub numeric_matches : Option ℤ → NumericComparison → ℤ → Bool
unfolding compare_numeric
numeric_matches none comparison expected = false
numeric_matches (some observed) comparison expected = compare_numeric observed comparison expected

unfoldable pub field_equals : DurableLogRecord → MetadataField → Bool
field_equals r expected =
    any (λ (f : MetadataField). f.key == expected.key && f.value == expected.value) r.fields

unfoldable pub all_of {ℓ} : {A : Type ℓ} → (A → Bool) → List A → Bool
all_of p [] = true
all_of p (x ∷ xs) = p x && all_of p xs

module _ (u : Unicode) where
  open u use {is_match}

  unfoldable mutual
    unfolding text_matches message_has_term numeric_matches parse_i128

    pub predicate_matches : LogPredicate → DurableLogRecord → Bool
    predicate_matches match_all r = true
    predicate_matches match_none r = false
    predicate_matches (term text) r = message_has_term u r.message text
    predicate_matches (message matcher) r = text_matches u r.message matcher
    predicate_matches (message_regex regex) r = is_match regex r.message
    predicate_matches (field_exists key) r = any (λ (f : MetadataField). f.key == key) r.fields
    predicate_matches (field key matcher) r =
        any (λ (f : MetadataField). f.key == key && text_matches u f.value matcher) r.fields
    predicate_matches (field_in key values) r =
        any (λ (f : MetadataField). f.key == key && any (λ (v : Text). f.value == v) values)
          r.fields
    predicate_matches (field_regex key regex) r =
        any (λ (f : MetadataField). f.key == key && is_match regex f.value) r.fields
    predicate_matches (field_numeric key comparison value) r =
        any
          (λ (f : MetadataField).
            f.key == key && numeric_matches (parse_i128 f.value) comparison value)
          r.fields
    predicate_matches (and predicates) r = all_match predicates r
    predicate_matches (or predicates) r = any_matches predicates r
    predicate_matches (negate predicate) r = not (predicate_matches predicate r)

    pub all_match : LogPredicates → DurableLogRecord → Bool
    all_match nil r = true
    all_match (cons p ps) r = predicate_matches p r && all_match ps r

    pub any_matches : LogPredicates → DurableLogRecord → Bool
    any_matches nil r = false
    any_matches (cons p ps) r = predicate_matches p r || any_matches ps r

-- `start <= value`, where there is a start, and `value < end`, where there is an end.
abbrev pub from_start : Option ℕ → ℕ → Bool
from_start none value = true
from_start (some start) value = leb start value

abbrev pub before_end : Option ℕ → ℕ → Bool
before_end none value = true
before_end (some end) value = ltb value end

unfoldable pub offset_matches : LogQuery → ℕ → Bool
offset_matches q offset = from_start q.start_offset offset && before_end q.end_offset offset

unfoldable pub timestamp_matches : LogQuery → ℕ → Bool
timestamp_matches q timestamp =
    from_start q.start_timestamp_unix_nanos timestamp
    && before_end q.end_timestamp_unix_nanos timestamp

-- `(timestamp, offset).cmp` under a sort by timestamp, and `offset.cmp` under a sort by offset.
abbrev pub then_by : Ordering → Ordering → Ordering
then_by Ordering.lt later = Ordering.lt
then_by Ordering.eq later = later
then_by Ordering.gt later = Ordering.gt

abbrev pub compare_keys : QuerySort → QueryCursor → QueryCursor → Ordering
compare_keys by_offset left right = compare left.offset right.offset
compare_keys by_timestamp left right =
    then_by (compare left.timestamp_unix_nanos right.timestamp_unix_nanos)
      (compare left.offset right.offset)

abbrev pub directed : QueryOrder → Ordering → Ordering
directed oldest_first ordering = ordering
directed newest_first ordering = reverse_ordering ordering

unfoldable pub cursor_for : DurableLogRecord → QueryCursor
cursor_for r = record {
  timestamp_unix_nanos = r.timestamp_unix_nanos;
  offset = r.record_ref.offset;
}

unfoldable pub compare_records : LogQuery → DurableLogRecord → DurableLogRecord → Ordering
unfolding cursor_for
compare_records q left right =
    directed q.order (compare_keys q.sort (cursor_for left) (cursor_for right))

unfoldable pub follows : QueryOrder → Ordering → Bool
follows newest_first ordering = is_lt ordering
follows oldest_first ordering = is_gt ordering

unfoldable pub cursor_matches : LogQuery → DurableLogRecord → Bool
unfolding follows cursor_for
cursor_matches q r = elim q.after [
  | none ↦ true
  | some cursor ↦ follows q.order (compare_keys q.sort (cursor_for r) cursor)
]

abbrev pub invalid : Option ℕ → Option ℕ → Bool
invalid (some start) (some end) = leb end start
invalid start end = false

unfoldable pub has_invalid_range : LogQuery → Bool
has_invalid_range q =
    invalid q.start_offset q.end_offset
    || invalid q.start_timestamp_unix_nanos q.end_timestamp_unix_nanos

-- `Vec::truncate` to a limit, where there is one.
abbrev pub limited {ℓ} : {A : Type ℓ} → Option ℕ → List A → List A
limited none xs = xs
limited (some limit) xs = take limit xs

module _ (u : Unicode) where
  unfoldable pub legacy_terms_match : LogQuery → DurableLogRecord → Bool
  legacy_terms_match q r = all_of (message_has_term u r.message) q.terms

  unfoldable pub legacy_fields_match : LogQuery → DurableLogRecord → Bool
  legacy_fields_match q r = all_of (field_equals r) q.exact_fields

  unfoldable pub matches : LogQuery → DurableLogRecord → Bool
  unfolding offset_matches timestamp_matches cursor_matches legacy_terms_match legacy_fields_match
  matches q r =
      offset_matches q r.record_ref.offset
      && (timestamp_matches q r.timestamp_unix_nanos
          && (cursor_matches q r
              && (legacy_terms_match q r
                  && (legacy_fields_match q r && predicate_matches u q.predicate r))))

  unfoldable pub matches_index_candidate : LogQuery → DurableLogRecord → Bool
  unfolding offset_matches timestamp_matches cursor_matches
  matches_index_candidate q r =
      offset_matches q r.record_ref.offset
      && (timestamp_matches q r.timestamp_unix_nanos
          && (cursor_matches q r && predicate_matches u q.predicate r))

  unfoldable pub select : LogQuery → List DurableLogRecord → List DurableLogRecord
  unfolding matches compare_records
  select q records = limited q.limit (sort_by (compare_records q) (retain (matches q) records))
