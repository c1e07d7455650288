-- ===== src/NativeProtocol/Query.antt =====
-- The native query of src/native_protocol.rs: `validate_query` and `encode_native_query`. The labels are
-- the pairs of the `BTreeMap` in the order of their keys, as it walks them.
use shard_log.Prelude.{
  ℕ, ◌-◌, ◌^◌, Bool, false, not, ◌||◌, Option, none, some, String, List, [], ◌∷◌, ◌++◌, length,
  is_empty, ltb, leb, nat_eq, ◌==◌, if◌then◌else◌,
}
use shard_log.Bytes.{le_bytes}
use shard_log.Outcome.{ok, err, ◌>>=◌, ◌>>◌, reject}
use shard_log.NativeProtocol.Wire.{message, formatted, of_field, Checked, Text}
use shard_log.NativeProtocol.Batch.{max_tenant_bytes, max_labels_per_stream}

abbrev pub query_magic : List ℕ
query_magic = b'S' ∷ b'L' ∷ b'Q' ∷ b'1' ∷ []

abbrev pub max_query_terms : ℕ
max_query_terms = 256

abbrev pub max_query_limit : ℕ
max_query_limit = 1000000

abbrev pub u64_max : ℕ
u64_max = 2 ^ 64 - 1

pub data NativeQueryDirection : Type 0 where
  oldest_first newest_first : NativeQueryDirection

pub record NativeQuery : Type 0 where
  pub tenant : Text
  pub labels : List (Text × Text)
  pub terms : List Text
  pub start_timestamp_unix_nanos : Option ℕ
  pub end_timestamp_unix_nanos : Option ℕ
  pub limit : ℕ
  pub direction : NativeQueryDirection

unfoldable pub validate_tenant : Text → Checked (Unit {0})
validate_tenant tenant = do
  reject (is_empty tenant) (message "native tenant must not be empty")
  reject (ltb max_tenant_bytes (length tenant) || ltb (2 ^ 16 - 1) (length tenant))
      (message "native tenant exceeds its length limit")
  ok tt

unfoldable pub validate_string16 : Text → String → Checked (Unit {0})
validate_string16 value field =
    reject (not (ltb (length value) (2 ^ 16))) (of_field "{field} exceeds u16" field)

unfoldable pub validate_labels : List (Text × Text) → Checked (Unit {0})
unfolding validate_string16
validate_labels [] = ok tt
validate_labels ((key, value) ∷ labels) = do
  reject (is_empty key) (message "native query label keys must not be empty")
  validate_string16 key "query label key"
  validate_string16 value "query label value"
  validate_labels labels

unfoldable pub validate_terms : List Text → Checked (Unit {0})
unfolding validate_string16
validate_terms [] = ok tt
validate_terms (term ∷ terms) = do
  reject (is_empty term) (message "native query terms must not be empty")
  validate_string16 term "query term"
  validate_terms terms

-- `start >= end`, where both are given.
abbrev pub empty_range : Option ℕ → Option ℕ → Bool
empty_range none end = false
empty_range (some start) none = false
empty_range (some start) (some end) = leb end start

unfoldable pub validate_query : NativeQuery → Checked (Unit {0})
unfolding validate_tenant validate_labels validate_terms
validate_query q = do
  validate_tenant q.tenant
  reject (ltb max_labels_per_stream (length q.labels))
      (message "native query contains too many labels")
  reject (ltb max_query_terms (length q.terms)) (message "native query contains too many terms")
  reject (q.limit == 0 || ltb max_query_limit q.limit)
      (formatted "native query limit must be in 1..={MAX_QUERY_LIMIT}" (max_query_limit ∷ []))
  reject (empty_range q.start_timestamp_unix_nanos q.end_timestamp_unix_nanos)
      (message "native query timestamp range must be nonempty")
  validate_labels q.labels
  validate_terms q.terms

-- `put_u16`: the two bytes that it appends.
unfoldable pub put_u16 : ℕ → String → Checked (List ℕ)
put_u16 value field =
    if ltb value (2 ^ 16) then ok (le_bytes 2 value) else err (of_field "{field} exceeds u16" field)

unfoldable pub put_string16 : Text → String → Checked (List ℕ)
unfolding put_u16
put_string16 value field = do len ← put_u16 (length value) field; ok (len ++ value)

unfoldable pub put_labels : List (Text × Text) → Checked (List ℕ)
unfolding put_string16
put_labels [] = ok []
put_labels ((key, value) ∷ labels) = do
  key_bytes ← put_string16 key "query label key"
  value_bytes ← put_string16 value "query label value"
  rest ← put_labels labels
  ok (key_bytes ++ (value_bytes ++ rest))

unfoldable pub put_terms : List Text → Checked (List ℕ)
unfolding put_string16
put_terms [] = ok []
put_terms (term ∷ terms) = do
  bytes ← put_string16 term "query term"
  rest ← put_terms terms
  ok (bytes ++ rest)

abbrev pub direction_byte : NativeQueryDirection → ℕ
direction_byte oldest_first = 0
direction_byte newest_first = 1

-- `bound.unwrap_or(u64::MAX)`
abbrev pub bound_or_max : Option ℕ → ℕ
bound_or_max none = u64_max
bound_or_max (some bound) = bound

unfoldable pub encode_native_query : NativeQuery → Checked (List ℕ)
unfolding validate_query put_u16 put_labels put_terms
encode_native_query q = do
  validate_query q
  tenant_len ← put_u16 (length q.tenant) "query tenant"
  label_count ← put_u16 (length q.labels) "query label count"
  term_count ← put_u16 (length q.terms) "query term count"
  labels ← put_labels q.labels
  terms ← put_terms q.terms
  ok (
      query_magic
      ++ (tenant_len
          ++ (label_count
              ++ (term_count
                  ++ ((direction_byte q.direction ∷ 0 ∷ [])
                      ++ (le_bytes 4 q.limit
                          ++ (le_bytes 8 (bound_or_max q.start_timestamp_unix_nanos)
                              ++ (le_bytes 8 (bound_or_max q.end_timestamp_unix_nanos)
                                  ++ (q.tenant ++ (labels ++ terms))))))))))
