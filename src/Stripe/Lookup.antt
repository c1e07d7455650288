-- ===== src/Stripe/Lookup.antt =====
-- `query_ordinals` of src/stripe.rs: a lookup answered from the postings of a partition. `none` is a panic
-- of an `expect`: an ordinal that does not fit 32 bits, or one without a record.
use Prim.Native.Nat.{Ordering, compare}
use shard_log.Prelude.{
  ℕ, suc, ◌-◌, ◌^◌, min, Bool, true, false, not, ◌&&◌, ◌||◌, Option, none, some, List, [], ◌∷◌,
  ◌++◌, map, length, is_empty, take, ltb, leb, nat_eq, ◌==◌, if◌then◌else◌,
}
use shard_log.Prelude.Sorting.{retain, sort_by}
use shard_log.Query.Types.{
  DurableLogRecord, QueryOrder, oldest_first, newest_first, by_offset, by_timestamp, LogQuery,
}
use shard_log.Query.Text.{Unicode}
use shard_log.Query.Matches.{matches_index_candidate, has_invalid_range, compare_records, limited}
use shard_log.Query.Constraints.{
  RequiredIndexConstraints, required_index_constraints, needs_record_filter,
}
use shard_log.Stripe.Postings.{
  HotPostingList, is_empty_in, collect_in, intersect_ordinal_runs, count_up, reverse,
}
use shard_log.Stripe.Interner.{get_elem?}
use shard_log.Stripe.Index.{PartitionIndex, term_index, field_index, normalize_term}

-- `slice::partition_point`, on a slice that the test splits.
unfoldable pub partition_point {ℓ} : {A : Type ℓ} → (A → Bool) → List A → ℕ
partition_point p [] = 0
partition_point p (x ∷ xs) = let rest = suc (partition_point p xs) in if p x then rest else 0

unfoldable pub ordinals_before : ℕ → List DurableLogRecord → ℕ
unfolding partition_point
ordinals_before offset records =
    partition_point (λ (r : DurableLogRecord). ltb r.record_ref.offset offset) records

abbrev pub end_index : List DurableLogRecord → Option ℕ → ℕ
end_index records none = length records
end_index records (some end) = ordinals_before end records

abbrev pub start_index : List DurableLogRecord → Option ℕ → ℕ
start_index records none = 0
start_index records (some start) = ordinals_before start records

unfoldable pub ordinal_record_window : List DurableLogRecord → Option ℕ → Option ℕ → ℕ × ℕ
unfolding ordinals_before
ordinal_record_window records start end =
    (min (start_index records start) (end_index records end), end_index records end)

-- The postings of each key; `none` is the early return of an empty result.
unfoldable pub gather_postings :
    {K : Type 0}
    → (K → Option ℕ)
    → List HotPostingList
    → ℕ
    → ℕ
    → List K
    → Option (List HotPostingList)
unfolding is_empty_in
gather_postings find postings start end [] = some []
gather_postings find postings start end (k ∷ ks) = elim (find k) [
  | none ↦ none
  | some id ↦ elim (get_elem? postings id) [
    | none ↦ none
    | some p ↦
        if is_empty_in start end p
        then none
        else elim (gather_postings find postings start end ks) [
          | none ↦ none
          | some ps ↦ some (p ∷ ps)
        ]
  ]
]

unfoldable pub collect_ordered_range : ℕ → ℕ → QueryOrder → Option ℕ → List ℕ
unfolding count_up reverse
collect_ordered_range start end order limit =
    let range = count_up start (end - start) in
    let count : ℕ = elim limit [ none ↦ length range | some n ↦ min n (length range) ] in
    elim order [ oldest_first ↦ take count range | newest_first ↦ take count (reverse range) ]

-- Lists of one cardinality may come in either order; the intersection is the same.
abbrev pub compare_cardinality : HotPostingList → HotPostingList → Ordering
compare_cardinality a b = compare a.cardinality b.cardinality

unfoldable pub intersect_all : ℕ → ℕ → List HotPostingList → List ℕ → List ℕ
unfolding intersect_ordinal_runs
intersect_all start end [] ordinals = ordinals
intersect_all start end (p ∷ ps) ordinals =
    let left = intersect_ordinal_runs ordinals p.runs start end in
    elim (is_empty left) [ true ↦ left | false ↦ intersect_all start end ps left ]

-- The records of ordinals, each with its ordinal.
unfoldable pub fetch : List DurableLogRecord → List ℕ → Option (List (ℕ × DurableLogRecord))
fetch records [] = some []
fetch records (o ∷ os) = elim (get_elem? records o) [
  | none ↦ none
  | some r ↦ elim (fetch records os) [ none ↦ none | some rest ↦ some ((o, r) ∷ rest) ]
]

abbrev pub compare_fetched : LogQuery → ℕ × DurableLogRecord → ℕ × DurableLogRecord → Ordering
compare_fetched q (o, r) (o', r') = compare_records q r r'

abbrev pub ordinal_of : ℕ × DurableLogRecord → ℕ
ordinal_of (o, r) = o

-- `limit == Some(0)`
abbrev pub is_zero : Option ℕ → Bool
is_zero none = false
is_zero (some n) = n == 0

module _ (u : Unicode) (q : LogQuery) (p : PartitionIndex) where
  unfoldable pub passes_filter : ℕ → Bool
  passes_filter o = elim (get_elem? p.records o) [
    | none ↦ false
    | some r ↦ matches_index_candidate u q r
  ]

  -- What follows once the candidates are found.
  unfoldable pub finish_ordinals : List ℕ → Option (List ℕ)
  unfolding passes_filter fetch reverse
  finish_ordinals candidates =
      let kept = if needs_record_filter q then retain passes_filter candidates else candidates in
      elim q.sort [
        | by_timestamp ↦ elim (fetch p.records kept) [
          | none ↦ none
          | some fetched ↦
              some (limited q.limit (map ordinal_of (sort_by (compare_fetched q) fetched)))
        ]
        | by_offset ↦ elim q.order [
          | newest_first ↦ some (limited q.limit (reverse kept))
          | oldest_first ↦ some (limited q.limit kept)
        ]
      ]

  unfoldable pub answer_postings : ℕ → ℕ → List HotPostingList → Option (List ℕ)
  unfolding finish_ordinals collect_ordered_range count_up collect_in intersect_all
  answer_postings start end [] =
      if needs_record_filter q
      then finish_ordinals (count_up start (end - start))
      else some (collect_ordered_range start end q.order q.limit)
  answer_postings start end (smallest ∷ others) =
      if is_empty others && not (needs_record_filter q)
      then some (collect_in start end q.order q.limit smallest)
      else finish_ordinals
          (intersect_all start end others (collect_in start end oldest_first none smallest))

  unfoldable pub answer_window : ℕ → ℕ → RequiredIndexConstraints → Option (List ℕ)
  unfolding gather_postings answer_postings
  answer_window start end c =
      elim (gather_postings (λ term. term_index.find p.term_ids (normalize_term u term))
        p.term_postings start end c.terms) [
          | none ↦ some []
          | some terms ↦
              elim (gather_postings (field_index.find p.field_ids) p.field_postings start end
                c.fields) [
                  | none ↦ some []
                  | some fields ↦
                      answer_postings start end (sort_by compare_cardinality (terms ++ fields))
                ]
        ]

  unfoldable pub query_ordinals : Option (List ℕ)
  unfolding answer_window ordinal_record_window required_index_constraints
  query_ordinals =
      let (start, end) = ordinal_record_window p.records q.start_offset q.end_offset in
      let c = required_index_constraints q in
      if is_zero q.limit || has_invalid_range q
      then some []
      else if c.impossible
      then some []
      else if leb (2 ^ 32) end
      then none
      else answer_window start end c
