-- ===== src/Stripe/Refinement.antt =====
-- `query_ordinals` against `select`: what the postings of a partition answer is what filtering, sorting and
-- limiting all its records gives.
use shard_log.Prelude.{
  ℕ, zero, suc, ◌^◌, ◌≤◌, ◌<◌, ◌≡◌, refl, sym, ap, subst, ◌∙◌, Bool, true, false, not, ◌||◌, Option,
  none, some, List, [], ◌∷◌, ◌++◌, map, length, leb, take, All, All-append, arith, Bool-cases, inl,
  inr,
}
use shard_log.Prelude.Sorting.{retain, sort_by, IsOrder, All-sort_by}
use shard_log.NativeProtocol.Wire.{text_eq}
use shard_log.Query.Types.{
  DurableLogRecord, QueryOrder, oldest_first, newest_first, QuerySort, by_offset, by_timestamp,
  LogQuery,
}
use shard_log.Query.Text.{Unicode, message_has_term, scan_message_terms}
use shard_log.Query.Matches.{matches, select, limited, all_of, has_invalid_range}
use shard_log.Query.Constraints.{required_index_constraints, needs_record_filter}
use shard_log.Query.Selection.{has_field, meets, matches-has_invalid_range}
use shard_log.Query.Paging.{compare_records-IsOrder}
use shard_log.Stripe.Postings.{usize_max, HotPostingList, collect_in}
use shard_log.Stripe.Windows.{window}
use shard_log.Stripe.Collect.{ordered, collect_in_lem}
use shard_log.Stripe.Intersection.{Rising-retain}
use shard_log.Stripe.Interner.{get_elem?}
use shard_log.Stripe.InternerLaws.{PostingsTo, posted_key}
use shard_log.Stripe.Index.{
  PartitionIndex, TermIds, FieldIds, term_index, field_index, normalize_term, pair_eq,
}
use shard_log.Stripe.Lookup.{
  compare_fetched, ordinal_record_window, intersect_all, answer_postings, answer_window,
  query_ordinals, ordinal_of, compare_cardinality, is_zero,
}
use shard_log.Stripe.Ordinals.{Fetched, record_of, All-reverse, end_index-le}
use shard_log.Stripe.IndexState.{IsIndexed, Folds}
use shard_log.Stripe.PostingLaws.{RunsFrom, posted}
use shard_log.Stripe.PushLaws.{All-get_elem?}
use shard_log.Stripe.Gathering.{
  retain_in_turn, holds, Gathered, gather_postings-Gathered, intersect_all_lem, holds-sort_by,
  holds-append,
}
use shard_log.Stripe.Arrangement.{arrange, arrange_by, matched, arrange-select}
use shard_log.Stripe.Finishing.{
  first_ordinal, end_ordinal, posted_terms, posted_fields, Answers, matched-Fetched, direct-Answers,
}
use shard_log.Stripe.Candidates.{
  constraints, meeting, Holding, window-meeting, meeting-matched, candidates-Answers, start-le-end,
  whole_window, single_window, by_test, matches_meets, nothing_matches, none_in_range,
}
use shard_log.Stripe.Ranges.{
  gather-map, Rising-window, collect_ordered_range_lem, cardinality-IsOrder,
}

module _ (u : Unicode) (q : LogQuery) (p : PartitionIndex) (ok : IsIndexed u p) where
  module _ (small : length p.records < 2 ^ 32) where
    end_small : (end_ordinal u q p ok) ≤ usize_max
    end_small = omega (arith, end_index-le p.records q.end_offset)

    collected :
        (order : QueryOrder) (limit : Option ℕ) (list : HotPostingList)
        → RunsFrom 0 (length p.records) list.runs
        → collect_in (first_ordinal u q p ok) (end_ordinal u q p ok) order limit list
          ≡ limited limit (
              ordered order (
                retain
                  (λ o. posted o list.runs)
                  (window (first_ordinal u q p ok) (end_ordinal u q p ok))))
    collected order limit list w =
        collect_in_lem (first_ordinal u q p ok) (end_ordinal u q p ok) (length p.records) order
          limit list w (start-le-end u q p ok) end_small

    intersected :
        (list : HotPostingList) (others : List HotPostingList)
        → (Holding u q p ok) (list ∷ others)
        → intersect_all
            (first_ordinal u q p ok)
            (end_ordinal u q p ok)
            others
            (collect_in (first_ordinal u q p ok) (end_ordinal u q p ok) oldest_first none list)
          ≡ map ordinal_of (meeting u q p ok)
    intersected list others h =
        ap (intersect_all (first_ordinal u q p ok) (end_ordinal u q p ok) others)
          (collected oldest_first none list h.0.0)
        ∙ (intersect_all_lem (first_ordinal u q p ok) (end_ordinal u q p ok) (length p.records)
              others _
              (Rising-retain (λ o. posted o list.runs) (first_ordinal u q p ok)
                (end_ordinal u q p ok) _
                (Rising-window (first_ordinal u q p ok) (end_ordinal u q p ok)
                  (start-le-end u q p ok)))
              h.0.1
            ∙ (retain_in_turn list others (window (first_ordinal u q p ok) (end_ordinal u q p ok))
                ∙ (window-meeting u q p ok) (list ∷ others) h))

    answer_postings-Answers :
        (lists : List HotPostingList)
        → (Holding u q p ok) lists
        → (Answers u q p ok)
            (answer_postings u q p (first_ordinal u q p ok) (end_ordinal u q p ok) lists)
    unfolding answer_postings
    answer_postings-Answers [] h =
        (by_test u q p ok) (needs_record_filter q) _ _
          (λ needs. (candidates-Answers u q p ok) _ ((whole_window u q p ok) h))
          (λ direct.
            ap some (
              collect_ordered_range_lem (first_ordinal u q p ok) (end_ordinal u q p ok) q.order
                q.limit)
            ∙ (direct-Answers u q p ok) direct _ (
                (whole_window u q p ok) h
                ∙ ap (map ordinal_of) ((meeting-matched u q p ok) direct)))
    answer_postings-Answers (smallest ∷ []) h =
        (by_test u q p ok) (not (needs_record_filter q)) _ _
          (λ direct.
            ap some (collected q.order q.limit smallest h.0.0)
            ∙ (direct-Answers u q p ok) (ground arith) _ (
                (single_window u q p ok) smallest h
                ∙ ap (map ordinal_of) ((meeting-matched u q p ok) (ground arith))))
          (λ needs. (candidates-Answers u q p ok) _ (intersected smallest [] h))
    answer_postings-Answers (smallest ∷ next ∷ others) h =
        (candidates-Answers u q p ok) _ (intersected smallest (next ∷ others) h)

    module _ (folded : All (Folds u) (constraints u q p ok).terms)
        (folded_records : All
          (λ (r : DurableLogRecord). All (Folds u) (scan_message_terms u r.message))
          p.records) where
      abbrev term_state : TermIds × List HotPostingList
      term_state = (p.term_ids, p.term_postings)

      abbrev field_state : FieldIds × List HotPostingList
      field_state = (p.field_ids, p.field_postings)

      abbrev all_terms : ℕ → Bool
      all_terms o =
          all_of (λ k. posted_key term_index term_state k o)
            (map (normalize_term u) (constraints u q p ok).terms)

      abbrev all_fields : ℕ → Bool
      all_fields o =
          all_of (λ k. posted_key field_index field_state k o) (constraints u q p ok).fields

      all_terms_lem :
          (o : ℕ) (r : DurableLogRecord)
          → get_elem? p.records o ≡ some r
          → all_terms o ≡ all_of (message_has_term u r.message) (constraints u q p ok).terms
      all_terms_lem o r at =
          (posted_terms u q p ok) (constraints u q p ok).terms folded o r
            (All-get_elem?
              (λ (x : DurableLogRecord). All (Folds u) (scan_message_terms u x.message)) p.records
              folded_records o r at)
            at

      all_fields_lem :
          (o : ℕ) (r : DurableLogRecord)
          → get_elem? p.records o ≡ some r
          → all_fields o ≡ all_of (has_field r) (constraints u q p ok).fields
      all_fields_lem o r at = (posted_fields u q p ok) (constraints u q p ok).fields o r at

      gathered-Holding :
          (constraints u q p ok).impossible ≡ false
          → (ts fs : List HotPostingList) → PostingsTo (length p.records) ts
          → PostingsTo (length p.records) fs
          → ((o : ℕ) → holds ts o ≡ all_terms o)
          → ((o : ℕ) → holds fs o ≡ all_fields o)
          → (Holding u q p ok) (sort_by compare_cardinality (ts ++ fs))
      unfolding meets
      gathered-Holding possible ts fs wt wf ht hf = (
        All-sort_by cardinality-IsOrder _ (ts ++ fs) (All-append _ ts fs wt wf),
        λ o r at.
            holds-sort_by (ts ++ fs) o
            ∙ (holds-append ts fs o
                ∙ ground (arith, ht o, hf o, all_terms_lem o r at, all_fields_lem o r at)),
      )

      abbrev GatheredTerms : Option (List HotPostingList) → Type 0
      GatheredTerms =
          Gathered term_index p.term_ids p.term_postings (first_ordinal u q p ok)
            (end_ordinal u q p ok) (length p.records) (start-le-end u q p ok) ok.terms.in_order
            (map (normalize_term u) (constraints u q p ok).terms)

      abbrev GatheredFields : Option (List HotPostingList) → Type 0
      GatheredFields =
          Gathered field_index p.field_ids p.field_postings (first_ordinal u q p ok)
            (end_ordinal u q p ok) (length p.records) (start-le-end u q p ok) ok.fields.in_order
            (constraints u q p ok).fields

      by_gathered :
          (constraints u q p ok).impossible ≡ false
          → (ts fs : Option (List HotPostingList)) → GatheredTerms ts
          → GatheredFields fs
          → (Answers u q p ok) (elim ts [
            | none ↦ some []
            | some terms ↦ elim fs [
              | none ↦ some []
              | some fields ↦
                  answer_postings u q p
                    (first_ordinal u q p ok)
                    (end_ordinal u q p ok)
                    (sort_by compare_cardinality (terms ++ fields))
            ]
          ])
      by_gathered possible none fs gt gf =
          (none_in_range u q p ok) all_terms
            (λ r. all_of (message_has_term u r.message) (constraints u q p ok).terms) all_terms_lem
            (λ r m. ((matches_meets u q p ok) r m).1) gt
      by_gathered possible (some ts) none gt gf =
          (none_in_range u q p ok) all_fields
            (λ r. all_of (has_field r) (constraints u q p ok).fields) all_fields_lem
            (λ r m. ((matches_meets u q p ok) r m).2) gf
      by_gathered possible (some ts) (some fs) gt gf =
          answer_postings-Answers _ (gathered-Holding possible ts fs gt.0 gf.0 gt.1 gf.1)

      answer_window-Answers :
          (constraints u q p ok).impossible ≡ false
          → (Answers u q p ok) (
              answer_window u q p
                (first_ordinal u q p ok)
                (end_ordinal u q p ok)
                (constraints u q p ok))
      unfolding answer_window
      answer_window-Answers possible =
          by_gathered possible _ _
            (subst GatheredTerms
              (sym (
                gather-map (term_index.find p.term_ids) (normalize_term u) p.term_postings
                  (first_ordinal u q p ok) (end_ordinal u q p ok) (constraints u q p ok).terms))
              (gather_postings-Gathered term_index p.term_ids p.term_postings
                (first_ordinal u q p ok) (end_ordinal u q p ok) (length p.records)
                (start-le-end u q p ok) ok.terms.in_order
                (map (normalize_term u) (constraints u q p ok).terms)))
            (gather_postings-Gathered field_index p.field_ids p.field_postings
              (first_ordinal u q p ok) (end_ordinal u q p ok) (length p.records)
              (start-le-end u q p ok) ok.fields.in_order (constraints u q p ok).fields)

      no_limit-Answers :
          (limit : Option ℕ) → is_zero limit ≡ true → q.limit ≡ limit → (Answers u q p ok) (some [])
      no_limit-Answers none z h = cc
      no_limit-Answers (some zero) z h =
          ap (λ l. some (map ordinal_of (limited l (arrange q (matched u q p.records))))) (sym h)
      no_limit-Answers (some (suc n)) z h = absurd (ground arith)

      query_ordinals-Answers : (Answers u q p ok) (query_ordinals u q p)
      unfolding query_ordinals ordinal_record_window
      query_ordinals-Answers =
          (by_test u q p ok) (is_zero q.limit || has_invalid_range q) _ _
            (λ early. elim (Bool-cases (is_zero q.limit)) [
              | inl zero_limit ↦ no_limit-Answers q.limit zero_limit refl
              | inr some_limit ↦
                  (nothing_matches u q p ok) (λ r. matches-has_invalid_range u r q (ground arith))
            ])
            (λ late.
              (by_test u q p ok) (constraints u q p ok).impossible _ _
                (λ impossible. (nothing_matches u q p ok) (λ r. unmatched r impossible))
                (λ possible.
                  (by_test u q p ok) (leb (2 ^ 32) (end_ordinal u q p ok)) _ _
                    (λ big. absurd (ground (arith, end_index-le p.records q.end_offset)))
                    (λ fits. answer_window-Answers possible)))
        where
          unmatched :
              (r : DurableLogRecord)
              → (constraints u q p ok).impossible ≡ true
              → matches u q r ≡ false
          unmatched r h = elim (Bool-cases (matches u q r)) [
            | inl m ↦ absurd (ground (arith, ((matches_meets u q p ok) r m).0))
            | inr m ↦ m
          ]

fetched-IsOrder : (q : LogQuery) → IsOrder (compare_fetched q)
fetched-IsOrder q = record {
  flip = λ a b. (compare_records-IsOrder q).flip a.1 b.1;
  trans = λ a b c. (compare_records-IsOrder q).trans a.1 b.1 c.1;
}

All-limited :
    {A : Type 0} (P : A → Type 0) (limit : Option ℕ) (xs : List A)
    → All P xs
    → All P (limited limit xs)
All-limited {A} P none xs h = h
All-limited {A} P (some n) xs h = All-take n xs h
  where
    All-take : (n : ℕ) (ys : List A) → All P ys → All P (take n ys)
    All-take zero ys h = tt
    All-take (suc n) [] h = tt
    All-take (suc n) (y ∷ ys) h = (h.0, All-take n ys h.1)

All-arrange :
    (P : ℕ × DurableLogRecord → Type 0) (q : LogQuery) (sort : QuerySort) (order : QueryOrder)
    (es : List (ℕ × DurableLogRecord))
    → All P es
    → All P (arrange_by q sort order es)
All-arrange P q by_timestamp order es h = All-sort_by (fetched-IsOrder q) P es h
All-arrange P q by_offset oldest_first es h = h
All-arrange P q by_offset newest_first es h = All-reverse P es h

-- A lookup in a partition whose index is well formed and holds fewer than 2^32 records returns, without a
-- panic, the ordinals of records that are, in the same order, what `select` takes from all the records of
-- the partition. The required terms of the lookup and the terms of the messages are texts whose lower case
-- is themselves when nothing in them is upper case.
pub query_ordinals-select :
    (u : Unicode) (q : LogQuery) (p : PartitionIndex)
    → IsIndexed u p
    → length p.records < 2 ^ 32
    → All (Folds u) (required_index_constraints q).terms
    → All (λ (r : DurableLogRecord). All (Folds u) (scan_message_terms u r.message)) p.records
    → (found : List (ℕ × DurableLogRecord)) × (query_ordinals u q p ≡ some (map ordinal_of found))
      × Fetched p.records found
      × (map record_of found ≡ select u q p.records)
query_ordinals-select u q p ok small folded folded_records = (
  limited q.limit (arrange q (matched u q p.records)),
  query_ordinals-Answers u q p ok small folded folded_records,
  All-limited _ q.limit _ (All-arrange _ q q.sort q.order _ (matched-Fetched u q p ok)),
  arrange-select u q p.records ok.by_offset,
)
