-- ===== src/Stripe/Finishing.antt =====
-- What `finish_ordinals` makes of candidates, and the answers without a record to read.
use native.Mathlib.Nat.{sub-zero}
use shard_log.Prelude.{
  ℕ, zero, suc, min, ◌≡◌, refl, sym, ap, ◌∙◌, Bool, false, Option, none, some, List, [], ◌∷◌, map,
  length, All, arith, if◌then◌else◌,
}
use shard_log.Prelude.Sorting.{retain, sort_by, All-retain}
use shard_log.NativeProtocol.Wire.{Text, text_eq}
use shard_log.Query.Types.{
  DurableLogRecord, QueryOrder, oldest_first, newest_first, QuerySort, by_offset, by_timestamp,
  LogQuery,
}
use shard_log.Query.Text.{Unicode, message_has_term, scan_message_terms}
use shard_log.Query.Matches.{limited, all_of, offset_matches}
use shard_log.Query.Constraints.{needs_record_filter, sorts_by_timestamp}
use shard_log.Query.Selection.{has_field}
use shard_log.Stripe.Postings.{count_up, reverse}
use shard_log.Stripe.Windows.{window}
use shard_log.Stripe.Collect.{ordered}
use shard_log.Stripe.Interner.{get_elem?}
use shard_log.Stripe.InternerLaws.{posted_key}
use shard_log.Stripe.Index.{PartitionIndex, term_index, field_index, normalize_term, pair_eq}
use shard_log.Stripe.Lookup.{
  compare_fetched, start_index, end_index, finish_ordinals, passes_filter, ordinal_of, fetch,
}
use shard_log.Stripe.Ordinals.{
  Fetched, record_of, enumerate, enumerate-Fetched, ordinals_enumerate, limited-map, reverse-map,
  in_window, retain-in_window, offset_matches-window, end_index-le, fetch_lem, at_ordinal,
}
use shard_log.Stripe.IndexState.{IsIndexed, Folds, mem-term_keys, mem-field_keys}
use shard_log.Stripe.Arrangement.{arrange, arrange_by, matched}
use shard_log.Stripe.Ranges.{retain-ordinals}

module _ (u : Unicode) (q : LogQuery) (p : PartitionIndex) (ok : IsIndexed u p) where
  abbrev pub first_ordinal : ℕ
  first_ordinal = min (start_index p.records q.start_offset) (end_index p.records q.end_offset)

  abbrev pub end_ordinal : ℕ
  end_ordinal = end_index p.records q.end_offset

  abbrev pub all_entries : List (ℕ × DurableLogRecord)
  all_entries = enumerate 0 p.records

  -- The entries with an offset in the range, and those that also meet a test.
  abbrev pub ranged : List (ℕ × DurableLogRecord)
  ranged = retain (λ e. offset_matches q (record_of e).record_ref.offset) all_entries

  pub Fetched-retain :
      (f : ℕ × DurableLogRecord → Bool) (es : List (ℕ × DurableLogRecord))
      → Fetched p.records es
      → Fetched p.records (retain f es)
  Fetched-retain f es h = All-retain _ f es h

  pub ranged-Fetched : Fetched p.records ranged
  ranged-Fetched = Fetched-retain _ all_entries (enumerate-Fetched p.records)

  pub window-ranged : window first_ordinal end_ordinal ≡ map ordinal_of ranged
  window-ranged =
      sym (
        retain-in_window (length p.records) first_ordinal end_ordinal (omega arith)
          (end_index-le p.records q.end_offset))
      ∙ (ap (retain (in_window first_ordinal end_ordinal))
            (ap (count_up 0) (sub-zero (length p.records)) ∙ sym (ordinals_enumerate 0 p.records))
          ∙ retain-ordinals p.records (in_window first_ordinal end_ordinal)
              (λ r. offset_matches q r.record_ref.offset) all_entries (enumerate-Fetched p.records)
              (λ o r at. sym (offset_matches-window p.records ok.by_offset o r at q)))

  pub posted_terms :
      (ts : List Text)
      → All (Folds u) ts
      → (o : ℕ) (r : DurableLogRecord) → All (Folds u) (scan_message_terms u r.message)
      → get_elem? p.records o ≡ some r
      → all_of
          (λ k. posted_key term_index (p.term_ids, p.term_postings) k o)
          (map (normalize_term u) ts)
        ≡ all_of (message_has_term u r.message) ts
  unfolding all_of at_ordinal
  posted_terms [] f o r h at = refl
  posted_terms (t ∷ ts) f o r h at = rw (
    all_of,
    ok.terms.exact (normalize_term u t) o,
    at_ordinal,
    at,
    mem-term_keys u t r f.0 h,
    posted_terms ts f.1 o r h at,
  )

  pub posted_fields :
      (ks : List (Text × Text)) (o : ℕ) (r : DurableLogRecord)
      → get_elem? p.records o ≡ some r
      → all_of (λ k. posted_key field_index (p.field_ids, p.field_postings) k o) ks
        ≡ all_of (has_field r) ks
  unfolding all_of at_ordinal
  posted_fields [] o r at = refl
  posted_fields (k ∷ ks) o r at =
      rw (all_of, ok.fields.exact k o, at_ordinal, at, mem-field_keys k r, posted_fields ks o r at)

  -- The matching entries, arranged and limited: what a lookup has to answer.
  abbrev pub Answers : Option (List ℕ) → Type 0
  Answers answer =
      answer ≡ some (map ordinal_of (limited q.limit (arrange q (matched u q p.records))))

  pub matched-Fetched : Fetched p.records (matched u q p.records)
  matched-Fetched = Fetched-retain _ all_entries (enumerate-Fetched p.records)

  finish_by :
      (sort : QuerySort) (order : QueryOrder) (kept : List ℕ)
      → kept ≡ map ordinal_of (matched u q p.records)
      → elim sort [
        | by_timestamp ↦ elim (fetch p.records kept) [
          | none ↦ none
          | some fetched ↦
              some (limited q.limit (map ordinal_of (sort_by (compare_fetched q) fetched)))
        ]
        | by_offset ↦ elim order [
          | newest_first ↦ some (limited q.limit (reverse kept))
          | oldest_first ↦ some (limited q.limit kept)
        ]
      ]
        ≡ some (map ordinal_of (limited q.limit (arrange_by q sort order (matched u q p.records))))
  finish_by by_timestamp order kept h = rw (
    h,
    fetch_lem p.records (matched u q p.records) matched-Fetched,
    limited-map ordinal_of q.limit (sort_by (compare_fetched q) (matched u q p.records)),
  )
  finish_by by_offset oldest_first kept h =
      rw (h, limited-map ordinal_of q.limit (matched u q p.records))
  finish_by by_offset newest_first kept h = rw (
    h,
    limited-map ordinal_of q.limit (reverse (matched u q p.records)),
    reverse-map ordinal_of (matched u q p.records),
  )

  pub finish-Answers :
      (candidates : List ℕ)
      → (if needs_record_filter q then retain (passes_filter u q p) candidates else candidates)
        ≡ map ordinal_of (matched u q p.records)
      → Answers (finish_ordinals u q p candidates)
  unfolding finish_ordinals
  finish-Answers candidates h = finish_by q.sort q.order _ h

  arrange-nil : (sort : QuerySort) (order : QueryOrder) → arrange_by q sort order [] ≡ []
  unfolding sort_by reverse
  arrange-nil by_timestamp order = refl
  arrange-nil by_offset oldest_first = refl
  arrange-nil by_offset newest_first = refl

  limited-nil : (limit : Option ℕ) → limited {A = ℕ × DurableLogRecord} limit [] ≡ []
  limited-nil none = refl
  limited-nil (some zero) = refl
  limited-nil (some (suc n)) = refl

  -- No entry matches.
  pub nothing-Answers : matched u q p.records ≡ [] → Answers (some [])
  nothing-Answers h =
      ap (λ es. some (map ordinal_of es))
        (sym (
          ap (λ es. limited q.limit (arrange q es)) h
          ∙ (ap (limited q.limit) (arrange-nil q.sort q.order) ∙ limited-nil q.limit)))

  direct_by :
      (sort : QuerySort) (order : QueryOrder)
      → sorts_by_timestamp sort ≡ false
      → (os : List ℕ) → os ≡ map ordinal_of (matched u q p.records)
      → limited q.limit (ordered order os)
        ≡ map ordinal_of (limited q.limit (arrange_by q sort order (matched u q p.records)))
  direct_by by_timestamp order n os h = cc
  direct_by by_offset oldest_first n os h =
      rw h (sym (limited-map ordinal_of q.limit (matched u q p.records)))
  direct_by by_offset newest_first n os h =
      rw (h, ← reverse-map ordinal_of (matched u q p.records))
        (sym (limited-map ordinal_of q.limit (reverse (matched u q p.records))))

  -- No record has to be read: the ordinals alone order the answer.
  pub direct-Answers :
      needs_record_filter q ≡ false
      → (os : List ℕ) → os ≡ map ordinal_of (matched u q p.records)
      → Answers (some (limited q.limit (ordered q.order os)))
  unfolding needs_record_filter
  direct-Answers n os h = ap some (direct_by q.sort q.order (ground arith) os h)
