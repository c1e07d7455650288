-- ===== src/Stripe/Arrangement.antt =====
-- The order and the limit of a lookup on the records that it has found in the index.
use Prim.Native.Nat.{Ordering}
use shard_log.Prelude.{
  ℕ, ◌≡◌, refl, sym, ap, ◌∙◌, Bool, List, [], ◌∷◌, map, arith, Bool-cases, inl, inr,
}
use shard_log.Prelude.Sorting.{
  reverse_ordering, retain, sort_by, Ascending, All-imp, All-retain, sort_by_sorted,
}
use shard_log.Query.Types.{
  DurableLogRecord, QueryOrder, oldest_first, newest_first, QuerySort, by_offset, by_timestamp,
  LogQuery,
}
use shard_log.Query.Text.{Unicode}
use shard_log.Query.Matches.{matches, select, compare_records, cursor_for, limited}
use shard_log.Query.Paging.{compare_offsets, compare_records-IsOrder}
use shard_log.Stripe.Postings.{reverse}
use shard_log.Stripe.Collect.{ordered}
use shard_log.Stripe.Lookup.{compare_fetched}
use shard_log.Stripe.Ordinals.{
  record_of, enumerate, records_enumerate, retain-map, sort_by-map, reverse-map, limited-map,
  sort_by_falling,
}

Ascending-retain {ℓ} :
    {A : Type ℓ} (cmp : A → A → Ordering) (p : A → Bool) (xs : List A)
    → Ascending cmp xs
    → Ascending cmp (retain p xs)
unfolding retain
Ascending-retain cmp p [] a = a
Ascending-retain cmp p (x ∷ xs) a = elim (Bool-cases (p x)) [
  | inl kept ↦ rw kept (All-retain _ p xs a.0, Ascending-retain cmp p xs a.1)
  | inr gone ↦ rw gone (Ascending-retain cmp p xs a.1)
]

Ascending-congr {ℓ} :
    {A : Type ℓ} (c d : A → A → Ordering)
    → ((x y : A) → c x y ≡ d x y)
    → (xs : List A) → Ascending c xs
    → Ascending d xs
Ascending-congr c d h [] a = a
Ascending-congr c d h (x ∷ xs) a =
    (All-imp _ _ (λ y e. sym (h x y) ∙ e) xs a.0, Ascending-congr c d h xs a.1)

-- The entries in the order of the lookup.
abbrev pub arrange_by :
    LogQuery → QuerySort → QueryOrder → List (ℕ × DurableLogRecord) → List (ℕ × DurableLogRecord)
arrange_by q by_timestamp order es = sort_by (compare_fetched q) es
arrange_by q by_offset order es = ordered order es

abbrev pub arrange : LogQuery → List (ℕ × DurableLogRecord) → List (ℕ × DurableLogRecord)
arrange q es = arrange_by q q.sort q.order es

-- The entries of the records that match.
abbrev pub matched : Unicode → LogQuery → List DurableLogRecord → List (ℕ × DurableLogRecord)
matched u q records = retain (λ e. matches u q (record_of e)) (enumerate 0 records)

module _ (u : Unicode) (q : LogQuery) (records : List DurableLogRecord) where
  pub records-matched : map record_of (matched u q records) ≡ retain (matches u q) records
  records-matched =
      sym (retain-map record_of (matches u q) (enumerate 0 records))
      ∙ ap (retain (matches u q)) (records_enumerate 0 records)

  compare_oldest :
      q.sort ≡ by_offset
      → q.order ≡ oldest_first
      → (a b : DurableLogRecord) → compare_offsets a b ≡ compare_records q a b
  unfolding compare_records cursor_for
  compare_oldest h k a b = rw (compare_records, h, k)

  compare_newest :
      q.sort ≡ by_offset
      → q.order ≡ newest_first
      → (a b : DurableLogRecord) → compare_offsets a b ≡ reverse_ordering (compare_records q a b)
  unfolding compare_records cursor_for
  compare_newest h k a b = rw (compare_records, h, k) (ground arith)

  arrange_sorted :
      Ascending compare_offsets records
      → (sort : QuerySort) (order : QueryOrder) → q.sort ≡ sort
      → q.order ≡ order
      → map record_of (arrange_by q sort order (matched u q records))
        ≡ sort_by (compare_records q) (retain (matches u q) records)
  arrange_sorted a by_timestamp order h k =
      (sort_by-map record_of (compare_fetched q) (compare_records q) (λ x y. fetched_eq x y)
          (matched u q records)
        ∙ ap (sort_by (compare_records q)) records-matched)
    where
      fetched_eq :
          (x y : ℕ × DurableLogRecord)
          → compare_fetched q x y ≡ compare_records q (record_of x) (record_of y)
      fetched_eq (o, r) (o', r') = refl
  arrange_sorted a by_offset oldest_first h k =
      (records-matched
        ∙ sym (
            sort_by_sorted (compare_records-IsOrder q) (retain (matches u q) records) (
              Ascending-congr compare_offsets (compare_records q) (compare_oldest h k) _
                (Ascending-retain compare_offsets (matches u q) records a))))
  arrange_sorted a by_offset newest_first h k =
      (reverse-map record_of (matched u q records)
        ∙ (ap reverse records-matched
            ∙ sym (
                sort_by_falling (compare_records q) (retain (matches u q) records) (
                  Ascending-congr compare_offsets _ (compare_newest h k) _
                    (Ascending-retain compare_offsets (matches u q) records a)))))

  -- The matching records of a partition, arranged and limited, are what `select` takes from its records.
  pub arrange-select :
      Ascending compare_offsets records
      → map record_of (limited q.limit (arrange q (matched u q records))) ≡ select u q records
  unfolding select
  arrange-select a =
      limited-map record_of q.limit (arrange q (matched u q records))
      ∙ ap (limited q.limit) (arrange_sorted a q.sort q.order refl refl)
