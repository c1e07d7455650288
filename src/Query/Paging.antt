-- ===== src/Query/Paging.antt =====
-- The result order of `LogQuery::compare`, and lookups continued page by page after a cursor.
use Prim.Native.Nat.{Ordering, compare}
use mathlib.Core.Path.{fun_ext}
use shard_log.Prelude.{
  ℕ, ◌≡◌, refl, sym, ap, subst, ◌∙◌, Bool, true, ◌&&◌, Option, none, some, List, [], ◌∷◌, ◌++◌,
  take, drop, All, take-append-drop, append_assoc, arith,
}
use shard_log.Prelude.Sorting.{
  reverse_ordering, is_lt, retain, sort_by, Ascending, Distinct, IsOrder, All-imp, All-sort_by,
  sort_by-Ascending, retain-sort_by, Distinct-retain, retain_behind, retain-retain, All-retain-true,
  All_middle,
}
use shard_log.Query.Types.{
  DurableLogRecord, QueryOrder, oldest_first, newest_first, QuerySort, by_offset, by_timestamp,
  QueryCursor, LogQuery,
}
use shard_log.Query.Text.{Unicode}
use shard_log.Query.Matches.{
  offset_matches, timestamp_matches, compare_keys, directed, cursor_for, compare_records, follows,
  cursor_matches, limited, legacy_terms_match, legacy_fields_match, matches, select,
}

-- The comparison by logical offset.
abbrev pub compare_offsets : DurableLogRecord → DurableLogRecord → Ordering
compare_offsets a b = compare a.record_ref.offset b.record_ref.offset

keys_flip :
    (order : QueryOrder) (sort : QuerySort) (a b : QueryCursor)
    → directed order (compare_keys sort b a)
      ≡ reverse_ordering (directed order (compare_keys sort a b))
keys_flip oldest_first by_offset a b = ground arith
keys_flip oldest_first by_timestamp a b = ground arith
keys_flip newest_first by_offset a b = ground arith
keys_flip newest_first by_timestamp a b = ground arith

keys_trans :
    (order : QueryOrder) (sort : QuerySort) (a b c : QueryCursor)
    → directed order (compare_keys sort a b) ≡ Ordering.lt
    → directed order (compare_keys sort b c) ≡ Ordering.lt
    → directed order (compare_keys sort a c) ≡ Ordering.lt
keys_trans oldest_first by_offset a b c h k = ground arith
keys_trans oldest_first by_timestamp a b c h k = ground arith
keys_trans newest_first by_offset a b c h k = ground arith
keys_trans newest_first by_timestamp a b c h k = ground arith

-- The result order is a strict order: it reverses when the records change places, and is transitive.
pub compare_records-IsOrder : (q : LogQuery) → IsOrder (compare_records q)
unfolding compare_records
compare_records-IsOrder q = record {
  flip = λ a b. keys_flip q.order q.sort (cursor_for a) (cursor_for b);
  trans = λ a b c. keys_trans q.order q.sort (cursor_for a) (cursor_for b) (cursor_for c);
}

keys_distinct :
    (order : QueryOrder) (sort : QuerySort) (a b : QueryCursor)
    → directed order (compare_keys sort a b) ≡ Ordering.eq
    → compare a.offset b.offset ≡ Ordering.eq
keys_distinct oldest_first by_offset a b h = h
keys_distinct oldest_first by_timestamp a b h = ground arith
keys_distinct newest_first by_offset a b h = ground arith
keys_distinct newest_first by_timestamp a b h = ground arith

-- Records with different offsets never compare equal.
pub compare_records-Distinct :
    (q : LogQuery) (records : List DurableLogRecord)
    → Distinct compare_offsets records
    → Distinct (compare_records q) records
unfolding compare_records
compare_records-Distinct q [] d = tt
compare_records-Distinct q (r ∷ records) d = (
  All-imp _ _ (λ s ne e. ne (keys_distinct q.order q.sort (cursor_for r) (cursor_for s) e)) records
      d.0,
  compare_records-Distinct q records d.1,
)

abbrev pub continued : LogQuery → DurableLogRecord → LogQuery
continued q last = record q { limit = none; after = some (cursor_for last) }

follows_lem :
    (order : QueryOrder) (sort : QuerySort) (a b : QueryCursor)
    → follows order (compare_keys sort b a) ≡ is_lt (directed order (compare_keys sort a b))
unfolding follows
follows_lem oldest_first by_offset a b = ground arith
follows_lem oldest_first by_timestamp a b = ground arith
follows_lem newest_first by_offset a b = ground arith
follows_lem newest_first by_timestamp a b = ground arith

-- The cursor of a record admits the records that the result order puts behind it.
pub cursor_matches-continued :
    (q : LogQuery) (last r : DurableLogRecord)
    → cursor_matches (continued q last) r ≡ is_lt (compare_records q last r)
unfolding cursor_matches compare_records
cursor_matches-continued q last r = follows_lem q.order q.sort (cursor_for last) (cursor_for r)

is_lt_trans :
    (q : LogQuery) (c : QueryCursor) (a b : DurableLogRecord)
    → is_lt (directed q.order (compare_keys q.sort c (cursor_for a))) ≡ true
    → is_lt (compare_records q a b) ≡ true
    → is_lt (directed q.order (compare_keys q.sort c (cursor_for b))) ≡ true
unfolding compare_records
is_lt_trans q c a b h k = ground (arith, keys_trans q.order q.sort c (cursor_for a) (cursor_for b))

cursor_matches_behind :
    (q : LogQuery) (last r : DurableLogRecord)
    → cursor_matches q last ≡ true
    → is_lt (compare_records q last r) ≡ true
    → cursor_matches q r ≡ true
unfolding cursor_matches
cursor_matches_behind q last r h k = by_after q.after h
  where
    by_after :
        (after : Option QueryCursor)
        → elim after [
          | none ↦ true
          | some cursor ↦ follows q.order (compare_keys q.sort (cursor_for last) cursor)
        ]
          ≡ true
        → elim after [
          | none ↦ true
          | some cursor ↦ follows q.order (compare_keys q.sort (cursor_for r) cursor)
        ]
          ≡ true
    by_after none e = refl
    by_after (some c) e = ground (
      arith,
      is_lt_trans q c last r,
      follows_lem q.order q.sort c (cursor_for last),
      follows_lem q.order q.sort c (cursor_for r),
    )

module _ (u : Unicode) (q : LogQuery) (last : DurableLogRecord) where
  matches-cursor : matches u q last ≡ true → cursor_matches q last ≡ true
  unfolding matches
  matches-cursor h = ground arith

  matches-continued :
      matches u q last ≡ true
      → (r : DurableLogRecord)
      → matches u (continued q last) r ≡ (is_lt (compare_records q last r) && matches u q r)
  unfolding matches offset_matches timestamp_matches legacy_terms_match legacy_fields_match
  matches-continued h r =
      ground
        (arith, cursor_matches-continued q last r, cursor_matches_behind q last r, matches-cursor h)

abbrev comes_after : LogQuery → DurableLogRecord → DurableLogRecord → Bool
comes_after q last r = is_lt (compare_records q last r)

select_rest :
    (u : Unicode) (q : LogQuery) (last : DurableLogRecord) (records : List DurableLogRecord)
    → matches u q last ≡ true
    → Distinct (compare_records q) (retain (matches u q) records)
    → select u (continued q last) records
      ≡ retain (comes_after q last) (sort_by (compare_records q) (retain (matches u q) records))
unfolding select
select_rest u q last records matched d =
    rw
      (
        fun_ext (matches-continued u q last matched),
        retain-retain (comes_after q last) (matches u q) records,
      )
      (sym (
        retain-sort_by (compare_records-IsOrder q) (comes_after q last)
          (retain (matches u q) records) d))

select_limited :
    (u : Unicode) (q : LogQuery) (records : List DurableLogRecord) (limit : Option ℕ)
    → select u (record q { limit = limit }) records
      ≡ limited limit (sort_by (compare_records q) (retain (matches u q) records))
unfolding select offset_matches timestamp_matches cursor_matches legacy_terms_match
    legacy_fields_match
select_limited u q records limit = refl

-- A page is what a lookup returns under a limit. When the offsets of the records are distinct, a page that
-- ends in `last`, followed by all that the lookup after the cursor of `last` returns without a limit, is
-- what the lookup itself returns without a limit: no match is lost or repeated between pages.
pub select-continued :
    (u : Unicode) (q : LogQuery) (records : List DurableLogRecord) (n : ℕ)
    (page : List DurableLogRecord) (last : DurableLogRecord)
    → Distinct compare_offsets records
    → select u (record q { limit = some n }) records ≡ page ++ last ∷ []
    → (page ++ last ∷ []) ++ select u (continued q last) records
      ≡ select u (record q { limit = none }) records
select-continued u q records n page last d e =
    let o = compare_records-IsOrder q in
    let found = retain (matches u q) records in
    let sorted = sort_by (compare_records q) found in
    let d' = Distinct-retain o (matches u q) records (compare_records-Distinct q records d) in
    let start : page ++ last ∷ [] ≡ take n sorted = sym e ∙ select_limited u q records (some n) in
    let whole : page ++ last ∷ drop n sorted ≡ sorted =
      sym (append_assoc page (last ∷ []) (drop n sorted))
      ∙ (ap (λ t. t ++ drop n sorted) start ∙ take-append-drop n sorted) in
    let matched : matches u q last ≡ true = All_middle _ page (drop n sorted) (
      subst (All (λ r. matches u q r ≡ true)) (sym whole)
        (All-sort_by o _ found (All-retain-true _ records))) in
    let ascending =
      subst (Ascending (compare_records q)) (sym whole) (sort_by-Ascending o found d') in
    let rest =
      select_rest u q last records matched d'
      ∙ (ap (retain (comes_after q last)) (sym whole)
          ∙ retain_behind o page last (drop n sorted) ascending) in
    ap (λ t. (page ++ last ∷ []) ++ t) rest
    ∙ (append_assoc page (last ∷ []) (drop n sorted)
        ∙ (whole ∙ sym (select_limited u q records none)))
