-- ===== src/Stripe/Tests.antt =====
-- A stripe that publishes two records, replays one and answers a lookup.
use shard_log.Prelude.{
  ℕ, ◌+◌, ◌-◌, ◌≤◌, ◌<◌, ◌^◌, ◌≡◌, ◌≢◌, ◌⊎◌, ◌≢◌, refl, sym, Bool, true, false, Option, none, some,
  List, [], ◌∷◌, ◌++◌, map, length, subst, ap, All, arith, if◌then◌else◌, leb, any,
}
use shard_log.Prelude.Sorting.{retain}
use shard_log.Outcome.{ok, err}
use shard_log.Errors.{conflicting_record}
use shard_log.Partition.{TopicPartition}
use shard_log.Query.Types.{DurableLogRecord, newest_first}
use shard_log.Query.Matches.{select, limited}
use shard_log.Query.Constraints.{required_index_constraints}
use shard_log.NativeProtocol.Wire.{Text}
use shard_log.Query.Text.{is_ascii_uppercase, scan_message_terms}
use shard_log.Query.Tests.{ascii, record_at, offset_query}
use shard_log.Stripe.Interner.{get_elem?}
use shard_log.Stripe.Postings.{HotPostingList, collect_in, usize_max}
use shard_log.Stripe.PostingLaws.{posted}
use shard_log.Stripe.Windows.{window}
use shard_log.Stripe.Index.{PartitionIndex}
use shard_log.Stripe.IndexState.{Folds}
use shard_log.Stripe.Collect.{ordered, collect_in_lem}
use shard_log.Stripe.Lookup.{query_ordinals, ordinal_of}
use shard_log.Stripe.Apply.{
  LogStripe, Surroundings, partition_of, find_record, record_beq, unwrap_offset, apply_durable,
  apply_durable_new, apply_durable_idempotent, new_stripe, Applied,
}
use shard_log.Stripe.StripeState.{IsStripe}
use shard_log.Stripe.Durable.{Answered, apply_durable-IsStripe, apply_durable_idempotent_outcome}
use shard_log.Stripe.Refinement.{query_ordinals-select}
use shard_log.Stripe.Ordinals.{record_of, Fetched}
use shard_log.Stripe.Fresh.{new_stripe-IsStripe}

-- Compression succeeds.
abbrev calm : Surroundings
calm = record { resolved = ok tt; sealed = ok tt; term_slot = 0; field_slot = 0 }

abbrev tp1 : TopicPartition
tp1 = record { topic_id = 1; partition_id = 0 }

-- The stripe behind an answer.
abbrev after : Applied → LogStripe
after none = new_stripe 0
after (some (answer, s)) = s

after-IsStripe :
    (s : LogStripe) (r : DurableLogRecord) (applied : Applied)
    → Answered ascii s r applied
    → IsStripe ascii (after applied)
after-IsStripe s r applied (answer, s', e, w, p) = subst (IsStripe ascii) (ap after (sym e)) w

abbrev one_record : LogStripe
one_record = after (apply_durable ascii calm (record_at 3) (new_stripe 1))

one_record-IsStripe : IsStripe ascii one_record
one_record-IsStripe =
    after-IsStripe (new_stripe 1) (record_at 3) _
      (apply_durable-IsStripe ascii calm (record_at 3) (new_stripe 1) (new_stripe-IsStripe ascii 1))

apply_durable-IsStripe_example :
    Answered ascii one_record (record_at 5) (apply_durable ascii calm (record_at 5) one_record)
apply_durable-IsStripe_example =
    apply_durable-IsStripe ascii calm (record_at 5) one_record one_record-IsStripe

apply_durable_idempotent_outcome_example :
    ((i : ℕ) × (get_elem? (partition_of one_record tp1).records i ≡ some (record_at 3))
      × (apply_durable_idempotent ascii calm (record_at 3) one_record
          ≡ some (ok (unwrap_offset (partition_of one_record tp1).indexed_through 3), one_record)))
    ⊎ ((i : ℕ) × (x : DurableLogRecord) × (get_elem? (partition_of one_record tp1).records i
          ≡ some x)
        × (x.record_ref.offset ≡ 3)
        × (x ≢ record_at 3)
        × (apply_durable_idempotent ascii calm (record_at 3) one_record
            ≡ some (err (conflicting_record tp1 3), one_record)))
    ⊎ (All (λ (x : DurableLogRecord). x.record_ref.offset ≢ 3) (partition_of one_record tp1).records
        × ((one_record.stream_shard_id ≢ 1)
            ⊎ (apply_durable_idempotent ascii calm (record_at 3) one_record
                ≡ apply_durable ascii calm (record_at 3) one_record))
        × Answered ascii one_record
            (record_at 3)
            (apply_durable_idempotent ascii calm (record_at 3) one_record))
apply_durable_idempotent_outcome_example =
    apply_durable_idempotent_outcome ascii calm (record_at 3) one_record one_record-IsStripe

abbrev two_records : LogStripe
two_records = after (apply_durable ascii calm (record_at 5) one_record)

abbrev two_partition : PartitionIndex
two_partition = partition_of two_records tp1

two_records-IsStripe : IsStripe ascii two_records
two_records-IsStripe =
    after-IsStripe one_record (record_at 5) _
      (apply_durable-IsStripe ascii calm (record_at 5) one_record one_record-IsStripe)

stored : two_partition.records ≡ record_at 3 ∷ record_at 5 ∷ []
unfolding apply_durable new_stripe partition_of shard_log.Map.lookup
    shard_log.Stripe.Apply.empty_index shard_log.Map.insert
stored = refl

found_newest : query_ordinals ascii offset_query two_partition ≡ some (1 ∷ 0 ∷ [])
unfolding query_ordinals apply_durable new_stripe partition_of
    shard_log.Query.Matches.has_invalid_range
    shard_log.Query.Constraints.collect_required_constraints shard_log.Map.lookup
    shard_log.Stripe.Apply.empty_index shard_log.Map.insert shard_log.Stripe.Postings.push_range
    shard_log.Prelude.Sorting.sort_by shard_log.Query.Constraints.needs_record_filter
    shard_log.Query.Constraints.predicate_is_index_only_conjunction
found_newest = refl

short :
    (records : List DurableLogRecord)
    → records ≡ record_at 3 ∷ record_at 5 ∷ []
    → length records < 2 ^ 32
short records e = subst (λ rs. length rs < 2 ^ 32) (sym e) (omega arith)

upper-Folds : (t : Text) → any is_ascii_uppercase t ≡ true → Folds ascii t
upper-Folds t upper lower = absurd (ground arith)

folded_terms : All (Folds ascii) (required_index_constraints offset_query).terms
unfolding required_index_constraints shard_log.Query.Constraints.collect_required_constraints any
folded_terms = (upper-Folds _ refl, tt)

folded_messages :
    All
      (λ (r : DurableLogRecord). All (Folds ascii) (scan_message_terms ascii r.message))
      two_partition.records
unfolding scan_message_terms any
folded_messages =
    subst (All (λ (r : DurableLogRecord). All (Folds ascii) (scan_message_terms ascii r.message)))
      (sym stored)
      ((upper-Folds _ refl, (λ h. refl, tt)), ((upper-Folds _ refl, (λ h. refl, tt)), tt))

query_ordinals-select_example :
    (found : List (ℕ × DurableLogRecord)) × (query_ordinals ascii offset_query two_partition
      ≡ some (map ordinal_of found))
    × Fetched two_partition.records found
    × (map record_of found ≡ select ascii offset_query two_partition.records)
query_ordinals-select_example =
    query_ordinals-select ascii offset_query two_partition (two_records-IsStripe.indexed tp1)
      (short two_partition.records stored) folded_terms folded_messages

abbrev two_runs : HotPostingList
two_runs = record {
  runs = record { first = 1; last = 2 } ∷ record { first = 5; last = 9 } ∷ [];
  cardinality = 7;
}

collected : collect_in 2 7 newest_first (some 2) two_runs ≡ 6 ∷ 5 ∷ []
unfolding collect_in
collected = refl

collect_in_lem_example :
    collect_in 2 7 newest_first (some 2) two_runs
    ≡ limited (some 2) (ordered newest_first (retain (λ o. posted o two_runs.runs) (window 2 7)))
collect_in_lem_example =
    collect_in_lem 2 7 10 newest_first (some 2) two_runs
      (omega arith, omega arith, omega arith, (omega arith, omega arith, omega arith, tt))
      (omega arith) seven
  where
    seven : 7 ≤ usize_max
    seven = omega arith
