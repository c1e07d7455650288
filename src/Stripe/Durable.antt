-- ===== src/Stripe/Durable.antt =====
-- Publishing and replaying durable records.
use Prim.Native.Nat.{Ordering}
use shard_log.Prelude.{
  ℕ, ◌^◌, ◌≡◌, ◌≢◌, refl, ap, Bool, true, false, none, some, List, [], ◌∷◌, length, nat_eq, ◌==◌,
  ltb, All, arith, Option-cases, Bool-cases, ◌⊎◌, ◌∙◌, inl, inr, if◌then◌else◌,
}
use shard_log.Outcome.{ok, err, Result-cases}
use shard_log.Errors.{LogDbError, LogDbResult, conflicting_record, record_too_large}
use shard_log.Map.Laws.{lookup-insert}
use shard_log.Partition.{TopicPartition, topic_partition_eq}
use shard_log.Query.Types.{DurableLogRecord}
use shard_log.Query.Text.{Unicode}
use shard_log.Query.Paging.{compare_offsets}
use shard_log.Prelude.Sorting.{Ascending}
use shard_log.Stripe.Index.{PartitionIndex}
use shard_log.Stripe.Apply.{
  LogStripe, Surroundings, partition_of, put_partition, index_record, place_record, validate_offset,
  last_record, find_record, existing_record, record_beq, unwrap_offset, pop, apply_durable_new,
  apply_durable, apply_durable_idempotent, Applied,
}
use shard_log.Stripe.StripeState.{IsAppended, IsStripe, pushed}
use shard_log.Stripe.Preservation.{index_record-IsStripe}
use shard_log.Stripe.Interner.{get_elem?}
use shard_log.Stripe.Replay.{record_beq_iff, find_record-cases}
use shard_log.Stripe.Acceptance.{pop-append, validate_offset-Ascending, IsStripe-unchanged}

put_same :
    (s : LogStripe) (tp other : TopicPartition) (p : PartitionIndex)
    → p ≡ partition_of s tp
    → partition_of (put_partition s tp p) other ≡ partition_of s other
unfolding partition_of
put_same s tp other p h = elim (Bool-cases (tp == other)) [
  | inl same_one ↦
      ground (arith, lookup-insert tp other p s.partitions, topic_partition_eq.beq_iff tp other)
  | inr another ↦ ground (arith, lookup-insert tp other p s.partitions)
]

-- What an answer says of the partitions: a record that was published is the last of its partition and
-- visible, and the other partitions are as they were; an error leaves every partition as it was.
abbrev pub Published : LogStripe → LogStripe → DurableLogRecord → LogDbResult ℕ → Type 0
Published s s' r (ok through) =
    (through ≡ r.record_ref.offset)
    × IsAppended (partition_of s r.record_ref.topic_partition).records r
        (partition_of s' r.record_ref.topic_partition)
    × ((other : TopicPartition)
        → r.record_ref.topic_partition ≢ other
        → partition_of s' other ≡ partition_of s other)
Published s s' r (err e) = (tp : TopicPartition) → partition_of s' tp ≡ partition_of s tp

-- An answer without a panic, in a stripe that is still well formed.
abbrev pub Answered : Unicode → LogStripe → DurableLogRecord → Applied → Type 0
Answered u s r applied =
    (answer : LogDbResult ℕ) × (s' : LogStripe) × (applied ≡ some (answer, s'))
    × IsStripe u s'
    × Published s s' r answer

module _ (u : Unicode) (c : Surroundings) (r : DurableLogRecord) (s : LogStripe)
    (well : IsStripe u s) where
  refused : (e : LogDbError) → Answered u s r (some (err e, s))
  refused e = (err e, s, refl, well, λ tp. refl)

  put_back :
      (e : LogDbError) (p : PartitionIndex)
      → p ≡ partition_of s r.record_ref.topic_partition
      → Answered u s r (some (err e, put_partition s r.record_ref.topic_partition p))
  put_back e p h = (
    err e,
    put_partition s r.record_ref.topic_partition p,
    refl,
    IsStripe-unchanged u s _ well (λ tp. put_same s _ tp p h) refl refl,
    λ tp. put_same s _ tp p h,
  )

  sealed_or_indexed :
      validate_offset s r ≡ ok tt
      → (answer : LogDbResult (Unit {0}))
      → Answered u s r (elim answer [
        | err e ↦ some (
          err e,
          put_partition s r.record_ref.topic_partition
              (record (pushed u s well r) { records = pop (pushed u s well r).records }),
        )
        | ok _ ↦
            index_record u c r
              (length (partition_of s r.record_ref.topic_partition).records)
              (pushed u s well r)
              s
      ])
  sealed_or_indexed valid (err e) = put_back e _ (
      ap (λ rs. record (partition_of s r.record_ref.topic_partition) { records = rs })
        (pop-append _ r))
  sealed_or_indexed valid (ok done) =
      let (s', e, w, appended, others) = index_record-IsStripe u s well r c (
        validate_offset-Ascending s r (well.indexed r.record_ref.topic_partition).by_offset
          valid) in
      (ok r.record_ref.offset, s', e, w, (refl, appended, others))

  placed : validate_offset s r ≡ ok tt → Answered u s r (place_record u c r s)
  unfolding place_record
  placed valid =
      by_size (ltb (length (partition_of s r.record_ref.topic_partition).records) (2 ^ 32))
    where
      by_size :
          (fits : Bool)
          → Answered u s r
              (elim (if fits
                then ok (length (partition_of s r.record_ref.topic_partition).records)
                else err record_too_large) [
                  | err e ↦ some (
                    err e,
                    put_partition s r.record_ref.topic_partition
                        (partition_of s r.record_ref.topic_partition),
                  )
                  | ok ordinal ↦ elim c.sealed [
                    | err e ↦ some (
                      err e,
                      put_partition s r.record_ref.topic_partition (record (pushed u s well r) {
                        records = pop (pushed u s well r).records;
                      }),
                    )
                    | ok _ ↦ index_record u c r ordinal (pushed u s well r) s
                  ]
                ])
      by_size true = sealed_or_indexed valid c.sealed
      by_size false = put_back record_too_large (partition_of s r.record_ref.topic_partition) refl

  published_new : Answered u s r (apply_durable_new u c r s)
  unfolding apply_durable_new
  published_new = elim (Result-cases (validate_offset s r)) [
    | inr (e, refused_offset) ↦ rw (apply_durable_new, refused_offset) (refused e)
    | inl (done, valid) ↦ elim (Result-cases c.resolved) [
      | inr (e, unresolved) ↦ rw (apply_durable_new, valid, unresolved) (refused e)
      | inl (found, resolved) ↦ rw (apply_durable_new, valid, resolved) (placed valid)
    ]
  ]

  -- `apply_durable` of a stripe that is well formed does not panic, whatever compression answers, and the
  -- stripe stays well formed. After an Ok the record is the last of its partition, the watermark is its
  -- offset, and the other partitions are as they were; after an error every partition is as it was.
  pub apply_durable-IsStripe : Answered u s r (apply_durable u c r s)
  unfolding apply_durable
  apply_durable-IsStripe = elim (Bool-cases (s.stream_shard_id == r.stream_shard_id)) [
    | inr elsewhere ↦ rw elsewhere (refused _)
    | inl here ↦
        elim (Option-cases
          (find_record r.record_ref.offset (partition_of s r.record_ref.topic_partition).records)) [
            | inr (found, duplicate) ↦ rw (here, duplicate) (refused _)
            | inl new ↦ rw (here, new) published_new
          ]
  ]

-- In records by offset the record that a replay meets is the one with its offset.
existing_record-find_record :
    (offset : ℕ) (records : List DurableLogRecord)
    → Ascending compare_offsets records
    → existing_record offset records ≡ find_record offset records
unfolding existing_record find_record last_record
existing_record-find_record offset [] a = refl
existing_record-find_record offset (x ∷ []) a = ground arith
existing_record-find_record offset (x ∷ y ∷ records) a =
    let (last, e, behind) = last_of (λ z. compare_offsets x z ≡ Ordering.lt) y records a.0 in
    ground (arith, e, behind, existing_record-find_record offset (y ∷ records) a.1)
  where
    last_of :
        (P : DurableLogRecord → Type 0) (z : DurableLogRecord) (zs : List DurableLogRecord)
        → All P (z ∷ zs)
        → (last : DurableLogRecord) × (last_record (z ∷ zs) ≡ some last) × P last
    last_of P z [] h = (z, refl, h.0)
    last_of P z (w ∷ zs) h = last_of P w zs h.1

-- A replay as a lookup of the record with its offset.
apply_durable_idempotent_lem :
    (u : Unicode) (c : Surroundings) (r : DurableLogRecord) (s : LogStripe)
    → IsStripe u s
    → apply_durable_idempotent u c r s
      ≡ elim (find_record r.record_ref.offset
          (partition_of s r.record_ref.topic_partition).records) [
            | none ↦ apply_durable_new u c r s
            | some stored ↦
                if record_beq stored r
                then some (
                  ok (
                      unwrap_offset
                        (partition_of s r.record_ref.topic_partition).indexed_through
                        r.record_ref.offset),
                  s,
                )
                else some
                    (err (conflicting_record r.record_ref.topic_partition r.record_ref.offset), s)
          ]
unfolding apply_durable_idempotent
apply_durable_idempotent_lem u c r s well = rw (
  apply_durable_idempotent,
  existing_record-find_record r.record_ref.offset
      (partition_of s r.record_ref.topic_partition).records
      (well.indexed r.record_ref.topic_partition).by_offset,
)

module _ (u : Unicode) (c : Surroundings) (r : DurableLogRecord) (s : LogStripe)
    (well : IsStripe u s) where
  abbrev replayed : List DurableLogRecord
  replayed = (partition_of s r.record_ref.topic_partition).records

  as_applied :
      find_record r.record_ref.offset replayed ≡ none
      → (s.stream_shard_id ≢ r.stream_shard_id)
        ⊎ (apply_durable_new u c r s ≡ apply_durable u c r s)
  as_applied new = elim (Bool-cases (s.stream_shard_id == r.stream_shard_id)) [
    | inr elsewhere ↦ inl (λ e. ground arith)
    | inl here ↦ inr (unfold apply_durable in rw (here, new) refl)
  ]

  -- A replay into a stripe that is well formed ends in one of three ways. The record is stored, and is
  -- answered with the watermark, without a change. Another record is stored under its offset, and it is
  -- refused, without a change. Or no record is stored under its offset: then `apply_durable`, of a record
  -- of the stripe's shard, does the same, and there is an answer without a panic, behind which the stripe is
  -- well formed, with the record the last of its partition after an Ok and nothing changed after an error.
  pub apply_durable_idempotent_outcome :
      ((i : ℕ) × (get_elem? replayed i ≡ some r)
        × (apply_durable_idempotent u c r s
            ≡ some (
              ok (
                  unwrap_offset
                    (partition_of s r.record_ref.topic_partition).indexed_through
                    r.record_ref.offset),
              s,
            )))
      ⊎ ((i : ℕ) × (x : DurableLogRecord) × (get_elem? replayed i ≡ some x)
          × (x.record_ref.offset ≡ r.record_ref.offset)
          × (x ≢ r)
          × (apply_durable_idempotent u c r s
              ≡ some
                  (err (conflicting_record r.record_ref.topic_partition r.record_ref.offset), s)))
      ⊎ (All (λ (x : DurableLogRecord). x.record_ref.offset ≢ r.record_ref.offset) replayed
          × ((s.stream_shard_id ≢ r.stream_shard_id)
              ⊎ (apply_durable_idempotent u c r s ≡ apply_durable u c r s))
          × Answered u s r (apply_durable_idempotent u c r s))
  apply_durable_idempotent_outcome = elim (find_record-cases r.record_ref.offset replayed) [
    | inl (new, none_stored) ↦
        let e : apply_durable_idempotent u c r s ≡ apply_durable_new u c r s =
          apply_durable_idempotent_lem u c r s well ∙ rw new refl in
        inr (inr (none_stored, rw e (as_applied new), rw e (published_new u c r s well)))
    | inr (i, x, found, at, same_offset) ↦ elim (Bool-cases (record_beq x r)) [
      | inl same ↦ inl (
        i,
        at ∙ ap some ((record_beq_iff x r).0 same),
        apply_durable_idempotent_lem u c r s well ∙ rw found (rw same refl),
      )
      | inr other ↦ inr (
          inl (
            i,
            x,
            at,
            same_offset,
            λ e. absurd (ground (arith, record_beq_iff x r)),
            apply_durable_idempotent_lem u c r s well ∙ rw found (rw other refl),
          ))
    ]
  ]
