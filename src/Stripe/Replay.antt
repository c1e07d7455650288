-- ===== src/Stripe/Replay.antt =====
-- The record that is stored under an offset, and equality of records.
use shard_log.Prelude.{
  ℕ, zero, suc, ◌≡◌, ◌≢◌, ◌⊎◌, ◌↔◌, inl, inr, refl, true, none, some, List, [], ◌∷◌, All, arith,
  Bool-cases, list_beq_iff, nat_eq, ◌==◌,
}
use shard_log.Partition.{topic_partition_eq}
use shard_log.NativeProtocol.Wire.{text_eq}
use shard_log.Query.Types.{DurableLogRecord}
use shard_log.Stripe.Interner.{get_elem?}
use shard_log.Stripe.Index.{field_eq}
use shard_log.Stripe.Apply.{find_record, record_beq}

pub record_beq_iff : (a b : DurableLogRecord) → (record_beq a b ≡ true) ↔ (a ≡ b)
unfolding record_beq
record_beq_iff a b = ground (
  arith,
  topic_partition_eq.beq_iff a.record_ref.topic_partition b.record_ref.topic_partition,
  text_eq.beq_iff a.message b.message,
  list_beq_iff a.fields b.fields,
)

-- Either no record has the offset, or the first that has it is found.
pub find_record-cases :
    (offset : ℕ) (records : List DurableLogRecord)
    → ((find_record offset records ≡ none)
        × All (λ (x : DurableLogRecord). x.record_ref.offset ≢ offset) records)
      ⊎ ((i : ℕ) × (x : DurableLogRecord) × (find_record offset records ≡ some x)
          × (get_elem? records i ≡ some x)
          × (x.record_ref.offset ≡ offset))
unfolding find_record
find_record-cases offset [] = inl (refl, tt)
find_record-cases offset (r ∷ records) = elim (Bool-cases (r.record_ref.offset == offset)) [
  | inl here ↦ inr (zero, r, rw here refl, refl, ground arith)
  | inr other ↦ elim (find_record-cases offset records) [
    | inl (e, rest) ↦ inl (rw other e, (λ q. ground arith, rest))
    | inr (i, x, e, at, same) ↦ inr (suc i, x, rw other e, at, same)
  ]
]
