-- ===== src/Stripe/Acceptance.antt =====
-- Offsets that a partition accepts, what a failed seal puts back, and stripes that differ in nothing.
use Prim.Native.Nat.{Ordering}
use shard_log.Prelude.{
  ℕ, ◌≤◌, ◌<◌, ◌≡◌, refl, sym, ap, subst, ◌∙◌, none, some, List, [], ◌∷◌, ◌++◌, nat_eq, All,
  All-append, arith, Option-cases, inl, inr,
}
use shard_log.Outcome.{ok}
use shard_log.Partition.{TopicPartition, topic_partition_eq}
use shard_log.Query.Types.{DurableLogRecord}
use shard_log.Query.Text.{Unicode}
use shard_log.Query.Paging.{compare_offsets}
use shard_log.Prelude.Sorting.{Ascending, All-imp}
use shard_log.Stripe.IndexState.{IsIndexed}
use shard_log.Stripe.Apply.{LogStripe, partition_of, validate_offset, last_offset, pop}
use shard_log.Stripe.StripeState.{IsStripe, TermsCovered, FieldsCovered}

offsets-le_last :
    (records : List DurableLogRecord) (last : ℕ)
    → Ascending compare_offsets records
    → last_offset records ≡ some last
    → All (λ (x : DurableLogRecord). x.record_ref.offset ≤ last) records
unfolding last_offset
offsets-le_last [] last a e = tt
offsets-le_last (r ∷ []) last a e = (ground arith, tt)
offsets-le_last (r ∷ next ∷ records) last a e =
    let ih = offsets-le_last (next ∷ records) last a.1 e in (below ih.0 a.0.0, ih)
  where
    below :
        next.record_ref.offset ≤ last
        → compare_offsets r next ≡ Ordering.lt
        → r.record_ref.offset ≤ last
    below h k = ground arith

Ascending-last :
    (records : List DurableLogRecord) (r : DurableLogRecord)
    → Ascending compare_offsets records
    → All (λ (x : DurableLogRecord). compare_offsets x r ≡ Ordering.lt) records
    → Ascending compare_offsets (records ++ r ∷ [])
Ascending-last [] r a h = (tt, tt)
Ascending-last (x ∷ records) r a h =
    (All-append _ records (r ∷ []) a.0 (h.0, tt), Ascending-last records r a.1 h.1)

pub pop-append :
    (records : List DurableLogRecord) (r : DurableLogRecord) → pop (records ++ r ∷ []) ≡ records
unfolding pop
pop-append [] r = refl
pop-append (x ∷ []) r = refl
pop-append (x ∷ next ∷ records) r = ap (◌∷◌ x) (pop-append (next ∷ records) r)

-- An offset that is accepted is behind those of the partition.
pub validate_offset-Ascending :
    (s : LogStripe) (r : DurableLogRecord)
    → Ascending compare_offsets (partition_of s r.record_ref.topic_partition).records
    → validate_offset s r ≡ ok tt
    → Ascending compare_offsets ((partition_of s r.record_ref.topic_partition).records ++ r ∷ [])
unfolding validate_offset last_offset
validate_offset-Ascending s r a h =
    elim (Option-cases (last_offset (partition_of s r.record_ref.topic_partition).records)) [
      | inl no_records ↦ first_record _ no_records
      | inr (last, e) ↦
          Ascending-last _ r a
            (All-imp _ _ (λ x k. behind x last k (ground arith)) _ (offsets-le_last _ last a e))
    ]
  where
    last_none :
        (x : DurableLogRecord) (rs : List DurableLogRecord) → last_offset (x ∷ rs) ≡ none → ⊥
    last_none x [] e = cc
    last_none x (y ∷ rs) e = last_none y rs e

    first_record :
        (rs : List DurableLogRecord)
        → last_offset rs ≡ none
        → Ascending compare_offsets (rs ++ r ∷ [])
    first_record [] e = (tt, tt)
    first_record (x ∷ rs) e = absurd (last_none x rs e)

    behind :
        (x : DurableLogRecord) (last : ℕ)
        → x.record_ref.offset ≤ last
        → last < r.record_ref.offset
        → compare_offsets x r ≡ Ordering.lt
    behind x last h k = ground arith

module _ (u : Unicode) (s s' : LogStripe) (well : IsStripe u s) where
  -- The same partitions and caches.
  pub IsStripe-unchanged :
      ((tp : TopicPartition) → partition_of s' tp ≡ partition_of s tp)
      → s'.message_term_cache ≡ s.message_term_cache
      → s'.field_cache ≡ s.field_cache
      → IsStripe u s'
  IsStripe-unchanged h k l = record {
    indexed = λ tp. subst (IsIndexed u) (sym (h tp)) (well.indexed tp);
    terms_cached = λ slot cached e.
        subst (λ p. TermsCovered u p cached.message cached.term_ids)
          (sym (h cached.topic_partition))
          (well.terms_cached slot cached (ap (λ c. c slot) (sym k) ∙ e));
    fields_cached = λ slot cached e.
        subst (λ p. FieldsCovered u p cached.fields cached.field_ids)
          (sym (h cached.topic_partition))
          (well.fields_cached slot cached (ap (λ c. c slot) (sym l) ∙ e));
  }
