-- ===== src/Stripe/Preservation.antt =====
-- A stripe stays well formed under the publication of a record: the postings of every partition are right,
-- and so are the ids that the caches hold.
use shard_log.Prelude.{
  ℕ, ◌≡◌, ◌≢◌, refl, sym, subst, ◌∙◌, true, false, Option, none, some, List, [], ◌∷◌, ◌++◌, length,
  nat_eq, ◌==◌, ◌⊎◌, arith, Bool-cases, inl, inr, if◌then◌else◌,
}
use shard_log.Outcome.{ok}
use shard_log.Map.{lookup, insert}
use shard_log.Map.Laws.{lookup-insert}
use shard_log.Partition.{TopicPartition, topic_partition_eq}
use shard_log.NativeProtocol.Wire.{Text, text_eq}
use shard_log.NativeProtocol.Events.{MetadataField}
use shard_log.Query.Types.{DurableLogRecord}
use shard_log.Query.Text.{Unicode}
use shard_log.Query.Paging.{compare_offsets}
use shard_log.Prelude.Sorting.{Ascending}
use shard_log.Stripe.Postings.{HotPostingList}
use shard_log.Stripe.Keyed.{IsPushed, push_each-IsPushed}
use shard_log.Stripe.Index.{
  PartitionIndex, Slots, CachedMessageTerms, CachedFields, term_index, field_index, cached_terms,
  cached_fields, field_eq, pair_eq,
}
use shard_log.Stripe.IndexState.{IsIndexed, message_keys, record_field_keys}
use shard_log.Stripe.Apply.{LogStripe, Surroundings, partition_of, unwrap_index, index_record}
use shard_log.Stripe.StripeState.{
  IsAppended, TermsCovered, FieldsCovered, IsStripe, tp, before, pushed, hit_terms, hit_fields,
  term_result, with_terms, field_result, indexed_with, term_entry, field_entry, keep_or_store,
  after_index, index_record_eq,
}

module _ (u : Unicode) where
  module _ (s : LogStripe) (well : IsStripe u s) (r : DurableLogRecord) where
    partition_after :
        (p : PartitionIndex) (other : TopicPartition)
        → unwrap_index (lookup other (insert (tp u s well r) p s.partitions))
          ≡ (if (tp u s well r) == other then p else partition_of s other)
    unfolding partition_of
    partition_after p other = ground (arith, lookup-insert (tp u s well r) other p s.partitions)

    stored :
        {A : Type 0} (hit : Option (List ℕ)) (at : ℕ) (entry : A) (cache : Slots A) (slot : ℕ)
        (a : A)
        → (keep_or_store u s well r) hit at entry cache slot ≡ some a
        → (a ≡ entry) ⊎ (cache slot ≡ some a)
    stored (some ids) at entry cache slot a e = inr e
    stored none at entry cache slot a e = elim (Bool-cases (at == slot)) [
      | inl here ↦ inl (ground arith)
      | inr there ↦ inr (ground arith)
    ]

    module _ (c : Surroundings) (ps fs : List HotPostingList)
        (t : IsPushed term_index
          (message_keys u)
          ((before u s well r).term_ids, (before u s well r).term_postings)
          (before u s well r).records
          r
          ((term_result u s well r) c.term_slot).0
          ((term_result u s well r) c.term_slot).1.0
          ps)
        (f : IsPushed field_index record_field_keys
          ((before u s well r).field_ids, (before u s well r).field_postings)
          (before u s well r).records
          r
          ((field_result u s well r) c.term_slot c.field_slot ps).0
          ((field_result u s well r) c.term_slot c.field_slot ps).1.0
          fs)
        (ascending : Ascending compare_offsets ((before u s well r).records ++ r ∷ [])) where
      abbrev p_after : PartitionIndex
      p_after = (indexed_with u s well r) c.term_slot c.field_slot ps fs

      -- What holds of the partition with the record and of the others holds of all.
      in_each :
          (P : PartitionIndex → Type 0) (other : TopicPartition)
          → ((tp u s well r) ≡ other → P p_after)
          → P (partition_of s other)
          → P (partition_of ((after_index u s well r) c ps fs) other)
      unfolding partition_of
      in_each P other own rest = elim (Bool-cases ((tp u s well r) == other)) [
        | inl same_one ↦
            subst P (sym (partition_after p_after other ∙ chosen same_one))
              (own ((topic_partition_eq.beq_iff (tp u s well r) other).0 same_one))
        | inr another ↦ subst P (sym (partition_after p_after other ∙ left another)) rest
      ]
        where
          chosen :
              ((tp u s well r) == other) ≡ true
              → (if (tp u s well r) == other then p_after else partition_of s other) ≡ p_after
          chosen h = rw h

          left :
              ((tp u s well r) == other) ≡ false
              → (if (tp u s well r) == other then p_after else partition_of s other)
                ≡ partition_of s other
          left h = rw h

      in_own :
          (P : PartitionIndex → Type 0)
          → P p_after
          → P (partition_of ((after_index u s well r) c ps fs) (tp u s well r))
      unfolding partition_of
      in_own P h = subst P (sym (partition_after p_after (tp u s well r) ∙ chosen)) h
        where
          chosen :
              (if (tp u s well r) == (tp u s well r)
                then p_after
                else partition_of s (tp u s well r))
              ≡ p_after
          chosen = rw ((topic_partition_eq.beq_iff (tp u s well r) (tp u s well r)).1 refl)

      terms_kept :
          (other : TopicPartition) (message : Text) (ids : List ℕ)
          → (TermsCovered u) (partition_of s other) message ids
          → (TermsCovered u) (partition_of ((after_index u s well r) c ps fs) other) message ids
      terms_kept other message ids h =
          in_each (λ p. (TermsCovered u) p message ids) other
            (λ e.
              t.kept _ ids (subst (λ o. (TermsCovered u) (partition_of s o) message ids) (sym e) h))
            h

      fields_kept :
          (other : TopicPartition) (fields : List MetadataField) (ids : List ℕ)
          → (FieldsCovered u) (partition_of s other) fields ids
          → (FieldsCovered u) (partition_of ((after_index u s well r) c ps fs) other) fields ids
      fields_kept other fields ids h =
          in_each (λ p. (FieldsCovered u) p fields ids) other
            (λ e.
              f.kept _ ids (subst (λ o. (FieldsCovered u) (partition_of s o) fields ids) (sym e) h))
            h

      after_index-IsStripe : (IsStripe u) ((after_index u s well r) c ps fs)
      after_index-IsStripe = record {
        indexed = λ other.
            in_each (IsIndexed u) other
              (λ e. record { by_offset = ascending; terms = t.keyed; fields = f.keyed })
              (well.indexed other);
        terms_cached = λ slot cached e.
            elim (stored (cached_terms (s.message_term_cache c.term_slot) (tp u s well r) r.message)
              c.term_slot ((term_entry u s well r) c.term_slot) s.message_term_cache slot cached
              e) [
                | inl new ↦
                    subst
                      (λ (x : CachedMessageTerms).
                        (TermsCovered u)
                          (partition_of ((after_index u s well r) c ps fs) x.topic_partition)
                          x.message x.term_ids)
                      (sym new)
                      (in_own
                        (λ p. (TermsCovered u) p r.message ((term_result u s well r) c.term_slot).0)
                        t.covers)
                | inr old ↦
                    terms_kept cached.topic_partition cached.message cached.term_ids
                      (well.terms_cached slot cached old)
              ];
        fields_cached = λ slot cached e.
            elim (stored (cached_fields (s.field_cache c.field_slot) (tp u s well r) r.fields)
              c.field_slot ((field_entry u s well r) c.term_slot c.field_slot ps) s.field_cache slot
              cached e) [
                | inl new ↦
                    subst
                      (λ (x : CachedFields).
                        (FieldsCovered u)
                          (partition_of ((after_index u s well r) c ps fs) x.topic_partition)
                          x.fields x.field_ids)
                      (sym new)
                      (in_own
                        (λ p.
                          (FieldsCovered u) p r.fields
                            ((field_result u s well r) c.term_slot c.field_slot ps).0)
                        f.covers)
                | inr old ↦
                    fields_kept cached.topic_partition cached.fields cached.field_ids
                      (well.fields_cached slot cached old)
              ];
      }

    -- A record behind those of its partition is indexed without a panic, and the stripe stays well formed.
    pub index_record-IsStripe :
        (c : Surroundings)
        → Ascending compare_offsets ((before u s well r).records ++ r ∷ [])
        → (s' : LogStripe) × (index_record u c r
              (length (before u s well r).records)
              (pushed u s well r)
              s
            ≡ some (ok r.record_ref.offset, s'))
          × (IsStripe u) s'
          × IsAppended (before u s well r).records r (partition_of s' (tp u s well r))
          × ((other : TopicPartition)
              → (tp u s well r) ≢ other
              → partition_of s' other ≡ partition_of s other)
    index_record-IsStripe c ascending =
        let (ps, a, t) =
          push_each-IsPushed term_index (message_keys u)
            ((before u s well r).term_ids, (before u s well r).term_postings)
            (before u s well r).records r ((term_result u s well r) c.term_slot)
            (well.indexed (tp u s well r)).terms
            ((hit_terms u s well r) c.term_slot (s.message_term_cache c.term_slot) refl) in
        let (fs, b, f) =
          push_each-IsPushed field_index record_field_keys
            ((before u s well r).field_ids, (before u s well r).field_postings)
            (before u s well r).records r ((field_result u s well r) c.term_slot c.field_slot ps)
            (well.indexed (tp u s well r)).fields
            ((hit_fields u s well r) c.field_slot (s.field_cache c.field_slot) refl
              ((with_terms u s well r) c.term_slot ps) refl refl) in
        (
          (after_index u s well r) c ps fs,
          (index_record_eq u s well r) c ps fs a b,
          after_index-IsStripe c ps fs t f ascending,
          in_own c ps fs t f ascending (IsAppended (before u s well r).records r) (refl, refl),
          λ other apart.
              in_each c ps fs t f ascending (λ p. p ≡ partition_of s other) other
                (λ e. absurd (apart e)) refl,
        )
