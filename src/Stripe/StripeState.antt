-- ===== src/Stripe/StripeState.antt =====
-- The invariant of a stripe, and what interning or a cache answers for a record.
use shard_log.Prelude.{
  ℕ, ◌≡◌, subst, ◌&&◌, Option, none, some, List, [], ◌∷◌, ◌++◌, length, nat_eq, ◌==◌, list_beq,
  list_beq_iff, arith, Bool-cases, inl, inr,
}
use shard_log.Outcome.{ok}
use shard_log.Map.{insert}
use shard_log.Partition.{TopicPartition, topic_partition_eq}
use shard_log.NativeProtocol.Wire.{Text, text_eq}
use shard_log.NativeProtocol.Events.{MetadataField}
use shard_log.Query.Types.{DurableLogRecord}
use shard_log.Query.Text.{Unicode}
use shard_log.Stripe.Postings.{HotPostingList}
use shard_log.Stripe.Interner.{mem, push_each}
use shard_log.Stripe.InternerLaws.{Extends-refl}
use shard_log.Stripe.Publication.{Covers, IsResult, intern_all-IsResult, intern_distinct-IsResult}
use shard_log.Stripe.Index.{
  PartitionIndex, TermIds, FieldIds, Slots, CachedMessageTerms, CachedFields, store_slot,
  term_index, field_index, term_keys, field_keys, cached_terms, cached_fields, resolve_terms,
  resolve_fields, index_terms, index_fields, field_eq, pair_eq,
}
use shard_log.Stripe.IndexState.{IsIndexed, message_keys, record_field_keys}
use shard_log.Stripe.Apply.{LogStripe, Surroundings, partition_of, index_record}

-- The record is the last one, and is visible.
abbrev pub IsAppended : List DurableLogRecord → DurableLogRecord → PartitionIndex → Type 0
IsAppended records r p =
    (p.records ≡ records ++ r ∷ []) × (p.indexed_through ≡ some r.record_ref.offset)

module _ (u : Unicode) where
  abbrev pub TermsCovered : PartitionIndex → Text → List ℕ → Type 0
  TermsCovered p message ids =
      Covers term_index (p.term_ids, p.term_postings) (λ k. mem k (term_keys u message)) ids

  abbrev pub FieldsCovered : PartitionIndex → List MetadataField → List ℕ → Type 0
  FieldsCovered p fields ids =
      Covers field_index (p.field_ids, p.field_postings) (λ k. mem k (field_keys fields)) ids

  pub record IsStripe (s : LogStripe) : Type 0 where
    pub indexed : (tp : TopicPartition) → IsIndexed u (partition_of s tp)
    pub terms_cached :
        (slot : ℕ) (cached : CachedMessageTerms)
        → s.message_term_cache slot ≡ some cached
        → TermsCovered (partition_of s cached.topic_partition) cached.message cached.term_ids
    pub fields_cached :
        (slot : ℕ) (cached : CachedFields)
        → s.field_cache slot ≡ some cached
        → FieldsCovered (partition_of s cached.topic_partition) cached.fields cached.field_ids

  module _ (s : LogStripe) (well : IsStripe s) (r : DurableLogRecord) where
    abbrev pub tp : TopicPartition
    tp = r.record_ref.topic_partition

    abbrev pub before : PartitionIndex
    before = partition_of s tp

    abbrev pub pushed : PartitionIndex
    pushed = record before { records = before.records ++ r ∷ [] }

    -- The cache's ids, or those of interning, are the ids of the terms of the message.
    pub hit_terms :
        (slot : ℕ) (entry : Option CachedMessageTerms)
        → s.message_term_cache slot ≡ entry
        → IsResult term_index
            (before.term_ids, before.term_postings)
            (λ k. mem k (message_keys u r))
            (resolve_terms u (cached_terms entry tp r.message) r.message pushed)
    unfolding resolve_terms cached_terms
    hit_terms slot none e =
        intern_all-IsResult term_index (term_keys u r.message)
          (before.term_ids, before.term_postings) (well.indexed tp).terms.interned
    hit_terms slot (some cached) e =
        elim (Bool-cases (cached.topic_partition == tp && cached.message == r.message)) [
          | inl hit ↦ rw hit (record {
            interned = (well.indexed tp).terms.interned;
            extends = Extends-refl term_index (before.term_ids, before.term_postings);
            covers =
                subst (λ m. TermsCovered before m cached.term_ids)
                  ((text_eq.beq_iff cached.message r.message).0 (ground arith))
                  (subst (λ t. TermsCovered (partition_of s t) cached.message cached.term_ids)
                    ((topic_partition_eq.beq_iff cached.topic_partition tp).0 (ground arith))
                    (well.terms_cached slot cached e));
          })
          | inr miss ↦ rw miss (
              intern_all-IsResult term_index (term_keys u r.message)
                (before.term_ids, before.term_postings) (well.indexed tp).terms.interned)
        ]

    pub hit_fields :
        (slot : ℕ) (entry : Option CachedFields)
        → s.field_cache slot ≡ entry
        → (p : PartitionIndex) → p.field_ids ≡ before.field_ids
        → p.field_postings ≡ before.field_postings
        → IsResult field_index
            (before.field_ids, before.field_postings)
            (λ k. mem k (record_field_keys r))
            (resolve_fields (cached_fields entry tp r.fields) r.fields p)
    unfolding resolve_fields cached_fields
    hit_fields slot none e p a b =
        rw (a, b)
          (intern_distinct-IsResult field_index (field_keys r.fields)
            (before.field_ids, before.field_postings) (well.indexed tp).fields.interned)
    hit_fields slot (some cached) e p a b =
        elim (Bool-cases (cached.topic_partition == tp && list_beq cached.fields r.fields)) [
          | inl hit ↦
              rw (hit, a, b)
                (record {
                  interned = (well.indexed tp).fields.interned;
                  extends = Extends-refl field_index (before.field_ids, before.field_postings);
                  covers =
                      subst (λ m. FieldsCovered before m cached.field_ids)
                        ((list_beq_iff cached.fields r.fields).0 (ground arith))
                        (subst
                          (λ t. FieldsCovered (partition_of s t) cached.fields cached.field_ids)
                          ((topic_partition_eq.beq_iff cached.topic_partition tp).0 (ground arith))
                          (well.fields_cached slot cached e));
                })
          | inr miss ↦
              rw (miss, a, b)
                (intern_distinct-IsResult field_index (field_keys r.fields)
                  (before.field_ids, before.field_postings) (well.indexed tp).fields.interned)
        ]

    abbrev pub term_result : ℕ → List ℕ × (TermIds × List HotPostingList)
    term_result slot =
        resolve_terms u (cached_terms (s.message_term_cache slot) tp r.message) r.message pushed

    -- The partition of a record with its terms indexed.
    abbrev pub with_terms : ℕ → List HotPostingList → PartitionIndex
    with_terms slot ps = record pushed { term_ids = (term_result slot).1.0; term_postings = ps }

    abbrev pub field_result :
        ℕ → ℕ → List HotPostingList → List ℕ × (FieldIds × List HotPostingList)
    field_result term_slot slot ps =
        resolve_fields (cached_fields (s.field_cache slot) tp r.fields) r.fields
          (with_terms term_slot ps)

    abbrev pub indexed_with : ℕ → ℕ → List HotPostingList → List HotPostingList → PartitionIndex
    indexed_with term_slot slot ps fs = record (with_terms term_slot ps) {
      field_ids = (field_result term_slot slot ps).1.0;
      field_postings = fs;
      indexed_through = some r.record_ref.offset;
    }

    abbrev pub term_entry : ℕ → CachedMessageTerms
    term_entry slot = record {
      topic_partition = tp;
      message = r.message;
      term_ids = (term_result slot).0;
    }

    abbrev pub field_entry : ℕ → ℕ → List HotPostingList → CachedFields
    field_entry term_slot slot ps = record {
      topic_partition = tp;
      fields = r.fields;
      field_ids = (field_result term_slot slot ps).0;
    }

    abbrev pub keep_or_store : {A : Type 0} → Option (List ℕ) → ℕ → A → Slots A → Slots A
    keep_or_store hit slot entry cache = elim hit [
      | none ↦ store_slot slot entry cache
      | some _ ↦ cache
    ]

    abbrev pub after_index : Surroundings → List HotPostingList → List HotPostingList → LogStripe
    after_index c ps fs = record s {
      partitions = insert tp (indexed_with c.term_slot c.field_slot ps fs) s.partitions;
      message_term_cache =
          keep_or_store (cached_terms (s.message_term_cache c.term_slot) tp r.message) c.term_slot
            (term_entry c.term_slot) s.message_term_cache;
      field_cache =
          keep_or_store (cached_fields (s.field_cache c.field_slot) tp r.fields) c.field_slot
            (field_entry c.term_slot c.field_slot ps) s.field_cache;
    }

    pub index_record_eq :
        (c : Surroundings) (ps fs : List HotPostingList)
        → push_each
            (length before.records)
            (length before.records)
            (term_result c.term_slot).0
            (term_result c.term_slot).1.1
          ≡ some ps
        → push_each
            (length before.records)
            (length before.records)
            (field_result c.term_slot c.field_slot ps).0
            (field_result c.term_slot c.field_slot ps).1.1
          ≡ some fs
        → index_record u c r (length before.records) pushed s
          ≡ some (ok r.record_ref.offset, after_index c ps fs)
    unfolding index_record index_terms index_fields
    index_record_eq c ps fs a b = rw (index_record, index_terms, a, index_fields, b)
