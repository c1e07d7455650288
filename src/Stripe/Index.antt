-- ===== src/Stripe/Index.antt =====
-- The index of one partition in src/stripe.rs: its records, the ids and postings of their terms and fields,
-- and the caches of ids. The compression placement of a record, which the index does not read, is left out.
use shard_log.Prelude.{
  ℕ, ◌≡◌, ◌↔◌, refl, Bool, true, ◌&&◌, Option, none, some, List, [], map, nat_eq, Eq, ◌==◌,
  if◌then◌else◌, arith, list_beq,
}
use shard_log.Map.{Map, lookup, insert}
use shard_log.Map.Laws.{lookup-insert}
use shard_log.Partition.{TopicPartition, topic_partition_eq}
use shard_log.NativeProtocol.Wire.{Text, text_eq}
use shard_log.NativeProtocol.Events.{MetadataField}
use shard_log.Query.Types.{DurableLogRecord}
use shard_log.Query.Text.{Unicode, scan_message_terms}
use shard_log.Stripe.Postings.{HotPostingList}
use shard_log.Stripe.Interner.{Ids, intern_all, intern_distinct, push_each}

unfoldable pub normalize_term : Unicode → Text → Text
normalize_term u term = if u.any_uppercase term then u.to_lowercase term else term

-- Equality of pairs of texts.
abbrev pub pair_beq : Text × Text → Text × Text → Bool
pair_beq (a, b) (c, d) = a == c && b == d

pub pair_beq_iff : (p q : Text × Text) → (pair_beq p q ≡ true) ↔ (p ≡ q)
pair_beq_iff (a, b) (c, d) = ground (arith, text_eq.beq_iff a c, text_eq.beq_iff b d)

instance abbrev pub pair_eq : Eq (Text × Text)
pair_eq = record { beq = pair_beq; beq_iff = pair_beq_iff }

-- `PartitionTermIds`, and `PartitionFieldIds` by key and then by value.
abbrev pub TermIds : Type 0
TermIds = Map Text ℕ

abbrev pub FieldIds : Type 0
FieldIds = Map Text (Map Text ℕ)

unfoldable pub find_field : FieldIds → Text × Text → Option ℕ
find_field ids (key, value) = elim (lookup key ids) [
  | none ↦ none
  | some values ↦ lookup value values
]

abbrev pub or_default {ℓ} : {A : Type ℓ} → Option (List A) → List A
or_default none = []
or_default (some xs) = xs

unfoldable pub add_field : FieldIds → Text × Text → ℕ → FieldIds
add_field ids (key, value) id = insert key (insert value id (or_default (lookup key ids))) ids

lookup_nothing : (value : Text) → lookup {V = ℕ} value [] ≡ none
unfolding lookup
lookup_nothing value = refl

pub find_field-add_field :
    (ids : FieldIds) (k : Text × Text) (id : ℕ) (j : Text × Text)
    → find_field (add_field ids k id) j ≡ (if k == j then some id else find_field ids j)
unfolding find_field add_field
find_field-add_field ids (k, v) id (j, w) = ground (
  arith,
  lookup-insert k j (insert v id (or_default (lookup k ids))) ids,
  lookup-insert v w id (or_default (lookup k ids)),
  text_eq.beq_iff k j,
  lookup_nothing w,
)

abbrev pub term_index : Ids Text TermIds
term_index = record {
  find = λ ids k. lookup k ids;
  add = λ ids k id. insert k id ids;
  find-add = λ ids k id j. lookup-insert k j id ids;
}

abbrev pub field_index : Ids (Text × Text) FieldIds
field_index = record { find = find_field; add = add_field; find-add = find_field-add_field }

pub record PartitionIndex : Type 0 where
  pub records : List DurableLogRecord
  pub term_ids : TermIds
  pub term_postings : List HotPostingList
  pub field_ids : FieldIds
  pub field_postings : List HotPostingList
  pub indexed_through : Option ℕ

pub record CachedMessageTerms : Type 0 where
  pub topic_partition : TopicPartition
  pub message : Text
  pub term_ids : List ℕ

pub record CachedFields : Type 0 where
  pub topic_partition : TopicPartition
  pub fields : List MetadataField
  pub field_ids : List ℕ

-- The ids that a cache holds for the message of a record, and for its fields.
unfoldable pub cached_terms : Option CachedMessageTerms → TopicPartition → Text → Option (List ℕ)
cached_terms none tp message = none
cached_terms (some cached) tp message =
    if cached.topic_partition == tp && cached.message == message then some cached.term_ids else none

abbrev pub field_beq : MetadataField → MetadataField → Bool
field_beq a b = a.key == b.key && a.value == b.value

pub field_beq_iff : (a b : MetadataField) → (field_beq a b ≡ true) ↔ (a ≡ b)
field_beq_iff a b = ground (arith, text_eq.beq_iff a.key b.key, text_eq.beq_iff a.value b.value)

instance abbrev pub field_eq : Eq MetadataField
field_eq = record { beq = field_beq; beq_iff = field_beq_iff }

unfoldable pub cached_fields :
    Option CachedFields → TopicPartition → List MetadataField → Option (List ℕ)
unfolding list_beq
cached_fields none tp fields = none
cached_fields (some cached) tp fields =
    if cached.topic_partition == tp && list_beq cached.fields fields
    then some cached.field_ids
    else none

-- A cache, with one entry in each slot.
abbrev pub Slots : Type 0 → Type 0
Slots A = ℕ → Option A

abbrev pub store_slot : {A : Type 0} → ℕ → A → Slots A → Slots A
store_slot slot a cache i = if slot == i then some a else cache i

-- The terms of a message under which it is indexed, and the fields as keys of their ids.
unfoldable pub term_keys : Unicode → Text → List Text
unfolding normalize_term scan_message_terms
term_keys u message = map (normalize_term u) (scan_message_terms u message)

unfoldable pub field_keys : List MetadataField → List (Text × Text)
field_keys fields = map (λ (f : MetadataField). (f.key, f.value)) fields

-- The ids of the terms of a message: those that the cache holds, or those that interning gives.
unfoldable pub resolve_terms :
    Unicode → Option (List ℕ) → Text → PartitionIndex → List ℕ × (TermIds × List HotPostingList)
unfolding term_keys intern_all
resolve_terms u (some ids) message p = (ids, (p.term_ids, p.term_postings))
resolve_terms u none message p =
    intern_all term_index (term_keys u message) [] (p.term_ids, p.term_postings)

unfoldable pub resolve_fields :
    Option (List ℕ)
    → List MetadataField
    → PartitionIndex
    → List ℕ × (FieldIds × List HotPostingList)
unfolding field_keys intern_distinct find_field add_field
resolve_fields (some ids) fields p = (ids, (p.field_ids, p.field_postings))
resolve_fields none fields p =
    intern_distinct field_index [] (field_keys fields) [] (p.field_ids, p.field_postings)

-- `index_terms` and `index_fields` on the partition of the record: the ids, the partition with the ordinal
-- pushed, and the cache. `none` is a panic of an `expect`.
unfoldable pub index_terms :
    Unicode
    → TopicPartition
    → ℕ
    → DurableLogRecord
    → ℕ
    → PartitionIndex
    → Slots CachedMessageTerms
    → Option (List ℕ × (PartitionIndex × Slots CachedMessageTerms))
unfolding cached_terms resolve_terms push_each
index_terms u tp slot r ordinal p cache =
    let hit = cached_terms (cache slot) tp r.message in
    let (ids, (term_ids, postings)) = resolve_terms u hit r.message p in
    let entry : CachedMessageTerms = record {
      topic_partition = tp;
      message = r.message;
      term_ids = ids;
    } in
    elim (push_each ordinal ordinal ids postings) [
      | none ↦ none
      | some pushed ↦ some (
        ids,
        (
          (record p { term_ids = term_ids; term_postings = pushed }),
          elim hit [ none ↦ store_slot slot entry cache | some _ ↦ cache ],
        ),
      )
    ]

unfoldable pub index_fields :
    TopicPartition
    → ℕ
    → DurableLogRecord
    → ℕ
    → PartitionIndex
    → Slots CachedFields
    → Option (List ℕ × (PartitionIndex × Slots CachedFields))
unfolding cached_fields resolve_fields push_each
index_fields tp slot r ordinal p cache =
    let hit = cached_fields (cache slot) tp r.fields in
    let (ids, (field_ids, postings)) = resolve_fields hit r.fields p in
    let entry : CachedFields = record {
      topic_partition = tp;
      fields = r.fields;
      field_ids = ids;
    } in
    elim (push_each ordinal ordinal ids postings) [
      | none ↦ none
      | some pushed ↦ some (
        ids,
        (
          (record p { field_ids = field_ids; field_postings = pushed }),
          elim hit [ none ↦ store_slot slot entry cache | some _ ↦ cache ],
        ),
      )
    ]
