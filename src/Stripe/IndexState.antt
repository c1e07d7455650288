-- ===== src/Stripe/IndexState.antt =====
-- The invariant of a partition's index: its postings say which records hold a term or a field.
use shard_log.Prelude.{
  ℕ, ◌≡◌, refl, false, ◌&&◌, ◌||◌, List, [], ◌∷◌, map, length, any, Eq, ◌==◌, All, arith, ap,
  Bool-cases, inl, inr,
}
use shard_log.Prelude.Sorting.{Ascending}
use shard_log.NativeProtocol.Wire.{Text, text_eq}
use shard_log.NativeProtocol.Events.{MetadataField}
use shard_log.Query.Types.{DurableLogRecord, insensitive}
use shard_log.Query.Text.{
  Unicode, is_ascii, eq_ignore_ascii_case, text_equal, message_has_term, scan_message_terms,
}
use shard_log.Query.Matches.{field_equals}
use shard_log.Query.Selection.{has_field}
use shard_log.Query.Paging.{compare_offsets}
use shard_log.Stripe.Postings.{HotPostingList}
use shard_log.Stripe.Interner.{Ids, mem}
use shard_log.Stripe.InternerLaws.{PostingsTo, posted_key, IsInterned}
use shard_log.Stripe.Index.{
  PartitionIndex, term_index, field_index, term_keys, field_keys, normalize_term, pair_eq,
}
use shard_log.Stripe.Ordinals.{at_ordinal}

-- The postings of the keys that `keys_of` takes from a record, for all the records.
pub record IsKeyed {K S : Type 0} ⦃key : Eq K⦄ (t : Ids K S) (keys_of : DurableLogRecord → List K)
    (st : S × List HotPostingList) (records : List DurableLogRecord) : Type 0 where
  pub interned : IsInterned t st
  pub in_order : PostingsTo (length records) st.1
  pub exact : (k : K) (o : ℕ) → posted_key t st k o ≡ at_ordinal records (λ r. mem k (keys_of r)) o

abbrev pub message_keys : Unicode → DurableLogRecord → List Text
message_keys u r = term_keys u r.message

abbrev pub record_field_keys : DurableLogRecord → List (Text × Text)
record_field_keys r = field_keys r.fields

pub record IsIndexed (u : Unicode) (p : PartitionIndex) : Type 0 where
  pub by_offset : Ascending compare_offsets p.records
  pub terms : IsKeyed term_index (message_keys u) (p.term_ids, p.term_postings) p.records
  pub fields : IsKeyed field_index record_field_keys (p.field_ids, p.field_postings) p.records

-- Lower case is the one normal form of a text that has no upper case in it. It fails for a text with a
-- title-case character, such as U+01C5.
abbrev pub Folds : Unicode → Text → Type 0
Folds u t = u.any_uppercase t ≡ false → u.to_lowercase t ≡ t

module _ (u : Unicode) where
  normalize-lowercase : (t : Text) → Folds u t → normalize_term u t ≡ u.to_lowercase t
  unfolding normalize_term
  normalize-lowercase t f = ground arith

  -- Terms are equal without regard to case when their normal forms are.
  normalize-text_equal :
      (a b : Text)
      → Folds u a
      → Folds u b
      → (normalize_term u a == normalize_term u b) ≡ text_equal u a b insensitive
  unfolding text_equal eq_ignore_ascii_case
  normalize-text_equal a b f g =
      rw (normalize-lowercase a f, normalize-lowercase b g)
        (elim (Bool-cases (is_ascii a && is_ascii b)) [
          | inl ascii ↦
              rw (ascii, u.lowercase_ascii a (ground arith), u.lowercase_ascii b (ground arith))
          | inr other ↦ rw other
        ])

  mem-normalized :
      (term : Text) (ts : List Text)
      → Folds u term
      → All (Folds u) ts
      → mem (normalize_term u term) (map (normalize_term u) ts)
        ≡ any (λ t. text_equal u t term insensitive) ts
  unfolding any
  mem-normalized term [] f h = refl
  mem-normalized term (t ∷ ts) f h =
      rw (normalize-text_equal t term h.0 f, mem-normalized term ts f h.1)

  -- A record is indexed under the normal form of a term when its message has the term.
  pub mem-term_keys :
      (term : Text) (r : DurableLogRecord)
      → Folds u term
      → All (Folds u) (scan_message_terms u r.message)
      → mem (normalize_term u term) (message_keys u r) ≡ message_has_term u r.message term
  unfolding term_keys message_has_term
  mem-term_keys term r f h = mem-normalized term (scan_message_terms u r.message) f h

mem-field_pairs :
    (k : Text × Text) (fs : List MetadataField)
    → mem k (map (λ (f : MetadataField). (f.key, f.value)) fs)
      ≡ any (λ (f : MetadataField). f.key == k.0 && f.value == k.1) fs
unfolding any
mem-field_pairs k [] = refl
mem-field_pairs (key, value) (f ∷ fs) =
    ap (λ b. (f.key == key && f.value == value) || b) (mem-field_pairs (key, value) fs)

pub mem-field_keys :
    (k : Text × Text) (r : DurableLogRecord) → mem k (record_field_keys r) ≡ has_field r k
unfolding field_keys field_equals
mem-field_keys (key, value) r = mem-field_pairs (key, value) r.fields
