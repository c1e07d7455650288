-- ===== src/Dictionary/Tests.antt =====
-- Runs of the catalog and of the cache, and their theorems at concrete inputs.
use shard_log.Prelude.{
  ℕ, ◌+◌, ◌≤◌, ◌≡◌, ◌≢◌, ◌⊎◌, ◌%◌, ◌^◌, refl, Option, none, some, List, [], ◌∷◌, arith, nat_eq,
  list_beq, if◌then◌else◌, ◌==◌,
}
use mathlib.Core.Option
use shard_log.Outcome.{ok, err}
use shard_log.Errors.{empty_dictionary, dictionary_id_conflict}
use shard_log.Map.{lookup, insert, remove}
use shard_log.Dictionary.Catalog.{
  DictionaryCatalogSnapshot, DictionaryPublication, new_catalog, dictionary_for, dictionary,
  conflicts, published, publish,
}
use shard_log.Dictionary.Cache.{
  CachedDictionary, DictionaryCache, oldest, remove_entry, evict, store, insert_dictionary,
  payload_of, touch, tick, get,
}
use shard_log.Dictionary.Publication.{
  IsClosed, dictionary-publish, dictionary_for-publish_self, dictionary_for-publish_ne,
  publish-IsClosed, publish_outcome,
}
use shard_log.Dictionary.CacheLaws.{
  IsValid, insert_dictionary_lem, insert_dictionary_outcome, get_lem, Insertion,
}

abbrev one_dictionary : DictionaryCatalogSnapshot
one_dictionary = published new_catalog 4 70 (1 ∷ 2 ∷ [])

abbrev publication : DictionaryPublication
publication = record { generation = 2; placement_id = 5; dictionary_id = 71 }

publish_second :
    publish one_dictionary 5 71 (3 ∷ []) ≡ ok (published one_dictionary 5 71 (3 ∷ []), publication)
unfolding publish conflicts lookup insert remove list_beq
publish_second = refl

one-IsClosed : IsClosed one_dictionary
unfolding lookup insert remove
one-IsClosed = record { assigned = λ placement id h. ground arith }

dictionary-publish_example :
    dictionary (published one_dictionary 5 71 (3 ∷ [])) 70 ≡ some (1 ∷ 2 ∷ [])
unfolding dictionary lookup insert remove
dictionary-publish_example =
    dictionary-publish one_dictionary (published one_dictionary 5 71 (3 ∷ [])) 5 71 (3 ∷ [])
      publication publish_second 70 (1 ∷ 2 ∷ []) refl

dictionary_for-publish_self_example :
    dictionary_for (published one_dictionary 5 71 (3 ∷ [])) 5 ≡ some (71, 3 ∷ [])
dictionary_for-publish_self_example =
    dictionary_for-publish_self one_dictionary (published one_dictionary 5 71 (3 ∷ [])) 5 71
      (3 ∷ []) publication publish_second

dictionary_for-publish_ne_example :
    dictionary_for (published one_dictionary 5 71 (3 ∷ [])) 4 ≡ dictionary_for one_dictionary 4
dictionary_for-publish_ne_example =
    dictionary_for-publish_ne one_dictionary (published one_dictionary 5 71 (3 ∷ [])) 5 71 (3 ∷ [])
      publication publish_second 4 one-IsClosed (omega arith)

publish-IsClosed_example : IsClosed (published one_dictionary 5 71 (3 ∷ []))
publish-IsClosed_example =
    publish-IsClosed one_dictionary (published one_dictionary 5 71 (3 ∷ [])) 5 71 (3 ∷ [])
      publication publish_second one-IsClosed

abbrev one_entry : CachedDictionary
one_entry = record { payload = 1 ∷ 2 ∷ []; last_used = 1 }

abbrev small_cache : DictionaryCache
small_cache = record {
  capacity_bytes = 3;
  stored_bytes = 2;
  clock = 1;
  entries = (70, one_entry) ∷ [];
}

small-IsValid : IsValid small_cache
unfolding lookup
small-IsValid = record {
  counted = record { unique = (refl, tt); counted = refl };
  in_capacity = omega arith;
  recent = λ j e h. ground arith;
}

-- The new dictionary does not fit beside the old one, which is dropped.
abbrev after_insert : DictionaryCache
after_insert = record {
  capacity_bytes = 3;
  stored_bytes = 2;
  clock = 2;
  entries = (71, record { payload = 3 ∷ 4 ∷ []; last_used = 2 }) ∷ [];
}

insert_second : insert_dictionary small_cache 71 (3 ∷ 4 ∷ []) ≡ ok (some (after_insert, 70 ∷ []))
unfolding insert_dictionary conflicts store evict oldest remove_entry lookup insert remove
insert_second = refl

get_lem_example :
    ((get small_cache 70).1 ≡ payload_of (lookup 70 small_cache.entries))
    × IsValid (get small_cache 70).0
    × ((get small_cache 70).0.capacity_bytes ≡ 3)
    × ((get small_cache 70).0.stored_bytes ≡ 2)
    × ((get small_cache 70).0.clock ≡ 2)
    × ((j : ℕ)
        → lookup j (get small_cache 70).0.entries ≡ (
            if 70 == j
            then Option.map (touch 2) (lookup j small_cache.entries)
            else lookup j small_cache.entries))
get_lem_example = get_lem small_cache 70 small-IsValid (omega arith)

abbrev Inserted : DictionaryCache → ℕ → List ℕ → Option (DictionaryCache × List ℕ) → Type 0
Inserted c id payload outcome =
    (r : DictionaryCache × List ℕ) × (outcome ≡ some r)
    × IsValid r.0
    × (lookup id r.0.entries ≡ some (record { payload = payload; last_used = tick c.clock }))
    × ((j : ℕ) (f : CachedDictionary)
        → id ≢ j
        → lookup j r.0.entries ≡ some f
        → lookup j c.entries ≡ some f)
    × ((j k : ℕ) (e f : CachedDictionary)
        → id ≢ j
        → lookup j c.entries ≡ some e
        → lookup j r.0.entries ≡ none
        → lookup k r.0.entries ≡ some f
        → e.last_used ≤ f.last_used)

insert_dictionary_lem_example : Inserted small_cache 71 (3 ∷ 4 ∷ []) (some (after_insert, 70 ∷ []))
insert_dictionary_lem_example =
    insert_dictionary_lem small_cache 71 (3 ∷ 4 ∷ []) small-IsValid (omega arith) insert_second

publish_outcome_example :
    ((◌≡◌ {A = List ℕ} (9 ∷ []) []) × (publish one_dictionary 5 70 (9 ∷ []) ≡ err empty_dictionary))
    ⊎ ((bytes : List ℕ) × (dictionary one_dictionary 70 ≡ some bytes)
        × (bytes ≢ 9 ∷ [])
        × (◌≢◌ {A = List ℕ} (9 ∷ []) [])
        × (publish one_dictionary 5 70 (9 ∷ []) ≡ err (dictionary_id_conflict 70)))
    ⊎ ((s' : DictionaryCatalogSnapshot) × (p : DictionaryPublication) × (publish one_dictionary 5 70
            (9 ∷ [])
          ≡ ok (s', p))
        × (◌≢◌ {A = List ℕ} (9 ∷ []) [])
        × ((dictionary one_dictionary 70 ≡ none) ⊎ (dictionary one_dictionary 70 ≡ some (9 ∷ [])))
        × (s'.generation ≡ (1 + 1) % 2 ^ 64)
        × (p ≡ record { generation = s'.generation; placement_id = 5; dictionary_id = 70 }))
publish_outcome_example = publish_outcome one_dictionary 5 70 (9 ∷ [])

insert_dictionary_outcome_example : Insertion small_cache 70 (9 ∷ [])
insert_dictionary_outcome_example = insert_dictionary_outcome small_cache 70 (9 ∷ []) small-IsValid
