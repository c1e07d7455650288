-- ===== src/Dictionary/Catalog.antt =====
-- `DictionaryCatalogSnapshot` and `DictionaryCatalog`. The catalog is the snapshot that its lock guards;
-- the lock is never poisoned.
use shard_log.Prelude.{
  ℕ, ◌+◌, ◌%◌, ◌^◌, Bool, false, not, Option, none, some, List, [], is_empty, list_beq, nat_eq,
}
use shard_log.Outcome.{ok, ◌>>◌, reject}
use shard_log.Map.{Map, lookup, insert}
use shard_log.Errors.{LogDbResult, empty_dictionary, dictionary_id_conflict}

pub record DictionaryCatalogSnapshot : Type 0 where
  pub generation : ℕ
  pub dictionaries : Map ℕ (List ℕ)
  pub placement_dictionaries : Map ℕ ℕ

pub record DictionaryPublication : Type 0 where
  pub generation : ℕ
  pub placement_id : ℕ
  pub dictionary_id : ℕ

abbrev pub new_catalog : DictionaryCatalogSnapshot
new_catalog = record { generation = 0; dictionaries = []; placement_dictionaries = [] }

unfoldable pub dictionary_for : DictionaryCatalogSnapshot → ℕ → Option (ℕ × List ℕ)
dictionary_for s placement_id = elim (lookup placement_id s.placement_dictionaries) [
  | none ↦ none
  | some dictionary_id ↦ elim (lookup dictionary_id s.dictionaries) [
    | none ↦ none
    | some payload ↦ some (dictionary_id, payload)
  ]
]

unfoldable pub dictionary : DictionaryCatalogSnapshot → ℕ → Option (List ℕ)
dictionary s dictionary_id = lookup dictionary_id s.dictionaries

-- Another payload is known under the id.
unfoldable pub conflicts : Option (List ℕ) → List ℕ → Bool
conflicts none payload = false
conflicts (some existing) payload = not (list_beq existing payload)

-- `entry(id).or_insert(payload)`
abbrev pub or_insert : ℕ → List ℕ → Option (List ℕ) → Map ℕ (List ℕ) → Map ℕ (List ℕ)
or_insert id payload none m = insert id payload m
or_insert id payload (some existing) m = m

-- The next snapshot.
abbrev pub published : DictionaryCatalogSnapshot → ℕ → ℕ → List ℕ → DictionaryCatalogSnapshot
published s placement_id dictionary_id payload = record {
  generation = (s.generation + 1) % 2 ^ 64;
  dictionaries =
      or_insert dictionary_id payload (lookup dictionary_id s.dictionaries) s.dictionaries;
  placement_dictionaries = insert placement_id dictionary_id s.placement_dictionaries;
}

-- The snapshot behind the call, and the publication.
unfoldable pub publish :
    DictionaryCatalogSnapshot
    → ℕ
    → ℕ
    → List ℕ
    → LogDbResult (DictionaryCatalogSnapshot × DictionaryPublication)
publish s placement_id dictionary_id payload = do
  reject (is_empty payload) empty_dictionary
  reject (conflicts (lookup dictionary_id s.dictionaries) payload)
      (dictionary_id_conflict dictionary_id)
  let next = published s placement_id dictionary_id payload
  ok (
    next,
    record {
      generation = next.generation;
      placement_id = placement_id;
      dictionary_id = dictionary_id;
    },
  )
