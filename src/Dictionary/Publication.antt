-- ===== src/Dictionary/Publication.antt =====
-- What a publication changes, and what no publication ever changes.
use shard_log.Prelude.{
  ℕ, ◌+◌, ◌%◌, ◌^◌, ◌≡◌, ◌≢◌, ◌⊎◌, refl, ap, ◌∙◌, none, some, List, [], ◌∷◌, arith, list_beq,
  list_beq_iff, Option-cases, Bool-cases, inl, inr, nat_eq, nat_beq_iff,
}
use shard_log.Outcome.{ok, err}
use shard_log.Map.{lookup}
use shard_log.Map.Laws.{lookup-insert}
use shard_log.Errors.{empty_dictionary, dictionary_id_conflict}
use shard_log.Dictionary.Catalog.{
  DictionaryCatalogSnapshot, DictionaryPublication, dictionary_for, dictionary, conflicts,
  published, publish,
}

-- Every placement is assigned to a dictionary of the snapshot.
pub record IsClosed (s : DictionaryCatalogSnapshot) : Type 0 where
  pub assigned :
      (placement id : ℕ)
      → lookup placement s.placement_dictionaries ≡ some id
      → lookup id s.dictionaries ≢ none

module _ (s s' : DictionaryCatalogSnapshot) (placement id : ℕ) (payload : List ℕ)
    (p : DictionaryPublication) (published : publish s placement id payload ≡ ok (s', p)) where
  -- An accepted publication keeps the bytes of every dictionary: what `dictionary` returned before, it
  -- returns after.
  pub dictionary-publish :
      (j : ℕ) (bytes : List ℕ) → dictionary s j ≡ some bytes → dictionary s' j ≡ some bytes
  unfolding dictionary publish conflicts
  dictionary-publish j bytes h =
      ground (arith, lookup-insert id j payload s.dictionaries, nat_beq_iff id j)

  -- After an accepted publication its placement has exactly the published dictionary.
  pub dictionary_for-publish_self : dictionary_for s' placement ≡ some (id, payload)
  unfolding dictionary_for publish conflicts
  dictionary_for-publish_self = elim (Option-cases (lookup id s.dictionaries)) [
    | inl e ↦ ground (
      arith,
      lookup-insert id id payload s.dictionaries,
      lookup-insert placement placement id s.placement_dictionaries,
    )
    | inr (existing, e) ↦ ground (
      arith,
      lookup-insert placement placement id s.placement_dictionaries,
      list_beq_iff existing payload,
    )
  ]

  -- Where every assigned dictionary is in the snapshot, an accepted publication leaves what the other
  -- placements have.
  pub dictionary_for-publish_ne :
      (other : ℕ)
      → IsClosed s
      → other ≢ placement
      → dictionary_for s' other ≡ dictionary_for s other
  unfolding dictionary_for publish
  dictionary_for-publish_ne other closed ne = grind (
    arith,
    lookup-insert placement other id s.placement_dictionaries,
    λ (j : ℕ). lookup-insert id j payload s.dictionaries,
    closed.assigned other,
  )

  -- Where every assigned dictionary is in the snapshot, it still is after an accepted publication.
  pub publish-IsClosed : IsClosed s → IsClosed s'
  unfolding publish
  publish-IsClosed closed = record {
    assigned = λ q j h. ground (
      arith,
      lookup-insert placement q id s.placement_dictionaries,
      lookup-insert id j payload s.dictionaries,
      closed.assigned q j,
    );
  }

-- `publish` refuses an empty dictionary, and an id that stands for other bytes. It accepts bytes that are
-- not empty under an id that is unknown or stands for them, and then the generation is the next one.
pub publish_outcome :
    (s : DictionaryCatalogSnapshot) (placement id : ℕ) (payload : List ℕ)
    → ((payload ≡ []) × (publish s placement id payload ≡ err empty_dictionary))
      ⊎ ((bytes : List ℕ) × (dictionary s id ≡ some bytes)
          × (bytes ≢ payload)
          × (payload ≢ [])
          × (publish s placement id payload ≡ err (dictionary_id_conflict id)))
      ⊎ ((s' : DictionaryCatalogSnapshot) × (p : DictionaryPublication) × (publish s placement id
              payload
            ≡ ok (s', p))
          × (payload ≢ [])
          × ((dictionary s id ≡ none) ⊎ (dictionary s id ≡ some payload))
          × (s'.generation ≡ (s.generation + 1) % 2 ^ 64)
          × (p ≡ record {
            generation = s'.generation;
            placement_id = placement;
            dictionary_id = id;
          }))
unfolding publish conflicts dictionary
publish_outcome s placement id [] = inl (refl, refl)
publish_outcome s placement id (x ∷ xs) = elim (Option-cases (lookup id s.dictionaries)) [
  | inl e ↦ inr (inr (published s placement id (x ∷ xs), _, rw e, λ q. cc, inl e, refl, refl))
  | inr (bytes, e) ↦ elim (Bool-cases (list_beq bytes (x ∷ xs))) [
    | inl same ↦ inr (
        inr (
          published s placement id (x ∷ xs),
          _,
          rw (e, conflicts) (rw same),
          λ q. cc,
          inr (e ∙ ap some ((list_beq_iff bytes (x ∷ xs)).0 same)),
          refl,
          refl,
        ))
    | inr other ↦ inr (
        inl (
          bytes,
          e,
          λ q. ground (arith, list_beq_iff bytes (x ∷ xs)),
          λ q. cc,
          rw (e, conflicts) (rw other),
        ))
  ]
]
