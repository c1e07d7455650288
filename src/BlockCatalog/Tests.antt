-- ===== src/BlockCatalog/Tests.antt =====
-- A block that is sealed and then offloaded.
use shard_log.Prelude.{ℕ, ◌≡◌, ◌≢◌, ◌⊎◌, refl, none, some, [], ◌∷◌, arith, subst}
use shard_log.Outcome.{ok, err}
use shard_log.Map.{lookup, insert, remove}
use shard_log.Errors.{unknown_block}
use shard_log.BlockCatalog.Catalog.{
  BlockDescriptor, BlockCatalog, zstd, empty_catalog, get, staged_payload, seal,
  mark_offloaded_range,
}
use shard_log.BlockCatalog.Staging.{IsValid, seal_lem, mark_offloaded_range_outcome}

abbrev small_block : BlockDescriptor
small_block = record {
  block_id = 9;
  stream_shard_id = 0;
  topic_partition = record { topic_id = 1; partition_id = 0 };
  source_compression_cohort = 0;
  placement_id = 2;
  dictionary_id = none;
  compression_codec = zstd;
  compression_level = 3;
  first_offset = 0;
  last_offset = 4;
  record_count = 5;
  source_bytes = 100;
  structural_bytes = 60;
  stored_bytes = 2;
  min_timestamp_unix_nanos = 7;
  max_timestamp_unix_nanos = 8;
  compression_temperature = 0;
  compression_shape_hash = 0;
  compression_temperature_variance_q8 = 0;
  max_compression_temperature_deviation = 0;
  object_key = none;
  object_offset = none;
}

empty-IsValid : IsValid empty_catalog
unfolding get staged_payload lookup
empty-IsValid = record {
  below = λ j b h. absurd (ground arith);
  staged = λ j b h n. absurd (ground arith);
  offloaded = λ j b key h n. absurd (ground arith);
  known = λ j h. refl;
}

seal_lem_example :
    ((seal empty_catalog small_block (1 ∷ 2 ∷ [])).1 ≡ record small_block { block_id = 0 })
    × ((seal empty_catalog small_block (1 ∷ 2 ∷ [])).0.next_block_id ≡ 1)
    × (get empty_catalog (seal empty_catalog small_block (1 ∷ 2 ∷ [])).1.block_id ≡ none)
    × (get
          (seal empty_catalog small_block (1 ∷ 2 ∷ [])).0
          (seal empty_catalog small_block (1 ∷ 2 ∷ [])).1.block_id
        ≡ some (seal empty_catalog small_block (1 ∷ 2 ∷ [])).1)
    × (staged_payload
          (seal empty_catalog small_block (1 ∷ 2 ∷ [])).0
          (seal empty_catalog small_block (1 ∷ 2 ∷ [])).1.block_id
        ≡ some (1 ∷ 2 ∷ []))
    × ((j : ℕ)
        → j ≢ (seal empty_catalog small_block (1 ∷ 2 ∷ [])).1.block_id
        → (get (seal empty_catalog small_block (1 ∷ 2 ∷ [])).0 j ≡ get empty_catalog j)
          × (staged_payload (seal empty_catalog small_block (1 ∷ 2 ∷ [])).0 j
              ≡ staged_payload empty_catalog j))
    × IsValid (seal empty_catalog small_block (1 ∷ 2 ∷ [])).0
seal_lem_example = seal_lem empty_catalog small_block (1 ∷ 2 ∷ []) empty-IsValid refl (omega arith)

abbrev one_block : BlockCatalog
one_block = record {
  next_block_id = 1;
  blocks = (0, record small_block { block_id = 0 }) ∷ [];
  staged_payloads = (0, 1 ∷ 2 ∷ []) ∷ [];
}

one_block_sealed : (seal empty_catalog small_block (1 ∷ 2 ∷ [])).0 ≡ one_block
unfolding seal insert remove
one_block_sealed = refl

one_block-IsValid : IsValid one_block
one_block-IsValid =
    subst IsValid one_block_sealed
      (seal_lem empty_catalog small_block (1 ∷ 2 ∷ []) empty-IsValid refl (omega arith)).6

mark_offloaded_range_outcome_example :
    ((get one_block 0 ≡ none)
      × (mark_offloaded_range one_block 0 (b'k' ∷ []) 64 ≡ err (unknown_block 0)))
    ⊎ ((b : BlockDescriptor) × (c' : BlockCatalog) × (get one_block 0 ≡ some b)
        × (mark_offloaded_range one_block 0 (b'k' ∷ []) 64 ≡ ok c')
        × (get c' 0 ≡ some (record b { object_key = some (b'k' ∷ []); object_offset = some 64 }))
        × (staged_payload c' 0 ≡ none)
        × ((j : ℕ)
            → j ≢ 0
            → (get c' j ≡ get one_block j) × (staged_payload c' j ≡ staged_payload one_block j))
        × IsValid c')
mark_offloaded_range_outcome_example =
    mark_offloaded_range_outcome one_block 0 (b'k' ∷ []) 64 one_block-IsValid
