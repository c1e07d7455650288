-- ===== src/BlockCatalog/Catalog.antt =====
-- `BlockDescriptor` and `BlockCatalog` of src/block.rs. Ids are the integers that they wrap, the shard
-- and the offsets are those of shard-stream.
use shard_log.Prelude.{
  ℕ, ◌+◌, ◌%◌, ◌^◌, Option, none, some, List, [], length, Bool, is_empty, nat_eq,
}
use shard_log.Outcome.{ok, err}
use shard_log.Map.{Map, lookup, insert, remove, update}
use shard_log.Errors.{LogDbResult, unknown_block}
use shard_log.Partition.{TopicPartition}

pub data CompressionCodec : Type 0 where
  zstd : CompressionCodec

-- `compression_level` is an i32, kept as its bit pattern.
pub record BlockDescriptor : Type 0 where
  pub block_id : ℕ
  pub stream_shard_id : ℕ
  pub topic_partition : TopicPartition
  pub source_compression_cohort : ℕ
  pub placement_id : ℕ
  pub dictionary_id : Option ℕ
  pub compression_codec : CompressionCodec
  pub compression_level : ℕ
  pub first_offset : ℕ
  pub last_offset : ℕ
  pub record_count : ℕ
  pub source_bytes : ℕ
  pub structural_bytes : ℕ
  pub stored_bytes : ℕ
  pub min_timestamp_unix_nanos : ℕ
  pub max_timestamp_unix_nanos : ℕ
  pub compression_temperature : ℕ
  pub compression_shape_hash : ℕ
  pub compression_temperature_variance_q8 : ℕ
  pub max_compression_temperature_deviation : ℕ
  pub object_key : Option (List ℕ)
  pub object_offset : Option ℕ

pub record BlockCatalog : Type 0 where
  pub next_block_id : ℕ
  pub blocks : Map ℕ BlockDescriptor
  pub staged_payloads : Map ℕ (List ℕ)

abbrev pub empty_catalog : BlockCatalog
empty_catalog = record { next_block_id = 0; blocks = []; staged_payloads = [] }

unfoldable pub len : BlockCatalog → ℕ
len c = length c.blocks

unfoldable pub no_blocks : BlockCatalog → Bool
no_blocks c = is_empty c.blocks

unfoldable pub get : BlockCatalog → ℕ → Option BlockDescriptor
get c block_id = lookup block_id c.blocks

unfoldable pub staged_payload : BlockCatalog → ℕ → Option (List ℕ)
staged_payload c block_id = lookup block_id c.staged_payloads

unfoldable pub seal : BlockCatalog → BlockDescriptor → List ℕ → BlockCatalog × BlockDescriptor
seal c block payload =
    let sealed = record block { block_id = c.next_block_id } in
    (
      record {
        next_block_id = (c.next_block_id + 1) % 2 ^ 64;
        blocks = insert c.next_block_id sealed c.blocks;
        staged_payloads = insert c.next_block_id payload c.staged_payloads;
      },
      sealed,
    )

abbrev pub offload : List ℕ → ℕ → BlockDescriptor → BlockDescriptor
offload object_key object_offset block = record block {
  object_key = some object_key;
  object_offset = some object_offset;
}

unfoldable pub mark_offloaded_range : BlockCatalog → ℕ → List ℕ → ℕ → LogDbResult BlockCatalog
mark_offloaded_range c block_id object_key object_offset = elim (lookup block_id c.blocks) [
  | none ↦ err (unknown_block block_id)
  | some block ↦ ok (record c {
    blocks = update block_id (offload object_key object_offset) c.blocks;
    staged_payloads = remove block_id c.staged_payloads;
  })
]

unfoldable pub mark_offloaded : BlockCatalog → ℕ → List ℕ → LogDbResult BlockCatalog
unfolding mark_offloaded_range
mark_offloaded c block_id object_key = mark_offloaded_range c block_id object_key 0
