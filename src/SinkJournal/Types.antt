-- ===== src/SinkJournal/Types.antt =====
-- The transactions of the journal. `DurableSinkCheckpoint` and `DurableAppend` are types of the
-- shard-stream crates: these records hold the parts that src/sink_journal.rs reads and writes, with
-- each id as the integer that its `get` returns.
use shard_log.Prelude.{ℕ, ◌^◌, ◌<◌, ◌≡◌, List}
pub use shard_log.Partition.{
  TopicPartition, topic_partition_beq, topic_partition_beq_iff, topic_partition_eq,
}

pub record DurableSinkCheckpoint : Type 0 where
  pub topic_partition : TopicPartition
  pub next_placement_sequence : ℕ
  pub next_offset : ℕ

pub record DurableAppend : Type 0 where
  pub topic_partition : TopicPartition
  pub physical_shard_id : ℕ
  pub first_offset : ℕ
  pub payload : List ℕ

pub record RecoveredAppend : Type 0 where
  pub topic_partition : TopicPartition
  pub first_offset : ℕ
  pub payload : List ℕ

pub record RecoveredTransaction : Type 0 where
  pub expected : DurableSinkCheckpoint
  pub next : DurableSinkCheckpoint
  pub appends : List RecoveredAppend

-- The ranges of the integers: u128, u32 and u64.
pub record CheckpointFits (c : DurableSinkCheckpoint) : Type 0 where
  pub topic_id : c.topic_partition.topic_id < 256 ^ 16
  pub partition_id : c.topic_partition.partition_id < 256 ^ 4
  pub next_placement_sequence : c.next_placement_sequence < 256 ^ 8
  pub next_offset : c.next_offset < 256 ^ 8

pub record AppendFits (shard_id : ℕ) (a : DurableAppend) : Type 0 where
  pub physical_shard_id : a.physical_shard_id ≡ shard_id
  pub first_offset : a.first_offset < 256 ^ 8
