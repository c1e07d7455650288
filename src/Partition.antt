-- ===== src/Partition.antt =====
-- `TopicPartition` of the shard-stream crates: the two ids that the code reads from it and builds it of,
-- each as the integer that its `get` returns.
use shard_log.Prelude.{ℕ, ◌≡◌, ◌↔◌, Bool, true, ◌&&◌, arith, Eq, nat_beq}

pub record TopicPartition : Type 0 where
  pub topic_id : ℕ
  pub partition_id : ℕ

abbrev pub topic_partition_beq : TopicPartition → TopicPartition → Bool
topic_partition_beq a b = nat_beq a.topic_id b.topic_id && nat_beq a.partition_id b.partition_id

pub topic_partition_beq_iff : (a b : TopicPartition) → (topic_partition_beq a b ≡ true) ↔ (a ≡ b)
topic_partition_beq_iff a b = ground arith

instance abbrev pub topic_partition_eq : Eq TopicPartition
topic_partition_eq = record { beq = topic_partition_beq; beq_iff = topic_partition_beq_iff }
