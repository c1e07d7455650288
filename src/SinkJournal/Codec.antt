-- ===== src/SinkJournal/Codec.antt =====
-- `encode_transaction`, `decode_transaction` and what they call.
use shard_log.Prelude.{
  ℕ, zero, suc, ◌-◌, ◌*◌, not, ◌&&◌, Option, none, some, List, [], ◌∷◌, ◌++◌, ltb, leb,
  if◌then◌else◌, ◌==◌, length, take, drop, nat_eq,
}
use shard_log.Bytes.{le_bytes, from_le_bytes}
use shard_log.Outcome.{ok, ◌>>=◌, ◌>>◌, reject, ok_or}
use shard_log.Errors.{
  LogDbResult, u32_try_from, checked_add, record_too_large, corrupt_sink_journal,
}
use shard_log.SinkJournal.Types.{
  TopicPartition, topic_partition_eq, DurableSinkCheckpoint, DurableAppend, RecoveredAppend,
  RecoveredTransaction,
}

abbrev pub max_frame_bytes : ℕ
max_frame_bytes = 64 * 1024 * 1024

unfoldable pub encode_checkpoint : DurableSinkCheckpoint → List ℕ
encode_checkpoint c =
    le_bytes 16 c.topic_partition.topic_id
    ++ (le_bytes 4 c.topic_partition.partition_id
        ++ (le_bytes 8 c.next_placement_sequence ++ le_bytes 8 c.next_offset))

unfoldable pub encode_appends : TopicPartition → List DurableAppend → LogDbResult (List ℕ)
encode_appends partition [] = ok []
encode_appends partition (a ∷ rest) = do
  reject (not (a.topic_partition == partition))
      (corrupt_sink_journal "transaction append belongs to another partition")
  payload_bytes ← u32_try_from (length a.payload)
  tail ← encode_appends partition rest
  ok (
      le_bytes 4 a.physical_shard_id
      ++ (le_bytes 8 a.first_offset ++ (le_bytes 4 payload_bytes ++ (a.payload ++ tail))))

unfoldable pub encode_transaction :
    DurableSinkCheckpoint → List DurableAppend → DurableSinkCheckpoint → LogDbResult (List ℕ)
encode_transaction expected appends next = do
  reject (not (expected.topic_partition == next.topic_partition))
      (corrupt_sink_journal "transaction checkpoints refer to different partitions")
  count ← u32_try_from (length appends)
  body ← encode_appends expected.topic_partition appends
  let encoded = encode_checkpoint expected ++ (encode_checkpoint next ++ (le_bytes 4 count ++ body))
  reject (ltb max_frame_bytes (length encoded)) record_too_large
  ok encoded

-- `bytes.get(start..end)`
unfoldable pub get_range : ℕ → ℕ → List ℕ → Option (List ℕ)
get_range start end bytes =
    if leb start end && leb end (length bytes)
    then some (take (end - start) (drop start bytes))
    else none

-- The value with the cursor behind it.
unfoldable pub read_array : ℕ → List ℕ → ℕ → LogDbResult (List ℕ × ℕ)
read_array n bytes cursor = do
  end ← checked_add cursor n
  value ← ok_or (get_range cursor end bytes) (corrupt_sink_journal "journal frame is truncated")
  ok (value, end)

unfoldable pub read_uint : ℕ → List ℕ → ℕ → LogDbResult (ℕ × ℕ)
read_uint n bytes cursor = do
  (value, end) ← read_array n bytes cursor
  ok (from_le_bytes value, end)

unfoldable pub decode_checkpoint : List ℕ → ℕ → LogDbResult (DurableSinkCheckpoint × ℕ)
decode_checkpoint bytes cursor = do
  (topic_id, cursor) ← read_uint 16 bytes cursor
  (partition_id, cursor) ← read_uint 4 bytes cursor
  (sequence, cursor) ← read_uint 8 bytes cursor
  (offset, cursor) ← read_uint 8 bytes cursor
  ok (
    record {
      topic_partition = record { topic_id = topic_id; partition_id = partition_id };
      next_placement_sequence = sequence;
      next_offset = offset;
    },
    cursor,
  )

-- `for _ in 0..count`
unfoldable pub decode_appends :
    ℕ → ℕ → TopicPartition → List ℕ → ℕ → LogDbResult (List RecoveredAppend × ℕ)
decode_appends zero shard_id partition bytes cursor = ok ([], cursor)
decode_appends (suc count) shard_id partition bytes cursor = do
  (observed_shard, cursor) ← read_uint 4 bytes cursor
  reject (not (observed_shard == shard_id))
      (corrupt_sink_journal "journal frame belongs to another physical shard")
  (first_offset, cursor) ← read_uint 8 bytes cursor
  (payload_bytes, cursor) ← read_uint 4 bytes cursor
  end ← checked_add cursor payload_bytes
  payload ← ok_or (get_range cursor end bytes) (corrupt_sink_journal "append payload is truncated")
  (rest, cursor) ← decode_appends count shard_id partition bytes end
  ok (
    record { topic_partition = partition; first_offset = first_offset; payload = payload } ∷ rest,
    cursor,
  )

unfoldable pub decode_transaction : ℕ → List ℕ → LogDbResult RecoveredTransaction
decode_transaction shard_id bytes = do
  (expected, cursor) ← decode_checkpoint bytes 0
  (next, cursor) ← decode_checkpoint bytes cursor
  reject (not (expected.topic_partition == next.topic_partition))
      (corrupt_sink_journal "transaction checkpoints refer to different partitions")
  (count, cursor) ← read_uint 4 bytes cursor
  (appends, cursor) ← decode_appends count shard_id expected.topic_partition bytes cursor
  reject (not (cursor == length bytes)) (corrupt_sink_journal "journal frame has trailing bytes")
  ok (record { expected = expected; next = next; appends = appends })
