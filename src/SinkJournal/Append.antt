-- ===== src/SinkJournal/Append.antt =====
-- `SinkJournal::append` and `checkpoint_allows_lane_gap`. The journal's lock is never poisoned.
use shard_log.Prelude.{
  ℕ, Bool, ◌&&◌, Option, none, some, List, ◌++◌, length, take, ltb, leb, ◌==◌, nat_eq,
}
use shard_log.Bytes.{le_bytes}
use shard_log.Outcome.{ok, err, ◌>>=◌, ◌>>◌, reject}
use shard_log.Errors.{LogDbResult, u32_try_from, checked_add, sink_journal_full, storage_io}
use shard_log.SinkJournal.Types.{topic_partition_eq, DurableSinkCheckpoint, DurableAppend}
use shard_log.SinkJournal.Codec.{encode_transaction}
use shard_log.SinkJournal.Journal.{SinkJournal, Blake3, checksum_bytes}

unfoldable pub checkpoint_allows_lane_gap : DurableSinkCheckpoint → DurableSinkCheckpoint → Bool
checkpoint_allows_lane_gap actual expected =
    actual.topic_partition == expected.topic_partition
    && (actual.next_placement_sequence == expected.next_placement_sequence
        && leb actual.next_offset expected.next_offset)

-- Length, payload and checksum: the three `write_all` calls.
abbrev pub frame_of : Blake3 → List ℕ → List ℕ
frame_of b payload = le_bytes 4 (length payload) ++ (payload ++ b.hash payload)

-- Up to the first write: the frame, and the length of the journal behind it.
unfoldable pub prepare :
    Blake3
    → SinkJournal
    → DurableSinkCheckpoint
    → List DurableAppend
    → DurableSinkCheckpoint
    → LogDbResult (List ℕ × ℕ)
prepare b j expected appends next = do
  payload ← encode_transaction expected appends next
  n ← checked_add 4 (length payload)
  frame_bytes ← checked_add n checksum_bytes
  next_bytes ← checked_add j.bytes frame_bytes
  reject (ltb j.max_bytes next_bytes) (sink_journal_full next_bytes j.max_bytes)
  u32_try_from (length payload)
  ok (frame_of b payload, next_bytes)

-- The writes and the sync. `none`: they succeed. `some k`: the first `k` bytes of the frame reach the
-- file, and then a write or the sync fails.
unfoldable pub commit : Option ℕ → List ℕ → ℕ → SinkJournal → LogDbResult (Unit {0}) × SinkJournal
commit none frame next_bytes j = (ok tt, record j { bytes = next_bytes; file = j.file ++ frame })
commit (some k) frame next_bytes j =
    (err (storage_io "append transaction"), record j { file = j.file ++ take k frame })

abbrev pub commit_prepared :
    Option ℕ → LogDbResult (List ℕ × ℕ) → SinkJournal → LogDbResult (Unit {0}) × SinkJournal
commit_prepared fault (err e) j = (err e, j)
commit_prepared fault (ok (frame, next_bytes)) j = commit fault frame next_bytes j

unfoldable pub append :
    Blake3
    → Option ℕ
    → SinkJournal
    → DurableSinkCheckpoint
    → List DurableAppend
    → DurableSinkCheckpoint
    → LogDbResult (Unit {0}) × SinkJournal
append b fault j expected appends next = commit_prepared fault (prepare b j expected appends next) j
