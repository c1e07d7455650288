-- ===== src/Errors.antt =====
-- `LogDbError` (src/error.rs). The text that the operating system adds to a `StorageIo` message is not
-- modelled, the rest of each message is. Ids are the integers that they wrap.
use shard_log.Prelude.{ℕ, ◌+◌, ◌^◌, String, Option, ltb, if◌then◌else◌}
use shard_log.Outcome.{Result, ok, err}
use shard_log.Partition.{TopicPartition}

pub data LogDbError : Type 0 where
  invalid_config : String → LogDbError
  duplicate_stripe unknown_stripe : ℕ → LogDbError
  -- The expected and the observed shard.
  wrong_stripe : ℕ → ℕ → LogDbError
  -- The expected and the observed offset.
  offset_out_of_order : TopicPartition → ℕ → ℕ → LogDbError
  offset_exhausted : TopicPartition → LogDbError
  duplicate_record conflicting_record : TopicPartition → ℕ → LogDbError
  unknown_block : ℕ → LogDbError
  empty_dictionary : LogDbError
  -- The bytes of the dictionary and the capacity.
  dictionary_too_large : ℕ → ℕ → LogDbError
  dictionary_id_conflict : ℕ → LogDbError
  dictionary_catalog_unavailable dictionary_trainer_unavailable : LogDbError
  dictionary_training_failed : String → LogDbError
  missing_dictionary : ℕ → LogDbError
  record_too_large : LogDbError
  invalid_block_encoding compression_failed invalid_otlp_payload : String → LogDbError
  invalid_native_payload invalid_query query_worker_unavailable : String → LogDbError
  storage_io corrupt_sink_journal : String → LogDbError
  -- The bytes with the transaction and the capacity.
  sink_journal_full : ℕ → ℕ → LogDbError
  object_store corrupt_tier : String → LogDbError
  -- The expected and the observed version.
  stale_catalog : Option String → Option String → LogDbError
  missing_staged_payload : ℕ → LogDbError

abbrev pub LogDbResult : Type 0 → Type 0
LogDbResult A = Result LogDbError A

-- `u32::try_from(n).map_err(|_| RecordTooLarge)`
abbrev pub u32_try_from : ℕ → LogDbResult ℕ
u32_try_from n = if ltb n (2 ^ 32) then ok n else err record_too_large

-- `a.checked_add(b).ok_or(RecordTooLarge)` on u64, and on usize of 64 bits.
abbrev pub checked_add : ℕ → ℕ → LogDbResult ℕ
checked_add a b = if ltb (a + b) (2 ^ 64) then ok (a + b) else err record_too_large
