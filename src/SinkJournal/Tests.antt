-- ===== src/SinkJournal/Tests.antt =====
-- Runs of the journal, and its theorems at concrete inputs.
use shard_log.Prelude.{
  ℕ, ◌+◌, ◌≡◌, ◌≢◌, ◌⊎◌, ◌^◌, ◌≤◌, ◌<◌, Option, length, refl, none, some, List, [], ◌∷◌, ◌++◌,
  arith, nat_eq,
}
use shard_log.Bytes.{le_bytes}
use shard_log.Outcome.{ok, err}
use shard_log.Map.{insert, lookup}
use shard_log.Errors.{
  LogDbError, record_too_large, storage_io, corrupt_sink_journal, sink_journal_full,
}
use shard_log.SinkJournal.Types.{
  TopicPartition, topic_partition_eq, DurableSinkCheckpoint, DurableAppend,
}
use shard_log.SinkJournal.Codec.{
  encode_checkpoint, encode_appends, encode_transaction, decode_transaction,
}
use shard_log.SinkJournal.RoundTrip.{decode_transaction-encode_transaction}
use shard_log.SinkJournal.Journal.{SinkJournal, Blake3, magic, regressed, open_journal}
use shard_log.SinkJournal.Opening.{no_faults, open_with, open_with-header_cut}
use shard_log.SinkJournal.Append.{prepare, commit, append, frame_of}
use shard_log.SinkJournal.History.{TransactionFits, History, created, committed, recovered}
use shard_log.SinkJournal.Recovery.{open_journal-History, open_journal-append_cut}
use shard_log.SinkJournal.Totality.{open_journal-ne-none}
use shard_log.SinkJournal.Retry.{
  append_outcome, appended, partly_appended, open_journal-append_retried,
}

abbrev zeros : ℕ → List ℕ
zeros ℕ.zero = []
zeros (ℕ.suc n) = 0 ∷ zeros n

abbrev pub flat_hash : Blake3
flat_hash = record {
  hash = λ payload. zeros 32;
  length-hash = λ payload. refl;
  hash-IsByte = λ payload. omega arith;
}

abbrev partition : TopicPartition
partition = record { topic_id = 7; partition_id = 1 }

abbrev at_zero : DurableSinkCheckpoint
at_zero = record { topic_partition = partition; next_placement_sequence = 0; next_offset = 0 }

abbrev at_one : DurableSinkCheckpoint
at_one = record { topic_partition = partition; next_placement_sequence = 1; next_offset = 2 }

abbrev one_append : List DurableAppend
one_append =
    record {
      topic_partition = partition;
      physical_shard_id = 3;
      first_offset = 0;
      payload = 9 ∷ 8 ∷ [];
    }
    ∷ []

abbrev encoded : List ℕ
encoded =
    (7 ∷ zeros 15)
    ++ ((1 ∷ zeros 3)
        ++ (zeros 16
            ++ ((7 ∷ zeros 15)
                ++ ((1 ∷ zeros 3)
                    ++ ((1 ∷ zeros 7)
                        ++ ((2 ∷ zeros 7)
                            ++ ((1 ∷ zeros 3)
                                ++ ((3 ∷ zeros 3)
                                    ++ (zeros 8 ++ ((2 ∷ zeros 3) ++ (9 ∷ 8 ∷ [])))))))))))

encode_one : encode_transaction at_zero one_append at_one ≡ ok encoded
unfolding encode_transaction encode_checkpoint encode_appends le_bytes
encode_one = refl

one_fits : TransactionFits 3 at_zero one_append at_one
one_fits = omega arith

decode_transaction-encode_transaction_example :
    decode_transaction 3 encoded ≡ ok (recovered at_zero one_append at_one)
decode_transaction-encode_transaction_example =
    decode_transaction-encode_transaction 3 at_zero one_append at_one encoded (omega arith)
      (omega arith) (omega arith) (omega arith) encode_one

abbrev empty_journal : SinkJournal
empty_journal = record { max_bytes = 500; bytes = 8; file = magic }

abbrev one_journal : SinkJournal
one_journal = record {
  max_bytes = 500;
  bytes = 8 + (4 + 94 + 32);
  file = magic ++ frame_of flat_hash encoded;
}

append_one : append flat_hash none empty_journal at_zero one_append at_one ≡ (ok tt, one_journal)
unfolding append prepare commit encode_transaction encode_checkpoint encode_appends le_bytes
append_one = refl

empty_past : History flat_hash 3 empty_journal [] []
empty_past = created 500 (omega arith)

one_past :
    History flat_hash 3 one_journal
      (recovered at_zero one_append at_one ∷ [])
      (insert partition at_one [])
unfolding regressed lookup
one_past = committed at_zero one_append at_one empty_past one_fits refl append_one

open_journal-History_example :
    open_journal flat_hash 3 500 one_journal.file
    ≡ some (ok (one_journal, recovered at_zero one_append at_one ∷ []))
open_journal-History_example = open_journal-History flat_hash 3 one_journal _ _ one_past

open_journal-append_cut_example :
    open_journal flat_hash 3 500
      (append flat_hash (some 50) empty_journal at_zero one_append at_one).1.file
    ≡ some (ok (empty_journal, []))
open_journal-append_cut_example =
    open_journal-append_cut flat_hash 3 empty_journal [] [] at_zero one_append at_one encoded 50
      empty_past encode_one (omega arith)

open_journal-ne-none_example : open_journal flat_hash 3 500 (1 ∷ 2 ∷ []) ≢ none
open_journal-ne-none_example = open_journal-ne-none flat_hash 3 500 (1 ∷ 2 ∷ [])

append_outcome_example :
    ((e : LogDbError) × (encode_transaction at_zero one_append at_one ≡ err e)
      × (append flat_hash (some 7) empty_journal at_zero one_append at_one
          ≡ (err e, empty_journal)))
    ⊎ ((payload : List ℕ) × (encode_transaction at_zero one_append at_one ≡ ok payload)
        × (((2 ^ 64 ≤ 8 + (4 + length payload + 32))
              × (append flat_hash (some 7) empty_journal at_zero one_append at_one
                  ≡ (err record_too_large, empty_journal)))
            ⊎ ((8 + (4 + length payload + 32) < 2 ^ 64)
                × (500 < 8 + (4 + length payload + 32))
                × (append flat_hash (some 7) empty_journal at_zero one_append at_one
                    ≡ (err (sink_journal_full (8 + (4 + length payload + 32)) 500), empty_journal)))
            ⊎ ((8 + (4 + length payload + 32) < 2 ^ 64)
                × (8 + (4 + length payload + 32) ≤ 500)
                × (((◌≡◌ {A = Option ℕ} (some 7) none)
                      × (append flat_hash (some 7) empty_journal at_zero one_append at_one
                          ≡ (ok tt, appended flat_hash payload empty_journal)))
                    ⊎ ((k : ℕ) × (some 7 ≡ some k)
                        × (append flat_hash (some 7) empty_journal at_zero one_append at_one ≡ (
                          err (storage_io "append transaction"),
                          partly_appended flat_hash payload k empty_journal,
                        )))))))
append_outcome_example = append_outcome flat_hash (some 7) empty_journal at_zero one_append at_one

open_journal-append_retried_example :
    ((append flat_hash none
        (append flat_hash (some (4 + 94 + 32)) empty_journal at_zero one_append at_one).1
        at_zero
        one_append
        at_one).0
      ≡ ok tt)
    × (open_journal flat_hash 3 500
          (append flat_hash none
            (append flat_hash (some (4 + 94 + 32)) empty_journal at_zero one_append at_one).1
            at_zero
            one_append
            at_one).1.file
        ≡ some (err (corrupt_sink_journal "journal checkpoint sequence or offset regressed")))
unfolding regressed lookup
open_journal-append_retried_example =
    open_journal-append_retried flat_hash 3 empty_journal [] [] at_zero one_append at_one encoded
      empty_past one_fits refl encode_one (omega arith) (omega arith) (omega arith)

-- The header breaks off behind three bytes.
open_with-header_cut_example :
    ((open_with flat_hash (record { initialize = some 3; repair = none }) 3 500 []).0
      ≡ b'S' ∷ b'L' ∷ b'O' ∷ [])
    × ((open_with flat_hash no_faults 3 500
          (open_with flat_hash (record { initialize = some 3; repair = none }) 3 500 []).0).1
        ≡ some (err (storage_io "read header")))
open_with-header_cut_example =
    open_with-header_cut flat_hash (record { initialize = some 3; repair = none }) no_faults 3 500 3
      refl (omega arith) (omega arith) (omega arith)
