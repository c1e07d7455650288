-- ===== src/SinkJournal/Journal.antt =====
-- The journal file: `SinkJournal::open`, `SinkJournal::append` and `recover`. The file is the list of
-- its bytes; an absent file and an empty one are both `[]`. Opening, inspecting, seeking and reading
-- it succeed; a write of `append` may fail after any number of its bytes. `open_journal` is `open` where its
-- own writes succeed, `open_with` of Opening where they may fail. The BLAKE3 hash is a parameter.
use shard_log.Prelude.{
  ℕ, zero, suc, ◌≡◌, Bool, false, not, ◌||◌, Option, none, some, List, [], ◌∷◌, ◌++◌, length, take,
  drop, is_empty, ltb, leb, list_beq, All, if◌then◌else◌, ◌==◌, nat_eq,
}
use shard_log.Bytes.{IsByte, from_le_bytes}
use shard_log.Outcome.{ok, err, ◌>>=◌, ◌>>◌, reject}
use shard_log.Map.{Map, lookup, insert}
use shard_log.Errors.{
  LogDbResult, checked_add, corrupt_sink_journal, sink_journal_full, storage_io, invalid_config,
}
use shard_log.SinkJournal.Types.{
  TopicPartition, topic_partition_eq, DurableSinkCheckpoint, RecoveredTransaction,
}
use shard_log.SinkJournal.Codec.{max_frame_bytes, decode_transaction}

-- b"SLOGSNK1"
abbrev pub magic : List ℕ
magic = b'S' ∷ b'L' ∷ b'O' ∷ b'G' ∷ b'S' ∷ b'N' ∷ b'K' ∷ b'1' ∷ []

abbrev pub checksum_bytes : ℕ
checksum_bytes = 32

-- `blake3::hash`, of which the code relies on the digest's width in bytes.
pub record Blake3 : Type 0 where
  pub hash : List ℕ → List ℕ
  pub length-hash : (payload : List ℕ) → length (hash payload) ≡ checksum_bytes
  pub hash-IsByte : (payload : List ℕ) → All IsByte (hash payload)

-- `bytes` is the length that the process counts, `file` what the disk holds.
pub record SinkJournal : Type 0 where
  pub max_bytes : ℕ
  pub bytes : ℕ
  pub file : List ℕ

abbrev pub Checkpoints : Type 0
Checkpoints = Map TopicPartition DurableSinkCheckpoint

-- `Read::read_exact`: the bytes and what is still unread; `none` is `UnexpectedEof`.
unfoldable pub read_exact : ℕ → List ℕ → Option (List ℕ × List ℕ)
read_exact n unread = if leb n (length unread) then some (take n unread, drop n unread) else none

-- The comparison with the partition's last checkpoint of this journal.
unfoldable pub regressed : Checkpoints → DurableSinkCheckpoint → Bool
regressed checkpoints expected = elim (lookup expected.topic_partition checkpoints) [
  | none ↦ false
  | some actual ↦
      ltb expected.next_placement_sequence actual.next_placement_sequence
      || ltb expected.next_offset actual.next_offset
]

-- One round of the loop of `recover`: the tail of the file is partial, or it begins with a frame, that
-- ends at `position` and leaves `unread`.
pub data Round : Type 0 where
  partial : Round
  frame : RecoveredTransaction → ℕ → List ℕ → Round

module _ (b : Blake3) (shard_id : ℕ) where
  unfoldable pub check_frame : Checkpoints → ℕ → List ℕ → List ℕ → List ℕ → LogDbResult Round
  check_frame checkpoints frame_start payload checksum unread = do
    reject (not (list_beq (b.hash payload) checksum))
        (corrupt_sink_journal "journal frame checksum is invalid")
    transaction ← decode_transaction shard_id payload
    reject (regressed checkpoints transaction.expected)
        (corrupt_sink_journal "journal checkpoint sequence or offset regressed")
    position ← checked_add frame_start 4
    position ← checked_add position (length payload)
    position ← checked_add position checksum_bytes
    ok (frame transaction position unread)

  -- The payload and the checksum, or a partial tail.
  unfoldable pub read_body : Checkpoints → ℕ → ℕ → List ℕ → LogDbResult Round
  read_body checkpoints frame_start n unread = elim (read_exact n unread) [
    | none ↦ ok partial
    | some (payload, unread') ↦ elim (read_exact checksum_bytes unread') [
      | none ↦ ok partial
      | some (checksum, unread'') ↦ check_frame checkpoints frame_start payload checksum unread''
    ]
  ]

  unfoldable pub read_frame : Checkpoints → ℕ → List ℕ → LogDbResult Round
  read_frame checkpoints frame_start unread = elim (read_exact 4 unread) [
    | none ↦ ok partial
    | some (length_bytes, unread') ↦
        let n = from_le_bytes length_bytes in
        reject (n == 0 || ltb max_frame_bytes n)
          (corrupt_sink_journal "journal frame length is invalid")
        >> read_body checkpoints frame_start n unread'
  ]

  -- The loop of `recover`. `none`: out of fuel. A partial tail is cut off by `set_len(frame_start)`.
  unfoldable pub recover_loop :
      ℕ
      → List ℕ
      → Checkpoints
      → List RecoveredTransaction
      → ℕ
      → List ℕ
      → Option (LogDbResult (List RecoveredTransaction × List ℕ))
  recover_loop zero file checkpoints transactions position unread = none
  recover_loop (suc fuel) file checkpoints transactions position unread =
      elim (read_frame checkpoints position unread) [
        | err e ↦ some (err e)
        | ok partial ↦ some (ok (transactions, take position file))
        | ok (frame transaction end unread') ↦
            recover_loop fuel file
              (insert transaction.next.topic_partition transaction.next checkpoints)
              (transactions ++ (transaction ∷ [])) end unread'
      ]

  -- A frame takes bytes of the file, so its length is fuel enough.
  unfoldable pub recover : List ℕ → ℕ → Option (LogDbResult (List RecoveredTransaction × List ℕ))
  recover file max_bytes =
      if ltb max_bytes (length file)
      then some (err (sink_journal_full (length file) max_bytes))
      else elim (read_exact (length magic) file) [
        | none ↦ some (err (storage_io "read header"))
        | some (header, unread) ↦
            if list_beq header magic
            then recover_loop (length file) file [] [] (length magic) unread
            else some (err (corrupt_sink_journal "journal magic is invalid"))
      ]

-- `journal_io` names the failed operation.
abbrev pub opened :
    ℕ
    → LogDbResult (List RecoveredTransaction × List ℕ)
    → LogDbResult (SinkJournal × List RecoveredTransaction)
opened max_bytes (err e) = err e
opened max_bytes (ok (transactions, file)) =
    ok (record { max_bytes = max_bytes; bytes = length file; file = file }, transactions)

-- `SinkJournal::open` where the write of the header and `set_len` succeed; `open_with` is the whole of it,
-- and gives the same answer then.
unfoldable pub open_journal :
    Blake3 → ℕ → ℕ → List ℕ → Option (LogDbResult (SinkJournal × List RecoveredTransaction))
open_journal b shard_id max_bytes file =
    if ltb max_bytes (length magic)
    then some (err (invalid_config "sink journal max bytes must fit its header"))
    else elim (recover b shard_id (if is_empty file then magic else file) max_bytes) [
      | none ↦ none
      | some r ↦ some (opened max_bytes r)
    ]
