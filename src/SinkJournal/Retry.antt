-- ===== src/SinkJournal/Retry.antt =====
-- What `append` does on each branch, and a retry after a failed `sync_data`.
use shard_log.Prelude.{
  ℕ, suc, ◌⊎◌, inl, inr, Bool-cases, ◌+◌, ◌-◌, ◌^◌, ◌≤◌, ◌<◌, ◌≡◌, refl, sym, ap, ◌∙◌, subst, true,
  false, Option, none, some, List, [], ◌++◌, append_assoc, append-nil, arith, length, take,
  length-append, leb, ltb, ltb-false, ◌*◌, le→leb, take-length_append, if◌then◌else◌, list_beq,
  nat_eq,
}
use shard_log.Bytes.{le_bytes}
use shard_log.Outcome.{ok, err, Result-cases}
use shard_log.Map.{insert}
use shard_log.Map.Laws.{lookup-insert_self}
use shard_log.Errors.{
  LogDbError, record_too_large, corrupt_sink_journal, sink_journal_full, storage_io,
}
use shard_log.SinkJournal.Types.{
  DurableSinkCheckpoint, DurableAppend, RecoveredTransaction, topic_partition_eq,
}
use shard_log.SinkJournal.Codec.{encode_transaction}
use shard_log.SinkJournal.RoundTrip.{
  encode_transaction-eq_ok, decode_transaction-encode_transaction,
}
use shard_log.SinkJournal.Journal.{
  SinkJournal, Blake3, Checkpoints, magic, regressed, read_frame, recover_loop, recover,
  open_journal,
}
use shard_log.SinkJournal.Append.{frame_of, prepare, commit, append}
use shard_log.SinkJournal.History.{
  History, committed, History-Reads, TransactionFits, Reads, encode_transaction-pos, recovered,
}
use shard_log.SinkJournal.Frames.{read_exact-append, read_frame-regressed, length-frame_of}

-- An append of an encoded transaction whose frame ends in range commits the frame if it fits.
append_lem :
    (b : Blake3) (fault : Option ℕ) (j : SinkJournal) (expected : DurableSinkCheckpoint)
    (appends : List DurableAppend) (next : DurableSinkCheckpoint) (payload : List ℕ)
    → encode_transaction expected appends next ≡ ok payload
    → j.bytes + (4 + length payload + 32) < 2 ^ 64
    → append b fault j expected appends next ≡ (
        if leb (j.bytes + (4 + length payload + 32)) j.max_bytes
        then commit fault (frame_of b payload) (j.bytes + (4 + length payload + 32)) j
        else (err (sink_journal_full (j.bytes + (4 + length payload + 32)) j.max_bytes), j))
unfolding append prepare
append_lem b fault j expected appends next payload encoded fits =
    let (same, few, small, body, body_ok, shape) =
      encode_transaction-eq_ok expected appends next payload encoded in
    ground arith

-- The file and the count behind an append that returns `Ok`.
abbrev pub appended : Blake3 → List ℕ → SinkJournal → SinkJournal
appended b payload j = record j {
  bytes = j.bytes + (4 + length payload + 32);
  file = j.file ++ (le_bytes 4 (length payload) ++ (payload ++ b.hash payload));
}

-- The file behind an append of which so many bytes were written; the count is as it was.
abbrev pub partly_appended : Blake3 → List ℕ → ℕ → SinkJournal → SinkJournal
partly_appended b payload k j = record j {
  file = j.file ++ take k (le_bytes 4 (length payload) ++ (payload ++ b.hash payload));
}

module _ (b : Blake3) (fault : Option ℕ) (j : SinkJournal) (expected : DurableSinkCheckpoint)
    (appends : List DurableAppend) (next : DurableSinkCheckpoint) where
  append-large :
      (payload : List ℕ)
      → encode_transaction expected appends next ≡ ok payload
      → 2 ^ 64 ≤ j.bytes + (4 + length payload + 32)
      → append b fault j expected appends next ≡ (err record_too_large, j)
  unfolding append prepare
  append-large payload encoded large =
      let (same, few, small, body, body_ok, shape) =
        encode_transaction-eq_ok expected appends next payload encoded in
      ground arith

  by_fault :
      (payload : List ℕ) (f : Option ℕ)
      → append b fault j expected appends next
        ≡ commit f (frame_of b payload) (j.bytes + (4 + length payload + 32)) j
      → ((f ≡ none) × (append b fault j expected appends next ≡ (ok tt, appended b payload j)))
        ⊎ ((k : ℕ) × (f ≡ some k)
            × (append b fault j expected appends next
                ≡ (err (storage_io "append transaction"), partly_appended b payload k j)))
  unfolding commit
  by_fault payload none e = inl (refl, e)
  by_fault payload (some k) e = inr (k, refl, e)

-- An append ends in one of five ways. The encoder refuses the transaction, or the journal's count would
-- leave its range, or the frame does not fit the capacity; then nothing is written. Else, if no write
-- fails, the length, the payload and its checksum stand behind the file and are counted; and if the write
-- or the sync fails behind some number of these bytes, they stand there and are not counted, and the
-- append fails.
pub append_outcome :
    (b : Blake3) (fault : Option ℕ) (j : SinkJournal) (expected : DurableSinkCheckpoint)
    (appends : List DurableAppend) (next : DurableSinkCheckpoint)
    → ((e : LogDbError) × (encode_transaction expected appends next ≡ err e)
        × (append b fault j expected appends next ≡ (err e, j)))
      ⊎ ((payload : List ℕ) × (encode_transaction expected appends next ≡ ok payload)
          × (((2 ^ 64 ≤ j.bytes + (4 + length payload + 32))
                × (append b fault j expected appends next ≡ (err record_too_large, j)))
              ⊎ ((j.bytes + (4 + length payload + 32) < 2 ^ 64)
                  × (j.max_bytes < j.bytes + (4 + length payload + 32))
                  × (append b fault j expected appends next ≡ (
                    err (sink_journal_full (j.bytes + (4 + length payload + 32)) j.max_bytes),
                    j,
                  )))
              ⊎ ((j.bytes + (4 + length payload + 32) < 2 ^ 64)
                  × (j.bytes + (4 + length payload + 32) ≤ j.max_bytes)
                  × (((fault ≡ none)
                        × (append b fault j expected appends next ≡ (ok tt, appended b payload j)))
                      ⊎ ((k : ℕ) × (fault ≡ some k)
                          × (append b fault j expected appends next ≡ (
                            err (storage_io "append transaction"),
                            partly_appended b payload k j,
                          )))))))
append_outcome b fault j expected appends next =
    elim (Result-cases (encode_transaction expected appends next)) [
      | inr (e, refused) ↦ inl (e, refused, unfold append prepare in rw refused refl)
      | inl (payload, encoded) ↦ inr (
        payload,
        encoded,
        elim (Bool-cases (ltb (j.bytes + (4 + length payload + 32)) (2 ^ 64))) [
          | inr large ↦ inl (
            ground arith,
            append-large b fault j expected appends next payload encoded (ground arith),
          )
          | inl fits ↦
              let e = append_lem b fault j expected appends next payload encoded (ground arith) in
              elim (Bool-cases (leb (j.bytes + (4 + length payload + 32)) j.max_bytes)) [
                | inr full ↦ inr (inl (ground arith, ground arith, e ∙ rw full refl))
                | inl room ↦ inr (
                    inr (
                      ground arith,
                      ground arith,
                      by_fault b fault j expected appends next payload fault (e ∙ rw room refl),
                    ))
              ]
        ],
      )
    ]

recover_loop-err :
    (b : Blake3) (shard_id fuel : ℕ) (file : List ℕ) (checkpoints : Checkpoints)
    (transactions : List RecoveredTransaction) (position : ℕ) (unread : List ℕ) (e : LogDbError)
    → read_frame b shard_id checkpoints position unread ≡ err e
    → recover_loop b shard_id (suc fuel) file checkpoints transactions position unread
      ≡ some (err e)
recover_loop-err b shard_id fuel file checkpoints transactions position unread e h =
    unfold recover_loop in rw (h, recover_loop)

regressed-insert :
    (checkpoints : Checkpoints) (expected next : DurableSinkCheckpoint)
    → expected.topic_partition ≡ next.topic_partition
    → expected.next_placement_sequence < next.next_placement_sequence
    → regressed (insert next.topic_partition next checkpoints) expected ≡ true
unfolding regressed
regressed-insert checkpoints expected next same ahead =
    rw (same, lookup-insert_self next.topic_partition next checkpoints, regressed) (ground arith)

-- A tail that the reader refuses makes the whole file unusable.
recover-refused :
    (b : Blake3) (shard_id : ℕ) (j : SinkJournal) (transactions : List RecoveredTransaction)
    (checkpoints : Checkpoints) (r : Reads b shard_id j transactions checkpoints) (tail : List ℕ)
    (e : LogDbError)
    → length (j.file ++ tail) ≤ j.max_bytes
    → read_frame b shard_id checkpoints (length magic + length r.body) tail ≡ err e
    → recover b shard_id (magic ++ (r.body ++ tail)) j.max_bytes ≡ some (err e)
recover-refused b shard_id j transactions checkpoints r tail e small refused =
    let whole = magic ++ (r.body ++ tail) in
    let fits : length whole ≤ j.max_bytes =
      omega (arith, ap length r.shape, length-append j.file tail, length-append r.body tail) in
    let left = length whole - length transactions - 1 in
    let fuel : length whole ≡ length transactions + suc left =
      omega (arith, r.rounds, length-append r.body tail) in
    unfold recover list_beq in
    rw (ltb-false j.max_bytes (length whole) fits) (
      rw (read_exact-append (length magic) magic (r.body ++ tail) refl, recover)
        (subst
          (λ n.
            recover_loop b shard_id n whole [] [] (length magic) (r.body ++ tail) ≡ some (err e))
          (sym fuel)
          (r.loop (suc left) whole tail
            ∙ recover_loop-err b shard_id left whole checkpoints transactions _ tail e refused)))

open_journal-refused :
    (b : Blake3) (shard_id : ℕ) (j : SinkJournal) (transactions : List RecoveredTransaction)
    (checkpoints : Checkpoints) (r : Reads b shard_id j transactions checkpoints) (tail : List ℕ)
    (e : LogDbError)
    → length (j.file ++ tail) ≤ j.max_bytes
    → read_frame b shard_id checkpoints (length magic + length r.body) tail ≡ err e
    → open_journal b shard_id j.max_bytes (j.file ++ tail) ≡ some (err e)
open_journal-refused b shard_id j transactions checkpoints r tail e small refused =
    let split : j.file ++ tail ≡ magic ++ (r.body ++ tail) =
      rw r.shape (append_assoc magic r.body tail) in
    let room : ltb j.max_bytes (length magic) ≡ false =
      ltb-false j.max_bytes (length magic) (omega (arith, r.counted, r.in_capacity)) in
    unfold open_journal in
    rw (split, room)
      (rw (
        recover-refused b shard_id j transactions checkpoints r tail e small refused,
        open_journal,
      ))

take-frame_of :
    (b : Blake3) (payload : List ℕ)
    → take (4 + length payload + 32) (frame_of b payload) ≡ frame_of b payload
take-frame_of b payload = rw (sym (length-frame_of b payload)) (
    ap (take (length (frame_of b payload))) (sym (append-nil (frame_of b payload)))
    ∙ take-length_append (frame_of b payload) [])

module _ (b : Blake3) (j : SinkJournal) (expected : DurableSinkCheckpoint)
    (appends : List DurableAppend) (next : DurableSinkCheckpoint) (payload : List ℕ)
    (encoded : encode_transaction expected appends next ≡ ok payload)
    (fits : j.bytes + (4 + length payload + 32) < 2 ^ 64)
    (room : j.bytes + (4 + length payload + 32) ≤ j.max_bytes) where
  abbrev once : SinkJournal
  once = record j {
    bytes = j.bytes + (4 + length payload + 32);
    file = j.file ++ frame_of b payload;
  }

  written_once : append b none j expected appends next ≡ (ok tt, once)
  unfolding commit
  written_once =
      rw (append_lem b none j expected appends next payload encoded fits, le→leb _ _ room)

  -- The journal behind a sync that failed, and behind the retry.
  unsynced :
      append b (some (4 + length payload + 32)) j expected appends next
      ≡ (err (storage_io "append transaction"), record j { file = j.file ++ frame_of b payload })
  unfolding commit
  unsynced = rw (
    append_lem b (some (4 + length payload + 32)) j expected appends next payload encoded fits,
    le→leb _ _ room,
    take-frame_of b payload,
  )

  retried :
      append b none
        (append b (some (4 + length payload + 32)) j expected appends next).1
        expected
        appends
        next
      ≡ (
        ok tt,
        record j {
          bytes = j.bytes + (4 + length payload + 32);
          file = (j.file ++ frame_of b payload) ++ frame_of b payload;
        },
      )
  unfolding commit
  retried = rw (
    unsynced,
    append_lem b none (record j { file = j.file ++ frame_of b payload }) expected appends next
        payload encoded fits,
    le→leb _ _ room,
  )

-- A `sync_data` that fails behind a whole frame, and the retry of the append, which returns `Ok`,
-- leave a file that no process can open: the frame stands in it twice, and the second copy goes back
-- behind the first. The transaction moves its partition's sequence on, and two frames fit.
pub open_journal-append_retried :
    (b : Blake3) (shard_id : ℕ) (j : SinkJournal) (transactions : List RecoveredTransaction)
    (checkpoints : Checkpoints) (expected : DurableSinkCheckpoint) (appends : List DurableAppend)
    (next : DurableSinkCheckpoint) (payload : List ℕ)
    → History b shard_id j transactions checkpoints
    → TransactionFits shard_id expected appends next
    → regressed checkpoints expected ≡ false
    → encode_transaction expected appends next ≡ ok payload
    → expected.next_placement_sequence < next.next_placement_sequence
    → j.bytes + 2 * (4 + length payload + 32) < 2 ^ 64
    → j.bytes + 2 * (4 + length payload + 32) ≤ j.max_bytes
    → ((append b none
          (append b (some (4 + length payload + 32)) j expected appends next).1
          expected
          appends
          next).0
        ≡ ok tt)
      × (open_journal b shard_id j.max_bytes
            (append b none
              (append b (some (4 + length payload + 32)) j expected appends next).1
              expected
              appends
              next).1.file
          ≡ some (err (corrupt_sink_journal "journal checkpoint sequence or offset regressed")))
open_journal-append_retried b shard_id j transactions checkpoints expected appends next payload past
      fits forward encoded ahead range room =
    let done = retried b j expected appends next payload encoded (omega arith) (omega arith) in
    let fresh =
      written_once b j expected appends next payload encoded (omega arith) (omega arith) in
    let after = once b j expected appends next payload encoded (omega arith) (omega arith) in
    let past' = committed expected appends next past fits forward fresh in
    let twice = History-Reads b shard_id after _ _ past' in
    let before = History-Reads b shard_id j transactions checkpoints past in
    let small : length ((j.file ++ frame_of b payload) ++ frame_of b payload) ≤ j.max_bytes =
      omega (
        arith,
        length-append (j.file ++ frame_of b payload) (frame_of b payload),
        length-append j.file (frame_of b payload),
        length-frame_of b payload,
        ap length before.shape,
        before.counted,
      ) in
    let decoded =
      decode_transaction-encode_transaction shard_id expected appends next payload fits.shard
        fits.expected_fits fits.next_fits fits.appends_fit encoded in
    let (same, few, bounded, body, body_ok, shape) =
      encode_transaction-eq_ok expected appends next payload encoded in
    rw done (
      refl,
      open_journal-refused b shard_id after _ _ twice (frame_of b payload) _ small (
          rw append-nil at (
            read_frame-regressed b shard_id (insert next.topic_partition next checkpoints)
              (length magic + length twice.body) payload
              (encode_transaction-pos expected appends next payload encoded) bounded
              (recovered expected appends next) [] decoded
              (regressed-insert checkpoints expected next same ahead))),
    )
