-- ===== src/SinkJournal/Recovery.antt =====
-- What a process finds when it opens the journal again.
use shard_log.Prelude.{
  ℕ, suc, ◌+◌, ◌-◌, ◌≤◌, ◌<◌, ◌≡◌, refl, sym, ap, subst, list_beq, ◌∙◌, false, some, List, [], ◌++◌,
  append_assoc, append-nil, arith, length, take, length-append, ltb, ltb-false, take-length_append,
  inl, inr, nat_eq, length-take_le,
}
use shard_log.Outcome.{ok, Result-cases}
use shard_log.SinkJournal.Types.{
  DurableSinkCheckpoint, DurableAppend, RecoveredTransaction, topic_partition_eq,
}
use shard_log.SinkJournal.Codec.{encode_transaction}
use shard_log.SinkJournal.Journal.{
  SinkJournal, Blake3, Checkpoints, magic, partial, read_frame, recover_loop, recover, open_journal,
}
use shard_log.SinkJournal.Append.{frame_of, prepare, commit, append}
use shard_log.SinkJournal.Frames.{
  read_exact-append, read_exact-short, read_frame-cut, length-frame_of,
}
use shard_log.SinkJournal.History.{History, Reads, History-Reads, Prepared, prepare-cases}

recover_loop-partial :
    (b : Blake3) (shard_id fuel : ℕ) (file : List ℕ) (checkpoints : Checkpoints)
    (transactions : List RecoveredTransaction) (position : ℕ) (unread : List ℕ)
    → read_frame b shard_id checkpoints position unread ≡ ok partial
    → recover_loop b shard_id (suc fuel) file checkpoints transactions position unread
      ≡ some (ok (transactions, take position file))
recover_loop-partial b shard_id fuel file checkpoints transactions position unread e =
    unfold recover_loop in rw (e, recover_loop)

module _ (b : Blake3) (shard_id : ℕ) (j : SinkJournal) (transactions : List RecoveredTransaction)
    (checkpoints : Checkpoints) (past : History b shard_id j transactions checkpoints) where
  abbrev r : Reads b shard_id j transactions checkpoints
  r = History-Reads b shard_id j transactions checkpoints past

  abbrev whole : List ℕ → List ℕ
  whole tail = magic ++ (r.body ++ tail)

  -- The position of the partial tail is the end of the journal.
  take-journal : (tail : List ℕ) → take (length magic + length r.body) (whole tail) ≡ j.file
  take-journal tail =
      let e : length magic + length r.body ≡ length (magic ++ r.body) =
        omega (arith, length-append magic r.body) in
      rw (e, r.shape) (take-length_append (magic ++ r.body) tail)

  recover_loop-tail :
      (tail : List ℕ)
      → read_frame b shard_id checkpoints (length magic + length r.body) tail ≡ ok partial
      → recover_loop b shard_id
          (length (whole tail))
          (whole tail)
          []
          []
          (length magic)
          (r.body ++ tail)
        ≡ some (ok (transactions, j.file))
  recover_loop-tail tail cut =
      let left = length (whole tail) - length transactions - 1 in
      let fuel : length (whole tail) ≡ length transactions + suc left =
        omega (arith, r.rounds, length-append r.body tail) in
      subst
        (λ n.
          recover_loop b shard_id n (whole tail) [] [] (length magic) (r.body ++ tail)
          ≡ some (ok (transactions, j.file)))
        (sym fuel)
        (r.loop (suc left) (whole tail) tail
          ∙ recover_loop-partial b shard_id left (whole tail) checkpoints transactions _ tail cut
          ∙ ap (λ f. some (ok (transactions, f))) (take-journal tail))

  recover-tail :
      (tail : List ℕ)
      → length (j.file ++ tail) ≤ j.max_bytes
      → read_frame b shard_id checkpoints (length magic + length r.body) tail ≡ ok partial
      → recover b shard_id (whole tail) j.max_bytes ≡ some (ok (transactions, j.file))
  recover-tail tail small cut =
      let fits : length (whole tail) ≤ j.max_bytes =
        omega
          (arith, small, ap length r.shape, length-append j.file tail, length-append r.body tail) in
      unfold recover list_beq in
      rw (ltb-false j.max_bytes (length (whole tail)) fits) (
        rw (read_exact-append (length magic) magic (r.body ++ tail) refl, recover)
          (recover_loop-tail tail cut))

  -- The journal with a partial tail behind it: the tail is cut off, and nothing else is lost.
  open_journal-tail :
      (tail : List ℕ)
      → length (j.file ++ tail) ≤ j.max_bytes
      → read_frame b shard_id checkpoints (length magic + length r.body) tail ≡ ok partial
      → open_journal b shard_id j.max_bytes (j.file ++ tail) ≡ some (ok (j, transactions))
  open_journal-tail tail small cut =
      let split : j.file ++ tail ≡ whole tail = rw r.shape (append_assoc magic r.body tail) in
      let size : length j.file ≡ j.bytes = omega (arith, ap length r.shape, r.counted) in
      let room : ltb j.max_bytes (length magic) ≡ false =
        ltb-false j.max_bytes (length magic) (omega (arith, r.counted, r.in_capacity)) in
      unfold open_journal in
      rw (split, room)
        (rw (recover-tail tail small cut, open_journal)
          (ap (λ n. some (ok (record j { bytes = n }, transactions))) size))

read_frame-nil :
    (b : Blake3) (shard_id : ℕ) (checkpoints : Checkpoints) (position : ℕ)
    → read_frame b shard_id checkpoints position [] ≡ ok partial
read_frame-nil b shard_id checkpoints position =
    unfold read_frame in rw (read_exact-short 4 [] (omega arith), read_frame)

module _ (b : Blake3) (shard_id : ℕ) (j : SinkJournal) (transactions : List RecoveredTransaction)
    (checkpoints : Checkpoints) where
  -- For a journal that was created and of which every append so far returned `Ok`, each with a transaction
  -- on its shard, in the ranges of the types, and not behind its partition's last checkpoint in the
  -- journal: opening its file again gives the journal as it stands in memory, and those transactions, in
  -- the order of the appends.
  pub open_journal-History :
      History b shard_id j transactions checkpoints
      → open_journal b shard_id j.max_bytes j.file ≡ some (ok (j, transactions))
  open_journal-History past =
      let r = History-Reads b shard_id j transactions checkpoints past in
      let small : length (j.file ++ []) ≤ j.max_bytes =
        omega (arith, ap length r.shape, length-append j.file [], r.counted, r.in_capacity) in
      rw append-nil at (
        open_journal-tail b shard_id j transactions checkpoints past [] small
          (read_frame-nil b shard_id checkpoints _))

  append-file :
      (k : ℕ) (expected : DurableSinkCheckpoint) (appends : List DurableAppend)
      (next : DurableSinkCheckpoint) (p : Prepared b j expected appends next)
      → (append b (some k) j expected appends next).1.file ≡ j.file ++ take k (frame_of b p.payload)
  append-file k expected appends next p = unfold append commit in rw (p.prepared)

  -- For a journal that was created and of which every append so far returned `Ok`, each with a transaction
  -- on its shard, in the ranges of the types, and not behind its partition's last checkpoint in the
  -- journal: the first append that fails after any part of its frame has reached the file, short of the
  -- whole, is rolled back when the file is opened again. The journal and the transactions are those
  -- before it.
  pub open_journal-append_cut :
      (expected : DurableSinkCheckpoint) (appends : List DurableAppend)
      (next : DurableSinkCheckpoint) (payload : List ℕ) (k : ℕ)
      → History b shard_id j transactions checkpoints
      → encode_transaction expected appends next ≡ ok payload
      → k < 4 + length payload + 32
      → open_journal b shard_id j.max_bytes (append b (some k) j expected appends next).1.file
        ≡ some (ok (j, transactions))
  open_journal-append_cut expected appends next payload k past encoded inside =
      elim (Result-cases (prepare b j expected appends next)) [
        | inl ((written, next_bytes), e) ↦
            let p = prepare-cases b j expected appends next written next_bytes e in
            let r = History-Reads b shard_id j transactions checkpoints past in
            let same : length p.payload ≡ length payload = cc (encoded, p.encoded) in
            rw (append-file k expected appends next p) (
              open_journal-tail b shard_id j transactions checkpoints past
                (take k (frame_of b p.payload))
                (omega (
                  arith,
                  length-append j.file (take k (frame_of b p.payload)),
                  length-take_le k (frame_of b p.payload),
                  length-frame_of b p.payload,
                  ap length r.shape,
                  r.counted,
                  p.in_capacity,
                ))
                (read_frame-cut b shard_id checkpoints _ p.payload p.some_bytes p.bounded k
                  (omega (arith, length-frame_of b p.payload))))
        | inr (x, e) ↦ unfold append in rw e (open_journal-History past)
      ]
