-- ===== src/SinkJournal/History.antt =====
-- Journals that a process built by successful appends, and what the loop of `recover` makes of them.
use shard_log.Prelude.{
  ℕ, suc, ◌+◌, ◌^◌, ◌≤◌, ◌<◌, ◌≡◌, refl, ap, ◌∙◌, false, none, List, [], ◌∷◌, ◌++◌, append_assoc,
  map, arith, length, All, length-append, inl, inr,
}
use shard_log.Bytes.{le_bytes, length-le_bytes}
use shard_log.Outcome.{ok, Result-cases}
use shard_log.Map.{insert}
use shard_log.SinkJournal.Types.{
  DurableSinkCheckpoint, DurableAppend, RecoveredTransaction, CheckpointFits, AppendFits,
  topic_partition_eq,
}
use shard_log.SinkJournal.Codec.{max_frame_bytes, encode_checkpoint, encode_transaction}
use shard_log.SinkJournal.RoundTrip.{
  recovered_append, encode_transaction-eq_ok, decode_transaction-encode_transaction,
}
use shard_log.SinkJournal.Journal.{
  SinkJournal, Blake3, Checkpoints, magic, regressed, frame, read_frame, recover_loop,
}
use shard_log.SinkJournal.Append.{frame_of, prepare, commit, append}
use shard_log.SinkJournal.Frames.{read_frame-whole, length-frame_of}

-- The transaction that recovery hands on.
abbrev pub recovered :
    DurableSinkCheckpoint → List DurableAppend → DurableSinkCheckpoint → RecoveredTransaction
recovered expected appends next = record {
  expected = expected;
  next = next;
  appends = map recovered_append appends;
}

-- The integers of a transaction are in the ranges of their types, and its appends on the shard.
pub record TransactionFits (shard_id : ℕ) (expected : DurableSinkCheckpoint)
    (appends : List DurableAppend) (next : DurableSinkCheckpoint) : Type 0 where
  pub shard : shard_id < 256 ^ 4
  pub expected_fits : CheckpointFits expected
  pub next_fits : CheckpointFits next
  pub appends_fit : All (AppendFits shard_id) appends

-- `History b shard_id j transactions checkpoints`: the journal `j` was created and then took these
-- transactions, none of which goes back behind its partition's last checkpoint.
pub data History (b : Blake3) (shard_id : ℕ)
    : SinkJournal → List RecoveredTransaction → Checkpoints → Type 0 where
  created :
      (max_bytes : ℕ)
      → length magic ≤ max_bytes
      → History b shard_id
          (record { max_bytes = max_bytes; bytes = length magic; file = magic })
          []
          []
  committed :
      {j j' : SinkJournal} {transactions : List RecoveredTransaction} {checkpoints : Checkpoints}
      (expected : DurableSinkCheckpoint) (appends : List DurableAppend)
      (next : DurableSinkCheckpoint)
      → History b shard_id j transactions checkpoints
      → TransactionFits shard_id expected appends next
      → regressed checkpoints expected ≡ false
      → append b none j expected appends next ≡ (ok tt, j')
      → History b shard_id j'
          (transactions ++ (recovered expected appends next ∷ []))
          (insert next.topic_partition next checkpoints)

-- What it means that `prepare` passed.
pub record Prepared (b : Blake3) (j : SinkJournal) (expected : DurableSinkCheckpoint)
    (appends : List DurableAppend) (next : DurableSinkCheckpoint) : Type 0 where
  pub payload : List ℕ
  pub encoded : encode_transaction expected appends next ≡ ok payload
  pub bounded : length payload ≤ max_frame_bytes
  pub some_bytes : 0 < length payload
  pub prepared :
      prepare b j expected appends next
      ≡ ok (frame_of b payload, j.bytes + (4 + length payload + 32))
  pub in_range : j.bytes + (4 + length payload + 32) < 2 ^ 64
  pub in_capacity : j.bytes + (4 + length payload + 32) ≤ j.max_bytes

length-encode_checkpoint : (c : DurableSinkCheckpoint) → length (encode_checkpoint c) ≡ 36
unfolding encode_checkpoint
length-encode_checkpoint c = simp (length-append, length-le_bytes)

pub encode_transaction-pos :
    (expected : DurableSinkCheckpoint) (appends : List DurableAppend) (next : DurableSinkCheckpoint)
    (payload : List ℕ)
    → encode_transaction expected appends next ≡ ok payload
    → 0 < length payload
encode_transaction-pos expected appends next payload e =
    let (same, few, small, body, body_ok, shape) =
      encode_transaction-eq_ok expected appends next payload e in
    omega (
      arith,
      ap length shape,
      length-append (encode_checkpoint expected)
          (encode_checkpoint next ++ (le_bytes 4 (length appends) ++ body)),
      length-encode_checkpoint expected,
    )

module _ (b : Blake3) (j : SinkJournal) (expected : DurableSinkCheckpoint)
    (appends : List DurableAppend) (next : DurableSinkCheckpoint) where
  pub prepare-cases :
      (written : List ℕ) (next_bytes : ℕ)
      → prepare b j expected appends next ≡ ok (written, next_bytes)
      → Prepared b j expected appends next
  unfolding prepare
  prepare-cases written next_bytes h =
      elim (Result-cases (encode_transaction expected appends next)) [
        | inl (payload, e) ↦
            let (same, few, small, body, body_ok, shape) =
              encode_transaction-eq_ok expected appends next payload e in
            record {
              payload = payload;
              encoded = e;
              bounded = small;
              some_bytes = encode_transaction-pos expected appends next payload e;
              prepared = ground arith;
              in_range = ground arith;
              in_capacity = ground arith;
            }
        | inr (x, e) ↦ absurd (ground arith)
      ]

  -- A successful append wrote the frame behind the file and counted its bytes.
  pub append-eq_ok :
      (j' : SinkJournal)
      → append b none j expected appends next ≡ (ok tt, j')
      → (p : Prepared b j expected appends next) × (j' ≡ record j {
        bytes = j.bytes + (4 + length p.payload + 32);
        file = j.file ++ frame_of b p.payload;
      })
  unfolding append commit
  append-eq_ok j' h = elim (Result-cases (prepare b j expected appends next)) [
    | inl ((written, next_bytes), e) ↦
        let p = prepare-cases written next_bytes e in (p, cc (p.prepared))
    | inr (x, e) ↦ absurd (ground arith)
  ]

-- How the loop of `recover` runs over a journal of a history, and over whatever stands behind it.
pub record Reads (b : Blake3) (shard_id : ℕ) (j : SinkJournal)
    (transactions : List RecoveredTransaction) (checkpoints : Checkpoints) : Type 0 where
  pub body : List ℕ
  pub shape : j.file ≡ magic ++ body
  pub counted : j.bytes ≡ length magic + length body
  pub rounds : length transactions ≤ length body
  pub in_capacity : j.bytes ≤ j.max_bytes
  pub loop :
      (fuel : ℕ) (file tail : List ℕ)
      → recover_loop b shard_id
          (length transactions + fuel)
          file
          []
          []
          (length magic)
          (body ++ tail)
        ≡ recover_loop b shard_id fuel file checkpoints transactions
            (length magic + length body)
            tail

recover_loop-frame :
    (b : Blake3) (shard_id fuel : ℕ) (file : List ℕ) (checkpoints : Checkpoints)
    (transactions : List RecoveredTransaction) (position : ℕ) (unread : List ℕ)
    (t : RecoveredTransaction) (end : ℕ) (unread' : List ℕ)
    → read_frame b shard_id checkpoints position unread ≡ ok (frame t end unread')
    → recover_loop b shard_id (suc fuel) file checkpoints transactions position unread
      ≡ recover_loop b shard_id fuel file
          (insert t.next.topic_partition t.next checkpoints)
          (transactions ++ (t ∷ []))
          end
          unread'
recover_loop-frame b shard_id fuel file checkpoints transactions position unread t end unread' e =
    unfold recover_loop in rw (e, recover_loop)

module _ (b : Blake3) (shard_id : ℕ) {j : SinkJournal} {transactions : List RecoveredTransaction}
    {checkpoints : Checkpoints} (expected : DurableSinkCheckpoint) (appends : List DurableAppend)
    (next : DurableSinkCheckpoint) (r : Reads b shard_id j transactions checkpoints)
    (fits : TransactionFits shard_id expected appends next)
    (forward : regressed checkpoints expected ≡ false)
    (p : Prepared b j expected appends next) where
  -- The round that takes the frame which an append has written behind the journal.
  read_frame-committed :
      (tail : List ℕ)
      → read_frame b shard_id checkpoints
          (length magic + length r.body)
          (frame_of b p.payload ++ tail)
        ≡ ok (
            frame
              (recovered expected appends next)
              (length magic + length r.body + 4 + length p.payload + 32)
              tail)
  read_frame-committed tail =
      read_frame-whole b shard_id checkpoints _ p.payload p.some_bytes p.bounded
        (recovered expected appends next) tail
        (decode_transaction-encode_transaction shard_id expected appends next p.payload fits.shard
          fits.expected_fits fits.next_fits fits.appends_fit p.encoded)
        forward (omega (arith, r.counted, p.in_range))

  abbrev t : RecoveredTransaction
  t = recovered expected appends next

  loop_committed :
      (fuel : ℕ) (file tail : List ℕ)
      → recover_loop b shard_id
          (length (transactions ++ (t ∷ [])) + fuel)
          file
          []
          []
          (length magic)
          (r.body ++ frame_of b p.payload ++ tail)
        ≡ recover_loop b shard_id fuel file
            (insert next.topic_partition next checkpoints)
            (transactions ++ (t ∷ []))
            (length magic + length (r.body ++ frame_of b p.payload))
            tail
  loop_committed fuel file tail =
      let round : length (transactions ++ (t ∷ [])) + fuel ≡ length transactions + suc fuel =
        omega (arith, length-append transactions (t ∷ [])) in
      let end : length magic + length r.body + 4 + length p.payload + 32
          ≡ length magic + length (r.body ++ frame_of b p.payload) =
        omega (arith, length-append r.body (frame_of b p.payload), length-frame_of b p.payload) in
      rw (round, append_assoc r.body (frame_of b p.payload) tail)
        (r.loop (suc fuel) file (frame_of b p.payload ++ tail)
          ∙ recover_loop-frame b shard_id fuel file checkpoints transactions _ _ t _ tail
              (read_frame-committed tail)
          ∙ ap
              (λ n.
                recover_loop b shard_id fuel file (insert next.topic_partition next checkpoints)
                  (transactions ++ (t ∷ [])) n tail)
              end)

  pub Reads-committed :
      Reads b shard_id
        (record j {
          bytes = j.bytes + (4 + length p.payload + 32);
          file = j.file ++ frame_of b p.payload;
        })
        (transactions ++ (recovered expected appends next ∷ []))
        (insert next.topic_partition next checkpoints)
  Reads-committed = record {
    body = r.body ++ frame_of b p.payload;
    shape =
        ap (λ f. f ++ frame_of b p.payload) r.shape
        ∙ append_assoc magic r.body (frame_of b p.payload);
    counted = omega (
      arith,
      r.counted,
      length-append r.body (frame_of b p.payload),
      length-frame_of b p.payload,
    );
    rounds = omega (
      arith,
      r.rounds,
      length-append r.body (frame_of b p.payload),
      length-frame_of b p.payload,
      length-append transactions (recovered expected appends next ∷ []),
    );
    in_capacity = p.in_capacity;
    loop = loop_committed;
  }

pub History-Reads :
    (b : Blake3) (shard_id : ℕ) (j : SinkJournal) (transactions : List RecoveredTransaction)
    (checkpoints : Checkpoints)
    → History b shard_id j transactions checkpoints
    → Reads b shard_id j transactions checkpoints
History-Reads b shard_id _ _ _ (created max_bytes h) = record {
  body = [];
  shape = refl;
  counted = refl;
  rounds = omega arith;
  in_capacity = h;
  loop = λ fuel file tail. let e : 0 + fuel ≡ fuel = omega arith in rw e;
}
History-Reads b shard_id _ _ _
      (committed {j} {j'} {transactions} {checkpoints} expected appends next past fits forward
        done) =
    let (p, shape) = append-eq_ok b j expected appends next j' done in
    rw shape (
      Reads-committed b shard_id expected appends next
        (History-Reads b shard_id j transactions checkpoints past) fits forward p)
