-- ===== src/SinkJournal/RoundTrip.antt =====
-- A transaction that `encode_transaction` accepts is read back by `decode_transaction`.
use shard_log.Prelude.{
  ℕ, suc, ◌+◌, ◌^◌, ◌≤◌, ◌<◌, ◌≡◌, refl, ap, subst, ◌∙◌, true, List, [], ◌∷◌, ◌++◌, map, append-nil,
  append_assoc, arith, length, length-append, All, nat_eq, ◌==◌, inl, inr,
}
use shard_log.Bytes.{le_bytes, length-le_bytes}
use shard_log.Outcome.{ok, Result-cases}
use shard_log.SinkJournal.Types.{
  TopicPartition, topic_partition_eq, topic_partition_beq_iff, DurableSinkCheckpoint, DurableAppend,
  RecoveredAppend, CheckpointFits, AppendFits,
}
use shard_log.SinkJournal.Codec.{
  max_frame_bytes, encode_checkpoint, encode_appends, encode_transaction, decode_checkpoint,
  decode_appends, decode_transaction,
}
use shard_log.SinkJournal.Cursor.{At, At-next, get_range-At, checked_add-At, read_uint-At, At-uint}

nat_beq-eq : {a b : ℕ} → a ≡ b → (a == b) ≡ true
nat_beq-eq h = ground arith

-- What recovery hands on of an append.
abbrev pub recovered_append : DurableAppend → RecoveredAppend
recovered_append a = record {
  topic_partition = a.topic_partition;
  first_offset = a.first_offset;
  payload = a.payload;
}

module _ (bytes : List ℕ) (fits : length bytes < 2 ^ 64) (c : DurableSinkCheckpoint) (rest : List ℕ)
    (cursor : ℕ) (range : CheckpointFits c)
    (here : At bytes cursor (encode_checkpoint c ++ rest)) where
  At-topic : At bytes cursor (
      le_bytes 16 c.topic_partition.topic_id
      ++ (le_bytes 4 c.topic_partition.partition_id
          ++ (le_bytes 8 c.next_placement_sequence ++ (le_bytes 8 c.next_offset ++ rest))))
  unfolding encode_checkpoint
  At-topic = simp append_assoc at here

  At-partition : At bytes (cursor + 16) (
      le_bytes 4 c.topic_partition.partition_id
      ++ (le_bytes 8 c.next_placement_sequence ++ (le_bytes 8 c.next_offset ++ rest)))
  At-partition = At-uint bytes _ cursor 16 c.topic_partition.topic_id range.topic_id At-topic

  At-sequence :
      At bytes
        (cursor + 16 + 4)
        (le_bytes 8 c.next_placement_sequence ++ (le_bytes 8 c.next_offset ++ rest))
  At-sequence =
      At-uint bytes _ (cursor + 16) 4 c.topic_partition.partition_id range.partition_id At-partition

  At-offset : At bytes (cursor + 16 + 4 + 8) (le_bytes 8 c.next_offset ++ rest)
  At-offset =
      At-uint bytes _ (cursor + 16 + 4) 8 c.next_placement_sequence range.next_placement_sequence
        At-sequence

  At-checkpoint : At bytes (cursor + 16 + 4 + 8 + 8) rest
  At-checkpoint =
      At-uint bytes rest (cursor + 16 + 4 + 8) 8 c.next_offset range.next_offset At-offset

  decode_checkpoint-At : decode_checkpoint bytes cursor ≡ ok (c, cursor + 16 + 4 + 8 + 8)
  unfolding decode_checkpoint
  decode_checkpoint-At =
      rw (read_uint-At bytes _ cursor 16 c.topic_partition.topic_id range.topic_id At-topic fits) (
        rw
          (read_uint-At bytes _ (cursor + 16) 4 c.topic_partition.partition_id range.partition_id
            At-partition fits)
          (rw
            (read_uint-At bytes _ (cursor + 16 + 4) 8 c.next_placement_sequence
              range.next_placement_sequence At-sequence fits)
            (rw (
              read_uint-At bytes rest (cursor + 16 + 4 + 8) 8 c.next_offset range.next_offset
                At-offset fits))))

-- What it means that `encode_appends` accepted a list.
encode_appends-cons :
    (p : TopicPartition) (a : DurableAppend) (as_ : List DurableAppend) (body : List ℕ)
    → encode_appends p (a ∷ as_) ≡ ok body
    → (a.topic_partition ≡ p)
      × (length a.payload < 2 ^ 32)
      × (tail : List ℕ) × (encode_appends p as_ ≡ ok tail)
      × (body
          ≡ le_bytes 4 a.physical_shard_id
            ++ (le_bytes 8 a.first_offset
                ++ (le_bytes 4 (length a.payload) ++ (a.payload ++ tail))))
unfolding encode_appends
encode_appends-cons p a as_ body h = elim (Result-cases (encode_appends p as_)) [
  | inl (tail, e) ↦ (ground arith, ground arith, tail, e, ground arith)
  | inr (x, e) ↦ absurd (ground arith)
]

length-append_frame :
    (a : DurableAppend) (tail : List ℕ)
    → length (
        le_bytes 4 a.physical_shard_id
        ++ (le_bytes 8 a.first_offset ++ (le_bytes 4 (length a.payload) ++ (a.payload ++ tail))))
      ≡ 4 + 8 + 4 + length a.payload + length tail
length-append_frame a tail = simp (length-append, length-le_bytes) (omega arith)

module _ (bytes : List ℕ) (fits : length bytes < 2 ^ 64) (shard_id : ℕ) (p : TopicPartition) where
  -- One round of the decoder's loop, given what its rest returns.
  decode_appends-cons :
      (a : DurableAppend) (n : ℕ) (following : List ℕ) (cursor : ℕ) (found : List RecoveredAppend)
      (end : ℕ)
      → AppendFits shard_id a
      → shard_id < 256 ^ 4
      → a.topic_partition ≡ p
      → length a.payload < 256 ^ 4
      → At bytes cursor (
          le_bytes 4 a.physical_shard_id
          ++ (le_bytes 8 a.first_offset
              ++ (le_bytes 4 (length a.payload) ++ (a.payload ++ following))))
      → (At bytes (cursor + 4 + 8 + 4 + length a.payload) following
          → decode_appends n shard_id p bytes (cursor + 4 + 8 + 4 + length a.payload)
            ≡ ok (found, end))
      → decode_appends (suc n) shard_id p bytes cursor ≡ ok (recovered_append a ∷ found, end)
  unfolding decode_appends
  decode_appends-cons a n following cursor found end range hs same small at_shard ih =
      let at_first =
        At-uint bytes _ cursor 4 a.physical_shard_id (rw range.physical_shard_id hs) at_shard in
      let at_length = At-uint bytes _ (cursor + 4) 8 a.first_offset range.first_offset at_first in
      let at_payload = At-uint bytes _ (cursor + 4 + 8) 4 (length a.payload) small at_length in
      rw
        (read_uint-At bytes _ cursor 4 a.physical_shard_id (rw range.physical_shard_id hs) at_shard
          fits)
        (rw (nat_beq-eq range.physical_shard_id) (
          rw (read_uint-At bytes _ (cursor + 4) 8 a.first_offset range.first_offset at_first fits) (
            rw (read_uint-At bytes _ (cursor + 4 + 8) 4 (length a.payload) small at_length fits) (
              rw
                (checked_add-At bytes a.payload following _ (length a.payload) refl at_payload fits)
                (rw (get_range-At bytes a.payload following _ (length a.payload) refl at_payload) (
                  rw (ih (At-next bytes a.payload following _ (length a.payload) refl at_payload))
                    (ground (arith, same))))))))

  -- The loop of the decoder reads back the appends, and leaves the cursor behind them.
  decode_appends-At :
      (appends : List DurableAppend) (body rest : List ℕ) (cursor : ℕ)
      → All (AppendFits shard_id) appends
      → shard_id < 256 ^ 4
      → encode_appends p appends ≡ ok body
      → At bytes cursor (body ++ rest)
      → (decode_appends (length appends) shard_id p bytes cursor
          ≡ ok (map recovered_append appends, cursor + length body))
  decode_appends-At [] body rest cursor ranges hs h here =
      unfold decode_appends encode_appends in ground arith
  decode_appends-At (a ∷ appends) body rest cursor (range, ranges) hs h here =
      let (same, small, tail, tail_ok, shape) = encode_appends-cons p a appends body h in
      let unfolded = subst (λ b. At bytes cursor (b ++ rest)) shape here in
      decode_appends-cons a (length appends) (tail ++ rest) cursor (map recovered_append appends)
        (cursor + length body) range hs same small (simp append_assoc at unfolded)
        λ at_tail.
          decode_appends-At appends tail rest _ ranges hs tail_ok at_tail
          ∙ ap (λ n. ok (map recovered_append appends, n))
              (omega (arith, ap length shape, length-append_frame a tail))

-- What it means that `encode_transaction` accepted a transaction.
pub encode_transaction-eq_ok :
    (expected : DurableSinkCheckpoint) (appends : List DurableAppend) (next : DurableSinkCheckpoint)
    (encoded : List ℕ)
    → encode_transaction expected appends next ≡ ok encoded
    → (expected.topic_partition ≡ next.topic_partition)
      × (length appends < 2 ^ 32)
      × (length encoded ≤ max_frame_bytes)
      × (body : List ℕ) × (encode_appends expected.topic_partition appends ≡ ok body)
      × (encoded
          ≡ encode_checkpoint expected
            ++ (encode_checkpoint next ++ (le_bytes 4 (length appends) ++ body)))
unfolding encode_transaction
encode_transaction-eq_ok expected appends next encoded h =
    elim (Result-cases (encode_appends expected.topic_partition appends)) [
      | inl (body, e) ↦ (ground arith, ground arith, ground arith, body, e, ground arith)
      | inr (x, e) ↦ absurd (ground arith)
    ]

-- Every transaction that the encoder accepts, with integers in the ranges of their types and every
-- append on the journal's shard, is decoded to its checkpoints and its appends, in order.
pub decode_transaction-encode_transaction :
    (shard_id : ℕ) (expected : DurableSinkCheckpoint) (appends : List DurableAppend)
    (next : DurableSinkCheckpoint) (encoded : List ℕ)
    → shard_id < 256 ^ 4
    → CheckpointFits expected
    → CheckpointFits next
    → All (AppendFits shard_id) appends
    → encode_transaction expected appends next ≡ ok encoded
    → decode_transaction shard_id encoded
      ≡ ok (record { expected = expected; next = next; appends = map recovered_append appends })
unfolding decode_transaction
decode_transaction-encode_transaction shard_id expected appends next encoded hs fe fn ranges h =
    let (same, few, small, body, body_ok, shape) =
      encode_transaction-eq_ok expected appends next encoded h in
    let fits : length encoded < 2 ^ 64 = omega arith in
    let at_start : At encoded 0 (
        encode_checkpoint expected
        ++ (encode_checkpoint next ++ (le_bytes 4 (length appends) ++ body))) =
      (shape, omega (arith, ap length shape)) in
    let at_next = At-checkpoint encoded fits expected _ 0 fe at_start in
    let at_count = At-checkpoint encoded fits next _ (0 + 16 + 4 + 8 + 8) fn at_next in
    let at_appends = At-uint encoded body _ 4 (length appends) few at_count in
    rw (decode_checkpoint-At encoded fits expected _ 0 fe at_start) (
      rw (decode_checkpoint-At encoded fits next _ _ fn at_next) (
        rw ((topic_partition_beq_iff expected.topic_partition next.topic_partition).1 same) (
          rw (read_uint-At encoded body _ 4 (length appends) few at_count fits) (
            rw
              (decode_appends-At encoded fits shard_id expected.topic_partition appends body []
                (0 + 16 + 4 + 8 + 8 + 16 + 4 + 8 + 8 + 4) ranges hs body_ok
                (rw append-nil at_appends))
              (rw (nat_beq-eq at_appends.1))))))
