-- ===== src/SinkJournal/Frames.antt =====
-- What one round of recovery makes of a whole frame, and of a part of one.
use shard_log.Prelude.{
  ℕ, ◌+◌, ◌-◌, ◌^◌, ◌≤◌, ◌<◌, ◌≡◌, refl, true, ◌∙◌, false, none, some, List, ◌++◌, append_assoc,
  arith, length, take, length-append, take-length_append, drop-length_append, le→leb, dec_lt,
  take-append_ge, length-take_le, list_beq_iff, nat_eq,
}
use shard_log.Bytes.{le_bytes, length-le_bytes, from_le_bytes-le_bytes}
use shard_log.Outcome.{ok, err}
use shard_log.Errors.{corrupt_sink_journal}
use shard_log.SinkJournal.Types.{RecoveredTransaction}
use shard_log.SinkJournal.Codec.{max_frame_bytes, decode_transaction}
use shard_log.SinkJournal.Journal.{
  Blake3, checksum_bytes, Checkpoints, read_exact, regressed, frame, partial, check_frame,
  read_body, read_frame,
}
use shard_log.SinkJournal.Append.{frame_of}

pub read_exact-append :
    (n : ℕ) (xs rest : List ℕ) → length xs ≡ n → read_exact n (xs ++ rest) ≡ some (xs, rest)
unfolding read_exact
read_exact-append n xs rest e = rw (
  ← e,
  le→leb (length xs) (length (xs ++ rest)) (omega (arith, length-append xs rest)),
  take-length_append,
  drop-length_append,
)

pub read_exact-short : (n : ℕ) (xs : List ℕ) → length xs < n → read_exact n xs ≡ none
unfolding read_exact
read_exact-short n xs h = ground arith

pub length-frame_of :
    (b : Blake3) (payload : List ℕ) → length (frame_of b payload) ≡ 4 + length payload + 32
length-frame_of b payload = simp (length-append, length-le_bytes, b.length-hash) (omega arith)

module _ (b : Blake3) (shard_id : ℕ) (checkpoints : Checkpoints) (position : ℕ) (payload : List ℕ)
    (some_bytes : 0 < length payload) (bounded : length payload ≤ max_frame_bytes) where
  -- The round behind the four bytes of the length.
  after_length :
      (rest : List ℕ)
      → read_frame b shard_id checkpoints position (le_bytes 4 (length payload) ++ rest)
        ≡ read_body b shard_id checkpoints position (length payload) rest
  unfolding read_frame
  after_length rest =
      rw
        (
          read_exact-append 4 (le_bytes 4 (length payload)) rest
              (length-le_bytes 4 (length payload)),
          read_frame,
        )
        (rw (from_le_bytes-le_bytes 4 (length payload) (omega arith)) (ground arith))

  read_frame-frame_of :
      (rest : List ℕ)
      → read_frame b shard_id checkpoints position (frame_of b payload ++ rest)
        ≡ check_frame b shard_id checkpoints position payload (b.hash payload) rest
  unfolding read_body
  read_frame-frame_of rest =
      rw
        (
          append_assoc (le_bytes 4 (length payload)) (payload ++ b.hash payload) rest,
          append_assoc payload (b.hash payload) rest,
        )
        (after_length (payload ++ (b.hash payload ++ rest))
          ∙ rw (
            read_exact-append (length payload) payload (b.hash payload ++ rest) refl,
            read_exact-append checksum_bytes (b.hash payload) rest (b.length-hash payload),
            read_body,
          ))

  check_frame-whole :
      (t : RecoveredTransaction) (rest : List ℕ)
      → decode_transaction shard_id payload ≡ ok t
      → regressed checkpoints t.expected ≡ false
      → position + 4 + length payload + 32 < 2 ^ 64
      → check_frame b shard_id checkpoints position payload (b.hash payload) rest
        ≡ ok (frame t (position + 4 + length payload + 32) rest)
  unfolding check_frame
  check_frame-whole t rest decoded forward fits =
      ground (arith, (list_beq_iff (b.hash payload) (b.hash payload)).1 refl, decoded, forward)

  -- A whole frame with an acceptable transaction is taken, whatever stands behind it.
  pub read_frame-whole :
      (t : RecoveredTransaction) (rest : List ℕ)
      → decode_transaction shard_id payload ≡ ok t
      → regressed checkpoints t.expected ≡ false
      → position + 4 + length payload + 32 < 2 ^ 64
      → read_frame b shard_id checkpoints position (frame_of b payload ++ rest)
        ≡ ok (frame t (position + 4 + length payload + 32) rest)
  read_frame-whole t rest decoded forward fits =
      read_frame-frame_of rest ∙ check_frame-whole t rest decoded forward fits

  -- A whole frame whose transaction goes back behind its partition's checkpoint stops recovery.
  pub read_frame-regressed :
      (t : RecoveredTransaction) (rest : List ℕ)
      → decode_transaction shard_id payload ≡ ok t
      → regressed checkpoints t.expected ≡ true
      → read_frame b shard_id checkpoints position (frame_of b payload ++ rest)
        ≡ err (corrupt_sink_journal "journal checkpoint sequence or offset regressed")
  unfolding check_frame
  read_frame-regressed t rest decoded back =
      read_frame-frame_of rest
      ∙ ground (arith, (list_beq_iff (b.hash payload) (b.hash payload)).1 refl, decoded, back)

  read_body-cut :
      (k : ℕ)
      → k < length payload + 32
      → read_body b shard_id checkpoints position
          (length payload)
          (take k (payload ++ b.hash payload))
        ≡ ok partial
  unfolding read_body
  read_body-cut k h = elim (dec_lt k (length payload)) [
    | yes inside ↦ rw (
      read_exact-short (length payload) (take k (payload ++ b.hash payload))
          (omega (arith, length-take_le k (payload ++ b.hash payload))),
      read_body,
    )
    | no behind ↦ rw (take-append_ge k payload (b.hash payload) (omega arith)) (
        rw (
          read_exact-append (length payload) payload (take (k - length payload) (b.hash payload))
              refl,
          read_exact-short checksum_bytes (take (k - length payload) (b.hash payload))
              (omega (arith, length-take_le (k - length payload) (b.hash payload))),
          read_body,
        ))
  ]

  -- A frame that was cut anywhere is partial.
  pub read_frame-cut :
      (k : ℕ)
      → k < length (frame_of b payload)
      → read_frame b shard_id checkpoints position (take k (frame_of b payload)) ≡ ok partial
  read_frame-cut k h = elim (dec_lt k 4) [
    | yes inside ↦
        unfold read_frame in
        rw (
          read_exact-short 4 (take k (frame_of b payload))
              (omega (arith, length-take_le k (frame_of b payload))),
          read_frame,
        )
    | no behind ↦
        rw
          (take-append_ge k (le_bytes 4 (length payload)) (payload ++ b.hash payload)
            (omega (arith, length-le_bytes 4 (length payload))))
          (after_length
              (take (k - length (le_bytes 4 (length payload))) (payload ++ b.hash payload))
            ∙ read_body-cut (k - length (le_bytes 4 (length payload)))
                (omega (arith, length-le_bytes 4 (length payload), length-frame_of b payload)))
  ]
