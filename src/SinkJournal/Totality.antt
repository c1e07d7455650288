-- ===== src/SinkJournal/Totality.antt =====
-- Recovery ends on every file, and opening gives a journal or an error.
use shard_log.Prelude.{
  ℕ, zero, suc, ◌+◌, ◌≤◌, ◌<◌, ◌≡◌, ◌≢◌, ap, if◌then◌else◌, ◌++◌, none, some, List, [], ◌∷◌, arith,
  length, length-drop, Option-cases, inl, inr, is_empty,
}
use shard_log.Bytes.{from_le_bytes}
use shard_log.Outcome.{ok, Result-cases}
use shard_log.Map.{insert}
use shard_log.SinkJournal.Types.{RecoveredTransaction, topic_partition_eq}
use shard_log.SinkJournal.Codec.{decode_transaction}
use shard_log.SinkJournal.Journal.{
  Blake3, Checkpoints, magic, checksum_bytes, partial, frame, read_exact, check_frame, read_body,
  read_frame, recover_loop, recover, open_journal,
}

read_exact-shrinks :
    (n : ℕ) (xs taken rest : List ℕ)
    → read_exact n xs ≡ some (taken, rest)
    → length rest + n ≡ length xs
unfolding read_exact
read_exact-shrinks n xs taken rest h = ground (arith, length-drop n xs)

module _ (b : Blake3) (shard_id : ℕ) where
  check_frame-rest :
      (checkpoints : Checkpoints) (start : ℕ) (payload checksum unread : List ℕ)
      (t : RecoveredTransaction) (end : ℕ) (rest : List ℕ)
      → check_frame b shard_id checkpoints start payload checksum unread ≡ ok (frame t end rest)
      → rest ≡ unread
  unfolding check_frame
  check_frame-rest checkpoints start payload checksum unread t end rest h =
      elim (Result-cases (decode_transaction shard_id payload)) [
        | inl (u, e) ↦ ground arith
        | inr (x, e) ↦ absurd (ground arith)
      ]

  read_body-shrinks :
      (checkpoints : Checkpoints) (position n : ℕ) (unread : List ℕ) (t : RecoveredTransaction)
      (end : ℕ) (rest : List ℕ)
      → read_body b shard_id checkpoints position n unread ≡ ok (frame t end rest)
      → length rest ≤ length unread
  read_body-shrinks checkpoints position n unread t end rest h =
      elim (Option-cases (read_exact n unread)) [
        | inl e ↦ absurd (unfold read_body in ground arith)
        | inr ((payload, unread'), e) ↦ elim (Option-cases (read_exact checksum_bytes unread')) [
          | inl e' ↦ absurd (unfold read_body in ground arith)
          | inr ((checksum, unread''), e') ↦
              let h' : check_frame b shard_id checkpoints position payload checksum unread''
                  ≡ ok (frame t end rest) =
                unfold read_body in ground arith in
              omega (
                arith,
                read_exact-shrinks n unread payload unread' e,
                read_exact-shrinks checksum_bytes unread' checksum unread'' e',
                ap length
                    (check_frame-rest checkpoints position payload checksum unread'' t end rest h'),
              )
        ]
      ]

  read_frame-shrinks :
      (checkpoints : Checkpoints) (position : ℕ) (unread : List ℕ) (t : RecoveredTransaction)
      (end : ℕ) (rest : List ℕ)
      → read_frame b shard_id checkpoints position unread ≡ ok (frame t end rest)
      → length rest < length unread
  read_frame-shrinks checkpoints position unread t end rest h =
      elim (Option-cases (read_exact 4 unread)) [
        | inl e ↦ absurd (unfold read_frame in ground arith)
        | inr ((length_bytes, unread'), e) ↦
            let n = from_le_bytes length_bytes in
            let h' : read_body b shard_id checkpoints position n unread' ≡ ok (frame t end rest) =
              unfold read_frame in ground arith in
            omega (
              arith,
              read_exact-shrinks 4 unread length_bytes unread' e,
              read_body-shrinks checkpoints position n unread' t end rest h',
            )
      ]

  recover_loop-ne-none :
      (fuel : ℕ) (file : List ℕ) (checkpoints : Checkpoints)
      (transactions : List RecoveredTransaction) (position : ℕ) (unread : List ℕ)
      → length unread < fuel
      → recover_loop b shard_id fuel file checkpoints transactions position unread ≢ none
  unfolding recover_loop
  recover_loop-ne-none zero file checkpoints transactions position unread h = absurd (omega arith)
  recover_loop-ne-none (suc fuel) file checkpoints transactions position unread h =
      elim (Result-cases (read_frame b shard_id checkpoints position unread)) [
        | inl (partial, e) ↦ rw (e, recover_loop) (λ q. cc)
        | inl (frame t end rest, e) ↦
            rw (e, recover_loop)
              (recover_loop-ne-none fuel file (insert t.next.topic_partition t.next checkpoints)
                (transactions ++ (t ∷ [])) end rest
                (omega (arith, read_frame-shrinks checkpoints position unread t end rest e)))
        | inr (x, e) ↦ rw (e, recover_loop) (λ q. cc)
      ]

  recover-ne-none : (file : List ℕ) (max_bytes : ℕ) → recover b shard_id file max_bytes ≢ none
  recover-ne-none file max_bytes = elim (Option-cases (read_exact (length magic) file)) [
    | inl e ↦ unfold recover in (λ q. ground arith)
    | inr ((header, unread), e) ↦
        let total =
          recover_loop-ne-none (length file) file [] [] (length magic) unread
            (omega (arith, read_exact-shrinks (length magic) file header unread e)) in
        unfold recover in (λ q. ground (arith, total))
  ]

  -- Opening ends on every file and every capacity: it gives a journal or an error.
  pub open_journal-ne-none :
      (max_bytes : ℕ) (file : List ℕ) → open_journal b shard_id max_bytes file ≢ none
  unfolding open_journal
  open_journal-ne-none max_bytes file =
      let total = recover-ne-none (if is_empty file then magic else file) max_bytes in
      λ q. ground (arith, total)
