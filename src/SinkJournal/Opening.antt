-- ===== src/SinkJournal/Opening.antt =====
-- `SinkJournal::open` with the failures of its own writes: the header of a new file, and the `set_len` that
-- cuts off a partial tail. `open_journal` is the same where neither fails.
use shard_log.Prelude.{
  ℕ, zero, suc, ◌≤◌, ◌<◌, ◌≡◌, refl, Option, none, some, List, [], ◌∷◌, length, take, ltb,
  if◌then◌else◌, arith, length-take_le,
}
use shard_log.Outcome.{ok, err}
use shard_log.Errors.{LogDbError, LogDbResult, storage_io, invalid_config}
use shard_log.SinkJournal.Types.{RecoveredTransaction}
use shard_log.SinkJournal.Journal.{
  SinkJournal, Blake3, magic, read_exact, recover, opened, open_journal,
}

-- `initialize`: the bytes of the header that are written before its write or sync fails. `repair`: the
-- error of `set_len`.
pub record OpenFaults : Type 0 where
  pub initialize : Option ℕ
  pub repair : Option LogDbError

abbrev pub no_faults : OpenFaults
no_faults = record { initialize = none; repair = none }

-- The file that is left, and the answer.
abbrev pub Opened : Type 0
Opened = List ℕ × Option (LogDbResult (SinkJournal × List RecoveredTransaction))

-- A recovery that succeeds has cut the file to its whole frames, at the end of the loop.
unfoldable pub recover_with :
    Option LogDbError
    → ℕ
    → List ℕ
    → Option (LogDbResult (List RecoveredTransaction × List ℕ))
    → Opened
recover_with repair max_bytes file none = (file, none)
recover_with repair max_bytes file (some (err e)) = (file, some (err e))
recover_with none max_bytes file (some (ok (transactions, whole))) =
    (whole, some (opened max_bytes (ok (transactions, whole))))
recover_with (some e) max_bytes file (some (ok (transactions, whole))) = (file, some (err e))

unfoldable pub open_with : Blake3 → OpenFaults → ℕ → ℕ → List ℕ → Opened
unfolding recover_with
open_with b faults shard_id max_bytes [] =
    if ltb max_bytes (length magic)
    then ([], some (err (invalid_config "sink journal max bytes must fit its header")))
    else elim faults.initialize [
      | some k ↦ (take k magic, some (err (storage_io "initialize")))
      | none ↦ recover_with faults.repair max_bytes magic (recover b shard_id magic max_bytes)
    ]
open_with b faults shard_id max_bytes (x ∷ xs) =
    if ltb max_bytes (length magic)
    then (x ∷ xs, some (err (invalid_config "sink journal max bytes must fit its header")))
    else recover_with faults.repair max_bytes (x ∷ xs) (recover b shard_id (x ∷ xs) max_bytes)

recover_with-opened :
    (max_bytes : ℕ) (file : List ℕ) (r : Option (LogDbResult (List RecoveredTransaction × List ℕ)))
    → (recover_with none max_bytes file r).1
      ≡ elim r [ none ↦ none | some outcome ↦ some (opened max_bytes outcome) ]
unfolding recover_with
recover_with-opened max_bytes file none = refl
recover_with-opened max_bytes file (some (err e)) = refl
recover_with-opened max_bytes file (some (ok (transactions, whole))) = refl

-- Where neither write fails, the answer is that of `open_journal`.
open_with-no_faults :
    (b : Blake3) (shard_id max_bytes : ℕ) (file : List ℕ)
    → (open_with b no_faults shard_id max_bytes file).1 ≡ open_journal b shard_id max_bytes file
unfolding open_with open_journal
open_with-no_faults b shard_id max_bytes [] =
    ground (arith, recover_with-opened max_bytes magic (recover b shard_id magic max_bytes))
open_with-no_faults b shard_id max_bytes (x ∷ xs) =
    ground (arith, recover_with-opened max_bytes (x ∷ xs) (recover b shard_id (x ∷ xs) max_bytes))

recover-header_cut :
    (b : Blake3) (shard_id max_bytes : ℕ) (file : List ℕ)
    → length file < length magic
    → length magic ≤ max_bytes
    → recover b shard_id file max_bytes ≡ some (err (storage_io "read header"))
unfolding recover read_exact
recover-header_cut b shard_id max_bytes file short room = ground arith

open_with-refused :
    (b : Blake3) (faults : OpenFaults) (shard_id max_bytes x : ℕ) (xs : List ℕ)
    → length (x ∷ xs) < length magic
    → length magic ≤ max_bytes
    → (open_with b faults shard_id max_bytes (x ∷ xs)).1 ≡ some (err (storage_io "read header"))
unfolding open_with recover_with
open_with-refused b faults shard_id max_bytes x xs short room = rw recover-header_cut (ground arith)

-- Where the capacity fits the header, an empty file whose opening fails behind some, but not all, bytes of
-- the header can no longer be opened with that capacity: it holds these bytes, and a later opening fails to
-- read the header, whatever its own writes do.
pub open_with-header_cut :
    (b : Blake3) (faults later : OpenFaults) (shard_id max_bytes k : ℕ)
    → faults.initialize ≡ some k
    → 0 < k
    → k < length magic
    → length magic ≤ max_bytes
    → ((open_with b faults shard_id max_bytes []).0 ≡ take k magic)
      × ((open_with b later shard_id max_bytes (open_with b faults shard_id max_bytes []).0).1
          ≡ some (err (storage_io "read header")))
open_with-header_cut b faults later shard_id max_bytes zero written some_bytes cut room =
    absurd (omega arith)
open_with-header_cut b faults later shard_id max_bytes (suc k) written some_bytes cut room =
    let left : (open_with b faults shard_id max_bytes []).0 ≡ take (suc k) magic =
      unfold open_with in ground arith in
    (
      left,
      rw left (
          open_with-refused b later shard_id max_bytes b'S' _
            (omega (arith, cut, length-take_le (suc k) magic)) room),
    )
