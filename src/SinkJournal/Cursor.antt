-- ===== src/SinkJournal/Cursor.antt =====
-- Reading at a cursor: what the reads of the decoder return where the bytes are known.
use shard_log.Prelude.{
  ℕ, zero, suc, ◌+◌, ◌-◌, ◌^◌, ◌<◌, ◌≡◌, sym, ap, ◌∙◌, some, List, [], ◌∷◌, ◌++◌, arith, length,
  take, drop, length-append, take-length_append, drop-length_append, lt→ltb, le→leb,
}
use shard_log.Bytes.{le_bytes, length-le_bytes, from_le_bytes-le_bytes}
use shard_log.Outcome.{ok}
use shard_log.Errors.{checked_add}
use shard_log.SinkJournal.Codec.{get_range, read_array, read_uint}

-- At `cursor`, `rest` is what is left of `bytes`.
abbrev pub At : List ℕ → ℕ → List ℕ → Type 0
At bytes cursor rest = (drop cursor bytes ≡ rest) × (cursor + length rest ≡ length bytes)

drop-drop : (a b : ℕ) (xs : List ℕ) → drop b (drop a xs) ≡ drop (a + b) xs
drop-drop zero b xs = ap (λ n. drop n xs) (omega arith)
drop-drop (suc a) zero [] = let e : suc a + 0 ≡ suc (a + 0) = omega arith in rw e
drop-drop (suc a) (suc b) [] = let e : suc a + suc b ≡ suc (a + suc b) = omega arith in rw e
drop-drop (suc a) b (x ∷ xs) =
    let e : suc a + b ≡ suc (a + b) = omega arith in rw e (drop-drop a b xs)

module _ (bytes chunk rest : List ℕ) (cursor n : ℕ) (width : length chunk ≡ n)
    (here : At bytes cursor (chunk ++ rest)) where
  pub At-next : At bytes (cursor + n) rest
  At-next = (
    sym (drop-drop cursor n bytes)
        ∙ ap (drop n) here.0
        ∙ ap (λ k. drop k (chunk ++ rest)) (sym width)
        ∙ drop-length_append chunk rest,
    omega (arith, here.1, length-append chunk rest),
  )

  pub get_range-At : get_range cursor (cursor + n) bytes ≡ some chunk
  unfolding get_range
  get_range-At =
      rw
        (
          le→leb cursor (cursor + n) (omega arith),
          le→leb (cursor + n) (length bytes) (omega (arith, here.1, length-append chunk rest)),
        )
        (ap some (ap₂' ∙ take-length_append chunk rest))
    where
      ap₂' : take (cursor + n - cursor) (drop cursor bytes) ≡ take (length chunk) (chunk ++ rest)
      ap₂' = let e : cursor + n - cursor ≡ length chunk = omega arith in rw (e, here.0)

  pub checked_add-At : length bytes < 2 ^ 64 → checked_add cursor n ≡ ok (cursor + n)
  checked_add-At fits =
      rw (lt→ltb (cursor + n) (2 ^ 64) (omega (arith, here.1, length-append chunk rest)))

  pub read_array-At : length bytes < 2 ^ 64 → read_array n bytes cursor ≡ ok (chunk, cursor + n)
  unfolding read_array
  read_array-At fits = rw (checked_add-At fits) (rw get_range-At)

module _ (bytes rest : List ℕ) (cursor w v : ℕ) (range : v < 256 ^ w)
    (here : At bytes cursor (le_bytes w v ++ rest)) where
  pub read_uint-At : length bytes < 2 ^ 64 → read_uint w bytes cursor ≡ ok (v, cursor + w)
  unfolding read_uint
  read_uint-At fits =
      rw (read_array-At bytes (le_bytes w v) rest cursor w (length-le_bytes w v) here fits)
        (rw (from_le_bytes-le_bytes w v range))

  pub At-uint : At bytes (cursor + w) rest
  At-uint = At-next bytes (le_bytes w v) rest cursor w (length-le_bytes w v) here
