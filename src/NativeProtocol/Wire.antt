-- ===== src/NativeProtocol/Wire.antt =====
-- What the decoders of src/native_protocol.rs share: the error, the cursor over a payload, and UTF-8.
-- A text is the list of its bytes. An error that `format!` builds keeps its template and its numbers.
use shard_log.Prelude.{
  ℕ, zero, suc, ◌+◌, ◌-◌, ◌^◌, Bool, true, false, not, ◌&&◌, Option, none, some, String, List, [],
  ◌∷◌, length, take, drop, ltb, leb, list_beq, list_beq_iff, nat_eq, Eq, ◌==◌, if◌then◌else◌,
}
use shard_log.Bytes.{from_le_bytes}
use shard_log.Outcome.{Result, ok, err, ◌>>=◌, ◌>>◌, reject}

pub data NativeProtocolError : Type 0 where
  message : String → NativeProtocolError
  formatted : String → List ℕ → NativeProtocolError
  -- "native {field} …" and "{field} …", with the field's name.
  of_field : String → String → NativeProtocolError

abbrev pub Checked : Type 0 → Type 0
Checked A = Result NativeProtocolError A

abbrev pub Text : Type 0
Text = List ℕ

instance abbrev pub text_eq : Eq (List ℕ)
text_eq = record { beq = list_beq; beq_iff = list_beq_iff }

-- The continuation bytes that a first byte asks for, and the range of the first of them.
unfoldable pub utf8_lead : ℕ → Option (ℕ × ℕ × ℕ)
utf8_lead b =
    if ltb b 0x80
    then some (0, 0x80, 0xBF)
    else if leb 0xC2 b && leb b 0xDF
    then some (1, 0x80, 0xBF)
    else if b == 0xE0
    then some (2, 0xA0, 0xBF)
    else if b == 0xED
    then some (2, 0x80, 0x9F)
    else if leb 0xE1 b && leb b 0xEF
    then some (2, 0x80, 0xBF)
    else if b == 0xF0
    then some (3, 0x90, 0xBF)
    else if leb 0xF1 b && leb b 0xF3
    then some (3, 0x80, 0xBF)
    else if b == 0xF4
    then some (3, 0x80, 0x8F)
    else none

-- `std::str::from_utf8`, with the continuation bytes still to come and the range of the next.
unfoldable pub utf8_from : ℕ → ℕ → ℕ → List ℕ → Bool
unfolding utf8_lead
utf8_from pending low high [] = pending == 0
utf8_from zero low high (b ∷ bytes) = elim (utf8_lead b) [
  | none ↦ false
  | some (pending, low', high') ↦ utf8_from pending low' high' bytes
]
utf8_from (suc pending) low high (b ∷ bytes) = elim (leb low b && leb b high) [
  | true ↦ utf8_from pending 0x80 0xBF bytes
  | false ↦ false
]

unfoldable pub is_utf8 : List ℕ → Bool
unfolding utf8_from
is_utf8 bytes = utf8_from 0 0x80 0xBF bytes

-- `bytes[start..end]`, where the bytes are known to reach that far.
abbrev pub slice : ℕ → ℕ → List ℕ → List ℕ
slice start end bytes = take (end - start) (drop start bytes)

pub record Cursor : Type 0 where
  pub bytes : List ℕ
  pub offset : ℕ

-- `a.checked_add(b).filter(|sum| *sum <= limit)` on usize, as a test.
abbrev pub sum_within : ℕ → ℕ → ℕ → Bool
sum_within a b limit = ltb (a + b) (2 ^ 64) && leb (a + b) limit

unfoldable pub read_bytes : Cursor → ℕ → String → Checked (List ℕ × Cursor)
read_bytes c len field =
    if sum_within c.offset len (length c.bytes)
    then ok (slice c.offset (c.offset + len) c.bytes, record c { offset = c.offset + len })
    else err (of_field "native {field} is truncated" field)

-- `u16`, `u32` and `u64`, by their width.
unfoldable pub uint : ℕ → Cursor → String → Checked (ℕ × Cursor)
unfolding read_bytes
uint width c field = do (value, c) ← read_bytes c width field; ok (from_le_bytes value, c)

unfoldable pub string : Cursor → ℕ → String → Checked (Text × Cursor)
unfolding read_bytes is_utf8
string c len field = do
  (value, c) ← read_bytes c len field
  reject (not (is_utf8 value)) (of_field "native {field} is not UTF-8" field)
  ok (value, c)

unfoldable pub string16 : Cursor → String → Checked (Text × Cursor)
unfolding uint string
string16 c field = do (len, c) ← uint 2 c field; string c len field

unfoldable pub finish : Cursor → Checked (Unit {0})
finish c =
    reject (not (c.offset == length c.bytes)) (message "native payload contains trailing bytes")
