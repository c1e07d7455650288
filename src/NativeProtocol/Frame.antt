-- ===== src/NativeProtocol/Frame.antt =====
-- The frame header, the frame and the append acknowledgement of src/native_protocol.rs.
use shard_log.Prelude.{
  ℕ, zero, suc, ◌*◌, ◌^◌, Bool, true, false, not, ◌||◌, List, [], ◌∷◌, ◌++◌, length, ltb, list_beq,
  nat_eq, ◌==◌, if◌then◌else◌,
}
use Prim.Native.Nat.{bit_and}
use shard_log.Bytes.{le_bytes, from_le_bytes}
use shard_log.Outcome.{ok, err, ◌>>=◌, ◌>>◌, reject}
use shard_log.SinkJournal.Journal.{Blake3}
use shard_log.NativeProtocol.Wire.{message, formatted, Checked, slice}

abbrev pub native_frame_header_bytes : ℕ
native_frame_header_bytes = 32

abbrev pub max_native_frame_bytes : ℕ
max_native_frame_bytes = 16 * 1024 * 1024

abbrev pub frame_magic : List ℕ
frame_magic = b'S' ∷ b'L' ∷ b'N' ∷ b'P' ∷ []

abbrev pub frame_version : ℕ
frame_version = 1

pub data NativeOpcode : Type 0 where
  append_batch query ping authenticate : NativeOpcode

abbrev pub opcode_byte : NativeOpcode → ℕ
opcode_byte append_batch = 1
opcode_byte query = 2
opcode_byte ping = 3
opcode_byte authenticate = 4

unfoldable pub opcode_from_byte : ℕ → Checked NativeOpcode
opcode_from_byte value =
    if value == 1
    then ok append_batch
    else if value == 2
    then ok query
    else if value == 3
    then ok ping
    else if value == 4
    then ok authenticate
    else err (formatted "unsupported native opcode {value}" (value ∷ []))

pub data NativeStatus : Type 0 where
  success bad_request internal unsupported unauthorized unavailable too_many_requests timeout :
      NativeStatus

abbrev pub status_byte : NativeStatus → ℕ
status_byte success = 0
status_byte bad_request = 1
status_byte internal = 2
status_byte unsupported = 3
status_byte unauthorized = 4
status_byte unavailable = 5
status_byte too_many_requests = 6
status_byte timeout = 7

unfoldable pub status_from_byte : ℕ → Checked NativeStatus
status_from_byte value =
    if value == 0
    then ok success
    else if value == 1
    then ok bad_request
    else if value == 2
    then ok internal
    else if value == 3
    then ok unsupported
    else if value == 4
    then ok unauthorized
    else if value == 5
    then ok unavailable
    else if value == 6
    then ok too_many_requests
    else if value == 7
    then ok timeout
    else err (formatted "unsupported native status {value}" (value ∷ []))

pub record NativeFrameHeader : Type 0 where
  pub opcode : NativeOpcode
  pub request_id : ℕ
  pub status : NativeStatus
  pub is_response : Bool
  pub payload_len : ℕ
  pub payload_checksum : ℕ

-- The first four bytes of the payload's hash.
unfoldable pub payload_checksum : Blake3 → List ℕ → ℕ
payload_checksum b payload = from_le_bytes (slice 0 4 (b.hash payload))

unfoldable pub new_header :
    Blake3 → NativeOpcode → ℕ → NativeStatus → Bool → List ℕ → Checked NativeFrameHeader
new_header b opcode request_id status is_response payload = do
  reject (ltb max_native_frame_bytes (length payload)) (
      formatted "native frame payload is {} bytes, exceeding {MAX_NATIVE_FRAME_BYTES}"
        (length payload ∷ max_native_frame_bytes ∷ []))
  reject (not (ltb (length payload) (2 ^ 32))) (message "native frame payload exceeds u32")
  ok (record {
    opcode = opcode;
    request_id = request_id;
    status = status;
    is_response = is_response;
    payload_len = length payload;
    payload_checksum = payload_checksum b payload;
  })

unfoldable pub request_header : Blake3 → NativeOpcode → ℕ → List ℕ → Checked NativeFrameHeader
unfolding new_header
request_header b opcode request_id payload = new_header b opcode request_id success false payload

unfoldable pub response_header :
    Blake3 → NativeOpcode → ℕ → NativeStatus → List ℕ → Checked NativeFrameHeader
unfolding new_header
response_header b opcode request_id status payload =
    new_header b opcode request_id status true payload

abbrev pub flag_byte : Bool → ℕ
flag_byte true = 1
flag_byte false = 0

unfoldable pub encode_header : NativeFrameHeader → List ℕ
encode_header h =
    frame_magic
    ++ ((frame_version ∷ opcode_byte h.opcode ∷ flag_byte h.is_response ∷ status_byte h.status ∷ [])
        ++ (le_bytes 16 h.request_id
            ++ (le_bytes 4 h.payload_len ++ le_bytes 4 h.payload_checksum)))

-- The byte at an index of an array, which the code reads inside the array only.
abbrev pub byte_at : ℕ → List ℕ → ℕ
byte_at i [] = 0
byte_at zero (x ∷ bytes) = x
byte_at (suc i) (x ∷ bytes) = byte_at i bytes

-- The checks of `decode`, in its order, on what it reads. `flags & !FRAME_FLAG_RESPONSE` of a u8 is
-- `bit_and flags 254`.
unfoldable pub check_header : List ℕ → ℕ → ℕ → ℕ → ℕ → ℕ → ℕ → ℕ → Checked NativeFrameHeader
check_header magic version opcode flags status request_id payload_len checksum = do
  reject (not (list_beq magic frame_magic)) (message "invalid native frame magic")
  reject (not (version == frame_version))
      (formatted "unsupported native frame version {}" (version ∷ []))
  reject (not (bit_and flags 254 == 0)) (message "native frame contains unknown flags")
  reject (ltb max_native_frame_bytes payload_len) (
      formatted "native frame payload is {payload_len} bytes, exceeding {MAX_NATIVE_FRAME_BYTES}"
        (payload_len ∷ max_native_frame_bytes ∷ []))
  opcode ← opcode_from_byte opcode
  status ← status_from_byte status
  ok (record {
    opcode = opcode;
    request_id = request_id;
    status = status;
    is_response = flags == 1;
    payload_len = payload_len;
    payload_checksum = checksum;
  })

-- The header's bytes are an array of 32.
unfoldable pub decode_header : List ℕ → Checked NativeFrameHeader
decode_header bytes =
    check_header (slice 0 4 bytes) (byte_at 4 bytes) (byte_at 5 bytes) (byte_at 6 bytes)
      (byte_at 7 bytes) (from_le_bytes (slice 8 24 bytes)) (from_le_bytes (slice 24 28 bytes))
      (from_le_bytes (slice 28 32 bytes))

unfoldable pub verify_payload : Blake3 → NativeFrameHeader → List ℕ → Checked (Unit {0})
verify_payload b h payload = do
  reject (not (length payload == h.payload_len))
      (message "native frame payload length disagrees with its header")
  reject (not (payload_checksum b payload == h.payload_checksum))
      (message "native frame payload checksum mismatch")
  ok tt

pub record NativeFrame : Type 0 where
  pub header : NativeFrameHeader
  pub payload : List ℕ

unfoldable pub request_frame : Blake3 → NativeOpcode → ℕ → List ℕ → Checked NativeFrame
request_frame b opcode request_id payload = do
  header ← request_header b opcode request_id payload
  ok (record { header = header; payload = payload })

unfoldable pub response_frame :
    Blake3 → NativeOpcode → ℕ → NativeStatus → List ℕ → Checked NativeFrame
response_frame b opcode request_id status payload = do
  header ← response_header b opcode request_id status payload
  ok (record { header = header; payload = payload })

unfoldable pub encode_frame : NativeFrame → List ℕ
encode_frame f = encode_header f.header ++ f.payload

pub record NativeAppendAck : Type 0 where
  pub partition_id : ℕ
  pub first_offset : ℕ
  pub last_offset : ℕ

abbrev pub append_ack_magic : List ℕ
append_ack_magic = b'S' ∷ b'L' ∷ b'A' ∷ b'1' ∷ []

unfoldable pub encode_ack : NativeAppendAck → List ℕ
encode_ack a =
    append_ack_magic
    ++ (le_bytes 4 a.partition_id ++ (le_bytes 8 a.first_offset ++ le_bytes 8 a.last_offset))

unfoldable pub decode_ack : List ℕ → Checked NativeAppendAck
decode_ack payload = do
  reject (not (length payload == 24) || not (list_beq (slice 0 4 payload) append_ack_magic))
      (message "invalid native append acknowledgement")
  ok (record {
    partition_id = from_le_bytes (slice 4 8 payload);
    first_offset = from_le_bytes (slice 8 16 payload);
    last_offset = from_le_bytes (slice 16 24 payload);
  })
