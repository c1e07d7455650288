-- ===== src/NativeProtocol/FrameRoundTrip.antt =====
-- Frames and acknowledgements are read back as they were written.
use shard_log.Prelude.{
  ℕ, zero, suc, ◌^◌, ◌≤◌, ◌<◌, ◌≡◌, refl, ◌∙◌, Bool, true, false, List, [], ◌∷◌, ◌++◌, arith,
  length, take, drop, All, drop-length_append, take-length_append, list_beq, ltb-false, ◌↔◌, subst,
  length-take, nat_eq,
}
use native.Mathlib.Nat.{pow-suc}
use shard_log.Bytes.{IsByte, le_bytes, from_le_bytes, from_le_bytes-le_bytes}
use shard_log.Outcome.{ok}
use shard_log.SinkJournal.Journal.{Blake3}
use shard_log.NativeProtocol.Frame.{
  max_native_frame_bytes, frame_magic, frame_version, flag_byte, NativeOpcode, append_batch, query,
  ping, authenticate, opcode_byte, opcode_from_byte, NativeStatus, status_byte, status_from_byte,
  success, bad_request, internal, unsupported, unauthorized, unavailable, too_many_requests,
  timeout, NativeFrameHeader, new_header, encode_header, check_header, decode_header,
  verify_payload, payload_checksum, encode_frame, NativeAppendAck, encode_ack, decode_ack,
}

opcode_from_byte-opcode_byte : (o : NativeOpcode) → opcode_from_byte (opcode_byte o) ≡ ok o
unfolding opcode_from_byte
opcode_from_byte-opcode_byte append_batch = refl
opcode_from_byte-opcode_byte query = refl
opcode_from_byte-opcode_byte ping = refl
opcode_from_byte-opcode_byte authenticate = refl

status_from_byte-status_byte : (s : NativeStatus) → status_from_byte (status_byte s) ≡ ok s
unfolding status_from_byte
status_from_byte-status_byte success = refl
status_from_byte-status_byte bad_request = refl
status_from_byte-status_byte internal = refl
status_from_byte-status_byte unsupported = refl
status_from_byte-status_byte unauthorized = refl
status_from_byte-status_byte unavailable = refl
status_from_byte-status_byte too_many_requests = refl
status_from_byte-status_byte timeout = refl

-- A header whose integers are in the ranges of their types, and whose length is allowed.
pub record HeaderFits (h : NativeFrameHeader) : Type 0 where
  pub request_id : h.request_id < 256 ^ 16
  pub payload_len : h.payload_len ≤ max_native_frame_bytes
  pub payload_checksum : h.payload_checksum < 256 ^ 4

check_header_lem :
    (o : NativeOpcode) (st : NativeStatus) (response : Bool) (id len sum : ℕ)
    → len ≤ max_native_frame_bytes
    → check_header frame_magic frame_version
        (opcode_byte o)
        (flag_byte response)
        (status_byte st)
        id
        len
        sum
      ≡ ok (record {
        opcode = o;
        request_id = id;
        status = st;
        is_response = response;
        payload_len = len;
        payload_checksum = sum;
      })
unfolding check_header list_beq
check_header_lem o st true id len sum small = rw (
  ltb-false max_native_frame_bytes len small,
  opcode_from_byte-opcode_byte o,
  status_from_byte-status_byte st,
)
check_header_lem o st false id len sum small = rw (
  ltb-false max_native_frame_bytes len small,
  opcode_from_byte-opcode_byte o,
  status_from_byte-status_byte st,
)

module _ (h : NativeFrameHeader) (fits : HeaderFits h) where
  read_header :
      decode_header (encode_header h)
      ≡ check_header frame_magic frame_version
          (opcode_byte h.opcode)
          (flag_byte h.is_response)
          (status_byte h.status)
          h.request_id
          h.payload_len
          h.payload_checksum
  unfolding decode_header encode_header le_bytes from_le_bytes
  read_header = λ i.
      check_header frame_magic frame_version (opcode_byte h.opcode) (flag_byte h.is_response)
        (status_byte h.status) (from_le_bytes-le_bytes 16 h.request_id fits.request_id i)
        (from_le_bytes-le_bytes 4 h.payload_len (omega (arith, fits.payload_len)) i)
        (from_le_bytes-le_bytes 4 h.payload_checksum fits.payload_checksum i)

  -- A header whose integers are in range is decoded from its bytes.
  pub decode_header-encode_header : decode_header (encode_header h) ≡ ok h
  decode_header-encode_header =
      read_header
      ∙ check_header_lem h.opcode h.status h.is_response h.request_id h.payload_len
          h.payload_checksum fits.payload_len

  length-encode_header : length (encode_header h) ≡ 32
  unfolding encode_header le_bytes
  length-encode_header = refl

take-IsByte : (n : ℕ) (xs : List ℕ) → All IsByte xs → All IsByte (take n xs)
take-IsByte zero xs h = tt
take-IsByte (suc n) [] h = tt
take-IsByte (suc n) (x ∷ xs) h = (h.0, take-IsByte n xs h.1)

from_le_bytes-lt : (xs : List ℕ) → All IsByte xs → from_le_bytes xs < 256 ^ length xs
unfolding from_le_bytes
from_le_bytes-lt [] h = omega arith
from_le_bytes-lt (x ∷ xs) h =
    rw (pow-suc 256 (length xs)) (omega (arith, from_le_bytes-lt xs h.1, h.0))

module _ (b : Blake3) (payload : List ℕ) where
  payload_checksum-lt : payload_checksum b payload < 256 ^ 4
  unfolding payload_checksum
  payload_checksum-lt =
      subst (λ n. from_le_bytes (take 4 (b.hash payload)) < 256 ^ n)
        (length-take 4 (b.hash payload) (omega (arith, b.length-hash payload)))
        (from_le_bytes-lt (take 4 (b.hash payload))
          (take-IsByte 4 (b.hash payload) (b.hash-IsByte payload)))

  -- For a request id that is a u128, `new` makes a header for every payload up to the limit. The first
  -- 32 bytes of the frame are decoded to that header, the rest is the payload, and of all payloads the
  -- header is verified for exactly those of the same length and checksum.
  pub decode_header-encode_frame :
      (o : NativeOpcode) (id : ℕ) (st : NativeStatus) (response : Bool)
      → id < 256 ^ 16
      → length payload ≤ max_native_frame_bytes
      → (h : NativeFrameHeader) × (new_header b o id st response payload ≡ ok h)
        × (decode_header (take 32 (encode_frame (record { header = h; payload = payload }))) ≡ ok h)
        × (drop 32 (encode_frame (record { header = h; payload = payload })) ≡ payload)
        × ((other : List ℕ)
            → (verify_payload b h other ≡ ok tt) ↔ (
                (length other ≡ length payload)
                × (payload_checksum b other ≡ payload_checksum b payload)))
  unfolding new_header encode_frame verify_payload
  decode_header-encode_frame o id st response id_fits small =
      let h : NativeFrameHeader = record {
        opcode = o;
        request_id = id;
        status = st;
        is_response = response;
        payload_len = length payload;
        payload_checksum = payload_checksum b payload;
      } in
      let fits : HeaderFits h = record {
        request_id = id_fits;
        payload_len = small;
        payload_checksum = payload_checksum-lt;
      } in
      (
        h,
        ground arith,
        subst (λ n. decode_header (take n (encode_header h ++ payload)) ≡ ok h)
            (length-encode_header h fits)
            (rw (take-length_append (encode_header h) payload)
              (decode_header-encode_header h fits)),
        subst (λ n. drop n (encode_header h ++ payload) ≡ payload) (length-encode_header h fits)
            (drop-length_append (encode_header h) payload),
        λ other. ground arith,
      )

-- An acknowledgement whose integers are in the ranges of their types is decoded from its bytes.
pub decode_ack-encode_ack :
    (a : NativeAppendAck)
    → a.partition_id < 256 ^ 4
    → a.first_offset < 256 ^ 8
    → a.last_offset < 256 ^ 8
    → decode_ack (encode_ack a) ≡ ok a
unfolding decode_ack encode_ack le_bytes list_beq from_le_bytes
decode_ack-encode_ack a p f l = λ i. ok (record {
  partition_id = from_le_bytes-le_bytes 4 a.partition_id p i;
  first_offset = from_le_bytes-le_bytes 8 a.first_offset f i;
  last_offset = from_le_bytes-le_bytes 8 a.last_offset l i;
})
