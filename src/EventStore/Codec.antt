-- ===== src/EventStore/Codec.antt =====
-- event_store/codec.py: the framing of one record. SHA-256 is an argument. `offset` and lengths are
-- naturals; a Python slice `buf[a:b]` is `slice buf a b`, which stops at the end of the buffer.
pub mod Layout
pub mod RoundTrip
pub mod Torn
use turtle_qts_execution.Base.{
  ℕ, zero, suc, ◌+◌, ◌-◌, ◌*◌, ◌/◌, ◌%◌, ◌^◌, List, [], ◌∷◌, ◌++◌, Outcome, ok, err, Error,
  struct_error, length, take, drop, ltb, ◌==◌, not, text_eq, if◌then◌else◌, codes,
}

abbrev pub Bytes : Type 0
Bytes = List ℕ

abbrev pub slice : Bytes → ℕ → ℕ → Bytes
slice buf a b = take (b - a) (drop a buf)

-- An unsigned integer of `w` bytes, the most significant first.
unfoldable pub pack_be : ℕ → ℕ → Bytes
pack_be zero n = []
pack_be (suc w) n = pack_be w (n / 256) ++ (n % 256) ∷ []

unpack_from : ℕ → Bytes → ℕ
unpack_from acc [] = acc
unpack_from acc (c ∷ s) = unpack_from (acc * 256 + c) s

pub unpack_be : Bytes → ℕ
unfolding unpack_from
unpack_be s = unpack_from 0 s

abbrev pub magic : Bytes
magic = codes "TQEV"

abbrev pub format_version : ℕ
format_version = 1

abbrev pub checksum_size : ℕ
checksum_size = 32

-- `len(MAGIC) + _HEADER_TAIL_STRUCT.size`, with the struct `>BQI`
abbrev pub header_size : ℕ
header_size = 17

unfoldable pub header : ℕ → ℕ → Bytes
header event_id n = magic ++ (pack_be 1 format_version ++ (pack_be 8 event_id ++ pack_be 4 n))

module _ (sha256 : Bytes → Bytes) where
  unfoldable pub frame : ℕ → Bytes → Bytes
  frame event_id payload =
      header event_id (length payload)
      ++ (payload ++ sha256 (header event_id (length payload) ++ payload))

  -- `struct.pack` raises `struct.error` where a number does not fit its field.
  unfoldable pub encode_record : ℕ → Bytes → Outcome Bytes
  encode_record event_id payload =
      if ltb event_id (2 ^ 64)
      then if ltb (length payload) (2 ^ 32) then ok (frame event_id payload) else err struct_error
      else err struct_error

-- What `decode_record` returns, or the `RecordDecodeError` that it raises.
pub data Decoded : Type 0 where
  record_read : ℕ → Bytes → ℕ → Decoded
  incomplete bad_magic unsupported_version : Decoded
  checksum_mismatch : ℕ → Decoded

module _ (sha256 : Bytes → Bytes) where
  -- From the payload on, with the header's fields read.
  decode_body : Bytes → ℕ → ℕ → ℕ → Decoded
  decode_body buf offset event_id payload_length =
      let payload_start = offset + header_size in
      let payload_end = payload_start + payload_length in
      let checksum_end = payload_end + checksum_size in
      if ltb (length buf) checksum_end
      then incomplete
      else if not (
          text_eq (slice buf payload_end checksum_end)
            (sha256 (slice buf offset payload_start ++ slice buf payload_start payload_end)))
      then checksum_mismatch checksum_end
      else record_read event_id (slice buf payload_start payload_end) (checksum_end - offset)

  unfoldable pub decode_record : Bytes → ℕ → Decoded
  unfolding decode_body
  decode_record buf offset =
      let available = length buf - offset in
      let tail_off = offset + 4 in
      if ltb available 4
      then incomplete
      else if not (text_eq (slice buf offset (offset + 4)) magic)
      then bad_magic
      else if ltb available header_size
      then incomplete
      else if not (unpack_be (slice buf tail_off (tail_off + 1)) == format_version)
      then unsupported_version
      else decode_body buf offset (unpack_be (slice buf (tail_off + 1) (tail_off + 9)))
          (unpack_be (slice buf (tail_off + 9) (tail_off + 13)))
