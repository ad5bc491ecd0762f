-- ===== src/EventStore/Codec/RoundTrip.antt =====
-- `decode_record` at the place where `encode_record` wrote, whatever stands before and after.
use turtle_qts_execution.Base.{
  ℕ, ◌+◌, ◌^◌, ◌<◌, ◌≡◌, refl, true, ◌++◌, arith, length, length-append, append_assoc, text_eq_refl,
  text_eq, ok,
}
use turtle_qts_execution.EventStore.Codec.{
  Bytes, pack_be, unpack_be, header, frame, magic, decode_body, decode_record, encode_record,
  record_read,
}
use turtle_qts_execution.EventStore.Codec.Layout.{
  slice_magic, slice_version, slice_event_id, slice_payload_length, slice_header, slice_payload,
  slice_checksum, length-buffer, length-header, length-pack_be, unpack_be-pack_be,
}

module _ (sha256 : Bytes → Bytes) (length-sha256 : (b : Bytes) → length (sha256 b) ≡ 32) where
  decode_fields :
      (pre m v e l p s post : Bytes)
      → length m ≡ 4
      → length v ≡ 1
      → length e ≡ 8
      → length l ≡ 4
      → length s ≡ 32
      → m ≡ magic
      → unpack_be v ≡ 1
      → unpack_be l ≡ length p
      → sha256 ((m ++ (v ++ (e ++ l))) ++ p) ≡ s
      → decode_record sha256 (pre ++ (m ++ (v ++ (e ++ (l ++ (p ++ (s ++ post))))))) (length pre)
        ≡ record_read (unpack_be e) p (49 + length p)
  unfolding decode_record decode_body
  decode_fields pre m v e l p s post lm lv le ll ls hm hv hl hs =
      rw
        (
          slice_magic pre m v e l p s post lm lv le ll,
          slice_version pre m v e l p s post lm lv le ll,
          slice_event_id pre m v e l p s post lm lv le ll,
          slice_payload_length pre m v e l p s post lm lv le ll,
          hv,
          hl,
        )
        (rw
          (
            slice_header pre m v e l p s post lm lv le ll,
            slice_payload pre m v e l p s post lm lv le ll,
            slice_checksum pre m v e l p s post lm lv le ll ls,
          )
          (rw (length-buffer pre m v e l p s post lm lv le ll, magic_matches, hs, text_eq_refl s)
            (ground arith)))
    where
      magic_matches : text_eq m magic ≡ true
      magic_matches = rw hm refl

  pub length-frame :
      (i : ℕ) (payload : Bytes) → length (frame sha256 i payload) ≡ 49 + length payload
  unfolding frame
  length-frame i payload = omega (
    arith,
    length-append (header i (length payload))
        (payload ++ sha256 (header i (length payload) ++ payload)),
    length-append payload (sha256 (header i (length payload) ++ payload)),
    length-header i (length payload),
    length-sha256 (header i (length payload) ++ payload),
  )

  pub decode_record-frame :
      (pre payload post : Bytes) (i : ℕ)
      → i < 2 ^ 64
      → length payload < 2 ^ 32
      → decode_record sha256 (pre ++ (frame sha256 i payload ++ post)) (length pre)
        ≡ record_read i payload (49 + length payload)
  unfolding frame header
  decode_record-frame pre payload post i hi hl =
      let n = length payload in
      let q =
        decode_fields pre magic (pack_be 1 1) (pack_be 8 i) (pack_be 4 n) payload
          (sha256 (header i n ++ payload)) post refl (length-pack_be 1 1) (length-pack_be 8 i)
          (length-pack_be 4 n) (length-sha256 _) refl (unpack_be-pack_be 1 1 (omega arith))
          (unpack_be-pack_be 4 n (omega arith)) refl in
      simp append_assoc (rw (unpack_be-pack_be 8 i (omega arith)) at (simp append_assoc at q))

-- What `encode_record` returns, and when.
pub encode_record-frame :
    (sha256 : Bytes → Bytes) (i : ℕ) (payload : Bytes) {written : Bytes}
    → encode_record sha256 i payload ≡ ok written
    → (written ≡ frame sha256 i payload) × (i < 2 ^ 64) × (length payload < 2 ^ 32)
unfolding encode_record
encode_record-frame sha256 i payload h = ground arith

module _ (sha256 : Bytes → Bytes) (length-sha256 : (b : Bytes) → length (sha256 b) ≡ 32) where
  -- Where `encode_record` gives the bytes of a record, decoding at the place where they stand gives its
  -- id, its payload and its length, whatever stands before and after them. SHA-256 digests have 32
  -- bytes.
  pub decode_record-encode_record :
      (pre payload post : Bytes) (i : ℕ) {written : Bytes}
      → encode_record sha256 i payload ≡ ok written
      → decode_record sha256 (pre ++ (written ++ post)) (length pre)
        ≡ record_read i payload (length written)
  decode_record-encode_record pre payload post i h =
      let (e, hi, hl) = encode_record-frame sha256 i payload h in
      rw (e, length-frame sha256 length-sha256 i payload)
        (decode_record-frame sha256 length-sha256 pre payload post i hi hl)
