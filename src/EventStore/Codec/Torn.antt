-- ===== src/EventStore/Codec/Torn.antt =====
-- `decode_record` on a file that ends inside a record, as a write that was cut short leaves it.
use turtle_qts_execution.Base.{
  ℕ, zero, suc, ◌+◌, ◌-◌, ◌^◌, ◌<◌, ◌≤◌, ◌≡◌, refl, true, inl, inr, [], ◌∷◌, ◌++◌, arith, length,
  take, drop, length-append, length-take_le, append_assoc, append-nil, ap, text_eq, ltb, ltb→le,
  Bool-cases,
}
use native.Mathlib.Nat.{zero-add, suc-add}
use turtle_qts_execution.EventStore.Codec.{
  Bytes, slice, pack_be, unpack_be, header, frame, magic, decode_body, decode_record, incomplete,
}
use turtle_qts_execution.EventStore.Codec.Layout.{
  buffer, slice_magic, slice_version, slice_payload_length, length-buffer, length-pack_be,
  unpack_be-pack_be,
}

take-take : (m n : ℕ) (xs : Bytes) → m ≤ n → take m (take n xs) ≡ take m xs
take-take zero n xs h = refl
take-take (suc m) zero xs h = absurd (omega arith)
take-take (suc m) (suc n) [] h = refl
take-take (suc m) (suc n) (x ∷ xs) h = λ i. x ∷ take-take m n xs (omega arith) i

take-nil : (n : ℕ) → take {A = ℕ} n [] ≡ []
take-nil zero = refl
take-nil (suc n) = refl

drop-take : (a n : ℕ) (xs : Bytes) → drop a (take n xs) ≡ take (n - a) (drop a xs)
drop-take zero n xs = rw n_sub_zero
  where
    n_sub_zero : n - 0 ≡ n
    n_sub_zero = omega arith
drop-take (suc a) zero xs = rw none_left
  where
    none_left : zero - suc a ≡ zero
    none_left = omega arith
drop-take (suc a) (suc n) [] = rw take-nil
drop-take (suc a) (suc n) (x ∷ xs) = rw less (drop-take a n xs)
  where
    less : suc n - suc a ≡ n - a
    less = omega arith

take-append_add : (pre xs : Bytes) (k : ℕ) → take (length pre + k) (pre ++ xs) ≡ pre ++ take k xs
take-append_add [] xs k = rw zero-add
take-append_add (c ∷ pre) xs k = rw suc-add (ap (◌∷◌ c) (take-append_add pre xs k))

-- A slice that ends within the first `n` bytes does not see what is cut off behind them.
slice-take : (n a b : ℕ) (xs : Bytes) → b ≤ n → slice (take n xs) a b ≡ slice xs a b
slice-take n a b xs h = rw (drop-take a n xs) (take-take (b - a) (n - a) (drop a xs) (omega arith))

module _ (sha256 : Bytes → Bytes) where
  torn_fields :
      (pre m v e l p s : Bytes) (n : ℕ) (lm : length m ≡ 4) (lv : length v ≡ 1) (le : length e ≡ 8)
      (ll : length l ≡ 4)
      → length s ≡ 32
      → m ≡ magic
      → unpack_be v ≡ 1
      → unpack_be l ≡ length p
      → length pre ≤ n
      → n < length (buffer pre m v e l p s [] lm lv le ll)
      → decode_record sha256 (take n (buffer pre m v e l p s [] lm lv le ll)) (length pre)
        ≡ incomplete
  unfolding decode_record decode_body
  torn_fields pre m v e l p s n lm lv le ll ls hm hv hl lo hi =
      rw (length-take_le n (buffer pre m v e l p s [] lm lv le ll) (omega arith))
        (elim (Bool-cases (ltb (n - length pre) 4)) [
          | inl short ↦ rw short
          | inr has_magic ↦
              rw
                (
                  slice-take n (length pre) (length pre + 4) (buffer pre m v e l p s [] lm lv le ll)
                      (omega (arith, ltb→le _ _ has_magic)),
                  slice_magic pre m v e l p s [] lm lv le ll,
                  magic_matches,
                  has_magic,
                )
                (elim (Bool-cases (ltb (n - length pre) 17)) [
                  | inl short ↦ rw short
                  | inr has_header ↦
                      rw
                        (
                          has_header,
                          slice-take n (length pre + 4) (length pre + 4 + 1)
                              (buffer pre m v e l p s [] lm lv le ll)
                              (omega (arith, ltb→le _ _ has_header)),
                          slice-take n (length pre + 4 + 9) (length pre + 4 + 13)
                              (buffer pre m v e l p s [] lm lv le ll)
                              (omega (arith, ltb→le _ _ has_header)),
                          slice_version pre m v e l p s [] lm lv le ll,
                          slice_payload_length pre m v e l p s [] lm lv le ll,
                          hv,
                          hl,
                        )
                        (ground (arith, length-buffer pre m v e l p s [] lm lv le ll))
                ])
        ])
    where
      magic_matches : text_eq m magic ≡ true
      magic_matches = rw hm refl

  buffer-frame :
      (pre payload : Bytes) (i : ℕ)
      → pre
          ++ (magic
              ++ (pack_be 1 1
                  ++ (pack_be 8 i
                      ++ (pack_be 4 (length payload)
                          ++ (payload ++ (sha256 (header i (length payload) ++ payload) ++ []))))))
        ≡ pre ++ frame sha256 i payload
  unfolding frame header
  buffer-frame pre payload i = simp (append_assoc, append-nil)

  -- A record whose payload is under 2 ^ 32 bytes and that is cut short at the end of the file is
  -- reported as incomplete, wherever the cut is and whatever stands before it. SHA-256 digests have 32
  -- bytes.
  pub decode_record-torn :
      (length-sha256 : (b : Bytes) → length (sha256 b) ≡ 32)
      → (pre payload : Bytes) (i k : ℕ) → length payload < 2 ^ 32
      → k < length (frame sha256 i payload)
      → decode_record sha256 (pre ++ take k (frame sha256 i payload)) (length pre) ≡ incomplete
  decode_record-torn length-sha256 pre payload i k hl hk =
      let n = length payload in
      let s = sha256 (header i n ++ payload) in
      rw (← take-append_add pre (frame sha256 i payload) k, ← buffer-frame pre payload i)
        (torn_fields pre magic (pack_be 1 1) (pack_be 8 i) (pack_be 4 n) payload s (length pre + k)
          refl (length-pack_be 1 1) (length-pack_be 8 i) (length-pack_be 4 n) (length-sha256 _) refl
          (unpack_be-pack_be 1 1 (omega arith)) (unpack_be-pack_be 4 n (omega arith)) (omega arith)
          (omega (
            arith,
            ap length (buffer-frame pre payload i),
            length-append pre (frame sha256 i payload),
          )))
