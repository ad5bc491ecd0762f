-- ===== src/EventStore/Codec/Layout.antt =====
-- Where the fields of a record stand in a buffer.
use turtle_qts_execution.Base.{
  ℕ, zero, suc, ◌+◌, ◌-◌, ◌*◌, ◌/◌, ◌%◌, ◌^◌, ◌<◌, ◌≡◌, refl, [], ◌∷◌, ◌++◌, arith, length,
  length-append, take, drop, append_assoc, take-append,
}
use native.Mathlib.Nat.{pow-suc}
use turtle_qts_execution.EventStore.Codec.{Bytes, slice, pack_be, unpack_from, unpack_be, header}

pub drop-append_at : (pre rest : Bytes) (n : ℕ) → n ≡ length pre → drop n (pre ++ rest) ≡ rest
drop-append_at [] rest zero h = refl
drop-append_at [] rest (suc n) h = absurd (omega arith)
drop-append_at (c ∷ pre) rest zero h = absurd (omega arith)
drop-append_at (c ∷ pre) rest (suc n) h = drop-append_at pre rest n (omega arith)

pub take-append_at : (mid rest : Bytes) (n : ℕ) → n ≡ length mid → take n (mid ++ rest) ≡ mid
take-append_at mid rest n h = rw h (take-append mid rest)

-- A slice whose bounds are the ends of a part is that part.
pub slice_mid :
    (pre mid post : Bytes) (a b : ℕ)
    → a ≡ length pre
    → b ≡ length pre + length mid
    → slice (pre ++ (mid ++ post)) a b ≡ mid
slice_mid pre mid post a b ha hb =
    rw (drop-append_at pre (mid ++ post) a ha) (take-append_at mid post (b - a) (omega arith))

pub length-pack_be : (w n : ℕ) → length (pack_be w n) ≡ w
unfolding pack_be
length-pack_be zero n = refl
length-pack_be (suc w) n =
    omega (arith, length-append (pack_be w (n / 256)) ((n % 256) ∷ []), length-pack_be w (n / 256))

unpack_from-append :
    (acc : ℕ) (s : Bytes) (c : ℕ) → unpack_from acc (s ++ c ∷ []) ≡ unpack_from acc s * 256 + c
unfolding unpack_from
unpack_from-append acc [] c = refl
unpack_from-append acc (d ∷ s) c = unpack_from-append (acc * 256 + d) s c

-- Unpacking undoes packing, for a number that the width holds.
pub unpack_be-pack_be : (w n : ℕ) → n < 256 ^ w → unpack_be (pack_be w n) ≡ n
unfolding pack_be unpack_be
unpack_be-pack_be zero n h = omega arith
unpack_be-pack_be (suc w) n h = ground (
  arith,
  pow-suc 256 w,
  unpack_from-append 0 (pack_be w (n / 256)) (n % 256),
  unpack_be-pack_be w (n / 256),
)

pub length-header : (i n : ℕ) → length (header i n) ≡ 17
unfolding header
length-header i n = ground (
  arith,
  length-append (pack_be 1 1) (pack_be 8 i ++ pack_be 4 n),
  length-append (pack_be 8 i) (pack_be 4 n),
  length-pack_be 1 1,
  length-pack_be 8 i,
  length-pack_be 4 n,
)

-- A buffer that holds, from `pre` on, the six fields of a record.
module _ (pre m v e l p s post : Bytes) (len_m : length m ≡ 4) (len_v : length v ≡ 1)
    (len_e : length e ≡ 8) (len_l : length l ≡ 4) where
  abbrev pub buffer : Bytes
  buffer = pre ++ (m ++ (v ++ (e ++ (l ++ (p ++ (s ++ post))))))

  pub slice_magic : slice buffer (length pre) (length pre + 4) ≡ m
  slice_magic = slice_mid pre m _ (length pre) (length pre + 4) refl (omega arith)

  pub slice_version : slice buffer (length pre + 4) (length pre + 4 + 1) ≡ v
  slice_version = simp append_assoc at (
      slice_mid (pre ++ m) v (e ++ (l ++ (p ++ (s ++ post)))) (length pre + 4) (length pre + 4 + 1)
        (omega (arith, length-append pre m)) (omega (arith, length-append pre m)))

  pub slice_event_id : slice buffer (length pre + 4 + 1) (length pre + 4 + 9) ≡ e
  slice_event_id = simp append_assoc at (
      slice_mid (pre ++ (m ++ v)) e (l ++ (p ++ (s ++ post))) (length pre + 4 + 1)
        (length pre + 4 + 9) (omega (arith, length-append pre (m ++ v), length-append m v))
        (omega (arith, length-append pre (m ++ v), length-append m v)))

  pub slice_payload_length : slice buffer (length pre + 4 + 9) (length pre + 4 + 13) ≡ l
  slice_payload_length = simp append_assoc at (
      slice_mid (pre ++ (m ++ (v ++ e))) l (p ++ (s ++ post)) (length pre + 4 + 9)
        (length pre + 4 + 13)
        (omega
          (arith, length-append pre (m ++ (v ++ e)), length-append m (v ++ e), length-append v e))
        (omega
          (arith, length-append pre (m ++ (v ++ e)), length-append m (v ++ e), length-append v e)))

  pub length_fields : length (m ++ (v ++ (e ++ l))) ≡ 17
  length_fields =
      omega (arith, length-append m (v ++ (e ++ l)), length-append v (e ++ l), length-append e l)

  pub slice_header : slice buffer (length pre) (length pre + 17) ≡ m ++ (v ++ (e ++ l))
  slice_header = simp append_assoc at (
      slice_mid pre (m ++ (v ++ (e ++ l))) (p ++ (s ++ post)) (length pre) (length pre + 17) refl
        (omega (arith, length_fields)))

  pub slice_payload : slice buffer (length pre + 17) (length pre + 17 + length p) ≡ p
  slice_payload = simp append_assoc at (
      slice_mid (pre ++ (m ++ (v ++ (e ++ l)))) p (s ++ post) (length pre + 17)
        (length pre + 17 + length p)
        (omega (arith, length-append pre (m ++ (v ++ (e ++ l))), length_fields))
        (omega (arith, length-append pre (m ++ (v ++ (e ++ l))), length_fields)))

  pub slice_checksum :
      length s ≡ 32
      → slice buffer (length pre + 17 + length p) (length pre + 17 + length p + 32) ≡ s
  slice_checksum h = simp append_assoc at (
      slice_mid (pre ++ (m ++ (v ++ (e ++ l))) ++ p) s post (length pre + 17 + length p)
        (length pre + 17 + length p + 32)
        (omega (
          arith,
          length-append (pre ++ (m ++ (v ++ (e ++ l)))) p,
          length-append pre (m ++ (v ++ (e ++ l))),
          length_fields,
        ))
        (omega (
          arith,
          length-append (pre ++ (m ++ (v ++ (e ++ l)))) p,
          length-append pre (m ++ (v ++ (e ++ l))),
          length_fields,
        )))

  pub length-buffer : length buffer ≡ length pre + 17 + length p + length s + length post
  length-buffer = omega (
    arith,
    length-append pre (m ++ (v ++ (e ++ (l ++ (p ++ (s ++ post)))))),
    length-append m (v ++ (e ++ (l ++ (p ++ (s ++ post))))),
    length-append v (e ++ (l ++ (p ++ (s ++ post)))),
    length-append e (l ++ (p ++ (s ++ post))),
    length-append l (p ++ (s ++ post)),
    length-append p (s ++ post),
    length-append s post,
  )
