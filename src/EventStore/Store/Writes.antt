-- ===== src/EventStore/Store/Writes.antt =====
-- `_write_full` and the rollback of a failed write.
use turtle_qts_execution.Base.{
  ℕ, zero, suc, ◌-◌, ◌≤◌, ◌≡◌, refl, ap, sym, ◌∙◌, List, [], ◌∷◌, ◌++◌, append_assoc, append-nil,
  ok, arith, length, length-append, take, drop, take-append,
}
use turtle_qts_execution.EventStore.Codec.{Bytes}
use turtle_qts_execution.EventStore.Platform.{File, ftruncate, write_bytes, write_full}

pub take-append-drop : (n : ℕ) (xs : Bytes) → take n xs ++ drop n xs ≡ xs
take-append-drop zero xs = refl
take-append-drop (suc n) [] = refl
take-append-drop (suc n) (x ∷ xs) = ap (◌∷◌ x) (take-append-drop n xs)

-- What the loop wrote is a prefix of the data, at the end of the file.
pub write_full_prefix :
    (ws : List ℕ) (bs : Bytes) (f : File)
    → (written : Bytes) × ((write_full ws bs f).1.content ≡ f.content ++ written)
unfolding write_full
write_full_prefix ws [] f = ([], sym (append-nil f.content))
write_full_prefix [] (b ∷ bs) f = ([], sym (append-nil f.content))
write_full_prefix (zero ∷ ws) (b ∷ bs) f = ([], sym (append-nil f.content))
write_full_prefix (suc n ∷ ws) (b ∷ bs) f =
    let (rest, e) = write_full_prefix ws (drop n bs) (write_bytes f (b ∷ take n bs)) in
    ((b ∷ take n bs) ++ rest, e ∙ append_assoc f.content (b ∷ take n bs) rest)

-- A loop that ends without an exception has written every byte, and stands at the end.
pub write_full_all :
    (ws : List ℕ) (bs : Bytes) (f : File)
    → (write_full ws bs f).0 ≡ ok tt
    → f.position ≡ length f.content
    → ((write_full ws bs f).1.content ≡ f.content ++ bs)
      × ((write_full ws bs f).1.position ≡ length (write_full ws bs f).1.content)
unfolding write_full
write_full_all ws [] f h a = (sym (append-nil f.content), a)
write_full_all [] (b ∷ bs) f h a = cc
write_full_all (zero ∷ ws) (b ∷ bs) f h a = cc
write_full_all (suc n ∷ ws) (b ∷ bs) f h a =
    let (e, at_end) = write_full_all ws (drop n bs) (write_bytes f (b ∷ take n bs)) h refl in
    (
      e
          ∙ append_assoc f.content (b ∷ take n bs) (drop n bs)
          ∙ ap (λ t. f.content ++ b ∷ t) (take-append-drop n bs),
      at_end,
    )

zeros_none : (a b : ℕ) → a ≤ b → a - b ≡ zero
zeros_none a b h = omega arith

-- Truncating to the length that the file had brings its content back.
pub ftruncate_back :
    (f : File) (old written : Bytes)
    → f.content ≡ old ++ written
    → (ftruncate f (length old)).content ≡ old
unfolding ftruncate
ftruncate_back f old written h = rw (
  h,
  take-append old written,
  zeros_none (length old) (length (old ++ written)) (omega (arith, length-append old written)),
  append-nil,
)
