-- ===== src/ExecutionStateMachine/Machine/Keys.antt =====
-- `_namespaced_key`: the lengths before the two ids keep different pairs of ids apart.
use turtle_qts_execution.Base.{
  ℕ, ◌≡◌, refl, ap, [], ◌∷◌, ◌++◌, Text, show, show-injective, show-AllDigits, AllDigits, arith,
  length, drop,
}
use turtle_qts_execution.ExecutionStateMachine.Machine.{namespaced_key}

head_eq : {a b : ℕ} {s t : Text} → ◌≡◌ {A = Text} (a ∷ s) (b ∷ t) → a ≡ b
head_eq h = ground (arith, h)

tail_eq : {a b : ℕ} {s t : Text} → ◌≡◌ {A = Text} (a ∷ s) (b ∷ t) → s ≡ t
tail_eq h = ap (λ (x : Text). drop 1 x) h

-- Two digit strings before a colon are the same string.
digits_split :
    (s t a b : Text) → AllDigits s → AllDigits t → s ++ b':' ∷ a ≡ t ++ b':' ∷ b → (s ≡ t) × (a ≡ b)
digits_split [] [] a b ds dt h = (refl, tail_eq h)
digits_split [] (d ∷ t) a b ds dt h = absurd (omega (arith, head_eq h))
digits_split (c ∷ s) [] a b ds dt h = absurd (omega (arith, head_eq h))
digits_split (c ∷ s) (d ∷ t) a b ds dt h =
    let (e, rest) = digits_split s t a b ds.2 dt.2 (tail_eq h) in
    (ground (arith, e, head_eq h), rest)

-- Two strings of one length before anything are the same string.
length_split : (s t a b : Text) → length s ≡ length t → s ++ a ≡ t ++ b → (s ≡ t) × (a ≡ b)
length_split [] [] a b e h = (refl, h)
length_split [] (d ∷ t) a b e h = absurd (omega arith)
length_split (c ∷ s) [] a b e h = absurd (omega arith)
length_split (c ∷ s) (d ∷ t) a b e h =
    let (r, rest) = length_split s t a b (omega arith) (tail_eq h) in
    (ground (arith, r, head_eq h), rest)

-- Different pairs of machine id and request id have different keys, whatever characters they hold.
pub namespaced_key-injective :
    (m m' r r' : Text) → namespaced_key m r ≡ namespaced_key m' r' → (m ≡ m') × (r ≡ r')
unfolding namespaced_key
namespaced_key-injective m m' r r' h =
    let (len, rest) =
      digits_split (show (length m)) (show (length m')) _ _ (show-AllDigits _) (show-AllDigits _)
        (ap (λ (x : Text). drop 24 x) h) in
    let (em, rest') = length_split m m' _ _ (show-injective (length m) (length m') len) rest in
    let (_, er) =
      digits_split (show (length r)) (show (length r')) _ _ (show-AllDigits _) (show-AllDigits _)
        (tail_eq rest') in
    (em, er)
