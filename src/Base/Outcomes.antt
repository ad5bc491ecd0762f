-- ===== src/Base/Outcomes.antt =====
-- Exceptions as values, and methods as functions of the state that they change.
use mathlib.Core.Path.{◌≡◌, refl}
use mathlib.Core.Logic.{◌⊎◌, inl, inr}
use mathlib.Core.Bool.{Bool, true, false}
use mathlib.Core.Option.{Option, none, some}

-- The exception classes that the modelled code raises (`errors.py` of each package, and built-in).
-- `out_of_fuel` is no exception of the program: it marks a loop whose fuel ran out.
pub data Error : Type 0 where
  value_error type_error key_error os_error struct_error out_of_fuel : Error
  malformed_event event_store_closed corrupt_event_store event_store_lock : Error
  illegal_transition replay_integrity : Error
  state_inconsistency attribute_error zero_division risk_manager_configuration : Error
  insufficient_funds insufficient_margin accounting_invariant : Error
  not_found adapter_error : Error

pub data Outcome {ℓ} (A : Type ℓ) : Type ℓ where
  ok : A → Outcome A
  err : Error → Outcome A

abbrev pub bind {ℓ κ} : {A : Type ℓ} {B : Type κ} → Outcome A → (A → Outcome B) → Outcome B
bind (ok a) f = f a
bind (err e) f = err e

infixl 10 ◌>>=◌
abbrev pub ◌>>=◌ {ℓ κ} : {A : Type ℓ} {B : Type κ} → Outcome A → (A → Outcome B) → Outcome B
o >>= f = bind o f

abbrev pub or_raise {ℓ} : {A : Type ℓ} → Option A → Error → Outcome A
or_raise none e = err e
or_raise (some a) e = ok a

abbrev pub is_some {ℓ} : {A : Type ℓ} → Option A → Bool
is_some none = false
is_some (some a) = true

pub Outcome-cases {ℓ} :
    {A : Type ℓ} (o : Outcome A) → ((a : A) × (o ≡ ok a)) ⊎ ((x : Error) × (o ≡ err x))
Outcome-cases (ok a) = inl (a, refl)
Outcome-cases (err x) = inr (x, refl)

-- A result of a chain is the result of its rest, on the result of its first part.
pub bind-ok {ℓ κ} :
    {A : Type ℓ} {B : Type κ} (o : Outcome A) (f : A → Outcome B) (b : B)
    → bind o f ≡ ok b
    → (a : A) × (o ≡ ok a) × (f a ≡ ok b)
bind-ok (ok a) f b h = (a, refl, h)
bind-ok (err x) f b h = cc

abbrev pub is_ok {ℓ} : {A : Type ℓ} → Outcome A → Bool
is_ok (ok a) = true
is_ok (err x) = false

pub ok-of {ℓ} : {A : Type ℓ} {o : Outcome A} → is_ok o ≡ true → (a : A) × (o ≡ ok a)
ok-of {o = ok a} h = (a, refl)
ok-of {o = err x} h = cc
