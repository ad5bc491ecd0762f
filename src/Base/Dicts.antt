-- ===== src/Base/Dicts.antt =====
-- A Python dict keyed by strings, or by integers, in insertion order.
use mathlib.Core.Path.{◌≡◌}
use mathlib.Core.Logic.{◌⊎◌}
use mathlib.Core.Bool.{Bool, true}
use mathlib.Core.Option.{Option, none, some}
use mathlib.Core.List.{List, [], ◌∷◌}
use native.Mathlib.Omega.{arith}
use turtle_qts_execution.Base.Tests.{if◌then◌else◌}

abbrev pub Dict {ℓ κ} : Type ℓ → Type κ → Type (ℓ ⊔ κ)
Dict K V = List (K × V)

module _ {ℓ κ} {K : Type ℓ} {V : Type κ} (eq : K → K → Bool) where
  -- `d.get(k)`
  abbrev pub lookup : K → Dict K V → Option V
  lookup k [] = none
  lookup k ((j, v) ∷ d) = if eq k j then some v else lookup k d

  -- `d[k] = v`
  abbrev pub insert : K → V → Dict K V → Dict K V
  insert k v [] = (k, v) ∷ []
  insert k v ((j, w) ∷ d) = if eq k j then (k, v) ∷ d else (j, w) ∷ insert k v d

  pub lookup-insert_self :
      (k : K) (v : V) (d : Dict K V) → eq k k ≡ true → lookup k (insert k v d) ≡ some v
  lookup-insert_self k v [] h = rw h
  lookup-insert_self k v ((j, w) ∷ d) h = ground (arith, lookup-insert_self k v d h)

  -- What is found after an assignment was assigned or was there before.
  pub lookup-insert_cases :
      ((a b : K) → eq a b ≡ true → a ≡ b)
      → (k j : K) (v w : V) (d : Dict K V) → lookup k (insert j v d) ≡ some w
      → (w ≡ v) ⊎ (lookup k d ≡ some w)
  lookup-insert_cases lawful k j v w [] h = ground arith
  lookup-insert_cases lawful k j v w ((i, u) ∷ d) h =
      ground (arith, lawful j i, lookup-insert_cases lawful k j v w d)

  -- The same, with the key that an assigned value was found under.
  pub lookup-insert_at :
      ((a b : K) → eq a b ≡ true → a ≡ b)
      → (k j : K) (v w : V) (d : Dict K V) → lookup k (insert j v d) ≡ some w
      → ((k ≡ j) × (w ≡ v)) ⊎ (lookup k d ≡ some w)
  lookup-insert_at lawful k j v w [] h = ground (arith, lawful k j)
  lookup-insert_at lawful k j v w ((i, u) ∷ d) h =
      ground (arith, lawful j i, lawful k j, lookup-insert_at lawful k j v w d)

  -- A new key takes nothing from the keys that are there.
  pub lookup-insert_new :
      (j k : K) (v w : V) (d : Dict K V)
      → lookup j d ≡ none
      → lookup k d ≡ some w
      → lookup k (insert j v d) ≡ some w
  lookup-insert_new j k v w [] miss hit = cc hit
  lookup-insert_new j k v w ((i, u) ∷ d) miss hit = ground (arith, lookup-insert_new j k v w d)
