-- ===== src/Base/Branches.antt =====
-- What holds of every branch holds of the whole: for tests, options and outcomes.
use mathlib.Core.Bool.{Bool, true, false}
use mathlib.Core.Option.{Option, none, some}
use turtle_qts_execution.Base.Tests.{if◌then◌else◌}
use turtle_qts_execution.Base.Outcomes.{Outcome, ok, err, Error, bind}

module _ {A B : Type 0} (P : B → Type 0) where
  pub option_branches :
      (o : Option A) {x : B} {f : A → B}
      → P x
      → ((a : A) → P (f a))
      → P (elim o [ none ↦ x | some a ↦ f a ])
  option_branches none hx hf = hx
  option_branches (some a) hx hf = hf a

  pub outcome_branches :
      (o : Outcome A) {f : A → B} {g : Error → B}
      → ((x : Error) → P (g x))
      → ((a : A) → P (f a))
      → P (elim o [ err x ↦ g x | ok a ↦ f a ])
  outcome_branches (err x) hx hf = hx x
  outcome_branches (ok a) hx hf = hf a

  pub verdict_branches :
      (o : Outcome (Option A)) {f : A → B} {g : Error → B} {y : B}
      → ((x : Error) → P (g x))
      → P y
      → ((a : A) → P (f a))
      → P (elim o [ err x ↦ g x | ok none ↦ y | ok (some a) ↦ f a ])
  verdict_branches (err x) hx hy hf = hx x
  verdict_branches (ok none) hx hy hf = hy
  verdict_branches (ok (some a)) hx hy hf = hf a

pub if_branches :
    {B : Type 0} (P : B → Type 0) (b : Bool) {x y : B} → P x → P y → P (if b then x else y)
if_branches P true hx hy = hx
if_branches P false hx hy = hy

-- What holds of a result, if there is one.
unfoldable pub Gives : {A : Type 0} → (A → Type 0) → Outcome A → Type 0
Gives P (err x) = Unit {0}
Gives P (ok a) = P a

pub bind-Gives :
    {A B : Type 0} (P : B → Type 0) (o : Outcome A) (f : A → Outcome B)
    → ((a : A) → Gives P (f a))
    → Gives P (bind o f)
unfolding Gives
bind-Gives P (err x) f h = tt
bind-Gives P (ok a) f h = h a
