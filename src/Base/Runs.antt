-- ===== src/Base/Runs.antt =====
-- Sequences of legal transitions of a machine given by its table.
use Prim.Native.Nat.{ℕ, ◌≤◌}
use mathlib.Core.Path.{◌≡◌}
use mathlib.Core.Bool.{Bool, true, false}
use mathlib.Core.Option.{Option, some}
use native.Mathlib.Omega.{arith}

-- The transitions that take the machine from one state to another, one after the other.
pub data Run {S T : Type 0} (next : S → T → Option S) : S → S → Type 0 where
  stay : (s : S) → Run next s s
  step : {s u v : S} (t : T) → next s t ≡ some u → Run next u v → Run next s v

module _ {S T : Type 0} {next : S → T → Option S} where
  -- What each transition keeps, a run keeps.
  pub Run-keeps :
      (p : S → Bool)
      → ((s : S) (t : T) (u : S) → next s t ≡ some u → p s ≡ true → p u ≡ true)
      → {s v : S} → Run next s v
      → p s ≡ true
      → p v ≡ true
  Run-keeps p h (stay s) e = e
  Run-keeps p h {s = s} (step {u = u} t g r) e = Run-keeps p h r (h s t u g e)

  -- A rank that no transition lowers is not lowered by a run.
  pub Run-rank :
      (rank : S → ℕ)
      → ((s : S) (t : T) (u : S) → next s t ≡ some u → rank s ≤ rank u)
      → {s v : S} → Run next s v
      → rank s ≤ rank v
  Run-rank rank h (stay s) = ground arith
  Run-rank rank h {s = s} (step {u = u} t g r) = ground (arith, h s t u g, Run-rank rank h r)

  -- Whether the run is in the state at its start, at its end or between.
  abbrev pub visits : (S → Bool) → {s v : S} → Run next s v → Bool
  visits p (stay s) = p s
  visits p {s = s} (step t g r) = elim (p s) [ true ↦ true | false ↦ visits p r ]

  -- A run goes on with one more transition.
  pub Run-snoc : {s u v : S} → Run next s u → (t : T) → next u t ≡ some v → Run next s v
  Run-snoc (stay s) t g = step t g (stay _)
  Run-snoc (step t' g' r) t g = step t' g' (Run-snoc r t g)
