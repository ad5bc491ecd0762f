-- ===== src/RiskManager/Evaluate/Requirements.antt =====
-- What a trade must satisfy, said without the code's own tests.
use turtle_qts_execution.Base.{
  ℕ, ◌≤◌, ◌*◌, ◌≡◌, refl, ◌⊎◌, inl, inr, false, Option, none, some, List, [], ◌∷◌, Text, ℤ, pos,
  negsuc, ◌-ℤ◌, ok, arith, Option-cases, Outcome-cases, Bool-cases,
}
use turtle_qts_execution.ExecutionStateMachine.States.{State}
use turtle_qts_execution.RiskManager.Models.{RiskManagerLimits, ReasonCode}
use turtle_qts_execution.RiskManager.DataChecks.{stale_data, blocking_reason, age, is_stale}

-- The engine is in one of the kill states or stopped.
abbrev pub Halts : Option State → Type 0
Halts k =
    (k ≡ some State.soft_kill)
    ⊎ ((k ≡ some State.hard_kill) ⊎ ((k ≡ some State.emergency_kill) ⊎ (k ≡ some State.stopped)))

pub blocking_reason-Halts :
    (s : State) (r : ReasonCode) → blocking_reason s ≡ some r → Halts (some s)
unfolding blocking_reason
blocking_reason-Halts State.soft_kill r h = inl refl
blocking_reason-Halts State.hard_kill r h = inr (inl refl)
blocking_reason-Halts State.emergency_kill r h = inr (inr (inl refl))
blocking_reason-Halts State.stopped r h = inr (inr (inr refl))
blocking_reason-Halts State.initializing r h = cc h
blocking_reason-Halts State.reconciling r h = cc h
blocking_reason-Halts State.ready r h = cc h
blocking_reason-Halts State.signal_pending r h = cc h
blocking_reason-Halts State.order_pending r h = cc h
blocking_reason-Halts State.partially_filled r h = cc h
blocking_reason-Halts State.position_open r h = cc h
blocking_reason-Halts State.position_closing r h = cc h
blocking_reason-Halts State.flat r h = cc h

pub Halts-blocking_reason :
    (s : State) → Halts (some s) → (r : ReasonCode) × (blocking_reason s ≡ some r)
unfolding blocking_reason
Halts-blocking_reason s (inl h) = (ReasonCode.kill_switch_soft, ground (arith, h))
Halts-blocking_reason s (inr (inl h)) = (ReasonCode.kill_switch_hard, ground (arith, h))
Halts-blocking_reason s (inr (inr (inl h))) = (ReasonCode.kill_switch_emergency, ground (arith, h))
Halts-blocking_reason s (inr (inr (inr h))) = (ReasonCode.engine_stopped, ground (arith, h))

pub runs : (s : State) → ¬ Halts (some s) → blocking_reason s ≡ none
runs s h = elim (Option-cases (blocking_reason s)) [
  | inl e ↦ e
  | inr (r, e) ↦ absurd (h (blocking_reason-Halts s r e))
]

pub runs-converse : (s : State) → blocking_reason s ≡ none → ¬ Halts (some s)
runs-converse s e h = let (r, q) = Halts-blocking_reason s h in cc (e, q)

module _ (parse_utc : Text → Option ℤ) (limits : RiskManagerLimits) where
  -- Both times can be read, and the data are at least 0 and at most `max_stale_data_seconds` old.
  abbrev pub IsFresh : Text → Text → Type 0
  IsFresh evaluated_at_utc data_at_utc =
      (now : ℤ) × (taken : ℤ) × (microseconds : ℕ) × (parse_utc evaluated_at_utc ≡ some now)
      × (parse_utc data_at_utc ≡ some taken)
      × (now -ℤ taken ≡ pos microseconds)
      × (microseconds ≤ limits.max_stale_data_seconds * 1000000)

  abbrev pub AllFresh : Text → List (Text × Text) → Type 0
  AllFresh at [] = Unit
  AllFresh at ((label, ts) ∷ pairs) = IsFresh at ts × AllFresh at pairs

  is_stale-false :
      (a : ℤ)
      → is_stale parse_utc limits a ≡ false
      → (n : ℕ) × (a ≡ pos n) × (n ≤ limits.max_stale_data_seconds * 1000000)
  unfolding is_stale
  is_stale-false (pos n) h = (n, refl, ground (arith, h))
  is_stale-false (negsuc n) h = absurd (ground (arith, h))

  fresh-is_stale :
      (a : ℤ) (n : ℕ)
      → a ≡ pos n
      → n ≤ limits.max_stale_data_seconds * 1000000
      → is_stale parse_utc limits a ≡ false
  unfolding is_stale
  fresh-is_stale a n e h = rw e (ground (arith, h))

  pub stale_data-nil :
      (at : Text) (pairs : List (Text × Text))
      → stale_data parse_utc limits at pairs ≡ ok []
      → AllFresh at pairs
  unfolding stale_data age
  stale_data-nil at [] h = tt
  stale_data-nil at ((label, ts) ∷ pairs) h = elim (Option-cases (parse_utc at)) [
    | inl e ↦ ground (arith, h, e)
    | inr (now, e) ↦ elim (Option-cases (parse_utc ts)) [
      | inl f ↦ ground (arith, h, e, f)
      | inr (taken, f) ↦ elim (Outcome-cases (stale_data parse_utc limits at pairs)) [
        | inr (x, q) ↦ ground (arith, h, e, f, q)
        | inl (late, q) ↦ elim (Bool-cases (is_stale parse_utc limits (now -ℤ taken))) [
          | inl s ↦ ground (arith, h, e, f, q, s)
          | inr s ↦
              let (n, an, le) = is_stale-false (now -ℤ taken) s in
              (
                (now, taken, n, e, f, an, le),
                stale_data-nil at pairs (ground (arith, h, e, f, q, s)),
              )
        ]
      ]
    ]
  ]

  pub AllFresh-stale_data :
      (at : Text) (pairs : List (Text × Text))
      → AllFresh at pairs
      → stale_data parse_utc limits at pairs ≡ ok []
  unfolding stale_data age
  AllFresh-stale_data at [] h = refl
  AllFresh-stale_data at ((label, ts) ∷ pairs) ((now, taken, n, e, f, an, le), h) =
      rw (e, f, AllFresh-stale_data at pairs h, fresh-is_stale (now -ℤ taken) n an le) refl
