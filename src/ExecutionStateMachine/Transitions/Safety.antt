-- ===== src/ExecutionStateMachine/Transitions/Safety.antt =====
-- What the transition table of the execution state machine guarantees: the design notes at the head of
-- transitions.py.
use turtle_qts_execution.Base.{
  ◌≡◌, refl, Bool, true, false, not, ◌||◌, some, [], ◌∷◌, arith, member, enum_eq, all_edges,
  table_get-all_edges, none, if◌then◌else◌, Run, stay, step, Run-keeps, visits, ◌⊎◌, inl, inr,
}
use turtle_qts_execution.ExecutionStateMachine.States.{State, Trigger, states, triggers}
use turtle_qts_execution.ExecutionStateMachine.Transitions.{edges, next_state}

-- Every edge satisfies a test, so every legal step does.
step_test :
    (p : State → Trigger → State → Bool)
    → all_edges states triggers p edges ≡ true
    → (s : State) (t : Trigger) (u : State) → next_state s t ≡ some u
    → p s t u ≡ true
unfolding next_state
step_test p h s t u g = table_get-all_edges states triggers p edges s t u h g

-- The states after an emergency kill.
abbrev pub ended : State → Bool
ended s = member states s (State.emergency_kill ∷ State.stopped ∷ [])

-- The states in which the engine does not trade: the kill states and STOPPED.
abbrev pub halted : State → Bool
halted s =
    member states s (State.soft_kill ∷ State.hard_kill ∷ State.emergency_kill ∷ State.stopped ∷ [])

abbrev pub reconciles : State → Bool
reconciles s = enum_eq states s State.reconciling

emergency_test : State → Trigger → State → Bool
emergency_test s t u = not (ended s) || ended u

halt_test : State → Trigger → State → Bool
halt_test s t u = not (halted s) || (halted u || reconciles u)

ended_step :
    (s : State) (t : Trigger) (u : State)
    → next_state s t ≡ some u
    → ended s ≡ true
    → ended u ≡ true
unfolding emergency_test
ended_step s t u h e =
    ground (arith, step_test emergency_test (unfold edges states in refl) s t u h)

halted_step :
    (s : State) (t : Trigger) (u : State)
    → next_state s t ≡ some u
    → halted s ≡ true
    → (halted u ≡ true) ⊎ (reconciles u ≡ true)
unfolding halt_test
halted_step s t u h e = ground (arith, step_test halt_test (unfold edges states in refl) s t u h)

-- An emergency kill is one way: from EMERGENCY_KILL or STOPPED, every sequence of legal transitions
-- ends in EMERGENCY_KILL or STOPPED.
pub Run-emergency_kill : {s u : State} → Run next_state s u → ended s ≡ true → ended u ≡ true
Run-emergency_kill r e = Run-keeps ended ended_step r e

visits_start :
    {s u : State} (r : Run next_state s u) → reconciles s ≡ true → visits reconciles r ≡ true
visits_start (stay s) e = e
visits_start (step t g r) e = ground arith

-- A sequence of legal transitions that starts in a kill state or in STOPPED and ends outside of these
-- passes through RECONCILING.
pub Run-resume :
    {s u : State} (r : Run next_state s u)
    → halted s ≡ true
    → halted u ≡ false
    → visits reconciles r ≡ true
Run-resume (stay s) h k = cc
Run-resume {s = s} (step {u = v} t g r) h k = elim (halted_step s t v g h) [
  | inl e ↦ ground (arith, Run-resume r e k)
  | inr e ↦ ground (arith, visits_start r e)
]

-- An emergency kill is legal from every state but EMERGENCY_KILL and STOPPED, where it is refused.
pub next_state-emergency_kill :
    (s : State)
    → next_state s Trigger.emergency_kill_triggered
      ≡ (if ended s then none else some State.emergency_kill)
unfolding next_state edges states triggers
next_state-emergency_kill State.initializing = refl
next_state-emergency_kill State.reconciling = refl
next_state-emergency_kill State.ready = refl
next_state-emergency_kill State.signal_pending = refl
next_state-emergency_kill State.order_pending = refl
next_state-emergency_kill State.partially_filled = refl
next_state-emergency_kill State.position_open = refl
next_state-emergency_kill State.position_closing = refl
next_state-emergency_kill State.flat = refl
next_state-emergency_kill State.soft_kill = refl
next_state-emergency_kill State.hard_kill = refl
next_state-emergency_kill State.emergency_kill = refl
next_state-emergency_kill State.stopped = refl
