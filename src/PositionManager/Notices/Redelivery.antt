-- ===== src/PositionManager/Notices/Redelivery.antt =====
-- Notifications that arrive twice, late or after the end of a position's life.
use turtle_qts_execution.Base.{
  ◌≡◌, refl, ◌≤◌, Bool, true, false, inl, inr, none, some, ok, ℕ, leb, arith, Run, Run-rank,
  all_edges, table_get-all_edges, Option-cases, Bool-cases,
}
use turtle_qts_execution.PositionManager.States.{
  PositionLifecycleState, PositionLifecycleTrigger, position_lifecycle_states,
  position_lifecycle_triggers,
}
use turtle_qts_execution.PositionManager.Transitions.{
  edges, is_terminal, next_state, state_rank, trigger_min_target_rank,
}
use turtle_qts_execution.PositionManager.Notices.{try_transition}

step_test :
    (p : PositionLifecycleState → PositionLifecycleTrigger → PositionLifecycleState → Bool)
    → all_edges position_lifecycle_states position_lifecycle_triggers p edges ≡ true
    → (s : PositionLifecycleState) (t : PositionLifecycleTrigger) (u : PositionLifecycleState)
    → next_state s t ≡ some u
    → p s t u ≡ true
unfolding next_state
step_test p h s t u g =
    table_get-all_edges position_lifecycle_states position_lifecycle_triggers p edges s t u h g

rank_test : PositionLifecycleState → PositionLifecycleTrigger → PositionLifecycleState → Bool
rank_test s t u = leb (state_rank s) (state_rank u)

-- The trigger has a least target rank, and the target's is no lower.
reached_test : PositionLifecycleState → PositionLifecycleTrigger → PositionLifecycleState → Bool
reached_test s t u = elim (trigger_min_target_rank t) [
  | none ↦ false
  | some m ↦ leb m (state_rank u)
]

state_rank_step :
    (s : PositionLifecycleState) (t : PositionLifecycleTrigger) (u : PositionLifecycleState)
    → next_state s t ≡ some u
    → state_rank s ≤ state_rank u
unfolding rank_test
state_rank_step s t u g =
    ground (
      arith,
      step_test rank_test (unfold edges position_lifecycle_states state_rank in refl) s t u g,
    )

reached_step :
    (s : PositionLifecycleState) (t : PositionLifecycleTrigger) (u : PositionLifecycleState)
    → next_state s t ≡ some u
    → reached_test s t u ≡ true
reached_step s t u g =
    step_test reached_test
      (unfold edges position_lifecycle_states position_lifecycle_triggers state_rank
          trigger_min_target_rank reached_test in
        refl)
      s t u g

min_rank_step :
    (s : PositionLifecycleState) (t : PositionLifecycleTrigger) (u : PositionLifecycleState)
    → next_state s t ≡ some u
    → (m : ℕ) × (trigger_min_target_rank t ≡ some m) × (m ≤ state_rank u)
unfolding reached_test
min_rank_step s t u g = elim (Option-cases (trigger_min_target_rank t)) [
  | inl e ↦ ground (arith, e, reached_step s t u g)
  | inr (m, e) ↦ (m, e, ground (arith, e, reached_step s t u g))
]

-- The lifecycle never goes back: along legal transitions the rank of the position's state does not fall.
pub Run-state_rank :
    {s u : PositionLifecycleState} → Run next_state s u → state_rank s ≤ state_rank u
Run-state_rank r = Run-rank state_rank state_rank_step r

-- A trigger that was applied to a position may arrive again after any sequence of legal transitions:
-- it is then either legal again or ignored as stale, and never raised as an inconsistency.
pub try_transition_redelivered :
    (s u v : PositionLifecycleState) (t : PositionLifecycleTrigger)
    → next_state s t ≡ some u
    → Run next_state u v
    → try_transition t v ≡ ok (next_state v t)
unfolding try_transition
try_transition_redelivered s u v t g r =
    let (m, e, h) = min_rank_step s t u g in
    ground
      (arith, e, h, Run-state_rank r, Option-cases (next_state v t), Bool-cases (is_terminal v))
