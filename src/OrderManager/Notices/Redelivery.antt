-- ===== src/OrderManager/Notices/Redelivery.antt =====
-- Status reports that arrive twice, late or after the end of an order's life.
use turtle_qts_execution.Base.{
  ◌≡◌, refl, ◌≤◌, Bool, true, false, inl, inr, none, some, ok, ℕ, leb, arith, not, Run, stay, step,
  Run-rank, all_edges, table_get-all_edges, Option-cases, Bool-cases,
}
use turtle_qts_execution.ExchangeAdapter.Models.{OrderStatus}
use turtle_qts_execution.OrderManager.States.{
  OrderLifecycleState, OrderLifecycleTrigger, order_lifecycle_states, order_lifecycle_triggers,
}
use turtle_qts_execution.OrderManager.Transitions.{
  edges, is_terminal, next_state, state_rank, trigger_min_target_rank, legal_triggers,
}
use turtle_qts_execution.OrderManager.Notices.{status_to_trigger, ingest_target}

step_test :
    (p : OrderLifecycleState → OrderLifecycleTrigger → OrderLifecycleState → Bool)
    → all_edges order_lifecycle_states order_lifecycle_triggers p edges ≡ true
    → (s : OrderLifecycleState) (t : OrderLifecycleTrigger) (u : OrderLifecycleState)
    → next_state s t ≡ some u
    → p s t u ≡ true
unfolding next_state
step_test p h s t u g =
    table_get-all_edges order_lifecycle_states order_lifecycle_triggers p edges s t u h g

rank_test : OrderLifecycleState → OrderLifecycleTrigger → OrderLifecycleState → Bool
rank_test s t u = leb (state_rank s) (state_rank u)

-- The trigger has a least target rank, and the target's is no lower.
reached_test : OrderLifecycleState → OrderLifecycleTrigger → OrderLifecycleState → Bool
reached_test s t u = elim (trigger_min_target_rank t) [
  | none ↦ false
  | some m ↦ leb m (state_rank u)
]

state_rank_step :
    (s : OrderLifecycleState) (t : OrderLifecycleTrigger) (u : OrderLifecycleState)
    → next_state s t ≡ some u
    → state_rank s ≤ state_rank u
unfolding rank_test
state_rank_step s t u g =
    ground
      (arith, step_test rank_test (unfold edges order_lifecycle_states state_rank in refl) s t u g)

reached_step :
    (s : OrderLifecycleState) (t : OrderLifecycleTrigger) (u : OrderLifecycleState)
    → next_state s t ≡ some u
    → reached_test s t u ≡ true
reached_step s t u g =
    step_test reached_test
      (unfold edges order_lifecycle_states order_lifecycle_triggers state_rank
          trigger_min_target_rank reached_test in
        refl)
      s t u g

min_rank_step :
    (s : OrderLifecycleState) (t : OrderLifecycleTrigger) (u : OrderLifecycleState)
    → next_state s t ≡ some u
    → (m : ℕ) × (trigger_min_target_rank t ≡ some m) × (m ≤ state_rank u)
unfolding reached_test
min_rank_step s t u g = elim (Option-cases (trigger_min_target_rank t)) [
  | inl e ↦ ground (arith, e, reached_step s t u g)
  | inr (m, e) ↦ (m, e, ground (arith, e, reached_step s t u g))
]

-- The lifecycle never goes back: along legal transitions the rank of the order's state does not fall.
pub Run-state_rank : {s u : OrderLifecycleState} → Run next_state s u → state_rank s ≤ state_rank u
Run-state_rank r = Run-rank state_rank state_rank_step r

-- A status of an order that was applied may be reported again after any sequence of legal transitions:
-- it is then either legal again or ignored as stale, and never raised as an inconsistency.
pub ingest_target_redelivered :
    (status : OrderStatus) (s u v : OrderLifecycleState) (t : OrderLifecycleTrigger)
    → status_to_trigger status ≡ some t
    → next_state s t ≡ some u
    → Run next_state u v
    → ingest_target status v ≡ ok (next_state v t)
unfolding ingest_target
ingest_target_redelivered status s u v t k g r =
    let (m, e, h) = min_rank_step s t u g in
    ground
      (arith, k, e, h, Run-state_rank r, Option-cases (next_state v t), Bool-cases (is_terminal v))

live_test : OrderLifecycleState → OrderLifecycleTrigger → OrderLifecycleState → Bool
live_test s t u = not (is_terminal s)

terminal_step :
    (s : OrderLifecycleState) (t : OrderLifecycleTrigger)
    → is_terminal s ≡ true
    → next_state s t ≡ none
unfolding live_test
terminal_step s t h = elim (Option-cases (next_state s t)) [
  | inl e ↦ e
  | inr (u, e) ↦ ground (
    arith,
    h,
    step_test live_test
        (unfold edges order_lifecycle_states is_terminal legal_triggers live_test in refl) s t u e,
  )
]

terminal_end :
    (s : OrderLifecycleState)
    → is_terminal s ≡ true
    → (v : OrderLifecycleState) → Run next_state s v
    → v ≡ s
terminal_end s h v (stay s') = refl
terminal_end s h v (step {u = u} t g r) = ground (arith, g, terminal_step s t h)

-- From a terminal state of an order no sequence of transitions leads to another state, and every
-- status report is ignored.
pub ingest_target_terminal :
    (status : OrderStatus) (s : OrderLifecycleState)
    → is_terminal s ≡ true
    → ((v : OrderLifecycleState) → Run next_state s v → v ≡ s) × (ingest_target status s ≡ ok none)
unfolding ingest_target
ingest_target_terminal status s h = (
  terminal_end s h,
  elim (Option-cases (status_to_trigger status)) [
    | inl k ↦ ground (arith, k)
    | inr (t, k) ↦ ground (arith, k, h, terminal_step s t h)
  ],
)
