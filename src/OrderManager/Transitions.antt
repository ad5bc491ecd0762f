-- ===== src/OrderManager/Transitions.antt =====
-- order_manager/states.py: the transition table, the terminal states, and the ranks by which a late notification is
-- told from a contradiction.
use turtle_qts_execution.Base.{
  ℕ, Bool, true, false, Option, is_some, List, [], ◌∷◌, table_get, legal_triggers as triggers_of,
  min_target_rank,
}
use turtle_qts_execution.OrderManager.States.{
  OrderLifecycleState, OrderLifecycleTrigger, order_lifecycle_states, order_lifecycle_triggers,
}

-- `_EDGES`
unfoldable pub edges : List (OrderLifecycleState × OrderLifecycleTrigger × OrderLifecycleState)
edges =
    (OrderLifecycleState.new, OrderLifecycleTrigger.submit, OrderLifecycleState.submitted)
    ∷ (
      OrderLifecycleState.submitted, OrderLifecycleTrigger.acknowledged,
      OrderLifecycleState.acknowledged,
    )
    ∷ (OrderLifecycleState.submitted, OrderLifecycleTrigger.rejected, OrderLifecycleState.rejected)
    ∷ (
      OrderLifecycleState.submitted, OrderLifecycleTrigger.submit_failed,
      OrderLifecycleState.failed,
    )
    ∷ (
      OrderLifecycleState.acknowledged, OrderLifecycleTrigger.partial_fill,
      OrderLifecycleState.partially_filled,
    )
    ∷ (
      OrderLifecycleState.acknowledged, OrderLifecycleTrigger.full_fill, OrderLifecycleState.filled,
    )
    ∷ (
      OrderLifecycleState.acknowledged, OrderLifecycleTrigger.cancel_requested,
      OrderLifecycleState.cancel_pending,
    )
    ∷ (OrderLifecycleState.acknowledged, OrderLifecycleTrigger.expired, OrderLifecycleState.expired)
    ∷ (
      OrderLifecycleState.partially_filled, OrderLifecycleTrigger.partial_fill,
      OrderLifecycleState.partially_filled,
    )
    ∷ (
      OrderLifecycleState.partially_filled, OrderLifecycleTrigger.full_fill,
      OrderLifecycleState.filled,
    )
    ∷ (
      OrderLifecycleState.partially_filled, OrderLifecycleTrigger.cancel_requested,
      OrderLifecycleState.cancel_pending,
    )
    ∷ (
      OrderLifecycleState.partially_filled, OrderLifecycleTrigger.expired,
      OrderLifecycleState.expired,
    )
    ∷ (
      OrderLifecycleState.partially_filled, OrderLifecycleTrigger.cancel_confirmed,
      OrderLifecycleState.cancelled,
    )
    ∷ (
      OrderLifecycleState.cancel_pending, OrderLifecycleTrigger.cancel_confirmed,
      OrderLifecycleState.cancelled,
    )
    ∷ (
      OrderLifecycleState.cancel_pending, OrderLifecycleTrigger.partial_fill,
      OrderLifecycleState.partially_filled,
    )
    ∷ (
      OrderLifecycleState.cancel_pending, OrderLifecycleTrigger.full_fill,
      OrderLifecycleState.filled,
    )
    ∷ (
      OrderLifecycleState.cancel_pending, OrderLifecycleTrigger.cancel_retry_acknowledged,
      OrderLifecycleState.cancel_pending,
    )
    ∷ (
      OrderLifecycleState.cancel_pending, OrderLifecycleTrigger.cancel_failed,
      OrderLifecycleState.failed,
    )
    ∷ []

-- `TRANSITION_TABLE[(from_state, trigger)]`, none where the table has no such key.
unfoldable pub next_state : OrderLifecycleState → OrderLifecycleTrigger → Option OrderLifecycleState
unfolding edges
next_state s t = table_get order_lifecycle_states order_lifecycle_triggers s t edges

unfoldable pub is_legal : OrderLifecycleState → OrderLifecycleTrigger → Bool
unfolding next_state
is_legal s t = is_some (next_state s t)

-- `LEGAL_TRIGGERS_BY_STATE[s]`
unfoldable pub legal_triggers : OrderLifecycleState → List OrderLifecycleTrigger
unfolding edges
legal_triggers s = triggers_of order_lifecycle_states order_lifecycle_triggers s edges

-- `s in TERMINAL_STATES`
unfoldable pub is_terminal : OrderLifecycleState → Bool
unfolding legal_triggers
is_terminal s = elim (legal_triggers s) [ [] ↦ true | _ ∷ _ ↦ false ]

unfoldable pub state_rank : OrderLifecycleState → ℕ
state_rank OrderLifecycleState.new = 0
state_rank OrderLifecycleState.submitted = 1
state_rank OrderLifecycleState.acknowledged = 2
state_rank OrderLifecycleState.partially_filled = 3
state_rank OrderLifecycleState.cancel_pending = 3
state_rank OrderLifecycleState.filled = 4
state_rank OrderLifecycleState.cancelled = 4
state_rank OrderLifecycleState.rejected = 4
state_rank OrderLifecycleState.expired = 4
state_rank OrderLifecycleState.failed = 4

-- none where Python's `min` would raise on no target.
unfoldable pub trigger_min_target_rank : OrderLifecycleTrigger → Option ℕ
unfolding edges
trigger_min_target_rank t =
    min_target_rank order_lifecycle_states order_lifecycle_triggers state_rank t edges
