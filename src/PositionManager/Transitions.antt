-- ===== src/PositionManager/Transitions.antt =====
-- position_manager/states.py: the transition table, the terminal states, and the ranks by which a late notification is
-- told from a contradiction.
use turtle_qts_execution.Base.{
  ℕ, Bool, true, false, Option, is_some, List, [], ◌∷◌, table_get, legal_triggers as triggers_of,
  min_target_rank,
}
use turtle_qts_execution.PositionManager.States.{
  PositionLifecycleState, PositionLifecycleTrigger, position_lifecycle_states,
  position_lifecycle_triggers,
}

-- `_EDGES`
unfoldable pub edges :
    List (PositionLifecycleState × PositionLifecycleTrigger × PositionLifecycleState)
edges =
    (PositionLifecycleState.new, PositionLifecycleTrigger.first_fill, PositionLifecycleState.opened)
    ∷ (
      PositionLifecycleState.opened, PositionLifecycleTrigger.entry_partial,
      PositionLifecycleState.partially_filled,
    )
    ∷ (
      PositionLifecycleState.opened, PositionLifecycleTrigger.entry_complete,
      PositionLifecycleState.fully_filled,
    )
    ∷ (
      PositionLifecycleState.partially_filled, PositionLifecycleTrigger.entry_partial,
      PositionLifecycleState.partially_filled,
    )
    ∷ (
      PositionLifecycleState.partially_filled, PositionLifecycleTrigger.entry_complete,
      PositionLifecycleState.fully_filled,
    )
    ∷ (
      PositionLifecycleState.partially_filled, PositionLifecycleTrigger.close,
      PositionLifecycleState.closed,
    )
    ∷ (
      PositionLifecycleState.partially_filled, PositionLifecycleTrigger.stop,
      PositionLifecycleState.stop_triggered,
    )
    ∷ (
      PositionLifecycleState.fully_filled, PositionLifecycleTrigger.t1,
      PositionLifecycleState.t1_reached,
    )
    ∷ (
      PositionLifecycleState.fully_filled, PositionLifecycleTrigger.stop,
      PositionLifecycleState.stop_triggered,
    )
    ∷ (
      PositionLifecycleState.fully_filled, PositionLifecycleTrigger.close,
      PositionLifecycleState.closed,
    )
    ∷ (
      PositionLifecycleState.t1_reached, PositionLifecycleTrigger.breakeven,
      PositionLifecycleState.breakeven_active,
    )
    ∷ (
      PositionLifecycleState.breakeven_active, PositionLifecycleTrigger.t2,
      PositionLifecycleState.t2_reached,
    )
    ∷ (
      PositionLifecycleState.breakeven_active, PositionLifecycleTrigger.stop,
      PositionLifecycleState.stop_triggered,
    )
    ∷ (
      PositionLifecycleState.breakeven_active, PositionLifecycleTrigger.close,
      PositionLifecycleState.closed,
    )
    ∷ (
      PositionLifecycleState.t2_reached, PositionLifecycleTrigger.complete_close,
      PositionLifecycleState.closed,
    )
    ∷ (
      PositionLifecycleState.stop_triggered, PositionLifecycleTrigger.complete_close,
      PositionLifecycleState.closed,
    )
    ∷ (
      PositionLifecycleState.closed, PositionLifecycleTrigger.archive,
      PositionLifecycleState.archived,
    )
    ∷ []

-- `TRANSITION_TABLE[(from_state, trigger)]`, none where the table has no such key.
unfoldable pub next_state :
    PositionLifecycleState → PositionLifecycleTrigger → Option PositionLifecycleState
unfolding edges
next_state s t = table_get position_lifecycle_states position_lifecycle_triggers s t edges

unfoldable pub is_legal : PositionLifecycleState → PositionLifecycleTrigger → Bool
unfolding next_state
is_legal s t = is_some (next_state s t)

-- `LEGAL_TRIGGERS_BY_STATE[s]`
unfoldable pub legal_triggers : PositionLifecycleState → List PositionLifecycleTrigger
unfolding edges
legal_triggers s = triggers_of position_lifecycle_states position_lifecycle_triggers s edges

-- `s in TERMINAL_STATES`
unfoldable pub is_terminal : PositionLifecycleState → Bool
unfolding legal_triggers
is_terminal s = elim (legal_triggers s) [ [] ↦ true | _ ∷ _ ↦ false ]

unfoldable pub state_rank : PositionLifecycleState → ℕ
state_rank PositionLifecycleState.new = 0
state_rank PositionLifecycleState.opened = 1
state_rank PositionLifecycleState.partially_filled = 2
state_rank PositionLifecycleState.fully_filled = 3
state_rank PositionLifecycleState.t1_reached = 4
state_rank PositionLifecycleState.breakeven_active = 5
state_rank PositionLifecycleState.t2_reached = 6
state_rank PositionLifecycleState.stop_triggered = 6
state_rank PositionLifecycleState.closed = 7
state_rank PositionLifecycleState.archived = 8

-- none where Python's `min` would raise on no target.
unfoldable pub trigger_min_target_rank : PositionLifecycleTrigger → Option ℕ
unfolding edges
trigger_min_target_rank t =
    min_target_rank position_lifecycle_states position_lifecycle_triggers state_rank t edges
