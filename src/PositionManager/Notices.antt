-- ===== src/PositionManager/Notices.antt =====
-- position_manager/manager.py, `_try_transition`: what a notification does to the lifecycle of a position.
pub mod Redelivery
use turtle_qts_execution.Base.{
  Bool, true, false, Option, none, some, Outcome, ok, err, value_error, state_inconsistency, leb,
  ◌||◌, if◌then◌else◌,
}
use turtle_qts_execution.PositionManager.States.{PositionLifecycleState, PositionLifecycleTrigger}
use turtle_qts_execution.PositionManager.Transitions.{
  is_terminal, next_state, state_rank, trigger_min_target_rank,
}

-- The target of a legal notification, none for a stale one; PositionStateInconsistencyError for any other.
unfoldable pub try_transition :
    PositionLifecycleTrigger → PositionLifecycleState → Outcome (Option PositionLifecycleState)
try_transition trigger current = elim (next_state current trigger) [
  | some to ↦ ok (some to)
  | none ↦ if is_terminal current then ok none else elim (trigger_min_target_rank trigger) [
    | none ↦ err value_error
    | some least ↦ if leb least (state_rank current) then ok none else err state_inconsistency
  ]
]
