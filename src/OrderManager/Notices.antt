-- ===== src/OrderManager/Notices.antt =====
-- order_manager/manager.py, `_ingest_status`: what a status report does to the lifecycle of an order.
pub mod Redelivery
use turtle_qts_execution.Base.{
  Bool, true, false, Option, none, some, Outcome, ok, err, value_error, state_inconsistency, leb,
  if◌then◌else◌,
}
use turtle_qts_execution.ExchangeAdapter.Models.{OrderStatus}
use turtle_qts_execution.OrderManager.States.{OrderLifecycleState, OrderLifecycleTrigger}
use turtle_qts_execution.OrderManager.Transitions.{
  is_terminal, next_state, state_rank, trigger_min_target_rank,
}

-- `_STATUS_TO_TRIGGER.get(status)`
unfoldable pub status_to_trigger : OrderStatus → Option OrderLifecycleTrigger
status_to_trigger OrderStatus.acknowledged = some OrderLifecycleTrigger.acknowledged
status_to_trigger OrderStatus.cancelled = some OrderLifecycleTrigger.cancel_confirmed
status_to_trigger OrderStatus.rejected = some OrderLifecycleTrigger.rejected
status_to_trigger _ = none

-- The state that the report takes the order to; none where it is inert or stale, and then the order's snapshot is
-- returned as it is; OrderStateInconsistencyError for any other report.
unfoldable pub ingest_target :
    OrderStatus → OrderLifecycleState → Outcome (Option OrderLifecycleState)
ingest_target status current = elim (status_to_trigger status) [
  | none ↦ ok none
  | some trigger ↦ elim (next_state current trigger) [
    | some to ↦ ok (some to)
    | none ↦ if is_terminal current then ok none else elim (trigger_min_target_rank trigger) [
      | none ↦ err value_error
      | some least ↦ if leb least (state_rank current) then ok none else err state_inconsistency
    ]
  ]
]
