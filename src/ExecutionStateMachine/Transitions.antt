-- ===== src/ExecutionStateMachine/Transitions.antt =====
-- execution_state_machine/transitions.py: the table of legal transitions.
pub mod Safety
use turtle_qts_execution.Base.{
  Bool, Option, is_some, List, [], ◌∷◌, table_get, legal_triggers as triggers_of,
}
use turtle_qts_execution.ExecutionStateMachine.States.{State, Trigger, states, triggers}
use turtle_qts_execution.EventStore.Types.{EventType}

-- `_EDGES`
unfoldable pub edges : List (State × Trigger × State)
edges =
    (State.initializing, Trigger.started, State.reconciling)
    ∷ (State.initializing, Trigger.emergency_kill_triggered, State.emergency_kill)
    ∷ (State.initializing, Trigger.shutdown, State.stopped)
    ∷ (State.reconciling, Trigger.reconciled, State.ready)
    ∷ (State.reconciling, Trigger.reconciliation_failed, State.soft_kill)
    ∷ (State.reconciling, Trigger.soft_kill_triggered, State.soft_kill)
    ∷ (State.reconciling, Trigger.hard_kill_triggered, State.hard_kill)
    ∷ (State.reconciling, Trigger.emergency_kill_triggered, State.emergency_kill)
    ∷ (State.reconciling, Trigger.shutdown, State.stopped)
    ∷ (State.ready, Trigger.signal_received, State.signal_pending)
    ∷ (State.ready, Trigger.soft_kill_triggered, State.soft_kill)
    ∷ (State.ready, Trigger.hard_kill_triggered, State.hard_kill)
    ∷ (State.ready, Trigger.emergency_kill_triggered, State.emergency_kill)
    ∷ (State.ready, Trigger.shutdown, State.stopped)
    ∷ (State.signal_pending, Trigger.order_placed, State.order_pending)
    ∷ (State.signal_pending, Trigger.signal_rejected, State.ready)
    ∷ (State.signal_pending, Trigger.soft_kill_triggered, State.soft_kill)
    ∷ (State.signal_pending, Trigger.hard_kill_triggered, State.hard_kill)
    ∷ (State.signal_pending, Trigger.emergency_kill_triggered, State.emergency_kill)
    ∷ (State.order_pending, Trigger.partial_fill_received, State.partially_filled)
    ∷ (State.order_pending, Trigger.fully_filled, State.position_open)
    ∷ (State.order_pending, Trigger.order_rejected, State.ready)
    ∷ (State.order_pending, Trigger.order_cancelled, State.ready)
    ∷ (State.order_pending, Trigger.soft_kill_triggered, State.soft_kill)
    ∷ (State.order_pending, Trigger.hard_kill_triggered, State.hard_kill)
    ∷ (State.order_pending, Trigger.emergency_kill_triggered, State.emergency_kill)
    ∷ (State.partially_filled, Trigger.partial_fill_received, State.partially_filled)
    ∷ (State.partially_filled, Trigger.remainder_filled, State.position_open)
    ∷ (State.partially_filled, Trigger.soft_kill_triggered, State.soft_kill)
    ∷ (State.partially_filled, Trigger.hard_kill_triggered, State.hard_kill)
    ∷ (State.partially_filled, Trigger.emergency_kill_triggered, State.emergency_kill)
    ∷ (State.position_open, Trigger.stop_adjusted, State.position_open)
    ∷ (State.position_open, Trigger.partial_take_profit_filled, State.position_open)
    ∷ (State.position_open, Trigger.close_initiated, State.position_closing)
    ∷ (State.position_open, Trigger.soft_kill_triggered, State.soft_kill)
    ∷ (State.position_open, Trigger.hard_kill_triggered, State.hard_kill)
    ∷ (State.position_open, Trigger.emergency_kill_triggered, State.emergency_kill)
    ∷ (State.position_closing, Trigger.partial_close_filled, State.position_closing)
    ∷ (State.position_closing, Trigger.close_completed, State.flat)
    ∷ (State.position_closing, Trigger.soft_kill_triggered, State.soft_kill)
    ∷ (State.position_closing, Trigger.hard_kill_triggered, State.hard_kill)
    ∷ (State.position_closing, Trigger.emergency_kill_triggered, State.emergency_kill)
    ∷ (State.flat, Trigger.ready_for_next, State.ready)
    ∷ (State.flat, Trigger.soft_kill_triggered, State.soft_kill)
    ∷ (State.flat, Trigger.hard_kill_triggered, State.hard_kill)
    ∷ (State.flat, Trigger.emergency_kill_triggered, State.emergency_kill)
    ∷ (State.flat, Trigger.shutdown, State.stopped)
    ∷ (State.soft_kill, Trigger.resume, State.reconciling)
    ∷ (State.soft_kill, Trigger.hard_kill_triggered, State.hard_kill)
    ∷ (State.soft_kill, Trigger.emergency_kill_triggered, State.emergency_kill)
    ∷ (State.soft_kill, Trigger.shutdown, State.stopped)
    ∷ (State.hard_kill, Trigger.flatten_fill_received, State.hard_kill)
    ∷ (State.hard_kill, Trigger.resume, State.reconciling)
    ∷ (State.hard_kill, Trigger.emergency_kill_triggered, State.emergency_kill)
    ∷ (State.hard_kill, Trigger.shutdown, State.stopped)
    ∷ (State.emergency_kill, Trigger.shutdown, State.stopped)
    ∷ []

-- `TRANSITION_TABLE[(from_state, trigger)]`, none where the table has no such key.
unfoldable pub next_state : State → Trigger → Option State
unfolding edges
next_state s t = table_get states triggers s t edges

unfoldable pub is_legal : State → Trigger → Bool
unfolding next_state
is_legal s t = is_some (next_state s t)

-- `LEGAL_TRIGGERS_BY_STATE[s]`
unfoldable pub legal_triggers : State → List Trigger
unfolding edges
legal_triggers s = triggers_of states triggers s edges

-- `TRIGGER_EVENT_TYPE[trigger]`
unfoldable pub trigger_event_type : Trigger → EventType
trigger_event_type Trigger.started = EventType.system_started
trigger_event_type Trigger.reconciled = EventType.position_updated
trigger_event_type Trigger.reconciliation_failed = EventType.health_alert
trigger_event_type Trigger.signal_received = EventType.order_submitted
trigger_event_type Trigger.signal_rejected = EventType.order_cancelled
trigger_event_type Trigger.order_placed = EventType.order_submitted
trigger_event_type Trigger.order_rejected = EventType.order_cancelled
trigger_event_type Trigger.order_cancelled = EventType.order_cancelled
trigger_event_type Trigger.partial_fill_received = EventType.order_filled
trigger_event_type Trigger.fully_filled = EventType.position_opened
trigger_event_type Trigger.remainder_filled = EventType.position_opened
trigger_event_type Trigger.stop_adjusted = EventType.stop_updated
trigger_event_type Trigger.partial_take_profit_filled = EventType.take_profit_updated
trigger_event_type Trigger.close_initiated = EventType.position_updated
trigger_event_type Trigger.partial_close_filled = EventType.order_filled
trigger_event_type Trigger.close_completed = EventType.position_closed
trigger_event_type Trigger.ready_for_next = EventType.position_updated
trigger_event_type Trigger.soft_kill_triggered = EventType.kill_switch_triggered
trigger_event_type Trigger.hard_kill_triggered = EventType.kill_switch_triggered
trigger_event_type Trigger.emergency_kill_triggered = EventType.kill_switch_triggered
trigger_event_type Trigger.flatten_fill_received = EventType.order_filled
trigger_event_type Trigger.resume = EventType.position_updated
trigger_event_type Trigger.shutdown = EventType.system_stopped
