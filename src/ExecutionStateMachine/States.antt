-- ===== src/ExecutionStateMachine/States.antt =====
-- execution_state_machine/states.py: the members of `State` and `Trigger`. `TransitionResult` stands
-- with the machine.
use turtle_qts_execution.Base.{
  ℕ, ◌≡◌, refl, some, List, [], ◌∷◌, Text, codes, get_elem?, Enum, of_value,
}

pub data State : Type 0 where
  initializing reconciling ready signal_pending order_pending partially_filled position_open
        position_closing flat soft_kill hard_kill emergency_kill stopped :
      State

unfoldable pub state_index : State → ℕ
state_index State.initializing = 0
state_index State.reconciling = 1
state_index State.ready = 2
state_index State.signal_pending = 3
state_index State.order_pending = 4
state_index State.partially_filled = 5
state_index State.position_open = 6
state_index State.position_closing = 7
state_index State.flat = 8
state_index State.soft_kill = 9
state_index State.hard_kill = 10
state_index State.emergency_kill = 11
state_index State.stopped = 12

unfoldable pub state_value : State → Text
state_value State.initializing = codes "INITIALIZING"
state_value State.reconciling = codes "RECONCILING"
state_value State.ready = codes "READY"
state_value State.signal_pending = codes "SIGNAL_PENDING"
state_value State.order_pending = codes "ORDER_PENDING"
state_value State.partially_filled = codes "PARTIALLY_FILLED"
state_value State.position_open = codes "POSITION_OPEN"
state_value State.position_closing = codes "POSITION_CLOSING"
state_value State.flat = codes "FLAT"
state_value State.soft_kill = codes "SOFT_KILL"
state_value State.hard_kill = codes "HARD_KILL"
state_value State.emergency_kill = codes "EMERGENCY_KILL"
state_value State.stopped = codes "STOPPED"

abbrev pub state_members : List State
state_members =
    State.initializing ∷ State.reconciling ∷ State.ready ∷ State.signal_pending
    ∷ State.order_pending ∷ State.partially_filled ∷ State.position_open ∷ State.position_closing
    ∷ State.flat ∷ State.soft_kill ∷ State.hard_kill ∷ State.emergency_kill ∷ State.stopped ∷ []

pub state_index_lem : (a : State) → get_elem? state_members (state_index a) ≡ some a
unfolding state_index
state_index_lem State.initializing = refl
state_index_lem State.reconciling = refl
state_index_lem State.ready = refl
state_index_lem State.signal_pending = refl
state_index_lem State.order_pending = refl
state_index_lem State.partially_filled = refl
state_index_lem State.position_open = refl
state_index_lem State.position_closing = refl
state_index_lem State.flat = refl
state_index_lem State.soft_kill = refl
state_index_lem State.hard_kill = refl
state_index_lem State.emergency_kill = refl
state_index_lem State.stopped = refl

unfoldable pub states : Enum State
unfolding state_index state_value
states = record {
  members = state_members;
  index = state_index;
  value = state_value;
  index_lem = state_index_lem;
}

-- Every member is read back from its value.
pub of_value-state : (a : State) → of_value states (states.value a) ≡ some a
unfolding states of_value
of_value-state State.initializing = refl
of_value-state State.reconciling = refl
of_value-state State.ready = refl
of_value-state State.signal_pending = refl
of_value-state State.order_pending = refl
of_value-state State.partially_filled = refl
of_value-state State.position_open = refl
of_value-state State.position_closing = refl
of_value-state State.flat = refl
of_value-state State.soft_kill = refl
of_value-state State.hard_kill = refl
of_value-state State.emergency_kill = refl
of_value-state State.stopped = refl

pub data Trigger : Type 0 where
  started reconciled reconciliation_failed signal_received signal_rejected order_placed
        order_rejected order_cancelled partial_fill_received fully_filled remainder_filled
        stop_adjusted partial_take_profit_filled close_initiated partial_close_filled
        close_completed ready_for_next soft_kill_triggered hard_kill_triggered
        emergency_kill_triggered flatten_fill_received resume shutdown :
      Trigger

unfoldable pub trigger_index : Trigger → ℕ
trigger_index Trigger.started = 0
trigger_index Trigger.reconciled = 1
trigger_index Trigger.reconciliation_failed = 2
trigger_index Trigger.signal_received = 3
trigger_index Trigger.signal_rejected = 4
trigger_index Trigger.order_placed = 5
trigger_index Trigger.order_rejected = 6
trigger_index Trigger.order_cancelled = 7
trigger_index Trigger.partial_fill_received = 8
trigger_index Trigger.fully_filled = 9
trigger_index Trigger.remainder_filled = 10
trigger_index Trigger.stop_adjusted = 11
trigger_index Trigger.partial_take_profit_filled = 12
trigger_index Trigger.close_initiated = 13
trigger_index Trigger.partial_close_filled = 14
trigger_index Trigger.close_completed = 15
trigger_index Trigger.ready_for_next = 16
trigger_index Trigger.soft_kill_triggered = 17
trigger_index Trigger.hard_kill_triggered = 18
trigger_index Trigger.emergency_kill_triggered = 19
trigger_index Trigger.flatten_fill_received = 20
trigger_index Trigger.resume = 21
trigger_index Trigger.shutdown = 22

unfoldable pub trigger_value : Trigger → Text
trigger_value Trigger.started = codes "STARTED"
trigger_value Trigger.reconciled = codes "RECONCILED"
trigger_value Trigger.reconciliation_failed = codes "RECONCILIATION_FAILED"
trigger_value Trigger.signal_received = codes "SIGNAL_RECEIVED"
trigger_value Trigger.signal_rejected = codes "SIGNAL_REJECTED"
trigger_value Trigger.order_placed = codes "ORDER_PLACED"
trigger_value Trigger.order_rejected = codes "ORDER_REJECTED"
trigger_value Trigger.order_cancelled = codes "ORDER_CANCELLED"
trigger_value Trigger.partial_fill_received = codes "PARTIAL_FILL_RECEIVED"
trigger_value Trigger.fully_filled = codes "FULLY_FILLED"
trigger_value Trigger.remainder_filled = codes "REMAINDER_FILLED"
trigger_value Trigger.stop_adjusted = codes "STOP_ADJUSTED"
trigger_value Trigger.partial_take_profit_filled = codes "PARTIAL_TAKE_PROFIT_FILLED"
trigger_value Trigger.close_initiated = codes "CLOSE_INITIATED"
trigger_value Trigger.partial_close_filled = codes "PARTIAL_CLOSE_FILLED"
trigger_value Trigger.close_completed = codes "CLOSE_COMPLETED"
trigger_value Trigger.ready_for_next = codes "READY_FOR_NEXT"
trigger_value Trigger.soft_kill_triggered = codes "SOFT_KILL_TRIGGERED"
trigger_value Trigger.hard_kill_triggered = codes "HARD_KILL_TRIGGERED"
trigger_value Trigger.emergency_kill_triggered = codes "EMERGENCY_KILL_TRIGGERED"
trigger_value Trigger.flatten_fill_received = codes "FLATTEN_FILL_RECEIVED"
trigger_value Trigger.resume = codes "RESUME"
trigger_value Trigger.shutdown = codes "SHUTDOWN"

abbrev pub trigger_members : List Trigger
trigger_members =
    Trigger.started ∷ Trigger.reconciled ∷ Trigger.reconciliation_failed ∷ Trigger.signal_received
    ∷ Trigger.signal_rejected ∷ Trigger.order_placed ∷ Trigger.order_rejected
    ∷ Trigger.order_cancelled ∷ Trigger.partial_fill_received ∷ Trigger.fully_filled
    ∷ Trigger.remainder_filled ∷ Trigger.stop_adjusted ∷ Trigger.partial_take_profit_filled
    ∷ Trigger.close_initiated ∷ Trigger.partial_close_filled ∷ Trigger.close_completed
    ∷ Trigger.ready_for_next ∷ Trigger.soft_kill_triggered ∷ Trigger.hard_kill_triggered
    ∷ Trigger.emergency_kill_triggered ∷ Trigger.flatten_fill_received ∷ Trigger.resume
    ∷ Trigger.shutdown ∷ []

pub trigger_index_lem : (a : Trigger) → get_elem? trigger_members (trigger_index a) ≡ some a
unfolding trigger_index
trigger_index_lem Trigger.started = refl
trigger_index_lem Trigger.reconciled = refl
trigger_index_lem Trigger.reconciliation_failed = refl
trigger_index_lem Trigger.signal_received = refl
trigger_index_lem Trigger.signal_rejected = refl
trigger_index_lem Trigger.order_placed = refl
trigger_index_lem Trigger.order_rejected = refl
trigger_index_lem Trigger.order_cancelled = refl
trigger_index_lem Trigger.partial_fill_received = refl
trigger_index_lem Trigger.fully_filled = refl
trigger_index_lem Trigger.remainder_filled = refl
trigger_index_lem Trigger.stop_adjusted = refl
trigger_index_lem Trigger.partial_take_profit_filled = refl
trigger_index_lem Trigger.close_initiated = refl
trigger_index_lem Trigger.partial_close_filled = refl
trigger_index_lem Trigger.close_completed = refl
trigger_index_lem Trigger.ready_for_next = refl
trigger_index_lem Trigger.soft_kill_triggered = refl
trigger_index_lem Trigger.hard_kill_triggered = refl
trigger_index_lem Trigger.emergency_kill_triggered = refl
trigger_index_lem Trigger.flatten_fill_received = refl
trigger_index_lem Trigger.resume = refl
trigger_index_lem Trigger.shutdown = refl

unfoldable pub triggers : Enum Trigger
unfolding trigger_index trigger_value
triggers = record {
  members = trigger_members;
  index = trigger_index;
  value = trigger_value;
  index_lem = trigger_index_lem;
}

-- Every member is read back from its value.
pub of_value-trigger : (a : Trigger) → of_value triggers (triggers.value a) ≡ some a
unfolding triggers of_value
of_value-trigger Trigger.started = refl
of_value-trigger Trigger.reconciled = refl
of_value-trigger Trigger.reconciliation_failed = refl
of_value-trigger Trigger.signal_received = refl
of_value-trigger Trigger.signal_rejected = refl
of_value-trigger Trigger.order_placed = refl
of_value-trigger Trigger.order_rejected = refl
of_value-trigger Trigger.order_cancelled = refl
of_value-trigger Trigger.partial_fill_received = refl
of_value-trigger Trigger.fully_filled = refl
of_value-trigger Trigger.remainder_filled = refl
of_value-trigger Trigger.stop_adjusted = refl
of_value-trigger Trigger.partial_take_profit_filled = refl
of_value-trigger Trigger.close_initiated = refl
of_value-trigger Trigger.partial_close_filled = refl
of_value-trigger Trigger.close_completed = refl
of_value-trigger Trigger.ready_for_next = refl
of_value-trigger Trigger.soft_kill_triggered = refl
of_value-trigger Trigger.hard_kill_triggered = refl
of_value-trigger Trigger.emergency_kill_triggered = refl
of_value-trigger Trigger.flatten_fill_received = refl
of_value-trigger Trigger.resume = refl
of_value-trigger Trigger.shutdown = refl
