-- ===== src/OrderManager/Running.antt =====
-- order_manager/manager.py: the state of a running order manager, how it records an event, and how it drives the
-- execution state machine (`_drive_execution_sm`), which writes to the same store.
use turtle_qts_execution.Base.{
  ℕ, max, ◌+◌, Bool, ◌||◌, Option, none, some, List, [], ◌++◌, Text, codes, show, text_eq, Outcome,
  ok, err, Error, attribute_error, adapter_error, if◌then◌else◌, Dict, insert, dec, eq_dec,
  contains_text, add_text, get_or, enum_eq,
}
use turtle_qts_execution.EventStore.Types.{EventType}
use turtle_qts_execution.EventStore.Store.{EventStore}
use turtle_qts_execution.EventSourcing.Tracked.{Tracked}
use turtle_qts_execution.EventSourcing.Live.{Live as LiveOf}
use turtle_qts_execution.ExchangeAdapter.Models.{
  Order, OrderRequest, AmendRequest, CancelRequest, CancelAllRequest,
}
use turtle_qts_execution.ExecutionStateMachine.States.{Trigger}
use turtle_qts_execution.ExecutionStateMachine.Machine.{ExecutionStateMachine, TransitionResult}
use turtle_qts_execution.OrderManager.States.{
  OrderLifecycleState, OrderLifecycleTrigger, order_lifecycle_states,
}
use turtle_qts_execution.OrderManager.Snapshot.{OrderSnapshot}
use turtle_qts_execution.OrderManager.Events.{Orders}

abbrev pub max_om_id_length : ℕ
max_om_id_length = 60

-- `make_id` of ids.py
unfoldable pub make_id : Text → ℕ → Text → Text
make_id om_id seq suffix =
    codes "om:" ++ (om_id ++ (codes ":" ++ (show seq ++ (codes ":" ++ suffix))))

-- The actions of the events.
pub data Act : Type 0 where
  submit status_update fill amend_requested amend cancel_all_requested : Act

abbrev pub act_text : Act → Text
act_text Act.submit = codes "SUBMIT"
act_text Act.status_update = codes "STATUS_UPDATE"
act_text Act.fill = codes "FILL"
act_text Act.amend_requested = codes "AMEND_REQUESTED"
act_text Act.amend = codes "AMEND"
act_text Act.cancel_all_requested = codes "CANCEL_ALL_REQUESTED"

unfoldable pub event_type_for_status : Option OrderLifecycleState → EventType
event_type_for_status (some OrderLifecycleState.cancelled) = EventType.order_cancelled
event_type_for_status (some OrderLifecycleState.rejected) = EventType.order_cancelled
event_type_for_status (some OrderLifecycleState.expired) = EventType.order_cancelled
event_type_for_status (some OrderLifecycleState.failed) = EventType.order_cancelled
event_type_for_status _ = EventType.order_acknowledged

-- `_event_type_for_action`
unfoldable pub event_type_for_action : Act → Option OrderLifecycleState → EventType
event_type_for_action Act.submit to_state = EventType.order_submitted
event_type_for_action Act.fill to_state = EventType.order_filled
event_type_for_action Act.amend_requested to_state = EventType.position_updated
event_type_for_action Act.amend to_state = EventType.position_updated
event_type_for_action Act.cancel_all_requested to_state = EventType.order_cancelled
event_type_for_action Act.status_update to_state = event_type_for_status to_state

-- What a running manager has beyond what its events determine: the numbers that it issued for events that were not
-- recorded, the fills that it ignored, and the execution state machine. `_next_seq` is the larger number of the
-- two records, and `_processed_fill_ids` has the ids of both.
pub record Transient : Type 0 where
  pub next_seq : ℕ
  pub ignored_fill_ids : Dict Text (List Text)
  pub execution_sm : ExecutionStateMachine

abbrev pub World : Type 0
World = Tracked Orders × EventStore

abbrev pub Live : Type 0 → Type 0
Live A = LiveOf Transient (Tracked Orders) A

unfoldable pub ignored : Text → Text → Transient → Transient
ignored client_order_id fill_id t = record t {
  ignored_fill_ids =
      insert text_eq client_order_id
        (add_text fill_id (get_or client_order_id [] t.ignored_fill_ids)) t.ignored_fill_ids;
}

-- `fill_id in _processed_fill_ids.get(client_order_id, set())`
unfoldable pub is_processed : Text → Text → Orders → Transient → Bool
is_processed client_order_id fill_id b t =
    contains_text fill_id (get_or client_order_id [] b.processed_fill_ids)
    || contains_text fill_id (get_or client_order_id [] t.ignored_fill_ids)

-- `_next_id`: the number and the id.
unfoldable pub next_id : Text → Text → Live (ℕ × Text)
next_id om_id suffix t w =
    let seq = max w.0.core.next_seq t.next_seq in
    ((ok (seq, make_id om_id seq suffix), w), record t { next_seq = seq + 1 })

-- What a call of the exchange adapter gives: its result, an ExchangeAdapterError with its text, or another
-- exception.
pub data Reply (A : Type 0) : Type 0 where
  replied : A → Reply A
  refused : Text → Reply A
  raised : Error → Reply A

-- The adapter's methods, as the order manager sees them while the store is in a state.
pub record Adapter : Type 0 where
  pub place_order : OrderRequest → EventStore → Reply Order
  pub amend_order : AmendRequest → EventStore → Reply Order
  pub cancel_order : CancelRequest → EventStore → Reply Order
  pub cancel_all : CancelAllRequest → EventStore → Reply (List Order)
  pub find_order : OrderRequest → EventStore → Reply (Option Order)
  pub get_order_status : Text → EventStore → Reply Order

-- A reply of which every exception is passed on.
unfoldable pub reply_outcome : {A : Type 0} → Reply A → Outcome A
reply_outcome (Reply.replied a) = ok a
reply_outcome (Reply.refused message) = err adapter_error
reply_outcome (Reply.raised x) = err x

-- `snapshot.filled_quantity == 0`, where the snapshot may be None.
unfoldable pub is_unfilled : Option OrderSnapshot → Outcome Bool
is_unfilled none = err attribute_error
is_unfilled (some p) = ok (eq_dec p.filled_quantity (dec 0))

-- The `exec_trigger` of a confirmed cancel.
unfoldable pub cancel_trigger : Outcome Bool → Outcome (Option Trigger)
cancel_trigger (err x) = err x
cancel_trigger (ok unfilled) = if unfilled then ok (some Trigger.order_cancelled) else ok none

-- `exec_trigger`; the trigger none stands for "SUBMIT".
unfoldable pub exec_trigger :
    Option OrderLifecycleTrigger
    → OrderLifecycleState
    → Option OrderSnapshot
    → Outcome (Option Trigger)
exec_trigger none from_state snapshot = ok (some Trigger.order_placed)
exec_trigger (some OrderLifecycleTrigger.rejected) from_state snapshot =
    ok (some Trigger.order_rejected)
exec_trigger (some OrderLifecycleTrigger.partial_fill) from_state snapshot =
    ok (some Trigger.partial_fill_received)
exec_trigger (some OrderLifecycleTrigger.full_fill) from_state snapshot = ok (
    some (
      if enum_eq order_lifecycle_states from_state OrderLifecycleState.partially_filled
      then Trigger.remainder_filled
      else Trigger.fully_filled))
exec_trigger (some OrderLifecycleTrigger.cancel_confirmed) from_state snapshot =
    if enum_eq order_lifecycle_states from_state OrderLifecycleState.cancel_pending
    then cancel_trigger (is_unfilled snapshot)
    else ok none
exec_trigger (some _) from_state snapshot = ok none

-- `except ExecutionIllegalTransitionError: pass`
unfoldable pub pass_illegal : Outcome TransitionResult → Outcome (Unit {0})
pass_illegal (ok r) = ok tt
pass_illegal (err Error.illegal_transition) = ok tt
pass_illegal (err x) = err x
