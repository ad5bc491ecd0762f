-- ===== src/EventStore/Types.antt =====
-- event_store/types.py: the closed enumeration of event categories, and the event itself. Payloads are
-- JSON values, which nothing mutates, so `_deep_freeze` is the identity here.
use turtle_qts_execution.Base.{
  ℕ, ◌≡◌, refl, Bool, Option, some, List, [], ◌∷◌, Text, codes, Fields, get_elem?, Enum, of_value,
}

pub data EventType : Type 0 where
  order_submitted order_acknowledged order_filled order_cancelled position_opened position_updated
        position_closed stop_updated take_profit_updated kill_switch_triggered health_alert
        system_started system_stopped :
      EventType

unfoldable pub event_type_index : EventType → ℕ
event_type_index EventType.order_submitted = 0
event_type_index EventType.order_acknowledged = 1
event_type_index EventType.order_filled = 2
event_type_index EventType.order_cancelled = 3
event_type_index EventType.position_opened = 4
event_type_index EventType.position_updated = 5
event_type_index EventType.position_closed = 6
event_type_index EventType.stop_updated = 7
event_type_index EventType.take_profit_updated = 8
event_type_index EventType.kill_switch_triggered = 9
event_type_index EventType.health_alert = 10
event_type_index EventType.system_started = 11
event_type_index EventType.system_stopped = 12

unfoldable pub event_type_value : EventType → Text
event_type_value EventType.order_submitted = codes "ORDER_SUBMITTED"
event_type_value EventType.order_acknowledged = codes "ORDER_ACKNOWLEDGED"
event_type_value EventType.order_filled = codes "ORDER_FILLED"
event_type_value EventType.order_cancelled = codes "ORDER_CANCELLED"
event_type_value EventType.position_opened = codes "POSITION_OPENED"
event_type_value EventType.position_updated = codes "POSITION_UPDATED"
event_type_value EventType.position_closed = codes "POSITION_CLOSED"
event_type_value EventType.stop_updated = codes "STOP_UPDATED"
event_type_value EventType.take_profit_updated = codes "TAKE_PROFIT_UPDATED"
event_type_value EventType.kill_switch_triggered = codes "KILL_SWITCH_TRIGGERED"
event_type_value EventType.health_alert = codes "HEALTH_ALERT"
event_type_value EventType.system_started = codes "SYSTEM_STARTED"
event_type_value EventType.system_stopped = codes "SYSTEM_STOPPED"

abbrev pub event_type_members : List EventType
event_type_members =
    EventType.order_submitted ∷ EventType.order_acknowledged ∷ EventType.order_filled
    ∷ EventType.order_cancelled ∷ EventType.position_opened ∷ EventType.position_updated
    ∷ EventType.position_closed ∷ EventType.stop_updated ∷ EventType.take_profit_updated
    ∷ EventType.kill_switch_triggered ∷ EventType.health_alert ∷ EventType.system_started
    ∷ EventType.system_stopped ∷ []

pub event_type_index_lem :
    (a : EventType) → get_elem? event_type_members (event_type_index a) ≡ some a
unfolding event_type_index
event_type_index_lem EventType.order_submitted = refl
event_type_index_lem EventType.order_acknowledged = refl
event_type_index_lem EventType.order_filled = refl
event_type_index_lem EventType.order_cancelled = refl
event_type_index_lem EventType.position_opened = refl
event_type_index_lem EventType.position_updated = refl
event_type_index_lem EventType.position_closed = refl
event_type_index_lem EventType.stop_updated = refl
event_type_index_lem EventType.take_profit_updated = refl
event_type_index_lem EventType.kill_switch_triggered = refl
event_type_index_lem EventType.health_alert = refl
event_type_index_lem EventType.system_started = refl
event_type_index_lem EventType.system_stopped = refl

unfoldable pub event_types : Enum EventType
unfolding event_type_index event_type_value
event_types = record {
  members = event_type_members;
  index = event_type_index;
  value = event_type_value;
  index_lem = event_type_index_lem;
}

-- Every member is read back from its value.
pub of_value-event_type : (a : EventType) → of_value event_types (event_types.value a) ≡ some a
unfolding event_types of_value
of_value-event_type EventType.order_submitted = refl
of_value-event_type EventType.order_acknowledged = refl
of_value-event_type EventType.order_filled = refl
of_value-event_type EventType.order_cancelled = refl
of_value-event_type EventType.position_opened = refl
of_value-event_type EventType.position_updated = refl
of_value-event_type EventType.position_closed = refl
of_value-event_type EventType.stop_updated = refl
of_value-event_type EventType.take_profit_updated = refl
of_value-event_type EventType.kill_switch_triggered = refl
of_value-event_type EventType.health_alert = refl
of_value-event_type EventType.system_started = refl
of_value-event_type EventType.system_stopped = refl

pub record Event : Type 0 where
  pub event_id : ℕ
  pub event_type : EventType
  pub timestamp_utc : Text
  pub schema_version : ℕ
  pub idempotency_key : Option Text
  pub payload : Fields

pub record RecoveryReport : Type 0 where
  pub valid_event_count : ℕ
  pub tail_truncated : Bool
  pub discarded_byte_count : ℕ
