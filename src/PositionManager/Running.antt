-- ===== src/PositionManager/Running.antt =====
-- position_manager/manager.py: the state of a running position manager, and how it records an event.
use turtle_qts_execution.Base.{
  ℕ, Bool, ◌||◌, Option, none, some, List, [], ◌∷◌, ◌++◌, Text, codes, show, text_eq, is_blank,
  length, ltb, obj, str, Fields, end, field, Outcome, err, value_error, if◌then◌else◌, Dict, insert,
  Numerals, contains_text, add_text, get_or,
}
use turtle_qts_execution.EventStore.Types.{EventType}
use turtle_qts_execution.EventStore.Platform.{Platform, Disk}
use turtle_qts_execution.EventStore.Store.{EventStore}
use turtle_qts_execution.EventSourcing.{Action, rebuild, persist_and_apply}
use turtle_qts_execution.EventSourcing.Tracked.{Tracked}
use turtle_qts_execution.EventSourcing.Lifecycles.{optional_member, optional_int}
use turtle_qts_execution.PositionManager.States.{
  PositionLifecycleState, PositionLifecycleTrigger, position_lifecycle_states,
  position_lifecycle_triggers,
}
use turtle_qts_execution.PositionManager.Snapshot.{PositionSnapshot}
use turtle_qts_execution.PositionManager.Events.{Book, event_source_tag}
use turtle_qts_execution.PositionManager.Effects.{positions}

abbrev pub max_pm_id_length : ℕ
max_pm_id_length = 60

-- `make_id` of ids.py
unfoldable pub make_id : Text → ℕ → Text → Text
make_id pm_id seq suffix =
    codes "pm:" ++ (pm_id ++ (codes ":" ++ (show seq ++ (codes ":" ++ suffix))))

-- `_event_type_for_action`
unfoldable pub event_type_for_exit : Option PositionLifecycleState → EventType
event_type_for_exit (some PositionLifecycleState.stop_triggered) = EventType.stop_updated
event_type_for_exit (some PositionLifecycleState.t1_reached) = EventType.take_profit_updated
event_type_for_exit (some PositionLifecycleState.t2_reached) = EventType.take_profit_updated
event_type_for_exit _ = EventType.position_closed

-- The actions of the events.
pub data Act : Type 0 where
  create entry_fill exit breakeven complete_close archive funding : Act

abbrev pub act_text : Act → Text
act_text Act.create = codes "CREATE"
act_text Act.entry_fill = codes "ENTRY_FILL"
act_text Act.exit = codes "EXIT"
act_text Act.breakeven = codes "BREAKEVEN"
act_text Act.complete_close = codes "COMPLETE_CLOSE"
act_text Act.archive = codes "ARCHIVE"
act_text Act.funding = codes "FUNDING"

unfoldable pub event_type_for_action : Act → Option PositionLifecycleState → EventType
event_type_for_action Act.create to_state = EventType.position_opened
event_type_for_action Act.entry_fill to_state = EventType.position_updated
event_type_for_action Act.exit to_state = event_type_for_exit to_state
event_type_for_action Act.breakeven to_state = EventType.stop_updated
event_type_for_action Act.complete_close to_state = EventType.position_closed
event_type_for_action Act.archive to_state = EventType.position_updated
event_type_for_action Act.funding to_state = EventType.position_updated

-- What a running manager has beyond what its events determine: the numbers that it issued for events that were
-- not recorded, and the fills that it ignored as stale. `_next_seq` is the larger number of the two records, and
-- `_processed_fill_ids` has the ids of both.
pub record Transient : Type 0 where
  pub next_seq : ℕ
  pub ignored_fill_ids : Dict Text (List Text)

abbrev pub no_transient : Transient
no_transient = record { next_seq = 1; ignored_fill_ids = [] }

abbrev pub World : Type 0
World = Tracked Book × EventStore

-- A method of a running manager.
abbrev pub Live : Type 0 → Type 0
Live A = Transient → World → (Outcome A × World) × Transient

-- A method, or the rest of one, that only what events determine depends on.
abbrev pub lasting : {A : Type 0} → Action (Tracked Book) A → Live A
lasting act t w = (act w, t)

-- The fill is ignored: its id is remembered until the next restart.
unfoldable pub ignored : Text → Text → Transient → Transient
ignored position_id fill_id t = record t {
  ignored_fill_ids =
      insert text_eq position_id (add_text fill_id (get_or position_id [] t.ignored_fill_ids))
        t.ignored_fill_ids;
}

-- `fill_id in _processed_fill_ids.get(position_id, set())`
unfoldable pub is_processed : Text → Text → Book → Transient → Bool
is_processed position_id fill_id b t =
    contains_text fill_id (get_or position_id [] b.processed_fill_ids)
    || contains_text fill_id (get_or position_id [] t.ignored_fill_ids)

-- `reason` of a leg.
unfoldable pub leg_reason : PositionLifecycleTrigger → PositionLifecycleState → Option Text → Text
leg_reason PositionLifecycleTrigger.stop PositionLifecycleState.breakeven_active reason =
    codes "stop_after_t1"
leg_reason PositionLifecycleTrigger.stop _ reason = codes "stop_before_t1"
leg_reason PositionLifecycleTrigger.t1 current reason = codes "t1_half"
leg_reason PositionLifecycleTrigger.t2 current reason = codes "t2"
leg_reason _ current none = codes "signal_loss"
leg_reason _ current (some []) = codes "signal_loss"
leg_reason _ current (some (c ∷ cs)) = c ∷ cs

abbrev pub exit_triggers : List PositionLifecycleTrigger
exit_triggers =
    PositionLifecycleTrigger.t1 ∷ PositionLifecycleTrigger.t2 ∷ PositionLifecycleTrigger.stop
    ∷ PositionLifecycleTrigger.close ∷ []

abbrev pub entry_states : List PositionLifecycleState
entry_states =
    PositionLifecycleState.new ∷ PositionLifecycleState.opened
    ∷ PositionLifecycleState.partially_filled ∷ []

module _ (n : Numerals) (pm_id : Text) where
  -- `__init__`
  unfoldable pub init : EventStore → Outcome (Tracked Book)
  init store =
      if is_blank pm_id || ltb max_pm_id_length (length pm_id)
      then err value_error
      else rebuild (positions n pm_id) store

  -- The `payload` of `_persist`.
  unfoldable pub event_payload :
      Act
      → Text
      → Option ℕ
      → Option PositionLifecycleTrigger
      → Option PositionLifecycleState
      → Option PositionLifecycleState
      → Fields
      → Fields
  event_payload action position_id seq trigger from_state to_state details =
      field (codes "source") (str event_source_tag) (
        field (codes "pm_id") (str pm_id) (
          field (codes "seq") (optional_int seq) (
            field (codes "action") (str (act_text action)) (
              field (codes "position_id") (str position_id) (
                field (codes "trigger") (optional_member position_lifecycle_triggers trigger) (
                  field (codes "from_state") (optional_member position_lifecycle_states from_state)
                    (field (codes "to_state") (optional_member position_lifecycle_states to_state)
                      (field (codes "details") (obj details) end))))))))

  module _ (p : Platform) (disk : EventStore → Disk) (now : EventStore → Text) where
    -- `_apply_event(_persist(...))`
    unfoldable pub record_action :
        Act
        → Text
        → Option ℕ
        → Option PositionLifecycleTrigger
        → Option PositionLifecycleState
        → Option PositionLifecycleState
        → Fields
        → Text
        → Action (Tracked Book) (Option PositionSnapshot)
    record_action action position_id seq trigger from_state to_state details key =
        persist_and_apply (positions n pm_id) p disk now (event_type_for_action action to_state)
          (event_payload action position_id seq trigger from_state to_state details) key
