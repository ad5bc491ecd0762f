-- ===== src/PositionManager/States.antt =====
-- position_manager/states.py: the members of the two enumerations.
use turtle_qts_execution.Base.{
  ℕ, ◌≡◌, refl, some, List, [], ◌∷◌, Text, codes, get_elem?, Enum, of_value,
}

pub data PositionLifecycleState : Type 0 where
  new opened partially_filled fully_filled t1_reached breakeven_active t2_reached stop_triggered
        closed archived :
      PositionLifecycleState

unfoldable pub position_lifecycle_state_index : PositionLifecycleState → ℕ
position_lifecycle_state_index PositionLifecycleState.new = 0
position_lifecycle_state_index PositionLifecycleState.opened = 1
position_lifecycle_state_index PositionLifecycleState.partially_filled = 2
position_lifecycle_state_index PositionLifecycleState.fully_filled = 3
position_lifecycle_state_index PositionLifecycleState.t1_reached = 4
position_lifecycle_state_index PositionLifecycleState.breakeven_active = 5
position_lifecycle_state_index PositionLifecycleState.t2_reached = 6
position_lifecycle_state_index PositionLifecycleState.stop_triggered = 7
position_lifecycle_state_index PositionLifecycleState.closed = 8
position_lifecycle_state_index PositionLifecycleState.archived = 9

unfoldable pub position_lifecycle_state_value : PositionLifecycleState → Text
position_lifecycle_state_value PositionLifecycleState.new = codes "NEW"
position_lifecycle_state_value PositionLifecycleState.opened = codes "OPEN"
position_lifecycle_state_value PositionLifecycleState.partially_filled = codes "PARTIALLY_FILLED"
position_lifecycle_state_value PositionLifecycleState.fully_filled = codes "FULLY_FILLED"
position_lifecycle_state_value PositionLifecycleState.t1_reached = codes "T1_REACHED"
position_lifecycle_state_value PositionLifecycleState.breakeven_active = codes "BREAKEVEN_ACTIVE"
position_lifecycle_state_value PositionLifecycleState.t2_reached = codes "T2_REACHED"
position_lifecycle_state_value PositionLifecycleState.stop_triggered = codes "STOP_TRIGGERED"
position_lifecycle_state_value PositionLifecycleState.closed = codes "CLOSED"
position_lifecycle_state_value PositionLifecycleState.archived = codes "ARCHIVED"

abbrev pub position_lifecycle_state_members : List PositionLifecycleState
position_lifecycle_state_members =
    PositionLifecycleState.new ∷ PositionLifecycleState.opened
    ∷ PositionLifecycleState.partially_filled ∷ PositionLifecycleState.fully_filled
    ∷ PositionLifecycleState.t1_reached ∷ PositionLifecycleState.breakeven_active
    ∷ PositionLifecycleState.t2_reached ∷ PositionLifecycleState.stop_triggered
    ∷ PositionLifecycleState.closed ∷ PositionLifecycleState.archived ∷ []

pub position_lifecycle_state_index_lem :
    (a : PositionLifecycleState)
    → get_elem? position_lifecycle_state_members (position_lifecycle_state_index a) ≡ some a
unfolding position_lifecycle_state_index
position_lifecycle_state_index_lem PositionLifecycleState.new = refl
position_lifecycle_state_index_lem PositionLifecycleState.opened = refl
position_lifecycle_state_index_lem PositionLifecycleState.partially_filled = refl
position_lifecycle_state_index_lem PositionLifecycleState.fully_filled = refl
position_lifecycle_state_index_lem PositionLifecycleState.t1_reached = refl
position_lifecycle_state_index_lem PositionLifecycleState.breakeven_active = refl
position_lifecycle_state_index_lem PositionLifecycleState.t2_reached = refl
position_lifecycle_state_index_lem PositionLifecycleState.stop_triggered = refl
position_lifecycle_state_index_lem PositionLifecycleState.closed = refl
position_lifecycle_state_index_lem PositionLifecycleState.archived = refl

unfoldable pub position_lifecycle_states : Enum PositionLifecycleState
unfolding position_lifecycle_state_index position_lifecycle_state_value
position_lifecycle_states = record {
  members = position_lifecycle_state_members;
  index = position_lifecycle_state_index;
  value = position_lifecycle_state_value;
  index_lem = position_lifecycle_state_index_lem;
}

-- Every member is read back from its value.
pub of_value-position_lifecycle_state :
    (a : PositionLifecycleState)
    → of_value position_lifecycle_states (position_lifecycle_states.value a) ≡ some a
unfolding position_lifecycle_states of_value
of_value-position_lifecycle_state PositionLifecycleState.new = refl
of_value-position_lifecycle_state PositionLifecycleState.opened = refl
of_value-position_lifecycle_state PositionLifecycleState.partially_filled = refl
of_value-position_lifecycle_state PositionLifecycleState.fully_filled = refl
of_value-position_lifecycle_state PositionLifecycleState.t1_reached = refl
of_value-position_lifecycle_state PositionLifecycleState.breakeven_active = refl
of_value-position_lifecycle_state PositionLifecycleState.t2_reached = refl
of_value-position_lifecycle_state PositionLifecycleState.stop_triggered = refl
of_value-position_lifecycle_state PositionLifecycleState.closed = refl
of_value-position_lifecycle_state PositionLifecycleState.archived = refl

pub data PositionLifecycleTrigger : Type 0 where
  first_fill entry_partial entry_complete t1 breakeven t2 stop close complete_close archive :
      PositionLifecycleTrigger

unfoldable pub position_lifecycle_trigger_index : PositionLifecycleTrigger → ℕ
position_lifecycle_trigger_index PositionLifecycleTrigger.first_fill = 0
position_lifecycle_trigger_index PositionLifecycleTrigger.entry_partial = 1
position_lifecycle_trigger_index PositionLifecycleTrigger.entry_complete = 2
position_lifecycle_trigger_index PositionLifecycleTrigger.t1 = 3
position_lifecycle_trigger_index PositionLifecycleTrigger.breakeven = 4
position_lifecycle_trigger_index PositionLifecycleTrigger.t2 = 5
position_lifecycle_trigger_index PositionLifecycleTrigger.stop = 6
position_lifecycle_trigger_index PositionLifecycleTrigger.close = 7
position_lifecycle_trigger_index PositionLifecycleTrigger.complete_close = 8
position_lifecycle_trigger_index PositionLifecycleTrigger.archive = 9

unfoldable pub position_lifecycle_trigger_value : PositionLifecycleTrigger → Text
position_lifecycle_trigger_value PositionLifecycleTrigger.first_fill = codes "FIRST_FILL"
position_lifecycle_trigger_value PositionLifecycleTrigger.entry_partial = codes "ENTRY_PARTIAL"
position_lifecycle_trigger_value PositionLifecycleTrigger.entry_complete = codes "ENTRY_COMPLETE"
position_lifecycle_trigger_value PositionLifecycleTrigger.t1 = codes "T1"
position_lifecycle_trigger_value PositionLifecycleTrigger.breakeven = codes "BREAKEVEN"
position_lifecycle_trigger_value PositionLifecycleTrigger.t2 = codes "T2"
position_lifecycle_trigger_value PositionLifecycleTrigger.stop = codes "STOP"
position_lifecycle_trigger_value PositionLifecycleTrigger.close = codes "CLOSE"
position_lifecycle_trigger_value PositionLifecycleTrigger.complete_close = codes "COMPLETE_CLOSE"
position_lifecycle_trigger_value PositionLifecycleTrigger.archive = codes "ARCHIVE"

abbrev pub position_lifecycle_trigger_members : List PositionLifecycleTrigger
position_lifecycle_trigger_members =
    PositionLifecycleTrigger.first_fill ∷ PositionLifecycleTrigger.entry_partial
    ∷ PositionLifecycleTrigger.entry_complete ∷ PositionLifecycleTrigger.t1
    ∷ PositionLifecycleTrigger.breakeven ∷ PositionLifecycleTrigger.t2
    ∷ PositionLifecycleTrigger.stop ∷ PositionLifecycleTrigger.close
    ∷ PositionLifecycleTrigger.complete_close ∷ PositionLifecycleTrigger.archive ∷ []

pub position_lifecycle_trigger_index_lem :
    (a : PositionLifecycleTrigger)
    → get_elem? position_lifecycle_trigger_members (position_lifecycle_trigger_index a) ≡ some a
unfolding position_lifecycle_trigger_index
position_lifecycle_trigger_index_lem PositionLifecycleTrigger.first_fill = refl
position_lifecycle_trigger_index_lem PositionLifecycleTrigger.entry_partial = refl
position_lifecycle_trigger_index_lem PositionLifecycleTrigger.entry_complete = refl
position_lifecycle_trigger_index_lem PositionLifecycleTrigger.t1 = refl
position_lifecycle_trigger_index_lem PositionLifecycleTrigger.breakeven = refl
position_lifecycle_trigger_index_lem PositionLifecycleTrigger.t2 = refl
position_lifecycle_trigger_index_lem PositionLifecycleTrigger.stop = refl
position_lifecycle_trigger_index_lem PositionLifecycleTrigger.close = refl
position_lifecycle_trigger_index_lem PositionLifecycleTrigger.complete_close = refl
position_lifecycle_trigger_index_lem PositionLifecycleTrigger.archive = refl

unfoldable pub position_lifecycle_triggers : Enum PositionLifecycleTrigger
unfolding position_lifecycle_trigger_index position_lifecycle_trigger_value
position_lifecycle_triggers = record {
  members = position_lifecycle_trigger_members;
  index = position_lifecycle_trigger_index;
  value = position_lifecycle_trigger_value;
  index_lem = position_lifecycle_trigger_index_lem;
}

-- Every member is read back from its value.
pub of_value-position_lifecycle_trigger :
    (a : PositionLifecycleTrigger)
    → of_value position_lifecycle_triggers (position_lifecycle_triggers.value a) ≡ some a
unfolding position_lifecycle_triggers of_value
of_value-position_lifecycle_trigger PositionLifecycleTrigger.first_fill = refl
of_value-position_lifecycle_trigger PositionLifecycleTrigger.entry_partial = refl
of_value-position_lifecycle_trigger PositionLifecycleTrigger.entry_complete = refl
of_value-position_lifecycle_trigger PositionLifecycleTrigger.t1 = refl
of_value-position_lifecycle_trigger PositionLifecycleTrigger.breakeven = refl
of_value-position_lifecycle_trigger PositionLifecycleTrigger.t2 = refl
of_value-position_lifecycle_trigger PositionLifecycleTrigger.stop = refl
of_value-position_lifecycle_trigger PositionLifecycleTrigger.close = refl
of_value-position_lifecycle_trigger PositionLifecycleTrigger.complete_close = refl
of_value-position_lifecycle_trigger PositionLifecycleTrigger.archive = refl
