-- ===== src/OrderManager/States.antt =====
-- order_manager/states.py: the members of the two enumerations.
use turtle_qts_execution.Base.{
  ℕ, ◌≡◌, refl, some, List, [], ◌∷◌, Text, codes, get_elem?, Enum, of_value,
}

pub data OrderLifecycleState : Type 0 where
  new submitted acknowledged partially_filled filled cancel_pending cancelled rejected expired
        failed :
      OrderLifecycleState

unfoldable pub order_lifecycle_state_index : OrderLifecycleState → ℕ
order_lifecycle_state_index OrderLifecycleState.new = 0
order_lifecycle_state_index OrderLifecycleState.submitted = 1
order_lifecycle_state_index OrderLifecycleState.acknowledged = 2
order_lifecycle_state_index OrderLifecycleState.partially_filled = 3
order_lifecycle_state_index OrderLifecycleState.filled = 4
order_lifecycle_state_index OrderLifecycleState.cancel_pending = 5
order_lifecycle_state_index OrderLifecycleState.cancelled = 6
order_lifecycle_state_index OrderLifecycleState.rejected = 7
order_lifecycle_state_index OrderLifecycleState.expired = 8
order_lifecycle_state_index OrderLifecycleState.failed = 9

unfoldable pub order_lifecycle_state_value : OrderLifecycleState → Text
order_lifecycle_state_value OrderLifecycleState.new = codes "NEW"
order_lifecycle_state_value OrderLifecycleState.submitted = codes "SUBMITTED"
order_lifecycle_state_value OrderLifecycleState.acknowledged = codes "ACKNOWLEDGED"
order_lifecycle_state_value OrderLifecycleState.partially_filled = codes "PARTIALLY_FILLED"
order_lifecycle_state_value OrderLifecycleState.filled = codes "FILLED"
order_lifecycle_state_value OrderLifecycleState.cancel_pending = codes "CANCEL_PENDING"
order_lifecycle_state_value OrderLifecycleState.cancelled = codes "CANCELLED"
order_lifecycle_state_value OrderLifecycleState.rejected = codes "REJECTED"
order_lifecycle_state_value OrderLifecycleState.expired = codes "EXPIRED"
order_lifecycle_state_value OrderLifecycleState.failed = codes "FAILED"

abbrev pub order_lifecycle_state_members : List OrderLifecycleState
order_lifecycle_state_members =
    OrderLifecycleState.new ∷ OrderLifecycleState.submitted ∷ OrderLifecycleState.acknowledged
    ∷ OrderLifecycleState.partially_filled ∷ OrderLifecycleState.filled
    ∷ OrderLifecycleState.cancel_pending ∷ OrderLifecycleState.cancelled
    ∷ OrderLifecycleState.rejected ∷ OrderLifecycleState.expired ∷ OrderLifecycleState.failed ∷ []

pub order_lifecycle_state_index_lem :
    (a : OrderLifecycleState)
    → get_elem? order_lifecycle_state_members (order_lifecycle_state_index a) ≡ some a
unfolding order_lifecycle_state_index
order_lifecycle_state_index_lem OrderLifecycleState.new = refl
order_lifecycle_state_index_lem OrderLifecycleState.submitted = refl
order_lifecycle_state_index_lem OrderLifecycleState.acknowledged = refl
order_lifecycle_state_index_lem OrderLifecycleState.partially_filled = refl
order_lifecycle_state_index_lem OrderLifecycleState.filled = refl
order_lifecycle_state_index_lem OrderLifecycleState.cancel_pending = refl
order_lifecycle_state_index_lem OrderLifecycleState.cancelled = refl
order_lifecycle_state_index_lem OrderLifecycleState.rejected = refl
order_lifecycle_state_index_lem OrderLifecycleState.expired = refl
order_lifecycle_state_index_lem OrderLifecycleState.failed = refl

unfoldable pub order_lifecycle_states : Enum OrderLifecycleState
unfolding order_lifecycle_state_index order_lifecycle_state_value
order_lifecycle_states = record {
  members = order_lifecycle_state_members;
  index = order_lifecycle_state_index;
  value = order_lifecycle_state_value;
  index_lem = order_lifecycle_state_index_lem;
}

-- Every member is read back from its value.
pub of_value-order_lifecycle_state :
    (a : OrderLifecycleState)
    → of_value order_lifecycle_states (order_lifecycle_states.value a) ≡ some a
unfolding order_lifecycle_states of_value
of_value-order_lifecycle_state OrderLifecycleState.new = refl
of_value-order_lifecycle_state OrderLifecycleState.submitted = refl
of_value-order_lifecycle_state OrderLifecycleState.acknowledged = refl
of_value-order_lifecycle_state OrderLifecycleState.partially_filled = refl
of_value-order_lifecycle_state OrderLifecycleState.filled = refl
of_value-order_lifecycle_state OrderLifecycleState.cancel_pending = refl
of_value-order_lifecycle_state OrderLifecycleState.cancelled = refl
of_value-order_lifecycle_state OrderLifecycleState.rejected = refl
of_value-order_lifecycle_state OrderLifecycleState.expired = refl
of_value-order_lifecycle_state OrderLifecycleState.failed = refl

pub data OrderLifecycleTrigger : Type 0 where
  submit acknowledged rejected submit_failed partial_fill full_fill cancel_requested
        cancel_retry_acknowledged cancel_confirmed cancel_failed expired :
      OrderLifecycleTrigger

unfoldable pub order_lifecycle_trigger_index : OrderLifecycleTrigger → ℕ
order_lifecycle_trigger_index OrderLifecycleTrigger.submit = 0
order_lifecycle_trigger_index OrderLifecycleTrigger.acknowledged = 1
order_lifecycle_trigger_index OrderLifecycleTrigger.rejected = 2
order_lifecycle_trigger_index OrderLifecycleTrigger.submit_failed = 3
order_lifecycle_trigger_index OrderLifecycleTrigger.partial_fill = 4
order_lifecycle_trigger_index OrderLifecycleTrigger.full_fill = 5
order_lifecycle_trigger_index OrderLifecycleTrigger.cancel_requested = 6
order_lifecycle_trigger_index OrderLifecycleTrigger.cancel_retry_acknowledged = 7
order_lifecycle_trigger_index OrderLifecycleTrigger.cancel_confirmed = 8
order_lifecycle_trigger_index OrderLifecycleTrigger.cancel_failed = 9
order_lifecycle_trigger_index OrderLifecycleTrigger.expired = 10

unfoldable pub order_lifecycle_trigger_value : OrderLifecycleTrigger → Text
order_lifecycle_trigger_value OrderLifecycleTrigger.submit = codes "SUBMIT"
order_lifecycle_trigger_value OrderLifecycleTrigger.acknowledged = codes "ACKNOWLEDGED"
order_lifecycle_trigger_value OrderLifecycleTrigger.rejected = codes "REJECTED"
order_lifecycle_trigger_value OrderLifecycleTrigger.submit_failed = codes "SUBMIT_FAILED"
order_lifecycle_trigger_value OrderLifecycleTrigger.partial_fill = codes "PARTIAL_FILL"
order_lifecycle_trigger_value OrderLifecycleTrigger.full_fill = codes "FULL_FILL"
order_lifecycle_trigger_value OrderLifecycleTrigger.cancel_requested = codes "CANCEL_REQUESTED"
order_lifecycle_trigger_value OrderLifecycleTrigger.cancel_retry_acknowledged =
    codes "CANCEL_RETRY_ACKNOWLEDGED"
order_lifecycle_trigger_value OrderLifecycleTrigger.cancel_confirmed = codes "CANCEL_CONFIRMED"
order_lifecycle_trigger_value OrderLifecycleTrigger.cancel_failed = codes "CANCEL_FAILED"
order_lifecycle_trigger_value OrderLifecycleTrigger.expired = codes "EXPIRED"

abbrev pub order_lifecycle_trigger_members : List OrderLifecycleTrigger
order_lifecycle_trigger_members =
    OrderLifecycleTrigger.submit ∷ OrderLifecycleTrigger.acknowledged
    ∷ OrderLifecycleTrigger.rejected ∷ OrderLifecycleTrigger.submit_failed
    ∷ OrderLifecycleTrigger.partial_fill ∷ OrderLifecycleTrigger.full_fill
    ∷ OrderLifecycleTrigger.cancel_requested ∷ OrderLifecycleTrigger.cancel_retry_acknowledged
    ∷ OrderLifecycleTrigger.cancel_confirmed ∷ OrderLifecycleTrigger.cancel_failed
    ∷ OrderLifecycleTrigger.expired ∷ []

pub order_lifecycle_trigger_index_lem :
    (a : OrderLifecycleTrigger)
    → get_elem? order_lifecycle_trigger_members (order_lifecycle_trigger_index a) ≡ some a
unfolding order_lifecycle_trigger_index
order_lifecycle_trigger_index_lem OrderLifecycleTrigger.submit = refl
order_lifecycle_trigger_index_lem OrderLifecycleTrigger.acknowledged = refl
order_lifecycle_trigger_index_lem OrderLifecycleTrigger.rejected = refl
order_lifecycle_trigger_index_lem OrderLifecycleTrigger.submit_failed = refl
order_lifecycle_trigger_index_lem OrderLifecycleTrigger.partial_fill = refl
order_lifecycle_trigger_index_lem OrderLifecycleTrigger.full_fill = refl
order_lifecycle_trigger_index_lem OrderLifecycleTrigger.cancel_requested = refl
order_lifecycle_trigger_index_lem OrderLifecycleTrigger.cancel_retry_acknowledged = refl
order_lifecycle_trigger_index_lem OrderLifecycleTrigger.cancel_confirmed = refl
order_lifecycle_trigger_index_lem OrderLifecycleTrigger.cancel_failed = refl
order_lifecycle_trigger_index_lem OrderLifecycleTrigger.expired = refl

unfoldable pub order_lifecycle_triggers : Enum OrderLifecycleTrigger
unfolding order_lifecycle_trigger_index order_lifecycle_trigger_value
order_lifecycle_triggers = record {
  members = order_lifecycle_trigger_members;
  index = order_lifecycle_trigger_index;
  value = order_lifecycle_trigger_value;
  index_lem = order_lifecycle_trigger_index_lem;
}

-- Every member is read back from its value.
pub of_value-order_lifecycle_trigger :
    (a : OrderLifecycleTrigger)
    → of_value order_lifecycle_triggers (order_lifecycle_triggers.value a) ≡ some a
unfolding order_lifecycle_triggers of_value
of_value-order_lifecycle_trigger OrderLifecycleTrigger.submit = refl
of_value-order_lifecycle_trigger OrderLifecycleTrigger.acknowledged = refl
of_value-order_lifecycle_trigger OrderLifecycleTrigger.rejected = refl
of_value-order_lifecycle_trigger OrderLifecycleTrigger.submit_failed = refl
of_value-order_lifecycle_trigger OrderLifecycleTrigger.partial_fill = refl
of_value-order_lifecycle_trigger OrderLifecycleTrigger.full_fill = refl
of_value-order_lifecycle_trigger OrderLifecycleTrigger.cancel_requested = refl
of_value-order_lifecycle_trigger OrderLifecycleTrigger.cancel_retry_acknowledged = refl
of_value-order_lifecycle_trigger OrderLifecycleTrigger.cancel_confirmed = refl
of_value-order_lifecycle_trigger OrderLifecycleTrigger.cancel_failed = refl
of_value-order_lifecycle_trigger OrderLifecycleTrigger.expired = refl
