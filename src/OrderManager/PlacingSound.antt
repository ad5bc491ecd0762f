-- ===== src/OrderManager/PlacingSound.antt =====
-- The agreement with the store after the methods that place, amend and cancel an order.
use turtle_qts_execution.Base.{
  ℕ, Bool, not, ◌||◌, Option, is_some, Text, Outcome, ok, err, Numerals, option_branches,
  outcome_branches, if_branches, Decimal, enum_eq, member, inl,
}
use turtle_qts_execution.EventStore.Platform.{Platform, Disk}
use turtle_qts_execution.EventStore.Store.{EventStore}
use turtle_qts_execution.EventSourcing.Soundness.{Sound}
use turtle_qts_execution.EventSourcing.Live.{>=>-Sound}
use turtle_qts_execution.ExchangeAdapter.Models.{
  Order, OrderRequest, CancelRequest, Symbol, OrderSide, OrderType, TimeInForce, make_order_request,
  make_cancel_request,
}
use turtle_qts_execution.OrderManager.States.{
  OrderLifecycleState, OrderLifecycleTrigger, order_lifecycle_states,
}
use turtle_qts_execution.OrderManager.Transitions.{next_state}
use turtle_qts_execution.OrderManager.Snapshot.{OrderSnapshot}
use turtle_qts_execution.OrderManager.Effects.{orders}
use turtle_qts_execution.OrderManager.Running.{Transient, World, Live, Adapter, Reply}
use turtle_qts_execution.OrderManager.Manager.{
  record_failure, placed, send_order, submit_order, place_order, record_amended, send_amendment,
  amend_tracked, amend_order, cancel_replied, send_cancel, cancel_tracked, start_cancel,
  cancel_order, amendable_states,
}
use turtle_qts_execution.OrderManager.StepsSound as Steps

module _ (n : Numerals) (om_id : Text) (digest : Text → Text) (p : Platform)
    (disk : EventStore → Disk) (now : EventStore → Text) (adapter : Adapter) where
  abbrev IsFine : {A : Type 0} → Live A → Type 0
  IsFine act = Steps.IsFine n om_id digest p disk now act

  abbrev Fine : {A : Type 0} → (Outcome A × World) × Transient → Type 0
  Fine r = Sound (orders n om_id) r.0

  idle-Sound : {A : Type 0} (o : Outcome A) → IsFine (λ t w. ((o, w), t))
  idle-Sound o t w h = inl h

  record_failure-Sound :
      (client_order_id : Text) (trigger : OrderLifecycleTrigger) (message key : Text)
      → IsFine
          (record_failure n om_id digest p disk now adapter client_order_id trigger message key)
  unfolding record_failure
  record_failure-Sound client_order_id trigger message key =
      Steps.tracked_order-Sound n om_id digest p disk now client_order_id _ (λ existing.
        option_branches IsFine (next_state existing.lifecycle_state trigger) (idle-Sound _)
          (λ to_state.
            >=>-Sound (orders n om_id) _ _
              (Steps.record_step-Sound n om_id digest p disk now _ _ _ _ _ _ _)
              (λ _. idle-Sound _)))

  placed-Sound :
      (client_order_id : Text) (reply : Reply Order)
      → IsFine (placed n om_id digest p disk now adapter client_order_id reply)
  unfolding placed
  placed-Sound client_order_id (Reply.refused message) =
      record_failure-Sound client_order_id _ message _
  placed-Sound client_order_id (Reply.raised x) = idle-Sound _
  placed-Sound client_order_id (Reply.replied order) =
      Steps.ingest_status-Sound n om_id digest p disk now client_order_id _ _

  send_order-Sound :
      (request : OrderRequest) → IsFine (send_order n om_id digest p disk now adapter request)
  unfolding send_order
  send_order-Sound request t w h =
      outcome_branches Fine (make_order_request request) (λ x. idle-Sound _ t w h)
        (λ r. placed-Sound request.client_order_id (adapter.place_order r w.1) t w h)

  submit_order-Sound :
      (seq : ℕ) (request : OrderRequest)
      → IsFine (submit_order n om_id digest p disk now adapter seq request)
  unfolding submit_order
  submit_order-Sound seq request =
      >=>-Sound (orders n om_id) _ _
        (Steps.record_action-Sound n om_id digest p disk now _ _ _ _ _ _ _ _)
        (λ snapshot.
          >=>-Sound (orders n om_id) _ _
            (Steps.drive_execution_sm-Sound n om_id digest p disk now _ _ _ snapshot)
            (λ _. send_order-Sound request))

  pub place_order-Sound :
      (symbol : Symbol) (side : OrderSide) (order_type : OrderType) (quantity : Decimal)
      (limit_price : Option Decimal) (time_in_force : TimeInForce) (reduce_only : Bool)
      → IsFine (
          place_order n om_id digest p disk now adapter symbol side order_type quantity limit_price
            time_in_force reduce_only)
  unfolding place_order
  place_order-Sound symbol side order_type quantity limit_price time_in_force reduce_only =
      >=>-Sound (orders n om_id) _ _ (Steps.next_id-Sound n om_id digest p disk now _)
        (λ id. submit_order-Sound id.0 _)

  record_amended-Sound :
      (client_order_id request_id : Text) (o : Outcome Order)
      → IsFine (record_amended n om_id digest p disk now adapter client_order_id request_id o)
  unfolding record_amended
  record_amended-Sound client_order_id request_id (err x) = idle-Sound _
  record_amended-Sound client_order_id request_id (ok order) =
      Steps.record_action-Sound n om_id digest p disk now _ _ _ _ _ _ _ _

  amend_tracked-Sound :
      (client_order_id : Text) (new_quantity new_limit_price : Option Decimal)
      (exchange_order_id : Text)
      → IsFine (
          amend_tracked n om_id digest p disk now adapter client_order_id new_quantity
            new_limit_price exchange_order_id)
  unfolding amend_tracked send_amendment
  amend_tracked-Sound client_order_id new_quantity new_limit_price exchange_order_id =
      >=>-Sound (orders n om_id) _ _ (Steps.next_id-Sound n om_id digest p disk now _) (λ id.
        >=>-Sound (orders n om_id) _ _
          (Steps.record_action-Sound n om_id digest p disk now _ _ _ _ _ _ _ _)
          (λ _ t w h. record_amended-Sound client_order_id _ _ t w h))

  pub amend_order-Sound :
      (client_order_id : Text) (new_quantity new_limit_price : Option Decimal)
      → IsFine (
          amend_order n om_id digest p disk now adapter client_order_id new_quantity
            new_limit_price)
  unfolding amend_order
  amend_order-Sound client_order_id new_quantity new_limit_price =
      if_branches IsFine (not (is_some new_quantity || is_some new_limit_price)) (idle-Sound _) (
        Steps.of_order-Sound n om_id digest p disk now client_order_id _ (λ existing.
          if_branches IsFine
            (not (member order_lifecycle_states existing.lifecycle_state amendable_states))
            (idle-Sound _)
            (option_branches IsFine existing.exchange_order_id (idle-Sound _)
              (λ id. amend_tracked-Sound client_order_id new_quantity new_limit_price id))))

  cancel_replied-Sound :
      (client_order_id request_id : Text) (reply : Reply Order)
      → IsFine (cancel_replied n om_id digest p disk now adapter client_order_id request_id reply)
  unfolding cancel_replied
  cancel_replied-Sound client_order_id request_id (Reply.refused message) =
      record_failure-Sound client_order_id _ message _
  cancel_replied-Sound client_order_id request_id (Reply.raised x) = idle-Sound _
  cancel_replied-Sound client_order_id request_id (Reply.replied order) =
      Steps.ingest_status-Sound n om_id digest p disk now client_order_id _ _

  send_cancel-Sound :
      (client_order_id : Text) (request : CancelRequest)
      → IsFine (send_cancel n om_id digest p disk now adapter client_order_id request)
  unfolding send_cancel
  send_cancel-Sound client_order_id request t w h =
      outcome_branches Fine (make_cancel_request request) (λ x. idle-Sound _ t w h)
        (λ r. cancel_replied-Sound client_order_id _ (adapter.cancel_order r w.1) t w h)

  start_cancel-Sound :
      (client_order_id : Text) (existing : OrderSnapshot)
      → IsFine (start_cancel n om_id digest p disk now adapter client_order_id existing)
  unfolding start_cancel cancel_tracked
  start_cancel-Sound client_order_id existing =
      option_branches IsFine
        (next_state existing.lifecycle_state OrderLifecycleTrigger.cancel_requested) (idle-Sound _)
        (λ to_state.
          option_branches IsFine existing.exchange_order_id (idle-Sound _) (λ exchange_order_id.
            >=>-Sound (orders n om_id) _ _ (Steps.next_id-Sound n om_id digest p disk now _) (λ id.
              >=>-Sound (orders n om_id) _ _
                (Steps.record_action-Sound n om_id digest p disk now _ _ _ _ _ _ _ _)
                (λ _. send_cancel-Sound client_order_id _))))

  pub cancel_order-Sound :
      (client_order_id : Text)
      → IsFine (cancel_order n om_id digest p disk now adapter client_order_id)
  unfolding cancel_order
  cancel_order-Sound client_order_id =
      Steps.of_order-Sound n om_id digest p disk now client_order_id _ (λ existing.
        if_branches IsFine
          (enum_eq order_lifecycle_states existing.lifecycle_state
            OrderLifecycleState.cancel_pending)
          (idle-Sound _) (start_cancel-Sound client_order_id existing))
