-- ===== src/OrderManager/Manager.antt =====
-- order_manager/manager.py: the methods that place, amend and cancel an order. Each is one critical section under
-- the lock of its order.
use turtle_qts_execution.Base.{
  ℕ, ◌||◌, not, Option, none, some, is_some, List, [], ◌∷◌, ◌++◌, Text, codes, bool, str, Fields,
  end, field, Bool, Outcome, ok, err, value_error, illegal_transition, state_inconsistency,
  adapter_error, if◌then◌else◌, Decimal, Numerals, numeral, optional_numeral, enum_eq, member, bind,
}
use turtle_qts_execution.EventStore.Platform.{Platform, Disk}
use turtle_qts_execution.EventStore.Store.{EventStore}
use turtle_qts_execution.EventSourcing.{return, raise}
use turtle_qts_execution.EventSourcing.Live.{lasting, ◌>=>◌}
use turtle_qts_execution.ExchangeAdapter.Models.{
  Symbol, OrderSide, OrderType, TimeInForce, OrderStatus, Order, OrderRequest, AmendRequest,
  CancelRequest, make_order_request, make_amend_request, make_cancel_request, side_value,
  order_type_value, time_in_force_value,
}
use turtle_qts_execution.OrderManager.States.{
  OrderLifecycleState, OrderLifecycleTrigger, order_lifecycle_states,
}
use turtle_qts_execution.OrderManager.Transitions.{next_state}
use turtle_qts_execution.OrderManager.Snapshot.{OrderSnapshot}
use turtle_qts_execution.OrderManager.Running.{Act, Live, next_id, Adapter, Reply, reply_outcome}
use turtle_qts_execution.OrderManager.Status.{
  record_action, record_step, drive_execution_sm, tracked_order, of_order, ingest_status,
}

abbrev pub amendable_states : List OrderLifecycleState
amendable_states = OrderLifecycleState.acknowledged ∷ OrderLifecycleState.partially_filled ∷ []

-- The status that is taken in for a new order: REJECTED, or else ACKNOWLEDGED.
unfoldable pub placed_status : OrderStatus → OrderStatus
placed_status OrderStatus.rejected = OrderStatus.rejected
placed_status _ = OrderStatus.acknowledged

module _ (n : Numerals) (om_id : Text) (digest : Text → Text) (p : Platform)
    (disk : EventStore → Disk) (now : EventStore → Text) (adapter : Adapter) where
  -- `except ExchangeAdapterError`: where the order can still take the step, it is recorded; the exception is raised
  -- again.
  unfoldable pub record_failure :
      Text → OrderLifecycleTrigger → Text → Text → Live (Option OrderSnapshot)
  record_failure client_order_id trigger message key =
      tracked_order n om_id digest p disk now client_order_id (λ existing.
        elim (next_state existing.lifecycle_state trigger) [
          | none ↦ lasting (raise adapter_error)
          | some to_state ↦
              lasting (
                record_step n om_id digest p disk now Act.status_update client_order_id trigger
                  existing.lifecycle_state to_state (field (codes "error") (str message) end) key)
              >=> (λ _. lasting (raise adapter_error))
        ])

  -- The end of `place_order`, on the adapter's reply.
  unfoldable pub placed : Text → Reply Order → Live (Option OrderSnapshot)
  placed client_order_id (Reply.refused message) =
      record_failure client_order_id OrderLifecycleTrigger.submit_failed message
        (client_order_id ++ codes ":submit_failed")
  placed client_order_id (Reply.raised x) = lasting (raise x)
  placed client_order_id (Reply.replied order) =
      ingest_status n om_id digest p disk now client_order_id (placed_status order.status)
        order.exchange_order_id

  -- `OrderRequest(...)` and the adapter's reply to it.
  unfoldable pub send_order : OrderRequest → Live (Option OrderSnapshot)
  send_order request t w = elim (make_order_request request) [
    | err x ↦ lasting (raise x) t w
    | ok r ↦ placed request.client_order_id (adapter.place_order r w.1) t w
  ]

  unfoldable pub submit_details : OrderRequest → Fields
  submit_details r = field (codes "symbol") (str r.symbol.value) (
      field (codes "side") (str (side_value r.side)) (
        field (codes "order_type") (str (order_type_value r.order_type)) (
          field (codes "quantity") (numeral n r.quantity) (
            field (codes "limit_price") (optional_numeral n r.limit_price) (
              field (codes "time_in_force") (str (time_in_force_value r.time_in_force))
                (field (codes "reduce_only") (bool r.reduce_only) end))))))

  -- `place_order`, with the number and the id that it took.
  unfoldable pub submit_order : ℕ → OrderRequest → Live (Option OrderSnapshot)
  submit_order seq request =
      lasting (
        record_action n om_id digest p disk now Act.submit request.client_order_id (some seq) none
          none none (submit_details request) request.client_order_id)
      >=> (λ snapshot.
          drive_execution_sm n om_id digest p disk now request.client_order_id none
            OrderLifecycleState.new snapshot
          >=> (λ _. send_order request))

  unfoldable pub place_order :
      Symbol
      → OrderSide
      → OrderType
      → Decimal
      → Option Decimal
      → TimeInForce
      → Bool
      → Live (Option OrderSnapshot)
  place_order symbol side order_type quantity limit_price time_in_force reduce_only =
      next_id om_id (codes "place") >=> (λ id. submit_order id.0 (record {
        client_order_id = id.1;
        symbol = symbol;
        side = side;
        order_type = order_type;
        quantity = quantity;
        limit_price = limit_price;
        time_in_force = time_in_force;
        reduce_only = reduce_only;
      }))

  -- The end of `amend_order`, on the amended order.
  unfoldable pub record_amended : Text → Text → Outcome Order → Live (Option OrderSnapshot)
  record_amended client_order_id request_id (err x) = lasting (raise x)
  record_amended client_order_id request_id (ok order) = lasting (
      record_action n om_id digest p disk now Act.amend client_order_id none none none none
        (field (codes "new_quantity") (numeral n order.quantity)
          (field (codes "new_limit_price") (optional_numeral n order.limit_price) end))
        (client_order_id ++ (codes ":amend_applied:" ++ request_id)))

  -- `AmendRequest(...)` and the adapter's reply to it.
  unfoldable pub send_amendment : Text → AmendRequest → Live (Option OrderSnapshot)
  send_amendment client_order_id request t w =
      record_amended client_order_id request.request_id
        (bind (make_amend_request request) (λ r. reply_outcome (adapter.amend_order r w.1))) t w

  -- `amend_order`, on an order that can be amended.
  unfoldable pub amend_tracked :
      Text → Option Decimal → Option Decimal → Text → Live (Option OrderSnapshot)
  amend_tracked client_order_id new_quantity new_limit_price exchange_order_id =
      next_id om_id (codes "amend") >=> (λ id.
        lasting (
          record_action n om_id digest p disk now Act.amend_requested client_order_id (some id.0)
            none none none
            (field (codes "request_id") (str id.1) (
              field (codes "new_quantity") (optional_numeral n new_quantity)
                (field (codes "new_limit_price") (optional_numeral n new_limit_price) end)))
            (client_order_id ++ (codes ":amend_req:" ++ id.1)))
        >=> (λ _. send_amendment client_order_id (record {
          request_id = id.1;
          exchange_order_id = exchange_order_id;
          new_quantity = new_quantity;
          new_limit_price = new_limit_price;
        })))

  unfoldable pub amend_order : Text → Option Decimal → Option Decimal → Live (Option OrderSnapshot)
  amend_order client_order_id new_quantity new_limit_price =
      if not (is_some new_quantity || is_some new_limit_price)
      then lasting (raise value_error)
      else of_order n om_id digest p disk now client_order_id (λ existing.
        if not (member order_lifecycle_states existing.lifecycle_state amendable_states)
        then lasting (raise illegal_transition)
        else elim existing.exchange_order_id [
          | none ↦ lasting (raise state_inconsistency)
          | some exchange_order_id ↦
              amend_tracked client_order_id new_quantity new_limit_price exchange_order_id
        ])

  -- The end of `cancel_order`, on the adapter's reply.
  unfoldable pub cancel_replied : Text → Text → Reply Order → Live (Option OrderSnapshot)
  cancel_replied client_order_id request_id (Reply.refused message) =
      record_failure client_order_id OrderLifecycleTrigger.cancel_failed message
        (client_order_id ++ (codes ":cancel_failed:" ++ request_id))
  cancel_replied client_order_id request_id (Reply.raised x) = lasting (raise x)
  cancel_replied client_order_id request_id (Reply.replied order) =
      ingest_status n om_id digest p disk now client_order_id order.status order.exchange_order_id

  -- `CancelRequest(...)` and the adapter's reply to it.
  unfoldable pub send_cancel : Text → CancelRequest → Live (Option OrderSnapshot)
  send_cancel client_order_id request t w = elim (make_cancel_request request) [
    | err x ↦ lasting (raise x) t w
    | ok r ↦ cancel_replied client_order_id request.request_id (adapter.cancel_order r w.1) t w
  ]

  -- `cancel_order`, on an order that can be cancelled.
  unfoldable pub cancel_tracked :
      Text → OrderSnapshot → OrderLifecycleState → Text → Live (Option OrderSnapshot)
  cancel_tracked client_order_id existing to_state exchange_order_id =
      next_id om_id (codes "cancel") >=> (λ id.
        lasting (
          record_action n om_id digest p disk now Act.status_update client_order_id (some id.0)
            (some OrderLifecycleTrigger.cancel_requested) (some existing.lifecycle_state)
            (some to_state) (field (codes "request_id") (str id.1) end)
            (client_order_id ++ (codes ":cancel:" ++ id.1)))
        >=> (λ _.
            send_cancel client_order_id
              (record { request_id = id.1; exchange_order_id = exchange_order_id })))

  -- `cancel_order`, on an order that is not being cancelled yet.
  unfoldable pub start_cancel : Text → OrderSnapshot → Live (Option OrderSnapshot)
  start_cancel client_order_id existing =
      elim (next_state existing.lifecycle_state OrderLifecycleTrigger.cancel_requested) [
        | none ↦ lasting (raise illegal_transition)
        | some to_state ↦ elim existing.exchange_order_id [
          | none ↦ lasting (raise state_inconsistency)
          | some exchange_order_id ↦
              cancel_tracked client_order_id existing to_state exchange_order_id
        ]
      ]

  unfoldable pub cancel_order : Text → Live (Option OrderSnapshot)
  cancel_order client_order_id = of_order n om_id digest p disk now client_order_id (λ existing.
      if enum_eq order_lifecycle_states existing.lifecycle_state OrderLifecycleState.cancel_pending
      then lasting (return (some existing))
      else start_cancel client_order_id existing)
