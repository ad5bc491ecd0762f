-- ===== src/OrderManager/Requests.antt =====
-- order_manager/manager.py: `cancel_all`, the reports of fills and of order updates, the resynchronisation, the
-- queries, and the calls of all public methods that change state.
use turtle_qts_execution.Base.{
  Option, none, some, List, [], ◌∷◌, ◌++◌, Text, codes, null, str, Json, end, field, Outcome, ok,
  err, key_error, state_inconsistency, if◌then◌else◌, Numerals, numeral, add_dec, le_dec, enum_eq,
  member, bind,
}
use turtle_qts_execution.EventStore.Platform.{Platform, Disk}
use turtle_qts_execution.EventStore.Store.{EventStore}
use turtle_qts_execution.EventSourcing.{return, raise}
use turtle_qts_execution.EventSourcing.Lifecycles.{optional_text}
use turtle_qts_execution.EventSourcing.Live.{lasting, ◌>=>◌}
use turtle_qts_execution.ExchangeAdapter.Models.{
  Symbol, Order, OrderRequest, CancelAllRequest, Fill, make_order_request, make_cancel_all_request,
}
use turtle_qts_execution.OrderManager.States.{
  OrderLifecycleState, OrderLifecycleTrigger, order_lifecycle_states,
}
use turtle_qts_execution.OrderManager.Transitions.{is_terminal, next_state}
use turtle_qts_execution.OrderManager.Snapshot.{OrderSnapshot}
use turtle_qts_execution.OrderManager.Events.{find}
use turtle_qts_execution.OrderManager.Running.{
  Act, Live, next_id, Adapter, reply_outcome, ignored, is_processed,
}
use turtle_qts_execution.OrderManager.Status.{
  record_action, record_step, step_and_drive, of_order, ingest_status,
}
use turtle_qts_execution.OrderManager.Manager.{amendable_states}

module _ (n : Numerals) (om_id : Text) (digest : Text → Text) (p : Platform)
    (disk : EventStore → Disk) (now : EventStore → Text) (adapter : Adapter) where
  -- The first step of `cancel_all` for an order: a live order becomes CANCEL_PENDING. It gives the state after.
  unfoldable pub mark_pending : Text → Text → OrderLifecycleState → Live OrderLifecycleState
  mark_pending request_id cid current =
      if member order_lifecycle_states current amendable_states
      then elim (next_state current OrderLifecycleTrigger.cancel_requested) [
        | none ↦ lasting (raise key_error)
        | some pend_state ↦
            lasting (
              record_step n om_id digest p disk now Act.status_update cid
                OrderLifecycleTrigger.cancel_requested current pend_state
                (field (codes "request_id") (str request_id) end)
                (cid ++ (codes ":cancel_all_pending:" ++ request_id)))
            >=> (λ _. lasting (return pend_state))
      ]
      else lasting (return current)

  -- The second step: the cancel of a pending order is confirmed. Orders in other states give no result.
  unfoldable pub confirm_cancel :
      Text → Order → OrderLifecycleState → Live (List (Option OrderSnapshot))
  confirm_cancel request_id order current =
      if enum_eq order_lifecycle_states current OrderLifecycleState.cancel_pending
      then elim (next_state current OrderLifecycleTrigger.cancel_confirmed) [
        | none ↦ lasting (raise key_error)
        | some conf_state ↦
            step_and_drive n om_id digest p disk now Act.status_update order.client_order_id
              OrderLifecycleTrigger.cancel_confirmed current conf_state
              (field (codes "exchange_order_id") (optional_text order.exchange_order_id) end)
              (order.client_order_id ++ (codes ":cancel_all_confirm:" ++ request_id))
            >=> (λ snapshot. lasting (return (snapshot ∷ [])))
      ]
      else lasting (return [])

  -- One round of the loop of `cancel_all`; an order that is not tracked is skipped.
  unfoldable pub cancel_one : Text → Order → Live (List (Option OrderSnapshot))
  cancel_one request_id order t w = elim (find order.client_order_id w.0.core) [
    | none ↦ lasting (return []) t w
    | some existing ↦
        (mark_pending request_id order.client_order_id existing.lifecycle_state
            >=> (λ current. confirm_cancel request_id order current))
          t w
  ]

  unfoldable pub cancel_each : Text → List Order → Live (List (Option OrderSnapshot))
  cancel_each request_id [] = lasting (return [])
  cancel_each request_id (order ∷ os) =
      let rest = cancel_each request_id os in
      cancel_one request_id order
      >=> (λ results. rest >=> (λ more. lasting (return (results ++ more))))

  -- The end of `cancel_all`, on the adapter's reply.
  unfoldable pub cancel_listed : Text → Outcome (List Order) → Live (List (Option OrderSnapshot))
  cancel_listed request_id (err x) = lasting (raise x)
  cancel_listed request_id (ok os) = cancel_each request_id os

  symbol_text : Option Symbol → Json
  symbol_text none = null
  symbol_text (some s) = str s.value

  unfoldable pub send_cancel_all : CancelAllRequest → Live (List (Option OrderSnapshot))
  send_cancel_all request t w =
      cancel_listed request.request_id
        (bind (make_cancel_all_request request) (λ r. reply_outcome (adapter.cancel_all r w.1))) t w

  unfoldable pub cancel_all : Option Symbol → Live (List (Option OrderSnapshot))
  unfolding symbol_text
  cancel_all symbol = next_id om_id (codes "cancel_all") >=> (λ id.
      lasting (
        record_action n om_id digest p disk now Act.cancel_all_requested (codes "*") (some id.0)
          none none none
          (field (codes "request_id") (str id.1) (field (codes "symbol") (symbol_text symbol) end))
          (codes "cancel_all:" ++ id.1))
      >=> (λ _. send_cancel_all (record { request_id = id.1; symbol = symbol })))

  unfoldable pub fill_trigger : OrderSnapshot → Fill → OrderLifecycleTrigger
  fill_trigger existing fill =
      if le_dec existing.quantity (add_dec existing.filled_quantity fill.quantity)
      then OrderLifecycleTrigger.full_fill
      else OrderLifecycleTrigger.partial_fill

  -- A fill of an order that is open.
  unfoldable pub fill_open : Text → Fill → OrderSnapshot → Live (Option OrderSnapshot)
  fill_open client_order_id fill existing =
      elim (next_state existing.lifecycle_state (fill_trigger existing fill)) [
        | none ↦ lasting (raise state_inconsistency)
        | some to_state ↦
            step_and_drive n om_id digest p disk now Act.fill client_order_id
              (fill_trigger existing fill) existing.lifecycle_state to_state
              (field (codes "fill_id") (str fill.fill_id) (
                field (codes "fill_quantity") (numeral n fill.quantity)
                  (field (codes "fill_price") (numeral n fill.price) end)))
              (client_order_id ++ (codes ":fill:" ++ fill.fill_id))
      ]

  -- A fill of an order that there is; one that comes after the end of the order is ignored.
  unfoldable pub fill_order : Text → Fill → OrderSnapshot → Live (Option OrderSnapshot)
  fill_order client_order_id fill existing t w =
      if is_processed client_order_id fill.fill_id w.0.core t
      then lasting (return (some existing)) t w
      else if is_terminal existing.lifecycle_state
      then lasting (return (some existing)) (ignored client_order_id fill.fill_id t) w
      else fill_open client_order_id fill existing t w

  unfoldable pub report_fill : Text → Fill → Live (Option OrderSnapshot)
  report_fill client_order_id fill =
      of_order n om_id digest p disk now client_order_id (fill_order client_order_id fill)

  unfoldable pub report_order_update : Text → Order → Live (Option OrderSnapshot)
  report_order_update client_order_id order =
      of_order n om_id digest p disk now client_order_id (λ _.
        ingest_status n om_id digest p disk now client_order_id order.status
          order.exchange_order_id)

  unfoldable pub resync_request : OrderSnapshot → OrderRequest
  resync_request p = record {
    client_order_id = p.client_order_id;
    symbol = p.symbol;
    side = p.side;
    order_type = p.order_type;
    quantity = p.quantity;
    limit_price = p.limit_price;
    time_in_force = p.time_in_force;
    reduce_only = p.reduce_only;
  }

  -- The end of `resync_order`, on what the adapter says of the order.
  unfoldable pub resynced :
      Text → OrderSnapshot → Outcome (Option Order) → Live (Option OrderSnapshot)
  resynced client_order_id existing (err x) = lasting (raise x)
  resynced client_order_id existing (ok none) = lasting (return (some existing))
  resynced client_order_id existing (ok (some order)) =
      ingest_status n om_id digest p disk now client_order_id order.status order.exchange_order_id

  -- What the adapter says of an order, asked by its request where it has no exchange order id.
  unfoldable pub ask_order : OrderSnapshot → EventStore → Outcome (Option Order)
  ask_order existing store = elim existing.exchange_order_id [
    | none ↦
        bind (make_order_request (resync_request existing))
          (λ r. reply_outcome (adapter.find_order r store))
    | some id ↦ bind (reply_outcome (adapter.get_order_status id store)) (λ order. ok (some order))
  ]

  unfoldable pub resync_order : Text → Live (Option OrderSnapshot)
  resync_order client_order_id =
      of_order n om_id digest p disk now client_order_id
        (λ existing t w. resynced client_order_id existing (ask_order existing w.1) t w)
