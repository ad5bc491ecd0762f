-- ===== src/OrderManager/Calls.antt =====
-- order_manager/manager.py: the calls of the public methods that change state, and the queries.
use turtle_qts_execution.Base.{
  Option, none, some, List, [], ◌∷◌, Text, Bool, ◌||◌, Outcome, ok, err, not_found, if◌then◌else◌,
  Decimal, Numerals, enum_eq,
}
use turtle_qts_execution.EventStore.Platform.{Platform, Disk}
use turtle_qts_execution.EventStore.Store.{EventStore}
use turtle_qts_execution.EventSourcing.{return}
use turtle_qts_execution.EventSourcing.Live.{lasting, ◌>=>◌}
use turtle_qts_execution.ExchangeAdapter.Models.{
  Symbol, OrderSide, OrderType, TimeInForce, Order, Fill,
}
use turtle_qts_execution.OrderManager.States.{OrderLifecycleState, order_lifecycle_states}
use turtle_qts_execution.OrderManager.Snapshot.{OrderSnapshot}
use turtle_qts_execution.OrderManager.Events.{Orders, find}
use turtle_qts_execution.OrderManager.Running.{Live, Adapter}
use turtle_qts_execution.OrderManager.Manager.{place_order, amend_order, cancel_order}
use turtle_qts_execution.OrderManager.Requests.{
  cancel_all, report_fill, report_order_update, resync_order,
}

pub data Request : Type 0 where
  placing : Symbol → OrderSide → OrderType → Decimal → Option Decimal → TimeInForce → Bool → Request
  amending : Text → Option Decimal → Option Decimal → Request
  cancelling : Text → Request
  cancelling_all : Option Symbol → Request
  filling : Text → Fill → Request
  updating : Text → Order → Request
  resyncing : Text → Request

abbrev pub listed : Live (Option OrderSnapshot) → Live (List (Option OrderSnapshot))
listed act = act >=> (λ snapshot. lasting (return (snapshot ∷ [])))

module _ (n : Numerals) (om_id : Text) (digest : Text → Text) (p : Platform)
    (disk : EventStore → Disk) (now : EventStore → Text) (adapter : Adapter) where
  unfoldable pub execute : Request → Live (List (Option OrderSnapshot))
  execute (placing symbol side order_type quantity limit_price time_in_force reduce_only) = listed (
      place_order n om_id digest p disk now adapter symbol side order_type quantity limit_price
        time_in_force reduce_only)
  execute (amending client_order_id new_quantity new_limit_price) =
      listed
        (amend_order n om_id digest p disk now adapter client_order_id new_quantity new_limit_price)
  execute (cancelling client_order_id) =
      listed (cancel_order n om_id digest p disk now adapter client_order_id)
  execute (cancelling_all symbol) = cancel_all n om_id digest p disk now adapter symbol
  execute (filling client_order_id fill) =
      listed (report_fill n om_id digest p disk now adapter client_order_id fill)
  execute (updating client_order_id order) =
      listed (report_order_update n om_id digest p disk now adapter client_order_id order)
  execute (resyncing client_order_id) =
      listed (resync_order n om_id digest p disk now adapter client_order_id)

unfoldable pub get_order_status : Text → Orders → Outcome OrderSnapshot
get_order_status client_order_id b = elim (find client_order_id b) [
  | none ↦ err not_found
  | some p ↦ ok p
]

abbrev pub in_doubt : List (Text × OrderSnapshot) → List Text
in_doubt [] = []
in_doubt ((cid, p) ∷ d) =
    if enum_eq order_lifecycle_states p.lifecycle_state OrderLifecycleState.submitted
      || enum_eq order_lifecycle_states p.lifecycle_state OrderLifecycleState.cancel_pending
    then cid ∷ in_doubt d
    else in_doubt d

unfoldable pub in_doubt_client_order_ids : Orders → List Text
in_doubt_client_order_ids b = in_doubt b.snapshots
