-- ===== src/OrderManager/Recovery.antt =====
-- Crash recovery of the order manager.
use turtle_qts_execution.Base.{
  Option, none, some, List, [], ◌∷◌, Text, Outcome, ok, err, Numerals, option_branches, if_branches,
  enum_eq, member, inl,
}
use turtle_qts_execution.EventStore.Platform.{Platform, Disk}
use turtle_qts_execution.EventStore.Store.{EventStore}
use turtle_qts_execution.EventSourcing.Soundness.{IsSynced, Sound}
use turtle_qts_execution.EventSourcing.Live.{>=>-Sound}
use turtle_qts_execution.ExchangeAdapter.Models.{Order, Symbol, Fill}
use turtle_qts_execution.OrderManager.States.{
  OrderLifecycleState, OrderLifecycleTrigger, order_lifecycle_states,
}
use turtle_qts_execution.OrderManager.Transitions.{next_state, is_terminal}
use turtle_qts_execution.OrderManager.Snapshot.{OrderSnapshot}
use turtle_qts_execution.OrderManager.Events.{find}
use turtle_qts_execution.OrderManager.Effects.{orders}
use turtle_qts_execution.OrderManager.Running.{Transient, World, Live, Adapter, is_processed}
use turtle_qts_execution.OrderManager.Manager.{amendable_states}
use turtle_qts_execution.OrderManager.Requests.{
  mark_pending, confirm_cancel, cancel_one, cancel_each, cancel_listed, send_cancel_all, cancel_all,
  fill_trigger, fill_open, fill_order, report_fill, report_order_update, resynced, ask_order,
  resync_order,
}
use turtle_qts_execution.OrderManager.Calls.{Request, listed, execute}
use turtle_qts_execution.OrderManager.StepsSound as Steps
use turtle_qts_execution.OrderManager.PlacingSound as Placing

module _ (n : Numerals) (om_id : Text) (digest : Text → Text) (p : Platform)
    (disk : EventStore → Disk) (now : EventStore → Text) (adapter : Adapter) where
  abbrev IsFine : {A : Type 0} → Live A → Type 0
  IsFine act = Steps.IsFine n om_id digest p disk now act

  abbrev Fine : {A : Type 0} → (Outcome A × World) × Transient → Type 0
  Fine r = Sound (orders n om_id) r.0

  idle-Sound : {A : Type 0} (o : Outcome A) → IsFine (λ t w. ((o, w), t))
  idle-Sound o t w h = inl h

  mark_pending-Sound :
      (request_id cid : Text) (current : OrderLifecycleState)
      → IsFine (mark_pending n om_id digest p disk now adapter request_id cid current)
  unfolding mark_pending
  mark_pending-Sound request_id cid current =
      if_branches IsFine (member order_lifecycle_states current amendable_states)
        (option_branches IsFine (next_state current OrderLifecycleTrigger.cancel_requested)
          (idle-Sound _)
          (λ pend_state.
            >=>-Sound (orders n om_id) _ _
              (Steps.record_step-Sound n om_id digest p disk now _ _ _ _ _ _ _)
              (λ _. idle-Sound _)))
        (idle-Sound _)

  confirm_cancel-Sound :
      (request_id : Text) (order : Order) (current : OrderLifecycleState)
      → IsFine (confirm_cancel n om_id digest p disk now adapter request_id order current)
  unfolding confirm_cancel
  confirm_cancel-Sound request_id order current =
      if_branches IsFine (enum_eq order_lifecycle_states current OrderLifecycleState.cancel_pending)
        (option_branches IsFine (next_state current OrderLifecycleTrigger.cancel_confirmed)
          (idle-Sound _)
          (λ conf_state.
            >=>-Sound (orders n om_id) _ _
              (Steps.step_and_drive-Sound n om_id digest p disk now _ _ _ _ _ _ _)
              (λ _. idle-Sound _)))
        (idle-Sound _)

  cancel_one-Sound :
      (request_id : Text) (order : Order)
      → IsFine (cancel_one n om_id digest p disk now adapter request_id order)
  unfolding cancel_one
  cancel_one-Sound request_id order t w h =
      option_branches Fine (find order.client_order_id w.0.core) (idle-Sound _ t w h) (λ existing.
        >=>-Sound (orders n om_id) _ _
          (mark_pending-Sound request_id order.client_order_id existing.lifecycle_state)
          (λ current. confirm_cancel-Sound request_id order current) t w h)

  cancel_each-Sound :
      (request_id : Text) (os : List Order)
      → IsFine (cancel_each n om_id digest p disk now adapter request_id os)
  unfolding cancel_each
  cancel_each-Sound request_id [] = idle-Sound _
  cancel_each-Sound request_id (order ∷ os) =
      >=>-Sound (orders n om_id) _ _ (cancel_one-Sound request_id order) (λ results.
        >=>-Sound (orders n om_id) _ _ (cancel_each-Sound request_id os) (λ more. idle-Sound _))

  cancel_listed-Sound :
      (request_id : Text) (o : Outcome (List Order))
      → IsFine (cancel_listed n om_id digest p disk now adapter request_id o)
  unfolding cancel_listed
  cancel_listed-Sound request_id (err x) = idle-Sound _
  cancel_listed-Sound request_id (ok os) = cancel_each-Sound request_id os

  cancel_all-Sound :
      (symbol : Option Symbol) → IsFine (cancel_all n om_id digest p disk now adapter symbol)
  unfolding cancel_all send_cancel_all
  cancel_all-Sound symbol =
      >=>-Sound (orders n om_id) _ _ (Steps.next_id-Sound n om_id digest p disk now _) (λ id.
        >=>-Sound (orders n om_id) _ _
          (Steps.record_action-Sound n om_id digest p disk now _ _ _ _ _ _ _ _)
          (λ _ t w h. cancel_listed-Sound _ _ t w h))

  fill_open-Sound :
      (client_order_id : Text) (fill : Fill) (existing : OrderSnapshot)
      → IsFine (fill_open n om_id digest p disk now adapter client_order_id fill existing)
  unfolding fill_open
  fill_open-Sound client_order_id fill existing =
      option_branches IsFine
        (next_state existing.lifecycle_state
          (fill_trigger n om_id digest p disk now adapter existing fill))
        (idle-Sound _)
        (λ to_state. Steps.step_and_drive-Sound n om_id digest p disk now _ _ _ _ _ _ _)

  fill_order-Sound :
      (client_order_id : Text) (fill : Fill) (existing : OrderSnapshot)
      → IsFine (fill_order n om_id digest p disk now adapter client_order_id fill existing)
  unfolding fill_order
  fill_order-Sound client_order_id fill existing t w h =
      if_branches Fine (is_processed client_order_id fill.fill_id w.0.core t) (idle-Sound _ t w h) (
        if_branches Fine (is_terminal existing.lifecycle_state) (idle-Sound _ t w h)
          (fill_open-Sound client_order_id fill existing t w h))

  resynced-Sound :
      (client_order_id : Text) (existing : OrderSnapshot) (o : Outcome (Option Order))
      → IsFine (resynced n om_id digest p disk now adapter client_order_id existing o)
  unfolding resynced
  resynced-Sound client_order_id existing (err x) = idle-Sound _
  resynced-Sound client_order_id existing (ok none) = idle-Sound _
  resynced-Sound client_order_id existing (ok (some order)) =
      Steps.ingest_status-Sound n om_id digest p disk now client_order_id _ _

  listed-Sound : (act : Live (Option OrderSnapshot)) → IsFine act → IsFine (listed act)
  listed-Sound act h = >=>-Sound (orders n om_id) act _ h (λ _. idle-Sound _)

  -- Crash recovery. Let the order manager agree with its store: the constructor gives from the store
  -- what events determine of the manager's state, every event there that is the manager's own has been
  -- applied, no other event has one of the manager's namespaced keys, and the keys index only events
  -- before the next id, which is 1 at least. Then it agrees with it again after any call of a public
  -- method that changes state, whatever the exchange and the disk answer; or the call raised, and the
  -- constructor raises the same error from then on.
  pub execute-Sound :
      (r : Request) (t : Transient) (w : World)
      → IsSynced (orders n om_id) w
      → Sound (orders n om_id) (execute n om_id digest p disk now adapter r t w).0
  unfolding execute report_fill report_order_update resync_order
  execute-Sound
        (Request.placing symbol side order_type quantity limit_price time_in_force reduce_only) =
      listed-Sound _ (
        Placing.place_order-Sound n om_id digest p disk now adapter symbol side order_type quantity
          limit_price time_in_force reduce_only)
  execute-Sound (Request.amending client_order_id new_quantity new_limit_price) = listed-Sound _ (
      Placing.amend_order-Sound n om_id digest p disk now adapter client_order_id new_quantity
        new_limit_price)
  execute-Sound (Request.cancelling client_order_id) =
      listed-Sound _ (Placing.cancel_order-Sound n om_id digest p disk now adapter client_order_id)
  execute-Sound (Request.cancelling_all symbol) = cancel_all-Sound symbol
  execute-Sound (Request.filling client_order_id fill) = listed-Sound _ (
      Steps.of_order-Sound n om_id digest p disk now client_order_id _
        (fill_order-Sound client_order_id fill))
  execute-Sound (Request.updating client_order_id order) = listed-Sound _ (
      Steps.of_order-Sound n om_id digest p disk now client_order_id _
        (λ _. Steps.ingest_status-Sound n om_id digest p disk now client_order_id _ _))
  execute-Sound (Request.resyncing client_order_id) = listed-Sound _ (
      Steps.of_order-Sound n om_id digest p disk now client_order_id _ (λ existing t w h.
        resynced-Sound client_order_id existing
          (ask_order n om_id digest p disk now adapter existing w.1) t w h))
