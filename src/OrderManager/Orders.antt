-- ===== src/OrderManager/Orders.antt =====
-- The orders of an order manager that has started, whatever events the store had, and of one in operation.
use turtle_qts_execution.Base.{
  ◌≡◌, arith, Option, List, Text, ok, Numerals, is_blank, ltb, length, ◌||◌, Bool-cases, inl, inr,
}
use turtle_qts_execution.EventStore.Types.{Event}
use turtle_qts_execution.EventStore.Platform.{Platform, Disk}
use turtle_qts_execution.EventStore.Store.{EventStore}
use turtle_qts_execution.EventSourcing.{Manager}
use turtle_qts_execution.EventSourcing.Tracked.{Tracked, tracked, tracked-keeps}
use turtle_qts_execution.EventSourcing.Soundness.{IsSynced}
use turtle_qts_execution.EventSourcing.Invariants.{rebuild-keeps, returned-keeps}
use turtle_qts_execution.OrderManager.Snapshot.{OrderSnapshot}
use turtle_qts_execution.OrderManager.Events.{Orders, no_orders, is_own_event, namespaced_key}
use turtle_qts_execution.OrderManager.Effects.{orders, effect, known_snapshot}
use turtle_qts_execution.OrderManager.Lifecycle.{IsOrderly, effect-IsOrderly}
use turtle_qts_execution.OrderManager.Running.{Transient, World, Adapter, max_om_id_length}
use turtle_qts_execution.OrderManager.Status.{init}
use turtle_qts_execution.OrderManager.Calls.{Request, execute}
use turtle_qts_execution.OrderManager.Recovery.{execute-Sound}

empty-IsOrderly : IsOrderly no_orders
empty-IsOrderly client_order_id p h = cc h

module _ (n : Numerals) (om_id : Text) where
  step-IsOrderly :
      (e : Event) (s s' : Tracked Orders) (r : Option OrderSnapshot)
      → IsOrderly s.core
      → Manager.apply_event (orders n om_id) e s ≡ (ok r, s')
      → IsOrderly s'.core
  step-IsOrderly =
      tracked-keeps (is_own_event om_id) (namespaced_key om_id) no_orders (known_snapshot n)
        (effect n) IsOrderly (effect-IsOrderly n)

  initial-IsOrderly : IsOrderly (Manager.initial (orders n om_id)).core
  unfolding tracked
  initial-IsOrderly = empty-IsOrderly

  -- Whatever the store holds, an order manager that the constructor gives has under each id the snapshot of that
  -- id, in a state that legal transitions lead to from SUBMITTED.
  pub init-IsOrderly :
      (store : EventStore) (s : Tracked Orders) → init n om_id store ≡ ok s → IsOrderly s.core
  unfolding init
  init-IsOrderly store s h =
      elim (Bool-cases (is_blank om_id || ltb max_om_id_length (length om_id))) [
        | inl refused ↦ cc (refused, h)
        | inr fine ↦
            rebuild-keeps (orders n om_id) (λ s. IsOrderly s.core) initial-IsOrderly step-IsOrderly
              store s (ground (arith, fine, h))
      ]

  -- After any call of a public method that returns, an order manager that agreed with its store before
  -- the call (the constructor gave from the store what events determine of its state, its own events
  -- there had been applied, no other event had one of its namespaced keys, and the keys indexed only
  -- events before the next id, which was 1 at least) has under each id the snapshot of that id, in a
  -- state that legal transitions lead to from SUBMITTED.
  pub execute-IsOrderly :
      (digest : Text → Text) (p : Platform) (disk : EventStore → Disk) (now : EventStore → Text)
      (adapter : Adapter) (r : Request) (t : Transient) (w : World)
      (a : List (Option OrderSnapshot))
      → IsSynced (orders n om_id) w
      → (execute n om_id digest p disk now adapter r t w).0.0 ≡ ok a
      → IsOrderly (execute n om_id digest p disk now adapter r t w).0.1.0.core
  execute-IsOrderly digest p disk now adapter r t w a h e =
      returned-keeps (orders n om_id) (λ s. IsOrderly s.core) initial-IsOrderly step-IsOrderly
        (execute n om_id digest p disk now adapter r t w).0 a
        (execute-Sound n om_id digest p disk now adapter r t w h) e
