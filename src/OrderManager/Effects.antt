-- ===== src/OrderManager/Effects.antt =====
-- order_manager/manager.py, `_apply_event`: the branches, on the state that the events so far have given.
use turtle_qts_execution.Base.{
  ◌||◌, Option, none, some, Text, codes, Fields, get, holds, Outcome, ok, err, ◌>>=◌, if◌then◌else◌,
  Numerals, as_text, as_fields_or_empty, replay_integrity,
}
use turtle_qts_execution.EventStore.Types.{Event}
use turtle_qts_execution.EventSourcing.{Manager}
use turtle_qts_execution.EventSourcing.Tracked.{Tracked, tracked}
use turtle_qts_execution.EventSourcing.Lifecycles.{advance, recorded_target}
use turtle_qts_execution.OrderManager.States.{
  OrderLifecycleState, order_lifecycle_states, order_lifecycle_triggers,
}
use turtle_qts_execution.OrderManager.Transitions.{next_state}
use turtle_qts_execution.OrderManager.Snapshot.{OrderSnapshot}
use turtle_qts_execution.OrderManager.Events.{
  Orders, find, fill_processed, snapshot_stored, order_created, new_snapshot, status_updated,
  filled, amended, is_own_event, namespaced_key, no_orders,
}

-- The end of a branch: the updated snapshot is stored, unless its computation raised.
unfoldable pub store_updated :
    Text → Orders → Outcome OrderSnapshot → Outcome (Option OrderSnapshot) × Orders
store_updated client_order_id b (err x) = (err x, b)
store_updated client_order_id b (ok p) = (ok (some p), snapshot_stored client_order_id p b)

-- The same for a new order.
unfoldable pub store_created :
    Text → Orders → Outcome OrderSnapshot → Outcome (Option OrderSnapshot) × Orders
store_created client_order_id b (err x) = (err x, b)
store_created client_order_id b (ok p) = (ok (some p), order_created client_order_id p b)

module _ (n : Numerals) where
  -- STATUS_UPDATE and FILL, once the recorded transition is checked. A fill counts as processed also where its
  -- quantity cannot be read.
  unfoldable pub apply_details :
      Text
      → Event
      → OrderSnapshot
      → OrderLifecycleState
      → Fields
      → Orders
      → Outcome (Option OrderSnapshot) × Orders
  apply_details client_order_id e existing to_state details b =
      if holds (get (codes "action") e.payload) (codes "FILL")
      then elim (as_text (get (codes "fill_id") details)) [
        | err x ↦ (err x, b)
        | ok fill_id ↦
            store_updated client_order_id (fill_processed client_order_id fill_id b)
              (filled n e details to_state existing)
      ]
      else store_updated client_order_id b (status_updated e details to_state existing)

  unfoldable pub apply_transition :
      Text → Event → OrderSnapshot → Orders → Outcome (Option OrderSnapshot) × Orders
  apply_transition client_order_id e existing b =
      elim (recorded_target order_lifecycle_states order_lifecycle_triggers next_state
        existing.lifecycle_state e.payload) [
          | err x ↦ (err x, b)
          | ok to_state ↦ elim (as_fields_or_empty (get (codes "details") e.payload)) [
            | err x ↦ (err x, b)
            | ok details ↦ apply_details client_order_id e existing to_state details b
          ]
        ]

  -- An event of an order that there is.
  unfoldable pub apply_update :
      Text → Event → OrderSnapshot → Orders → Outcome (Option OrderSnapshot) × Orders
  apply_update client_order_id e existing b =
      let action = get (codes "action") e.payload in
      if holds action (codes "STATUS_UPDATE") || holds action (codes "FILL")
      then apply_transition client_order_id e existing b
      else if holds action (codes "AMEND")
      then store_updated client_order_id b (
          as_fields_or_empty (get (codes "details") e.payload)
          >>= (λ details. amended n e details existing))
      else (err replay_integrity, b)

  unfoldable pub apply_action : Text → Event → Orders → Outcome (Option OrderSnapshot) × Orders
  apply_action client_order_id e b =
      let action = get (codes "action") e.payload in
      if holds action (codes "SUBMIT")
      then store_created client_order_id b (
          as_fields_or_empty (get (codes "details") e.payload)
          >>= (λ details. new_snapshot n client_order_id e details))
      else if holds action (codes "CANCEL_ALL_REQUESTED") || holds action (codes "AMEND_REQUESTED")
      then (ok (find client_order_id b), b)
      else elim (find client_order_id b) [
        | none ↦ (err replay_integrity, b)
        | some existing ↦ apply_update client_order_id e existing b
      ]

  -- The body of `_apply_event` for an event that is not applied yet.
  unfoldable pub effect : Event → Orders → Outcome (Option OrderSnapshot) × Orders
  effect e b = elim (as_text (get (codes "client_order_id") e.payload)) [
    | err x ↦ (err x, b)
    | ok client_order_id ↦ elim (advance (get (codes "seq") e.payload) b.next_seq) [
      | err x ↦ (err x, b)
      | ok next_seq ↦ apply_action client_order_id e (record b { next_seq = next_seq })
    ]
  ]

  -- `_snapshots.get(event.payload.get("client_order_id"))`
  unfoldable pub known_snapshot : Event → Orders → Option OrderSnapshot
  known_snapshot e b = elim (as_text (get (codes "client_order_id") e.payload)) [
    | err x ↦ none
    | ok client_order_id ↦ find client_order_id b
  ]

  -- The order manager with this id.
  abbrev pub orders : Text → Manager (Tracked Orders) (Option OrderSnapshot)
  orders om_id =
      tracked (is_own_event om_id) (namespaced_key om_id) no_orders (known_snapshot) effect
