-- ===== src/OrderManager/Status.antt =====
-- order_manager/manager.py: `_persist`, `_drive_execution_sm` and `_ingest_status`.
use turtle_qts_execution.Base.{
  ℕ, ◌||◌, Option, none, some, ◌++◌, Text, codes, is_blank, length, ltb, null, str, obj, Fields,
  end, field, Outcome, ok, err, value_error, key_error, not_found, if◌then◌else◌, Numerals,
}
use turtle_qts_execution.EventStore.Platform.{Platform, Disk}
use turtle_qts_execution.EventStore.Store.{EventStore}
use turtle_qts_execution.EventSourcing.{Action, return, raise, rebuild, persist_and_apply}
use turtle_qts_execution.EventSourcing.Tracked.{Tracked}
use turtle_qts_execution.EventSourcing.Live.{lasting, ◌>=>◌}
use turtle_qts_execution.EventSourcing.Lifecycles.{optional_member, optional_int, optional_text}
use turtle_qts_execution.ExchangeAdapter.Models.{OrderStatus}
use turtle_qts_execution.ExecutionStateMachine.States.{Trigger, trigger_value}
use turtle_qts_execution.ExecutionStateMachine.Machine.{transition}
use turtle_qts_execution.OrderManager.States.{
  OrderLifecycleState, OrderLifecycleTrigger, order_lifecycle_states, order_lifecycle_triggers,
}
use turtle_qts_execution.OrderManager.Notices.{status_to_trigger, ingest_target}
use turtle_qts_execution.OrderManager.Snapshot.{OrderSnapshot}
use turtle_qts_execution.OrderManager.Events.{Orders, find, event_source_tag}
use turtle_qts_execution.OrderManager.Effects.{orders}
use turtle_qts_execution.OrderManager.Running.{
  Act, act_text, event_type_for_action, Live, exec_trigger, pass_illegal, max_om_id_length,
}

module _ (n : Numerals) (om_id : Text) where
  -- `__init__`
  unfoldable pub init : EventStore → Outcome (Tracked Orders)
  init store =
      if is_blank om_id || ltb max_om_id_length (length om_id)
      then err value_error
      else rebuild (orders n om_id) store

  -- The `payload` of `_persist`.
  unfoldable pub event_payload :
      Act
      → Text
      → Option ℕ
      → Option OrderLifecycleTrigger
      → Option OrderLifecycleState
      → Option OrderLifecycleState
      → Fields
      → Fields
  event_payload action client_order_id seq trigger from_state to_state details =
      field (codes "source") (str event_source_tag) (
        field (codes "om_id") (str om_id) (
          field (codes "seq") (optional_int seq) (
            field (codes "action") (str (act_text action)) (
              field (codes "client_order_id") (str client_order_id) (
                field (codes "trigger") (optional_member order_lifecycle_triggers trigger) (
                  field (codes "from_state") (optional_member order_lifecycle_states from_state) (
                    field (codes "to_state") (optional_member order_lifecycle_states to_state)
                      (field (codes "details") (obj details) end))))))))

  -- `digest` gives the first 40 hexadecimal digits of the SHA-256 of a text.
  module _ (digest : Text → Text) (p : Platform) (disk : EventStore → Disk)
      (now : EventStore → Text) where
    -- `_apply_event(_persist(...))`
    unfoldable pub record_action :
        Act
        → Text
        → Option ℕ
        → Option OrderLifecycleTrigger
        → Option OrderLifecycleState
        → Option OrderLifecycleState
        → Fields
        → Text
        → Action (Tracked Orders) (Option OrderSnapshot)
    record_action action client_order_id seq trigger from_state to_state details key =
        persist_and_apply (orders n om_id) p disk now (event_type_for_action action to_state)
          (event_payload action client_order_id seq trigger from_state to_state details) key

    -- The same without a number, for a step of the lifecycle.
    unfoldable pub record_step :
        Act
        → Text
        → OrderLifecycleTrigger
        → OrderLifecycleState
        → OrderLifecycleState
        → Fields
        → Text
        → Action (Tracked Orders) (Option OrderSnapshot)
    record_step action client_order_id trigger from_state to_state details key =
        record_action action client_order_id none (some trigger) (some from_state) (some to_state)
          details key

    -- The state machine's event is appended to the store of the orders.
    unfoldable pub transition_shared : Trigger → Text → Live (Unit {0})
    transition_shared trigger client_order_id t (s, store) =
        let (r, (execution_sm, store')) =
          transition p (disk store) (now store) trigger
            (digest (client_order_id ++ (codes ":" ++ trigger_value trigger)))
            (field (codes "client_order_id") (str client_order_id) end) (t.execution_sm, store) in
        ((pass_illegal r, (s, store')), record t { execution_sm = execution_sm })

    -- `_drive_execution_sm`
    unfoldable pub drive_execution_sm :
        Text
        → Option OrderLifecycleTrigger
        → OrderLifecycleState
        → Option OrderSnapshot
        → Live (Unit {0})
    drive_execution_sm client_order_id trigger from_state snapshot =
        elim (exec_trigger trigger from_state snapshot) [
          | err x ↦ lasting (raise x)
          | ok none ↦ lasting (return tt)
          | ok (some exec) ↦ transition_shared exec client_order_id
        ]

    -- The rest of a method, on the order that it is called for.
    abbrev pub of_order :
        Text → (OrderSnapshot → Live (Option OrderSnapshot)) → Live (Option OrderSnapshot)
    of_order client_order_id f t w = elim (find client_order_id w.0.core) [
      | none ↦ lasting (raise not_found) t w
      | some existing ↦ f existing t w
    ]

    -- `_snapshots[client_order_id]`
    abbrev pub tracked_order :
        Text → (OrderSnapshot → Live (Option OrderSnapshot)) → Live (Option OrderSnapshot)
    tracked_order client_order_id f t w = elim (find client_order_id w.0.core) [
      | none ↦ lasting (raise key_error) t w
      | some existing ↦ f existing t w
    ]

    -- A step of the lifecycle that also drives the state machine.
    unfoldable pub step_and_drive :
        Act
        → Text
        → OrderLifecycleTrigger
        → OrderLifecycleState
        → OrderLifecycleState
        → Fields
        → Text
        → Live (Option OrderSnapshot)
    step_and_drive action client_order_id trigger current to_state details key =
        lasting (record_step action client_order_id trigger current to_state details key)
        >=> (λ snapshot.
            drive_execution_sm client_order_id (some trigger) current snapshot
            >=> (λ _. lasting (return snapshot)))

    -- The step that a status report makes; none is an inert or a stale one.
    unfoldable pub ingest_step :
        Text
        → Option OrderLifecycleTrigger
        → Option Text
        → OrderSnapshot
        → Option OrderLifecycleState
        → Live (Option OrderSnapshot)
    ingest_step client_order_id (some trigger) exchange_order_id existing (some to_state) =
        step_and_drive Act.status_update client_order_id trigger existing.lifecycle_state to_state
          (field (codes "exchange_order_id") (optional_text exchange_order_id)
            (field (codes "reject_reason") null end))
          (client_order_id
            ++ (codes ":status:"
                ++ (order_lifecycle_triggers.value trigger
                    ++ (codes ":" ++ order_lifecycle_states.value existing.lifecycle_state))))
    ingest_step client_order_id _ exchange_order_id existing _ = lasting (return (some existing))

    -- `_ingest_status`
    unfoldable pub ingest_status : Text → OrderStatus → Option Text → Live (Option OrderSnapshot)
    ingest_status client_order_id status exchange_order_id =
        tracked_order client_order_id (λ existing.
          elim (ingest_target status existing.lifecycle_state) [
            | err x ↦ lasting (raise x)
            | ok target ↦
                ingest_step client_order_id (status_to_trigger status) exchange_order_id existing
                  target
          ])
