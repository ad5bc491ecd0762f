-- ===== src/Tests/Orders.antt =====
-- The order manager started on a store that has one event, and a whole call of it with an exchange that answers.
use turtle_qts_execution.Base.{
  ◌≡◌, refl, true, false, none, some, codes, str, bool, end, field, is_ok, ok-of, dec, numeral,
  is_blank, lt_dec, ◌*ℤ◌, as_text, as_fields, as_fields_or_empty, as_decimal, as_optional_decimal,
  optional_numeral, show, of_value,
}
use turtle_qts_execution.EventStore.Types.{event_types}
use turtle_qts_execution.EventStore.Codec.{encode_record, frame, header, pack_be}
use turtle_qts_execution.EventStore.Platform.{write_full}
use turtle_qts_execution.EventStore.Store.{
  EventStore, replay, new_event, append, append_new, envelope_to_event, envelope,
  validate_new_event, get_by_idempotency_key, write_record, finish_write, roll_back, record_event,
  scan_forbidden,
}
use turtle_qts_execution.EventSourcing.{
  replay_own, rebuild, apply, persist, persist_and_apply, ◌>>=◌,
}
use turtle_qts_execution.EventSourcing.Tracked.{tracked, apply_tracked}
use turtle_qts_execution.EventSourcing.Live.{◌>=>◌}
use turtle_qts_execution.EventSourcing.Lifecycles.{
  advance, optional_int, optional_member, optional_text, as_member, recorded_target, leads_to,
}
use turtle_qts_execution.ExchangeAdapter.Models.{
  make_symbol, parse_side, parse_order_type, parse_time_in_force, make_order_request, OrderStatus,
}
use turtle_qts_execution.OrderManager.Running as Order
use turtle_qts_execution.OrderManager.Status as Status
use turtle_qts_execution.OrderManager.Manager as OrderManager
use turtle_qts_execution.OrderManager.Calls as Calls
use turtle_qts_execution.OrderManager.Events as OrderEvents
use turtle_qts_execution.OrderManager.Effects as OrderEffects
use turtle_qts_execution.OrderManager.States.{order_lifecycle_states, order_lifecycle_triggers}
use turtle_qts_execution.OrderManager.Transitions.{
  next_state as next_order_state, edges as order_edges,
}
use turtle_qts_execution.OrderManager.Notices.{ingest_target, status_to_trigger}
use turtle_qts_execution.ExecutionStateMachine.States.{states, triggers, trigger_value}
use turtle_qts_execution.ExecutionStateMachine.Transitions.{next_state, edges, trigger_event_type}
use turtle_qts_execution.ExecutionStateMachine.Machine.{
  transition, namespaced_key, transition_locked, finish_transition, transition_payload,
  result_from_event, parse_state, parse_trigger,
}
use turtle_qts_execution.OrderManager.Lifecycle.{IsOrderly}
use turtle_qts_execution.OrderManager.Orders.{init-IsOrderly, execute-IsOrderly}
use turtle_qts_execution.Tests.{platform, disk, clock}
use turtle_qts_execution.Tests.Started.{stored}
use turtle_qts_execution.Tests.Managers.{
  numbers, pending, pending-IsSynced, silent, machine, placing,
}

abbrev submitted : EventStore
submitted = stored (
    Status.event_payload numbers (codes "om") Order.Act.submit (codes "om:om:1:place") (some 1) none
      none none
      (field (codes "symbol") (str (codes "BTC")) (
        field (codes "side") (str (codes "BUY")) (
          field (codes "order_type") (str (codes "MARKET")) (
            field (codes "quantity") (numeral numbers (dec 2)) (
              field (codes "time_in_force") (str (codes "GTC"))
                (field (codes "reduce_only") (bool false) end)))))))

submitted-starts : is_ok (Status.init numbers (codes "om") submitted) ≡ true
unfolding Status.init rebuild replay replay_own is_blank tracked apply_tracked
    OrderEvents.is_own_event Status.event_payload OrderEffects.effect OrderEffects.apply_action
    OrderEffects.store_created OrderEvents.new_snapshot OrderEvents.order_created
    OrderEvents.as_bool advance optional_int optional_member as_text as_fields as_fields_or_empty
    as_decimal as_optional_decimal make_symbol parse_side parse_order_type parse_time_in_force
submitted-starts = refl

init-IsOrderly_example : IsOrderly (ok-of submitted-starts).0.core
init-IsOrderly_example =
    init-IsOrderly numbers (codes "om") submitted (ok-of submitted-starts).0
      (ok-of submitted-starts).1

-- An exchange that acknowledges every order.
abbrev acknowledging : Order.Adapter
acknowledging = record silent {
  place_order = λ r _. Order.Reply.replied (record {
    client_order_id = r.client_order_id;
    exchange_order_id = some (codes "x-1");
    symbol = r.symbol;
    side = r.side;
    order_type = r.order_type;
    quantity = r.quantity;
    filled_quantity = dec 0;
    limit_price = r.limit_price;
    status = OrderStatus.acknowledged;
    time_in_force = r.time_in_force;
    reduce_only = r.reduce_only;
    created_at_utc = clock;
    updated_at_utc = clock;
  });
}

placing-returns :
    is_ok
      (Calls.execute numbers
        (codes "om")
        (λ t. t)
        platform
        (λ _. disk)
        (λ _. clock)
        acknowledging
        placing
        machine
        pending).0.0
    ≡ true
unfolding Calls.execute OrderManager.place_order OrderManager.submit_order OrderManager.send_order
    OrderManager.placed OrderManager.placed_status OrderManager.submit_details Order.next_id
    Order.make_id Order.event_type_for_action Order.event_type_for_status Order.exec_trigger
    Order.pass_illegal Status.record_action Status.record_step Status.transition_shared
    Status.drive_execution_sm Status.step_and_drive Status.ingest_step Status.ingest_status
    Status.event_payload ◌>=>◌ persist_and_apply persist apply ◌>>=◌ append append_new
    validate_new_event get_by_idempotency_key envelope envelope_to_event new_event record_event
    write_record finish_write roll_back scan_forbidden encode_record write_full frame header pack_be
    event_types is_blank show of_value OrderEvents.namespaced_key tracked apply_tracked
    OrderEffects.effect OrderEffects.apply_action OrderEffects.store_created
    OrderEffects.apply_update OrderEffects.apply_transition OrderEffects.apply_details
    OrderEffects.store_updated OrderEvents.new_snapshot OrderEvents.order_created
    OrderEvents.snapshot_stored OrderEvents.status_updated OrderEvents.text_or OrderEvents.as_bool
    advance optional_int optional_member optional_text as_member recorded_target leads_to as_text
    as_fields as_fields_or_empty as_decimal as_optional_decimal optional_numeral make_symbol
    parse_side parse_order_type parse_time_in_force make_order_request lt_dec ◌*ℤ◌ ingest_target
    status_to_trigger next_order_state order_edges order_lifecycle_states order_lifecycle_triggers
    transition transition_locked finish_transition transition_payload namespaced_key next_state
    edges states triggers trigger_value trigger_event_type result_from_event parse_state
    parse_trigger
placing-returns = refl

execute-IsOrderly_example :
    IsOrderly
      (Calls.execute numbers
        (codes "om")
        (λ t. t)
        platform
        (λ _. disk)
        (λ _. clock)
        acknowledging
        placing
        machine
        pending).0.1.0.core
execute-IsOrderly_example =
    execute-IsOrderly numbers (codes "om") (λ t. t) platform (λ _. disk) (λ _. clock) acknowledging
      placing machine pending (ok-of placing-returns).0 pending-IsSynced (ok-of placing-returns).1
