-- ===== src/Tests/Machines.antt =====
-- Concrete runs of the state machines.
use turtle_qts_execution.Base.{
  ◌≡◌, refl, true, false, none, some, codes, obj, end, ok, Run, stay, step, visits, arith, is_blank,
  show, of_value,
}
use turtle_qts_execution.EventStore.Types.{EventType, event_types}
use turtle_qts_execution.EventStore.Codec.{encode_record, frame, header, pack_be}
use turtle_qts_execution.EventStore.Platform.{write_full}
use turtle_qts_execution.EventStore.Store.{
  new_event, append, replay, append_new, envelope_to_event, envelope, validate_new_event,
  get_by_idempotency_key, write_record, record_event, scan_forbidden,
}
use turtle_qts_execution.Tests.{platform, disk, clock, empty_store, key}
use turtle_qts_execution.ExecutionStateMachine.States.{State, Trigger, states, triggers}
use turtle_qts_execution.ExecutionStateMachine.Transitions.{next_state, edges, trigger_event_type}
use turtle_qts_execution.ExecutionStateMachine.Transitions.Safety.{
  ended, reconciles, Run-emergency_kill, Run-resume, next_state-emergency_kill,
}
use turtle_qts_execution.ExecutionStateMachine.Machine.{
  Engine, TransitionResult, transition, is_own_event, namespaced_key, init, replay_events,
  transition_locked, finish_transition, transition_payload, result_from_event, parse_state,
  parse_trigger,
}
use turtle_qts_execution.ExecutionStateMachine.Machine.Recovery.{
  IsSynced, transition-IsSynced, append-IsSynced,
}
use turtle_qts_execution.ExecutionStateMachine.Machine.Retry.{transition_retry}
use turtle_qts_execution.ExecutionStateMachine.Machine.Keys.{namespaced_key-injective}
use turtle_qts_execution.ExchangeAdapter.Models.{OrderStatus}
use turtle_qts_execution.OrderManager.States.{
  OrderLifecycleState, OrderLifecycleTrigger, order_lifecycle_states, order_lifecycle_triggers,
}
use turtle_qts_execution.OrderManager.Transitions.{
  next_state as next_order_state, edges as order_edges, is_terminal, legal_triggers,
}
use turtle_qts_execution.OrderManager.Notices.{ingest_target, status_to_trigger}
use turtle_qts_execution.OrderManager.Notices.Redelivery.{
  ingest_target_redelivered, ingest_target_terminal,
}
use turtle_qts_execution.PositionManager.States.{
  PositionLifecycleState, PositionLifecycleTrigger, position_lifecycle_states,
  position_lifecycle_triggers,
}
use turtle_qts_execution.PositionManager.Transitions.{
  next_state as next_position_state, edges as position_edges,
}
use turtle_qts_execution.PositionManager.Notices.{try_transition}
use turtle_qts_execution.PositionManager.Notices.Redelivery.{try_transition_redelivered}

abbrev engine : Engine
engine = (record { machine_id = codes "default"; current_state = State.initializing }, empty_store)

engine-IsSynced : IsSynced engine
engine-IsSynced = record {
  rebuilt = unfold init replay replay_events is_blank in refl;
  ids_start = omega arith;
}

transition-IsSynced_example :
    IsSynced (transition platform disk clock Trigger.started (codes "r-1") end engine).1
transition-IsSynced_example =
    transition-IsSynced platform disk clock Trigger.started (codes "r-1") end engine engine-IsSynced

append-IsSynced_example :
    IsSynced
      (engine.0, (append platform disk clock EventType.order_submitted end key empty_store).1)
append-IsSynced_example =
    append-IsSynced platform disk clock EventType.order_submitted end key engine.0 empty_store
      (unfold new_event is_own_event in refl) engine-IsSynced

abbrev started_result : TransitionResult
started_result = record {
  event_id = 1;
  trigger = Trigger.started;
  from_state = State.initializing;
  to_state = State.reconciling;
  timestamp_utc = clock;
  request_id = codes "r-1";
  context = obj end;
  replayed = false;
}

started-lem : transition platform disk clock Trigger.started (codes "r-1") end engine ≡ (
  ok started_result,
  (transition platform disk clock Trigger.started (codes "r-1") end engine).1,
)
unfolding transition transition_locked finish_transition append append_new validate_new_event
    get_by_idempotency_key envelope envelope_to_event new_event record_event write_record next_state
    edges states triggers result_from_event transition_payload parse_state parse_trigger
    namespaced_key trigger_event_type is_blank show scan_forbidden encode_record write_full frame
    header pack_be of_value event_types
started-lem = refl

transition_retry_example :
    transition platform disk
      (codes "later")
      Trigger.shutdown
      (codes "r-1")
      end
      (transition platform disk clock Trigger.started (codes "r-1") end engine).1
    ≡ (
      ok (record started_result { replayed = true }),
      (transition platform disk clock Trigger.started (codes "r-1") end engine).1,
    )
transition_retry_example =
    transition_retry platform disk disk clock (codes "later") Trigger.started Trigger.shutdown
      (codes "r-1") end end engine
      (transition platform disk clock Trigger.started (codes "r-1") end engine).1 started_result
      started-lem

namespaced_key-injective_example : (codes "a:b" ≡ codes "a:b") × (codes "c" ≡ codes "c")
namespaced_key-injective_example =
    namespaced_key-injective (codes "a:b") (codes "a:b") (codes "c") (codes "c") refl

emergency_run : Run next_state State.emergency_kill State.stopped
unfolding next_state edges states triggers
emergency_run = step Trigger.shutdown refl (stay State.stopped)

Run-emergency_kill_example : ended State.stopped ≡ true
unfolding states
Run-emergency_kill_example = Run-emergency_kill emergency_run refl

resume_step : next_state State.soft_kill Trigger.resume ≡ some State.reconciling
unfolding next_state edges states triggers
resume_step = refl

reconciled_step : next_state State.reconciling Trigger.reconciled ≡ some State.ready
unfolding next_state edges states triggers
reconciled_step = refl

abbrev resume_run : Run next_state State.soft_kill State.ready
resume_run =
    step Trigger.resume resume_step (step Trigger.reconciled reconciled_step (stay State.ready))

Run-resume_example : visits reconciles resume_run ≡ true
unfolding states
Run-resume_example = Run-resume resume_run refl refl

next_state-emergency_kill_example :
    next_state State.ready Trigger.emergency_kill_triggered ≡ some State.emergency_kill
unfolding states
next_state-emergency_kill_example = next_state-emergency_kill State.ready

ingest_target_redelivered_example :
    ingest_target OrderStatus.acknowledged OrderLifecycleState.filled
    ≡ ok (next_order_state OrderLifecycleState.filled OrderLifecycleTrigger.acknowledged)
unfolding status_to_trigger next_order_state order_edges order_lifecycle_states
    order_lifecycle_triggers
ingest_target_redelivered_example =
    ingest_target_redelivered OrderStatus.acknowledged OrderLifecycleState.submitted
      OrderLifecycleState.acknowledged OrderLifecycleState.filled OrderLifecycleTrigger.acknowledged
      refl refl (step OrderLifecycleTrigger.full_fill refl (stay OrderLifecycleState.filled))

ingest_target_terminal_example :
    ((v : OrderLifecycleState)
      → Run next_order_state OrderLifecycleState.filled v
      → v ≡ OrderLifecycleState.filled)
    × (ingest_target OrderStatus.rejected OrderLifecycleState.filled ≡ ok none)
ingest_target_terminal_example =
    ingest_target_terminal OrderStatus.rejected OrderLifecycleState.filled (
      unfold is_terminal legal_triggers order_edges order_lifecycle_states
        order_lifecycle_triggers in
      refl)

try_transition_redelivered_example :
    try_transition PositionLifecycleTrigger.t1 PositionLifecycleState.breakeven_active
    ≡ ok (next_position_state PositionLifecycleState.breakeven_active PositionLifecycleTrigger.t1)
unfolding next_position_state position_edges position_lifecycle_states position_lifecycle_triggers
try_transition_redelivered_example =
    try_transition_redelivered PositionLifecycleState.fully_filled PositionLifecycleState.t1_reached
      PositionLifecycleState.breakeven_active PositionLifecycleTrigger.t1 refl
      (step PositionLifecycleTrigger.breakeven refl (stay PositionLifecycleState.breakeven_active))
