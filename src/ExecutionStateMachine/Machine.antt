-- ===== src/ExecutionStateMachine/Machine.antt =====
-- execution_state_machine/machine.py: `class ExecutionStateMachine` over the shared event store. A call of
-- `transition` is one critical section under the machine's lock. The state of a call is the machine and
-- the store; the clock and the disk are arguments.
pub mod Events
pub mod Cases
pub mod Recovery
pub mod Retry
pub mod Keys
pub mod Sharing
use turtle_qts_execution.Base.{
  ℕ, Bool, true, false, not, ◌&&◌, ◌||◌, Option, none, some, List, [], ◌∷◌, ◌++◌, Text, codes,
  text_eq, is_blank, show, Json, obj, str, Fields, end, field, get, holds, Outcome, ok, err, Error,
  value_error, illegal_transition, replay_integrity, bind, length, ltb, if◌then◌else◌, is_some,
  of_value, enum_eq,
}
use turtle_qts_execution.EventStore.Types.{Event}
use turtle_qts_execution.EventStore.Platform.{Platform, Disk}
use turtle_qts_execution.EventStore.Store.{EventStore, append, get_by_idempotency_key, replay}
use turtle_qts_execution.ExecutionStateMachine.States.{State, Trigger, states, triggers}
use turtle_qts_execution.ExecutionStateMachine.Transitions.{
  next_state, is_legal, legal_triggers, trigger_event_type,
}

abbrev pub event_source_tag : Text
event_source_tag = codes "execution_state_machine"

abbrev pub max_machine_id_length : ℕ
max_machine_id_length = 60

abbrev pub max_request_id_length : ℕ
max_request_id_length = 60

-- `_namespaced_key`
unfoldable pub namespaced_key : Text → Text → Text
namespaced_key machine_id request_id =
    event_source_tag
    ++ (codes ":"
        ++ (show (length machine_id)
            ++ (codes ":"
                ++ (machine_id
                    ++ (codes ":" ++ (show (length request_id) ++ (codes ":" ++ request_id)))))))

-- `_is_own_event`
unfoldable pub is_own_event : Event → Text → Bool
is_own_event e machine_id =
    holds (get (codes "source") e.payload) event_source_tag
    && holds (get (codes "machine_id") e.payload) machine_id

-- `_parse_state`; a value that is no string is no known State either.
unfoldable pub parse_state : Option Json → Outcome State
parse_state (some (str raw)) = elim (of_value states raw) [
  | none ↦ err replay_integrity
  | some s ↦ ok s
]
parse_state _ = err replay_integrity

-- `_parse_trigger`
unfoldable pub parse_trigger : Option Json → Outcome Trigger
parse_trigger (some (str raw)) = elim (of_value triggers raw) [
  | none ↦ err replay_integrity
  | some t ↦ ok t
]
parse_trigger _ = err replay_integrity

-- `is_legal(from_state, trigger) and next_state(from_state, trigger) == to_state`
unfoldable pub leads_to : State → Trigger → State → Bool
leads_to from_state trigger to_state = elim (next_state from_state trigger) [
  | none ↦ false
  | some s ↦ enum_eq states s to_state
]

-- One round of the constructor's loop, on the state rebuilt so far.
unfoldable pub replay_event : Text → State → Event → Outcome State
unfolding is_own_event
replay_event machine_id current e =
    if not (is_own_event e machine_id)
    then ok current
    else bind (parse_trigger (get (codes "trigger") e.payload)) λ trigger.
      bind (parse_state (get (codes "from_state") e.payload)) λ from_state.
        bind (parse_state (get (codes "to_state") e.payload)) λ to_state.
          if not (enum_eq states from_state current)
          then err replay_integrity
          else if not (leads_to from_state trigger to_state)
          then err replay_integrity
          else ok to_state

unfoldable pub replay_events : Text → State → List Event → Outcome State
replay_events machine_id current [] = ok current
replay_events machine_id current (e ∷ es) =
    bind (replay_event machine_id current e) λ s. replay_events machine_id s es

pub record ExecutionStateMachine : Type 0 where
  pub machine_id : Text
  pub current_state : State

-- `__init__`
unfoldable pub init : EventStore → Text → Outcome ExecutionStateMachine
init store machine_id =
    if is_blank machine_id || ltb max_machine_id_length (length machine_id)
    then err value_error
    else bind (replay store 1) λ events.
      bind (replay_events machine_id State.initializing events)
        λ s. ok (record { machine_id = machine_id; current_state = s })

pub record TransitionResult : Type 0 where
  pub event_id : ℕ
  pub trigger : Trigger
  pub from_state : State
  pub to_state : State
  pub timestamp_utc : Text
  pub request_id : Text
  pub context : Json
  pub replayed : Bool

-- `event.payload.get("context", {})`
context_of : Option Json → Json
context_of none = obj end
context_of (some j) = j

-- `_result_from_event`
unfoldable pub result_from_event : Event → Text → Bool → Outcome TransitionResult
unfolding context_of
result_from_event e request_id replayed =
    bind (parse_trigger (get (codes "trigger") e.payload)) λ trigger.
      bind (parse_state (get (codes "from_state") e.payload)) λ from_state.
        bind (parse_state (get (codes "to_state") e.payload)) λ to_state. ok (record {
          event_id = e.event_id;
          trigger = trigger;
          from_state = from_state;
          to_state = to_state;
          timestamp_utc = e.timestamp_utc;
          request_id = request_id;
          context = context_of (get (codes "context") e.payload);
          replayed = replayed;
        })

-- The `payload` of a transition.
unfoldable pub transition_payload : Text → Trigger → State → State → Fields → Fields
transition_payload machine_id trigger from_state to_state context =
    field (codes "source") (str event_source_tag) (
      field (codes "machine_id") (str machine_id) (
        field (codes "trigger") (str (triggers.value trigger)) (
          field (codes "from_state") (str (states.value from_state)) (
            field (codes "to_state") (str (states.value to_state))
              (field (codes "context") (obj context) end)))))

abbrev pub Engine : Type 0
Engine = ExecutionStateMachine × EventStore

-- The end of `transition`: the state changes only when the event is recorded.
unfoldable pub finish_transition :
    ExecutionStateMachine
    → State
    → Text
    → Outcome Event × EventStore
    → Outcome TransitionResult × Engine
finish_transition m to_state request_id (err x, store) = (err x, (m, store))
finish_transition m to_state request_id (ok e, store) =
    (result_from_event e request_id false, (record m { current_state = to_state }, store))

-- The body under the lock.
unfoldable pub transition_locked :
    Platform → Disk → Text → Trigger → Text → Fields → Engine → Outcome TransitionResult × Engine
unfolding finish_transition
transition_locked p disk now trigger request_id context (m, store) =
    let key = namespaced_key m.machine_id request_id in
    elim (get_by_idempotency_key store key) [
      | some existing ↦
          if not (is_own_event existing m.machine_id)
          then (err value_error, (m, store))
          else (result_from_event existing request_id true, (m, store))
      | none ↦ elim (next_state m.current_state trigger) [
        | none ↦ (err illegal_transition, (m, store))
        | some to_state ↦ finish_transition m to_state request_id (
            append p disk now (trigger_event_type trigger)
              (transition_payload m.machine_id trigger m.current_state to_state context) (some key)
              store)
      ]
    ]

-- `transition`; an absent context is the empty one.
unfoldable pub transition :
    Platform → Disk → Text → Trigger → Text → Fields → Engine → Outcome TransitionResult × Engine
unfolding transition_locked
transition p disk now trigger request_id context s =
    if is_blank request_id || ltb max_request_id_length (length request_id)
    then (err value_error, s)
    else transition_locked p disk now trigger request_id context s
