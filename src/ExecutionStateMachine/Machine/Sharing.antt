-- ===== src/ExecutionStateMachine/Machine/Sharing.antt =====
-- The execution state machine writes to the store of the managers: its events are foreign to them.
use turtle_qts_execution.Base.{
  ◌≡◌, ◌≢◌, refl, arith, false, some, Text, Fields, Outcome, ok, err, option_branches, if_branches,
  is_blank, ltb, length, not, ◌||◌,
}
use turtle_qts_execution.EventStore.Types.{Event}
use turtle_qts_execution.EventStore.Platform.{Platform, Disk}
use turtle_qts_execution.EventStore.Store.{EventStore, append, get_by_idempotency_key, new_event}
use turtle_qts_execution.EventStore.Store.Append.{append-Appended}
use turtle_qts_execution.EventSourcing.{Manager}
use turtle_qts_execution.EventSourcing.Soundness.{IsSynced}
use turtle_qts_execution.EventSourcing.Sharing.{foreign-IsSynced}
use turtle_qts_execution.ExecutionStateMachine.States.{State, Trigger}
use turtle_qts_execution.ExecutionStateMachine.Transitions.{next_state, trigger_event_type}
use turtle_qts_execution.ExecutionStateMachine.Machine.{
  ExecutionStateMachine, TransitionResult, Engine, namespaced_key, is_own_event, transition_payload,
  finish_transition, transition_locked, transition, max_request_id_length,
}

module _ {S R : Type 0} (m : Manager S R)
    (other : (e : Event) (machine_id : Text) (trigger : Trigger) (from_state to_state : State)
        (context : Fields)
      → e.payload ≡ transition_payload machine_id trigger from_state to_state context
      → m.is_own e ≡ false)
    (other_key : (machine_id request_id key : Text)
      → namespaced_key machine_id request_id ≢ m.namespaced_key key)
    (p : Platform) (disk : Disk) (now : Text) (s : S) where
  abbrev Agrees : Outcome TransitionResult × Engine → Type 0
  Agrees r = IsSynced m (s, r.1.1)

  finish_transition-Agrees :
      (machine : ExecutionStateMachine) (to_state : State) (request_id : Text)
      (r : Outcome Event × EventStore)
      → IsSynced m (s, r.1)
      → Agrees (finish_transition machine to_state request_id r)
  unfolding finish_transition
  finish_transition-Agrees machine to_state request_id (err x, store) h = h
  finish_transition-Agrees machine to_state request_id (ok e, store) h = h

  outcome-Agrees :
      (machine : ExecutionStateMachine) (store : EventStore) (trigger : Trigger) (to_state : State)
      (request_id : Text) (context : Fields)
      → IsSynced m (s, store)
      → IsSynced m (
        s,
        (append p disk now
            (trigger_event_type trigger)
            (transition_payload machine.machine_id trigger machine.current_state to_state context)
            (some (namespaced_key machine.machine_id request_id))
            store).1,
      )
  unfolding new_event
  outcome-Agrees machine store trigger to_state request_id context h =
      let payload =
        transition_payload machine.machine_id trigger machine.current_state to_state context in
      let key = some (namespaced_key machine.machine_id request_id) in
      foreign-IsSynced m p s store (new_event store now (trigger_event_type trigger) payload key) _
        (append-Appended p disk now (trigger_event_type trigger) payload key store) h
        (record {
          other = other _ machine.machine_id trigger machine.current_state to_state context refl;
          other_key = λ k eq. other_key machine.machine_id request_id k (ground (arith, eq));
        })
        refl

  -- A transition leaves every manager in agreement with the store that it shares with the machine.
  pub transition-Agrees :
      (machine : ExecutionStateMachine) (store : EventStore) (trigger : Trigger) (request_id : Text)
      (context : Fields)
      → IsSynced m (s, store)
      → Agrees (transition p disk now trigger request_id context (machine, store))
  unfolding transition transition_locked
  transition-Agrees machine store trigger request_id context h =
      if_branches Agrees (is_blank request_id || ltb max_request_id_length (length request_id)) h (
        option_branches Agrees
          (get_by_idempotency_key store (namespaced_key machine.machine_id request_id))
          (option_branches Agrees (next_state machine.current_state trigger) h (λ to_state.
            finish_transition-Agrees machine to_state request_id _
              (outcome-Agrees machine store trigger to_state request_id context h)))
          (λ existing. if_branches Agrees (not (is_own_event existing machine.machine_id)) h h))
