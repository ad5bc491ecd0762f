-- ===== src/ExecutionStateMachine/Machine/Events.antt =====
-- The events that a machine writes, as the same machine reads them.
use turtle_qts_execution.Base.{
  ◌≡◌, refl, true, some, List, [], ◌∷◌, ◌++◌, Text, Fields, obj, ok, err, Outcome, bind,
  text_eq_refl, enum_eq_refl, str,
}
use turtle_qts_execution.EventStore.Types.{Event}
use turtle_qts_execution.ExecutionStateMachine.States.{
  State, Trigger, states, triggers, of_value-state, of_value-trigger,
}
use turtle_qts_execution.ExecutionStateMachine.Transitions.{next_state}
use turtle_qts_execution.ExecutionStateMachine.Machine.{
  is_own_event, parse_state, parse_trigger, leads_to, replay_event, replay_events,
  transition_payload, result_from_event,
}

pub parse_state-value : (s : State) → parse_state (some (str (states.value s))) ≡ ok s
unfolding parse_state
parse_state-value s = rw (of_value-state s, parse_state)

pub parse_trigger-value : (t : Trigger) → parse_trigger (some (str (triggers.value t))) ≡ ok t
unfolding parse_trigger
parse_trigger-value t = rw (of_value-trigger t, parse_trigger)

leads_to-next_state :
    (from : State) (t : Trigger) (to : State)
    → next_state from t ≡ some to
    → leads_to from t to ≡ true
unfolding leads_to
leads_to-next_state from t to h = rw (h, leads_to) (enum_eq_refl states to)

module _ (machine_id : Text) (t : Trigger) (from to : State) (context : Fields) (e : Event)
    (h : e.payload ≡ transition_payload machine_id t from to context) where
  pub is_own_event-transition_payload : is_own_event e machine_id ≡ true
  unfolding is_own_event transition_payload
  is_own_event-transition_payload = rw h (rw (text_eq_refl machine_id) refl)

  -- A recorded transition takes the replay from its first state to its last.
  pub replay_event-transition_payload :
      next_state from t ≡ some to → replay_event machine_id from e ≡ ok to
  unfolding replay_event transition_payload
  replay_event-transition_payload legal =
      rw
        (
          h,
          text_eq_refl machine_id,
          parse_trigger-value t,
          parse_state-value from,
          parse_state-value to,
        )
        (rw (enum_eq_refl states from, leads_to-next_state from t to legal))

  pub result_from_event-transition_payload :
      (request_id : Text) (replayed : _)
      → result_from_event e request_id replayed
        ≡ ok (record {
          event_id = e.event_id;
          trigger = t;
          from_state = from;
          to_state = to;
          timestamp_utc = e.timestamp_utc;
          request_id = request_id;
          context = obj context;
          replayed = replayed;
        })
  unfolding result_from_event transition_payload
  result_from_event-transition_payload request_id replayed =
      rw (h, parse_trigger-value t, parse_state-value from, parse_state-value to)

pub replay_events-append :
    (machine_id : Text) (s : State) (es : List Event) (e : Event)
    → replay_events machine_id s (es ++ e ∷ [])
      ≡ bind (replay_events machine_id s es) (λ s'. replay_event machine_id s' e)
unfolding replay_events
replay_events-append machine_id s [] e = last (replay_event machine_id s e)
  where
    last : (o : Outcome State) → bind o (λ s'. ok s') ≡ o
    last (ok a) = refl
    last (err x) = refl
replay_events-append machine_id s (x ∷ es) e =
    step (replay_event machine_id s x) (λ s'. replay_events-append machine_id s' es e)
  where
    rest : State → Outcome State
    rest s' = replay_event machine_id s' e

    step :
        (o : Outcome State)
        → ((s' : State)
            → replay_events machine_id s' (es ++ e ∷ [])
              ≡ bind (replay_events machine_id s' es) rest)
        → bind o (λ s'. replay_events machine_id s' (es ++ e ∷ []))
          ≡ bind (bind o (λ s'. replay_events machine_id s' es)) rest
    step (ok a) ih = ih a
    step (err x) ih = refl
