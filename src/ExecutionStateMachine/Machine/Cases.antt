-- ===== src/ExecutionStateMachine/Machine/Cases.antt =====
-- The ways in which a call of `transition` can end.
use turtle_qts_execution.Base.{
  ◌≡◌, refl, true, false, inl, inr, none, some, Text, Fields, Outcome, err, Error, arith,
  Bool-cases, Option-cases, is_blank, ltb, length, value_error, illegal_transition, ◌||◌,
}
use turtle_qts_execution.EventStore.Types.{Event}
use turtle_qts_execution.EventStore.Platform.{Platform, Disk, File}
use turtle_qts_execution.EventStore.Store.{
  EventStore, new_event, record_event, get_by_idempotency_key,
}
use turtle_qts_execution.EventStore.Store.Append.{Kept, same-Kept, Appended, append-Appended}
use turtle_qts_execution.ExecutionStateMachine.States.{State, Trigger}
use turtle_qts_execution.ExecutionStateMachine.Transitions.{next_state, trigger_event_type}
use turtle_qts_execution.ExecutionStateMachine.Machine.{
  ExecutionStateMachine, TransitionResult, Engine, is_own_event, transition, transition_locked,
  finish_transition, transition_payload, namespaced_key, result_from_event,
}

-- The event that a legal transition records.
unfoldable pub transition_event : Text → Trigger → Text → Fields → Engine → State → Event
unfolding new_event
transition_event now t request_id context (m, store) to =
    new_event store now (trigger_event_type t)
      (transition_payload m.machine_id t m.current_state to context)
      (some (namespaced_key m.machine_id request_id))

module _ (disk : Disk) (now : Text) (t : Trigger) (request_id : Text) (context : Fields) where
  pub data Transitioned (m : ExecutionStateMachine) (store : EventStore)
      (r : Outcome TransitionResult × Engine) : Type 0 where
    -- It raises: the machine is as it was, and so is the store but for its file.
    refused :
        (x : Error) (f : File)
        → r ≡ (err x, (m, record store { file = f }))
        → Kept disk store f
        → Transitioned m store r
    -- The request is known: the outcome of its event, and nothing changes.
    repeated :
        (e : Event)
        → get_by_idempotency_key store (namespaced_key m.machine_id request_id) ≡ some e
        → is_own_event e m.machine_id ≡ true
        → r ≡ (result_from_event e request_id true, (m, store))
        → Transitioned m store r
    -- The table allows the transition, and its event is recorded.
    moved :
        (to : State) (f : File)
        → next_state m.current_state t ≡ some to
        → get_by_idempotency_key store (namespaced_key m.machine_id request_id) ≡ none
        → r ≡ (
          result_from_event
              (transition_event now t request_id context (m, store) to)
              request_id
              false,
          (
            record m { current_state = to },
            record_event
                (record store { file = f })
                (transition_event now t request_id context (m, store) to),
          ),
        )
        → Transitioned m store r

  finish_transition-Transitioned :
      (p : Platform) (m : ExecutionStateMachine) (store : EventStore) (to : State)
      (r : Outcome Event × EventStore)
      → next_state m.current_state t ≡ some to
      → get_by_idempotency_key store (namespaced_key m.machine_id request_id) ≡ none
      → Appended p disk store (transition_event now t request_id context (m, store) to) r
      → Transitioned m store (finish_transition m to request_id r)
  unfolding finish_transition transition_event get_by_idempotency_key
  finish_transition-Transitioned p m store to r legal new (Appended.refused x f h back) =
      rw h (Transitioned.refused x f refl back)
  finish_transition-Transitioned p m store to r legal new (Appended.duplicate k i old hk hi ho h) =
      absurd (ground arith)
  finish_transition-Transitioned p m store to r legal new (Appended.recorded f h _ _ _) =
      rw h (Transitioned.moved to f legal new refl)

  pub transition-Transitioned :
      (p : Platform) (m : ExecutionStateMachine) (store : EventStore)
      → Transitioned m store (transition p disk now t request_id context (m, store))
  unfolding transition transition_locked transition_event
  transition-Transitioned p m store =
      elim (Bool-cases (is_blank request_id || ltb 60 (length request_id))) [
        | inl bad ↦ rw bad (Transitioned.refused value_error store.file refl (same-Kept disk store))
        | inr good ↦
            rw good
              (elim (Option-cases
                (get_by_idempotency_key store (namespaced_key m.machine_id request_id))) [
                  | inr (e, known) ↦ elim (Bool-cases (is_own_event e m.machine_id)) [
                    | inl own ↦
                        rw (known, own, transition_locked) (Transitioned.repeated e known own refl)
                    | inr foreign ↦
                        rw (known, foreign, transition_locked)
                          (Transitioned.refused value_error store.file refl (same-Kept disk store))
                  ]
                  | inl new ↦ elim (Option-cases (next_state m.current_state t)) [
                    | inl illegal ↦
                        rw (new, illegal, transition_locked)
                          (Transitioned.refused illegal_transition store.file refl
                            (same-Kept disk store))
                    | inr (to, legal) ↦
                        rw (new, legal, transition_locked)
                          (finish_transition-Transitioned p m store to _ legal new (
                            append-Appended p disk now (trigger_event_type t)
                              (transition_payload m.machine_id t m.current_state to context)
                              (some (namespaced_key m.machine_id request_id)) store))
                  ]
                ])
      ]
