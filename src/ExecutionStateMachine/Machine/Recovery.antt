-- ===== src/ExecutionStateMachine/Machine/Recovery.antt =====
-- Crash recovery: a machine that is built anew from the store is the machine that wrote to it.
use turtle_qts_execution.Base.{
  ◌≤◌, ◌≡◌, refl, false, Option, List, [], ◌∷◌, ◌++◌, Text, Fields, Outcome, ok, arith, leb, keep,
}
use turtle_qts_execution.EventStore.Types.{Event, EventType}
use turtle_qts_execution.EventStore.Platform.{Platform, Disk}
use turtle_qts_execution.EventStore.Store.{EventStore, append, new_event, record_event, replay}
use turtle_qts_execution.EventStore.Store.Append.{Appended, append-Appended}
use turtle_qts_execution.ExecutionStateMachine.States.{State, Trigger}
use turtle_qts_execution.ExecutionStateMachine.Machine.{
  ExecutionStateMachine, TransitionResult, Engine, init, replay_event, is_own_event, transition,
}
use turtle_qts_execution.ExecutionStateMachine.Machine.Cases.{
  Transitioned, transition-Transitioned, transition_event,
}
use turtle_qts_execution.ExecutionStateMachine.Machine.Events.{
  replay_events-append, replay_event-transition_payload,
}

-- The constructor, on this store, gives this machine.
pub record IsSynced (s : Engine) : Type 0 where
  pub rebuilt : init s.1 s.0.machine_id ≡ ok s.0
  pub ids_start : 1 ≤ s.1.next_event_id

keep-append :
    (es : List Event) (e : Event)
    → 1 ≤ e.event_id
    → keep (λ x. leb 1 x.event_id) (es ++ e ∷ []) ≡ keep (λ x. leb 1 x.event_id) es ++ e ∷ []
keep-append [] e h = ground arith
keep-append (x ∷ es) e h = ground (arith, keep-append es e h)

-- One more event, that takes the replay on from the machine's state to another.
init-record_event :
    (store : EventStore) (m : ExecutionStateMachine) (e : Event) (next : State)
    → IsSynced (m, store)
    → 1 ≤ e.event_id
    → replay_event m.machine_id m.current_state e ≡ ok next
    → IsSynced (record m { current_state = next }, record_event store e)
unfolding init replay record_event
init-record_event store m e next s h r = record {
  rebuilt = ground (
    arith,
    s.rebuilt,
    keep-append store.events e h,
    replay_events-append m.machine_id State.initializing (keep (λ x. leb 1 x.event_id) store.events)
        e,
  );
  ids_start = omega arith;
}

-- An append that gives the machine nothing new to replay: it raised, found its key, or was for another
-- owner.
append_other :
    (p : Platform) (m : ExecutionStateMachine) (store : EventStore) (e : Event)
    (r : Outcome Event × EventStore)
    → e.event_id ≡ store.next_event_id
    → {disk : Disk} → Appended p disk store e r
    → is_own_event e m.machine_id ≡ false
    → IsSynced (m, store)
    → IsSynced (m, r.1)
unfolding init replay replay_event
append_other p m store e r id (Appended.refused x f h _) own s =
    rw h (record { rebuilt = s.rebuilt; ids_start = s.ids_start })
append_other p m store e r id (Appended.duplicate k i old _ _ _ h) own s = rw h s
append_other p m store e r id (Appended.recorded f h _ _ _) own s = rw h (
    init-record_event (record store { file = f }) m e m.current_state
      (record { rebuilt = s.rebuilt; ids_start = s.ids_start }) (rw id s.ids_start)
      (rw (own, replay_event)))

Transitioned-IsSynced :
    (disk : Disk) (now : Text) (t : Trigger) (request_id : Text) (context : Fields)
    (m : ExecutionStateMachine) (store : EventStore) (r : Outcome TransitionResult × Engine)
    → Transitioned disk now t request_id context m store r
    → IsSynced (m, store)
    → IsSynced r.1
unfolding init replay
Transitioned-IsSynced disk now t request_id context m store r (Transitioned.refused x f h _) s =
    rw h (record { rebuilt = s.rebuilt; ids_start = s.ids_start })
Transitioned-IsSynced disk now t request_id context m store r (Transitioned.repeated e _ _ h) s =
    rw h s
Transitioned-IsSynced disk now t request_id context m store r (Transitioned.moved to f legal _ h)
      s =
    let e = transition_event now t request_id context (m, store) to in
    rw h (
      init-record_event (record store { file = f }) m e to
        (record { rebuilt = s.rebuilt; ids_start = s.ids_start })
        (unfold transition_event in s.ids_start)
        (replay_event-transition_payload m.machine_id t m.current_state to context e
          (unfold transition_event in refl) legal))

-- Crash recovery: where the constructor, on the store of a machine, gives that machine, it does so
-- again after any call of `transition`, for the machine and the store that the call leaves, also when
-- it raises.
pub transition-IsSynced :
    (p : Platform) (disk : Disk) (now : Text) (t : Trigger) (request_id : Text) (context : Fields)
    (s : Engine)
    → IsSynced s
    → IsSynced (transition p disk now t request_id context s).1
transition-IsSynced p disk now t request_id context (m, store) h =
    Transitioned-IsSynced disk now t request_id context m store _
      (transition-Transitioned disk now t request_id context p m store) h

-- What other owners append to the shared store does not touch the machine: where the constructor gives
-- the machine from the store, it does so after an append of an event that is not the machine's own.
pub append-IsSynced :
    (p : Platform) (disk : Disk) (now : Text) (event_type : EventType) (payload : Fields)
    (key : Option Text) (m : ExecutionStateMachine) (store : EventStore)
    → is_own_event (new_event store now event_type payload key) m.machine_id ≡ false
    → IsSynced (m, store)
    → IsSynced (m, (append p disk now event_type payload key store).1)
unfolding new_event
append-IsSynced p disk now event_type payload key m store own s =
    append_other p m store (new_event store now event_type payload key) _ refl
      (append-Appended p disk now event_type payload key store) own s
