-- ===== src/ExecutionStateMachine/Machine/Retry.antt =====
-- What a call of `transition` changes, and what a second call with the same request id does.
use turtle_qts_execution.Base.{
  ◌+◌, ◌≡◌, refl, ap, sym, subst, ◌∙◌, true, false, ◌||◌, some, ◌⊎◌, Text, Fields, Outcome, ok, err,
  arith, is_blank, ltb, length, text_eq, text_eq_refl, ◌==◌, ==-refl, lookup-insert_self, Bool,
}
use turtle_qts_execution.EventStore.Types.{Event}
use turtle_qts_execution.EventStore.Platform.{Platform, Disk}
use turtle_qts_execution.EventStore.Store.{EventStore, record_event, get_by_idempotency_key}
use turtle_qts_execution.EventStore.Store.Append.{Kept}
use turtle_qts_execution.ExecutionStateMachine.States.{Trigger}
use turtle_qts_execution.ExecutionStateMachine.Transitions.{next_state}
use turtle_qts_execution.ExecutionStateMachine.Machine.{
  ExecutionStateMachine, TransitionResult, Engine, transition, transition_locked, is_own_event,
  namespaced_key, result_from_event,
}
use turtle_qts_execution.ExecutionStateMachine.Machine.Cases.{
  Transitioned, transition-Transitioned, transition_event,
}
use turtle_qts_execution.ExecutionStateMachine.Machine.Events.{is_own_event-transition_payload}

-- What the outcome of a call says of the states before and after it.
abbrev pub Accounts : Disk → Trigger → Engine → Outcome TransitionResult × Engine → Type 0
Accounts disk t (m, store) (err x, (m', store')) =
    (m' ≡ m) × (store' ≡ record store { file = store'.file }) × Kept disk store store'.file
Accounts disk t (m, store) (ok r, (m', store')) =
    ((r.replayed ≡ true) × (m' ≡ m) × (store' ≡ store))
    ⊎ ((r.replayed ≡ false)
        × (r.trigger ≡ t)
        × (r.from_state ≡ m.current_state)
        × (r.to_state ≡ m'.current_state)
        × (next_state m.current_state t ≡ some m'.current_state)
        × (r.event_id ≡ store.next_event_id)
        × (store'.next_event_id ≡ store.next_event_id + 1))

-- What a machine finds under a request id after it has recorded an event for it.
get-record_event :
    (store : EventStore) (e : Event) (key : Text)
    → e.idempotency_key ≡ some key
    → get_by_idempotency_key (record_event store e) key ≡ some e
unfolding get_by_idempotency_key record_event
get-record_event store e key h = ground (
  arith,
  lookup-insert_self text_eq key e.event_id store.idempotency_index (text_eq_refl key),
  lookup-insert_self ◌==◌ e.event_id e store.by_id (==-refl e.event_id),
)

-- A known request is replayed, whatever trigger and context come with it.
transition_known :
    (p : Platform) (disk : Disk) (now : Text) (t : Trigger) (request_id : Text) (context : Fields)
    (m : ExecutionStateMachine) (store : EventStore) (e : Event)
    → is_blank request_id || ltb 60 (length request_id) ≡ false
    → get_by_idempotency_key store (namespaced_key m.machine_id request_id) ≡ some e
    → is_own_event e m.machine_id ≡ true
    → transition p disk now t request_id context (m, store)
      ≡ (result_from_event e request_id true, (m, store))
unfolding transition transition_locked
transition_known p disk now t request_id context m store e good known own =
    rw (good, known, transition_locked) (rw own)

valid_request :
    (p : Platform) (disk : Disk) (now : Text) (t : Trigger) (request_id : Text) (context : Fields)
    (s : Engine) {r : TransitionResult} {s' : Engine}
    → transition p disk now t request_id context s ≡ (ok r, s')
    → is_blank request_id || ltb 60 (length request_id) ≡ false
unfolding transition
valid_request p disk now t request_id context s h = ground arith

result_from_event-true :
    (e : Event) (request_id : Text) (b : Bool) (r : TransitionResult)
    → result_from_event e request_id b ≡ ok r
    → result_from_event e request_id true ≡ ok (record r { replayed = true })
unfolding result_from_event
result_from_event-true e request_id b r h = ground arith

-- After a call that returned, the store knows the request, under an event of the machine's own.
abbrev Known : Text → TransitionResult → Engine → Type 0
Known request_id r (m, store) =
    (e : Event) × (b : Bool) × (get_by_idempotency_key store
        (namespaced_key m.machine_id request_id)
      ≡ some e)
    × (is_own_event e m.machine_id ≡ true)
    × (result_from_event e request_id b ≡ ok r)

Transitioned-Known :
    (disk : Disk) (now : Text) (t : Trigger) (request_id : Text) (context : Fields)
    (m : ExecutionStateMachine) (store : EventStore) (o : Outcome TransitionResult × Engine)
    (r : TransitionResult)
    → Transitioned disk now t request_id context m store o
    → o.0 ≡ ok r
    → Known request_id r o.1
Transitioned-Known disk now t request_id context m store o r (Transitioned.refused x f h _) k =
    absurd (ground arith)
Transitioned-Known disk now t request_id context m store o r (Transitioned.repeated e known own h)
      k =
    rw h (e, true, known, own, ap (λ (q : Outcome TransitionResult × Engine). q.0) (sym h) ∙ k)
Transitioned-Known disk now t request_id context m store o r (Transitioned.moved to f legal _ h) k =
    let e = transition_event now t request_id context (m, store) to in
    rw h (
      e,
      false,
      get-record_event (record store { file = f }) e (namespaced_key m.machine_id request_id)
          (unfold transition_event in refl),
      is_own_event-transition_payload m.machine_id t m.current_state to context e
          (unfold transition_event in refl),
      ap (λ (q : Outcome TransitionResult × Engine). q.0) (sym h) ∙ k,
    )

-- A call that returned can be made again on the states that it left, with the same request id and any
-- trigger, context, clock and disk: it gives the same outcome, marked as replayed, and changes neither
-- the machine nor the store.
pub transition_retry :
    (p : Platform) (disk disk' : Disk) (now now' : Text) (t t' : Trigger) (request_id : Text)
    (context context' : Fields) (s s' : Engine) (r : TransitionResult)
    → transition p disk now t request_id context s ≡ (ok r, s')
    → transition p disk' now' t' request_id context' s' ≡ (ok (record r { replayed = true }), s')
transition_retry p disk disk' now now' t t' request_id context context' (m, store) (m', store') r
      h =
    let o = transition p disk now t request_id context (m, store) in
    let (e, b, known, own, got) =
      subst (λ (q : Outcome TransitionResult × Engine). Known request_id r q.1) h
        (Transitioned-Known disk now t request_id context m store o r
          (transition-Transitioned disk now t request_id context p m store)
          (ap (λ (q : Outcome TransitionResult × Engine). q.0) h)) in
    transition_known p disk' now' t' request_id context' m' store' e
      (valid_request p disk now t request_id context (m, store) h) known own
    ∙ ap (λ (q : Outcome TransitionResult). (q, (m', store')))
        (result_from_event-true e request_id b r got)
