-- ===== src/OrderManager/StepsSound.antt =====
-- The agreement with the store after the steps of the order manager's methods, the state machine's included.
use turtle_qts_execution.Base.{
  ◌≡◌, ◌≢◌, refl, arith, true, false, Option, none, some, [], ◌∷◌, ap, Text, Fields, Outcome, inl,
  Numerals, text_eq_refl, option_branches, outcome_branches, verdict_branches, ℕ,
}
use turtle_qts_execution.EventStore.Types.{Event}
use turtle_qts_execution.EventStore.Platform.{Platform, Disk}
use turtle_qts_execution.EventStore.Store.{EventStore}
use turtle_qts_execution.EventSourcing.Tracked.{tracked}
use turtle_qts_execution.EventSourcing.Soundness.{IsSynced, Sound, persist_and_apply-Sound}
use turtle_qts_execution.EventSourcing.Live.{lasting, IsLiveSound, >=>-Sound}
use turtle_qts_execution.ExchangeAdapter.Models.{OrderStatus}
use turtle_qts_execution.ExecutionStateMachine.States.{State, Trigger}
use turtle_qts_execution.ExecutionStateMachine.Machine.{
  transition_payload, namespaced_key as machine_key,
}
use turtle_qts_execution.ExecutionStateMachine.Machine.Sharing.{transition-Agrees}
use turtle_qts_execution.OrderManager.States.{OrderLifecycleState, OrderLifecycleTrigger}
use turtle_qts_execution.OrderManager.Notices.{ingest_target, status_to_trigger}
use turtle_qts_execution.OrderManager.Snapshot.{OrderSnapshot}
use turtle_qts_execution.OrderManager.Events.{find, is_own_event, namespaced_key}
use turtle_qts_execution.OrderManager.Effects.{orders}
use turtle_qts_execution.OrderManager.Running.{
  Act, Transient, World, Live, next_id, event_type_for_action, exec_trigger,
}
use turtle_qts_execution.OrderManager.Status.{
  event_payload, record_action, record_step, transition_shared, drive_execution_sm, of_order,
  tracked_order, step_and_drive, ingest_step, ingest_status,
}

other_source :
    (om_id : Text) (e : Event) (machine_id : Text) (trigger : Trigger) (from_state to_state : State)
    (context : Fields)
    → e.payload ≡ transition_payload machine_id trigger from_state to_state context
    → is_own_event om_id e ≡ false
unfolding is_own_event transition_payload
other_source om_id e machine_id trigger from_state to_state context h = rw h refl

first : Text → ℕ
first [] = 0
first (c ∷ cs) = c

other_prefix :
    (om_id machine_id request_id key : Text)
    → machine_key machine_id request_id ≢ namespaced_key om_id key
unfolding machine_key namespaced_key first
other_prefix om_id machine_id request_id key h =
    let codes_agree : 101 ≡ 111 = ap first h in omega (arith, codes_agree)

module _ (n : Numerals) (om_id : Text) (digest : Text → Text) (p : Platform)
    (disk : EventStore → Disk) (now : EventStore → Text) where
  -- What is shown of a method and of a step of one.
  abbrev pub IsFine : {A : Type 0} → Live A → Type 0
  IsFine act = IsLiveSound (orders n om_id) act

  pub idle-Sound :
      {A : Type 0} (o : Outcome A) (t : Transient) (w : World)
      → IsSynced (orders n om_id) w
      → Sound (orders n om_id) (o, w)
  idle-Sound o t w h = inl h

  pub next_id-Sound : (suffix : Text) → IsFine (next_id om_id suffix)
  unfolding next_id
  next_id-Sound suffix t w h = inl h

  own_payload :
      (action : Act) (client_order_id : Text) (seq : Option ℕ)
      (trigger : Option OrderLifecycleTrigger) (from_state to_state : Option OrderLifecycleState)
      (details : Fields) (e : Event)
      → e.payload
        ≡ event_payload n om_id action client_order_id seq trigger from_state to_state details
      → is_own_event om_id e ≡ true
  unfolding is_own_event event_payload
  own_payload action client_order_id seq trigger from_state to_state details e h =
      rw h (rw (text_eq_refl om_id) refl)

  pub record_action-Sound :
      (action : Act) (client_order_id : Text) (seq : Option ℕ)
      (trigger : Option OrderLifecycleTrigger) (from_state to_state : Option OrderLifecycleState)
      (details : Fields) (key : Text)
      → IsFine (
          lasting (
            record_action n om_id digest p disk now action client_order_id seq trigger from_state
              to_state details key))
  unfolding record_action tracked
  record_action-Sound action client_order_id seq trigger from_state to_state details key t w h =
      persist_and_apply-Sound (orders n om_id) p disk now (event_type_for_action action to_state) _
        key (own_payload action client_order_id seq trigger from_state to_state details) w h

  pub record_step-Sound :
      (action : Act) (client_order_id : Text) (trigger : OrderLifecycleTrigger)
      (from_state to_state : OrderLifecycleState) (details : Fields) (key : Text)
      → IsFine (
          lasting (
            record_step n om_id digest p disk now action client_order_id trigger from_state to_state
              details key))
  unfolding record_step
  record_step-Sound action client_order_id trigger from_state to_state details key =
      record_action-Sound action client_order_id none (some trigger) (some from_state)
        (some to_state) details key

  transition_shared-Sound :
      (trigger : Trigger) (client_order_id : Text)
      → IsFine (transition_shared n om_id digest p disk now trigger client_order_id)
  unfolding transition_shared tracked
  transition_shared-Sound trigger client_order_id t (s, store) h = inl (
      transition-Agrees (orders n om_id) (other_source om_id) (other_prefix om_id) p (disk store)
        (now store) s t.execution_sm store trigger _ _ h)

  pub drive_execution_sm-Sound :
      (client_order_id : Text) (trigger : Option OrderLifecycleTrigger)
      (from_state : OrderLifecycleState) (snapshot : Option OrderSnapshot)
      → IsFine
          (drive_execution_sm n om_id digest p disk now client_order_id trigger from_state snapshot)
  unfolding drive_execution_sm
  drive_execution_sm-Sound client_order_id trigger from_state snapshot =
      verdict_branches IsFine (exec_trigger trigger from_state snapshot) (λ x. idle-Sound _)
        (idle-Sound _) (λ exec. transition_shared-Sound exec client_order_id)

  -- What is shown of the result of a method.
  abbrev pub Fine : (Outcome (Option OrderSnapshot) × World) × Transient → Type 0
  Fine r = Sound (orders n om_id) r.0

  pub of_order-Sound :
      (client_order_id : Text) (f : OrderSnapshot → Live (Option OrderSnapshot))
      → ((existing : OrderSnapshot) → IsFine (f existing))
      → IsFine (of_order n om_id digest p disk now client_order_id f)
  of_order-Sound client_order_id f hf t w h =
      option_branches Fine (find client_order_id w.0.core) (idle-Sound _ t w h)
        (λ existing. hf existing t w h)

  pub tracked_order-Sound :
      (client_order_id : Text) (f : OrderSnapshot → Live (Option OrderSnapshot))
      → ((existing : OrderSnapshot) → IsFine (f existing))
      → IsFine (tracked_order n om_id digest p disk now client_order_id f)
  tracked_order-Sound client_order_id f hf t w h =
      option_branches Fine (find client_order_id w.0.core) (idle-Sound _ t w h)
        (λ existing. hf existing t w h)

  pub step_and_drive-Sound :
      (action : Act) (client_order_id : Text) (trigger : OrderLifecycleTrigger)
      (current to_state : OrderLifecycleState) (details : Fields) (key : Text)
      → IsFine (
          step_and_drive n om_id digest p disk now action client_order_id trigger current to_state
            details key)
  unfolding step_and_drive
  step_and_drive-Sound action client_order_id trigger current to_state details key =
      >=>-Sound (orders n om_id) _ _
        (record_step-Sound action client_order_id trigger current to_state details key)
        (λ snapshot.
          >=>-Sound (orders n om_id) _ _
            (drive_execution_sm-Sound client_order_id (some trigger) current snapshot)
            (λ _. idle-Sound _))

  ingest_step-Sound :
      (client_order_id : Text) (trigger : Option OrderLifecycleTrigger)
      (exchange_order_id : Option Text) (existing : OrderSnapshot)
      (target : Option OrderLifecycleState)
      → IsFine (
          ingest_step n om_id digest p disk now client_order_id trigger exchange_order_id existing
            target)
  unfolding ingest_step
  ingest_step-Sound client_order_id (some trigger) exchange_order_id existing (some to_state) =
      step_and_drive-Sound _ client_order_id trigger _ to_state _ _
  ingest_step-Sound client_order_id none exchange_order_id existing target = idle-Sound _
  ingest_step-Sound client_order_id (some trigger) exchange_order_id existing none = idle-Sound _

  pub ingest_status-Sound :
      (client_order_id : Text) (status : OrderStatus) (exchange_order_id : Option Text)
      → IsFine (ingest_status n om_id digest p disk now client_order_id status exchange_order_id)
  unfolding ingest_status
  ingest_status-Sound client_order_id status exchange_order_id =
      tracked_order-Sound client_order_id _ (λ existing.
        outcome_branches IsFine (ingest_target status existing.lifecycle_state) (λ x. idle-Sound _)
          (λ target.
            ingest_step-Sound client_order_id (status_to_trigger status) exchange_order_id existing
              target))
