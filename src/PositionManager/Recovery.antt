-- ===== src/PositionManager/Recovery.antt =====
-- Crash recovery of the position manager.
use turtle_qts_execution.Base.{
  ◌≡◌, refl, true, not, Option, Text, Fields, Outcome, inl, Numerals, dec, le_dec, text_eq_refl,
  option_branches, outcome_branches, verdict_branches, if_branches, member, ℕ, Decimal,
}
use turtle_qts_execution.EventStore.Types.{Event}
use turtle_qts_execution.EventStore.Platform.{Platform, Disk}
use turtle_qts_execution.EventStore.Store.{EventStore}
use turtle_qts_execution.EventSourcing.Tracked.{tracked}
use turtle_qts_execution.EventSourcing.Soundness.{
  IsSynced, Sound, IsSound, persist_and_apply-Sound, >>=-Sound,
}
use turtle_qts_execution.ExchangeAdapter.Models.{Fill, Symbol, OrderSide}
use turtle_qts_execution.PositionManager.States.{
  PositionLifecycleState, PositionLifecycleTrigger, position_lifecycle_states,
  position_lifecycle_triggers,
}
use turtle_qts_execution.PositionManager.Transitions.{is_terminal, next_state}
use turtle_qts_execution.PositionManager.Notices.{try_transition}
use turtle_qts_execution.PositionManager.Snapshot.{PositionSnapshot}
use turtle_qts_execution.PositionManager.Events.{find, is_own_event}
use turtle_qts_execution.PositionManager.Effects.{positions}
use turtle_qts_execution.PositionManager.Running.{
  Act, Transient, World, Live, event_payload, record_action, event_type_for_action, is_processed,
  entry_states, exit_triggers,
}
use turtle_qts_execution.PositionManager.Manager.{
  create_position, open_position, classify_fill, enter, record_entry_fill, of_position,
}
use turtle_qts_execution.PositionManager.Exits.{
  exit_details, close_leg, exit_position, record_exit, pure_transition, confirm_breakeven,
  complete_close, archive_position, record_funding_payment,
}
use turtle_qts_execution.PositionManager.Requests.{Request, manage}

module _ (n : Numerals) (pm_id : Text) (p : Platform) (disk : EventStore → Disk)
    (now : EventStore → Text) where
  abbrev IsLiveSound : Live (Option PositionSnapshot) → Type 0
  IsLiveSound act =
      (t : Transient) (w : World)
      → IsSynced (positions n pm_id) w
      → Sound (positions n pm_id) (act t w).0

  -- What is shown of the result of a method.
  abbrev Fine : (Outcome (Option PositionSnapshot) × World) × Transient → Type 0
  Fine r = Sound (positions n pm_id) r.0

  own_payload :
      (action : Act) (position_id : Text) (seq : Option ℕ)
      (trigger : Option PositionLifecycleTrigger)
      (from_state to_state : Option PositionLifecycleState) (details : Fields) (e : Event)
      → e.payload ≡ event_payload n pm_id action position_id seq trigger from_state to_state details
      → is_own_event pm_id e ≡ true
  unfolding is_own_event event_payload
  own_payload action position_id seq trigger from_state to_state details e h =
      rw h (rw (text_eq_refl pm_id) refl)

  record_action-Sound :
      (action : Act) (position_id : Text) (seq : Option ℕ)
      (trigger : Option PositionLifecycleTrigger)
      (from_state to_state : Option PositionLifecycleState) (details : Fields) (key : Text)
      → IsSound (positions n pm_id) (
          record_action n pm_id p disk now action position_id seq trigger from_state to_state
            details key)
  unfolding record_action tracked
  record_action-Sound action position_id seq trigger from_state to_state details key =
      persist_and_apply-Sound (positions n pm_id) p disk now (event_type_for_action action to_state)
        _ key (own_payload action position_id seq trigger from_state to_state details)

  -- A step that changes nothing.
  idle-Sound :
      {A : Type 0} (o : Outcome A) (w : World)
      → IsSynced (positions n pm_id) w
      → Sound (positions n pm_id) (o, w)
  idle-Sound o w h = inl h

  open_position-Sound :
      (position_id : Text) (fill : Fill)
      → IsSound (positions n pm_id) (open_position n pm_id p disk now position_id fill)
  unfolding open_position
  open_position-Sound position_id fill =
      option_branches (IsSound (positions n pm_id))
        (next_state PositionLifecycleState.new PositionLifecycleTrigger.first_fill) (idle-Sound _)
        (λ to_open. record_action-Sound _ _ _ _ _ _ _ _)

  classify_fill-Sound :
      (position_id : Text) (fill : Fill) (existing : PositionSnapshot)
      (current : PositionLifecycleState)
      → IsSound
          (positions n pm_id)
          (classify_fill n pm_id p disk now position_id fill existing current)
  unfolding classify_fill
  classify_fill-Sound position_id fill existing current =
      verdict_branches (IsSound (positions n pm_id)) (try_transition _ current) (λ x. idle-Sound _)
        (λ w h. inl h) (λ to_state. record_action-Sound _ _ _ _ _ _ _ _)

  enter-Sound :
      (position_id : Text) (fill : Fill) (existing : PositionSnapshot)
      (current : PositionLifecycleState)
      → IsSound (positions n pm_id) (enter n pm_id p disk now position_id fill existing current)
  unfolding enter
  enter-Sound position_id fill existing PositionLifecycleState.new =
      >>=-Sound (positions n pm_id) _ _ (open_position-Sound position_id fill)
        (λ _. classify_fill-Sound position_id fill existing PositionLifecycleState.opened)
  enter-Sound position_id fill existing current =
      classify_fill-Sound position_id fill existing current

  close_leg-Sound :
      (position_id : Text) (fill : Fill) (trigger : PositionLifecycleTrigger) (reason : Option Text)
      (existing : PositionSnapshot) (to_state : PositionLifecycleState)
      → IsSound
          (positions n pm_id)
          (close_leg n pm_id p disk now position_id fill trigger reason existing to_state)
  unfolding close_leg
  close_leg-Sound position_id fill trigger reason existing to_state =
      option_branches (IsSound (positions n pm_id)) existing.avg_entry_price (idle-Sound _)
        (λ entry.
          outcome_branches (IsSound (positions n pm_id))
            (exit_details n existing fill trigger reason entry) (λ x. idle-Sound _)
            (λ details. record_action-Sound _ _ _ _ _ _ _ _))

  of_position-Sound :
      (position_id : Text) (f : PositionSnapshot → Live (Option PositionSnapshot))
      → ((existing : PositionSnapshot) → IsLiveSound (f existing))
      → IsLiveSound (of_position n pm_id p disk now position_id f)
  of_position-Sound position_id f hf t w h =
      option_branches Fine (find position_id w.0.core) (idle-Sound _ w h)
        (λ existing. hf existing t w h)

  create_position-Sound :
      (symbol : Symbol) (side : OrderSide) (quantity stop_price stop_d t1_price t2_price : Decimal)
      (conviction : Option Decimal)
      → IsLiveSound (
          create_position n pm_id p disk now symbol side quantity stop_price stop_d t1_price
            t2_price conviction)
  unfolding create_position
  create_position-Sound symbol side quantity stop_price stop_d t1_price t2_price conviction t w h =
      if_branches Fine (le_dec quantity (dec 0)) (idle-Sound _ w h) (
        if_branches Fine (le_dec stop_d (dec 0)) (idle-Sound _ w h)
          (record_action-Sound _ _ _ _ _ _ _ _ w h))

  record_entry_fill-Sound :
      (position_id : Text) (fill : Fill)
      → IsLiveSound (record_entry_fill n pm_id p disk now position_id fill)
  unfolding record_entry_fill
  record_entry_fill-Sound position_id fill = of_position-Sound position_id _ (λ existing t w h.
      if_branches Fine (is_processed position_id fill.fill_id w.0.core t) (idle-Sound _ w h) (
        if_branches Fine
          (not (member position_lifecycle_states existing.lifecycle_state entry_states))
          (idle-Sound _ w h) (enter-Sound position_id fill existing existing.lifecycle_state w h)))

  exit_position-Sound :
      (position_id : Text) (fill : Fill) (trigger : PositionLifecycleTrigger) (reason : Option Text)
      (existing : PositionSnapshot)
      → IsLiveSound (exit_position n pm_id p disk now position_id fill trigger reason existing)
  unfolding exit_position
  exit_position-Sound position_id fill trigger reason existing t w h =
      if_branches Fine (is_processed position_id fill.fill_id w.0.core t) (idle-Sound _ w h) (
        if_branches Fine (is_terminal existing.lifecycle_state) (idle-Sound _ w h) (
          verdict_branches Fine (try_transition trigger existing.lifecycle_state)
            (λ x. idle-Sound _ w h) (idle-Sound _ w h)
            (λ to_state. close_leg-Sound position_id fill trigger reason existing to_state w h)))

  record_exit-Sound :
      (position_id : Text) (fill : Fill) (trigger : PositionLifecycleTrigger) (reason : Option Text)
      → IsLiveSound (record_exit n pm_id p disk now position_id fill trigger reason)
  unfolding record_exit
  record_exit-Sound position_id fill trigger reason t w h =
      if_branches Fine (not (member position_lifecycle_triggers trigger exit_triggers))
        (idle-Sound _ w h)
        (of_position-Sound position_id
          (exit_position n pm_id p disk now position_id fill trigger reason)
          (exit_position-Sound position_id fill trigger reason) t w h)

  pure_transition-Sound :
      (position_id : Text) (trigger : PositionLifecycleTrigger) (action : Act) (tag : Text)
      → IsLiveSound (pure_transition n pm_id p disk now position_id trigger action tag)
  unfolding pure_transition
  pure_transition-Sound position_id trigger action tag =
      of_position-Sound position_id _ (λ existing t w h.
        verdict_branches Fine (try_transition trigger existing.lifecycle_state)
          (λ x. idle-Sound _ w h) (idle-Sound _ w h)
          (λ to_state. record_action-Sound _ _ _ _ _ _ _ _ w h))

  record_funding_payment-Sound :
      (position_id : Text) (amount : Decimal) (timestamp_utc funding_id : Text)
      → IsLiveSound
          (record_funding_payment n pm_id p disk now position_id amount timestamp_utc funding_id)
  unfolding record_funding_payment
  record_funding_payment-Sound position_id amount timestamp_utc funding_id =
      of_position-Sound position_id _ (λ existing t w h. record_action-Sound _ _ _ _ _ _ _ _ w h)

  -- Crash recovery. Let the position manager agree with its store: the constructor gives from the store
  -- what events determine of the manager's state, every event there that is the manager's own has been
  -- applied, no other event has one of the manager's namespaced keys, and the keys index only events
  -- before the next id, which is 1 at least. Then it agrees with it again after any call of a public
  -- method that changes state, whatever the disk answers; or the call raised, and the constructor raises
  -- the same error from then on.
  pub manage-Sound :
      (r : Request) (t : Transient) (w : World)
      → IsSynced (positions n pm_id) w
      → Sound (positions n pm_id) (manage n pm_id p disk now r t w).0
  unfolding manage confirm_breakeven complete_close archive_position
  manage-Sound
        (Request.creating symbol side quantity stop_price stop_d t1_price t2_price conviction) =
      create_position-Sound symbol side quantity stop_price stop_d t1_price t2_price conviction
  manage-Sound (Request.entering position_id fill) = record_entry_fill-Sound position_id fill
  manage-Sound (Request.exiting position_id fill trigger reason) =
      record_exit-Sound position_id fill trigger reason
  manage-Sound (Request.confirming position_id) = pure_transition-Sound position_id _ _ _
  manage-Sound (Request.completing position_id) = pure_transition-Sound position_id _ _ _
  manage-Sound (Request.archiving position_id) = pure_transition-Sound position_id _ _ _
  manage-Sound (Request.paying position_id amount timestamp_utc funding_id) =
      record_funding_payment-Sound position_id amount timestamp_utc funding_id
