-- ===== src/PortfolioManager/Recovery.antt =====
-- Crash recovery of the portfolio manager.
use turtle_qts_execution.Base.{
  ◌≡◌, refl, Bool, true, Text, Fields, Error, inl, if◌then◌else◌, Numerals, dec, le_dec, lt_dec,
  text_eq_refl, value_error, contains_text,
}
use turtle_qts_execution.EventStore.Types.{Event, EventType}
use turtle_qts_execution.EventStore.Platform.{Platform, Disk}
use turtle_qts_execution.EventStore.Store.{EventStore}
use turtle_qts_execution.EventSourcing.{Action, reading, raise}
use turtle_qts_execution.EventSourcing.Soundness.{
  IsSynced, Sound, IsSound, cached_or-Sound, persist_and_apply-Sound, if-Sound,
}
use turtle_qts_execution.PortfolioManager.Snapshot.{PortfolioSnapshot}
use turtle_qts_execution.PortfolioManager.Ledger.{PortfolioManager}
use turtle_qts_execution.PortfolioManager.Events.{is_own_event, portfolio}
use turtle_qts_execution.PortfolioManager.Manager.{
  event_payload, record_action, once, handle, Request, deposit, withdraw, reserve_margin,
  allocate_margin, release_margin, apply_realized_pnl, apply_funding, apply_fee, update_marks,
  get_snapshot,
}

module _ (n : Numerals) (pm_id started : Text) (p : Platform) (disk : EventStore → Disk)
    (now : EventStore → Text) where
  own_payload :
      (action : Text) (details : Fields) (e : Event)
      → e.payload ≡ event_payload n pm_id started p disk now action details
      → is_own_event pm_id e ≡ true
  unfolding is_own_event event_payload
  own_payload action details e h = rw h (rw (text_eq_refl pm_id) refl)

  record_action-Sound :
      (action : Text) (details : Fields) (key : Text)
      → IsSound
          (portfolio n pm_id started)
          (record_action n pm_id started p disk now action details key)
  unfolding record_action
  record_action-Sound action details key =
      persist_and_apply-Sound (portfolio n pm_id started) p disk now EventType.position_updated _
        key (own_payload action details)

  once-Sound :
      (key : Text) (act : Action PortfolioManager PortfolioSnapshot)
      → IsSound (portfolio n pm_id started) act
      → IsSound (portfolio n pm_id started) (once n pm_id started p disk now key act)
  unfolding once
  once-Sound key act h = cached_or-Sound (portfolio n pm_id started) key act h

  raise-Sound : (x : Error) → IsSound (portfolio n pm_id started) {A = PortfolioSnapshot} (raise x)
  raise-Sound x w h = inl h

  -- A method that refuses some requests, and records the others under a key.
  checked-Sound :
      (refused : Bool) (x : Error) (key : Text) (act : Action PortfolioManager PortfolioSnapshot)
      → IsSound (portfolio n pm_id started) act
      → IsSound
          (portfolio n pm_id started)
          (if refused then raise x else once n pm_id started p disk now key act)
  checked-Sound refused x key act h =
      if-Sound (portfolio n pm_id started) refused (raise-Sound x) (once-Sound key act h)

  -- A record that the state may rule out.
  covered-Sound :
      (refused : PortfolioManager → Bool) (x : Error) (action : Text) (details : Fields)
      (key : Text)
      → IsSound (portfolio n pm_id started) (
          reading (λ s.
            if refused s
            then raise x
            else record_action n pm_id started p disk now action details key))
  covered-Sound refused x action details key (s, store) =
      if-Sound (portfolio n pm_id started) (refused s) (raise-Sound x)
        (record_action-Sound action details key) (s, store)

  -- Crash recovery. Let the portfolio manager agree with its store: the constructor gives from the store
  -- the manager's state, where the clock it reads shows the time of the first start, every event there
  -- that is the manager's own has been applied, no other event has one of the manager's namespaced keys,
  -- and the keys index only events before the next id, which is 1 at least. Then it agrees with it again
  -- after any call of a public method, whatever the disk answers; or the call raised, and the
  -- constructor at that clock raises the same error from then on.
  pub handle-Sound :
      (r : Request) (w : PortfolioManager × EventStore)
      → IsSynced (portfolio n pm_id started) w
      → Sound (portfolio n pm_id started) (handle n pm_id started p disk now r w)
  unfolding handle deposit withdraw reserve_margin allocate_margin release_margin apply_realized_pnl
      apply_funding apply_fee update_marks get_snapshot
  handle-Sound (Request.depositing amount r) w =
      checked-Sound (le_dec amount (dec 0)) value_error _ _ (record_action-Sound _ _ _) w
  handle-Sound (Request.withdrawing amount r) w =
      checked-Sound (le_dec amount (dec 0)) value_error _ _ (covered-Sound _ _ _ _ _) w
  handle-Sound (Request.reserving position amount r) w =
      checked-Sound (le_dec amount (dec 0)) value_error _ _ (covered-Sound _ _ _ _ _) w
  handle-Sound (Request.allocating position amount r) w =
      checked-Sound (le_dec amount (dec 0)) value_error _ _ (covered-Sound _ _ _ _ _) w
  handle-Sound (Request.releasing position r) (s, store) =
      if-Sound (portfolio n pm_id started) (contains_text position s.released_positions)
        (λ w h. inl h) (once-Sound _ _ (record_action-Sound _ _ _)) (s, store)
  handle-Sound (Request.realizing position leg amount r) w =
      once-Sound _ _ (record_action-Sound _ _ _) w
  handle-Sound (Request.funding position id amount r) w =
      once-Sound _ _ (record_action-Sound _ _ _) w
  handle-Sound (Request.charging reference id amount r) w =
      checked-Sound (lt_dec amount (dec 0)) value_error _ _ (record_action-Sound _ _ _) w
  handle-Sound (Request.marking unrealized exposure heat r) w =
      once-Sound _ _ (record_action-Sound _ _ _) w
  handle-Sound Request.asking w = inl
