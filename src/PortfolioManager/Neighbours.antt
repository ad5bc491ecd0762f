-- ===== src/PortfolioManager/Neighbours.antt =====
-- The agreement of another manager with the store that the portfolio manager writes to.
use turtle_qts_execution.Base.{
  ◌≡◌, ◌≢◌, refl, arith, Bool, false, some, Text, Fields, Outcome, ok, err, Error, dec, le_dec,
  lt_dec, if◌then◌else◌, Numerals, if_branches, option_branches, contains_text, value_error,
}
use turtle_qts_execution.EventStore.Types.{Event, EventType}
use turtle_qts_execution.EventStore.Platform.{Platform, Disk}
use turtle_qts_execution.EventStore.Store.{EventStore, get_by_idempotency_key, new_event}
use turtle_qts_execution.EventStore.Store.Append.{append-Appended}
use turtle_qts_execution.EventSourcing.{
  Manager, Action, apply, cached_or, persist, persist_and_apply, continue, ◌>>=◌, reading, raise,
}
use turtle_qts_execution.EventSourcing.Soundness.{IsSynced}
use turtle_qts_execution.EventSourcing.Sharing.{foreign-IsSynced}
use turtle_qts_execution.PortfolioManager.Snapshot.{PortfolioSnapshot}
use turtle_qts_execution.PortfolioManager.Ledger.{PortfolioManager}
use turtle_qts_execution.PortfolioManager.Events.{portfolio, namespaced_key}
use turtle_qts_execution.PortfolioManager.Manager.{
  event_payload, record_action, once, handle, Request, deposit, withdraw, reserve_margin,
  allocate_margin, release_margin, apply_realized_pnl, apply_funding, apply_fee, update_marks,
  get_snapshot,
}

module _ (n : Numerals) (pm_id started : Text) (p : Platform) (disk : EventStore → Disk)
    (now : EventStore → Text) {S R : Type 0} (other : Manager S R)
    (other_source : (e : Event) (action : Text) (details : Fields)
      → e.payload ≡ event_payload n pm_id started p disk now action details
      → other.is_own e ≡ false)
    (other_key : (key their_key : Text) → namespaced_key pm_id key ≢ other.namespaced_key their_key)
    (s : S) where
  -- The other manager still agrees with the store.
  abbrev Leaves : Action PortfolioManager PortfolioSnapshot → Type 0
  Leaves act =
      (w : PortfolioManager × EventStore)
      → IsSynced other (s, w.1)
      → IsSynced other (s, (act w).1.1)

  continue-Leaves :
      (portfolio_state : PortfolioManager) (r : Outcome Event × EventStore)
      → IsSynced other (s, r.1)
      → IsSynced other
          (s, (continue (r.0, (portfolio_state, r.1)) (apply (portfolio n pm_id started))).1.1)
  unfolding apply
  continue-Leaves portfolio_state (ok e, store) h = h
  continue-Leaves portfolio_state (err x, store) h = h

  record_action-Leaves :
      (action : Text) (details : Fields) (key : Text)
      → Leaves (record_action n pm_id started p disk now action details key)
  unfolding record_action persist_and_apply persist ◌>>=◌ new_event
  record_action-Leaves action details key (t, store) h =
      let payload = event_payload n pm_id started p disk now action details in
      let name = some (namespaced_key pm_id key) in
      continue-Leaves t _ (
        foreign-IsSynced other p s store
          (new_event store (now store) EventType.position_updated payload name) _
          (append-Appended p (disk store) (now store) EventType.position_updated payload name store)
          h
          (record {
            other = other_source _ action details refl;
            other_key = λ their_key eq. other_key key their_key (ground (arith, eq));
          })
          refl)

  once-Leaves :
      (key : Text) (act : Action PortfolioManager PortfolioSnapshot)
      → Leaves act
      → Leaves (once n pm_id started p disk now key act)
  unfolding once cached_or apply
  once-Leaves key act ha (t, store) h =
      option_branches
        (λ (q : Outcome PortfolioSnapshot × (PortfolioManager × EventStore)).
          IsSynced other (s, q.1.1))
        (get_by_idempotency_key store (namespaced_key pm_id key)) (ha (t, store) h) (λ e. h)

  checked-Leaves :
      (refused : Bool) (x : Error) (key : Text) (act : Action PortfolioManager PortfolioSnapshot)
      → Leaves act
      → Leaves (if refused then raise x else once n pm_id started p disk now key act)
  checked-Leaves refused x key act ha =
      if_branches Leaves refused (λ w h. h) (once-Leaves key act ha)

  covered-Leaves :
      (refused : PortfolioManager → Bool) (x : Error) (action : Text) (details : Fields)
      (key : Text)
      → Leaves (
          reading (λ s.
            if refused s
            then raise x
            else record_action n pm_id started p disk now action details key))
  covered-Leaves refused x action details key (t, store) =
      if_branches Leaves (refused t) (λ w h. h) (record_action-Leaves action details key) (t, store)

  -- Whatever a method of the portfolio manager does and returns, another manager that agrees with the
  -- store before (the constructor gives its state, its own events have been applied, no other event has
  -- one of its namespaced keys, and the keys index only events before the next id, which is 1 at least)
  -- agrees with the store after, where the other manager does not take the portfolio manager's events
  -- for its own and none of its namespaced keys is the portfolio manager's.
  pub handle-IsSynced :
      (r : Request) (w : PortfolioManager × EventStore)
      → IsSynced other (s, w.1)
      → IsSynced other (s, (handle n pm_id started p disk now r w).1.1)
  unfolding handle deposit withdraw reserve_margin allocate_margin release_margin apply_realized_pnl
      apply_funding apply_fee update_marks get_snapshot
  handle-IsSynced (Request.depositing amount r) =
      checked-Leaves (le_dec amount (dec 0)) value_error _ _ (record_action-Leaves _ _ _)
  handle-IsSynced (Request.withdrawing amount r) =
      checked-Leaves (le_dec amount (dec 0)) value_error _ _ (covered-Leaves _ _ _ _ _)
  handle-IsSynced (Request.reserving position amount r) =
      checked-Leaves (le_dec amount (dec 0)) value_error _ _ (covered-Leaves _ _ _ _ _)
  handle-IsSynced (Request.allocating position amount r) =
      checked-Leaves (le_dec amount (dec 0)) value_error _ _ (covered-Leaves _ _ _ _ _)
  handle-IsSynced (Request.releasing position r) = λ w.
      if_branches Leaves (contains_text position w.0.released_positions) (λ w h. h)
        (once-Leaves _ _ (record_action-Leaves _ _ _)) w
  handle-IsSynced (Request.realizing position leg amount r) =
      once-Leaves _ _ (record_action-Leaves _ _ _)
  handle-IsSynced (Request.funding position id amount r) =
      once-Leaves _ _ (record_action-Leaves _ _ _)
  handle-IsSynced (Request.charging reference id amount r) =
      checked-Leaves (lt_dec amount (dec 0)) value_error _ _ (record_action-Leaves _ _ _)
  handle-IsSynced (Request.marking unrealized exposure heat r) =
      once-Leaves _ _ (record_action-Leaves _ _ _)
  handle-IsSynced Request.asking = λ w h. h
