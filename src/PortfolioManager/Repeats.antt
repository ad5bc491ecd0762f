-- ===== src/PortfolioManager/Repeats.antt =====
-- Requests to the portfolio manager that are made twice.
use turtle_qts_execution.Base.{
  ◌≡◌, refl, Bool, true, false, Text, Fields, dec, le_dec, lt_dec, ok, err, Outcome, Error, inl,
  inr, if◌then◌else◌, Numerals, Bool-cases, contains_text, value_error,
}
use turtle_qts_execution.EventStore.Types.{EventType}
use turtle_qts_execution.EventStore.Platform.{Platform, Disk}
use turtle_qts_execution.EventStore.Store.{EventStore}
use turtle_qts_execution.EventSourcing.{Action, reading, raise, return}
use turtle_qts_execution.EventSourcing.Soundness.{IsSynced, Sound}
use turtle_qts_execution.EventSourcing.Repeats.{
  Records, persist_and_apply-Records, cached_or-Records, cached_or-repeats,
}
use turtle_qts_execution.PortfolioManager.Snapshot.{PortfolioSnapshot}
use turtle_qts_execution.PortfolioManager.Ledger.{PortfolioManager, snapshot}
use turtle_qts_execution.PortfolioManager.Events.{portfolio}
use turtle_qts_execution.PortfolioManager.Manager.{
  record_action, once, handle, Request, deposit, withdraw, reserve_margin, allocate_margin,
  release_margin, apply_realized_pnl, apply_funding, apply_fee, update_marks, get_snapshot,
}
use turtle_qts_execution.PortfolioManager.Recovery.{handle-Sound}

outcome-IsSynced :
    {S R A : Type 0} (m : _) (o : Outcome A × (S × EventStore)) (a : A)
    → Sound {S = S} {R = R} m o
    → o.0 ≡ ok a
    → IsSynced m o.1
outcome-IsSynced m (ok b, w) a (inl h) e = h
outcome-IsSynced m (ok b, w) a (inr (x, e', _)) e = cc e'
outcome-IsSynced m (err x, w) a h e = cc e

module _ (n : Numerals) (pm_id started : Text) (p : Platform) (disk : EventStore → Disk)
    (now : EventStore → Text) where
  -- Made once more after it has returned, the action returns and changes nothing.
  abbrev Repeats : Action PortfolioManager PortfolioSnapshot → Type 0
  Repeats act =
      (w : PortfolioManager × EventStore) (a : PortfolioSnapshot)
      → (act w).0 ≡ ok a
      → IsSynced (portfolio n pm_id started) (act w).1
      → (b : PortfolioSnapshot) × (act (act w).1 ≡ (ok b, (act w).1))

  record_action-Records :
      (action : Text) (details : Fields) (key : Text)
      → Records
          (portfolio n pm_id started)
          key
          (record_action n pm_id started p disk now action details key)
  unfolding record_action
  record_action-Records action details key =
      persist_and_apply-Records (portfolio n pm_id started) p disk now EventType.position_updated _
        key

  covered-Records :
      (refused : PortfolioManager → Bool) (x : Error) (action : Text) (details : Fields)
      (key : Text)
      → Records (portfolio n pm_id started) key (
          reading (λ s.
            if refused s
            then raise x
            else record_action n pm_id started p disk now action details key))
  covered-Records refused x action details key (s, store) a h = elim (Bool-cases (refused s)) [
    | inl denied ↦ cc (denied, h)
    | inr allowed ↦
        rw allowed (record_action-Records action details key (s, store) a (rw allowed at h))
  ]

  once-Repeats :
      (key : Text) (act : Action PortfolioManager PortfolioSnapshot)
      → Records (portfolio n pm_id started) key act
      → Repeats (once n pm_id started p disk now key act)
  unfolding once
  once-Repeats key act hr w a h synced =
      cached_or-repeats (portfolio n pm_id started) key act _ synced
        (cached_or-Records (portfolio n pm_id started) key act hr w a h)

  checked-Repeats :
      (refused : Bool) (x : Error) (key : Text) (act : Action PortfolioManager PortfolioSnapshot)
      → Records (portfolio n pm_id started) key act
      → Repeats (if refused then raise x else once n pm_id started p disk now key act)
  checked-Repeats true x key act hr w a h synced = cc h
  checked-Repeats false x key act hr w a h synced = once-Repeats key act hr w a h synced

  released-Repeats :
      (position_id : Text) (key : Text) (act : Action PortfolioManager PortfolioSnapshot)
      → Records (portfolio n pm_id started) key act
      → Repeats (
          reading (λ s.
            if contains_text position_id s.released_positions
            then return (snapshot s)
            else once n pm_id started p disk now key act))
  released-Repeats position_id key act hr (s, store) a h synced =
      elim (Bool-cases (contains_text position_id s.released_positions)) [
        | inl done ↦ (snapshot s, rw (done, done) refl)
        | inr fresh ↦
            let w' = (once n pm_id started p disk now key act (s, store)).1 in
            let (b, again) =
              once-Repeats key act hr (s, store) a (rw fresh at h) (rw fresh at synced) in
            elim (Bool-cases (contains_text position_id w'.0.released_positions)) [
              | inl done ↦ (snapshot w'.0, rw (fresh, done) refl)
              | inr still ↦ (b, rw (fresh, still) again)
            ]
      ]

  handle-stays_IsSynced :
      (r : Request) (w : PortfolioManager × EventStore) (a : PortfolioSnapshot)
      → IsSynced (portfolio n pm_id started) w
      → (handle n pm_id started p disk now r w).0 ≡ ok a
      → IsSynced (portfolio n pm_id started) (handle n pm_id started p disk now r w).1
  handle-stays_IsSynced r w a h e =
      outcome-IsSynced (portfolio n pm_id started) (handle n pm_id started p disk now r w) a
        (handle-Sound n pm_id started p disk now r w h) e

  handle-Repeats : (r : Request) → Repeats (handle n pm_id started p disk now r)
  unfolding handle deposit withdraw reserve_margin allocate_margin release_margin apply_realized_pnl
      apply_funding apply_fee update_marks get_snapshot
  handle-Repeats (Request.depositing amount r) =
      checked-Repeats (le_dec amount (dec 0)) value_error _ _ (record_action-Records _ _ _)
  handle-Repeats (Request.withdrawing amount r) =
      checked-Repeats (le_dec amount (dec 0)) value_error _ _ (covered-Records _ _ _ _ _)
  handle-Repeats (Request.reserving position amount r) =
      checked-Repeats (le_dec amount (dec 0)) value_error _ _ (covered-Records _ _ _ _ _)
  handle-Repeats (Request.allocating position amount r) =
      checked-Repeats (le_dec amount (dec 0)) value_error _ _ (covered-Records _ _ _ _ _)
  handle-Repeats (Request.releasing position r) =
      released-Repeats position _ _ (record_action-Records _ _ _)
  handle-Repeats (Request.realizing position leg amount r) =
      once-Repeats _ _ (record_action-Records _ _ _)
  handle-Repeats (Request.funding position id amount r) =
      once-Repeats _ _ (record_action-Records _ _ _)
  handle-Repeats (Request.charging reference id amount r) =
      checked-Repeats (lt_dec amount (dec 0)) value_error _ _ (record_action-Records _ _ _)
  handle-Repeats (Request.marking unrealized exposure heat r) =
      once-Repeats _ _ (record_action-Records _ _ _)
  handle-Repeats Request.asking = λ w a h synced. (snapshot w.0, refl)

  -- A request that has returned and is made again at once returns again, and changes neither the
  -- portfolio nor the store: it counts once. The portfolio manager agreed with its store before the
  -- first request: the constructor gives from the store the manager's state, where the clock it reads
  -- shows the time of the first start, every event there that is the manager's own has been applied, no
  -- other event has one of the manager's namespaced keys, and the keys index only events before the next
  -- id, which is 1 at least.
  pub handle_repeated :
      (r : Request) (w : PortfolioManager × EventStore) (a : PortfolioSnapshot)
      → IsSynced (portfolio n pm_id started) w
      → (handle n pm_id started p disk now r w).0 ≡ ok a
      → (b : PortfolioSnapshot) × (handle n pm_id started p disk now r
            (handle n pm_id started p disk now r w).1
          ≡ (ok b, (handle n pm_id started p disk now r w).1))
  handle_repeated r w a h e = handle-Repeats r w a e (handle-stays_IsSynced r w a h e)
