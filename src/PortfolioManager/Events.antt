-- ===== src/PortfolioManager/Events.antt =====
-- portfolio_manager/manager.py: what each event does to the state of the portfolio manager (`_apply_event`).
use turtle_qts_execution.Base.{
  ℕ, ◌≡◌, refl, Bool, true, ◌&&◌, List, ◌∷◌, ◌++◌, Text, codes, text_eq, Fields, get, holds,
  Outcome, ok, err, if◌then◌else◌, Decimal, Numerals, as_text, as_decimal, as_fields_or_empty,
  replay_integrity, accounting_invariant, sym, ap, ◌∙◌, Bool-cases, inl, inr,
}
use turtle_qts_execution.EventStore.Types.{Event}
use turtle_qts_execution.EventSourcing.{Manager, has_id, with_id, remembers_id, keeps_ids}
use turtle_qts_execution.PortfolioManager.Snapshot.{PortfolioSnapshot}
use turtle_qts_execution.PortfolioManager.Ledger.{
  PortfolioManager, empty_portfolio, snapshot, is_balanced, deposited, withdrawn, margin_reserved,
  margin_allocated, margin_released, pnl_realized, funding_applied, fee_applied,
}

abbrev pub event_source_tag : Text
event_source_tag = codes "portfolio_manager"

-- `_is_own_event`
unfoldable pub is_own_event : Text → Event → Bool
is_own_event pm_id e =
    holds (get (codes "source") e.payload) event_source_tag
    && holds (get (codes "pm_id") e.payload) pm_id

-- `_namespaced_key`
unfoldable pub namespaced_key : Text → Text → Text
namespaced_key pm_id key = event_source_tag ++ (codes ":" ++ (pm_id ++ (codes ":" ++ key)))

module _ (n : Numerals) where
  -- A branch that reads one amount; where that raises, nothing is changed.
  abbrev pub with_amount :
      Fields
      → (Decimal → PortfolioManager → PortfolioManager)
      → PortfolioManager
      → Outcome (Unit {0}) × PortfolioManager
  with_amount details f s = elim (as_decimal n (get (codes "amount") details)) [
    | err x ↦ (err x, s)
    | ok amt ↦ (ok tt, f amt s)
  ]

  abbrev pub with_position :
      Fields
      → (Text → PortfolioManager → Outcome (Unit {0}) × PortfolioManager)
      → PortfolioManager
      → Outcome (Unit {0}) × PortfolioManager
  with_position details f s = elim (as_text (get (codes "position_id") details)) [
    | err x ↦ (err x, s)
    | ok pid ↦ f pid s
  ]

  -- The three numbers are assigned one after the other, each as soon as it is read.
  unfoldable pub marks_updated : Fields → PortfolioManager → Outcome (Unit {0}) × PortfolioManager
  marks_updated details s = elim (as_decimal n (get (codes "unrealized_pnl") details)) [
    | err x ↦ (err x, s)
    | ok unrealized ↦ elim (as_decimal n (get (codes "exposure") details)) [
      | err x ↦ (err x, record s { unrealized_pnl = unrealized })
      | ok exposure ↦ elim (as_decimal n (get (codes "heat") details)) [
        | err x ↦ (err x, record s { unrealized_pnl = unrealized; exposure = exposure })
        | ok heat ↦
            (ok tt, record s { unrealized_pnl = unrealized; exposure = exposure; heat = heat })
      ]
    ]
  ]

  -- The branch that the action of the event selects.
  unfoldable pub effect : Text → Fields → PortfolioManager → Outcome (Unit {0}) × PortfolioManager
  effect action details s =
      if text_eq action (codes "DEPOSIT")
      then with_amount details deposited s
      else if text_eq action (codes "WITHDRAW")
      then with_amount details withdrawn s
      else if text_eq action (codes "RESERVE_MARGIN")
      then with_position details (λ pid. with_amount details (margin_reserved pid)) s
      else if text_eq action (codes "ALLOCATE_MARGIN")
      then with_position details (λ pid. with_amount details (margin_allocated pid)) s
      else if text_eq action (codes "RELEASE_MARGIN")
      then with_position details (λ pid s. (ok tt, margin_released pid s)) s
      else if text_eq action (codes "REALIZED_PNL")
      then with_amount details pnl_realized s
      else if text_eq action (codes "FUNDING")
      then with_amount details funding_applied s
      else if text_eq action (codes "FEE")
      then with_amount details fee_applied s
      else if text_eq action (codes "UPDATE_MARKS")
      then marks_updated details s
      else (err replay_integrity, s)

  -- The whole branch for an event, from the reading of its payload on.
  unfoldable pub event_effect : Event → PortfolioManager → Outcome (Unit {0}) × PortfolioManager
  event_effect e s = elim (as_text (get (codes "action") e.payload)) [
    | err x ↦ (err x, s)
    | ok action ↦ elim (as_fields_or_empty (get (codes "details") e.payload)) [
      | err x ↦ (err x, s)
      | ok details ↦ effect action details s
    ]
  ]

  -- The end of `_apply_event`: the new state is kept also where the assertion fails. No branch reads or changes
  -- the ids of the applied events, to which the event's was added first.
  unfoldable pub conclude :
      Event
      → List ℕ
      → Outcome (Unit {0}) × PortfolioManager
      → Outcome PortfolioSnapshot × PortfolioManager
  conclude e ids (err x, s) = (err x, record s { applied_event_ids = e.event_id ∷ ids })
  conclude e ids (ok _, s) =
      let s' = record s {
        applied_event_ids = e.event_id ∷ ids;
        updated_at_utc = e.timestamp_utc;
      } in
      (if is_balanced (snapshot s') then ok (snapshot s') else err accounting_invariant, s')

  -- `_apply_event`
  unfoldable pub apply_event :
      Event → PortfolioManager → Outcome PortfolioSnapshot × PortfolioManager
  apply_event e s =
      if has_id e.event_id s.applied_event_ids
      then (ok (snapshot s), s)
      else conclude e s.applied_event_ids (event_effect e s)

  conclude-ids :
      (e : Event) (ids : List ℕ) (r : Outcome (Unit {0}) × PortfolioManager)
      → PortfolioManager.applied_event_ids (conclude e ids r).1 ≡ e.event_id ∷ ids
  unfolding conclude
  conclude-ids e ids (err x, s) = refl
  conclude-ids e ids (ok u, s) = refl

  pub again :
      (e : Event) (s : PortfolioManager)
      → has_id e.event_id s.applied_event_ids ≡ true
      → (r : PortfolioSnapshot) × (apply_event e s ≡ (ok r, s))
  unfolding apply_event
  again e s h = (snapshot s, rw h refl)

  apply_event-ids :
      (e : Event) (s : PortfolioManager)
      → PortfolioManager.applied_event_ids (apply_event e s).1
        ≡ with_id e.event_id s.applied_event_ids
  unfolding apply_event
  apply_event-ids e s = elim (Bool-cases (has_id e.event_id s.applied_event_ids)) [
    | inl h ↦ rw h refl
    | inr h ↦ rw h (conclude-ids e s.applied_event_ids (event_effect e s))
  ]

  pub remembers :
      (e : Event) (s s' : PortfolioManager) (r : PortfolioSnapshot)
      → apply_event e s ≡ (ok r, s')
      → has_id e.event_id s'.applied_event_ids ≡ true
  remembers e s s' r h =
      remembers_id e.event_id s.applied_event_ids
        (sym (apply_event-ids e s) ∙ ap (λ q. q.1.applied_event_ids) h)

  pub keeps :
      (e : Event) (s s' : PortfolioManager) (r : PortfolioSnapshot) (i : ℕ)
      → apply_event e s ≡ (ok r, s')
      → has_id i s.applied_event_ids ≡ true
      → has_id i s'.applied_event_ids ≡ true
  keeps e s s' r i h =
      keeps_ids e.event_id i s.applied_event_ids
        (sym (apply_event-ids e s) ∙ ap (λ q. q.1.applied_event_ids) h)

  -- The portfolio manager with this id, built while the clock showed this time.
  abbrev pub portfolio : Text → Text → Manager PortfolioManager PortfolioSnapshot
  portfolio pm_id now = record {
    is_own = is_own_event pm_id;
    namespaced_key = namespaced_key pm_id;
    initial = empty_portfolio now;
    applied_event_ids = λ s. s.applied_event_ids;
    apply_event = apply_event;
    again = again;
    remembers = remembers;
    keeps = keeps;
  }
