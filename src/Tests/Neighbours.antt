-- ===== src/Tests/Neighbours.antt =====
-- A position manager on the store that the portfolio manager writes to.
use turtle_qts_execution.Base.{ℕ, ◌≡◌, ◌≢◌, refl, arith, false, ◌∷◌, ap, Text, Fields, codes, dec}
use turtle_qts_execution.EventStore.Types.{Event}
use turtle_qts_execution.EventSourcing.Tracked.{tracked}
use turtle_qts_execution.EventSourcing.Soundness.{IsSynced}
use turtle_qts_execution.PortfolioManager.Events as PortfolioEvents
use turtle_qts_execution.PortfolioManager.Manager as Portfolio
use turtle_qts_execution.PortfolioManager.Neighbours.{handle-IsSynced}
use turtle_qts_execution.PositionManager.Effects.{positions}
use turtle_qts_execution.PositionManager.Events as PositionEvents
use turtle_qts_execution.Tests.{platform, disk, clock}
use turtle_qts_execution.Tests.Managers.{numbers, fund, book, book-IsSynced}

positions_source :
    (e : Event) (action : Text) (details : Fields)
    → e.payload
      ≡ Portfolio.event_payload numbers
          (codes "pm")
          clock
          platform
          (λ _. disk)
          (λ _. clock)
          action
          details
    → PositionEvents.is_own_event (codes "pm") e ≡ false
unfolding PositionEvents.is_own_event Portfolio.event_payload
positions_source e action details h = rw h refl

third : Text → ℕ
third (a ∷ b ∷ c ∷ rest) = c
third _ = 0

positions_key :
    (key their_key : Text)
    → PortfolioEvents.namespaced_key (codes "pm") key
      ≢ PositionEvents.namespaced_key (codes "pm") their_key
unfolding PortfolioEvents.namespaced_key PositionEvents.namespaced_key third
positions_key key their_key h =
    let codes_agree : 114 ≡ 115 = ap third h in omega (arith, codes_agree)

handle-IsSynced_example : IsSynced (positions numbers (codes "pm")) (
  book.0,
  (Portfolio.handle numbers
      (codes "pm")
      clock
      platform
      (λ _. disk)
      (λ _. clock)
      (Portfolio.Request.depositing (dec 100) (codes "r-1"))
      (fund.0, book.1)).1.1,
)
unfolding tracked PositionEvents.is_own_event
handle-IsSynced_example =
    handle-IsSynced numbers (codes "pm") clock platform (λ _. disk) (λ _. clock)
      (positions numbers (codes "pm")) positions_source positions_key book.0
      (Portfolio.Request.depositing (dec 100) (codes "r-1")) (fund.0, book.1) book-IsSynced
