-- ===== src/PositionManager/Positions.antt =====
-- The positions of a position manager that has started, whatever events the store had, and of one in operation.
use turtle_qts_execution.Base.{
  ◌≡◌, arith, Option, Text, ok, Numerals, is_blank, ltb, length, ◌||◌, Bool-cases, inl, inr,
}
use turtle_qts_execution.EventStore.Types.{Event}
use turtle_qts_execution.EventStore.Platform.{Platform, Disk}
use turtle_qts_execution.EventStore.Store.{EventStore}
use turtle_qts_execution.EventSourcing.{Manager}
use turtle_qts_execution.EventSourcing.Tracked.{Tracked, tracked, tracked-keeps}
use turtle_qts_execution.EventSourcing.Soundness.{IsSynced}
use turtle_qts_execution.EventSourcing.Invariants.{rebuild-keeps, returned-keeps}
use turtle_qts_execution.PositionManager.Snapshot.{PositionSnapshot}
use turtle_qts_execution.PositionManager.Events.{Book, empty_book, is_own_event, namespaced_key}
use turtle_qts_execution.PositionManager.Effects.{positions, effect, known_snapshot}
use turtle_qts_execution.PositionManager.Lifecycle.{IsWellFormed, effect-IsWellFormed}
use turtle_qts_execution.PositionManager.Running.{init, Transient, World, max_pm_id_length}
use turtle_qts_execution.PositionManager.Requests.{Request, manage}
use turtle_qts_execution.PositionManager.Recovery.{manage-Sound}

empty-IsWellFormed : IsWellFormed empty_book
empty-IsWellFormed position_id p h = cc h

module _ (n : Numerals) (pm_id : Text) where
  step-IsWellFormed :
      (e : Event) (s s' : Tracked Book) (r : Option PositionSnapshot)
      → IsWellFormed s.core
      → Manager.apply_event (positions n pm_id) e s ≡ (ok r, s')
      → IsWellFormed s'.core
  step-IsWellFormed =
      tracked-keeps (is_own_event pm_id) (namespaced_key pm_id) empty_book (known_snapshot n)
        (effect n) IsWellFormed (effect-IsWellFormed n)

  initial-IsWellFormed : IsWellFormed (Manager.initial (positions n pm_id)).core
  unfolding tracked
  initial-IsWellFormed = empty-IsWellFormed

  -- Whatever the store holds, a position manager that the constructor gives has under each id the snapshot of that
  -- id, in a state that legal transitions lead to from NEW.
  pub init-IsWellFormed :
      (store : EventStore) (s : Tracked Book) → init n pm_id store ≡ ok s → IsWellFormed s.core
  unfolding init
  init-IsWellFormed store s h =
      elim (Bool-cases (is_blank pm_id || ltb max_pm_id_length (length pm_id))) [
        | inl refused ↦ cc (refused, h)
        | inr fine ↦
            rebuild-keeps (positions n pm_id) (λ s. IsWellFormed s.core) initial-IsWellFormed
              step-IsWellFormed store s (ground (arith, fine, h))
      ]

  -- After any call of a public method that returns, a position manager that agreed with its store before
  -- the call (the constructor gave from the store what events determine of its state, its own events
  -- there had been applied, no other event had one of its namespaced keys, and the keys indexed only
  -- events before the next id, which was 1 at least) has under each id the snapshot of that id, in a
  -- state that legal transitions lead to from NEW.
  pub manage-IsWellFormed :
      (p : Platform) (disk : EventStore → Disk) (now : EventStore → Text) (r : Request)
      (t : Transient) (w : World) (a : Option PositionSnapshot)
      → IsSynced (positions n pm_id) w
      → (manage n pm_id p disk now r t w).0.0 ≡ ok a
      → IsWellFormed (manage n pm_id p disk now r t w).0.1.0.core
  manage-IsWellFormed p disk now r t w a h e =
      returned-keeps (positions n pm_id) (λ s. IsWellFormed s.core) initial-IsWellFormed
        step-IsWellFormed (manage n pm_id p disk now r t w).0 a
        (manage-Sound n pm_id p disk now r t w h) e
