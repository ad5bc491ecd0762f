-- ===== src/PositionManager/Requests.antt =====
-- position_manager/manager.py: the calls of the public methods, and the queries.
use turtle_qts_execution.Base.{
  Option, none, some, List, [], Text, Outcome, ok, err, not_found, if◌then◌else◌, Decimal, dec,
  le_dec, Numerals, get_or, bind,
}
use turtle_qts_execution.EventStore.Platform.{Platform, Disk}
use turtle_qts_execution.EventStore.Store.{EventStore}
use turtle_qts_execution.ExchangeAdapter.Models.{Symbol, OrderSide, Fill}
use turtle_qts_execution.PositionManager.States.{PositionLifecycleTrigger}
use turtle_qts_execution.PositionManager.Snapshot.{PositionSnapshot, ClosedLeg}
use turtle_qts_execution.PositionManager.Pnl as Pnl
use turtle_qts_execution.PositionManager.Events.{Book, find}
use turtle_qts_execution.PositionManager.Running.{Live}
use turtle_qts_execution.PositionManager.Manager.{create_position, record_entry_fill}
use turtle_qts_execution.PositionManager.Exits.{
  record_exit, confirm_breakeven, complete_close, archive_position, record_funding_payment,
}

pub data Request : Type 0 where
  creating :
      Symbol
      → OrderSide
      → Decimal
      → Decimal
      → Decimal
      → Decimal
      → Decimal
      → Option Decimal
      → Request
  entering : Text → Fill → Request
  exiting : Text → Fill → PositionLifecycleTrigger → Option Text → Request
  confirming completing archiving : Text → Request
  paying : Text → Decimal → Text → Text → Request

module _ (n : Numerals) (pm_id : Text) (p : Platform) (disk : EventStore → Disk)
    (now : EventStore → Text) where
  unfoldable pub manage : Request → Live (Option PositionSnapshot)
  manage (creating symbol side quantity stop_price stop_d t1_price t2_price conviction) =
      create_position n pm_id p disk now symbol side quantity stop_price stop_d t1_price t2_price
        conviction
  manage (entering position_id fill) = record_entry_fill n pm_id p disk now position_id fill
  manage (exiting position_id fill trigger reason) =
      record_exit n pm_id p disk now position_id fill trigger reason
  manage (confirming position_id) = confirm_breakeven n pm_id p disk now position_id
  manage (completing position_id) = complete_close n pm_id p disk now position_id
  manage (archiving position_id) = archive_position n pm_id p disk now position_id
  manage (paying position_id amount timestamp_utc funding_id) =
      record_funding_payment n pm_id p disk now position_id amount timestamp_utc funding_id

unfoldable pub get_position : Text → Book → Outcome PositionSnapshot
get_position position_id b = elim (find position_id b) [ none ↦ err not_found | some p ↦ ok p ]

unfoldable pub get_closed_legs : Text → Book → Outcome (List ClosedLeg)
get_closed_legs position_id b = elim (find position_id b) [
  | none ↦ err not_found
  | some _ ↦ ok (get_or position_id [] b.closed_legs)
]

-- The rest of `unrealized_pnl`, on the position's snapshot.
unfoldable pub marked_pnl : Decimal → PositionSnapshot → Decimal
marked_pnl mark_price p = elim p.avg_entry_price [
  | none ↦ dec 0
  | some entry ↦
      if le_dec p.remaining_quantity (dec 0)
      then dec 0
      else Pnl.unrealized_pnl entry mark_price p.remaining_quantity
]

unfoldable pub unrealized_pnl : Text → Decimal → Book → Outcome Decimal
unrealized_pnl position_id mark_price b =
    bind (get_position position_id b) (λ p. ok (marked_pnl mark_price p))
