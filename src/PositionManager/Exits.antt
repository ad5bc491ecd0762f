-- ===== src/PositionManager/Exits.antt =====
-- position_manager/manager.py: the methods for exits, for steps without a fill, and for funding.
use turtle_qts_execution.Base.{
  not, Option, none, some, ◌++◌, Text, codes, str, Fields, end, field, Outcome, ok, err, bind,
  value_error, state_inconsistency, if◌then◌else◌, Decimal, Numerals, numeral, member,
}
use turtle_qts_execution.EventStore.Platform.{Platform, Disk}
use turtle_qts_execution.EventStore.Store.{EventStore}
use turtle_qts_execution.EventSourcing.{Action, return, raise}
use turtle_qts_execution.EventSourcing.Tracked.{Tracked}
use turtle_qts_execution.ExchangeAdapter.Models.{Fill}
use turtle_qts_execution.PositionManager.States.{
  PositionLifecycleState, PositionLifecycleTrigger, position_lifecycle_triggers,
}
use turtle_qts_execution.PositionManager.Transitions.{is_terminal}
use turtle_qts_execution.PositionManager.Notices.{try_transition}
use turtle_qts_execution.PositionManager.Snapshot.{PositionSnapshot}
use turtle_qts_execution.PositionManager.Pnl as Pnl
use turtle_qts_execution.PositionManager.Events.{Book}
use turtle_qts_execution.PositionManager.Running.{
  Act, Live, lasting, ignored, is_processed, leg_reason, exit_triggers, record_action,
}
use turtle_qts_execution.PositionManager.Manager.{of_position}

-- `details` of an exit.
unfoldable pub exit_details :
    Numerals
    → PositionSnapshot
    → Fill
    → PositionLifecycleTrigger
    → Option Text
    → Decimal
    → Outcome Fields
exit_details n existing fill trigger reason entry =
    bind (Pnl.fraction_of_original fill.quantity existing.intended_quantity) λ fraction.
      bind (Pnl.leg_r_multiple entry fill.price existing.stop_d fraction fill.fee fill.quantity)
        λ r. bind (Pnl.leg_pct entry fill.price fraction) λ pct. ok (
          field (codes "fill_id") (str fill.fill_id) (
            field (codes "fill_price") (numeral n fill.price) (
              field (codes "fill_quantity") (numeral n fill.quantity) (
                field (codes "fee") (numeral n fill.fee) (
                  field (codes "r") (numeral n r) (
                    field (codes "pct") (numeral n pct) (
                      field (codes "reason")
                        (str (leg_reason trigger existing.lifecycle_state reason))
                        (field (codes "realized_pnl")
                          (numeral n (Pnl.leg_realized_pnl entry fill.price fill.quantity fill.fee))
                          end))))))))

module _ (n : Numerals) (pm_id : Text) (p : Platform) (disk : EventStore → Disk)
    (now : EventStore → Text) where
  -- The end of an exit that is legal.
  unfoldable pub close_leg :
      Text
      → Fill
      → PositionLifecycleTrigger
      → Option Text
      → PositionSnapshot
      → PositionLifecycleState
      → Action (Tracked Book) (Option PositionSnapshot)
  close_leg position_id fill trigger reason existing to_state = elim existing.avg_entry_price [
    | none ↦ raise state_inconsistency
    | some entry ↦ elim (exit_details n existing fill trigger reason entry) [
      | err x ↦ raise x
      | ok details ↦
          record_action n pm_id p disk now Act.exit position_id none (some trigger)
            (some existing.lifecycle_state) (some to_state) details
            (position_id ++ (codes ":exit:" ++ fill.fill_id))
    ]
  ]

  -- An exit of a position that there is. An exit fill that comes too late is ignored.
  unfoldable pub exit_position :
      Text
      → Fill
      → PositionLifecycleTrigger
      → Option Text
      → PositionSnapshot
      → Live (Option PositionSnapshot)
  exit_position position_id fill trigger reason existing t w =
      if is_processed position_id fill.fill_id w.0.core t
      then lasting (return (some existing)) t w
      else if is_terminal existing.lifecycle_state
      then lasting (return (some existing)) (ignored position_id fill.fill_id t) w
      else elim (try_transition trigger existing.lifecycle_state) [
        | err x ↦ lasting (raise x) t w
        | ok none ↦ lasting (return (some existing)) (ignored position_id fill.fill_id t) w
        | ok (some to_state) ↦
            lasting (close_leg position_id fill trigger reason existing to_state) t w
      ]

  unfoldable pub record_exit :
      Text → Fill → PositionLifecycleTrigger → Option Text → Live (Option PositionSnapshot)
  record_exit position_id fill trigger reason t w =
      if not (member position_lifecycle_triggers trigger exit_triggers)
      then lasting (raise value_error) t w
      else of_position n pm_id p disk now position_id
          (exit_position position_id fill trigger reason) t w

  -- `_pure_transition`
  unfoldable pub pure_transition :
      Text → PositionLifecycleTrigger → Act → Text → Live (Option PositionSnapshot)
  pure_transition position_id trigger action tag =
      of_position n pm_id p disk now position_id (λ existing t w.
        elim (try_transition trigger existing.lifecycle_state) [
          | err x ↦ lasting (raise x) t w
          | ok none ↦ lasting (return (some existing)) t w
          | ok (some to_state) ↦
              lasting
                (record_action n pm_id p disk now action position_id none (some trigger)
                  (some existing.lifecycle_state) (some to_state) end
                  (position_id ++ (codes ":" ++ tag)))
                t w
        ])

  unfoldable pub confirm_breakeven : Text → Live (Option PositionSnapshot)
  confirm_breakeven position_id =
      pure_transition position_id PositionLifecycleTrigger.breakeven Act.breakeven
        (codes "breakeven")

  unfoldable pub complete_close : Text → Live (Option PositionSnapshot)
  complete_close position_id =
      pure_transition position_id PositionLifecycleTrigger.complete_close Act.complete_close
        (codes "complete_close")

  unfoldable pub archive_position : Text → Live (Option PositionSnapshot)
  archive_position position_id =
      pure_transition position_id PositionLifecycleTrigger.archive Act.archive (codes "archive")

  unfoldable pub record_funding_payment :
      Text → Decimal → Text → Text → Live (Option PositionSnapshot)
  record_funding_payment position_id amount timestamp_utc funding_id =
      of_position n pm_id p disk now position_id (λ existing. lasting (
        record_action n pm_id p disk now Act.funding position_id none none none none
          (field (codes "amount") (numeral n amount) (
            field (codes "timestamp_utc") (str timestamp_utc)
              (field (codes "funding_id") (str funding_id) end)))
          (position_id ++ (codes ":funding:" ++ funding_id))))
