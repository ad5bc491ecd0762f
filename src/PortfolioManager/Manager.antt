-- ===== src/PortfolioManager/Manager.antt =====
-- portfolio_manager/manager.py: the methods of the portfolio manager. Each is one critical section under its lock.
use turtle_qts_execution.Base.{
  ◌++◌, Text, codes, obj, str, Fields, end, field, Outcome, err, value_error, insufficient_funds,
  insufficient_margin, if◌then◌else◌, Decimal, dec, lt_dec, le_dec, Numerals, numeral,
  contains_text, get_or, is_blank, ltb, length, ◌||◌, ℕ,
}
use turtle_qts_execution.EventStore.Types.{EventType}
use turtle_qts_execution.EventStore.Platform.{Platform, Disk}
use turtle_qts_execution.EventStore.Store.{EventStore}
use turtle_qts_execution.EventSourcing.{
  Action, return, raise, reading, rebuild, cached_or, persist_and_apply,
}
use turtle_qts_execution.PortfolioManager.Snapshot.{PortfolioSnapshot}
use turtle_qts_execution.PortfolioManager.Ledger.{PortfolioManager, snapshot}
use turtle_qts_execution.PortfolioManager.Events.{event_source_tag, portfolio}

abbrev pub max_pm_id_length : ℕ
max_pm_id_length = 60

-- The calls of the public methods.
pub data Request : Type 0 where
  depositing withdrawing : Decimal → Text → Request
  reserving allocating : Text → Decimal → Text → Request
  releasing : Text → Text → Request
  realizing funding charging : Text → Text → Decimal → Text → Request
  marking : Decimal → Decimal → Decimal → Text → Request
  asking : Request

module _ (n : Numerals) (pm_id started : Text) where
  -- `__init__`, while the clock shows `started`
  unfoldable pub init : EventStore → Outcome PortfolioManager
  init store =
      if is_blank pm_id || ltb max_pm_id_length (length pm_id)
      then err value_error
      else rebuild (portfolio n pm_id started) store

  module _ (p : Platform) (disk : EventStore → Disk) (now : EventStore → Text) where
    -- The `payload` of `_persist`.
    unfoldable pub event_payload : Text → Fields → Fields
    event_payload action details = field (codes "source") (str event_source_tag) (
        field (codes "pm_id") (str pm_id)
          (field (codes "action") (str action) (field (codes "details") (obj details) end)))

    -- The end of every method: `_apply_event(_persist(action, details, key))`.
    unfoldable pub record_action : Text → Fields → Text → Action PortfolioManager PortfolioSnapshot
    record_action action details key =
        persist_and_apply (portfolio n pm_id started) p disk now EventType.position_updated
          (event_payload action details) key

    unfoldable pub once :
        Text → Action PortfolioManager PortfolioSnapshot → Action PortfolioManager PortfolioSnapshot
    once key act = cached_or (portfolio n pm_id started) key act

    unfoldable pub deposit : Decimal → Text → Action PortfolioManager PortfolioSnapshot
    deposit amount request_id =
        let key = codes "deposit:" ++ request_id in
        if le_dec amount (dec 0)
        then raise value_error
        else once key
            (record_action (codes "DEPOSIT") (field (codes "amount") (numeral n amount) end) key)

    unfoldable pub withdraw : Decimal → Text → Action PortfolioManager PortfolioSnapshot
    withdraw amount request_id =
        let key = codes "withdraw:" ++ request_id in
        if le_dec amount (dec 0)
        then raise value_error
        else once key (
            reading (λ s.
              if lt_dec s.available_cash amount
              then raise insufficient_funds
              else record_action (codes "WITHDRAW") (field (codes "amount") (numeral n amount) end)
                  key))

    position_amount : Text → Decimal → Fields
    position_amount position_id amount =
        field (codes "position_id") (str position_id)
          (field (codes "amount") (numeral n amount) end)

    unfoldable pub reserve_margin :
        Text → Decimal → Text → Action PortfolioManager PortfolioSnapshot
    unfolding position_amount
    reserve_margin position_id amount request_id =
        let key = codes "reserve_margin:" ++ (position_id ++ (codes ":" ++ request_id)) in
        if le_dec amount (dec 0)
        then raise value_error
        else once key (
            reading (λ s.
              if lt_dec s.available_cash amount
              then raise insufficient_funds
              else record_action (codes "RESERVE_MARGIN") (position_amount position_id amount) key))

    unfoldable pub allocate_margin :
        Text → Decimal → Text → Action PortfolioManager PortfolioSnapshot
    unfolding position_amount
    allocate_margin position_id amount request_id =
        let key = codes "allocate_margin:" ++ (position_id ++ (codes ":" ++ request_id)) in
        if le_dec amount (dec 0)
        then raise value_error
        else once key (
            reading (λ s.
              if lt_dec (get_or position_id (dec 0) s.reserved_by_position) amount
              then raise insufficient_margin
              else record_action (codes "ALLOCATE_MARGIN") (position_amount position_id amount)
                  key))

    unfoldable pub release_margin : Text → Text → Action PortfolioManager PortfolioSnapshot
    release_margin position_id request_id =
        let key = codes "release_margin:" ++ (position_id ++ (codes ":" ++ request_id)) in
        reading (λ s.
          if contains_text position_id s.released_positions
          then return (snapshot s)
          else once key (
              record_action (codes "RELEASE_MARGIN")
                (field (codes "position_id") (str position_id) end) key))

    unfoldable pub apply_realized_pnl :
        Text → Text → Decimal → Text → Action PortfolioManager PortfolioSnapshot
    apply_realized_pnl position_id leg_id amount request_id =
        let key = codes "realized_pnl:" ++ (position_id ++ (codes ":" ++ leg_id)) in
        once key (
          record_action (codes "REALIZED_PNL")
            (field (codes "position_id") (str position_id)
              (field (codes "leg_id") (str leg_id) (field (codes "amount") (numeral n amount) end)))
            key)

    unfoldable pub apply_funding :
        Text → Text → Decimal → Text → Action PortfolioManager PortfolioSnapshot
    apply_funding position_id funding_id amount request_id =
        let key = codes "funding:" ++ (position_id ++ (codes ":" ++ funding_id)) in
        once key (
          record_action (codes "FUNDING")
            (field (codes "position_id") (str position_id) (
              field (codes "funding_id") (str funding_id)
                (field (codes "amount") (numeral n amount) end)))
            key)

    unfoldable pub apply_fee :
        Text → Text → Decimal → Text → Action PortfolioManager PortfolioSnapshot
    apply_fee reference_id fee_id amount request_id =
        let key = codes "fee:" ++ (reference_id ++ (codes ":" ++ fee_id)) in
        if lt_dec amount (dec 0)
        then raise value_error
        else once key (
            record_action (codes "FEE")
              (field (codes "reference_id") (str reference_id) (
                field (codes "fee_id") (str fee_id)
                  (field (codes "amount") (numeral n amount) end)))
              key)

    unfoldable pub update_marks :
        Decimal → Decimal → Decimal → Text → Action PortfolioManager PortfolioSnapshot
    update_marks unrealized_pnl exposure heat request_id =
        let key = codes "update_marks:" ++ request_id in
        once key (
          record_action (codes "UPDATE_MARKS")
            (field (codes "unrealized_pnl") (numeral n unrealized_pnl) (
              field (codes "exposure") (numeral n exposure)
                (field (codes "heat") (numeral n heat) end)))
            key)

    unfoldable pub get_snapshot : Action PortfolioManager PortfolioSnapshot
    get_snapshot = reading (λ s. return (snapshot s))

    unfoldable pub handle : Request → Action PortfolioManager PortfolioSnapshot
    handle (depositing amount r) = deposit amount r
    handle (withdrawing amount r) = withdraw amount r
    handle (reserving position amount r) = reserve_margin position amount r
    handle (allocating position amount r) = allocate_margin position amount r
    handle (releasing position r) = release_margin position r
    handle (realizing position leg amount r) = apply_realized_pnl position leg amount r
    handle (funding position id amount r) = apply_funding position id amount r
    handle (charging reference id amount r) = apply_fee reference id amount r
    handle (marking unrealized exposure heat r) = update_marks unrealized exposure heat r
    handle asking = get_snapshot
