-- ===== src/Tests/Started.antt =====
-- The managers started on a store that has one event.
use turtle_qts_execution.Base.{
  ◌≡◌, refl, true, false, none, some, [], ◌∷◌, codes, ok, str, Fields, end, field, is_ok, ok-of,
  dec, numeral, is_blank, add_dec, sub_dec, eq_dec, lt_dec, rounded, round28, half_even, excess,
  ◌*ℤ◌, ◌+ℤ◌, ◌-ℤ◌, as_text, as_fields, as_fields_or_empty, as_decimal, as_optional_decimal,
  optional_numeral, show, of_value,
}
use turtle_qts_execution.EventStore.Types.{EventType}
use turtle_qts_execution.EventStore.Types.{event_types}
use turtle_qts_execution.EventStore.Codec.{encode_record, frame, header, pack_be}
use turtle_qts_execution.EventStore.Platform.{write_full}
use turtle_qts_execution.EventStore.Store.{
  EventStore, replay, new_event, append, append_new, envelope_to_event, envelope,
  validate_new_event, get_by_idempotency_key, write_record, record_event, scan_forbidden,
}
use turtle_qts_execution.EventSourcing.{
  replay_own, rebuild, apply, cached_or, persist, persist_and_apply, ◌>>=◌,
}
use turtle_qts_execution.EventSourcing.Tracked.{tracked, apply_tracked}
use turtle_qts_execution.EventSourcing.Lifecycles.{advance, optional_int, optional_member}
use turtle_qts_execution.ExchangeAdapter.Models.{make_symbol, parse_side}
use turtle_qts_execution.PortfolioManager.Events as Funds
use turtle_qts_execution.PortfolioManager.Ledger as Ledger
use turtle_qts_execution.PortfolioManager.Ledger.{is_balanced, snapshot}
use turtle_qts_execution.PortfolioManager.Snapshot.{assets, liabilities, equity, wallet_balance}
use turtle_qts_execution.PortfolioManager.Manager as Portfolio
use turtle_qts_execution.PortfolioManager.Repeats.{handle_repeated}
use turtle_qts_execution.PortfolioManager.Ledger.{PortfolioManager}
use turtle_qts_execution.PortfolioManager.Snapshot.{PortfolioSnapshot}
use turtle_qts_execution.PositionManager.Running as Position
use turtle_qts_execution.PositionManager.Manager as PositionManager
use turtle_qts_execution.PositionManager.Requests as PositionRequests
use turtle_qts_execution.PositionManager.Events as PositionEvents
use turtle_qts_execution.PositionManager.Effects as PositionEffects
use turtle_qts_execution.PositionManager.Lifecycle.{IsWellFormed}
use turtle_qts_execution.PositionManager.Positions.{init-IsWellFormed, manage-IsWellFormed}
use turtle_qts_execution.Tests.{platform, disk, clock}
use turtle_qts_execution.Tests.Managers.{numbers, fund, fund-IsSynced, book, book-IsSynced, opening}

-- A store whose only event has this payload.
abbrev pub stored : Fields → EventStore
stored payload = record {
  file = record { content = []; position = 0 };
  events =
      record {
        event_id = 1;
        event_type = EventType.position_updated;
        timestamp_utc = clock;
        schema_version = 1;
        idempotency_key = none;
        payload = payload;
      }
      ∷ [];
  by_id = [];
  idempotency_index = [];
  next_event_id = 2;
  closed = false;
}

deposit-returns :
    is_ok
      (Portfolio.handle numbers
        (codes "pm")
        clock
        platform
        (λ _. disk)
        (λ _. clock)
        (Portfolio.Request.depositing (dec 100) (codes "r-1"))
        fund).0
    ≡ true
unfolding Portfolio.handle Portfolio.deposit Portfolio.once Portfolio.record_action cached_or
    persist_and_apply persist apply ◌>>=◌ append append_new validate_new_event
    get_by_idempotency_key envelope envelope_to_event new_event record_event write_record
    scan_forbidden encode_record write_full frame header pack_be event_types is_blank show of_value
    Funds.namespaced_key Portfolio.event_payload Funds.apply_event Ledger.empty_portfolio
    Funds.conclude Funds.event_effect Funds.effect Ledger.deposited as_text as_fields
    as_fields_or_empty as_decimal is_balanced snapshot assets liabilities equity wallet_balance
    add_dec sub_dec eq_dec lt_dec rounded round28 half_even excess ◌*ℤ◌ ◌+ℤ◌ ◌-ℤ◌
deposit-returns = refl

abbrev twice : PortfolioManager × EventStore
twice =
    (Portfolio.handle numbers (codes "pm") clock platform (λ _. disk) (λ _. clock)
      (Portfolio.Request.depositing (dec 100) (codes "r-1")) fund).1

handle_repeated_example :
    (b : PortfolioSnapshot) × (Portfolio.handle numbers
        (codes "pm")
        clock
        platform
        (λ _. disk)
        (λ _. clock)
        (Portfolio.Request.depositing (dec 100) (codes "r-1"))
        twice
      ≡ (ok b, twice))
handle_repeated_example =
    handle_repeated numbers (codes "pm") clock platform (λ _. disk) (λ _. clock)
      (Portfolio.Request.depositing (dec 100) (codes "r-1")) fund (ok-of deposit-returns).0
      fund-IsSynced (ok-of deposit-returns).1

abbrev opened : EventStore
opened = stored (
    Position.event_payload numbers (codes "pm") Position.Act.create (codes "pm:pm:1:position")
      (some 1) none none none
      (field (codes "symbol") (str (codes "BTC")) (
        field (codes "side") (str (codes "BUY")) (
          field (codes "intended_quantity") (numeral numbers (dec 2)) (
            field (codes "stop_price") (numeral numbers (dec 90)) (
              field (codes "stop_d") (numeral numbers (dec 1)) (
                field (codes "t1_price") (numeral numbers (dec 110))
                  (field (codes "t2_price") (numeral numbers (dec 120)) end))))))))

opened-starts : is_ok (Position.init numbers (codes "pm") opened) ≡ true
unfolding Position.init rebuild replay replay_own is_blank tracked apply_tracked
    PositionEvents.is_own_event Position.event_payload PositionEffects.effect
    PositionEffects.apply_action PositionEffects.apply_create PositionEffects.store_created
    PositionEvents.new_snapshot PositionEvents.position_created advance optional_int as_text
    as_fields as_decimal as_optional_decimal make_symbol parse_side
opened-starts = refl

init-IsWellFormed_example : IsWellFormed (ok-of opened-starts).0.core
init-IsWellFormed_example =
    init-IsWellFormed numbers (codes "pm") opened (ok-of opened-starts).0 (ok-of opened-starts).1

opening-returns :
    is_ok
      (PositionRequests.manage numbers
        (codes "pm")
        platform
        (λ _. disk)
        (λ _. clock)
        opening
        Position.no_transient
        book).0.0
    ≡ true
unfolding PositionRequests.manage PositionManager.create_position Position.record_action
    Position.make_id persist_and_apply persist apply ◌>>=◌ append append_new validate_new_event
    get_by_idempotency_key envelope envelope_to_event new_event record_event write_record
    scan_forbidden encode_record write_full frame header pack_be event_types is_blank show of_value
    PositionEvents.namespaced_key Position.event_type_for_action tracked apply_tracked
    Position.event_payload PositionEffects.effect PositionEffects.apply_action
    PositionEffects.apply_create PositionEffects.store_created PositionEvents.new_snapshot
    PositionEvents.position_created advance optional_int as_text as_fields as_decimal
    as_optional_decimal optional_numeral make_symbol parse_side lt_dec ◌*ℤ◌ optional_member
opening-returns = refl

manage-IsWellFormed_example :
    IsWellFormed
      (PositionRequests.manage numbers
        (codes "pm")
        platform
        (λ _. disk)
        (λ _. clock)
        opening
        Position.no_transient
        book).0.1.0.core
manage-IsWellFormed_example =
    manage-IsWellFormed numbers (codes "pm") platform (λ _. disk) (λ _. clock) opening
      Position.no_transient book (ok-of opening-returns).0 book-IsSynced (ok-of opening-returns).1
