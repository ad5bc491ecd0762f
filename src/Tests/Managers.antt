-- ===== src/Tests/Managers.antt =====
-- Concrete runs of the order, position and portfolio managers.
use turtle_qts_execution.Base.{
  ℕ, ◌≡◌, refl, arith, ◌==◌, false, Option, none, some, [], ◌∷◌, Text, codes, if◌then◌else◌, ℤ, pos,
  negsuc, Decimal, dec, Numerals,
}
use turtle_qts_execution.EventStore.Store.{EventStore, replay, get_by_idempotency_key}
use turtle_qts_execution.EventSourcing.{replay_own, rebuild}
use turtle_qts_execution.EventSourcing.Tracked.{tracked}
use turtle_qts_execution.EventSourcing.Soundness.{IsSynced, Sound}
use turtle_qts_execution.ExchangeAdapter.Models.{OrderSide, OrderType, TimeInForce}
use turtle_qts_execution.ExecutionStateMachine.States.{State}
use turtle_qts_execution.PortfolioManager.Ledger.{PortfolioManager, empty_portfolio}
use turtle_qts_execution.PortfolioManager.Events.{portfolio}
use turtle_qts_execution.PortfolioManager.Manager as Portfolio
use turtle_qts_execution.PortfolioManager.Recovery.{handle-Sound}
use turtle_qts_execution.PositionManager.Effects.{positions}
use turtle_qts_execution.PositionManager.Events as PositionEvents
use turtle_qts_execution.PositionManager.Running as Position
use turtle_qts_execution.PositionManager.Requests as PositionRequests
use turtle_qts_execution.PositionManager.Recovery.{manage-Sound}
use turtle_qts_execution.OrderManager.Effects.{orders}
use turtle_qts_execution.OrderManager.Events as OrderEvents
use turtle_qts_execution.OrderManager.Running as Order
use turtle_qts_execution.OrderManager.Calls as Calls
use turtle_qts_execution.OrderManager.Recovery.{execute-Sound}
use turtle_qts_execution.Tests.{platform, disk, clock, empty_store}

-- A number's text: its sign, its digits as one code point, and its scale.
abbrev pub write_units : ℤ → ℕ → Text
write_units (pos m) scale = 43 ∷ m ∷ scale ∷ []
write_units (negsuc m) scale = 45 ∷ m ∷ scale ∷ []

abbrev pub read_units : Text → Option Decimal
read_units (sign ∷ m ∷ scale ∷ []) =
    if sign == 43
    then some (record { units = pos m; scale = scale })
    else some (record { units = negsuc m; scale = scale })
read_units _ = some (dec 0)

pub read_units-write_units :
    (units : ℤ) (scale : ℕ)
    → read_units (write_units units scale) ≡ some (record { units = units; scale = scale })
read_units-write_units (pos m) scale = refl
read_units-write_units (negsuc m) scale = refl

abbrev pub numbers : Numerals
numbers = record {
  to_text = λ d. write_units d.units d.scale;
  of_text = read_units;
  of_text-to_text = λ d. read_units-write_units d.units d.scale;
}

abbrev pub fund : PortfolioManager × EventStore
fund = (empty_portfolio clock, empty_store)

pub fund-IsSynced : IsSynced (portfolio numbers (codes "pm") clock) fund
fund-IsSynced = record {
  rebuilt = unfold rebuild replay replay_own in refl;
  ids_start = omega arith;
  known = λ i e h. cc h;
  own_keys = λ key e h. unfold get_by_idempotency_key in cc h;
  indexed = λ key i h. cc h;
}

handle-Sound_example : Sound (portfolio numbers (codes "pm") clock) (
    Portfolio.handle numbers
      (codes "pm")
      clock
      platform
      (λ _. disk)
      (λ _. clock)
      (Portfolio.Request.depositing (dec 100) (codes "r-1"))
      fund)
handle-Sound_example =
    handle-Sound numbers (codes "pm") clock platform (λ _. disk) (λ _. clock)
      (Portfolio.Request.depositing (dec 100) (codes "r-1")) fund fund-IsSynced

abbrev pub book : Position.World
book = (record { applied_event_ids = []; core = PositionEvents.empty_book }, empty_store)

pub book-IsSynced : IsSynced (positions numbers (codes "pm")) book
book-IsSynced = record {
  rebuilt = unfold rebuild replay replay_own tracked in refl;
  ids_start = omega arith;
  known = λ i e h. cc h;
  own_keys = λ key e h. unfold get_by_idempotency_key in cc h;
  indexed = λ key i h. cc h;
}

abbrev pub opening : PositionRequests.Request
opening =
    PositionRequests.Request.creating (record { value = codes "BTC" }) OrderSide.buy (dec 2)
      (dec 90) (dec 1) (dec 110) (dec 120) none

manage-Sound_example :
    Sound
      (positions numbers (codes "pm"))
      (PositionRequests.manage numbers
        (codes "pm")
        platform
        (λ _. disk)
        (λ _. clock)
        opening
        Position.no_transient
        book).0
manage-Sound_example =
    manage-Sound numbers (codes "pm") platform (λ _. disk) (λ _. clock) opening
      Position.no_transient book book-IsSynced

abbrev pub pending : Order.World
pending = (record { applied_event_ids = []; core = OrderEvents.no_orders }, empty_store)

pub pending-IsSynced : IsSynced (orders numbers (codes "om")) pending
pending-IsSynced = record {
  rebuilt = unfold rebuild replay replay_own tracked in refl;
  ids_start = omega arith;
  known = λ i e h. cc h;
  own_keys = λ key e h. unfold get_by_idempotency_key in cc h;
  indexed = λ key i h. cc h;
}

-- An exchange that times out on every call.
abbrev pub silent : Order.Adapter
silent = record {
  place_order = λ _ _. Order.Reply.refused (codes "timeout");
  amend_order = λ _ _. Order.Reply.refused (codes "timeout");
  cancel_order = λ _ _. Order.Reply.refused (codes "timeout");
  cancel_all = λ _ _. Order.Reply.refused (codes "timeout");
  find_order = λ _ _. Order.Reply.refused (codes "timeout");
  get_order_status = λ _ _. Order.Reply.refused (codes "timeout");
}

abbrev pub machine : Order.Transient
machine = record {
  next_seq = 1;
  ignored_fill_ids = [];
  execution_sm = record { machine_id = codes "default"; current_state = State.ready };
}

abbrev pub placing : Calls.Request
placing =
    Calls.Request.placing (record { value = codes "BTC" }) OrderSide.buy OrderType.market (dec 2)
      none TimeInForce.gtc false

execute-Sound_example :
    Sound
      (orders numbers (codes "om"))
      (Calls.execute numbers
        (codes "om")
        (λ t. t)
        platform
        (λ _. disk)
        (λ _. clock)
        silent
        placing
        machine
        pending).0
execute-Sound_example =
    execute-Sound numbers (codes "om") (λ t. t) platform (λ _. disk) (λ _. clock) silent placing
      machine pending pending-IsSynced
