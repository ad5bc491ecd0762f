-- ===== src/Tests/Books.antt =====
-- A deposit of 1.00 on a new account.
use turtle_qts_execution.Base.{
  ◌+◌, ◌≡◌, refl, subst, arith, ok, inl, inr, none, Outcome, codes, Fields, end, field, pos,
  Decimal, dec, numeral, as_text, as_decimal, as_fields, as_fields_or_empty, ◌+ℤ◌, ◌-ℤ◌,
}
use turtle_qts_execution.Base.Exact.{Fits}
use turtle_qts_execution.EventStore.Types.{Event, EventType}
use turtle_qts_execution.PortfolioManager.Snapshot.{PortfolioSnapshot}
use turtle_qts_execution.PortfolioManager.Ledger.{empty_portfolio}
use turtle_qts_execution.PortfolioManager.Events.{apply_event, effect}
use turtle_qts_execution.PortfolioManager.Manager.{event_payload}
use turtle_qts_execution.PortfolioManager.Conservation.{Books}
use turtle_qts_execution.PortfolioManager.Conservation.Assertion.{AmountsFit, apply_event-Books}
use turtle_qts_execution.Tests.{disk, clock, platform}
use turtle_qts_execution.Tests.Managers.{numbers}

abbrev one : Decimal
one = record { units = pos 100; scale = 2 }

abbrev details : Fields
details = field (codes "amount") (numeral numbers one) end

abbrev deposit : Event
deposit = record {
  event_id = 1;
  event_type = EventType.position_updated;
  timestamp_utc = clock;
  schema_version = 1;
  idempotency_key = none;
  payload =
      event_payload numbers (codes "pm") clock platform (λ _. disk) (λ _. clock) (codes "DEPOSIT")
        details;
}

zero-Fits : Fits 2 100 (dec 0)
zero-Fits = record { small = omega arith; scaled = inr refl }

one-Fits : Fits 2 100 one
one-Fits = record { small = omega arith; scaled = inl refl }

new_books : Books 2 100 (empty_portfolio clock)
unfolding empty_portfolio ◌+ℤ◌ ◌-ℤ◌
new_books = record {
  cash = zero-Fits;
  reserved = zero-Fits;
  used = zero-Fits;
  unrealized = zero-Fits;
  realized = zero-Fits;
  funding = zero-Fits;
  fees = zero-Fits;
  deposits = zero-Fits;
  withdrawals = zero-Fits;
  conserved = refl;
}

given-Fits :
    (o : Outcome Decimal) (x amt : Decimal) → o ≡ ok x → Fits 2 100 x → o ≡ ok amt → Fits 2 100 amt
given-Fits o x amt h f k = let e : x ≡ amt = cc (h, k) in subst (Fits 2 100) e f

deposit-AmountsFit : AmountsFit numbers 2 100 details (empty_portfolio clock)
unfolding as_decimal as_text
deposit-AmountsFit = record {
  amount = λ amt h. given-Fits _ one amt refl one-Fits h;
  unrealized = λ amt h. cc h;
  held = λ pid h. cc h;
}

apply_event-Books_example :
    (r : PortfolioSnapshot) × ((apply_event numbers deposit (empty_portfolio clock)).0 ≡ ok r)
    × Books 2 (100 + 100 + 100) (apply_event numbers deposit (empty_portfolio clock)).1
unfolding event_payload as_text as_fields as_fields_or_empty effect as_decimal
apply_event-Books_example =
    apply_event-Books numbers 2 100 (empty_portfolio clock) deposit (codes "DEPOSIT") details
      (omega arith) new_books deposit-AmountsFit refl refl refl
