-- ===== src/PortfolioManager/Ledger.antt =====
-- portfolio_manager/manager.py: the state of the portfolio manager, its snapshot, the accounting assertion, and the
-- arithmetic of the branches of `_apply_event`.
use turtle_qts_execution.Base.{
  ℕ, Bool, List, [], Text, text_eq, Dict, insert, Decimal, dec, add_dec, sub_dec, eq_dec, add_text,
  discard_text, sorted_texts, get_or, without,
}
use turtle_qts_execution.PortfolioManager.Snapshot.{PortfolioSnapshot, assets, liabilities, equity}

pub record PortfolioManager : Type 0 where
  pub available_cash : Decimal
  pub reserved_margin : Decimal
  pub used_margin : Decimal
  pub unrealized_pnl : Decimal
  pub realized_pnl_cumulative : Decimal
  pub funding_cumulative : Decimal
  pub fees_cumulative : Decimal
  pub deposits_cumulative : Decimal
  pub withdrawals_cumulative : Decimal
  pub exposure : Decimal
  pub heat : Decimal
  pub open_position_ids : List Text
  pub reserved_by_position : Dict Text Decimal
  pub used_by_position : Dict Text Decimal
  pub released_positions : List Text
  pub applied_event_ids : List ℕ
  pub updated_at_utc : Text

-- The fields that `__init__` sets, at the time that the clock shows.
unfoldable pub empty_portfolio : Text → PortfolioManager
empty_portfolio now = record {
  available_cash = dec 0;
  reserved_margin = dec 0;
  used_margin = dec 0;
  unrealized_pnl = dec 0;
  realized_pnl_cumulative = dec 0;
  funding_cumulative = dec 0;
  fees_cumulative = dec 0;
  deposits_cumulative = dec 0;
  withdrawals_cumulative = dec 0;
  exposure = dec 0;
  heat = dec 0;
  open_position_ids = [];
  reserved_by_position = [];
  used_by_position = [];
  released_positions = [];
  applied_event_ids = [];
  updated_at_utc = now;
}

-- `_snapshot`
unfoldable pub snapshot : PortfolioManager → PortfolioSnapshot
snapshot s = record {
  available_cash = s.available_cash;
  reserved_margin = s.reserved_margin;
  used_margin = s.used_margin;
  unrealized_pnl = s.unrealized_pnl;
  realized_pnl_cumulative = s.realized_pnl_cumulative;
  funding_cumulative = s.funding_cumulative;
  fees_cumulative = s.fees_cumulative;
  deposits_cumulative = s.deposits_cumulative;
  withdrawals_cumulative = s.withdrawals_cumulative;
  exposure = s.exposure;
  heat = s.heat;
  open_position_ids = sorted_texts s.open_position_ids;
  updated_at_utc = s.updated_at_utc;
}

-- `_assert_invariant`
unfoldable pub is_balanced : PortfolioSnapshot → Bool
is_balanced p = eq_dec (assets p) (add_dec (liabilities p) (equity p))

-- The branches of `_apply_event`, on the numbers that they read.
unfoldable pub deposited : Decimal → PortfolioManager → PortfolioManager
deposited amt s = record s {
  available_cash = add_dec s.available_cash amt;
  deposits_cumulative = add_dec s.deposits_cumulative amt;
}

unfoldable pub withdrawn : Decimal → PortfolioManager → PortfolioManager
withdrawn amt s = record s {
  available_cash = sub_dec s.available_cash amt;
  withdrawals_cumulative = add_dec s.withdrawals_cumulative amt;
}

unfoldable pub margin_reserved : Text → Decimal → PortfolioManager → PortfolioManager
margin_reserved pid amt s = record s {
  available_cash = sub_dec s.available_cash amt;
  reserved_margin = add_dec s.reserved_margin amt;
  reserved_by_position =
      insert text_eq pid (add_dec (get_or pid (dec 0) s.reserved_by_position) amt)
        s.reserved_by_position;
}

unfoldable pub margin_allocated : Text → Decimal → PortfolioManager → PortfolioManager
margin_allocated pid amt s = record s {
  reserved_margin = sub_dec s.reserved_margin amt;
  used_margin = add_dec s.used_margin amt;
  reserved_by_position =
      insert text_eq pid (sub_dec (get_or pid (dec 0) s.reserved_by_position) amt)
        s.reserved_by_position;
  used_by_position =
      insert text_eq pid (add_dec (get_or pid (dec 0) s.used_by_position) amt) s.used_by_position;
  open_position_ids = add_text pid s.open_position_ids;
}

unfoldable pub margin_released : Text → PortfolioManager → PortfolioManager
margin_released pid s =
    let reserved = get_or pid (dec 0) s.reserved_by_position in
    let used = get_or pid (dec 0) s.used_by_position in
    record s {
      reserved_by_position = without pid s.reserved_by_position;
      used_by_position = without pid s.used_by_position;
      reserved_margin = sub_dec s.reserved_margin reserved;
      used_margin = sub_dec s.used_margin used;
      available_cash = add_dec s.available_cash (add_dec reserved used);
      released_positions = add_text pid s.released_positions;
      open_position_ids = discard_text pid s.open_position_ids;
    }

unfoldable pub pnl_realized : Decimal → PortfolioManager → PortfolioManager
pnl_realized amt s = record s {
  available_cash = add_dec s.available_cash amt;
  realized_pnl_cumulative = add_dec s.realized_pnl_cumulative amt;
}

unfoldable pub funding_applied : Decimal → PortfolioManager → PortfolioManager
funding_applied amt s = record s {
  available_cash = add_dec s.available_cash amt;
  funding_cumulative = add_dec s.funding_cumulative amt;
}

unfoldable pub fee_applied : Decimal → PortfolioManager → PortfolioManager
fee_applied amt s = record s {
  available_cash = sub_dec s.available_cash amt;
  fees_cumulative = add_dec s.fees_cumulative amt;
}
