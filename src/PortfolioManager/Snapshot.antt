-- ===== src/PortfolioManager/Snapshot.antt =====
-- portfolio_manager/snapshot.py: the two ledgers and the amounts derived from them.
use turtle_qts_execution.Base.{
  ℕ, ◌==◌, if◌then◌else◌, List, Text, length, Decimal, dec, add_dec, sub_dec, div_dec, abs_ℤ,
  Outcome, ok,
}

pub record PortfolioSnapshot : Type 0 where
  pub available_cash : Decimal
  pub reserved_margin : Decimal
  pub used_margin : Decimal
  pub unrealized_pnl : Decimal
  pub realized_pnl_cumulative : Decimal
  pub funding_cumulative : Decimal
  pub fees_cumulative : Decimal
  pub deposits_cumulative : Decimal
  pub withdrawals_cumulative : Decimal
  pub exposure : Decimal
  pub heat : Decimal
  pub open_position_ids : List Text
  pub updated_at_utc : Text

unfoldable pub wallet_balance : PortfolioSnapshot → Decimal
wallet_balance p =
    sub_dec
      (add_dec
        (add_dec (sub_dec p.deposits_cumulative p.withdrawals_cumulative) p.realized_pnl_cumulative)
        p.funding_cumulative)
      p.fees_cumulative

unfoldable pub equity : PortfolioSnapshot → Decimal
equity p = add_dec (wallet_balance p) p.unrealized_pnl

unfoldable pub assets : PortfolioSnapshot → Decimal
assets p =
    add_dec (add_dec (add_dec p.available_cash p.reserved_margin) p.used_margin) p.unrealized_pnl

unfoldable pub liabilities : PortfolioSnapshot → Decimal
liabilities p = dec 0

unfoldable pub leverage : PortfolioSnapshot → Outcome Decimal
leverage p =
    if abs_ℤ (Decimal.units (equity p)) == 0 then ok (dec 0) else div_dec p.exposure (equity p)

unfoldable pub position_count : PortfolioSnapshot → ℕ
position_count p = length p.open_position_ids
