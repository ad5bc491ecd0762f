-- ===== src/RiskManager/Rules.antt =====
-- risk_manager/manager.py: the business rules.
use turtle_qts_execution.Base.{
  ℕ, Bool, true, not, ◌&&◌, Option, none, some, List, [], ◌∷◌, ◌++◌, Text, codes, length, ltb,
  if◌then◌else◌, keep, ℤ, pos, ltb_ℤ, Decimal, dec, add_dec, sub_dec, mul_dec, div_dec, neg_dec,
  abs_dec, lt_dec, le_dec, Outcome, ok, ◌>>=◌,
}
use turtle_qts_execution.ExchangeAdapter.Models.{
  OrderSide, OrderType, TimeInForce, ExchangeCapabilities,
}
use turtle_qts_execution.PositionManager.Snapshot.{PositionSnapshot}
use turtle_qts_execution.PortfolioManager.Snapshot.{PortfolioSnapshot, equity}
use turtle_qts_execution.RiskManager.Models.{
  TradeRequest, FundingInfo, CorrelationEntry, RiskManagerLimits, ReasonCode, Violation, note,
  compared, bounded, counted, correlation_threshold,
}
use turtle_qts_execution.RiskManager.DataChecks.{RiskProfileParams, Problems}

module _ (parse_utc : Text → Option ℤ) (limits : RiskManagerLimits) where
  -- The rules that are violated, in order.
  abbrev pub collect : List (Bool × ReasonCode × Violation) → Problems
  collect [] = []
  collect ((violated, r, v) ∷ rules) = if violated then (r, v) ∷ collect rules else collect rules

  unfoldable pub liquidation_buffer_of : TradeRequest → Option Decimal
  liquidation_buffer_of t = elim t.estimated_liquidation_price [
    | none ↦ none
    | some liquidation ↦ elim t.side [
      | OrderSide.buy ↦ some (sub_dec t.stop_price liquidation)
      | OrderSide.sell ↦ some (sub_dec liquidation t.stop_price)
    ]
  ]

  -- `liquidation_buffer is None or liquidation_buffer < min_required_buffer`
  unfoldable pub is_too_close : Option Decimal → Decimal → Bool
  is_too_close none least = true
  is_too_close (some buffer) least = lt_dec buffer least

  unfoldable pub funding_cost_rate : TradeRequest → FundingInfo → Decimal
  funding_cost_rate t f = elim t.side [
    | OrderSide.buy ↦ f.funding_rate
    | OrderSide.sell ↦ neg_dec f.funding_rate
  ]

  unfoldable pub correlated_count : List CorrelationEntry → ℕ
  correlated_count es =
      length
        (keep (λ e. le_dec correlation_threshold (abs_dec (CorrelationEntry.correlation e))) es)

  unfoldable pub order_type_violation : OrderType → ExchangeCapabilities → Option Text
  order_type_violation OrderType.market c =
      if c.supports_market_orders then none else some (codes "order_type:MARKET not supported")
  order_type_violation OrderType.limit c =
      if c.supports_limit_orders then none else some (codes "order_type:LIMIT not supported")

  unfoldable pub time_in_force_violation : TimeInForce → ExchangeCapabilities → Option Text
  time_in_force_violation TimeInForce.gtc c = none
  time_in_force_violation TimeInForce.ioc c =
      if c.supports_ioc then none else some (codes "time_in_force:IOC not supported")
  time_in_force_violation TimeInForce.fok c =
      if c.supports_fok then none else some (codes "time_in_force:FOK not supported")
  time_in_force_violation TimeInForce.post_only c =
      if c.supports_post_only then none else some (codes "time_in_force:POST_ONLY not supported")

  unfoldable pub capability_violation : TradeRequest → ExchangeCapabilities → Option Text
  capability_violation t c = elim (order_type_violation t.order_type c) [
    | some text ↦ some text
    | none ↦
        if t.reduce_only && not c.supports_reduce_only
        then some (codes "reduce_only not supported")
        else time_in_force_violation t.time_in_force c
  ]

  unfoldable pub capability_problem : TradeRequest → ExchangeCapabilities → Problems
  capability_problem t c = elim (capability_violation t c) [
    | none ↦ []
    | some text ↦ (ReasonCode.exchange_capability_unsupported, note text) ∷ []
  ]

  -- The numbers that the business rules compare and that the decision reports.
  pub record Figures : Type 0 where
    pub heat_contribution : Decimal
    pub calculated_heat : Decimal
    pub calculated_exposure : Decimal
    pub liquidation_buffer : Option Decimal
    pub min_required_buffer : Decimal
    pub cost_rate : Decimal
    pub funding_estimate : Decimal

  unfoldable pub figures_of : TradeRequest → PortfolioSnapshot → FundingInfo → Decimal → Figures
  figures_of t p f contribution = record {
    heat_contribution = contribution;
    calculated_heat = add_dec p.heat contribution;
    calculated_exposure = add_dec p.exposure t.proposed_notional;
    liquidation_buffer = liquidation_buffer_of t;
    min_required_buffer =
        mul_dec limits.min_liquidation_buffer_pct (abs_dec (sub_dec t.entry_price t.stop_price));
    cost_rate = funding_cost_rate t f;
    funding_estimate = mul_dec (funding_cost_rate t f) t.proposed_notional;
  }

  unfoldable pub figures : TradeRequest → PortfolioSnapshot → FundingInfo → Outcome Figures
  figures t p f = do
    contribution ← div_dec t.proposed_risk_amount (equity p)
    ok (figures_of t p f contribution)

  -- The rules on numbers, in the order of the code.
  unfoldable pub numeric_rules :
      TradeRequest
      → RiskProfileParams
      → PortfolioSnapshot
      → List PositionSnapshot
      → List CorrelationEntry
      → Figures
      → List (Bool × ReasonCode × Violation)
  numeric_rules t profile p positions entries g =
      (
        lt_dec profile.risk_pct_per_trade g.heat_contribution,
        ReasonCode.risk_per_trade_exceeded,
        compared (codes "risk_pct_per_trade") g.heat_contribution profile.risk_pct_per_trade,
      )
      ∷ (
        lt_dec profile.heat_cap g.calculated_heat,
        ReasonCode.portfolio_heat_exceeded,
        compared (codes "heat_cap") g.calculated_heat profile.heat_cap,
      )
      ∷ (
        not (ltb_ℤ (pos (length positions)) profile.max_positions),
        ReasonCode.max_positions_exceeded,
        compared (codes "max_positions") (dec (length positions))
            (record { units = profile.max_positions; scale = 0 }),
      )
      ∷ (
        lt_dec p.available_cash t.proposed_margin_required,
        ReasonCode.insufficient_margin,
        compared (codes "available_cash") t.proposed_margin_required p.available_cash,
      )
      ∷ (
        lt_dec limits.max_leverage t.leverage,
        ReasonCode.leverage_exceeded,
        compared (codes "max_leverage") t.leverage limits.max_leverage,
      )
      ∷ (
        is_too_close g.liquidation_buffer g.min_required_buffer,
        ReasonCode.liquidation_too_close,
        bounded (codes "liquidation_buffer") g.liquidation_buffer g.min_required_buffer,
      )
      ∷ (
        lt_dec limits.max_funding_rate_abs g.cost_rate,
        ReasonCode.funding_rate_too_high,
        compared (codes "max_funding_rate_abs") g.cost_rate limits.max_funding_rate_abs,
      )
      ∷ (
        ltb limits.max_correlated_positions (correlated_count entries),
        ReasonCode.correlation_limit_exceeded,
        counted (codes "max_correlated_positions") (correlated_count entries)
            limits.max_correlated_positions,
      )
      ∷ []

  -- Every business rule, none short-circuited.
  unfoldable pub rule_problems :
      TradeRequest
      → RiskProfileParams
      → PortfolioSnapshot
      → List PositionSnapshot
      → ExchangeCapabilities
      → List CorrelationEntry
      → Figures
      → Problems
  rule_problems t profile p positions c entries g =
      collect (numeric_rules t profile p positions entries g) ++ capability_problem t c
