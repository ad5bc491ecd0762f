-- ===== src/RiskManager/Evaluate/Completeness.antt =====
-- A trade that passes every stage is approved.
use turtle_qts_execution.Base.{
  ◌≡◌, refl, ap, ◌∙◌, true, none, some, Option, List, [], Text, ℤ, ok, arith, Decimal, dec, lt_dec,
}
use turtle_qts_execution.ExchangeAdapter.Models.{ExchangeCapabilities}
use turtle_qts_execution.PortfolioManager.Snapshot.{PortfolioSnapshot, equity}
use turtle_qts_execution.PositionManager.Snapshot.{PositionSnapshot}
use turtle_qts_execution.RiskManager.Models.{
  TradeRequest, FundingInfo, CorrelationInfo, RiskManagerLimits, RiskDecision, Decision,
}
use turtle_qts_execution.RiskManager.DataChecks.{
  Inputs, RiskProfileParams, data_problems, missing_data, missing, equity_problem,
}
use turtle_qts_execution.RiskManager.Rules.{
  figures, figures_of, rule_problems, numeric_rules, capability_problem, capability_violation,
}
use turtle_qts_execution.RiskManager.Evaluate.{
  business_rules, judged, evaluate, is_configured, blocking,
}
use turtle_qts_execution.RiskManager.Evaluate.Approval.{RulesHold, PassesStages}

module _ (parse_utc : Text → Option ℤ) (limits : RiskManagerLimits) where
  capability_problem-none :
      (t : TradeRequest) (c : ExchangeCapabilities)
      → capability_violation parse_utc limits t c ≡ none
      → capability_problem parse_utc limits t c ≡ []
  unfolding capability_problem
  capability_problem-none t c h = rw (h, capability_problem)

  rule_problems-RulesHold :
      (t : TradeRequest) (profile : RiskProfileParams) (p : PortfolioSnapshot)
      (positions : List PositionSnapshot) (c : ExchangeCapabilities) (f : FundingInfo)
      (k : CorrelationInfo) (share : Decimal)
      → RulesHold parse_utc limits t profile p positions c f k share
      → rule_problems parse_utc limits t profile p positions c k.entries
          (figures_of parse_utc limits t p f share)
        ≡ []
  unfolding rule_problems numeric_rules figures_of
  rule_problems-RulesHold t profile p positions c f k share h = simp (
    h.risk_per_trade,
    h.portfolio_heat,
    h.positions_left,
    h.margin,
    h.leverage,
    h.liquidation,
    h.funding,
    h.correlation,
    capability_problem-none t c h.capability,
  )

  equity_problem-solvent :
      (p : PortfolioSnapshot)
      → lt_dec (dec 0) (equity p) ≡ true
      → equity_problem parse_utc limits (some p) ≡ []
  unfolding equity_problem
  equity_problem-solvent p h = ground (arith, h)

  data_problems-PassesStages :
      (i : Inputs) → PassesStages parse_utc limits i → data_problems parse_utc limits i ≡ ok []
  unfolding data_problems missing_data missing
  data_problems-PassesStages i a = simp (
    a.fresh,
    a.has_state,
    a.has_portfolio,
    a.has_positions,
    a.has_exchange,
    a.has_funding,
    a.has_correlations,
    a.has_liquidation_price,
    equity_problem-solvent a.portfolio a.solvent,
  )

  figures-share :
      (t : TradeRequest) (profile : RiskProfileParams) (p : PortfolioSnapshot)
      (positions : List PositionSnapshot) (c : ExchangeCapabilities) (f : FundingInfo)
      (k : CorrelationInfo) (share : Decimal)
      → RulesHold parse_utc limits t profile p positions c f k share
      → figures parse_utc limits t p f ≡ ok (figures_of parse_utc limits t p f share)
  unfolding figures
  figures-share t profile p positions c f k share h = rw h.share_of_equity refl

  business_rules-PassesStages :
      (i : Inputs) (a : PassesStages parse_utc limits i)
      → business_rules parse_utc limits i i.portfolio_snapshot i.open_positions i.capabilities
          i.funding_info i.correlation_info
        ≡ ok (
            judged parse_utc limits i.trade_request i.evaluated_at_utc
              (figures_of parse_utc limits i.trade_request a.portfolio a.funding a.share)
              [])
  unfolding business_rules
  business_rules-PassesStages i a = simp (
    a.has_portfolio,
    a.has_positions,
    a.has_exchange,
    a.has_funding,
    a.has_correlations,
    figures-share i.trade_request i.risk_profile a.portfolio a.positions a.exchange a.funding
        a.correlations a.share a.rules,
    rule_problems-RulesHold i.trade_request i.risk_profile a.portfolio a.positions a.exchange
        a.funding a.correlations a.share a.rules,
  )

  pub PassesStages-evaluate :
      (i : Inputs)
      → is_configured parse_utc limits i ≡ true
      → PassesStages parse_utc limits i
      → (d : RiskDecision) × (evaluate parse_utc limits i ≡ ok d) × (d.decision ≡ Decision.approved)
  unfolding evaluate judged
  PassesStages-evaluate i c a = (
    judged parse_utc limits i.trade_request i.evaluated_at_utc
        (figures_of parse_utc limits i.trade_request a.portfolio a.funding a.share) [],
    rw (
      c,
      ap (blocking parse_utc limits) a.has_state ∙ a.not_blocked,
      data_problems-PassesStages i a,
      business_rules-PassesStages i a,
      evaluate,
    ),
    refl,
  )
