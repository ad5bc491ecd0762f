-- ===== src/RiskManager/Evaluate/Admissible.antt =====
-- Approval, against requirements that do not use the code's own tests.
use turtle_qts_execution.Base.{
  arith, is_blank, false, pos, ltb_ℤ, ◌≡◌, refl, ap, sym, ◌∙◌, true, Option, some, List, [], ◌∷◌,
  ◌++◌, Text, ℤ, ok, map, codes, dec, Decimal, lt_dec, ltb→le, le→ltb,
}
use turtle_qts_execution.ExecutionStateMachine.States.{State}
use turtle_qts_execution.ExchangeAdapter.Models.{ExchangeCapabilities}
use turtle_qts_execution.PortfolioManager.Snapshot.{PortfolioSnapshot, equity}
use turtle_qts_execution.PositionManager.Snapshot.{PositionSnapshot}
use turtle_qts_execution.RiskManager.Models.{
  TradeRequest, FundingInfo, CorrelationInfo, RiskManagerLimits, RiskDecision, Decision,
}
use turtle_qts_execution.RiskManager.DataChecks.{
  Inputs, RiskProfileParams, stale_data, timestamps_to_check,
}
use turtle_qts_execution.RiskManager.Rules.{correlated_count}
use turtle_qts_execution.RiskManager.Evaluate.{evaluate, is_configured}
use turtle_qts_execution.RiskManager.Evaluate.Requirements.{
  Halts, runs, runs-converse, IsFresh, AllFresh, stale_data-nil, AllFresh-stale_data,
}
use turtle_qts_execution.RiskManager.Evaluate.RuleRequirements.{
  MeetsRules, IsFarFromLiquidation-is_too_close, is_too_close-IsFarFromLiquidation,
  IsAffordable-funding_cost_rate, funding_cost_rate-IsAffordable, capability_violation-IsSupported,
  IsSupported-capability_violation,
}
use turtle_qts_execution.RiskManager.Evaluate.Approval.{
  RulesHold, PassesStages, evaluate-PassesStages,
}
use turtle_qts_execution.RiskManager.Evaluate.Precedence.{evaluate-is_configured}
use turtle_qts_execution.RiskManager.Evaluate.Completeness.{PassesStages-evaluate}

module _ (parse_utc : Text → Option ℤ) (limits : RiskManagerLimits) where
  -- Each position's snapshot is fresh.
  abbrev pub AllPositionsFresh : Text → List PositionSnapshot → Type 0
  AllPositionsFresh at [] = Unit
  AllPositionsFresh at (p ∷ ps) =
      IsFresh parse_utc limits at (PositionSnapshot.updated_at_utc p) × AllPositionsFresh at ps

  -- The configuration is sensible, every input is there, the engine runs, the data are fresh, the account is solvent, and every business
  -- rule is met.
  pub record IsAdmissible (i : Inputs) : Type 0 where
    pub positive_risk : lt_dec (dec 0) i.risk_profile.risk_pct_per_trade ≡ true
    pub positive_heat_cap : lt_dec (dec 0) i.risk_profile.heat_cap ≡ true
    pub positive_positions : ltb_ℤ (pos 0) i.risk_profile.max_positions ≡ true
    pub dated : is_blank i.evaluated_at_utc ≡ false
    pub state : State
    pub portfolio : PortfolioSnapshot
    pub positions : List PositionSnapshot
    pub exchange : ExchangeCapabilities
    pub funding : FundingInfo
    pub correlations : CorrelationInfo
    pub liquidation_price : Decimal
    pub share : Decimal
    pub has_state : i.kill_switch_state ≡ some state
    pub has_portfolio : i.portfolio_snapshot ≡ some portfolio
    pub has_positions : i.open_positions ≡ some positions
    pub has_exchange : i.capabilities ≡ some exchange
    pub has_funding : i.funding_info ≡ some funding
    pub has_correlations : i.correlation_info ≡ some correlations
    pub has_liquidation_price :
        TradeRequest.estimated_liquidation_price i.trade_request ≡ some liquidation_price
    pub running : ¬ Halts (some state)
    pub fresh_portfolio : IsFresh parse_utc limits i.evaluated_at_utc portfolio.updated_at_utc
    pub fresh_positions : AllPositionsFresh i.evaluated_at_utc positions
    pub fresh_funding : IsFresh parse_utc limits i.evaluated_at_utc funding.as_of_utc
    pub fresh_correlations : IsFresh parse_utc limits i.evaluated_at_utc correlations.as_of_utc
    pub solvent : lt_dec (dec 0) (equity portfolio) ≡ true
    pub rules :
        MeetsRules parse_utc limits i.trade_request i.risk_profile portfolio positions exchange
          funding correlations liquidation_price share

  -- The labelled timestamps of the snapshots.
  abbrev labelled : PositionSnapshot → Text × Text
  labelled p =
      (codes "position:" ++ PositionSnapshot.position_id p, PositionSnapshot.updated_at_utc p)

  positions-split :
      (at : Text) (ps : List PositionSnapshot) (rest : List (Text × Text))
      → AllFresh parse_utc limits at (map labelled ps ++ rest)
      → AllPositionsFresh at ps × AllFresh parse_utc limits at rest
  positions-split at [] rest h = (tt, h)
  positions-split at (p ∷ ps) rest (fresh, h) =
      let (all, others) = positions-split at ps rest h in ((fresh, all), others)

  positions-join :
      (at : Text) (ps : List PositionSnapshot) (rest : List (Text × Text))
      → AllPositionsFresh at ps
      → AllFresh parse_utc limits at rest
      → AllFresh parse_utc limits at (map labelled ps ++ rest)
  positions-join at [] rest h others = others
  positions-join at (p ∷ ps) rest (fresh, h) others = (fresh, positions-join at ps rest h others)

  pairs :
      PortfolioSnapshot → List PositionSnapshot → FundingInfo → CorrelationInfo → List (Text × Text)
  pairs p ps f k =
      (codes "portfolio_snapshot", p.updated_at_utc)
      ∷ (map labelled ps
          ++ ((codes "funding_info", f.as_of_utc) ∷ (codes "correlation_info", k.as_of_utc) ∷ []))

  timestamps-pairs :
      (i : Inputs) (p : PortfolioSnapshot) (ps : List PositionSnapshot) (f : FundingInfo)
      (k : CorrelationInfo)
      → i.portfolio_snapshot ≡ some p
      → i.open_positions ≡ some ps
      → i.funding_info ≡ some f
      → i.correlation_info ≡ some k
      → timestamps_to_check i ≡ pairs p ps f k
  unfolding timestamps_to_check pairs
  timestamps-pairs i p ps f k ep eps ef ek = rw (ep, eps, ef, ek) refl

  RulesHold-MeetsRules :
      (t : TradeRequest) (profile : RiskProfileParams) (p : PortfolioSnapshot)
      (positions : List PositionSnapshot) (c : ExchangeCapabilities) (f : FundingInfo)
      (k : CorrelationInfo) (x share : Decimal)
      → t.estimated_liquidation_price ≡ some x
      → RulesHold parse_utc limits t profile p positions c f k share
      → MeetsRules parse_utc limits t profile p positions c f k x share
  unfolding correlated_count
  RulesHold-MeetsRules t profile p positions c f k x share e h = record {
    share_of_equity = h.share_of_equity;
    risk_per_trade = h.risk_per_trade;
    portfolio_heat = h.portfolio_heat;
    positions_left = h.positions_left;
    margin = h.margin;
    leverage = h.leverage;
    liquidation = is_too_close-IsFarFromLiquidation parse_utc limits t x _ e h.liquidation;
    funding =
        funding_cost_rate-IsAffordable parse_utc limits t f limits.max_funding_rate_abs h.funding;
    correlation = ltb→le limits.max_correlated_positions _ h.correlation;
    supported = capability_violation-IsSupported parse_utc limits t c h.capability;
  }

  MeetsRules-RulesHold :
      (t : TradeRequest) (profile : RiskProfileParams) (p : PortfolioSnapshot)
      (positions : List PositionSnapshot) (c : ExchangeCapabilities) (f : FundingInfo)
      (k : CorrelationInfo) (x share : Decimal)
      → t.estimated_liquidation_price ≡ some x
      → MeetsRules parse_utc limits t profile p positions c f k x share
      → RulesHold parse_utc limits t profile p positions c f k share
  unfolding correlated_count
  MeetsRules-RulesHold t profile p positions c f k x share e h = record {
    share_of_equity = h.share_of_equity;
    risk_per_trade = h.risk_per_trade;
    portfolio_heat = h.portfolio_heat;
    positions_left = h.positions_left;
    margin = h.margin;
    leverage = h.leverage;
    liquidation = IsFarFromLiquidation-is_too_close parse_utc limits t x _ e h.liquidation;
    funding =
        IsAffordable-funding_cost_rate parse_utc limits t f limits.max_funding_rate_abs h.funding;
    correlation = le→ltb limits.max_correlated_positions _ h.correlation;
    capability = IsSupported-capability_violation parse_utc limits t c h.supported;
  }

  is_configured-parts :
      (i : Inputs)
      → is_configured parse_utc limits i ≡ true
      → (lt_dec (dec 0) i.risk_profile.risk_pct_per_trade ≡ true)
        × (lt_dec (dec 0) i.risk_profile.heat_cap ≡ true)
        × (ltb_ℤ (pos 0) i.risk_profile.max_positions ≡ true)
        × (is_blank i.evaluated_at_utc ≡ false)
  unfolding is_configured
  is_configured-parts i h = ground (arith, h)

  parts-is_configured : (i : Inputs) → IsAdmissible i → is_configured parse_utc limits i ≡ true
  unfolding is_configured
  parts-is_configured i a =
      rw (a.positive_risk, a.positive_heat_cap, a.positive_positions, a.dated) refl

  -- A trade is approved only where it is admissible: the risk profile's risk per trade, heat cap and number of
  -- positions are positive; the evaluation's timestamp is not blank; every input was supplied; the engine is neither in a
  -- kill state nor stopped; the portfolio's, each position's, the funding's and the correlations' timestamp
  -- is at least 0 and at most `max_stale_data_seconds` before the evaluation; the equity is positive; and
  -- the trade meets the nine business rules, the exchange's capabilities among them.
  pub evaluate-IsAdmissible :
      (i : Inputs) (d : RiskDecision)
      → evaluate parse_utc limits i ≡ ok d
      → d.decision ≡ Decision.approved
      → IsAdmissible i
  unfolding pairs
  evaluate-IsAdmissible i d h a =
      let (risk, heat, many, dated) =
        is_configured-parts i (evaluate-is_configured parse_utc limits i d h) in
      let s = evaluate-PassesStages parse_utc limits i d h a in
      let same =
        timestamps-pairs i s.portfolio s.positions s.funding s.correlations s.has_portfolio
          s.has_positions s.has_funding s.has_correlations in
      let (fresh, others) =
        stale_data-nil parse_utc limits i.evaluated_at_utc
          (pairs s.portfolio s.positions s.funding s.correlations)
          (ap (stale_data parse_utc limits i.evaluated_at_utc) (sym same) ∙ s.fresh) in
      let (all, (of_funding, (of_correlations, _))) =
        positions-split i.evaluated_at_utc s.positions _ others in
      record {
        positive_risk = risk;
        positive_heat_cap = heat;
        positive_positions = many;
        dated = dated;
        state = s.state;
        portfolio = s.portfolio;
        positions = s.positions;
        exchange = s.exchange;
        funding = s.funding;
        correlations = s.correlations;
        liquidation_price = s.liquidation_price;
        share = s.share;
        has_state = s.has_state;
        has_portfolio = s.has_portfolio;
        has_positions = s.has_positions;
        has_exchange = s.has_exchange;
        has_funding = s.has_funding;
        has_correlations = s.has_correlations;
        has_liquidation_price = s.has_liquidation_price;
        running = runs-converse s.state s.not_blocked;
        fresh_portfolio = fresh;
        fresh_positions = all;
        fresh_funding = of_funding;
        fresh_correlations = of_correlations;
        solvent = s.solvent;
        rules =
            RulesHold-MeetsRules i.trade_request i.risk_profile s.portfolio s.positions s.exchange
              s.funding s.correlations s.liquidation_price s.share s.has_liquidation_price s.rules;
      }

  IsAdmissible-PassesStages : (i : Inputs) → IsAdmissible i → PassesStages parse_utc limits i
  unfolding pairs
  IsAdmissible-PassesStages i s =
      let same =
        timestamps-pairs i s.portfolio s.positions s.funding s.correlations s.has_portfolio
          s.has_positions s.has_funding s.has_correlations in
      let stamps : AllFresh parse_utc limits i.evaluated_at_utc
          (pairs s.portfolio s.positions s.funding s.correlations) =
        (
          s.fresh_portfolio,
          positions-join i.evaluated_at_utc s.positions _ s.fresh_positions
              (s.fresh_funding, (s.fresh_correlations, tt)),
        ) in
      record {
        state = s.state;
        portfolio = s.portfolio;
        positions = s.positions;
        exchange = s.exchange;
        funding = s.funding;
        correlations = s.correlations;
        liquidation_price = s.liquidation_price;
        share = s.share;
        has_state = s.has_state;
        has_portfolio = s.has_portfolio;
        has_positions = s.has_positions;
        has_exchange = s.has_exchange;
        has_funding = s.has_funding;
        has_correlations = s.has_correlations;
        has_liquidation_price = s.has_liquidation_price;
        not_blocked = runs s.state s.running;
        fresh =
            ap (stale_data parse_utc limits i.evaluated_at_utc) same
            ∙ AllFresh-stale_data parse_utc limits i.evaluated_at_utc
                (pairs s.portfolio s.positions s.funding s.correlations) stamps;
        solvent = s.solvent;
        rules =
            MeetsRules-RulesHold i.trade_request i.risk_profile s.portfolio s.positions s.exchange
              s.funding s.correlations s.liquidation_price s.share s.has_liquidation_price s.rules;
      }

  -- Every trade is approved for which the risk profile's risk per trade, heat cap and number of
  -- positions are positive; the evaluation's timestamp is not blank; every input was supplied; the
  -- engine is neither in a kill state nor stopped; the portfolio's, each position's, the funding's and
  -- the correlations' timestamp can be read and is at least 0 and at most `max_stale_data_seconds`
  -- before the evaluation; the equity is positive; and the nine business rules are met, the exchange's
  -- capabilities among them. The numbers are finite decimals, and no result leaves the exponent range of
  -- the decimal context.
  pub evaluate-approves :
      (i : Inputs)
      → IsAdmissible i
      → (d : RiskDecision) × (evaluate parse_utc limits i ≡ ok d) × (d.decision ≡ Decision.approved)
  evaluate-approves i a =
      PassesStages-evaluate parse_utc limits i (parts-is_configured i a)
        (IsAdmissible-PassesStages i a)
