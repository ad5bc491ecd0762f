-- ===== src/RiskManager/Evaluate.antt =====
-- risk_manager/manager.py: the decision on a proposed trade, in four stages.
pub mod Requirements
pub mod RuleRequirements
pub mod Precedence
pub mod Approval
pub mod Completeness
pub mod Admissible
use turtle_qts_execution.Base.{
  ℕ, ◌*◌, Bool, true, false, not, ◌&&◌, ◌||◌, Option, none, some, List, [], ◌∷◌, ◌++◌, map, Text,
  codes, is_blank, length, leb, ltb, if◌then◌else◌, keep, ℤ, pos, ◌-ℤ◌, ltb_ℤ, Decimal, dec,
  add_dec, sub_dec, mul_dec, div_dec, neg_dec, abs_dec, lt_dec, le_dec, Outcome, ok, err, ◌>>=◌,
  or_raise, value_error, attribute_error, risk_manager_configuration,
}
use turtle_qts_execution.ExchangeAdapter.Models.{
  OrderSide, OrderType, TimeInForce, ExchangeCapabilities,
}
use turtle_qts_execution.ExecutionStateMachine.States.{State, states}
use turtle_qts_execution.PositionManager.Snapshot.{PositionSnapshot}
use turtle_qts_execution.PortfolioManager.Snapshot.{PortfolioSnapshot, equity}
use turtle_qts_execution.RiskManager.Models.{
  TradeRequest, FundingInfo, CorrelationInfo, CorrelationEntry, RiskManagerLimits, RiskDecision,
  ReasonCode, Decision, Violation, note, stale, compared, bounded, counted, named,
  correlation_threshold,
}
use turtle_qts_execution.RiskManager.DataChecks.{
  RiskProfileParams, Inputs, blocking_reason, Problems, missing, missing_data, listed,
  timestamps_to_check, age, is_stale, stale_data, equity_problem, data_problems,
}
use turtle_qts_execution.RiskManager.Rules.{
  collect, liquidation_buffer_of, is_too_close, funding_cost_rate, correlated_count,
  order_type_violation, time_in_force_violation, capability_violation, capability_problem, Figures,
  figures_of, figures, numeric_rules, rule_problems,
}

module _ (parse_utc : Text → Option ℤ) (limits : RiskManagerLimits) where
  abbrev pub kill_state_value : Option State → Text
  kill_state_value none = []
  kill_state_value (some s) = states.value s

  abbrev pub reasons : Problems → List ReasonCode
  reasons ps = map (λ p. p.0) ps

  abbrev pub violations : Problems → List Violation
  violations ps = map (λ p. p.1) ps

  -- The decisions of the first two stages, which report no figures.
  abbrev pub early : Decision → Problems → Option Decimal → Text → (Text × Text) → RiskDecision
  early d ps leverage at audit = record {
    decision = d;
    reason_codes = reasons ps;
    violated_limits = violations ps;
    calculated_exposure = none;
    calculated_heat = none;
    leverage = leverage;
    liquidation_buffer = none;
    funding_estimate = none;
    timestamp_utc = at;
    audit_metadata = audit;
  }

  -- The last two stages: approved where no business rule is violated.
  unfoldable pub judged : TradeRequest → Text → Figures parse_utc limits → Problems → RiskDecision
  judged t at g ps = record {
    decision = elim ps [ [] ↦ Decision.approved | _ ∷ _ ↦ Decision.rejected ];
    reason_codes = elim ps [ [] ↦ ReasonCode.fine ∷ [] | p ∷ rest ↦ reasons (p ∷ rest) ];
    violated_limits = violations ps;
    calculated_exposure = some g.calculated_exposure;
    calculated_heat = some g.calculated_heat;
    leverage = some t.leverage;
    liquidation_buffer = g.liquidation_buffer;
    funding_estimate = some g.funding_estimate;
    timestamp_utc = at;
    audit_metadata =
        (codes "stage", elim ps [ [] ↦ codes "approved" | _ ∷ _ ↦ codes "business_rules" ]);
  }

  -- The checks of `evaluate` on its own configuration.
  unfoldable pub is_configured : Inputs → Bool
  is_configured i =
      lt_dec (dec 0) (RiskProfileParams.risk_pct_per_trade i.risk_profile)
      && (lt_dec (dec 0) (RiskProfileParams.heat_cap i.risk_profile)
          && (ltb_ℤ (pos 0) (RiskProfileParams.max_positions i.risk_profile)
              && not (is_blank i.evaluated_at_utc)))

  abbrev pub blocking : Option State → Option ReasonCode
  blocking none = none
  blocking (some s) = blocking_reason s

  -- The third and fourth stages. The last case does not arise: the second stage has found every input.
  unfoldable pub business_rules :
      Inputs
      → Option PortfolioSnapshot
      → Option (List PositionSnapshot)
      → Option ExchangeCapabilities
      → Option FundingInfo
      → Option CorrelationInfo
      → Outcome RiskDecision
  business_rules i (some p) (some positions) (some c) (some f) (some k) = do
    g ← figures parse_utc limits i.trade_request p f
    ok (
        judged i.trade_request i.evaluated_at_utc g (
          rule_problems parse_utc limits i.trade_request i.risk_profile p positions c
            (CorrelationInfo.entries k) g))
  business_rules i _ _ _ _ _ = err attribute_error

  -- `evaluate`
  unfoldable pub evaluate : Inputs → Outcome RiskDecision
  evaluate i = elim (is_configured i) [
    | false ↦ err risk_manager_configuration
    | true ↦ elim (blocking i.kill_switch_state) [
      | some reason ↦ ok (
          early Decision.blocked ((reason, named reason) ∷ []) none i.evaluated_at_utc
            (codes "kill_switch_state", kill_state_value i.kill_switch_state))
      | none ↦ data_problems parse_utc limits i >>= (λ ps. elim ps [
        | p ∷ rest ↦ ok (
            early Decision.fail_safe (p ∷ rest) (some (TradeRequest.leverage i.trade_request))
              i.evaluated_at_utc (codes "stage", codes "data_verification"))
        | [] ↦
            business_rules i i.portfolio_snapshot i.open_positions i.capabilities i.funding_info
              i.correlation_info
      ])
    ]
  ]
