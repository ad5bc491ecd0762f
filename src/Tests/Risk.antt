-- ===== src/Tests/Risk.antt =====
-- Concrete decisions of the risk manager.
use turtle_qts_execution.Base.{
  ◌≡◌, refl, true, false, none, some, Option, [], ◌∷◌, Text, codes, ok, ℤ, pos, dec, lt_dec, ◌*ℤ◌,
  ◌-ℤ◌, add_dec, sub_dec, rounded, ◌+ℤ◌, round28, half_even, excess, abs_dec, div_dec, mul_dec,
  neg_dec, quotient, is_blank,
}
use turtle_qts_execution.ExchangeAdapter.Models.{
  OrderSide, OrderType, TimeInForce, ExchangeCapabilities,
}
use turtle_qts_execution.ExecutionStateMachine.States.{State, states}
use turtle_qts_execution.PortfolioManager.Snapshot.{PortfolioSnapshot, equity, wallet_balance}
use turtle_qts_execution.RiskManager.Models.{
  RiskManagerLimits, RiskDecision, Decision, TradeRequest, ReasonCode, Violation,
}
use turtle_qts_execution.RiskManager.DataChecks.{
  Inputs, data_problems, stale_data, missing_data, equity_problem, age, is_stale, missing,
  timestamps_to_check, blocking_reason,
}
use turtle_qts_execution.RiskManager.Rules.{
  figures, capability_problem, capability_violation, correlated_count, figures_of,
  funding_cost_rate, is_too_close, liquidation_buffer_of, numeric_rules, order_type_violation,
  rule_problems, time_in_force_violation,
}
use turtle_qts_execution.RiskManager.Evaluate.{evaluate, business_rules, judged, is_configured}
use turtle_qts_execution.RiskManager.Evaluate.Admissible.{
  IsAdmissible, evaluate-IsAdmissible, evaluate-approves,
}
use turtle_qts_execution.RiskManager.Evaluate.Requirements.{Halts}
use turtle_qts_execution.RiskManager.Evaluate.Precedence.{evaluate-is_blocked}

-- Every timestamp of these tests is read as the same moment.
abbrev parse_utc : Text → Option ℤ
parse_utc _ = some (pos 0)

abbrev limits : RiskManagerLimits
limits = record {
  max_leverage = dec 3;
  min_liquidation_buffer_pct = dec 1;
  max_funding_rate_abs = record { units = pos 1; scale = 3 };
  max_correlated_positions = 2;
  max_stale_data_seconds = 60;
}

abbrev exchange : ExchangeCapabilities
exchange = record {
  supports_reduce_only = true;
  supports_post_only = true;
  supports_ioc = true;
  supports_fok = true;
  supports_market_orders = true;
  supports_limit_orders = true;
  supports_trigger_orders = true;
  supports_partial_fill_notifications = true;
  supports_funding_rate = true;
  supports_cross_margin = true;
  supports_isolated_margin = true;
  extra = [];
}

-- 10000 deposited, nothing traded.
abbrev portfolio : PortfolioSnapshot
portfolio = record {
  available_cash = dec 10000;
  reserved_margin = dec 0;
  used_margin = dec 0;
  unrealized_pnl = dec 0;
  realized_pnl_cumulative = dec 0;
  funding_cumulative = dec 0;
  fees_cumulative = dec 0;
  deposits_cumulative = dec 10000;
  withdrawals_cumulative = dec 0;
  exposure = dec 0;
  heat = dec 0;
  open_position_ids = [];
  updated_at_utc = codes "t";
}

-- Buy one unit at 100 with the stop at 90 and the liquidation at 50.
abbrev trade : TradeRequest
trade = record {
  symbol = record { value = codes "BTC" };
  side = OrderSide.buy;
  order_type = OrderType.limit;
  time_in_force = TimeInForce.gtc;
  reduce_only = false;
  quantity = dec 1;
  entry_price = dec 100;
  stop_price = dec 90;
  proposed_risk_amount = dec 10;
  proposed_notional = dec 100;
  proposed_margin_required = dec 50;
  leverage = dec 2;
  estimated_liquidation_price = some (dec 50);
}

abbrev inputs : Inputs
inputs = record {
  trade_request = trade;
  risk_profile = record {
    risk_pct_per_trade = record { units = pos 1; scale = 2 };
    max_positions = pos 5;
    sizing_mode = codes "fixed";
    heat_cap = record { units = pos 6; scale = 2 };
    ruin_threshold = record { units = pos 5; scale = 1 };
  };
  evaluated_at_utc = codes "t";
  kill_switch_state = some State.ready;
  portfolio_snapshot = some portfolio;
  open_positions = some [];
  capabilities = some exchange;
  funding_info = some (record {
    symbol = record { value = codes "BTC" };
    funding_rate = dec 0;
    as_of_utc = codes "t";
  });
  correlation_info = some (record { entries = []; as_of_utc = codes "t" });
}

-- The same trade under a soft kill, with nothing else known.
abbrev killed : Inputs
killed = record inputs { kill_switch_state = some State.soft_kill; portfolio_snapshot = none }

configured : is_configured parse_utc limits inputs ≡ true
unfolding is_configured lt_dec ◌*ℤ◌ is_blank
configured = refl

killed-lem :
    evaluate parse_utc limits killed
    ≡ ok (record {
      decision = Decision.blocked;
      reason_codes = ReasonCode.kill_switch_soft ∷ [];
      violated_limits = Violation.named ReasonCode.kill_switch_soft ∷ [];
      calculated_exposure = none;
      calculated_heat = none;
      leverage = none;
      liquidation_buffer = none;
      funding_estimate = none;
      timestamp_utc = codes "t";
      audit_metadata = (codes "kill_switch_state", codes "SOFT_KILL");
    })
unfolding evaluate is_configured lt_dec ◌*ℤ◌ is_blank blocking_reason states
killed-lem = refl

abbrev approval : RiskDecision
approval = record {
  decision = Decision.approved;
  reason_codes = ReasonCode.fine ∷ [];
  violated_limits = [];
  calculated_exposure = some (dec 100);
  calculated_heat = some (record { units = pos 10000000000000000000000000000000; scale = 34 });
  leverage = some (dec 2);
  liquidation_buffer = some (dec 40);
  funding_estimate = some (dec 0);
  timestamp_utc = codes "t";
  audit_metadata = (codes "stage", codes "approved");
}

approval-lem : evaluate parse_utc limits inputs ≡ ok approval
unfolding evaluate is_configured lt_dec ◌*ℤ◌ is_blank blocking_reason states timestamps_to_check
    ◌-ℤ◌ add_dec sub_dec rounded ◌+ℤ◌ round28 half_even excess abs_dec div_dec mul_dec neg_dec
    quotient data_problems stale_data missing_data equity_problem business_rules figures age
    capability_problem capability_violation correlated_count figures_of funding_cost_rate is_stale
    is_too_close judged liquidation_buffer_of missing numeric_rules order_type_violation
    rule_problems time_in_force_violation equity wallet_balance
approval-lem = refl

evaluate-IsAdmissible_example : IsAdmissible parse_utc limits inputs
evaluate-IsAdmissible_example =
    evaluate-IsAdmissible parse_utc limits inputs approval approval-lem refl

inputs-IsAdmissible : IsAdmissible parse_utc limits inputs
inputs-IsAdmissible = evaluate-IsAdmissible parse_utc limits inputs approval approval-lem refl

evaluate-approves_example :
    (d : RiskDecision) × (evaluate parse_utc limits inputs ≡ ok d)
    × (d.decision ≡ Decision.approved)
evaluate-approves_example = evaluate-approves parse_utc limits inputs inputs-IsAdmissible

abbrev refusal : RiskDecision
refusal = record {
  decision = Decision.blocked;
  reason_codes = ReasonCode.kill_switch_soft ∷ [];
  violated_limits = Violation.named ReasonCode.kill_switch_soft ∷ [];
  calculated_exposure = none;
  calculated_heat = none;
  leverage = none;
  liquidation_buffer = none;
  funding_estimate = none;
  timestamp_utc = codes "t";
  audit_metadata = (codes "kill_switch_state", codes "SOFT_KILL");
}

evaluate-is_blocked_example :
    (refusal.decision ≡ Decision.blocked → Halts (some State.soft_kill))
    × (Halts (some State.soft_kill) → refusal.decision ≡ Decision.blocked)
evaluate-is_blocked_example = evaluate-is_blocked parse_utc limits killed refusal killed-lem
