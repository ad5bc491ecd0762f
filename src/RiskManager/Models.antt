-- ===== src/RiskManager/Models.antt =====
-- risk_manager/models.py: a proposed trade, the limits, and the decision.
use turtle_qts_execution.Base.{
  ℕ, Bool, ◌&&◌, Option, List, Text, Decimal, dec, lt_dec, le_dec, ltb, ℤ, negsuc,
}
use turtle_qts_execution.ExchangeAdapter.Models.{OrderSide, OrderType, TimeInForce, Symbol}

-- `CORRELATION_THRESHOLD = Decimal("0.5")`
abbrev pub correlation_threshold : Decimal
correlation_threshold = record { units = ℤ.pos 5; scale = 1 }

pub record TradeRequest : Type 0 where
  pub symbol : Symbol
  pub side : OrderSide
  pub order_type : OrderType
  pub time_in_force : TimeInForce
  pub reduce_only : Bool
  pub quantity : Decimal
  pub entry_price : Decimal
  pub stop_price : Decimal
  pub proposed_risk_amount : Decimal
  pub proposed_notional : Decimal
  pub proposed_margin_required : Decimal
  pub leverage : Decimal
  pub estimated_liquidation_price : Option Decimal

-- What `__post_init__` accepts.
unfoldable pub is_valid_trade_request : TradeRequest → Bool
is_valid_trade_request t =
    lt_dec (dec 0) t.quantity
    && lt_dec (dec 0) t.entry_price
    && lt_dec (dec 0) t.stop_price
    && lt_dec (dec 0) t.proposed_notional
    && lt_dec (dec 0) t.proposed_margin_required
    && lt_dec (dec 0) t.leverage
    && lt_dec (dec 0) t.proposed_risk_amount

pub record FundingInfo : Type 0 where
  pub symbol : Symbol
  pub funding_rate : Decimal
  pub as_of_utc : Text

pub record CorrelationEntry : Type 0 where
  pub symbol : Symbol
  pub correlation : Decimal

-- What `__post_init__` accepts: a correlation in [-1, 1].
unfoldable pub is_valid_correlation : CorrelationEntry → Bool
is_valid_correlation e =
    le_dec (record { units = negsuc 0; scale = 0 }) e.correlation && le_dec e.correlation (dec 1)

pub record CorrelationInfo : Type 0 where
  pub entries : List CorrelationEntry
  pub as_of_utc : Text

pub record RiskManagerLimits : Type 0 where
  pub max_leverage : Decimal
  pub min_liquidation_buffer_pct : Decimal
  pub max_funding_rate_abs : Decimal
  pub max_correlated_positions : ℕ
  pub max_stale_data_seconds : ℕ

-- What `__post_init__` accepts.
unfoldable pub is_valid_limits : RiskManagerLimits → Bool
is_valid_limits l =
    lt_dec (dec 0) l.max_leverage
    && le_dec (dec 0) l.min_liquidation_buffer_pct
    && le_dec (dec 0) l.max_funding_rate_abs
    && ltb 0 l.max_stale_data_seconds

pub data Decision : Type 0 where
  approved rejected blocked fail_safe : Decision

pub data ReasonCode : Type 0 where
  fine kill_switch_soft kill_switch_hard kill_switch_emergency engine_stopped : ReasonCode
  risk_per_trade_exceeded portfolio_heat_exceeded max_positions_exceeded insufficient_margin :
      ReasonCode
  leverage_exceeded liquidation_too_close funding_rate_too_high correlation_limit_exceeded :
      ReasonCode
  exchange_capability_unsupported non_positive_equity missing_required_data stale_data : ReasonCode

-- The text of `violated_limits`, with its numbers kept as numbers.
pub data Violation : Type 0 where
  note : Text → Violation
  stale : Text → ℤ → Violation
  compared : Text → Decimal → Decimal → Violation
  bounded : Text → Option Decimal → Decimal → Violation
  named : ReasonCode → Violation
  counted : Text → ℕ → ℕ → Violation

pub record RiskDecision : Type 0 where
  pub decision : Decision
  pub reason_codes : List ReasonCode
  pub violated_limits : List Violation
  pub calculated_exposure : Option Decimal
  pub calculated_heat : Option Decimal
  pub leverage : Option Decimal
  pub liquidation_buffer : Option Decimal
  pub funding_estimate : Option Decimal
  pub timestamp_utc : Text
  pub audit_metadata : Text × Text
