-- ===== src/RiskManager/DataChecks.antt =====
-- risk_manager/manager.py: the inputs of a decision, and what is missing, stale or senseless in them.
-- `parse_utc` stands for `datetime.fromisoformat`, in microseconds since the epoch, none where it raises
-- ValueError. A float of the risk profile is the Decimal of the same value, since Python compares the two
-- exactly.
use turtle_qts_execution.Base.{
  ◌*◌, Bool, ◌||◌, Option, none, some, List, [], ◌∷◌, ◌++◌, map, Text, codes, if◌then◌else◌, ℤ, pos,
  ◌-ℤ◌, ltb_ℤ, Decimal, dec, le_dec, Outcome, ok, ◌>>=◌, or_raise, value_error,
}
use turtle_qts_execution.ExchangeAdapter.Models.{ExchangeCapabilities}
use turtle_qts_execution.ExecutionStateMachine.States.{State}
use turtle_qts_execution.PositionManager.Snapshot.{PositionSnapshot}
use turtle_qts_execution.PortfolioManager.Snapshot.{PortfolioSnapshot, equity}
use turtle_qts_execution.RiskManager.Models.{
  TradeRequest, FundingInfo, CorrelationInfo, RiskManagerLimits, ReasonCode, Violation, note, stale,
}

-- config/schema.py
pub record RiskProfileParams : Type 0 where
  pub risk_pct_per_trade : Decimal
  pub max_positions : ℤ
  pub sizing_mode : Text
  pub heat_cap : Decimal
  pub ruin_threshold : Decimal

-- The keyword arguments of `evaluate`.
pub record Inputs : Type 0 where
  pub trade_request : TradeRequest
  pub risk_profile : RiskProfileParams
  pub evaluated_at_utc : Text
  pub kill_switch_state : Option State
  pub portfolio_snapshot : Option PortfolioSnapshot
  pub open_positions : Option (List PositionSnapshot)
  pub capabilities : Option ExchangeCapabilities
  pub funding_info : Option FundingInfo
  pub correlation_info : Option CorrelationInfo

-- `_BLOCKING_STATES`
unfoldable pub blocking_reason : State → Option ReasonCode
blocking_reason State.soft_kill = some ReasonCode.kill_switch_soft
blocking_reason State.hard_kill = some ReasonCode.kill_switch_hard
blocking_reason State.emergency_kill = some ReasonCode.kill_switch_emergency
blocking_reason State.stopped = some ReasonCode.engine_stopped
blocking_reason _ = none

-- The reasons against a trade, each with the entry that it adds to `violated_limits`.
abbrev pub Problems : Type 0
Problems = List (ReasonCode × Violation)

unfoldable pub missing {ℓ} : {A : Type ℓ} → Option A → Text → Problems
missing (some a) label = []
missing none label = (ReasonCode.missing_required_data, note label) ∷ []

unfoldable pub missing_data : Inputs → Problems
unfolding missing
missing_data i =
    missing i.kill_switch_state (codes "kill_switch_state:missing")
    ++ (missing i.portfolio_snapshot (codes "portfolio_snapshot:missing")
        ++ (missing i.open_positions (codes "open_positions:missing")
            ++ (missing i.capabilities (codes "capabilities:missing")
                ++ (missing i.funding_info (codes "funding_info:missing")
                    ++ (missing i.correlation_info (codes "correlation_info:missing")
                        ++ missing (TradeRequest.estimated_liquidation_price i.trade_request)
                            (codes "trade_request.estimated_liquidation_price:missing"))))))

-- The list that an optional argument gives, empty without it.
abbrev pub listed {ℓ κ} : {A : Type ℓ} {B : Type κ} → (A → List B) → Option A → List B
listed f none = []
listed f (some a) = f a

unfoldable pub timestamps_to_check : Inputs → List (Text × Text)
timestamps_to_check i =
    listed (λ p. (codes "portfolio_snapshot", PortfolioSnapshot.updated_at_utc p) ∷ [])
      i.portfolio_snapshot
    ++ (listed
          (map (λ p. (
            codes "position:" ++ PositionSnapshot.position_id p,
            PositionSnapshot.updated_at_utc p,
          )))
          i.open_positions
        ++ (listed (λ f. (codes "funding_info", FundingInfo.as_of_utc f) ∷ []) i.funding_info
            ++ listed (λ c. (codes "correlation_info", CorrelationInfo.as_of_utc c) ∷ [])
                i.correlation_info))

module _ (parse_utc : Text → Option ℤ) (limits : RiskManagerLimits) where
  -- `_age_seconds`, in microseconds.
  unfoldable pub age : Text → Text → Outcome ℤ
  age evaluated_at_utc data_at_utc = do
    now ← or_raise (parse_utc evaluated_at_utc) value_error
    at ← or_raise (parse_utc data_at_utc) value_error
    ok (now -ℤ at)

  -- `age < 0 or age > max_stale_data_seconds`
  unfoldable pub is_stale : ℤ → Bool
  is_stale a = ltb_ℤ a (pos 0) || ltb_ℤ (pos (limits.max_stale_data_seconds * 1000000)) a

  unfoldable pub stale_data : Text → List (Text × Text) → Outcome Problems
  unfolding age is_stale
  stale_data evaluated_at_utc [] = ok []
  stale_data evaluated_at_utc ((label, ts) ∷ pairs) = do
    a ← age evaluated_at_utc ts
    rest ← stale_data evaluated_at_utc pairs
    ok (if is_stale a then (ReasonCode.stale_data, stale label a) ∷ rest else rest)

  unfoldable pub equity_problem : Option PortfolioSnapshot → Problems
  equity_problem none = []
  equity_problem (some p) =
      if le_dec (equity p) (dec 0)
      then (ReasonCode.non_positive_equity, note (codes "portfolio_snapshot.equity:non_positive"))
        ∷ []
      else []

  unfoldable pub data_problems : Inputs → Outcome Problems
  data_problems i = do
    late ← stale_data i.evaluated_at_utc (timestamps_to_check i)
    ok (missing_data i ++ (late ++ equity_problem i.portfolio_snapshot))
