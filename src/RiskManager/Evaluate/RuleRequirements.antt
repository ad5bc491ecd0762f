-- ===== src/RiskManager/Evaluate/RuleRequirements.antt =====
-- What the business rules ask of a trade, said without the code's own helpers.
use turtle_qts_execution.Base.{
  ◌≤◌, ◌≡◌, refl, ◌⊎◌, inl, inr, true, false, Option, none, some, List, Text, ℤ, pos, ltb_ℤ, ok,
  arith, Option-cases, Bool-cases, keep, length, Decimal, lt_dec, le_dec, div_dec, add_dec, mul_dec,
  sub_dec, abs_dec, neg_dec,
}
use turtle_qts_execution.ExchangeAdapter.Models.{
  ExchangeCapabilities, OrderSide, OrderType, TimeInForce,
}
use turtle_qts_execution.PortfolioManager.Snapshot.{PortfolioSnapshot, equity}
use turtle_qts_execution.PositionManager.Snapshot.{PositionSnapshot}
use turtle_qts_execution.RiskManager.Models.{
  TradeRequest, FundingInfo, CorrelationInfo, CorrelationEntry, RiskManagerLimits,
  correlation_threshold,
}
use turtle_qts_execution.RiskManager.DataChecks.{RiskProfileParams}
use turtle_qts_execution.RiskManager.Rules.{
  capability_violation, order_type_violation, time_in_force_violation, funding_cost_rate,
  liquidation_buffer_of, is_too_close,
}

side-cases : (s : OrderSide) → (s ≡ OrderSide.buy) ⊎ (s ≡ OrderSide.sell)
side-cases OrderSide.buy = inl refl
side-cases OrderSide.sell = inr refl

-- The exchange can do what the order asks for.
pub record IsSupported (t : TradeRequest) (c : ExchangeCapabilities) : Type 0 where
  pub market : t.order_type ≡ OrderType.market → c.supports_market_orders ≡ true
  pub limit : t.order_type ≡ OrderType.limit → c.supports_limit_orders ≡ true
  pub reduce_only : t.reduce_only ≡ true → c.supports_reduce_only ≡ true
  pub ioc : t.time_in_force ≡ TimeInForce.ioc → c.supports_ioc ≡ true
  pub fok : t.time_in_force ≡ TimeInForce.fok → c.supports_fok ≡ true
  pub post_only : t.time_in_force ≡ TimeInForce.post_only → c.supports_post_only ≡ true

-- Between the stop and the liquidation price, on the side of the trade, there is this much at least.
abbrev pub IsFarFromLiquidation : TradeRequest → Decimal → Decimal → Type 0
IsFarFromLiquidation t liquidation least =
    (t.side ≡ OrderSide.buy → lt_dec (sub_dec t.stop_price liquidation) least ≡ false)
    × (t.side ≡ OrderSide.sell → lt_dec (sub_dec liquidation t.stop_price) least ≡ false)

-- A buyer pays the rate and a seller receives it; neither pays more than the limit.
abbrev pub IsAffordable : TradeRequest → Decimal → Decimal → Type 0
IsAffordable t rate most =
    (t.side ≡ OrderSide.buy → lt_dec most rate ≡ false)
    × (t.side ≡ OrderSide.sell → lt_dec most (neg_dec rate) ≡ false)

-- The entries whose correlation is `CORRELATION_THRESHOLD` at least, up or down.
abbrev pub strongly_correlated : List CorrelationEntry → List CorrelationEntry
strongly_correlated entries =
    keep (λ e. le_dec correlation_threshold (abs_dec (CorrelationEntry.correlation e))) entries

module _ (parse_utc : Text → Option ℤ) (limits : RiskManagerLimits) where
  pub IsFarFromLiquidation-is_too_close :
      (t : TradeRequest) (x least : Decimal)
      → t.estimated_liquidation_price ≡ some x
      → IsFarFromLiquidation t x least
      → is_too_close parse_utc limits (liquidation_buffer_of parse_utc limits t) least ≡ false
  unfolding is_too_close liquidation_buffer_of
  IsFarFromLiquidation-is_too_close t x least e h = elim (side-cases t.side) [
    | inl s ↦ rw (e, s) (h.0 s)
    | inr s ↦ rw (e, s) (h.1 s)
  ]

  pub is_too_close-IsFarFromLiquidation :
      (t : TradeRequest) (x least : Decimal)
      → t.estimated_liquidation_price ≡ some x
      → is_too_close parse_utc limits (liquidation_buffer_of parse_utc limits t) least ≡ false
      → IsFarFromLiquidation t x least
  unfolding is_too_close liquidation_buffer_of
  is_too_close-IsFarFromLiquidation t x least e h = (λ s. rw (e, s) at h, λ s. rw (e, s) at h)

  pub IsAffordable-funding_cost_rate :
      (t : TradeRequest) (f : FundingInfo) (most : Decimal)
      → IsAffordable t f.funding_rate most
      → lt_dec most (funding_cost_rate parse_utc limits t f) ≡ false
  unfolding funding_cost_rate
  IsAffordable-funding_cost_rate t f most h = elim (side-cases t.side) [
    | inl s ↦ rw s (h.0 s)
    | inr s ↦ rw s (h.1 s)
  ]

  pub funding_cost_rate-IsAffordable :
      (t : TradeRequest) (f : FundingInfo) (most : Decimal)
      → lt_dec most (funding_cost_rate parse_utc limits t f) ≡ false
      → IsAffordable t f.funding_rate most
  unfolding funding_cost_rate
  funding_cost_rate-IsAffordable t f most h = (λ s. rw s at h, λ s. rw s at h)

  supported_type :
      (o : OrderType) (c : ExchangeCapabilities)
      → order_type_violation parse_utc limits o c ≡ none
      → (o ≡ OrderType.market → c.supports_market_orders ≡ true)
        × (o ≡ OrderType.limit → c.supports_limit_orders ≡ true)
  unfolding order_type_violation
  supported_type OrderType.market c h = (λ e. ground (arith, h), λ e. cc e)
  supported_type OrderType.limit c h = (λ e. cc e, λ e. ground (arith, h))

  unsupported_type :
      (o : OrderType) (c : ExchangeCapabilities)
      → (o ≡ OrderType.market → c.supports_market_orders ≡ true)
      → (o ≡ OrderType.limit → c.supports_limit_orders ≡ true)
      → order_type_violation parse_utc limits o c ≡ none
  unfolding order_type_violation
  unsupported_type OrderType.market c m l = rw (m refl) refl
  unsupported_type OrderType.limit c m l = rw (l refl) refl

  Lives : TimeInForce → ExchangeCapabilities → Type 0
  Lives x c =
      (x ≡ TimeInForce.ioc → c.supports_ioc ≡ true)
      × (x ≡ TimeInForce.fok → c.supports_fok ≡ true)
      × (x ≡ TimeInForce.post_only → c.supports_post_only ≡ true)

  supported_time :
      (x : TimeInForce) (c : ExchangeCapabilities)
      → time_in_force_violation parse_utc limits x c ≡ none
      → Lives x c
  unfolding time_in_force_violation Lives
  supported_time TimeInForce.gtc c h = (λ e. cc e, λ e. cc e, λ e. cc e)
  supported_time TimeInForce.ioc c h = (λ e. ground (arith, h), λ e. cc e, λ e. cc e)
  supported_time TimeInForce.fok c h = (λ e. cc e, λ e. ground (arith, h), λ e. cc e)
  supported_time TimeInForce.post_only c h = (λ e. cc e, λ e. cc e, λ e. ground (arith, h))

  unsupported_time :
      (x : TimeInForce) (c : ExchangeCapabilities)
      → Lives x c
      → time_in_force_violation parse_utc limits x c ≡ none
  unfolding time_in_force_violation Lives
  unsupported_time TimeInForce.gtc c h = refl
  unsupported_time TimeInForce.ioc c h = rw (h.0 refl) refl
  unsupported_time TimeInForce.fok c h = rw (h.1 refl) refl
  unsupported_time TimeInForce.post_only c h = rw (h.2 refl) refl

  violation-stages :
      (t : TradeRequest) (c : ExchangeCapabilities)
      → capability_violation parse_utc limits t c ≡ none
      → (order_type_violation parse_utc limits t.order_type c ≡ none)
        × (t.reduce_only ≡ true → c.supports_reduce_only ≡ true)
        × (time_in_force_violation parse_utc limits t.time_in_force c ≡ none)
  unfolding capability_violation
  violation-stages t c h =
      elim (Option-cases (order_type_violation parse_utc limits t.order_type c)) [
        | inr (text, o) ↦ ground (arith, h, o)
        | inl o ↦ elim (Bool-cases t.reduce_only) [
          | inr r ↦ (o, λ e. cc (e, r), ground (arith, h, o, r))
          | inl r ↦ elim (Bool-cases c.supports_reduce_only) [
            | inl s ↦ (o, λ e. s, ground (arith, h, o, r, s))
            | inr s ↦ ground (arith, h, o, r, s)
          ]
        ]
      ]

  pub capability_violation-IsSupported :
      (t : TradeRequest) (c : ExchangeCapabilities)
      → capability_violation parse_utc limits t c ≡ none
      → IsSupported t c
  unfolding Lives
  capability_violation-IsSupported t c h =
      let (o, r, x) = violation-stages t c h in
      let (market, limit) = supported_type t.order_type c o in
      let (ioc, fok, post_only) = supported_time t.time_in_force c x in
      record {
        market = market;
        limit = limit;
        reduce_only = r;
        ioc = ioc;
        fok = fok;
        post_only = post_only;
      }

  pub IsSupported-capability_violation :
      (t : TradeRequest) (c : ExchangeCapabilities)
      → IsSupported t c
      → capability_violation parse_utc limits t c ≡ none
  unfolding capability_violation Lives
  IsSupported-capability_violation t c h =
      let o = unsupported_type t.order_type c h.market h.limit in
      let x = unsupported_time t.time_in_force c (h.ioc, h.fok, h.post_only) in
      elim (Bool-cases t.reduce_only) [
        | inl r ↦ ground (arith, o, r, x, h.reduce_only r)
        | inr r ↦ ground (arith, o, r, x)
      ]

  -- Every business rule is met.
  pub record MeetsRules (t : TradeRequest) (profile : RiskProfileParams) (p : PortfolioSnapshot)
      (positions : List PositionSnapshot) (c : ExchangeCapabilities) (f : FundingInfo)
      (k : CorrelationInfo) (liquidation_price share : Decimal) : Type 0 where
    pub share_of_equity : div_dec t.proposed_risk_amount (equity p) ≡ ok share
    pub risk_per_trade : lt_dec profile.risk_pct_per_trade share ≡ false
    pub portfolio_heat : lt_dec profile.heat_cap (add_dec p.heat share) ≡ false
    pub positions_left : ltb_ℤ (pos (length positions)) profile.max_positions ≡ true
    pub margin : lt_dec p.available_cash t.proposed_margin_required ≡ false
    pub leverage : lt_dec limits.max_leverage t.leverage ≡ false
    pub liquidation :
        IsFarFromLiquidation t liquidation_price
          (mul_dec limits.min_liquidation_buffer_pct (abs_dec (sub_dec t.entry_price t.stop_price)))
    pub funding : IsAffordable t f.funding_rate limits.max_funding_rate_abs
    pub correlation : length (strongly_correlated k.entries) ≤ limits.max_correlated_positions
    pub supported : IsSupported t c
