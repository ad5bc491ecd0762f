-- ===== src/RiskManager/Evaluate/Approval.antt =====
-- The stages that an approved trade has passed.
use turtle_qts_execution.Base.{
  ◌≡◌, refl, Bool, true, false, inl, inr, Option, none, some, List, [], ◌∷◌, ◌++◌, Text, ℤ, pos,
  ltb_ℤ, ltb, Outcome, ok, err, bind-ok, ◌∙◌, ap, sym, arith, Option-cases, dec, Decimal, lt_dec,
  div_dec, add_dec, mul_dec, sub_dec, abs_dec, length,
}
use turtle_qts_execution.ExecutionStateMachine.States.{State}
use turtle_qts_execution.ExchangeAdapter.Models.{ExchangeCapabilities}
use turtle_qts_execution.PortfolioManager.Snapshot.{PortfolioSnapshot, equity}
use turtle_qts_execution.PositionManager.Snapshot.{PositionSnapshot}
use turtle_qts_execution.RiskManager.Models.{
  TradeRequest, FundingInfo, CorrelationInfo, RiskManagerLimits, RiskDecision, ReasonCode, Decision,
  Violation,
}
use turtle_qts_execution.RiskManager.DataChecks.{
  Inputs, Problems, RiskProfileParams, data_problems, missing_data, missing, stale_data,
  equity_problem, timestamps_to_check, blocking_reason,
}
use turtle_qts_execution.RiskManager.Rules.{
  Figures, figures, figures_of, rule_problems, numeric_rules, collect, capability_problem,
  capability_violation, correlated_count, funding_cost_rate, liquidation_buffer_of, is_too_close,
}
use turtle_qts_execution.RiskManager.Evaluate.{evaluate}
use turtle_qts_execution.RiskManager.Evaluate.Precedence.{evaluate-stages, business_rules-approved}

append-nil-inv {ℓ} : {A : Type ℓ} (xs ys : List A) → xs ++ ys ≡ [] → (xs ≡ []) × (ys ≡ [])
append-nil-inv [] ys h = (refl, h)
append-nil-inv (x ∷ xs) ys h = cc

missing-nil {ℓ} :
    {A : Type ℓ} (a : Option A) (label : Text) → missing a label ≡ [] → (x : A) × (a ≡ some x)
unfolding missing
missing-nil none label h = cc
missing-nil (some x) label h = (x, refl)

module _ (parse_utc : Text → Option ℤ) (limits : RiskManagerLimits) where
  AllHold : List (Bool × ReasonCode × Violation) → Type 0
  AllHold [] = Unit
  AllHold ((violated, r, v) ∷ rules) = (violated ≡ false) × AllHold rules

  collect-nil :
      (rules : List (Bool × ReasonCode × Violation))
      → collect parse_utc limits rules ≡ []
      → AllHold rules
  unfolding AllHold
  collect-nil [] h = tt
  collect-nil ((true, r, v) ∷ rules) h = cc
  collect-nil ((false, r, v) ∷ rules) h = (refl, collect-nil rules h)

  capability_problem-nil :
      (t : TradeRequest) (c : ExchangeCapabilities)
      → capability_problem parse_utc limits t c ≡ []
      → capability_violation parse_utc limits t c ≡ none
  unfolding capability_problem
  capability_problem-nil t c h = elim (Option-cases (capability_violation parse_utc limits t c)) [
    | inl e ↦ e
    | inr (x, e) ↦ ground (arith, h, e)
  ]

  pub equity_problem-nil :
      (p : PortfolioSnapshot)
      → equity_problem parse_utc limits (some p) ≡ []
      → lt_dec (dec 0) (equity p) ≡ true
  unfolding equity_problem
  equity_problem-nil p h = ground (arith, h)

  -- Every business rule holds.
  pub record RulesHold (t : TradeRequest) (profile : RiskProfileParams) (p : PortfolioSnapshot)
      (positions : List PositionSnapshot) (c : ExchangeCapabilities) (f : FundingInfo)
      (k : CorrelationInfo) (share : Decimal) : Type 0 where
    pub share_of_equity : div_dec t.proposed_risk_amount (equity p) ≡ ok share
    pub risk_per_trade : lt_dec profile.risk_pct_per_trade share ≡ false
    pub portfolio_heat : lt_dec profile.heat_cap (add_dec p.heat share) ≡ false
    pub positions_left : ltb_ℤ (pos (length positions)) profile.max_positions ≡ true
    pub margin : lt_dec p.available_cash t.proposed_margin_required ≡ false
    pub leverage : lt_dec limits.max_leverage t.leverage ≡ false
    pub liquidation :
        is_too_close parse_utc limits
          (liquidation_buffer_of parse_utc limits t)
          (mul_dec limits.min_liquidation_buffer_pct (abs_dec (sub_dec t.entry_price t.stop_price)))
        ≡ false
    pub funding :
        lt_dec limits.max_funding_rate_abs (funding_cost_rate parse_utc limits t f) ≡ false
    pub correlation :
        ltb limits.max_correlated_positions (correlated_count parse_utc limits k.entries) ≡ false
    pub capability : capability_violation parse_utc limits t c ≡ none

  rule_problems-nil :
      (t : TradeRequest) (profile : RiskProfileParams) (p : PortfolioSnapshot)
      (positions : List PositionSnapshot) (c : ExchangeCapabilities) (f : FundingInfo)
      (k : CorrelationInfo) (share : Decimal)
      → div_dec t.proposed_risk_amount (equity p) ≡ ok share
      → rule_problems parse_utc limits t profile p positions c k.entries
          (figures_of parse_utc limits t p f share)
        ≡ []
      → RulesHold t profile p positions c f k share
  unfolding rule_problems numeric_rules figures_of AllHold
  rule_problems-nil t profile p positions c f k share e h =
      let rules =
        numeric_rules parse_utc limits t profile p positions k.entries
          (figures_of parse_utc limits t p f share) in
      let inv =
        append-nil-inv (collect parse_utc limits rules) (capability_problem parse_utc limits t c)
          h in
      let all = collect-nil rules inv.0 in
      record {
        share_of_equity = e;
        risk_per_trade = all.0;
        portfolio_heat = all.1.0;
        positions_left = ground (arith, all.1.1.0);
        margin = all.1.1.1.0;
        leverage = all.1.1.1.1.0;
        liquidation = all.1.1.1.1.1.0;
        funding = all.1.1.1.1.1.1.0;
        correlation = all.1.1.1.1.1.1.1.0;
        capability = capability_problem-nil t c inv.1;
      }

  -- Every stage of the decision is passed, by the code's own tests.
  pub record PassesStages (i : Inputs) : Type 0 where
    pub state : State
    pub portfolio : PortfolioSnapshot
    pub positions : List PositionSnapshot
    pub exchange : ExchangeCapabilities
    pub funding : FundingInfo
    pub correlations : CorrelationInfo
    pub liquidation_price : Decimal
    pub share : Decimal
    pub has_state : i.kill_switch_state ≡ some state
    pub has_portfolio : i.portfolio_snapshot ≡ some portfolio
    pub has_positions : i.open_positions ≡ some positions
    pub has_exchange : i.capabilities ≡ some exchange
    pub has_funding : i.funding_info ≡ some funding
    pub has_correlations : i.correlation_info ≡ some correlations
    pub has_liquidation_price :
        TradeRequest.estimated_liquidation_price i.trade_request ≡ some liquidation_price
    pub not_blocked : blocking_reason state ≡ none
    pub fresh : stale_data parse_utc limits i.evaluated_at_utc (timestamps_to_check i) ≡ ok []
    pub solvent : lt_dec (dec 0) (equity portfolio) ≡ true
    pub rules :
        RulesHold i.trade_request i.risk_profile portfolio positions exchange funding correlations
          share

  pub data_problems-nil :
      (i : Inputs)
      → data_problems parse_utc limits i ≡ ok []
      → (missing_data i ≡ [])
        × (stale_data parse_utc limits i.evaluated_at_utc (timestamps_to_check i) ≡ ok [])
        × (equity_problem parse_utc limits i.portfolio_snapshot ≡ [])
  unfolding data_problems
  data_problems-nil i q =
      let (late, e, ps) =
        bind-ok (stale_data parse_utc limits i.evaluated_at_utc (timestamps_to_check i)) _ [] q in
      let own = equity_problem parse_utc limits i.portfolio_snapshot in
      let (m, rest) = append-nil-inv (missing_data i) (late ++ own) (ap (or_nothing []) ps) in
      let (l, s) = append-nil-inv late own rest in (m, e ∙ ap ok l, s)
    where
      or_nothing : Problems → Outcome Problems → Problems
      or_nothing ps (ok qs) = qs
      or_nothing ps (err x) = ps

  pub missing_data-nil :
      (i : Inputs)
      → missing_data i ≡ []
      → ((s : State) × (i.kill_switch_state ≡ some s))
        × ((p : PortfolioSnapshot) × (i.portfolio_snapshot ≡ some p))
        × ((ps : List PositionSnapshot) × (i.open_positions ≡ some ps))
        × ((c : ExchangeCapabilities) × (i.capabilities ≡ some c))
        × ((f : FundingInfo) × (i.funding_info ≡ some f))
        × ((k : CorrelationInfo) × (i.correlation_info ≡ some k))
        × ((x : Decimal) × (TradeRequest.estimated_liquidation_price i.trade_request ≡ some x))
  unfolding missing_data
  missing_data-nil i h =
      let (a, ra) = append-nil-inv (missing i.kill_switch_state _) _ h in
      let (b, rb) = append-nil-inv (missing i.portfolio_snapshot _) _ ra in
      let (c, rc) = append-nil-inv (missing i.open_positions _) _ rb in
      let (d, rd) = append-nil-inv (missing i.capabilities _) _ rc in
      let (e, re) = append-nil-inv (missing i.funding_info _) _ rd in
      let (f, rf) = append-nil-inv (missing i.correlation_info _) _ re in
      (
        missing-nil _ _ a,
        missing-nil _ _ b,
        missing-nil _ _ c,
        missing-nil _ _ d,
        missing-nil _ _ e,
        missing-nil _ _ f,
        missing-nil _ _ rf,
      )

  figures-ok :
      (t : TradeRequest) (p : PortfolioSnapshot) (f : FundingInfo) (g : Figures parse_utc limits)
      → figures parse_utc limits t p f ≡ ok g
      → (share : Decimal) × (div_dec t.proposed_risk_amount (equity p) ≡ ok share)
        × (ok (figures_of parse_utc limits t p f share) ≡ ok g)
  unfolding figures
  figures-ok t p f g e = bind-ok (div_dec t.proposed_risk_amount (equity p)) _ g e

  pub evaluate-PassesStages :
      (i : Inputs) (d : RiskDecision)
      → evaluate parse_utc limits i ≡ ok d
      → d.decision ≡ Decision.approved
      → PassesStages i
  evaluate-PassesStages i d h a =
      let (b, q, last) = evaluate-stages parse_utc limits i d h a in
      let (m, fresh, own) = data_problems-nil i q in
      let ((s, es), (p, ep), (ps, eps), (c, ec), (f, ef), (k, ek), (x, ex)) =
        missing_data-nil i m in
      let (g, eg, rs) = business_rules-approved parse_utc limits i p ps c f k d (cc) a in
      let (share, er, w) = figures-ok i.trade_request p f g eg in
      record {
        state = s;
        portfolio = p;
        positions = ps;
        exchange = c;
        funding = f;
        correlations = k;
        liquidation_price = x;
        share = share;
        has_state = es;
        has_portfolio = ep;
        has_positions = eps;
        has_exchange = ec;
        has_funding = ef;
        has_correlations = ek;
        has_liquidation_price = ex;
        not_blocked = ground (arith, b, es);
        fresh = fresh;
        solvent = equity_problem-nil p (ap (equity_problem parse_utc limits) (sym ep) ∙ own);
        rules = rule_problems-nil i.trade_request i.risk_profile p ps c f k share er cc;
      }
