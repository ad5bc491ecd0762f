-- ===== src/RiskManager/Evaluate/Precedence.antt =====
-- The order of the four stages: which decision `evaluate` gives, and that it gives one.
use turtle_qts_execution.Base.{
  ◌≡◌, refl, sym, ap, ◌∙◌, Bool, true, false, inl, inr, Option, none, some, List, [], ◌∷◌, Text, ℤ,
  ok, bind-ok, arith, Bool-cases, Option-cases, Outcome-cases, is_some,
}
use turtle_qts_execution.ExchangeAdapter.Models.{ExchangeCapabilities}
use turtle_qts_execution.PortfolioManager.Snapshot.{PortfolioSnapshot}
use turtle_qts_execution.PositionManager.Snapshot.{PositionSnapshot}
use turtle_qts_execution.RiskManager.Models.{
  TradeRequest, FundingInfo, CorrelationInfo, RiskManagerLimits, RiskDecision, Decision,
}
use turtle_qts_execution.RiskManager.DataChecks.{Inputs, Problems, data_problems, blocking_reason}
use turtle_qts_execution.ExecutionStateMachine.States.{State}
use turtle_qts_execution.RiskManager.Evaluate.Requirements.{
  Halts, blocking_reason-Halts, Halts-blocking_reason,
}
use turtle_qts_execution.RiskManager.Rules.{Figures, figures, rule_problems}
use turtle_qts_execution.RiskManager.Evaluate.{
  business_rules, judged, is_configured, blocking, evaluate,
}

abbrev pub is_blocked : Decision → Bool
is_blocked Decision.blocked = true
is_blocked _ = false

is_blocked-blocked : (d : Decision) → is_blocked d ≡ true → d ≡ Decision.blocked
is_blocked-blocked Decision.blocked h = refl
is_blocked-blocked Decision.approved h = cc h
is_blocked-blocked Decision.rejected h = cc h
is_blocked-blocked Decision.fail_safe h = cc h

module _ (parse_utc : Text → Option ℤ) (limits : RiskManagerLimits) where
  judged-approved :
      (t : TradeRequest) (at : Text) (g : Figures parse_utc limits) (ps : Problems)
      (d : RiskDecision)
      → ok (judged parse_utc limits t at g ps) ≡ ok d
      → d.decision ≡ Decision.approved
      → ps ≡ []
  unfolding judged
  judged-approved t at g [] d h a = refl
  judged-approved t at g (p ∷ ps) d h a = ground (arith, h, a)

  pub evaluate-is_configured :
      (i : Inputs) (d : RiskDecision)
      → evaluate parse_utc limits i ≡ ok d
      → is_configured parse_utc limits i ≡ true
  unfolding evaluate
  evaluate-is_configured i d h = elim (Bool-cases (is_configured parse_utc limits i)) [
    | inl e ↦ e
    | inr e ↦ ground (arith, h, e)
  ]

  -- What an approval means stage by stage.
  pub evaluate-stages :
      (i : Inputs) (d : RiskDecision)
      → evaluate parse_utc limits i ≡ ok d
      → d.decision ≡ Decision.approved
      → (blocking parse_utc limits i.kill_switch_state ≡ none)
        × (data_problems parse_utc limits i ≡ ok [])
        × (business_rules parse_utc limits i i.portfolio_snapshot i.open_positions i.capabilities
              i.funding_info i.correlation_info
            ≡ ok d)
  unfolding evaluate
  evaluate-stages i d h a = elim (Bool-cases (is_configured parse_utc limits i)) [
    | inr e ↦ ground (arith, h, e)
    | inl e ↦ elim (Option-cases (blocking parse_utc limits i.kill_switch_state)) [
      | inr (r, b) ↦ ground (arith, h, a, e, b)
      | inl b ↦ elim (Outcome-cases (data_problems parse_utc limits i)) [
        | inr (x, q) ↦ ground (arith, h, e, b, q)
        | inl (p ∷ ps, q) ↦ ground (arith, h, a, e, b, q)
        | inl ([], q) ↦ (b, q, ground (arith, h, e, b, q))
      ]
    ]
  ]

  -- The figures and the rules behind an approval in the last stage.
  pub business_rules-approved :
      (i : Inputs) (p : PortfolioSnapshot) (positions : List PositionSnapshot)
      (c : ExchangeCapabilities) (f : FundingInfo) (k : CorrelationInfo) (d : RiskDecision)
      → business_rules parse_utc limits i (some p) (some positions) (some c) (some f) (some k)
        ≡ ok d
      → d.decision ≡ Decision.approved
      → (g : Figures parse_utc limits) × (figures parse_utc limits i.trade_request p f ≡ ok g)
        × (rule_problems parse_utc limits i.trade_request i.risk_profile p positions c
              (CorrelationInfo.entries k)
              g
            ≡ [])
  unfolding business_rules
  business_rules-approved i p positions c f k d h a =
      let ps =
        rule_problems parse_utc limits i.trade_request i.risk_profile p positions c
          (CorrelationInfo.entries k) in
      let (g, e, q) =
        bind-ok (figures parse_utc limits i.trade_request p f)
          (λ g. ok (judged parse_utc limits i.trade_request i.evaluated_at_utc g (ps g))) d h in
      (g, e, judged-approved i.trade_request i.evaluated_at_utc g (ps g) d q a)

  business_rules-is_blocked :
      (i : Inputs) (p : Option PortfolioSnapshot) (positions : Option (List PositionSnapshot))
      (c : Option ExchangeCapabilities) (f : Option FundingInfo) (k : Option CorrelationInfo)
      (d : RiskDecision)
      → business_rules parse_utc limits i p positions c f k ≡ ok d
      → is_blocked d.decision ≡ false
  unfolding business_rules judged
  business_rules-is_blocked i p positions c f k d h = ground (arith, h)

  -- A decision is BLOCKED exactly where the code's table has a reason for the kill switch state.
  decision-is_blocked :
      (i : Inputs) (d : RiskDecision)
      → evaluate parse_utc limits i ≡ ok d
      → is_blocked d.decision ≡ is_some (blocking parse_utc limits i.kill_switch_state)
  unfolding evaluate
  decision-is_blocked i d h = elim (Bool-cases (is_configured parse_utc limits i)) [
    | inr e ↦ ground (arith, h, e)
    | inl e ↦ elim (Option-cases (blocking parse_utc limits i.kill_switch_state)) [
      | inr (r, b) ↦ ground (arith, h, e, b)
      | inl b ↦ elim (Outcome-cases (data_problems parse_utc limits i)) [
        | inr (x, q) ↦ ground (arith, h, e, b, q)
        | inl (p ∷ ps, q) ↦ ground (arith, h, e, b, q)
        | inl ([], q) ↦ last (ground (arith, h, e, b, q)) ∙ ap is_some (sym b)
      ]
    ]
  ]
    where
      last :
          business_rules parse_utc limits i i.portfolio_snapshot i.open_positions i.capabilities
              i.funding_info i.correlation_info
            ≡ ok d
          → is_blocked d.decision ≡ false
      last =
          business_rules-is_blocked i i.portfolio_snapshot i.open_positions i.capabilities
            i.funding_info i.correlation_info d

  is_some-blocking : (k : Option State) → is_some (blocking parse_utc limits k) ≡ true → Halts k
  is_some-blocking none h = cc h
  is_some-blocking (some s) h = elim (Option-cases (blocking_reason s)) [
    | inl e ↦ cc (e, h)
    | inr (r, e) ↦ blocking_reason-Halts s r e
  ]

  Halts-blocking : (k : Option State) → Halts k → is_some (blocking parse_utc limits k) ≡ true
  Halts-blocking none h = absurd (ground (arith, h))
  Halts-blocking (some s) h = let (r, e) = Halts-blocking_reason s h in rw e refl

  -- A decision that `evaluate` gives is BLOCKED where the kill switch state is supplied and is SOFT_KILL,
  -- HARD_KILL, EMERGENCY_KILL or STOPPED, and only there, whatever the other inputs are.
  pub evaluate-is_blocked :
      (i : Inputs) (d : RiskDecision)
      → evaluate parse_utc limits i ≡ ok d
      → (d.decision ≡ Decision.blocked → Halts i.kill_switch_state)
        × (Halts i.kill_switch_state → d.decision ≡ Decision.blocked)
  evaluate-is_blocked i d h =
      let same = decision-is_blocked i d h in
      (
        λ b. is_some-blocking i.kill_switch_state (sym same ∙ ap is_blocked b),
        λ k. is_blocked-blocked d.decision (same ∙ Halts-blocking i.kill_switch_state k),
      )
