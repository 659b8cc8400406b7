-- ===== src/Overlay/Evaluate.antt =====
-- `RiskOverlay.evaluate` (server/src/risk/risk_overlay.py) as the composition of its stages, and the
-- calls that read or force the state of the overlay.
use stock_test.Base.{ℕ, Bool, true, false, not, Option, none, some, List, [], ◌∷◌, if◌then◌else◌}
use stock_test.Float.{FloatOps}
use stock_test.Drawdown.{DrawdownState, DrawdownTracker, update}
use stock_test.ExecHealth.{should_enter_safe}
use stock_test.Correlation.{CorrelationState, guard_state}
use stock_test.PortfolioRisk.{
  PortfolioRiskManager, MarketCondition, normal, risky, update_equity, set_market_condition,
}
use stock_test.Reducer.{PositionReducer, can_expand_position}
use stock_test.Overlay.{RiskMode, Reason, RiskDecision, RiskOverlay, Inputs}
use stock_test.Overlay.Decision.{
  is_risk_off, is_blocking, check_market_regime, Tail, config_stage, drawdown_stage, soft_stage,
  reducer_stage, fresh_decision, system_stage, check_tail_risk, tail_stage, kmvi_stage,
  regime_stage, core_stage, correlation_stage, portfolio_stage,
}

-- The place of a mode in its enum, by which two are compared
abbrev pub mode_eq : RiskMode → RiskMode → Bool
mode_eq RiskMode.normal RiskMode.normal = true
mode_eq RiskMode.safe RiskMode.safe = true
mode_eq RiskMode.halt RiskMode.halt = true
mode_eq _ _ = false

-- The first reason, or "OK"
abbrev pub first : List Reason → Option Reason
first [] = none
first (r ∷ rs) = some r

module _ {F : Type 0} where
  -- The last stage: the reasons
  unfoldable pub finish : RiskDecision F → RiskDecision F
  finish d = record d { primary_reason = first d.all_reasons }

module _ {F : Type 0} ⦃fl : FloatOps F⦄ where
  -- The drawdown tracker after the check of the tail risk
  unfoldable pub tracker_after : Inputs F → RiskOverlay F → DrawdownTracker F
  tracker_after i o = elim i.current_equity [
    | none ↦ o.dd_tracker
    | some equity ↦ update i.dd_now equity o.dd_tracker
  ]

  -- The new state of the tracker, which only a call with an equity has
  unfoldable pub fresh_dd : Inputs F → RiskOverlay F → Option (DrawdownState F)
  fresh_dd i o = elim i.current_equity [
    | none ↦ none
    | some equity ↦ (update i.dd_now equity o.dd_tracker).last_state
  ]

  module _ (root : F → F) (closes : ℕ → ℕ → List F) where
    unfoldable pub corr_state : RiskOverlay F → Option (CorrelationState F)
    corr_state o = elim o.correlation_guard [
      | none ↦ none
      | some g ↦ some (guard_state root closes g.config)
    ]

    unfoldable pub tail_of : Inputs F → RiskOverlay F → Tail
    tail_of i o = check_tail_risk o.config (fresh_dd i o) (corr_state o)

    -- The market condition that the portfolio risk is left with
    unfoldable pub condition_of : Inputs F → RiskOverlay F → MarketCondition
    condition_of i o =
        let by_regime = if is_risk_off (check_market_regime i.btc).0 then risky else normal in
        elim (corr_state o) [
          | none ↦ by_regime
          | some g ↦ if is_blocking g.action then risky else by_regime
        ]

    unfoldable pub portfolio_after : Inputs F → RiskOverlay F → PortfolioRiskManager F
    portfolio_after i o = set_market_condition (condition_of i o) (elim i.current_equity [
      | none ↦ o.portfolio_risk
      | some equity ↦ update_equity equity o.portfolio_risk
    ])

    -- The reducer is asked only while it reduces.
    unfoldable pub reducer_after : Inputs F → RiskOverlay F → Bool × PositionReducer F
    reducer_after i o =
        if o.position_reducer.state.is_reducing
        then can_expand_position i.reduce_now o.position_reducer
        else (true, o.position_reducer)

    -- The first stages: the setting and the safety of the system
    unfoldable pub start : Inputs F → RiskOverlay F → RiskDecision F
    start i o =
        let ((unsafe, why), m) = should_enter_safe o.exec_health in
        system_stage (not unsafe) why (config_stage i.v3_enabled fresh_decision)

    -- The tail risk; the mode is not HALT before it.
    unfoldable pub tail_part : Inputs F → RiskOverlay F → RiskDecision F → RiskDecision F
    tail_part i o d =
        soft_stage (tail_stage (tail_of i o) (drawdown_stage (tracker_after i o).last_state d))

    -- The volatility index, the regime and the share of the core strategy
    unfoldable pub market_part : Inputs F → RiskOverlay F → RiskDecision F → RiskDecision F
    market_part i o d =
        let (r, fine) = check_market_regime i.btc in
        core_stage o.config (regime_stage o.config r fine (kmvi_stage o.last_kmvi d))

    -- The correlations, the reducer and the portfolio
    unfoldable pub book_part : Inputs F → RiskOverlay F → RiskDecision F → RiskDecision F
    book_part i o d = portfolio_stage i.check_symbol (portfolio_after i o) (
        reducer_stage o.position_reducer (reducer_after i o).0 (correlation_stage (corr_state o) d))

    -- The decision of `evaluate`
    unfoldable pub decide : Inputs F → RiskOverlay F → RiskDecision F
    decide i o = finish (book_part i o (market_part i o (tail_part i o (start i o))))

    unfoldable pub evaluate : Inputs F → RiskOverlay F → RiskDecision F × RiskOverlay F
    evaluate i o =
        let d = decide i o in
        let same = mode_eq d.mode o.current_mode in
        (
          d,
          record o {
            exec_health = (should_enter_safe o.exec_health).1;
            dd_tracker = tracker_after i o;
            correlation_guard = elim o.correlation_guard [
              | none ↦ none
              | some g ↦ some (record g { last_state = some (guard_state root closes g.config) })
            ];
            portfolio_risk = portfolio_after i o;
            position_reducer = (reducer_after i o).1;
            current_mode = d.mode;
            last_decision = some d;
            mode_change_time = if same then o.mode_change_time else some i.mode_now;
          },
        )
