-- ===== src/Overlay/Limits.antt =====
-- Theorems on server/src/risk/risk_overlay.py: the limits of the exposure and of the sizes.
use stock_test.Base.{
  ◌≡◌, ◌∙◌, ap, Bool, true, false, Option, none, some, List, arith, if◌then◌else◌, ℕ,
}
use stock_test.Float.{FloatOps, of_dec, fzero, mul, fmin}
use stock_test.Drawdown.{DrawdownState}
use stock_test.ExecHealth.{should_enter_safe}
use stock_test.Correlation.{CorrelationState, GuardAction, reduce}
use stock_test.Kmvi.{KmviState}
use stock_test.Overlay.{
  TailAction, MarketRegime, risk_on, neutral, risk_off, RiskDecision, RiskOverlay, Inputs,
}
use stock_test.Overlay.Decision.{
  check_market_regime, config_stage, drawdown_stage, soft_stage, reducer_stage, system_stage,
  tail_stage, kmvi_stage, regime_stage, core_stage, correlation_stage, portfolio_stage,
}
use stock_test.Overlay.Evaluate.{
  finish, tracker_after, corr_state, tail_of, start, tail_part, market_part, book_part, decide,
  evaluate,
}

abbrev pub is_reduce : GuardAction → Bool
is_reduce reduce = true
is_reduce _ = false

module _ {F : Type 0} ⦃fl : FloatOps F⦄ where
  -- The exposure that the system and the tail risk leave
  abbrev pub account_exposure : Bool → TailAction → F
  account_exposure unsafe TailAction.halt = fzero
  account_exposure unsafe _ = if unsafe then fzero else of_dec 1 0

  -- The regime then sets the exposure anew, except for RISK_ON.
  abbrev pub regime_exposure : MarketRegime → F → F
  regime_exposure risk_on e = e
  regime_exposure neutral e = of_dec 7 1
  regime_exposure risk_off e = of_dec 3 1

  abbrev pub reduced : Option (CorrelationState F) → F → F
  reduced none e = e
  reduced (some g) e = if is_reduce g.action then fmin e (of_dec 3 1) else e

  -- The size that the system, the drawdown and the tail risk leave
  abbrev pub account_sizing : Bool → TailAction → Option (DrawdownState F) → F
  account_sizing unsafe TailAction.halt dd = fzero
  account_sizing unsafe _ none = if unsafe then fzero else of_dec 1 0
  account_sizing unsafe _ (some s) = s.sizing_multiplier

  abbrev pub kmvi_sizing : Option (KmviState F) → F → F
  kmvi_sizing none m = m
  kmvi_sizing (some k) m = mul m k.sizing_multiplier

  abbrev pub regime_sizing : MarketRegime → F → F
  regime_sizing neutral m = fmin m (of_dec 7 1)
  regime_sizing _ m = m

  module _ (root : F → F) (closes : ℕ → ℕ → List F) where
    start-limits :
        (i : Inputs F) (o : RiskOverlay F)
        → ((start root closes i o).max_exposure_pct
            ≡ (if (should_enter_safe o.exec_health).0.0 then fzero else of_dec 1 0))
          × ((start root closes i o).sizing_multiplier
              ≡ (if (should_enter_safe o.exec_health).0.0 then fzero else of_dec 1 0))
    unfolding start system_stage config_stage
    start-limits i o = ground arith

    tail-limits :
        (i : Inputs F) (o : RiskOverlay F) (d : RiskDecision F) (unsafe : Bool)
        → d.max_exposure_pct ≡ (if unsafe then fzero else of_dec 1 0)
        → d.sizing_multiplier ≡ (if unsafe then fzero else of_dec 1 0)
        → ((tail_part root closes i o d).max_exposure_pct
            ≡ account_exposure unsafe (tail_of root closes i o).action)
          × ((tail_part root closes i o d).sizing_multiplier
              ≡ account_sizing unsafe
                  (tail_of root closes i o).action
                  (tracker_after i o).last_state)
    unfolding tail_part soft_stage tail_stage drawdown_stage
    tail-limits i o d unsafe e f = ground arith

    later-limits :
        (i : Inputs F) (o : RiskOverlay F) (d : RiskDecision F)
        → ((book_part root closes i o (market_part root closes i o d)).max_exposure_pct
            ≡ reduced
                (corr_state root closes o)
                (regime_exposure (check_market_regime i.btc).0 d.max_exposure_pct))
          × ((book_part root closes i o (market_part root closes i o d)).sizing_multiplier
              ≡ regime_sizing
                  (check_market_regime i.btc).0
                  (kmvi_sizing o.last_kmvi d.sizing_multiplier))
    unfolding book_part portfolio_stage reducer_stage correlation_stage market_part core_stage
        regime_stage kmvi_stage
    later-limits i o d = ground arith

    -- The exposure of a decision is what the health of the execution and the tail risk leave, set
    -- anew by a regime other than RISK_ON, and lowered by a correlation that asks for it. Its size
    -- is 0 under HALT and otherwise that of the drawdown where one is known, whether or not the
    -- execution is healthy; the volatility index scales it and a neutral regime cuts it.
    pub limits_table :
        (i : Inputs F) (o : RiskOverlay F)
        → ((evaluate root closes i o).0.max_exposure_pct
            ≡ reduced (corr_state root closes o) (
                regime_exposure (check_market_regime i.btc).0 (
                  account_exposure
                    (should_enter_safe o.exec_health).0.0
                    (tail_of root closes i o).action)))
          × ((evaluate root closes i o).0.sizing_multiplier
              ≡ regime_sizing (check_market_regime i.btc).0 (
                  kmvi_sizing o.last_kmvi (
                    account_sizing
                      (should_enter_safe o.exec_health).0.0
                      (tail_of root closes i o).action
                      (tracker_after i o).last_state)))
    unfolding evaluate decide finish
    limits_table i o =
        let d = start root closes i o in
        let (a, b) = start-limits i o in
        let (x, y) = tail-limits i o d (should_enter_safe o.exec_health).0.0 a b in
        let (u, v) = later-limits i o (tail_part root closes i o d) in
        (
          u
              ∙ ap
                  (λ e.
                    reduced (corr_state root closes o)
                      (regime_exposure (check_market_regime i.btc).0 e))
                  x,
          v ∙ ap (λ m. regime_sizing (check_market_regime i.btc).0 (kmvi_sizing o.last_kmvi m)) y,
        )
