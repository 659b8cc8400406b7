-- ===== src/Overlay/Chain.antt =====
-- Theorems on server/src/risk/risk_overlay.py: the chain of checks before an entry.
use stock_test.Base.{ℕ, ◌≡◌, refl, Bool, true, false, not, ◌&&◌, Option, none, some, List, arith}
use stock_test.Float.{FloatOps}
use stock_test.Drawdown.{DrawdownState}
use stock_test.ExecHealth.{should_enter_safe}
use stock_test.Correlation.{CorrelationState}
use stock_test.Kmvi.{KmviState}
use stock_test.PortfolioRisk.{can_open_position}
use stock_test.Overlay.{RiskDecision, RiskOverlay, Inputs}
use stock_test.Overlay.Decision.{
  is_ok, is_risk_off, is_blocking, check_market_regime, config_stage, drawdown_stage, soft_stage,
  reducer_stage, system_stage, tail_stage, kmvi_stage, regime_stage, core_stage, correlation_stage,
  portfolio_stage, can_open_new,
}
use stock_test.Overlay.Evaluate.{
  finish, tracker_after, corr_state, tail_of, portfolio_after, reducer_after, start, tail_part,
  market_part, book_part, decide, evaluate,
}

module _ {F : Type 0} ⦃fl : FloatOps F⦄ where
  -- A soft drawdown that is not a hard one
  abbrev pub softly_down : Option (DrawdownState F) → Bool
  softly_down none = false
  softly_down (some s) = s.is_soft_dd && not s.is_hard_dd

  abbrev pub kmvi_open : Option (KmviState F) → Bool
  kmvi_open none = true
  kmvi_open (some k) = k.new_entry_allowed && k.micro_scalper_allowed

  abbrev pub corr_blocks : Option (CorrelationState F) → Bool
  corr_blocks none = false
  corr_blocks (some g) = is_blocking g.action

  module _ (root : F → F) (closes : ℕ → ℕ → List F) where
    -- The checks that all have to be passed
    abbrev pub all_clear : Inputs F → RiskOverlay F → Bool
    all_clear i o =
        i.v3_enabled
        && (not (should_enter_safe o.exec_health).0.0
            && (is_ok (tail_of root closes i o).action
                && (not (softly_down (tracker_after i o).last_state)
                    && (kmvi_open o.last_kmvi
                        && (not (is_risk_off (check_market_regime i.btc).0)
                            && (not (corr_blocks (corr_state root closes o))
                                && (not (
                                      o.position_reducer.state.is_reducing
                                      && not (reducer_after root closes i o).0)
                                    && can_open_new (
                                        can_open_position i.check_symbol
                                          (portfolio_after root closes i o)))))))))

    tail-satellite :
        (i : Inputs F) (o : RiskOverlay F) (d : RiskDecision F)
        → d.is_soft_dd ≡ false
        → (tail_part root closes i o d).satellite_allowed ≡ (
            d.satellite_allowed
            && (is_ok (tail_of root closes i o).action
                && not (softly_down (tracker_after i o).last_state)))
    unfolding tail_part soft_stage tail_stage drawdown_stage
    tail-satellite i o d h = ground arith

    market-satellite :
        (i : Inputs F) (o : RiskOverlay F) (d : RiskDecision F)
        → (market_part root closes i o d).satellite_allowed ≡ (
            d.satellite_allowed
            && (kmvi_open o.last_kmvi && not (is_risk_off (check_market_regime i.btc).0)))
    unfolding market_part core_stage regime_stage kmvi_stage
    market-satellite i o d = ground arith

    book-satellite :
        (i : Inputs F) (o : RiskOverlay F) (d : RiskDecision F)
        → (book_part root closes i o d).satellite_allowed ≡ (
            d.satellite_allowed
            && (not (corr_blocks (corr_state root closes o))
                && (not (
                      o.position_reducer.state.is_reducing && not (reducer_after root closes i o).0)
                    && can_open_new
                        (can_open_position i.check_symbol (portfolio_after root closes i o)))))
    unfolding book_part portfolio_stage reducer_stage correlation_stage
    book-satellite i o d = ground arith

    start-satellite :
        (i : Inputs F) (o : RiskOverlay F)
        → (start root closes i o).satellite_allowed
          ≡ (i.v3_enabled && not (should_enter_safe o.exec_health).0.0)
    unfolding start system_stage config_stage
    start-satellite i o = ground arith

    -- New satellite entries are allowed exactly if every check is passed: the setting is on, the
    -- execution is healthy, there is no tail risk and no soft drawdown, the volatility index allows
    -- them, the market is not risk-off, the correlations do not block, the reducer does not hold
    -- still, and the portfolio has room.
    pub satellite_iff :
        (i : Inputs F) (o : RiskOverlay F)
        → (evaluate root closes i o).0.satellite_allowed ≡ all_clear i o
    unfolding evaluate decide finish start system_stage config_stage
    satellite_iff i o = ground (
      arith,
      start-satellite i o,
      tail-satellite i o (start root closes i o) refl,
      market-satellite i o (tail_part root closes i o (start root closes i o)),
      book-satellite i o
          (market_part root closes i o (tail_part root closes i o (start root closes i o))),
    )
