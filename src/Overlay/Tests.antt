-- ===== src/Overlay/Tests.antt =====
-- An overlay after a drawdown of 2.5 %, and the theorems at it.
use stock_test.Base.{◌≡◌, true, false, none, some}
use stock_test.Float.{of_dec, of_ℕ, neg}
use stock_test.Float.Fixed.{ℤ, fixed_ops}
use stock_test.Drawdown.{DrawdownState}
use stock_test.ExecHealth.{should_enter_safe}
use stock_test.Overlay.{bullish}
use stock_test.Overlay.Sample.{overlay, inputs, root, closes}
use stock_test.Overlay.Decision.{check_market_regime}
use stock_test.Overlay.Evaluate.{evaluate, tail_of, corr_state, tracker_after}
use stock_test.Overlay.Chain.{all_clear, satellite_iff}
use stock_test.Overlay.Modes.{mode_of, mode_table}
use stock_test.Overlay.Limits.{
  reduced, regime_exposure, account_exposure, account_sizing, kmvi_sizing, regime_sizing,
  limits_table,
}

satellite_iff_example :
    (evaluate root closes inputs overlay).0.satellite_allowed ≡ all_clear root closes inputs overlay
satellite_iff_example = satellite_iff root closes inputs overlay

mode_table_example :
    ((evaluate root closes inputs overlay).0.mode
      ≡ mode_of
          (should_enter_safe overlay.exec_health).0.0
          (tail_of root closes inputs overlay).action)
    × ((evaluate root closes inputs overlay).1.current_mode
        ≡ mode_of
            (should_enter_safe overlay.exec_health).0.0
            (tail_of root closes inputs overlay).action)
mode_table_example = mode_table root closes inputs overlay

limits_table_example :
    ((evaluate root closes inputs overlay).0.max_exposure_pct
      ≡ reduced (corr_state root closes overlay) (
          regime_exposure (check_market_regime (some (bullish, false))).0 (
            account_exposure
              (should_enter_safe overlay.exec_health).0.0
              (tail_of root closes inputs overlay).action)))
    × ((evaluate root closes inputs overlay).0.sizing_multiplier
        ≡ regime_sizing (check_market_regime (some (bullish, false))).0 (
            kmvi_sizing none (
              account_sizing
                (should_enter_safe overlay.exec_health).0.0
                (tail_of root closes inputs overlay).action
                (tracker_after inputs overlay).last_state)))
limits_table_example = limits_table root closes inputs overlay

-- A drawdown of 2.5 % on a day that has lost 0.6 %
abbrev bad_day : DrawdownState ℤ
bad_day = record {
  peak_equity = of_ℕ 1000;
  current_equity = of_ℕ 975;
  drawdown_pct = of_dec 25 3;
  drawdown_abs = of_ℕ 25;
  daily_pnl = neg (of_ℕ 6);
  daily_pnl_pct = neg (of_dec 6 3);
  sizing_multiplier = of_dec 6 1;
  dd_tier = 3;
  is_safe_trigger = true;
  is_combined_safe = true;
  is_soft_dd = false;
  is_hard_dd = false;
  is_halt_trigger = false;
}
