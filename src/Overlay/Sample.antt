-- ===== src/Overlay/Sample.antt =====
-- An overlay of server/src/risk/risk_overlay.py after a drawdown of 2.5 %, for tests.
use stock_test.Base.{ℕ, true, false, none, some, List, []}
use stock_test.Float.{of_dec, of_ℕ, neg}
use stock_test.Float.Fixed.{ℤ, fixed_ops}
use stock_test.Drawdown.{DrawdownState, default_config}
use stock_test.Drawdown
use stock_test.ExecHealth.{should_enter_safe}
use stock_test.ExecHealth
use stock_test.PortfolioRisk.{normal}
use stock_test.Reducer.{fresh_state}
use stock_test.Overlay.{RiskMode, bullish, RiskOverlay, OverlayConfig, Inputs}

abbrev pub config : OverlayConfig ℤ
config = record {
  daily_loss_safe = neg (of_dec 1 2);
  daily_loss_halt = neg (of_dec 15 3);
  risk_dd_safe_combined_threshold = of_dec 1 2;
  core_allocation_min = of_dec 30 2;
  core_allocation_default = of_dec 50 2;
  core_allocation_max = of_dec 60 2;
  hard_dd_gradual_close_enabled = true;
}

abbrev pub overlay : RiskOverlay ℤ
overlay = record {
  config = config;
  exec_health = ExecHealth.init (record {
    exec_ws_latency_warn_ms = of_ℕ 500;
    exec_ws_latency_safe_ms = of_ℕ 2000;
    exec_order_failure_rate_max = of_dec 3 1;
    exec_reconcile_drift_max = of_dec 5 2;
    exec_health_window = 20;
  });
  dd_tracker = Drawdown.init default_config;
  correlation_guard = none;
  portfolio_risk = record {
    config = record {
      risk_per_trade = of_dec 3 3;
      max_risk_per_trade = of_dec 5 3;
      total_risk_limit_normal = of_dec 15 3;
      total_risk_limit_risky = of_dec 8 3;
      max_concurrent_positions = 5;
    };
    position_risks = [];
    market_condition = normal;
    equity = of_ℕ 1000;
  };
  position_reducer = record {
    config = record {
      reduce_rate_risk_off = of_dec 40 2;
      reduce_rate_corr_shock_min = of_dec 30 2;
      reduce_rate_corr_shock_max = of_dec 60 2;
      hard_dd_gradual_close_enabled = true;
      hard_dd_phase1_reduce_pct = of_dec 50 2;
      reduce_stay_duration_minutes = 60;
    };
    state = fresh_state;
    history = [];
  };
  last_kmvi = none;
  current_mode = RiskMode.normal;
  last_decision = none;
  mode_change_time = none;
}

abbrev pub inputs : Inputs ℤ
inputs = record {
  dd_now = 1;
  reduce_now = 2;
  mode_now = 3;
  v3_enabled = true;
  current_equity = some (of_ℕ 975);
  btc = some (bullish, false);
  check_symbol = 0;
}

abbrev pub root : ℤ → ℤ
root x = x

abbrev pub closes : ℕ → ℕ → List ℤ
closes s n = []
