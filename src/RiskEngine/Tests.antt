-- ===== src/RiskEngine/Tests.antt =====
-- An engine without troubles, and the theorems at it.
use Prim.Native.String.{String}
use stock_test.Base.{ℕ, ◌≡◌, Bool, false, none, some, is_some, []}
use stock_test.Float.{of_dec, of_ℕ, fzero, neg}
use stock_test.Float.Fixed.{ℤ, fixed_ops}
use stock_test.TradingMode.{TradingMode, safe}
use stock_test.RiskEngine.{RiskEngine, Limits, Cause, halt_cause, safe_cause}
use stock_test.RiskEngine.Actions.{check_all_conditions}
use stock_test.RiskEngine.Monitor.{mode_after_all, check_table}
use stock_test.Ledger

abbrev call : ℕ → TradingMode → String → ℕ → Bool × ℕ
call l mode reason w = (false, w)

abbrev text : Cause → String
text c = "cause"

abbrev limits : Limits ℤ
limits = record {
  daily_loss_limit_safe = neg (of_dec 10 3);
  daily_loss_limit_halt = neg (of_dec 15 3);
  weekly_loss_limit = neg (of_dec 5 2);
  max_order_failure_rate = of_dec 20 2;
  ws_latency_threshold = of_ℕ 2;
  ws_latency_duration = of_ℕ 10;
  ws_timeout_seconds = of_ℕ 30;
  max_ws_disconnect = 3;
  max_auth_failures = 3;
  max_reconcile_failures = 3;
  min_liquidation_distance = of_dec 25 3;
  max_gross_exposure = of_ℕ 2;
  max_symbol_exposure_core = of_dec 30 2;
  max_symbol_exposure_sat = of_dec 10 2;
}

abbrev engine : RiskEngine ℤ ℕ
engine = record {
  limits = limits;
  mode_manager = record { mode = safe; reason = "pause"; changed_at = 0; listeners = [] };
  ledger = some (Ledger.init 0 (of_ℕ 100));
  ws_last_message = none;
  ws_disconnect_count = 0;
  auth_failure_count = 0;
  last_reconcile_success = none;
  reconcile_failure_count = 3;
  order_events = [];
  ws_latency_events = [];
  ws_high_latency_start = none;
  exposure_info = record {
    gross_exposure = fzero;
    equity = fzero;
    gross_exposure_ratio = fzero;
    symbol_exposures = [];
  };
  satellite_disabled_by_weekly_loss = false;
}

-- Three failed reconciliations
check_table_example :
    (check_all_conditions call text 5 0 none engine 0).0.mode_manager.mode
    ≡ mode_after_all safe (is_some (halt_cause 0 engine)) (is_some (safe_cause 5 0 none engine).0)
check_table_example = check_table call text 5 0 none engine 0
