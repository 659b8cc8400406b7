-- ===== src/ExecHealth/Tests.antt =====
-- The theorem on server/src/risk/exec_health.py at a window of two.
use stock_test.Base.{◌≡◌, ◌||◌, false, List, [], ◌∷◌, keep_last}
use stock_test.Float.{of_ℕ, of_dec, fzero, fle, fabs}
use stock_test.Float.Fixed.{ℤ, fixed_ops}
use stock_test.ExecHealth.{HealthLimits, init, mean_or_zero, failure_rate, should_enter_safe}
use stock_test.ExecHealth.Window.{
  Call, heard, ordered, reconciled, asked, latencies_of, results_of, drift_of, run, run-enters_safe,
}

abbrev limits : HealthLimits ℤ
limits = record {
  exec_ws_latency_warn_ms = of_ℕ 500;
  exec_ws_latency_safe_ms = of_ℕ 2000;
  exec_order_failure_rate_max = of_dec 3 1;
  exec_reconcile_drift_max = of_dec 5 2;
  exec_health_window = 2;
}

abbrev calls : List (Call ℤ)
calls =
    heard (of_ℕ 100)
    ∷ ordered 1 false (of_ℕ 50)
    ∷ heard (of_ℕ 3000)
    ∷ asked
    ∷ heard (of_ℕ 2000)
    ∷ reconciled 2 (of_dec 1 2)
    ∷ []

run-enters_safe_example : (should_enter_safe (run calls (init limits))).0.0 ≡ (
    fle limits.exec_ws_latency_safe_ms (mean_or_zero (keep_last 2 (latencies_of calls)))
    || (fle limits.exec_order_failure_rate_max (failure_rate (keep_last 2 (results_of calls)))
        || fle limits.exec_reconcile_drift_max (fabs (drift_of fzero calls))))
run-enters_safe_example = run-enters_safe calls limits
