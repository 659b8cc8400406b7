-- ===== src/Executor/Tests.antt =====
-- An exchange that takes every order and never says more of it, and the theorems at it.
use Prim.Native.String.{String}
use stock_test.Base.{if◌then◌else◌, ℕ, ◌+◌, ◌≡◌, refl, Bool, true, false, none, some, []}
use stock_test.Float.{of_dec, of_ℕ, fzero, neg}
use stock_test.Float.Fixed.{ℤ, fixed_ops}
use stock_test.Order.{
  Order, sent, filled, rejected, buy, sell, OrderSide, market, limit, crash_recovery, mark_sent,
  mark_acked, mark_filled, transition_to, valid_transitions,
}
use stock_test.Order
use stock_test.ExecHealth.{record_order_result}
use stock_test.ExecHealth
use stock_test.TradingMode.{TradingMode, can_open_new_position}
use stock_test.TradingMode
use stock_test.RiskEngine.{Cause}
use stock_test.Executor.{
  OrderResult, World, OrderPolicy, low, high, missing_attribute, ok, raised, Exec, Settings,
}
use stock_test.Executor.Place.{
  execute_ioc, execute_with_policy, do_sent, do_acked, do_filled, settle_ioc, settle_filled,
  note_slippage,
}
use stock_test.Executor.Submit.{Desk, succeeded, submit_order}
use stock_test.Executor.Hedge.{submit_hedge_pair}
use stock_test.Executor.Maker.{maker_never_succeeds, HasFill}
use stock_test.Executor.Success.{accepted_is_rejected, execute-HasFill, submit_never_sends, blocked}
use stock_test.Executor.Pairs.{pair_never_sends}

abbrev taken : OrderResult ℤ
taken = record {
  success = true;
  exchange_order_id = some "x";
  status = sent;
  filled_qty = fzero;
  avg_price = fzero;
}

-- The state of the outside counts the readings of the clock.
abbrev silent : World ℤ ℕ
silent = record {
  now = λ x. (x, x + 1);
  elapsed = λ x. (of_ℕ 5, x);
  new_id = λ x. ("id", x);
  place_order = λ spot symbol side kind qty price post x. (ok taken, x);
  cancel_order = λ spot symbol id x. (ok true, x);
  get_order_status = λ spot symbol id x. (ok (some filled), x);
  get_order = λ spot symbol id x. (ok none, x);
  get_ticker = λ spot symbol x. (ok none, x);
}

-- The same, but every order is filled at once.
abbrev filling : World ℤ ℕ
filling = record silent {
  place_order = λ spot symbol side kind qty price post x.
      (ok (record taken { status = filled; filled_qty = of_ℕ 1; avg_price = of_ℕ 10 }), x);
}

abbrev order : Order ℤ
order = Order.create "a" "KRW-BTC" crash_recovery buy limit (of_ℕ 1) (some (of_ℕ 10)) 0 0

abbrev maker : OrderPolicy ℤ
maker = record {
  urgency = low;
  timeout_sec = of_ℕ 5;
  max_price_chase = 1;
  max_slippage_bps = of_ℕ 6;
  use_post_only = true;
}

abbrev exec : Exec ℤ ℕ
exec = record { order = order; outside = 1; slippage = [] }

maker_never_succeeds_example : succeeded (execute_with_policy silent true 3 maker exec).0 ≡ false
unfolding Order.create
maker_never_succeeds_example =
    maker_never_succeeds silent true 3 maker exec taken "x" refl refl refl refl

accepted_is_rejected_example :
    ((execute_ioc silent true none exec).0 ≡ ok false)
    × ((execute_ioc silent true none exec).1.order.status ≡ rejected)
    × ((execute_ioc silent true none exec).1.order.exchange_order_id ≡ some "x")
unfolding Order.create
accepted_is_rejected_example =
    accepted_is_rejected silent true none exec taken "x" refl refl refl refl

abbrev desk : Desk ℤ ℕ ℕ
desk = record {
  engine = record {
    risk = record {
      limits = record {
        daily_loss_limit_safe = neg (of_dec 10 3);
        daily_loss_limit_halt = neg (of_dec 15 3);
        weekly_loss_limit = neg (of_dec 5 2);
        max_order_failure_rate = of_dec 20 2;
        ws_latency_threshold = of_ℕ 2;
        ws_latency_duration = of_ℕ 10;
        ws_timeout_seconds = of_ℕ 30;
        max_ws_disconnect = 3;
        max_auth_failures = 3;
        max_reconcile_failures = 3;
        min_liquidation_distance = of_dec 25 3;
        max_gross_exposure = of_ℕ 2;
        max_symbol_exposure_core = of_dec 30 2;
        max_symbol_exposure_sat = of_dec 10 2;
      };
      mode_manager = TradingMode.init 0;
      ledger = none;
      ws_last_message = none;
      ws_disconnect_count = 0;
      auth_failure_count = 0;
      last_reconcile_success = none;
      reconcile_failure_count = 0;
      order_events = [];
      ws_latency_events = [];
      ws_high_latency_start = none;
      exposure_info = record {
        gross_exposure = fzero;
        equity = fzero;
        gross_exposure_ratio = fzero;
        symbol_exposures = [];
      };
      satellite_disabled_by_weekly_loss = false;
    };
    health = ExecHealth.init (record {
      exec_ws_latency_warn_ms = of_ℕ 500;
      exec_ws_latency_safe_ms = of_ℕ 2000;
      exec_order_failure_rate_max = of_dec 3 1;
      exec_reconcile_drift_max = of_dec 5 2;
      exec_health_window = 20;
    });
    active_orders = [];
    order_history = [];
    hedge_pairs = [];
    hedge_recovery_history = [];
    slippage_history = [];
  };
  outside = 1;
}

abbrev settings : Settings ℤ
settings = record { value = λ name. of_ℕ 15 }

abbrev urgent : OrderPolicy ℤ
urgent = record {
  urgency = high;
  timeout_sec = of_ℕ 2;
  max_price_chase = 0;
  max_slippage_bps = of_ℕ 15;
  use_post_only = false;
}

abbrev call : ℕ → TradingMode → String → ℕ → Bool × ℕ
call l mode reason x = (false, x)

abbrev text : Cause → String
text c = "cause"

abbrev why : String → OrderSide → String
why symbol side = symbol

execute-HasFill_example : HasFill (execute_with_policy filling true 3 urgent exec).1.order.status
unfolding execute_with_policy execute_ioc do_sent mark_sent transition_to settle_ioc settle_filled
    Order.create do_acked do_filled mark_acked mark_filled note_slippage valid_transitions
execute-HasFill_example = execute-HasFill filling true 3 urgent exec refl

submit_never_sends_example : submit_order silent 3 settings true high order desk ≡ (
    if blocked silent 3 settings true order desk
    then (ok (false, order), desk)
    else (raised missing_attribute, desk))
submit_never_sends_example = submit_never_sends silent 3 settings true high order desk

pair_never_sends_example :
    submit_hedge_pair silent 3 settings call text why order order high desk ≡ (
      if blocked silent 3 settings true order desk
      then (ok (false, false), desk)
      else (raised missing_attribute, desk))
pair_never_sends_example = pair_never_sends silent 3 settings call text why order order high desk
