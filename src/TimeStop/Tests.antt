-- ===== src/TimeStop/Tests.antt =====
-- A losing position of an hour, and the theorems at it.
use stock_test.Base.{ℕ, ◌*◌, true, false, []}
use stock_test.Float.{of_dec, of_ℕ, fzero}
use stock_test.Float.Fixed.{ℤ, fixed_ops}
use stock_test.Psm.State.{normal, long}
use stock_test.TimeStop.{Trade, TimeStopPolicy}

abbrev policy : TimeStopPolicy ℤ
policy = record {
  config = record {
    weak_time_min = 20;
    weak_min_r = fzero;
    normal_time_min = 45;
    normal_min_r = fzero;
    volatility_adjustment = true;
    high_vol_time_multiplier = of_dec 15 1;
    low_vol_time_multiplier = of_dec 8 1;
    allow_time_stop_in_profit = false;
    min_time_before_stop = 10;
  };
  volatility_cache = [];
}

abbrev losing : Trade ℤ
losing = record {
  symbol = 1;
  side = long;
  entry_price = of_ℕ 100;
  entry_time = 0;
  current_price = of_ℕ 99;
  current_state = normal;
  initial_stop_distance = of_ℕ 2;
}

abbrev hour : ℕ
hour = 3600 * 1000000
