-- ===== src/Watchdog/Tests.antt =====
-- A pass over two positions, and the theorems at concrete ones.
use stock_test.Base.{
  ◌==◌, if◌then◌else◌, ℕ, ◌+◌, ◌≡◌, refl, true, false, not, some, List, [], ◌∷◌, ◌&&◌, length,
}
use stock_test.Float.Fixed.{ℤ, pos, fixed_ops}
use stock_test.Clock.{total_seconds}
use stock_test.Dict.{has_key}
use stock_test.Watchdog.State.{
  hard_stop, trailing_stop, WatchedPosition, PriceSnapshot, StopWatchdog, Reading,
}
use stock_test.Watchdog.Checks.{judge, get_current_price, detect_fast_crash}
use stock_test.Watchdog.Pass.{
  check_position, check_loop, execute_stop, execute_stops, check_all_positions,
}
use stock_test.Watchdog.Accounts.{stopped, pass_accounts}

-- Bought at 100 with a stop at 95 that trails the highest price by 5 %.
abbrev trailing : WatchedPosition ℤ
trailing = record {
  symbol = 1;
  entry_price = pos 100000000;
  quantity = pos 1000000;
  stop_price = pos 95000000;
  stop_type = trailing_stop;
  highest_price = pos 100000000;
  trailing_distance = pos 50000;
  entry_time = 0;
  time_stop_minutes = 0;
  position_id = 10;
}

-- Bought at 50 with a stop at 40, and ten minutes to gain.
abbrev timed : WatchedPosition ℤ
timed = record {
  symbol = 2;
  entry_price = pos 50000000;
  quantity = pos 1000000;
  stop_price = pos 40000000;
  stop_type = hard_stop;
  highest_price = pos 50000000;
  trailing_distance = pos 0;
  entry_time = 0;
  time_stop_minutes = 10;
  position_id = 20;
}

abbrev watchdog : StopWatchdog ℤ
watchdog = record {
  enabled = true;
  running = true;
  ws_timeout_sec = 3;
  fast_crash_pct = pos 30000;
  fast_crash_window_sec = 5;
  positions = (10, trailing) ∷ (20, timed) ∷ [];
  price_history = (1, []) ∷ (2, []) ∷ [];
  last_prices = [];
  price_update_time = [];
  stats = record { loops = 0; stops_triggered = 0; fast_crashes_detected = 0; ws_fallbacks = 0 };
}

-- After eleven minutes the first stands at 110, the second at 49.
abbrev read : ℕ → Reading ℤ
read id = record {
  now = 660000000;
  rest_price = if id == 10 then some (pos 110000000) else some (pos 49000000);
}

one_time_stop :
    let (events, w', broken) = check_all_positions 660000000 read watchdog in
    (length events ≡ 1) × (has_key 10 w'.positions ≡ true) × (has_key 20 w'.positions ≡ false)
unfolding check_all_positions check_loop check_position get_current_price detect_fast_crash judge
    execute_stops execute_stop total_seconds
one_time_stop = (refl, refl, refl)

-- The price of 110 moves the trailing stop to 104.5.
trailed : (judge 0 (pos 110000000) false trailing).0.stop_price ≡ pos 104500000
unfolding judge
trailed = refl

abbrev snapshots : List (PriceSnapshot ℤ)
snapshots = record { price = pos 3; timestamp = 0 } ∷ record { price = pos 5; timestamp = 9 } ∷ []

pass_accounts_example :
    let (events, w', broken) = check_all_positions 660000000 read watchdog in
    (has_key 20 w'.positions ≡ (has_key 20 watchdog.positions && not (stopped 20 events)))
    × (w'.stats.stops_triggered ≡ watchdog.stats.stops_triggered + length events)
pass_accounts_example = pass_accounts 660000000 read watchdog 20
