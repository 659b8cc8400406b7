-- ===== src/UserMode/Tests.antt =====
-- The user's mode after a bad day, and the theorems at it.
use stock_test.Base.{some, List, [], ◌∷◌, arith}
use stock_test.Float.Fixed.{ℤ, pos, negsuc, fixed_ops}
use stock_test.Drawdown.{DrawdownTracker, DrawdownState, default_config, assess}
use stock_test.UserMode.{aggressive, paper, UserModeManager, init, mode_config}
use stock_test.UserMode.Downgrade.{Call, call_set, call_update, IsWithin}

-- A drawdown of 1 % and a daily loss of 2.5 %.
abbrev bad_day : DrawdownState ℤ
bad_day =
    assess default_config (pos 100000000) (pos 99000000) (pos 1000000, pos 10000)
      (negsuc 2499999, negsuc 24999)

abbrev tracker : DrawdownTracker ℤ
tracker = record {
  config = default_config;
  peak = pos 100000000;
  current = pos 99000000;
  day_start_equity = pos 101500000;
  last_reset_date = some 0;
  last_state = some bad_day;
}

abbrev manager : UserModeManager ℤ
manager = init

abbrev calls : List (Call ℤ)
calls = call_set 1 tracker aggressive ∷ call_update 2 tracker ∷ call_set 3 tracker paper ∷ []

init-IsWithin : IsWithin manager
unfolding init mode_config
init-IsWithin = ground arith
