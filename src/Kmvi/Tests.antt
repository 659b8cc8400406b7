-- ===== src/Kmvi/Tests.antt =====
-- The tiers of server/src/risk/kmvi.py at some values.
use stock_test.Base.{◌≡◌, refl, none, []}
use stock_test.Float.{of_dec}
use stock_test.Float.Fixed.{ℤ, fixed_ops}
use stock_test.Kmvi.{KmviCalculator, elevated, crisis, determine_tier}

abbrev index : KmviCalculator ℤ
index = record {
  t1 = of_dec 12 3;
  t2 = of_dec 20 3;
  t3 = of_dec 28 3;
  top_n = 20;
  percentile = of_dec 80 2;
  atr_period = 14;
  last_state = none;
  last_update = none;
  update_interval = 60;
  kept = [];
  max_history = 60;
}

mild : (determine_tier index (of_dec 15 3)).tier ≡ elevated
unfolding determine_tier
mild = refl

wild : (determine_tier index (of_dec 28 3)).tier ≡ crisis
unfolding determine_tier
wild = refl
