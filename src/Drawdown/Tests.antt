-- ===== src/Drawdown/Tests.antt =====
-- A day of the tracker at one decimal number type, and the theorems at it.
use stock_test.Base.{ℕ, ◌≡◌, refl, List, [], ◌∷◌}
use stock_test.Float.Fixed.{ℤ, pos, fixed_ops}
use stock_test.Drawdown.{
  DrawdownTracker, DrawdownState, init, default_config, calc_sizing_multiplier, update, assess,
  get_dd_tier,
}
use stock_test.Drawdown.Tiers.{IsOrdered, IsTapered}
use stock_test.Drawdown.Peak.{updates}

abbrev tracker : DrawdownTracker ℤ
tracker = init default_config

-- 100, then 104, then 98 on one day.
abbrev day : List (ℕ × ℤ)
day = (7, pos 100000000) ∷ (8, pos 104000000) ∷ (9, pos 98000000) ∷ []

tier_after_day : get_dd_tier (updates day tracker) ≡ 6
unfolding get_dd_tier updates update init calc_sizing_multiplier
tier_after_day = refl

default_IsOrdered : IsOrdered {F = ℤ} default_config
default_IsOrdered = record { one_two = refl; two_three = refl; three_four = refl; four_five = refl }

default_IsTapered : IsTapered {F = ℤ} default_config
default_IsTapered = record {
  two_one = refl;
  three_two = refl;
  four_three = refl;
  five_four = refl;
  six_five = refl;
}

abbrev last : DrawdownState ℤ
last = assess default_config (pos 98000000) (pos 98000000) (pos 0, pos 0) (pos 0, pos 0)
