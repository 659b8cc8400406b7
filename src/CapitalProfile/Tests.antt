-- ===== src/CapitalProfile/Tests.antt =====
-- The two profiles of the source at the decimal number type, and the theorems at them.
use stock_test.Base.{◌≡◌, refl, true, [], ◌∷◌}
use stock_test.Float.{of_dec, of_ℕ}
use stock_test.Float.Fixed.{ℤ, pos, fixed_ops}
use stock_test.Hysteresis.{growth, preserve, fresh_state}
use stock_test.CapitalProfile.{
  CapitalProfileConfig, CapitalProfileManager, normal, plus, max_mode, off, bearish, risk_off,
  get_config, get_current_mode, get_risk_per_trade, base_risk_of, dd_multiplier_of,
  regime_multiplier_of,
}

abbrev pub growing : CapitalProfileConfig ℤ
growing = record {
  mode = growth;
  risk_per_trade_min = of_dec 7 3;
  risk_per_trade_max = of_dec 10 3;
  total_risk_limit = of_dec 20 3;
  allowed_attack_levels = 1 ∷ 2 ∷ 3 ∷ [];
  allowed_attack_modes = normal ∷ plus ∷ max_mode ∷ [];
  slippage_guard_multiplier = of_ℕ 1;
}

abbrev pub preserving : CapitalProfileConfig ℤ
preserving = record {
  mode = preserve;
  risk_per_trade_min = of_dec 25 4;
  risk_per_trade_max = of_dec 5 3;
  total_risk_limit = of_dec 12 3;
  allowed_attack_levels = 1 ∷ 2 ∷ [];
  allowed_attack_modes = normal ∷ off ∷ [];
  slippage_guard_multiplier = of_dec 15 1;
}

abbrev pub manager : CapitalProfileManager ℤ
manager = record {
  enabled = true;
  growth_config = growing;
  preserve_config = preserving;
  limits = record {
    threshold_krw = of_ℕ 10;
    lower_threshold_krw = of_ℕ 9;
    preserve_days = 1;
    growth_days = 2;
  };
  tracker = fresh_state;
  l3_require_dd_tier1 = true;
  l3_require_risk_on = true;
  overheat_l3_block_threshold = of_dec 15 2;
  overheat_l2_block_threshold = of_dec 20 2;
  attack_slippage_guard = of_dec 3 3;
}

-- A bearish regime is no RISK_OFF here: the full risk is left, where that halves it.
bearish_risk : (get_risk_per_trade 1 max_mode 3 bearish manager).risk_cap ≡ pos 10000
unfolding get_risk_per_trade get_config get_current_mode base_risk_of dd_multiplier_of
    regime_multiplier_of
bearish_risk = refl

risk_off_risk : (get_risk_per_trade 1 max_mode 3 risk_off manager).risk_cap ≡ pos 5000
unfolding get_risk_per_trade get_config get_current_mode base_risk_of dd_multiplier_of
    regime_multiplier_of
risk_off_risk = refl
