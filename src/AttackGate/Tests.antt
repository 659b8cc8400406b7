-- ===== src/AttackGate/Tests.antt =====
-- A signal of level 3, and the theorems at it.
use stock_test.Base.{◌≤◌, ◌<◌, ◌≡◌, refl, true, false, none, [], ◌∷◌, any, arith}
use stock_test.Float.{of_dec, of_ℕ, fzero}
use stock_test.Float.Fixed.{ℤ, fixed_ops}
use stock_test.Hysteresis.{
  daily_record, put_record, has_date, record_daily_equity, update_consecutive_days,
  check_transition, settle, streak,
}
use stock_test.CapitalProfile.{
  attack_mode_eq, max_mode, normal, volatile, get_config, get_current_mode, can_use_attack_level,
  can_use_attack_mode, check_overheat_restriction,
}
use stock_test.CapitalProfile.Tests.{manager}
use stock_test.CapitalProfile.{on_day_close}
use stock_test.AttackGate.{
  AttackGate, AttackSignal, check, max_of, mode_max_level, hard_gate, quick_check, soft_gate,
  profile_cap, overheat_cap, decide,
}
use stock_test.AttackGate.Levels.{check_bounds, ceiling}
use stock_test.AttackGate.Preserve.{close_day, preserve_caps}

abbrev gate : AttackGate ℤ
gate = record {
  max_dd_tier = 1;
  disable_if_safe = true;
  disable_if_risk_off = true;
  disable_if_volatile = false;
  overheat_threshold = of_dec 15 2;
  capital_profile = manager;
  pump_dump_filter = record {
    enabled = true;
    rvol_threshold = of_ℕ 8;
    price_spike_1h = of_dec 8 2;
  };
  last_result = none;
}

abbrev signal : AttackSignal ℤ
signal = record {
  attack_level = 3;
  dd_tier = 1;
  regime = volatile;
  daily_loss = fzero;
  is_volatile = true;
  change_rate = of_dec 5 2;
  attack_mode = max_mode;
  rvol = of_ℕ 2;
  change_rate_1h = of_dec 1 2;
}

check_bounds_example :
    let level = (check signal gate).1.final_level in
    let profile = get_config manager in
    (any (attack_mode_eq max_mode) profile.allowed_attack_modes ≡ true)
    × (1 < 3)
    × ((1 ≤ level)
        × (level ≤ 3)
        × (level ≤ mode_max_level max_mode)
        × (level ≤ max_of profile.allowed_attack_levels)
        × (level ≤ ceiling gate signal))
unfolding check hard_gate quick_check soft_gate profile_cap overheat_cap decide can_use_attack_level
    can_use_attack_mode check_overheat_restriction get_config get_current_mode mode_max_level max_of
check_bounds_example = check_bounds gate signal refl

-- The day closes at the threshold, with one day asked for.
preserve_caps_example :
    (check
      (record signal { attack_mode = normal; dd_tier = 2 })
      (close_day (of_ℕ 10) 1 gate)).1.final_level
    ≤ max_of (1 ∷ 2 ∷ [])
unfolding check hard_gate quick_check soft_gate profile_cap overheat_cap decide can_use_attack_level
    can_use_attack_mode check_overheat_restriction get_config get_current_mode mode_max_level max_of
    close_day on_day_close record_daily_equity update_consecutive_days check_transition settle
    daily_record put_record has_date streak
preserve_caps_example =
    preserve_caps (of_ℕ 10) 1 gate (record signal { attack_mode = normal; dd_tier = 2 }) refl refl
      (omega arith, (refl, tt)) refl
