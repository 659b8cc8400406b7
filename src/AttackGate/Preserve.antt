-- ===== src/AttackGate/Preserve.antt =====
-- The gate behind the hysteresis of the capital mode, and a level that the profile forbids.
use stock_test.Base.{ℕ, ◌≤◌, ◌≡◌, refl, true, false, none, some, [], ◌∷◌, arith}
use stock_test.Float.{FloatOps, fle}
use stock_test.Hysteresis.{growth, preserve, record_daily_equity}
use stock_test.Hysteresis.Streaks.{LastAll}
use stock_test.Hysteresis.Switch.{next_history, preserve_iff}
use stock_test.CapitalProfile.{
  CapitalProfileManager, max_mode, volatile, get_config, get_current_mode, on_day_close,
  can_use_attack_level, check_overheat_restriction, l3_requires_risk_on,
}
use stock_test.AttackGate.{
  AttackGate, AttackSignal, Cap, max_of, check, hard_gate, soft_gate, profile_cap, overheat_cap,
  decide, profile_level, mode_max_level, allow,
}
use stock_test.AttackGate.Levels.{check_bounds}

module _ {F : Type 0} ⦃fl : FloatOps F⦄ where
  -- The gate after the close of a day
  unfoldable pub close_day : F → ℕ → AttackGate F → AttackGate F
  close_day equity date g = record g {
    capital_profile = (on_day_close equity date g.capital_profile).0;
  }

  config_after :
      (equity : F) (date : ℕ) (g : AttackGate F)
      → g.capital_profile.enabled ≡ true
      → (record_daily_equity g.capital_profile.limits equity date
          g.capital_profile.tracker).0.current_mode
        ≡ preserve
      → get_config (close_day equity date g).capital_profile ≡ g.capital_profile.preserve_config
  unfolding close_day on_day_close get_config get_current_mode
  config_after equity date g on p = ground arith

  -- Where the capital profile is enabled and in its growth mode: right after the close of the day
  -- that completes the `preserve_days` records at the threshold, no signal that is allowed gets a
  -- level above the highest of the preserve profile.
  pub preserve_caps :
      (equity : F) (date : ℕ) (g : AttackGate F) (s : AttackSignal F)
      → g.capital_profile.enabled ≡ true
      → g.capital_profile.tracker.current_mode ≡ growth
      → LastAll g.capital_profile.limits.preserve_days
          (λ r. r.meets_preserve_threshold)
          (next_history g.capital_profile.limits equity date g.capital_profile.tracker)
      → (check s (close_day equity date g)).1.allowed ≡ true
      → (check s (close_day equity date g)).1.final_level
        ≤ max_of g.capital_profile.preserve_config.allowed_attack_levels
  preserve_caps equity date g s on grow all ok =
      let m = g.capital_profile in
      let p = (preserve_iff m.limits equity date m.tracker grow).1 all in
      let bounds = check_bounds (close_day equity date g) s ok in
      ground (arith, config_after equity date g on p, bounds)

  refused_in_volatile :
      (m : CapitalProfileManager F)
      → m.l3_require_risk_on ≡ true
      → (get_config m).allowed_attack_levels ≡ 1 ∷ 2 ∷ 3 ∷ []
      → can_use_attack_level 3 1 volatile m ≡ some l3_requires_risk_on
  unfolding can_use_attack_level
  refused_in_volatile m ask levels = rw levels (ground arith)

  profile_keeps_3 :
      (g : AttackGate F) (s : AttackSignal F)
      → can_use_attack_level s.attack_level s.dd_tier s.regime g.capital_profile
        ≡ some l3_requires_risk_on
      → (get_config g.capital_profile).allowed_attack_levels ≡ 1 ∷ 2 ∷ 3 ∷ []
      → profile_cap g s (3, []) ≡ (3, profile_level ∷ [])
  unfolding profile_cap max_of
  profile_keeps_3 g s why levels = rw (why, levels, profile_cap) (ground arith)

  overheat_keeps :
      (g : AttackGate F) (s : AttackSignal F) (c : Cap)
      → s.attack_level ≡ 3
      → fle g.capital_profile.overheat_l3_block_threshold s.change_rate ≡ false
      → overheat_cap g s c ≡ c
  unfolding overheat_cap check_overheat_restriction
  overheat_keeps g s c l cool = ground arith

  soft_keeps_3 :
      (g : AttackGate F) (s : AttackSignal F)
      → profile_cap g s (3, []) ≡ (3, profile_level ∷ [])
      → overheat_cap g s (3, profile_level ∷ []) ≡ (3, profile_level ∷ [])
      → mode_max_level s.attack_mode ≡ 3
      → s.dd_tier ≡ 1
      → 1 ≤ g.max_dd_tier
      → fle g.overheat_threshold s.change_rate ≡ false
      → soft_gate g s ≡ (3, profile_level ∷ [])
  unfolding soft_gate
  soft_keeps_3 g s p h m t1 t2 calm = rw m (rw p (rw h (ground arith)))

  max_mode-limit :
      (s : AttackSignal F) → s.attack_mode ≡ max_mode → mode_max_level s.attack_mode ≡ 3
  unfolding mode_max_level
  max_mode-limit s m = rw m refl

  level_3_passes :
      (g : AttackGate F) (s : AttackSignal F)
      → hard_gate g s ≡ none
      → s.attack_level ≡ 3
      → soft_gate g s ≡ (3, profile_level ∷ [])
      → ((check s g).1.final_level ≡ 3) × ((check s g).1.action ≡ allow)
  unfolding check decide
  level_3_passes g s open_ l soft = rw (open_, check) (rw (soft, l) (ground arith))

  -- In a volatile regime the profile refuses level 3 where it asks for a calm one; but where level
  -- 3 is its highest level the gate lets it through all the same, if no hard gate blocks, the
  -- drawdown is in tier 1 and nothing has overheated.
  pub forbidden_level_passes :
      (g : AttackGate F) (s : AttackSignal F)
      → hard_gate g s ≡ none
      → s.regime ≡ volatile
      → s.attack_level ≡ 3
      → s.attack_mode ≡ max_mode
      → s.dd_tier ≡ 1
      → 1 ≤ g.max_dd_tier
      → fle g.overheat_threshold s.change_rate ≡ false
      → fle g.capital_profile.overheat_l3_block_threshold s.change_rate ≡ false
      → g.capital_profile.l3_require_risk_on ≡ true
      → (get_config g.capital_profile).allowed_attack_levels ≡ 1 ∷ 2 ∷ 3 ∷ []
      → (can_use_attack_level s.attack_level s.dd_tier s.regime g.capital_profile
          ≡ some l3_requires_risk_on)
        × ((check s g).1.final_level ≡ 3)
        × ((check s g).1.action ≡ allow)
  forbidden_level_passes g s open_ r l m t1 t2 calm cool ask levels =
      let m₁ = g.capital_profile in
      let why : can_use_attack_level s.attack_level s.dd_tier s.regime m₁
          ≡ some l3_requires_risk_on =
        rw (l, t1, r) (refused_in_volatile m₁ ask levels) in
      let soft =
        soft_keeps_3 g s (profile_keeps_3 g s why levels)
          (overheat_keeps g s (3, profile_level ∷ []) l cool) (max_mode-limit s m) t1 t2 calm in
      let (final, action) = level_3_passes g s open_ l soft in (why, final, action)
