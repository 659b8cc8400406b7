-- ===== src/CapitalProfile.antt =====
-- server/src/risk/capital_profile.py: the risk of a trade and the attack levels that the capital
-- mode allows. Texts for modes and regimes are in upper case, as the settings and callers write
-- them. The hysteresis tracker is the module Hysteresis.
pub mod Bounds
pub mod Tests
use stock_test.Base.{
  ℕ, Bool, true, false, ◌&&◌, ◌||◌, Option, none, some, List, [], ◌∷◌, ◌++◌, any, ltb, leb, ◌==◌,
  if◌then◌else◌, get_or,
}
use stock_test.Float.{FloatOps, of_dec, of_ℕ, add, mul, div, flt, fle, fmin, feq, fzero}
use stock_test.Hysteresis.{
  CapitalMode, growth, preserve, HysteresisState, Limits, record_daily_equity,
}

-- `attack_mode`; `other` is any text that is none of the four.
pub data AttackMode : Type 0 where
  off normal plus max_mode other : AttackMode

abbrev pub attack_mode_code : AttackMode → ℕ
attack_mode_code off = 0
attack_mode_code normal = 1
attack_mode_code plus = 2
attack_mode_code max_mode = 3
attack_mode_code other = 4

abbrev pub attack_mode_eq : AttackMode → AttackMode → Bool
attack_mode_eq a b = attack_mode_code a == attack_mode_code b

-- `regime`: the four of the feature engine, and the three that this file speaks of
pub data MarketRegime : Type 0 where
  bullish bearish neutral volatile risk_on risk_off other_regime : MarketRegime

abbrev pub is_volatile_regime : MarketRegime → Bool
is_volatile_regime volatile = true
is_volatile_regime _ = false

abbrev pub is_risk_off : MarketRegime → Bool
is_risk_off risk_off = true
is_risk_off _ = false

pub record CapitalProfileConfig (F : Type 0) : Type 0 where
  pub mode : CapitalMode
  pub risk_per_trade_min : F
  pub risk_per_trade_max : F
  pub total_risk_limit : F
  pub allowed_attack_levels : List ℕ
  pub allowed_attack_modes : List AttackMode
  pub slippage_guard_multiplier : F

pub record RiskPerTradeResult (F : Type 0) : Type 0 where
  pub base_risk : F
  pub adjusted_risk : F
  pub risk_cap : F
  pub dd_multiplier : F
  pub profile_mode : CapitalMode
  pub is_reduced_by_dd : Bool
  pub is_reduced_by_regime : Bool

-- The manager with the settings that it reads
pub record CapitalProfileManager (F : Type 0) : Type 0 where
  pub enabled : Bool
  pub growth_config : CapitalProfileConfig F
  pub preserve_config : CapitalProfileConfig F
  pub limits : Limits F
  pub tracker : HysteresisState F
  pub l3_require_dd_tier1 : Bool
  pub l3_require_risk_on : Bool
  pub overheat_l3_block_threshold : F
  pub overheat_l2_block_threshold : F
  pub attack_slippage_guard : F

-- Why a level or a mode is refused
pub data ProfileReason : Type 0 where
  level_not_allowed l3_requires_tier1 l3_requires_risk_on mode_not_allowed : ProfileReason
  l3_overheat l2_overheat : ProfileReason

abbrev pub has_level : ℕ → List ℕ → Bool
has_level level = any (λ x. x == level)

module _ {F : Type 0} ⦃fl : FloatOps F⦄ where
  unfoldable pub get_current_mode : CapitalProfileManager F → CapitalMode
  get_current_mode m = if m.enabled then m.tracker.current_mode else growth

  -- `get_config` without a mode
  unfoldable pub get_config : CapitalProfileManager F → CapitalProfileConfig F
  get_config m = elim (get_current_mode m) [
    | preserve ↦ m.preserve_config
    | growth ↦ m.growth_config
  ]

  -- The multipliers of `get_risk_per_trade`
  unfoldable pub dd_multiplier_of : ℕ → F
  dd_multiplier_of tier =
      if tier == 2
      then of_dec 8 1
      else if tier == 3
      then of_dec 6 1
      else if tier == 4
      then of_dec 3 1
      else if tier == 5
      then of_dec 1 1
      else if tier == 6
      then fzero
      else of_ℕ 1

  unfoldable pub regime_multiplier_of : MarketRegime → F
  regime_multiplier_of risk_off = of_dec 5 1
  regime_multiplier_of volatile = of_dec 3 1
  regime_multiplier_of _ = of_ℕ 1

  unfoldable pub base_risk_of : CapitalProfileConfig F → AttackMode → ℕ → F
  base_risk_of c mode level =
      if attack_mode_eq mode max_mode && level == 3
      then c.risk_per_trade_max
      else if attack_mode_eq mode plus || leb 2 level
      then div (add c.risk_per_trade_min c.risk_per_trade_max) (of_ℕ 2)
      else c.risk_per_trade_min

  unfoldable pub get_risk_per_trade :
      ℕ → AttackMode → ℕ → MarketRegime → CapitalProfileManager F → RiskPerTradeResult F
  get_risk_per_trade dd_tier mode level regime m =
      let c = get_config m in
      let base = base_risk_of c mode level in
      let adjusted = mul (mul base (dd_multiplier_of dd_tier)) (regime_multiplier_of regime) in
      record {
        base_risk = base;
        adjusted_risk = adjusted;
        risk_cap = fmin adjusted c.total_risk_limit;
        dd_multiplier = dd_multiplier_of dd_tier;
        profile_mode = c.mode;
        is_reduced_by_dd = flt (dd_multiplier_of dd_tier) (of_ℕ 1);
        is_reduced_by_regime = flt (regime_multiplier_of regime) (of_ℕ 1);
      }

  -- `can_use_attack_level`: why not, or none
  unfoldable pub can_use_attack_level :
      ℕ → ℕ → MarketRegime → CapitalProfileManager F → Option ProfileReason
  can_use_attack_level level dd_tier regime m =
      if has_level level (get_config m).allowed_attack_levels
      then (if level == 3
          then (if m.l3_require_dd_tier1 && ltb 1 dd_tier
              then some l3_requires_tier1
              else if m.l3_require_risk_on && (is_risk_off regime || is_volatile_regime regime)
              then some l3_requires_risk_on
              else none)
          else none)
      else some level_not_allowed

  -- `can_use_attack_mode`: why not, or none
  unfoldable pub can_use_attack_mode : AttackMode → CapitalProfileManager F → Option ProfileReason
  can_use_attack_mode mode m =
      if any (attack_mode_eq mode) (get_config m).allowed_attack_modes
      then none
      else some mode_not_allowed

  -- `check_overheat_restriction`: why not, or none
  unfoldable pub check_overheat_restriction : F → ℕ → CapitalProfileManager F → Option ProfileReason
  check_overheat_restriction change_rate level m =
      if level == 3 && fle m.overheat_l3_block_threshold change_rate
      then some l3_overheat
      else if level == 2 && fle m.overheat_l2_block_threshold change_rate
      then some l2_overheat
      else none

  -- A base guard of 0 is taken as none, as `or` does.
  unfoldable pub get_slippage_guard : Option F → CapitalProfileManager F → F
  get_slippage_guard base m =
      let guard : F = elim base [
        | none ↦ m.attack_slippage_guard
        | some b ↦ if feq b fzero then m.attack_slippage_guard else b
      ] in
      mul guard (get_config m).slippage_guard_multiplier

  -- `on_day_close`, on a date: the manager, and whether the mode has changed
  unfoldable pub on_day_close : F → ℕ → CapitalProfileManager F → CapitalProfileManager F × Bool
  on_day_close equity date m =
      let (s, switched) = record_daily_equity m.limits equity date m.tracker in
      (record m { tracker = s }, switched)
