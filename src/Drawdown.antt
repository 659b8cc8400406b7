-- ===== src/Drawdown.antt =====
-- server/src/risk/dd_tracker.py: the drawdown tracker, with the fields of `RiskOverlayConfig`
-- (server/src/risk/config.py) that it reads. The fields of a `DrawdownState` that are only printed
-- (its own timestamp) are left out.
pub mod Tiers
pub mod Peak
mod Tests
use stock_test.Base.{ℕ, Bool, true, false, Option, none, some, ◌&&◌, ◌||◌, ltb, if◌then◌else◌}
use stock_test.Float.{FloatOps, of_dec, fzero, neg, sub, mul, div, flt, fle}
use stock_test.Clock.{date_of}

-- The thresholds of `RiskOverlayConfig`
pub record RiskConfig (F : Type 0) : Type 0 where
  pub dd_tier1_threshold : F
  pub dd_tier1_multiplier : F
  pub dd_tier2_threshold : F
  pub dd_tier2_multiplier : F
  pub dd_tier3_threshold : F
  pub dd_tier3_multiplier : F
  pub dd_tier4_threshold : F
  pub dd_tier4_multiplier : F
  pub dd_tier5_threshold : F
  pub dd_tier5_multiplier : F
  pub dd_tier6_multiplier : F
  pub risk_dd_safe_threshold : F
  pub risk_dd_safe_combined_threshold : F
  pub risk_dd_reduce_threshold : F
  pub risk_dd_halt_threshold : F
  pub daily_loss_safe : F
  pub daily_loss_halt : F

-- `DrawdownState`
pub record DrawdownState (F : Type 0) : Type 0 where
  pub peak_equity : F
  pub current_equity : F
  pub drawdown_pct : F
  pub drawdown_abs : F
  pub daily_pnl : F
  pub daily_pnl_pct : F
  pub sizing_multiplier : F
  pub dd_tier : ℕ
  pub is_safe_trigger : Bool
  pub is_combined_safe : Bool
  pub is_soft_dd : Bool
  pub is_hard_dd : Bool
  pub is_halt_trigger : Bool

-- `DrawdownTracker`
pub record DrawdownTracker (F : Type 0) : Type 0 where
  pub config : RiskConfig F
  pub peak : F
  pub current : F
  pub day_start_equity : F
  pub last_reset_date : Option ℕ
  pub last_state : Option (DrawdownState F)

-- Whether `update` starts a new day.
abbrev pub is_new_day : ℕ → Option ℕ → Bool
is_new_day now none = true
is_new_day now (some t) = ltb (date_of t) (date_of now)

module _ {F : Type 0} ⦃fl : FloatOps F⦄ where
  -- The defaults of the configuration
  abbrev pub default_config : RiskConfig F
  default_config = record {
    dd_tier1_threshold = of_dec 1 2;
    dd_tier1_multiplier = of_dec 1 0;
    dd_tier2_threshold = of_dec 2 2;
    dd_tier2_multiplier = of_dec 8 1;
    dd_tier3_threshold = of_dec 35 3;
    dd_tier3_multiplier = of_dec 6 1;
    dd_tier4_threshold = of_dec 45 3;
    dd_tier4_multiplier = of_dec 3 1;
    dd_tier5_threshold = of_dec 5 2;
    dd_tier5_multiplier = of_dec 1 1;
    dd_tier6_multiplier = of_dec 0 0;
    risk_dd_safe_threshold = of_dec 2 2;
    risk_dd_safe_combined_threshold = of_dec 1 2;
    risk_dd_reduce_threshold = of_dec 35 3;
    risk_dd_halt_threshold = of_dec 5 2;
    daily_loss_safe = neg (of_dec 1 2);
    daily_loss_halt = neg (of_dec 15 3);
  }

  -- The constructor
  unfoldable pub init : RiskConfig F → DrawdownTracker F
  init cfg = record {
    config = cfg;
    peak = fzero;
    current = fzero;
    day_start_equity = fzero;
    last_reset_date = none;
    last_state = none;
  }

  -- `_calc_sizing_multiplier`
  unfoldable pub calc_sizing_multiplier : RiskConfig F → F → F × ℕ
  calc_sizing_multiplier cfg dd =
      if fle cfg.dd_tier5_threshold dd
      then (cfg.dd_tier6_multiplier, 6)
      else if fle cfg.dd_tier4_threshold dd
      then (cfg.dd_tier5_multiplier, 5)
      else if fle cfg.dd_tier3_threshold dd
      then (cfg.dd_tier4_multiplier, 4)
      else if fle cfg.dd_tier2_threshold dd
      then (cfg.dd_tier3_multiplier, 3)
      else if fle cfg.dd_tier1_threshold dd
      then (cfg.dd_tier2_multiplier, 2)
      else (cfg.dd_tier1_multiplier, 1)

  -- A change from a base, and its share of the base, both 0 where the base is not above 0.
  unfoldable pub change_from : F → F → F × F
  change_from base change = if flt fzero base then (change, div change base) else (fzero, fzero)

  -- The triggers of `update`, from the two percentages.
  unfoldable pub assess : RiskConfig F → F → F → F × F → F × F → DrawdownState F
  assess cfg top equity (dd_abs, dd_pct) (pnl, pnl_pct) =
      let (multiplier, tier) = calc_sizing_multiplier cfg dd_pct in
      let soft = fle cfg.risk_dd_reduce_threshold dd_pct in
      let hard = fle cfg.risk_dd_halt_threshold dd_pct in
      let pure_safe = fle cfg.risk_dd_safe_threshold dd_pct in
      let combined =
        fle cfg.risk_dd_safe_combined_threshold dd_pct
        && fle pnl_pct (mul cfg.daily_loss_safe (of_dec 5 1)) in
      record {
        peak_equity = top;
        current_equity = equity;
        drawdown_pct = dd_pct;
        drawdown_abs = dd_abs;
        daily_pnl = pnl;
        daily_pnl_pct = pnl_pct;
        sizing_multiplier = multiplier;
        dd_tier = tier;
        is_safe_trigger = pure_safe || combined;
        is_combined_safe = combined;
        is_soft_dd = soft;
        is_hard_dd = hard;
        is_halt_trigger = hard || fle pnl_pct cfg.daily_loss_halt;
      }

  unfoldable pub update : ℕ → F → DrawdownTracker F → DrawdownTracker F
  unfolding change_from assess
  update now equity t =
      let top = if flt t.peak equity then equity else t.peak in
      let fresh = is_new_day now t.last_reset_date in
      let start = if fresh then equity else t.day_start_equity in
      record {
        config = t.config;
        peak = top;
        current = equity;
        day_start_equity = start;
        last_reset_date = if fresh then some now else t.last_reset_date;
        last_state = some (
            assess t.config top equity (change_from top (sub top equity))
              (change_from start (sub equity start)));
      }

  unfoldable pub get_sizing_multiplier : DrawdownTracker F → F
  get_sizing_multiplier t = elim t.last_state [ none ↦ of_dec 1 0 | some s ↦ s.sizing_multiplier ]

  unfoldable pub should_enter_safe : DrawdownTracker F → Bool
  should_enter_safe t = elim t.last_state [ none ↦ false | some s ↦ s.is_safe_trigger ]

  unfoldable pub should_halt : DrawdownTracker F → Bool
  should_halt t = elim t.last_state [ none ↦ false | some s ↦ s.is_halt_trigger ]

  unfoldable pub in_soft_dd : DrawdownTracker F → Bool
  in_soft_dd t = elim t.last_state [ none ↦ false | some s ↦ s.is_soft_dd ]

  unfoldable pub in_hard_dd : DrawdownTracker F → Bool
  in_hard_dd t = elim t.last_state [ none ↦ false | some s ↦ s.is_hard_dd ]

  unfoldable pub get_dd_tier : DrawdownTracker F → ℕ
  get_dd_tier t = elim t.last_state [ none ↦ 1 | some s ↦ s.dd_tier ]

  -- `reset_peak`, with the optional new peak
  unfoldable pub reset_peak : Option F → DrawdownTracker F → DrawdownTracker F
  reset_peak top t = record t { peak = elim top [ none ↦ t.current | some p ↦ p ] }
