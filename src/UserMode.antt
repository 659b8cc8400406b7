-- ===== src/UserMode.antt =====
-- server/src/services/mode_manager.py and server/src/models/user_mode.py: the user's mode and its
-- automatic downgrade by the state of the drawdown tracker. A reason is the place that sets it,
-- with the number that its text shows.
pub mod Downgrade
mod Tests
use stock_test.Base.{ℕ, Bool, true, false, Option, none, some, not, ◌||◌, ◌==◌, if◌then◌else◌}
use stock_test.Float.{FloatOps, of_dec, fzero, fabs, fmin, flt}
use stock_test.Drawdown.{DrawdownState, DrawdownTracker}

-- `UserMode`
pub data UserMode : Type 0 where
  safe balanced aggressive paper : UserMode

abbrev pub mode_code : UserMode → ℕ
mode_code safe = 0
mode_code balanced = 1
mode_code aggressive = 2
mode_code paper = 3

abbrev pub mode_eq : UserMode → UserMode → Bool
mode_eq a b = mode_code a == mode_code b

-- `UserModeConfig`
pub record UserModeConfig (F : Type 0) : Type 0 where
  pub max_position_pct : F
  pub max_concurrent_positions : ℕ
  pub leverage_max : ℕ
  pub dd_halt_threshold : F
  pub daily_loss_limit : F
  pub correlation_warn : F
  pub correlation_action : F
  pub execute_trades : Bool

-- Why the effective mode is not the requested one.
pub data DowngradeReason (F : Type 0) : Type 0 where
  dd_over_3 daily_loss_over_2 dd_over_4 daily_loss_over_1_5 : F → DowngradeReason F

-- `ModeManager`; the tracker that it reads is an argument of its methods.
pub record UserModeManager (F : Type 0) : Type 0 where
  pub requested_mode : UserMode
  pub effective_mode : UserMode
  pub downgrade_reason : Option (DowngradeReason F)
  pub last_evaluation : Option ℕ

module _ {F : Type 0} ⦃fl : FloatOps F⦄ where
  -- `USER_MODE_CONFIGS`
  unfoldable pub mode_config : UserMode → UserModeConfig F
  mode_config safe = record {
    max_position_pct = of_dec 3 2;
    max_concurrent_positions = 2;
    leverage_max = 3;
    dd_halt_threshold = of_dec 3 2;
    daily_loss_limit = of_dec 1 2;
    correlation_warn = of_dec 60 2;
    correlation_action = of_dec 70 2;
    execute_trades = true;
  }
  mode_config balanced = record {
    max_position_pct = of_dec 5 2;
    max_concurrent_positions = 3;
    leverage_max = 5;
    dd_halt_threshold = of_dec 5 2;
    daily_loss_limit = of_dec 2 2;
    correlation_warn = of_dec 70 2;
    correlation_action = of_dec 80 2;
    execute_trades = true;
  }
  mode_config aggressive = record {
    max_position_pct = of_dec 50 2;
    max_concurrent_positions = 10;
    leverage_max = 10;
    dd_halt_threshold = of_dec 7 2;
    daily_loss_limit = of_dec 3 2;
    correlation_warn = of_dec 75 2;
    correlation_action = of_dec 85 2;
    execute_trades = true;
  }
  mode_config paper = record {
    max_position_pct = of_dec 5 2;
    max_concurrent_positions = 3;
    leverage_max = 5;
    dd_halt_threshold = of_dec 5 2;
    daily_loss_limit = of_dec 2 2;
    correlation_warn = of_dec 70 2;
    correlation_action = of_dec 80 2;
    execute_trades = false;
  }

  -- The constructor
  unfoldable pub init : UserModeManager F
  init = record {
    requested_mode = balanced;
    effective_mode = balanced;
    downgrade_reason = none;
    last_evaluation = none;
  }

  -- The first check of `_evaluate_effective_mode`, from the drawdown and the daily loss.
  check_aggressive : UserMode → F → F → UserMode × Option (DowngradeReason F)
  check_aggressive requested dd loss =
      if mode_eq requested aggressive
      then (if flt (of_dec 3 2) dd
          then (balanced, some (dd_over_3 dd))
          else if flt (of_dec 2 2) loss
          then (balanced, some (daily_loss_over_2 loss))
          else (requested, none))
      else (requested, none)

  -- The second check, on the mode and the reason that the first has left.
  check_balanced :
      UserMode
      → F
      → F
      → UserMode × Option (DowngradeReason F)
      → UserMode × Option (DowngradeReason F)
  check_balanced requested dd loss (mode, why) =
      if mode_eq mode balanced || mode_eq requested balanced
      then (if flt (of_dec 4 2) dd
          then (safe, some (dd_over_4 dd))
          else if flt (of_dec 15 3) loss
          then (safe, some (daily_loss_over_1_5 loss))
          else (mode, why))
      else (mode, why)

  -- The losing part of the day's result, as a number not below 0.
  unfoldable pub daily_loss_of : DrawdownState F → F
  daily_loss_of s = fabs (fmin s.daily_pnl_pct fzero)

  -- `_evaluate_effective_mode` where the tracker has a state
  evaluate_with : ℕ → DrawdownState F → UserModeManager F → UserModeManager F
  unfolding check_aggressive check_balanced
  evaluate_with now s m =
      if mode_eq m.requested_mode paper
      then record m { effective_mode = paper; downgrade_reason = none }
      else (let dd = s.drawdown_pct in
          let loss = daily_loss_of s in
          let (mode, why) =
            check_balanced m.requested_mode dd loss (check_aggressive m.requested_mode dd loss) in
          record m { effective_mode = mode; downgrade_reason = why; last_evaluation = some now })

  -- `_evaluate_effective_mode`
  unfoldable pub evaluate_effective_mode :
      ℕ → DrawdownTracker F → UserModeManager F → UserModeManager F
  unfolding evaluate_with
  evaluate_effective_mode now t m = elim t.last_state [
    | none ↦ record m { effective_mode = m.requested_mode; downgrade_reason = none }
    | some s ↦ evaluate_with now s m
  ]

  unfoldable pub set_mode : ℕ → DrawdownTracker F → UserMode → UserModeManager F → UserModeManager F
  unfolding evaluate_effective_mode
  set_mode now t mode m = evaluate_effective_mode now t (record m { requested_mode = mode })

  unfoldable pub update_risk_state : ℕ → DrawdownTracker F → UserModeManager F → UserModeManager F
  unfolding evaluate_effective_mode
  update_risk_state now t m = evaluate_effective_mode now t m

  unfoldable pub get_config : UserModeManager F → UserModeConfig F
  unfolding mode_config
  get_config m = mode_config m.effective_mode

  unfoldable pub should_execute_trades : UserModeManager F → Bool
  unfolding get_config
  should_execute_trades m = (get_config m).execute_trades
