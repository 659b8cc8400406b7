-- ===== src/Psm/State.antt =====
-- The data of server/src/position/schemas.py, with the methods of `ManagedPosition`, and the settings of
-- server/src/position/config.py that the policies and the machine read. A text that explains a
-- decision is a constructor for the place that writes it.
use stock_test.Base.{ℕ, Bool, Option, List, if◌then◌else◌}
use stock_test.Float.{FloatOps, fzero, sub, div, flt, fle}

-- `PositionState`
pub data PositionState : Type 0 where
  weak normal strong extreme : PositionState

abbrev pub state_code : PositionState → ℕ
state_code weak = 0
state_code normal = 1
state_code strong = 2
state_code extreme = 3

-- The side of a position, "LONG" or "SHORT"
pub data Side : Type 0 where
  long short : Side

-- The reason of a transition
pub data TransitionReason (F : Type 0) : Type 0 where
  hard_rule : TransitionReason F
  by_score : F → TransitionReason F

-- `StateTransition`
pub record StateTransition (F : Type 0) : Type 0 where
  pub from_state : PositionState
  pub to_state : PositionState
  pub timestamp : ℕ
  pub score : F
  pub reason : TransitionReason F

-- `ManagedPosition`; of each `ScoreBreakdown` the total is kept.
pub record ManagedPosition (F : Type 0) : Type 0 where
  pub symbol : ℕ
  pub side : Side
  pub entry_price : F
  pub quantity : F
  pub entry_time : ℕ
  pub initial_stop : F
  pub r_value : F
  pub highest_price : F
  pub lowest_price : F
  pub current_stop : F
  pub current_state : PositionState
  pub state_history : List (StateTransition F)
  pub consecutive_weak_count : ℕ
  pub consecutive_strong_count : ℕ
  pub consecutive_extreme_count : ℕ
  pub tp_30_triggered : Bool
  pub tp_60_triggered : Bool
  pub last_score : F
  pub score_history : List F

-- `TakeProfitOrder`
pub record TakeProfitOrder (F : Type 0) : Type 0 where
  pub pct : F
  pub price : F

-- The reason of an `OrderIntent`, where it has one
pub data IntentReason (F : Type 0) : Type 0 where
  weak_time_stop normal_time_stop weak_reduction extreme_exit : IntentReason F
  normal_tp1 normal_tp2 strong_tp1 strong_tp2 : IntentReason F
  extreme_tp : F → IntentReason F

-- `OrderIntent`
pub record OrderIntent (F : Type 0) : Type 0 where
  pub symbol : ℕ
  pub desired_stop_price : F
  pub take_profit_orders : List (TakeProfitOrder F)
  pub exit_now : Bool
  pub reduce_only : Bool
  pub cooldown_minutes : ℕ
  pub reason : Option (IntentReason F)

-- The fields of `PositionStateMachineConfig` that are read here
pub record PsmConfig (F : Type 0) : Type 0 where
  pub psm_weak_threshold : F
  pub psm_strong_threshold : F
  pub psm_extreme_threshold : F
  pub psm_weak_time_stop_min : ℕ
  pub psm_normal_time_stop_min : ℕ
  pub psm_weak_min_r : F
  pub psm_normal_min_r : F
  pub psm_initial_stop_atr : F
  pub psm_weak_stop_atr : F
  pub psm_normal_trailing_atr : F
  pub psm_strong_trailing_atr : F
  pub psm_extreme_stop_atr : F
  pub psm_tp1_r : F
  pub psm_tp2_r : F
  pub psm_tp2_strong_r : F
  pub psm_tp1_pct_normal : F
  pub psm_tp1_pct_strong : F
  pub psm_tp2_pct : F
  pub psm_extreme_tp_pct : F
  pub psm_extreme_cooldown_min : ℕ

module _ {F : Type 0} ⦃fl : FloatOps F⦄ where
  abbrev pub gain : Side → F → F → F
  gain long entry price = sub price entry
  gain short entry price = sub entry price

  unfoldable pub calc_r_pnl : ManagedPosition F → F → F
  calc_r_pnl p price =
      if fle p.r_value fzero then fzero else div (gain p.side p.entry_price price) p.r_value

  unfoldable pub calc_pnl_pct : ManagedPosition F → F → F
  calc_pnl_pct p price =
      if fle p.entry_price fzero then fzero else div (gain p.side p.entry_price price) p.entry_price

  unfoldable pub update_extremes : F → ManagedPosition F → ManagedPosition F
  update_extremes price p = record p {
    highest_price = if flt p.highest_price price then price else p.highest_price;
    lowest_price = if flt price p.lowest_price then price else p.lowest_price;
  }
