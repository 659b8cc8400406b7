-- ===== src/TimeStop.antt =====
-- server/src/position/time_stop_policy.py: when a position is closed because of its age. The texts of
-- the answers are the constructors of `TimeStopReason`.
pub mod Patience
mod Tests
use stock_test.Base.{
  ℕ, Bool, true, false, not, ◌&&◌, Option, none, some, ◌==◌, if◌then◌else◌, get_or,
}
use stock_test.Float.{FloatOps, of_dec, of_ℕ, fzero, sub, mul, div, flt, fle, fmin, fmax, neg}
use stock_test.Clock.{total_seconds}
use stock_test.Dict.{Dict, lookup, put}
use stock_test.Psm.State.{PositionState, weak, normal, strong, extreme, Side, long, short}

pub record TimeStopConfig (F : Type 0) : Type 0 where
  pub weak_time_min : ℕ
  pub weak_min_r : F
  pub normal_time_min : ℕ
  pub normal_min_r : F
  pub volatility_adjustment : Bool
  pub high_vol_time_multiplier : F
  pub low_vol_time_multiplier : F
  pub allow_time_stop_in_profit : Bool
  pub min_time_before_stop : ℕ

pub data TimeStopReason : Type 0 where
  min_wait_time profitable time_stop no_time_stop_state not_triggered : TimeStopReason

pub record TimeStopResult (F : Type 0) : Type 0 where
  pub should_stop : Bool
  pub reason : TimeStopReason
  pub r_pnl : F
  pub time_in_trade : F
  pub adjusted_threshold : F

pub record TimeStopPolicy (F : Type 0) : Type 0 where
  pub config : TimeStopConfig F
  pub volatility_cache : Dict F

-- The arguments of `should_time_stop`
pub record Trade (F : Type 0) : Type 0 where
  pub symbol : ℕ
  pub side : Side
  pub entry_price : F
  pub entry_time : ℕ
  pub current_price : F
  pub current_state : PositionState
  pub initial_stop_distance : F

module _ {F : Type 0} ⦃fl : FloatOps F⦄ where
  unfoldable pub update_volatility : ℕ → F → TimeStopPolicy F → TimeStopPolicy F
  update_volatility symbol percentile p = record p {
    volatility_cache = put symbol (fmax fzero (fmin (of_ℕ 1) percentile)) p.volatility_cache;
  }

  unfoldable pub get_volatility : ℕ → TimeStopPolicy F → F
  get_volatility symbol p = get_or (lookup symbol p.volatility_cache) (of_dec 5 1)

  abbrev pub signed : Side → F → F
  signed long x = x
  signed short x = neg x

  unfoldable pub r_pnl_of : Trade F → F
  r_pnl_of t =
      if flt fzero t.initial_stop_distance
      then div (signed t.side (sub t.current_price t.entry_price)) t.initial_stop_distance
      else signed t.side (mul (div (sub t.current_price t.entry_price) t.entry_price) (of_ℕ 100))

  unfoldable pub time_multiplier_of : TimeStopConfig F → F → F
  time_multiplier_of c volatility =
      if c.volatility_adjustment
      then if flt (of_dec 7 1) volatility
        then c.high_vol_time_multiplier
        else if flt volatility (of_dec 3 1)
        then c.low_vol_time_multiplier
        else of_ℕ 1
      else of_ℕ 1

  -- The time and the profit of a state up to which it is stopped, if it is at all
  unfoldable pub threshold_of : TimeStopConfig F → F → PositionState → Option (F × F)
  threshold_of c multiplier weak = some (mul (of_ℕ c.weak_time_min) multiplier, c.weak_min_r)
  threshold_of c multiplier normal = some (mul (of_ℕ c.normal_time_min) multiplier, c.normal_min_r)
  threshold_of c multiplier strong = none
  threshold_of c multiplier extreme = none

  unfoldable pub should_time_stop : ℕ → Trade F → TimeStopPolicy F → TimeStopResult F
  should_time_stop now t p =
      let c = p.config in
      let time = div (total_seconds now t.entry_time) (of_ℕ 60) in
      let r = r_pnl_of t in
      let multiplier = time_multiplier_of c (get_volatility t.symbol p) in
      let answer : Bool → TimeStopReason → F → TimeStopResult F = λ stop why threshold. record {
        should_stop = stop;
        reason = why;
        r_pnl = r;
        time_in_trade = time;
        adjusted_threshold = threshold;
      } in
      if flt time (of_ℕ c.min_time_before_stop)
      then answer false min_wait_time fzero
      else if flt fzero r && not c.allow_time_stop_in_profit
      then answer false profitable fzero
      else elim (threshold_of c multiplier t.current_state) [
        | none ↦ answer false no_time_stop_state fzero
        | some (threshold, max_r) ↦
            if fle threshold time && fle r max_r
            then answer true time_stop threshold
            else answer false not_triggered fzero
      ]
