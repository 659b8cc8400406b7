-- ===== src/TimeStop/Patience.antt =====
-- Which trades are stopped for their age.
use stock_test.Base.{ℕ, ◌≡◌, ◌↔◌, true, false, not, ◌&&◌, arith}
use stock_test.Float.{FloatOps, FloatOrder, of_ℕ, fzero, mul, div, flt, fle}
use stock_test.Clock.{total_seconds}
use stock_test.Psm.State.{PositionState, weak, normal, strong, extreme}
use stock_test.TimeStop.{
  Trade, TimeStopPolicy, TimeStopConfig, get_volatility, r_pnl_of, time_multiplier_of, threshold_of,
  should_time_stop,
}

module _ {F : Type 0} ⦃fl : FloatOps F⦄ where
  -- The age and the result at which a state is stopped, for a multiplier of the time
  abbrev pub IsOverdue : TimeStopConfig F → F → PositionState → F → F → Type 0
  IsOverdue c multiplier weak time r =
      (fle (mul (of_ℕ c.weak_time_min) multiplier) time ≡ true) × (fle r c.weak_min_r ≡ true)
  IsOverdue c multiplier normal time r =
      (fle (mul (of_ℕ c.normal_time_min) multiplier) time ≡ true) × (fle r c.normal_min_r ≡ true)
  IsOverdue c multiplier strong time r = true ≡ false
  IsOverdue c multiplier extreme time r = true ≡ false

  abbrev pub age_minutes : ℕ → Trade F → F
  age_minutes now t = div (total_seconds now t.entry_time) (of_ℕ 60)

  -- A trade is stopped exactly when it is in WEAK or NORMAL, is at least as old as the time of that
  -- state, scaled for the volatility, and as the least time, and its result is at most that of the
  -- state, and not above 0 unless the settings allow a stop in profit.
  pub stop_iff :
      (now : ℕ) (t : Trade F) (p : TimeStopPolicy F)
      → ((should_time_stop now t p).should_stop ≡ true) ↔ (
          (flt (age_minutes now t) (of_ℕ p.config.min_time_before_stop) ≡ false)
          × (flt fzero (r_pnl_of t) && not p.config.allow_time_stop_in_profit ≡ false)
          × IsOverdue p.config
              (time_multiplier_of p.config (get_volatility t.symbol p))
              t.current_state
              (age_minutes now t)
              (r_pnl_of t))
  unfolding should_time_stop threshold_of
  stop_iff now t p = ground arith

  not-lt_later :
      (o : FloatOrder F) (time later least : F)
      → fle time later ≡ true
      → flt time least ≡ false
      → flt later least ≡ false
  not-lt_later o time later least up waited =
      ground
        (arith, o.ltb-not-leb time least, o.ltb-not-leb later least, o.leb_trans least time later)

  Overdue-later :
      (o : FloatOrder F) (c : TimeStopConfig F) (multiplier : F) (s : PositionState)
      (time later r : F)
      → fle time later ≡ true
      → IsOverdue c multiplier s time r
      → IsOverdue c multiplier s later r
  Overdue-later o c multiplier weak time later r up (old, low) = (o.leb_trans _ _ _ old up, low)
  Overdue-later o c multiplier normal time later r up (old, low) = (o.leb_trans _ _ _ old up, low)
  Overdue-later o c multiplier strong time later r up h = h
  Overdue-later o c multiplier extreme time later r up h = h

  -- A trade that is stopped for its age is stopped at any greater age too, with nothing else changed.
  -- (Numbers in a total order.)
  pub stopped_later :
      (o : FloatOrder F) (now later : ℕ) (t : Trade F) (p : TimeStopPolicy F)
      → fle (age_minutes now t) (age_minutes later t) ≡ true
      → (should_time_stop now t p).should_stop ≡ true
      → (should_time_stop later t p).should_stop ≡ true
  stopped_later o now later t p up stopped =
      let (waited, calm, overdue) = (stop_iff now t p).0 stopped in
      let multiplier = time_multiplier_of p.config (get_volatility t.symbol p) in
      (stop_iff later t p).1 (
        not-lt_later o (age_minutes now t) (age_minutes later t)
            (of_ℕ p.config.min_time_before_stop) up waited,
        calm,
        Overdue-later o p.config multiplier t.current_state (age_minutes now t)
            (age_minutes later t) (r_pnl_of t) up overdue,
      )
