-- ===== src/Hysteresis/Tests.antt =====
-- Three good days, and the theorems at them.
use stock_test.Base.{◌≡◌, refl, some, none, [], ◌∷◌, arith}
use stock_test.Float.Fixed.{ℤ, pos, fixed_ops, fixed_order}
use stock_test.Hysteresis.{
  growth, preserve, HysteresisState, Limits, fresh_state, load_state, to_dict, has_date, put_record,
  streak, check_transition, daily_record, record_daily_equity,
}
use stock_test.Hysteresis.Streaks.{load_state-to_dict}
use stock_test.Hysteresis.Switch.{run, no_flip_back}

-- In millions of won.
abbrev limits : Limits ℤ
limits = record {
  threshold_krw = pos 10000000;
  lower_threshold_krw = pos 9000000;
  preserve_days = 3;
  growth_days = 2;
}

abbrev two_days : HysteresisState ℤ
two_days = record {
  current_mode = growth;
  consecutive_preserve_days = 2;
  consecutive_growth_days = 0;
  last_transition_date = none;
  last_transition_reason = none;
  history =
      daily_record limits (pos 11000000) 1 growth
      ∷ daily_record limits (pos 12000000) 2 growth
      ∷ [];
}

third_day :
    (run limits
      ((pos 11000000, 1) ∷ (pos 12000000, 2) ∷ (pos 10000000, 3) ∷ [])
      fresh_state).current_mode
    ≡ preserve
unfolding run record_daily_equity put_record has_date streak check_transition
third_day = refl

load_state-to_dict_example : load_state (λ d. some d) (some (to_dict two_days)) ≡ two_days
load_state-to_dict_example =
    load_state-to_dict (λ d. d) (λ d. some d) two_days (λ d. refl) (omega arith)

no_flip_back_example :
    (run limits ((pos 10000000, 3) ∷ (pos 1000000, 4) ∷ []) two_days).current_mode ≡ preserve
unfolding record_daily_equity put_record has_date streak check_transition daily_record
no_flip_back_example =
    no_flip_back fixed_order limits (pos 10000000) 3 ((pos 1000000, 4) ∷ []) two_days (omega arith)
      refl (refl, (refl, tt)) refl refl (omega arith)
