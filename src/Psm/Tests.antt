-- ===== src/Psm/Tests.antt =====
-- Evaluations of one long position, and the theorems at them.
use stock_test.Base.{◌≡◌, refl, Bool, true, false, some, none, List, [], ◌∷◌, All}
use stock_test.Float.{of_dec, of_ℕ, fle}
use stock_test.Float.Fixed.{ℤ, fixed_ops, fixed_order}
use stock_test.Psm.State.{strong, long, ManagedPosition, PsmConfig, update_extremes, calc_r_pnl}
use stock_test.Psm.Answers.{Answers, neutral}
use stock_test.Psm.Machine.{
  create_position, check_weak_hard_rules, check_hard_rules, transition_state, score_to_state,
  force_state, record_score, follow_score, advance, evaluate_position,
}
use stock_test.Psm.Stops.{Protects}
use stock_test.Psm.Terms.{evaluate-Protects}
use stock_test.Psm.Climax.{intents, IsFirstClimax, extreme_never_exits}

abbrev config : PsmConfig ℤ
config = record {
  psm_weak_threshold = of_ℕ 40;
  psm_strong_threshold = of_ℕ 70;
  psm_extreme_threshold = of_ℕ 85;
  psm_weak_time_stop_min = 15;
  psm_normal_time_stop_min = 30;
  psm_weak_min_r = of_dec 3 1;
  psm_normal_min_r = of_dec 5 1;
  psm_initial_stop_atr = of_dec 12 1;
  psm_weak_stop_atr = of_dec 3 1;
  psm_normal_trailing_atr = of_dec 8 1;
  psm_strong_trailing_atr = of_dec 12 1;
  psm_extreme_stop_atr = of_dec 1 1;
  psm_tp1_r = of_dec 8 1;
  psm_tp2_r = of_dec 15 1;
  psm_tp2_strong_r = of_ℕ 2;
  psm_tp1_pct_normal = of_dec 30 2;
  psm_tp1_pct_strong = of_dec 20 2;
  psm_tp2_pct = of_dec 30 2;
  psm_extreme_tp_pct = of_dec 50 2;
  psm_extreme_cooldown_min = 60;
}

-- Bought at 100 with an ATR of 5: the stop is at 94.
abbrev position : ManagedPosition ℤ
position = create_position config 0 1 long (of_ℕ 100) (of_ℕ 2) (of_ℕ 5)

-- A calm market with a score of 75, overheated or not.
abbrev calm : Bool → Answers ℤ
calm hot = record {
  now = 60000000;
  is_volatile = false;
  regime = neutral;
  risk_mode_normal = some true;
  decision = none;
  structure_break = false;
  overheat = hot;
  total_score = of_ℕ 75;
  features = some (record { vwap_5m = of_ℕ 101; atr_14_5m = of_ℕ 5 });
  last_close = some (of_ℕ 103);
  candles = [];
}

second_score :
    (advance config
      (calm false)
      (of_ℕ 104)
      (advance config (calm false) (of_ℕ 103) position)).current_state
    ≡ strong
unfolding advance follow_score record_score force_state check_hard_rules check_weak_hard_rules
    calc_r_pnl transition_state score_to_state update_extremes create_position
second_score = refl

evaluate-Protects_example :
    let (p', intent) = evaluate_position config (calm false) (of_ℕ 104) position in
    Protects long position.current_stop intent.desired_stop_price
    × ((p'.side ≡ position.side)
        × (p'.quantity ≡ position.quantity)
        × (p'.entry_price ≡ position.entry_price))
    × ((fle p'.lowest_price (of_ℕ 104) ≡ true)
        × (fle (of_ℕ 104) p'.highest_price ≡ true)
        × (fle p'.lowest_price position.lowest_price ≡ true)
        × (fle position.highest_price p'.highest_price ≡ true))
evaluate-Protects_example =
    evaluate-Protects fixed_order long config (calm false) (of_ℕ 104) position
      (unfold create_position in refl)

abbrev hot_twice : List (Answers ℤ × ℤ)
hot_twice = (calm true, of_ℕ 104) ∷ (calm true, of_ℕ 106) ∷ []

extreme_never_exits_example : All (IsFirstClimax config) (intents config hot_twice position)
extreme_never_exits_example =
    extreme_never_exits config hot_twice position (unfold create_position in refl)
