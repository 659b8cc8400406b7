-- ===== src/Reducer/Tests.antt =====
-- Two positions, and the theorems at them.
use stock_test.Base.{◌≡◌, refl, true, [], ◌∷◌}
use stock_test.Float.{of_dec, of_ℕ, fzero, fle}
use stock_test.Float.Fixed.{ℤ, fixed_ops, fixed_order}
use stock_test.Dict.{Dict}
use stock_test.Reducer.{
  PositionReducer, risk_off, dd_soft, fresh_state, trigger_reduce, get_reduce_pct,
}
use stock_test.Reducer.Escalation.{triggered, run, run-escalated}

abbrev positions : Dict ℤ
positions = (1, of_ℕ 2) ∷ (2, of_ℕ 4) ∷ []

abbrev pnls : Dict ℤ
pnls = (1, of_ℕ 1) ∷ []

abbrev reducer : PositionReducer ℤ
reducer = record {
  config = record {
    reduce_rate_risk_off = of_dec 40 2;
    reduce_rate_corr_shock_min = of_dec 30 2;
    reduce_rate_corr_shock_max = of_dec 60 2;
    hard_dd_gradual_close_enabled = true;
    hard_dd_phase1_reduce_pct = of_dec 50 2;
    reduce_stay_duration_minutes = 60;
  };
  state = fresh_state;
  history = [];
}

abbrev halved : PositionReducer ℤ
halved = (trigger_reduce 0 dd_soft positions fzero reducer).1

run-escalated_example :
    ((run (triggered 5 risk_off positions fzero ∷ []) halved).state.is_reducing ≡ true)
    × (fle halved.state.reduce_pct
          (run (triggered 5 risk_off positions fzero ∷ []) halved).state.reduce_pct
        ≡ true)
unfolding trigger_reduce get_reduce_pct
run-escalated_example =
    run-escalated fixed_order (triggered 5 risk_off positions fzero ∷ []) halved refl
