-- ===== src/Strategies/Tests.antt =====
-- Five-minute candles that move by 10 % of the price, a position, and the theorems at them.
use stock_test.Base.{ap, get_or, ◌∙◌, sym, ℕ, ◌≡◌, refl, false, none, some, List, [], ◌∷◌}
use stock_test.Float.{of_dec, of_ℕ, neg}
use stock_test.Float.Fixed.{fixed_quotient, ℤ, fixed_ops}
use stock_test.Candles.{Candle, CandleBuffer, get_latest}
use stock_test.ExecHealth.{sum}
use stock_test.Kmvi.{true_ranges}
use stock_test.Strategies.{V3Position, V3Strategy, MarketData, volatile_oversold_bounce, calc_atr}
use stock_test.Strategies.Scan.{scan}
use stock_test.Strategies.Signals.{IsModerate, moderate_no_signal}

abbrev candle : ℕ → Candle ℤ
candle t = record {
  open_time = t;
  opening = of_ℕ 1000;
  high = of_ℕ 1000;
  low = of_ℕ 900;
  close = of_ℕ 1000;
  quote_volume = of_ℕ 5;
}

abbrev buffer : CandleBuffer ℤ
buffer = record {
  candles =
      candle 1
      ∷ candle 2
      ∷ candle 3
      ∷ candle 4
      ∷ candle 5
      ∷ candle 6
      ∷ candle 7
      ∷ candle 8
      ∷ candle 9
      ∷ candle 10
      ∷ candle 11
      ∷ candle 12
      ∷ candle 13
      ∷ candle 14
      ∷ candle 15
      ∷ [];
  max_size = 20;
}

-- The mean true range of the candles is 100.
range_100 : calc_atr 14 buffer ≡ some (of_ℕ 100)
unfolding calc_atr get_latest true_ranges sum
range_100 = refl

buffer-IsModerate : IsModerate (some buffer)
unfolding get_latest
buffer-IsModerate atr e =
    let same : of_ℕ 100 ≡ atr = ap (λ o. get_or o (of_ℕ 100)) (sym range_100 ∙ e) in
    rw (← same) refl

abbrev bounce : V3Strategy ℤ
bounce = record {
  kind = volatile_oversold_bounce;
  name = 7;
  cooldown_minutes = 90;
  sl_pct = neg (of_dec 2 2);
  tp_pct = of_dec 2 2;
  trail_trigger = of_dec 15 3;
  trail_stop = of_dec 8 3;
  time_stop_min = 180;
  position_pct = of_dec 10 2;
  last_entry = [];
  positions = [];
}

abbrev market : MarketData ℤ
market = record { price = of_ℕ 900; volume_24h = of_ℕ 2000000000; rvol = of_ℕ 3 }

moderate_no_signal_example : scan (some buffer) market 5 1 bounce ≡ none
moderate_no_signal_example =
    moderate_no_signal fixed_quotient (some buffer) market 5 1 bounce refl buffer-IsModerate

abbrev position : V3Position ℤ
position = record {
  symbol = 1;
  strategy = 7;
  entry_price = of_ℕ 1000;
  quantity = of_ℕ 1;
  entry_time = 0;
  stop_loss_pct = neg (of_dec 2 2);
  take_profit_pct = of_dec 2 2;
  trail_trigger_pct = of_dec 15 3;
  trail_stop_pct = of_dec 8 3;
  time_stop_minutes = 180;
  highest_price = of_ℕ 1000;
  trailing_active = false;
}

abbrev ticks : List (ℤ × ℕ)
ticks = (of_ℕ 1016, 1) ∷ (of_ℕ 1012, 2) ∷ []
