-- ===== src/Trading/Tests.antt =====
-- An exchange that fills every order, an engine with one strategy, and the theorems at them.

use stock_test.Base.{◌⊎◌, ℕ, suc, ◌+◌, ◌≡◌, refl, Bool, true, false, none, some, List, [], ◌∷◌, ◌≤◌}
use stock_test.Float.{of_dec, of_ℕ, fzero, neg}
use stock_test.Float.Fixed.{ℤ, fixed_ops}
use stock_test.Candles.{Candle, CandleBuffer}
use stock_test.Order.{filled}
use stock_test.UserMode
use stock_test.UserMode.{paper, should_execute_trades, get_config, mode_config}
use stock_test.Executor.{ok}
use stock_test.Overlay.{RiskDecision}
use stock_test.Overlay.Evaluate.{evaluate}
use stock_test.Overlay.Sample.{overlay, inputs, root, closes}
use stock_test.Strategies.{V3Position, V3Strategy, MarketData, crash_recovery}
use stock_test.Trading.{Market, Names, TradingEngine, total_positions}
use stock_test.Trading.Entries.{Floor, trade_on}
use stock_test.Trading.Slots.{limits_ignored}
use stock_test.Trading.Exits.{manage_v3_exits}
use stock_test.Trading.Rounds.{Round, trade_rounds, rounds_bounded, exits_on_paper}
use stock_test.Trading.Sales.{IsDistinct, exits_close_one}

-- The outside is the number of orders and questions that the exchange has had.
abbrev exchange : Market ℤ ℕ
exchange = record {
  now = λ x. (1000000, x);
  get_balance =
      λ a x. (ok (some (record { asset = a; free = of_ℕ 1000000; total = of_ℕ 1000000 })), x + 1);
  get_all_balances = λ x. (ok [], x + 1);
  place_order = λ buys symbol qty x. (
    ok (record {
      success = true;
      exchange_order_id = none;
      status = filled;
      filled_qty = qty;
      avg_price = fzero;
    }),
    x + 1,
  );
}

abbrev names : Names
names = record { krw = 0; symbol_of = λ a. a; base_of = λ s. s; stablecoins = 9 ∷ [] }

abbrev strategy : V3Strategy ℤ
strategy = record {
  kind = crash_recovery;
  name = 7;
  cooldown_minutes = 60;
  sl_pct = neg (of_dec 15 3);
  tp_pct = of_dec 2 2;
  trail_trigger = of_dec 15 3;
  trail_stop = of_dec 5 3;
  time_stop_min = 120;
  position_pct = of_dec 10 2;
  last_entry = [];
  positions = [];
}

abbrev market_at : ℕ → MarketData ℤ
market_at price = record { price = of_ℕ price; volume_24h = of_ℕ 2000000000; rvol = of_ℕ 3 }

abbrev engine : TradingEngine ℤ
engine = record {
  v3_enabled = true;
  v3_max_positions = 1;
  v3_strategies = strategy ∷ [];
  risk_overlay = overlay;
  mode_manager = UserMode.init;
  market_data = [];
}

abbrev floor : Floor ℤ ℕ
floor = record { engine = engine; outside = 0 }

-- A fall from 1000 to 900, and a little rise at its end
abbrev candle : ℕ → ℕ → ℕ → Candle ℤ
candle t opening close = record {
  open_time = t;
  opening = of_ℕ opening;
  high = of_ℕ 1000;
  low = of_ℕ 900;
  close = of_ℕ close;
  quote_volume = of_ℕ 5;
}

abbrev buffer : CandleBuffer ℤ
buffer = record {
  candles =
      candle 1 1000 1000
      ∷ candle 2 1000 1000
      ∷ candle 3 1000 1000
      ∷ candle 4 1000 1000
      ∷ candle 5 1000 950
      ∷ candle 6 950 930
      ∷ candle 7 930 910
      ∷ candle 8 900 905
      ∷ [];
  max_size = 20;
}

abbrev round_at : Bool → ℕ → Round ℤ
round_at can_open price = record {
  can_open = can_open;
  market = (1, market_at price) ∷ (2, market_at price) ∷ [];
  buffer = λ s. some buffer;
  inputs = inputs;
}

-- Two rounds in which the strategy buys and one that may not open positions
abbrev rounds : List (Round ℤ)
rounds = round_at true 905 ∷ round_at true 906 ∷ round_at false 950 ∷ []

rounds_bounded_example :
    (total_positions (trade_rounds exchange names root closes rounds floor).engine.v3_strategies
      ≤ 1)
    ⊎ (total_positions (trade_rounds exchange names root closes rounds floor).engine.v3_strategies
        ≤ total_positions floor.engine.v3_strategies)
rounds_bounded_example = rounds_bounded exchange names root closes rounds floor

abbrev position : ℕ → V3Position ℤ
position symbol = record {
  symbol = symbol;
  strategy = 7;
  entry_price = of_ℕ 905;
  quantity = of_ℕ 1;
  entry_time = 0;
  stop_loss_pct = neg (of_dec 15 3);
  take_profit_pct = of_dec 2 2;
  trail_trigger_pct = of_dec 15 3;
  trail_stop_pct = of_dec 5 3;
  time_stop_minutes = 120;
  highest_price = of_ℕ 905;
  trailing_active = false;
}

-- Two positions that both have reached their target
abbrev due : Floor ℤ ℕ
due = record {
  engine = record engine {
    v3_strategies = record strategy { positions = (1, position 1) ∷ (2, position 2) ∷ [] } ∷ [];
    market_data = (1, market_at 950) ∷ (2, market_at 950) ∷ [];
  };
  outside = 0;
}

two_keys : IsDistinct ((1, position 1) ∷ (2, position 2) ∷ [])
unfolding IsDistinct
two_keys = (refl, (refl, tt))

exits_close_one_example :
    2 ≤ suc (total_positions (manage_v3_exits exchange names due).engine.v3_strategies)
unfolding total_positions
exits_close_one_example = exits_close_one exchange names due (two_keys, tt)

abbrev on_paper : Floor ℤ ℕ
on_paper = record due {
  engine = record due.engine {
    mode_manager = record due.engine.mode_manager { effective_mode = paper };
  };
}

paper_trades_nothing : should_execute_trades on_paper.engine.mode_manager ≡ false
unfolding should_execute_trades get_config mode_config
paper_trades_nothing = refl

exits_on_paper_example :
    ((manage_v3_exits exchange names on_paper).outside ≡ 0)
    × (total_positions (manage_v3_exits exchange names on_paper).engine.v3_strategies ≡ 2)
unfolding total_positions
exits_on_paper_example = exits_on_paper exchange names on_paper paper_trades_nothing

-- A decision that allows everything, and one that allows no entries
abbrev open_decision : RiskDecision ℤ
open_decision = (evaluate root closes inputs overlay).0

abbrev shut_decision : RiskDecision ℤ
shut_decision = record open_decision {
  satellite_allowed = false;
  core_allowed = false;
  max_exposure_pct = fzero;
}

limits_ignored_example :
    trade_on exchange names (λ s. some buffer) (of_ℕ 1000000) open_decision due
    ≡ trade_on exchange names (λ s. some buffer) (of_ℕ 1000000) shut_decision due
limits_ignored_example =
    limits_ignored exchange names (λ s. some buffer) (of_ℕ 1000000) open_decision shut_decision due
      refl refl
