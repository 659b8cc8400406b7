-- ===== src/Exposure/Tests.antt =====
-- An entry next to one open position, cut to the room of its symbol, and the theorems at it.
use stock_test.Base.{none, ℕ, ◌<◌, ◌≡◌, refl, true, false, [], ◌∷◌, length}
use stock_test.Float.{of_ℕ, of_dec, flt}
use stock_test.Float.Fixed.{ℤ, fixed_ops, fixed_order}
use stock_test.Positions.{
  PositionLedger, PositionLedgerEntry, PositionStatus, long, opened, closed, is_open, open_of,
  notional_value, add_notional, get_open_positions, get_positions_by_strategy, get_total_exposure,
  get_symbol_exposure, get_strategy_exposure,
}
use stock_test.Exposure.{
  ExposureConfig, Entry, adjusted_for, symbol_exposure, single_order_limit, strategy_max,
  adjusted_amount_of, adjustment_reason, can_open_position,
}
use stock_test.Exposure.Limits.{Within, allowed-Within}

abbrev config : ExposureConfig ℤ
config = record {
  max_positions = 5;
  max_total_exposure_pct = of_dec 70 2;
  max_symbol_exposure_pct = of_dec 15 2;
  max_strategy_exposure_pct = of_dec 40 2;
  min_cash_reserve_pct = of_dec 20 2;
  max_single_order_pct = of_dec 10 2;
  max_positions_per_strategy = (0, 2) ∷ (1, 2) ∷ (2, 2) ∷ [];
}

abbrev held : ℕ → ℕ → PositionStatus → ℕ → ℕ → PositionLedgerEntry ℤ
held id strategy status quantity price = record {
  position_id = id;
  strategy_id = strategy;
  symbol = 7;
  side = long;
  quantity = of_ℕ quantity;
  avg_entry_price = of_ℕ price;
  realized_pnl = of_ℕ 0;
  unrealized_pnl = of_ℕ 0;
  total_fees = of_ℕ 0;
  status = status;
  entry_time = 0;
  last_fill_time = 0;
  fill_count = 1;
  stop_price = none;
  take_profit_price = none;
  initial_stop_distance = of_ℕ 1000;
}

-- Position 1, of symbol 7, is worth 120 000; position 2 is closed.
abbrev ledger : PositionLedger ℤ
ledger = record {
  positions = (1, held 1 0 opened 2 60000) ∷ (2, held 2 1 closed 1 50000) ∷ [];
  symbol_positions = (7, 1 ∷ 2 ∷ []) ∷ [];
  strategy_positions = (0, 1 ∷ []) ∷ (1, 2 ∷ []) ∷ [];
  fill_history = [];
}

abbrev entry : Entry ℤ
entry = record {
  symbol = 7;
  strategy_id = 0;
  order_amount = of_ℕ 200000;
  total_equity = of_ℕ 1000000;
  available_cash = of_ℕ 880000;
}

entry_allowed : (can_open_position config ledger entry).allowed ≡ true
unfolding can_open_position strategy_max adjusted_amount_of get_open_positions
    get_positions_by_strategy get_total_exposure get_symbol_exposure get_strategy_exposure open_of
    is_open notional_value add_notional
entry_allowed = refl

-- The symbol has room for 30 000, where one order may be 100 000.
entry_cut : (can_open_position config ledger entry).adjusted_amount ≡ of_ℕ 30000
unfolding can_open_position strategy_max adjusted_amount_of get_open_positions
    get_positions_by_strategy get_total_exposure get_symbol_exposure get_strategy_exposure open_of
    is_open notional_value add_notional
entry_cut = refl

entry_reason :
    (can_open_position config ledger entry).reason
    ≡ adjusted_for (symbol_exposure ∷ single_order_limit ∷ [])
unfolding can_open_position adjustment_reason strategy_max adjusted_amount_of get_open_positions
    get_positions_by_strategy get_total_exposure get_symbol_exposure get_strategy_exposure open_of
    is_open notional_value add_notional
entry_reason = refl

allowed-Within_example :
    let r = can_open_position config ledger entry in
    Within config ledger entry r.adjusted_amount
    × (flt r.adjusted_amount (of_ℕ 5000) ≡ false)
    × (length (get_open_positions ledger.positions) < 5)
    × (length (get_positions_by_strategy 0 ledger) < strategy_max config 0)
allowed-Within_example = allowed-Within fixed_order config ledger entry entry_allowed
