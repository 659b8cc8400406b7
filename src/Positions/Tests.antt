-- ===== src/Positions/Tests.antt =====
-- Fills of two strategies in one symbol, and the theorems at them.
use stock_test.Base.{
  ℕ, ◌≡◌, ◌↔◌, refl, true, false, none, some, List, [], ◌∷◌, ◌&&◌, ◌==◌, if◌then◌else◌,
}
use stock_test.Float.{of_ℕ}
use stock_test.Float.Fixed.{ℤ, fixed_ops}
use stock_test.Positions.{PositionLedger, FillEvent, PositionLedgerEntry, closed, is_open}
use stock_test.Positions.Fills.{
  find_open_position, on_buy_fill, new_position, create_new_position, add_to_index, add_id,
  add_fill_history, with_sell, on_sell_fill, target, named, find_among,
}
use stock_test.Positions.Invariant.{IsConsistent}
use stock_test.Positions.Calls.{Call, buy, sell, apply, run, run-IsConsistent}
use stock_test.Positions.View.{after_buy, after_sell, buy-view, sell-view}
use stock_test.Positions.Reconcile.{
  check_positions, check_balances, has_symbol, is_off, describe, Agree, Covered,
  reconcile_with_exchange, reconcile_iff,
}

abbrev empty : PositionLedger ℤ
empty = record { positions = []; symbol_positions = []; strategy_positions = []; fill_history = [] }

empty-IsConsistent : IsConsistent empty
empty-IsConsistent = record {
  keyed = λ id p at. cc;
  symbols = λ key id. refl;
  strategies = λ key id. refl;
  unique = λ i j p q at_i at_j open_p open_q sy st. cc;
}

-- A fill of symbol 7, with a price of 100
abbrev fill_of : ℕ → ℕ → FillEvent ℤ
fill_of strategy quantity = record {
  order_id = 1;
  position_id = none;
  symbol = 7;
  strategy_id = strategy;
  filled_quantity = of_ℕ quantity;
  fill_price = of_ℕ 100;
  fee = of_ℕ 0;
  timestamp = 5;
  requested_price = of_ℕ 100;
  initial_stop_price = some (of_ℕ 95);
}

abbrev calls : List (Call ℤ)
calls = buy 11 (fill_of 0 2) ∷ buy 12 (fill_of 1 3) ∷ sell (fill_of 0 2) ∷ []

run-IsConsistent_example : IsConsistent (run calls empty)
unfolding apply run on_buy_fill on_sell_fill target named find_open_position find_among
    create_new_position add_to_index add_id add_fill_history is_open
run-IsConsistent_example =
    run-IsConsistent calls empty ((λ p e. cc, refl), ((λ p e. cc, refl), (λ p e. cc, tt)))
      empty-IsConsistent

-- The third position of the ledger, in a new ledger
buy-view_example : find_open_position 7 0 (on_buy_fill 11 (fill_of 0 2) empty) ≡ (
    if 7 == 7 && 0 == 0
    then after_buy 11 (fill_of 0 2) (find_open_position 7 0 empty)
    else find_open_position 7 0 empty)
buy-view_example = buy-view 11 7 0 (fill_of 0 2) empty empty-IsConsistent refl refl

sell-view_example : find_open_position 7 0 (on_sell_fill (fill_of 0 2) (run calls empty)) ≡ (
    if 7 == 7 && 0 == 0
    then after_sell (fill_of 0 2) (find_open_position 7 0 (run calls empty))
    else find_open_position 7 0 (run calls empty))
sell-view_example = sell-view 7 0 (fill_of 0 2) (run calls empty) run-IsConsistent_example refl

abbrev all_sold : PositionLedger ℤ
all_sold = run (buy 11 (fill_of 0 2) ∷ sell (fill_of 0 2) ∷ []) empty

abbrev spent : PositionLedgerEntry ℤ
spent = record (with_sell (fill_of 0 2) (new_position 11 (fill_of 0 2))) {
  quantity = of_ℕ 0;
  status = closed;
}

-- Two strategies hold 2 and 3 of the symbol, the exchange 5: no match.
two_strategies_off :
    (reconcile_with_exchange
      ((7, of_ℕ 5) ∷ [])
      (run (buy 11 (fill_of 0 2) ∷ buy 12 (fill_of 1 3) ∷ []) empty)).is_matched
    ≡ false
unfolding reconcile_with_exchange check_positions check_balances has_symbol is_off describe apply
    run on_buy_fill target named find_open_position find_among create_new_position add_to_index
    add_id add_fill_history is_open new_position
two_strategies_off = refl

reconcile_iff_example :
    ((reconcile_with_exchange ((7, of_ℕ 5) ∷ []) all_sold).is_matched ≡ true)
    ↔ (Agree ((7, of_ℕ 5) ∷ []) all_sold.positions × Covered ((7, of_ℕ 5) ∷ []) all_sold.positions)
reconcile_iff_example = reconcile_iff ((7, of_ℕ 5) ∷ []) all_sold
