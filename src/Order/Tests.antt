-- ===== src/Order/Tests.antt =====
-- Lives of an order, and the theorems at them.
use stock_test.Base.{◌≡◌, refl, ap, true, some, List, [], ◌∷◌}
use stock_test.Float.Fixed.{ℤ, pos, fixed_ops}
use stock_test.Order.{
  Order, canceled, OrderSide, OrderType, StrategyType, create, transition_to, mark_sent, mark_acked,
  mark_canceled, mark_partial_fill, is_terminal,
}
use stock_test.Order.Lifecycle
use stock_test.Order.Lifecycle.{
  Call, call_sent, call_acked, call_partial_fill, call_filled, call_canceled, run, IsTraced,
  create-run-IsTraced, terminal_absorbs, mark_filled_raised,
}

abbrev fresh : Order ℤ
fresh =
    create "o" "KRW-BTC" StrategyType.crash_recovery OrderSide.buy OrderType.limit (pos 2000000)
      (some (pos 5000000)) 0 0

abbrev two_fills : List (Call ℤ)
two_fills =
    call_sent 1 "x"
    ∷ call_acked 2
    ∷ call_partial_fill 3 3 (pos 500000) (pos 4000000) (pos 0)
    ∷ call_canceled 4
    ∷ []

-- One and a half units at 4 and one half at 8: the average is 5.
average_of_two_fills :
    (run
      (call_sent 1 "x"
        ∷ call_acked 2
        ∷ call_partial_fill 3 3 (pos 1500000) (pos 4000000) (pos 0)
        ∷ call_partial_fill 4 4 (pos 500000) (pos 8000000) (pos 0)
        ∷ [])
      fresh).avg_fill_price
    ≡ some (pos 5000000)
unfolding run Lifecycle.apply create mark_sent mark_acked mark_partial_fill transition_to
average_of_two_fills = refl

two_fills_canceled : (run two_fills fresh).status ≡ canceled
unfolding run Lifecycle.apply create mark_sent mark_acked mark_canceled mark_partial_fill
    transition_to
two_fills_canceled = refl

create-run-IsTraced_example : IsTraced (run two_fills fresh)
create-run-IsTraced_example =
    create-run-IsTraced "o" "KRW-BTC" StrategyType.crash_recovery OrderSide.buy OrderType.limit
      (pos 2000000) (some (pos 5000000)) 0 0 two_fills

abbrev stopped : Order ℤ
stopped = run two_fills fresh

stopped_is_terminal : is_terminal stopped.status ≡ true
unfolding is_terminal
stopped_is_terminal = ap is_terminal two_fills_canceled
