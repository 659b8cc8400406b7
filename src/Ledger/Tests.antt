-- ===== src/Ledger/Tests.antt =====
-- Trades and equity of two days, and the theorems at them.
use stock_test.Base.{
  if◌then◌else◌, ◌==◌, ℕ, ◌+◌, ◌≡◌, refl, some, none, List, [], ◌∷◌, ◌++◌, length,
}
use stock_test.Float.{of_ℕ, of_dec, add}
use stock_test.Float.Fixed.{ℤ, fixed_ops, fixed_order}
use stock_test.Dict.{lookup}
use stock_test.Order.{buy, crash_recovery}
use stock_test.Ledger.{
  Trade, Ledger, init, today_stats, record_trade, attribute_error, fresh_stats, with_stats,
  count_trade, follow_equity, update_equity, strategy_named, get_trades,
}
use stock_test.Ledger.Days.{
  Call, record_call, equity_call, apply, run, EachDay, IsEnclosed, run-IsEnclosed,
}
use stock_test.Ledger.Totals.{record_trade_raised}

abbrev sale : Trade ℤ
sale = record {
  trade_id = 1;
  order_id = 1;
  symbol = 7;
  strategy = crash_recovery;
  side = buy;
  quantity = of_ℕ 2;
  price = of_ℕ 50;
  fee = of_dec 1 1;
  fee_asset = 0;
  realized_pnl = of_ℕ 4;
  executed_at = 0;
}

abbrev ledger : Ledger ℤ
ledger = init 1 (of_ℕ 100)

abbrev calls : List (Call ℤ)
calls =
    record_call 5 1 sale
    ∷ equity_call 1 (of_ℕ 90)
    ∷ equity_call 2 (of_ℕ 95)
    ∷ record_call 9 2 sale
    ∷ []

-- The result of a trade is gone with the next equity.
pnl_after_equity : (today_stats 1 (run calls ledger)).pnl ≡ ℤ.negsuc 9999999
unfolding run apply record_trade strategy_named with_stats today_stats count_trade follow_equity
    update_equity init fresh_stats
pnl_after_equity = refl

-- A limit of 0 is no limit.
trades_of_limit_0 : length (get_trades none none 0 (run calls ledger)) ≡ 2
unfolding get_trades run apply record_trade strategy_named with_stats update_equity init
trades_of_limit_0 = refl

record_trade_raised_example :
    let (l', raised) = record_trade 5 1 sale ledger in
    let s = today_stats 1 ledger in
    let s' = today_stats 1 l' in
    (raised ≡ some (attribute_error "CORE"))
    × (l'.trades ≡ ledger.trades ++ (record sale { executed_at = 5 }) ∷ [])
    × ((s'.trades_count ≡ s.trades_count + 1)
        × (s'.fees ≡ add s.fees sale.fee)
        × (s'.pnl ≡ add s.pnl sale.realized_pnl))
    × ((s'.core_pnl ≡ s.core_pnl) × (s'.satellite_pnl ≡ s.satellite_pnl))
    × ((day : ℕ)
        → lookup day l'.daily_stats ≡ (if 1 == day then some s' else lookup day ledger.daily_stats))
record_trade_raised_example = record_trade_raised 5 1 sale ledger

run-IsEnclosed_example : EachDay IsEnclosed (run calls ledger)
run-IsEnclosed_example = run-IsEnclosed fixed_order 1 (of_ℕ 100) calls
