-- ===== src/Trading/Entries.antt =====
-- `_execute_strategies` and `_execute_v3_signal` of server/src/engine/core.py. Both catch every
-- exception and end with what has been done by then.
use stock_test.Base.{
  ℕ, suc, true, false, not, ◌||◌, Option, none, some, List, [], ◌∷◌, ◌++◌, leb, ◌==◌, if◌then◌else◌,
  is_some, any,
}
use stock_test.Float.{FloatOps, of_ℕ, fzero, mul, div, feq, flt, fle}
use stock_test.Dict.{Dict, lookup}
use stock_test.Candles.{CandleBuffer}
use stock_test.Overlay.{RiskDecision, Inputs}
use stock_test.Overlay.Decision.{is_halt}
use stock_test.Overlay.Evaluate.{evaluate}
use stock_test.UserMode.{should_execute_trades, update_risk_state}
use stock_test.Executor.{OrderResult, Result, ok, raised}
use stock_test.Strategies.{
  V3Signal, V3Position, V3Strategy, MarketData, record_entry, track_position, get_position,
}
use stock_test.Strategies.Scan.{scan}
use stock_test.Trading.{
  Balance, Market, Names, TradingEngine, prefilter_symbols_for_v3, worth, sort_descending,
  total_positions,
}

-- The engine and the outside
pub record Floor (F X : Type 0) : Type 0 where
  pub engine : TradingEngine F
  pub outside : X

module _ {F : Type 0} ⦃fl : FloatOps F⦄ where
  -- `x or d`, where 0 is falsy
  abbrev pub nonzero_or : F → F → F
  nonzero_or x d = if feq x fzero then d else x

  unfoldable pub new_position : V3Signal F → F → F → ℕ → V3Strategy F → V3Position F
  new_position signal price qty t s = record {
    symbol = signal.symbol;
    strategy = signal.strategy;
    entry_price = price;
    quantity = qty;
    entry_time = t;
    stop_loss_pct = s.sl_pct;
    take_profit_pct = s.tp_pct;
    trail_trigger_pct = s.trail_trigger;
    trail_stop_pct = s.trail_stop;
    time_stop_minutes = s.time_stop_min;
    highest_price = price;
    trailing_active = false;
  }

  -- The first strategy of the name takes the position.
  unfoldable pub track_first :
      V3Signal F → F → F → ℕ → ℕ → List (V3Strategy F) → List (V3Strategy F)
  track_first signal price qty t u [] = []
  track_first signal price qty t u (s ∷ ss) =
      let rest = track_first signal price qty t u ss in
      if s.name == signal.strategy
      then track_position (new_position signal price qty u s) (record_entry signal.symbol t s) ∷ ss
      else s ∷ rest

  -- The signals of a strategy among the symbols that it has no position in
  unfoldable pub signals_of :
      (ℕ → Option (CandleBuffer F))
      → Dict (MarketData F)
      → ℕ
      → V3Strategy F
      → List ℕ
      → List (V3Signal F)
  signals_of buffer mds now s [] = []
  signals_of buffer mds now s (symbol ∷ symbols) =
      let rest = signals_of buffer mds now s symbols in
      elim (lookup symbol mds) [
        | none ↦ rest
        | some md ↦
            if fle md.price fzero || is_some (get_position symbol s)
            then rest
            else elim (scan (buffer symbol) md now symbol s) [ none ↦ rest | some g ↦ g ∷ rest ]
      ]

  unfoldable pub all_signals :
      (ℕ → Option (CandleBuffer F))
      → Dict (MarketData F)
      → ℕ
      → List ℕ
      → List (V3Strategy F)
      → List (V3Signal F)
  all_signals buffer mds now symbols [] = []
  all_signals buffer mds now symbols (s ∷ ss) =
      signals_of buffer mds now s symbols ++ all_signals buffer mds now symbols ss

  module _ {X : Type 0} (w : Market F X) (n : Names) where
    -- The answer to an order: the position is tracked. The fill event is then made without
    -- `requested_price`, which has no default, so nothing that follows is reached; two of its other
    -- arguments read the clock.
    unfoldable pub after_buy : V3Signal F → F → Result (OrderResult F) → Floor F X → Floor F X
    after_buy signal qty (raised e) d = d
    after_buy signal qty (ok r) d =
        let (t, x) = w.now d.outside in
        let (u, y) = w.now x in
        let found = any (λ s. s.name == signal.strategy) d.engine.v3_strategies in
        if r.success
        then record {
          engine = record d.engine {
            v3_strategies =
                track_first signal (nonzero_or r.avg_price signal.entry_price)
                  (nonzero_or r.filled_qty qty) t u d.engine.v3_strategies;
          };
          outside = (w.now (w.now (if found then y else d.outside)).1).1;
        }
        else d

    -- From the answer of the exchange on the KRW balance on
    unfoldable pub buy_with :
        V3Signal F → F → F → Result (Option (Balance F)) → Floor F X → Floor F X
    buy_with signal krw qty (raised e) d = d
    buy_with signal krw qty (ok balance) d =
        let free : F = elim balance [ none ↦ fzero | some b ↦ b.free ] in
        let (r, x) = w.place_order true signal.symbol qty d.outside in
        if flt free krw
        then d
        else if not (should_execute_trades d.engine.mode_manager)
        then d
        else after_buy signal qty r (record d { outside = x })

    -- `_execute_v3_signal`, with the sizing multiplier of the risk decision
    unfoldable pub execute_v3_signal : F → F → V3Signal F → Floor F X → Floor F X
    execute_v3_signal sizing equity signal d =
        let krw = mul (mul equity signal.position_pct) sizing in
        let qty = if flt fzero signal.entry_price then div krw signal.entry_price else fzero in
        let (balance, x) = w.get_balance n.krw d.outside in
        if flt krw (of_ℕ 5000)
        then d
        else buy_with signal krw qty balance (record d { outside = x })

    -- The loop over the signals, from the positions that it counts; a signal counts also where
    -- nothing was bought.
    unfoldable pub execute_signals : F → F → ℕ → List (V3Signal F) → Floor F X → Floor F X
    execute_signals sizing equity count [] d = d
    execute_signals sizing equity count (g ∷ gs) d =
        let rest =
          execute_signals sizing equity (suc count) gs (execute_v3_signal sizing equity g d) in
        if leb d.engine.v3_max_positions count then d else rest

    module _ (buffer : ℕ → Option (CandleBuffer F)) where
      -- From the risk decision on
      unfoldable pub trade_on : F → RiskDecision F → Floor F X → Floor F X
      trade_on equity decision d =
          let e = d.engine in
          let (now, x) = w.now d.outside in
          let symbols = prefilter_symbols_for_v3 n e.market_data in
          let gs = all_signals buffer e.market_data now symbols e.v3_strategies in
          let total = total_positions e.v3_strategies in
          if is_halt decision.mode
          then d
          else if leb e.v3_max_positions total
          then d
          else execute_signals decision.sizing_multiplier equity total
              (sort_descending (λ g. g.score) gs) (record d { outside = x })

      module _ (root : F → F) (closes : ℕ → ℕ → List F) where
        -- From the balances on: the overlay decides and the user mode follows the drawdown.
        unfoldable pub trade_with :
            Inputs F → Option (Balance F) → List (Balance F) → Floor F X → Floor F X
        trade_with i balance balances d =
            let e = d.engine in
            let start : F = elim balance [ none ↦ fzero | some b ↦ b.total ] in
            let equity = worth n e.market_data start balances in
            let (decision, o) =
              evaluate root closes (record i { current_equity = some equity }) e.risk_overlay in
            let (t, x) = w.now d.outside in
            trade_on equity decision (record {
              engine = record e {
                risk_overlay = o;
                mode_manager = update_risk_state t o.dd_tracker e.mode_manager;
              };
              outside = x;
            })

        unfoldable pub execute_strategies : Inputs F → Floor F X → Floor F X
        execute_strategies i d =
            let (balance, x) = w.get_balance n.krw d.outside in
            let (balances, y) = w.get_all_balances x in
            if not d.engine.v3_enabled then d else elim balance [
              | raised e ↦ record d { outside = x }
              | ok b ↦ elim balances [
                | raised e ↦ record d { outside = y }
                | ok bs ↦ trade_with i b bs (record d { outside = y })
              ]
            ]
