-- ===== src/Ledger/Totals.antt =====
-- What a recorded trade leaves, and the number of trades that the days have counted.
use stock_test.Base.{
  if◌then◌else◌, ◌==◌, ℕ, ◌+◌, ◌≡◌, refl, sym, ap, ◌∙◌, Bool, true, false, some, List, [], ◌∷◌,
  ◌++◌, arith, any, length, length-append,
}
use stock_test.Float.{FloatOps, add}
use stock_test.Dict.{Dict, lookup, lookup-put, total, total-put}
use stock_test.Ledger.{
  Trade, DailyStats, Ledger, attribute_error, fresh_stats, init, today_stats, with_stats,
  count_trade, record_trade, follow_equity, update_equity, strategy_named,
}
use stock_test.Ledger.Days.{Call, record_call, equity_call, day_call, apply, run}

abbrev pub is_day_call : {F : Type 0} → Call F → Bool
is_day_call (record_call now today t) = false
is_day_call (equity_call today equity) = false
is_day_call (day_call today equity) = true

module _ {F : Type 0} ⦃fl : FloatOps F⦄ where
  today-with_stats :
      (today : ℕ) (change : DailyStats F → DailyStats F) (l : Ledger F)
      → today_stats today (with_stats today change l) ≡ change (today_stats today l)
  unfolding with_stats today_stats
  today-with_stats today change l =
      ground (arith, lookup-put today today (change (today_stats today l)) l.daily_stats)

  lookup-with_stats :
      (today day : ℕ) (change : DailyStats F → DailyStats F) (l : Ledger F)
      → lookup day (with_stats today change l).daily_stats ≡ (
          if today == day
          then some (today_stats today (with_stats today change l))
          else lookup day l.daily_stats)
  unfolding with_stats
  lookup-with_stats today day change l = ground (
    arith,
    lookup-put today day (change (today_stats today l)) l.daily_stats,
    today-with_stats today change l,
  )

  -- `record_trade` raises an `AttributeError`, whatever the strategy of the trade, and yet it has
  -- appended the trade and has counted it, its fee and its result in the statistics of the day;
  -- neither part of the split, and no other day, has changed.
  pub record_trade_raised :
      (now today : ℕ) (t : Trade F) (l : Ledger F)
      → let (l', raised) = record_trade now today t l in
        let s = today_stats today l in
        let s' = today_stats today l' in
        (raised ≡ some (attribute_error "CORE"))
        × (l'.trades ≡ l.trades ++ (record t { executed_at = now }) ∷ [])
        × ((s'.trades_count ≡ s.trades_count + 1)
            × (s'.fees ≡ add s.fees t.fee)
            × (s'.pnl ≡ add s.pnl t.realized_pnl))
        × ((s'.core_pnl ≡ s.core_pnl) × (s'.satellite_pnl ≡ s.satellite_pnl))
        × ((day : ℕ)
            → lookup day l'.daily_stats
              ≡ (if today == day then some s' else lookup day l.daily_stats))
  unfolding record_trade strategy_named count_trade with_stats today_stats
  record_trade_raised now today t l =
      let trade : Trade F = record t { executed_at = now } in
      let appended : Ledger F = record l { trades = l.trades ++ trade ∷ [] } in
      let e = today-with_stats today (count_trade trade) appended in
      (
        refl,
        refl,
        (
          ap (λ (s : DailyStats F). s.trades_count) e,
          ap (λ (s : DailyStats F). s.fees) e,
          ap (λ (s : DailyStats F). s.pnl) e,
        ),
        (ap (λ (s : DailyStats F). s.core_pnl) e, ap (λ (s : DailyStats F). s.satellite_pnl) e),
        λ day. lookup-with_stats today day (count_trade trade) appended,
      )

  abbrev pub counted : Dict (DailyStats F) → ℕ
  counted = total (λ (s : DailyStats F). s.trades_count)

  with_stats-counted :
      (today n : ℕ) (change : DailyStats F → DailyStats F) (l : Ledger F)
      → ((s : DailyStats F) → (change s).trades_count ≡ s.trades_count + n)
      → counted (with_stats today change l).daily_stats ≡ counted l.daily_stats + n
  unfolding with_stats today_stats fresh_stats
  with_stats-counted today n change l h =
      let s = today_stats today l in
      let start = fresh_stats today l.current_equity in
      ground (
        arith,
        h s,
        total-put (λ (s : DailyStats F). s.trades_count) today (change s) start l.daily_stats refl,
      )

  apply-counted :
      (c : Call F) (l : Ledger F)
      → is_day_call c ≡ false
      → counted l.daily_stats ≡ length l.trades
      → counted (apply c l).daily_stats ≡ length (apply c l).trades
  unfolding apply record_trade strategy_named update_equity count_trade follow_equity with_stats
  apply-counted (record_call now today t) l b h =
      let trade : Trade F = record t { executed_at = now } in
      let appended : Ledger F = record l { trades = l.trades ++ trade ∷ [] } in
      with_stats-counted today 1 (count_trade trade) appended (λ s. refl)
      ∙ ap (λ (n : ℕ). n + 1) h
      ∙ sym (length-append l.trades (trade ∷ []))
  apply-counted (equity_call today equity) l b h =
      with_stats-counted today 0 (follow_equity equity) (record l { current_equity = equity })
        (λ s. ground arith)
      ∙ ground (arith, h)
  apply-counted (day_call today equity) l b h = ground arith

  run-counted_from :
      (cs : List (Call F)) (l : Ledger F)
      → any is_day_call cs ≡ false
      → counted l.daily_stats ≡ length l.trades
      → counted (run cs l).daily_stats ≡ length (run cs l).trades
  unfolding run
  run-counted_from [] l b h = h
  run-counted_from (c ∷ cs) l b h =
      let parts : (is_day_call c ≡ false) × (any is_day_call cs ≡ false) = ground arith in
      run-counted_from cs (apply c l) parts.1 (apply-counted c l parts.0 h)

  -- After any calls on a new ledger but `new_day`, the trades that the days have counted are as
  -- many as those recorded.
  pub run-counted :
      (today : ℕ) (equity : F) (cs : List (Call F))
      → any is_day_call cs ≡ false
      → counted (run cs (init today equity)).daily_stats
        ≡ length (run cs (init today equity)).trades
  unfolding init fresh_stats
  run-counted today equity cs b = run-counted_from cs (init today equity) b refl
