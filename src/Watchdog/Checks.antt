-- ===== src/Watchdog/Checks.antt =====
-- The price of a symbol and the four checks on one position, of server/src/risk/stop_watchdog.py.
use stock_test.Base.{
  ℕ, ◌+◌, Bool, false, Option, none, some, List, [], ◌∷◌, ◌&&◌, ltb, leb, if◌then◌else◌, length,
  not,
}
use stock_test.Float.{FloatOps, of_ℕ, fzero, fmax, sub, mul, div, feq, flt, fle}
use stock_test.Clock.{total_seconds}
use stock_test.Dict.{lookup, put}
use stock_test.Watchdog.State.{
  trailing_stop, time_stop, fast_crash, is_trailing, WatchedPosition, PriceSnapshot, StopWatchdog,
  Reading, Verdict, hold, raised, trigger, microseconds,
}

module _ {F : Type 0} ⦃fl : FloatOps F⦄ where
  -- `WatchedPosition.update_trailing`: the position, and whether the stop was hit
  unfoldable pub update_trailing : F → WatchedPosition F → WatchedPosition F × Bool
  update_trailing price p =
      if not (is_trailing p.stop_type)
      then (p, false)
      else (let p' =
            (if flt p.highest_price price
              then (let new_stop = mul price (sub (of_ℕ 1) p.trailing_distance) in
                  record p {
                    highest_price = price;
                    stop_price = if flt p.stop_price new_stop then new_stop else p.stop_price;
                  })
              else p) in
          (p', fle price p'.stop_price))

  -- `_get_current_price`: a price from the stream that is fresh enough, or the exchange's. A price
  -- of 0 from the exchange is returned but not stored.
  unfoldable pub get_current_price : Reading F → ℕ → StopWatchdog F → Option F × StopWatchdog F
  get_current_price r symbol w =
      let fresh : Bool = (elim (lookup symbol w.price_update_time) [
        | none ↦ false
        | some t ↦ fle (total_seconds {F = F} r.now t) (of_ℕ w.ws_timeout_sec)
      ]) in
      let w₁ = record w { stats = record (w.stats) { ws_fallbacks = w.stats.ws_fallbacks + 1 } } in
      let w₂ : StopWatchdog F = (elim r.rest_price [
        | none ↦ w₁
        | some p ↦ if feq p fzero then w₁ else record w₁ {
          last_prices = put symbol p w₁.last_prices;
          price_update_time = put symbol r.now w₁.price_update_time;
        }
      ]) in
      elim (lookup symbol w.last_prices) [
        | none ↦ (r.rest_price, w₂)
        | some p ↦ if fresh then (some p, w) else (r.rest_price, w₂)
      ]

  -- The highest price of the window, from the current one on.
  unfoldable pub window_high : ℕ → ℕ → List (PriceSnapshot F) → F → F
  window_high window now [] high = high
  window_high window now (s ∷ h) high =
      window_high window now h
        (if leb now (s.timestamp + microseconds window) then fmax high s.price else high)

  -- `_detect_fast_crash`, without its counter
  unfoldable pub detect_fast_crash : ℕ → ℕ → F → StopWatchdog F → Bool
  unfolding window_high
  detect_fast_crash now symbol price w = elim (lookup symbol w.price_history) [
    | none ↦ false
    | some h ↦
        if ltb (length h) 2
        then false
        else (let high = window_high w.fast_crash_window_sec now h price in
            flt fzero high && fle w.fast_crash_pct (div (sub high price) high))
  ]

  -- The fourth check of `_check_all_positions`
  unfoldable pub check_time : ℕ → F → WatchedPosition F → Verdict
  check_time now price p =
      if ltb 0 p.time_stop_minutes
      then (if fle {F = F} (of_ℕ p.time_stop_minutes)
            (div (total_seconds now p.entry_time) (of_ℕ 60))
          then (if feq p.entry_price fzero
              then raised
              else if flt (div (sub price p.entry_price) p.entry_price) fzero
              then trigger time_stop
              else hold)
          else hold)
      else hold

  -- The four checks on one position, given whether its symbol crashes: the position as the checks
  -- leave it, and the verdict.
  unfoldable pub judge : ℕ → F → Bool → WatchedPosition F → WatchedPosition F × Verdict
  unfolding update_trailing check_time
  judge now price crash p =
      if crash
      then (p, trigger fast_crash)
      else if fle price p.stop_price
      then (p, trigger p.stop_type)
      else (let (p', hit) = update_trailing price p in
          if hit then (p', trigger trailing_stop) else (p', check_time now price p'))
