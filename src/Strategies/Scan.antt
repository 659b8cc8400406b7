-- ===== src/Strategies/Scan.antt =====
-- The three `scan` methods of server/src/strategies/v3_live.py.
use stock_test.Base.{
  ℕ, ◌*◌, Bool, true, false, not, Option, none, some, List, [], ltb, if◌then◌else◌, length, reverse,
}
use stock_test.Float.{FloatOps, of_dec, of_ℕ, fzero, add, sub, mul, div, flt, fle, fmin, fabs, neg}
use stock_test.Candles.{Candle, CandleBuffer, get_latest, get_closes}
use stock_test.Strategies.{
  volatile_oversold_bounce, crash_recovery, triple_bearish_reversal, V3Signal, V3Strategy,
  MarketData, check_cooldown, calc_rsi, calc_atr_percent, risen, fallen, skip_one, item_back,
}

module _ {F : Type 0} ⦃fl : FloatOps F⦄ where
  -- `get_closes` and `get_candles` of the candle manager for a symbol without a buffer
  abbrev pub closes_of : ℕ → Option (CandleBuffer F) → List F
  closes_of n none = []
  closes_of n (some b) = get_closes n b

  abbrev pub candles_of : ℕ → Option (CandleBuffer F) → List (Candle F)
  candles_of n none = []
  candles_of n (some b) = get_latest n b

  abbrev pub atr_of : Option (CandleBuffer F) → Option F
  atr_of none = none
  atr_of (some b) = calc_atr_percent 14 b

  -- A limit from above that has to be met: `x is None or x >= limit` refuses.
  abbrev pub below : Option F → F → Bool
  below none limit = false
  below (some x) limit = not (fle limit x)

  -- The same where `None` is let through
  abbrev pub below_if_known : Option F → F → Bool
  below_if_known none limit = true
  below_if_known (some x) limit = not (fle limit x)

  -- `x is None or x < limit` refuses.
  abbrev pub reaches : F → Option F → Bool
  reaches limit none = false
  reaches limit (some x) = not (flt x limit)

  abbrev pub or_zero : Option F → F
  or_zero none = fzero
  or_zero (some x) = x

  unfoldable pub signal : F → ℕ → MarketData F → V3Strategy F → V3Signal F
  signal score symbol md s = record {
    symbol = symbol;
    strategy = s.name;
    score = score;
    entry_price = md.price;
    position_pct = s.position_pct;
  }

  unfoldable pub bounce_score : F → F → F → F
  bounce_score atr rsi rvol =
      add
        (add (add (of_ℕ 60) (mul (fmin atr (of_ℕ 3)) (of_ℕ 5)))
          (mul (sub (of_ℕ 30) rsi) (of_dec 5 1)))
        (mul (fmin rvol (of_ℕ 5)) (of_ℕ 2))

  unfoldable pub scan_bounce :
      Option (CandleBuffer F) → MarketData F → ℕ → V3Strategy F → Option (V3Signal F)
  scan_bounce b md symbol s =
      let closes = closes_of 20 b in
      let rsi = calc_rsi 14 closes in
      let atr = atr_of b in
      if ltb (length closes) 15
      then none
      else if not (risen (reverse (candles_of 2 b)))
      then none
      else if not (below rsi (of_ℕ 30))
      then none
      else if not (reaches (of_ℕ 1) atr)
      then none
      else if flt md.rvol (of_dec 25 1)
      then none
      else some (signal (bounce_score (or_zero atr) (or_zero rsi) md.rvol) symbol md s)

  -- The change since six candles before the last
  unfoldable pub change_6 : F → List F → F
  change_6 price closes = let p = item_back 6 (reverse closes) in div (sub price p) p

  unfoldable pub recovery_score : F → F → F
  recovery_score change rvol =
      add (add (of_ℕ 60) (mul (fmin (div (fabs change) (of_dec 4 2)) (of_ℕ 1)) (of_ℕ 20)))
        (mul (fmin (sub rvol (of_ℕ 1)) (of_ℕ 5)) (of_ℕ 3))

  unfoldable pub scan_recovery :
      Option (CandleBuffer F) → MarketData F → ℕ → V3Strategy F → Option (V3Signal F)
  scan_recovery b md symbol s =
      let closes = closes_of 20 b in
      let change = change_6 md.price closes in
      if ltb (length closes) 8
      then none
      else if not (risen (reverse (candles_of 2 b)))
      then none
      else if fle (item_back 6 (reverse closes)) fzero
      then none
      else if flt (neg (of_dec 2 2)) change
      then none
      else if not (below_if_known (calc_rsi 14 closes) (of_ℕ 35))
      then none
      else if flt md.rvol (of_dec 25 1)
      then none
      else some (signal (recovery_score change md.rvol) symbol md s)

  unfoldable pub reversal_score : F → F → F
  reversal_score rsi atr =
      add (add (add (of_ℕ 60) (of_ℕ (3 * 5))) (mul (sub (of_ℕ 30) rsi) (of_dec 5 1)))
        (mul (fmin atr (of_ℕ 3)) (of_ℕ 5))

  -- All three candles before the last have fallen, so their number is 3.
  unfoldable pub scan_reversal :
      Option (CandleBuffer F) → MarketData F → ℕ → V3Strategy F → Option (V3Signal F)
  scan_reversal b md symbol s =
      let candles = candles_of 20 b in
      let closes = closes_of 20 b in
      let rsi = calc_rsi 14 closes in
      let atr = atr_of b in
      if ltb (length candles) 5
      then none
      else if ltb (fallen 3 (skip_one (reverse candles))) 3
      then none
      else if ltb (length closes) 15
      then none
      else if not (below rsi (of_ℕ 30))
      then none
      else if not (reaches (of_ℕ 1) atr)
      then none
      else some (signal (reversal_score (or_zero rsi) (or_zero atr)) symbol md s)

  -- `scan`, after the cooldown and the price
  unfoldable pub scan :
      Option (CandleBuffer F) → MarketData F → ℕ → ℕ → V3Strategy F → Option (V3Signal F)
  scan b md now symbol s =
      if not (check_cooldown symbol now s)
      then none
      else if fle md.price fzero
      then none
      else elim s.kind [
        | volatile_oversold_bounce ↦ scan_bounce b md symbol s
        | crash_recovery ↦ scan_recovery b md symbol s
        | triple_bearish_reversal ↦ scan_reversal b md symbol s
      ]
