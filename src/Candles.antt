-- ===== src/Candles.antt =====
-- The candles of one symbol in server/src/data/candle_manager.py: `CandleBuffer`. A time is a number.
pub mod Sorted
mod Tests
use stock_test.Base.{
  ℕ, Bool, true, false, Option, none, some, List, [], ◌∷◌, ◌++◌, ltb, ◌==◌, if◌then◌else◌, length,
  map, take_last, any,
}

-- The fields of `Candle` that are read; `opening` is `open`.
pub record Candle (F : Type 0) : Type 0 where
  pub open_time : ℕ
  pub opening : F
  pub high : F
  pub low : F
  pub close : F
  pub quote_volume : F

-- `CandleBuffer`
pub record CandleBuffer (F : Type 0) : Type 0 where
  pub candles : List (Candle F)
  pub max_size : ℕ

module _ {F : Type 0} where
  -- Whether a candle of that time is there, and the first of them replaced
  unfoldable pub has_time : ℕ → List (Candle F) → Bool
  has_time t cs = any (λ c. c.open_time == t) cs

  unfoldable pub replace : Candle F → List (Candle F) → List (Candle F)
  replace c [] = []
  replace c (e ∷ cs) = if e.open_time == c.open_time then c ∷ cs else e ∷ replace c cs

  -- `sort(key=lambda c: c.open_time)`, which keeps the order of equals
  unfoldable pub insert : Candle F → List (Candle F) → List (Candle F)
  insert c [] = c ∷ []
  insert c (e ∷ cs) =
      let rest = insert c cs in if ltb e.open_time c.open_time then e ∷ rest else c ∷ e ∷ cs

  unfoldable pub sort_candles : List (Candle F) → List (Candle F)
  sort_candles [] = []
  sort_candles (c ∷ cs) = insert c (sort_candles cs)

  unfoldable pub trim : ℕ → List (Candle F) → List (Candle F)
  trim n cs = if ltb n (length cs) then take_last n cs else cs

  unfoldable pub add_candle : Candle F → CandleBuffer F → CandleBuffer F
  add_candle c b = record b {
    candles =
        if has_time c.open_time b.candles
        then replace c b.candles
        else trim b.max_size (sort_candles (b.candles ++ c ∷ []));
  }

  -- `candles[-n:]`
  unfoldable pub get_latest : ℕ → CandleBuffer F → List (Candle F)
  get_latest n b = take_last n b.candles

  unfoldable pub get_closes : ℕ → CandleBuffer F → List F
  get_closes n b = map (λ c. c.close) (take_last n b.candles)

  unfoldable pub get_highs : ℕ → CandleBuffer F → List F
  get_highs n b = map (λ c. c.high) (take_last n b.candles)

  unfoldable pub get_lows : ℕ → CandleBuffer F → List F
  get_lows n b = map (λ c. c.low) (take_last n b.candles)

  unfoldable pub get_volumes : ℕ → CandleBuffer F → List F
  get_volumes n b = map (λ c. c.quote_volume) (take_last n b.candles)
