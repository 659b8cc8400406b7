-- ===== src/Candles/Tests.antt =====
-- A candle between two others, in a buffer of two.
use stock_test.Base.{ℕ, ◌≡◌, refl, [], ◌∷◌, arith, map}
use stock_test.Candles.{Candle, CandleBuffer, add_candle}
use stock_test.Candles.{has_time, replace, insert, sort_candles, trim}
use stock_test.Candles.Sorted.{IsBuffer, add_candle-IsBuffer}

abbrev candle : ℕ → Candle ℕ
candle t = record { open_time = t; opening = 2; high = 3; low = 1; close = 2; quote_volume = 5 }

abbrev buffer : CandleBuffer ℕ
buffer = record { candles = candle 1 ∷ candle 3 ∷ []; max_size = 2 }

buffer-IsBuffer : IsBuffer buffer
buffer-IsBuffer = record { ascending = omega arith; bounded = omega arith }

add_candle-IsBuffer_example : IsBuffer (add_candle (candle 2) buffer)
add_candle-IsBuffer_example = add_candle-IsBuffer (candle 2) buffer (omega arith) buffer-IsBuffer

times : map (λ c. c.open_time) (add_candle (candle 2) buffer).candles ≡ 2 ∷ 3 ∷ []
unfolding add_candle has_time replace sort_candles insert trim
times = refl
