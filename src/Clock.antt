-- ===== src/Clock.antt =====
-- Python's `datetime` in UTC: a number of microseconds since a midnight.
use stock_test.Base.{ℕ, ◌-◌, ◌/◌, leb, if◌then◌else◌}
use stock_test.Float.{FloatOps, of_ℕ, div, neg}

-- The number of the day, `t.date()`.
abbrev pub date_of : ℕ → ℕ
date_of t = t / 86400000000

-- `(t - s).total_seconds()`
unfoldable pub total_seconds : {F : Type 0} ⦃fl : FloatOps F⦄ → ℕ → ℕ → F
total_seconds t s =
    if leb s t then div (of_ℕ (t - s)) (of_ℕ 1000000) else neg (div (of_ℕ (s - t)) (of_ℕ 1000000))
