-- ===== src/Strategies/Exits.antt =====
-- Theorems on the exits of server/src/strategies/v3_live.py.
use stock_test.Base.{ℕ, ◌+◌, ◌≡◌, Bool, ◌||◌, List, [], ◌∷◌, arith, is_some, leb}
use stock_test.Float.{FloatOps}
use stock_test.Strategies.{V3Position, minutes, stopped, won, follow_price, trailed, exit_of}

-- A price that the position is checked at, and the time of it
abbrev pub Tick : Type 0 → Type 0
Tick F = F × ℕ

module _ {F : Type 0} ⦃fl : FloatOps F⦄ where
  -- The position after checks that have all kept it
  unfoldable pub run : List (Tick F) → V3Position F → V3Position F
  run [] p = p
  run ((price, now) ∷ ts) p = run ts (follow_price price p)

  -- Whether a check of the position at a price ends it.
  abbrev pub ends : F → ℕ → V3Position F → Bool
  ends price now p = is_some (exit_of price now (follow_price price p))

  -- A check ends a position exactly if its result is at the stop or at the target, or the trailing
  -- stop is on, be it by this price, and the price is far enough below the highest one, this price
  -- included, or the position has its full age.
  pub ends_iff :
      (price : F) (now : ℕ) (p : V3Position F)
      → ends price now p ≡ (
          stopped price p
          || (won price p
              || (trailed price (follow_price price p)
                  || leb (p.entry_time + minutes p.time_stop_minutes) now)))
  unfolding exit_of follow_price
  ends_iff price now p = ground arith
