-- ===== src/Watchdog/Trailing.antt =====
-- What the checks on one position decide, and that a trailing stop only rises.
use stock_test.Base.{
  ℕ, ◌+◌, ◌*◌, ◌≤◌, ◌<◌, ◌≡◌, ◌≢◌, ◌⊎◌, Bool, true, false, List, [], ◌∷◌, All, arith, if◌then◌else◌,
  leb,
}
use stock_test.Float.{FloatOps, FloatOrder, of_ℕ, fzero, fmax, sub, div, flt, fle}
use stock_test.Clock.{total_seconds}
use stock_test.Watchdog.State.{
  trailing_stop, time_stop, WatchedPosition, PriceSnapshot, hold, trigger,
}
use stock_test.Watchdog.Checks.{window_high, judge}

module _ {F : Type 0} ⦃fl : FloatOps F⦄ where
  -- A position that the checks hold has not crashed, and its price is above its stop, the one that
  -- the checks leave included.
  pub judge-hold :
      (now : ℕ) (price : F) (crash : Bool) (p : WatchedPosition F)
      → (judge now price crash p).1 ≡ hold
      → (crash ≡ false)
        × (fle price p.stop_price ≡ false)
        × (fle price (judge now price crash p).0.stop_price ≡ false)
  unfolding judge
  judge-hold now price crash p h = ground arith

  -- A time stop, of a position whose own type is another, is triggered only with the price above
  -- the stop, the time over, and the position at a loss.
  pub judge_time :
      (now : ℕ) (price : F) (crash : Bool) (p : WatchedPosition F)
      → p.stop_type ≢ time_stop
      → (judge now price crash p).1 ≡ trigger time_stop
      → (crash ≡ false)
        × (fle price p.stop_price ≡ false)
        × (0 < p.time_stop_minutes)
        × (fle {F = F} (of_ℕ p.time_stop_minutes) (div (total_seconds now p.entry_time) (of_ℕ 60))
            ≡ true)
        × (flt (div (sub price p.entry_price) p.entry_price) fzero ≡ true)
  unfolding judge
  judge_time now price crash p n h = ground arith

  -- The checks never lower a stop or the highest price, move the stop of a trailing position
  -- alone, and leave the rest of the position. (Numbers in a total order.)
  pub judge_tightens :
      (o : FloatOrder F) (now : ℕ) (price : F) (crash : Bool) (p : WatchedPosition F)
      → let p' = (judge now price crash p).0 in
        (fle p.stop_price p'.stop_price ≡ true)
        × (fle p.highest_price p'.highest_price ≡ true)
        × ((p' ≡ p) ⊎ (p.stop_type ≡ trailing_stop))
        × (p'.position_id ≡ p.position_id)
        × (p'.entry_price ≡ p.entry_price)
        × (p'.quantity ≡ p.quantity)
        × (p'.stop_type ≡ p.stop_type)
  unfolding judge
  judge_tightens o now price crash p = ground (
    arith,
    o.leb_refl p.stop_price,
    o.leb_refl p.highest_price,
    up p.highest_price price,
    up p.stop_price (fl.mul price (sub (of_ℕ 1) p.trailing_distance)),
  )
    where
      up : (a b : F) → flt a b ≡ true → fle a b ≡ true
      up a b h = ground (arith, o.ltb-not-leb a b, o.leb_total a b)

  -- The highest price of the window is at least the current price and every price in the window.
  -- (Numbers in a total order.)
  pub window_high_bounds :
      (o : FloatOrder F) (window now : ℕ) (h : List (PriceSnapshot F)) (high : F)
      → (fle high (window_high window now h high) ≡ true)
        × All
            (λ (s : PriceSnapshot F).
              now ≤ s.timestamp + window * 1000000
              → fle s.price (window_high window now h high) ≡ true)
            h
  unfolding window_high
  window_high_bounds o window now [] high = (o.leb_refl high, tt)
  window_high_bounds o window now (s ∷ h) high =
      let high' = (if leb now (s.timestamp + window * 1000000) then fmax high s.price else high) in
      let (above, rest) = window_high_bounds o window now h high' in
      let top = window_high window now h high' in
      let facts = λ (a : F). o.leb_trans a high' top in
      (
        facts high
            (ground (arith, o.leb_refl high, o.leb_total high s.price, o.ltb-not-leb high s.price))
            above,
        (
          (λ inside.
              facts s.price
                (ground
                  (arith, o.leb_refl s.price, o.leb_total high s.price, o.ltb-not-leb high s.price))
                above),
          rest,
        ),
      )
