-- ===== src/Strategies/Signals.antt =====
-- Theorems on the scans of server/src/strategies/v3_live.py.
use stock_test.Base.{
  List, [], ◌∷◌, Bool-cases, Option-cases, inl, inr, ℕ, ◌≡◌, refl, Bool, true, false, Option, none,
  some, arith,
}
use stock_test.Float.{FloatQuotient, fle, fzero, FloatOps, of_ℕ, flt}
use stock_test.Candles.{Candle, get_latest, CandleBuffer}
use stock_test.Strategies.{
  calc_atr, calc_atr_percent, ratio, StrategyKind, volatile_oversold_bounce, crash_recovery,
  triple_bearish_reversal, V3Strategy, MarketData,
}
use stock_test.Strategies.Scan.{scan_bounce, scan_reversal, scan, atr_of, reaches}

abbrev pub needs_atr : StrategyKind → Bool
needs_atr volatile_oversold_bounce = true
needs_atr crash_recovery = false
needs_atr triple_bearish_reversal = true

module _ {F : Type 0} ⦃fl : FloatOps F⦄ where
  -- The last candle, if there is one, closes above a range.
  abbrev pub ClosesAbove : F → List (Candle F) → Type 0
  ClosesAbove atr [] = Unit
  ClosesAbove atr (c ∷ cs) = flt atr c.close ≡ true

  -- The mean true range of the last 14 candles, if it is known, is below the last close.
  abbrev pub IsModerate : Option (CandleBuffer F) → Type 0
  IsModerate none = Unit
  IsModerate (some b) = (atr : F) → calc_atr 14 b ≡ some atr → ClosesAbove atr (get_latest 1 b)

  ratio-reaches :
      (q : FloatQuotient F) (atr : F) (cs : List (Candle F))
      → ClosesAbove atr cs
      → reaches (of_ℕ 1) (ratio atr cs) ≡ false
  ratio-reaches q atr [] h = refl
  ratio-reaches q atr (c ∷ cs) h = elim (Bool-cases (fle c.close fzero)) [
    | inl e ↦ rw e refl
    | inr e ↦ rw e (ground (arith, q.div_below_one atr c.close e h))
  ]

  moderate-reaches :
      (q : FloatQuotient F) (b : Option (CandleBuffer F))
      → IsModerate b
      → reaches (of_ℕ 1) (atr_of b) ≡ false
  unfolding calc_atr_percent
  moderate-reaches q none m = refl
  moderate-reaches q (some b) m = elim (Option-cases (calc_atr 14 b)) [
    | inl e ↦ ground (arith, e)
    | inr (atr, e) ↦ let r = ratio-reaches q atr (get_latest 1 b) (m atr e) in ground (arith, e, r)
  ]

  -- Two of the three strategies give no signal for a symbol whose mean true range over 14 candles is
  -- below its last close, however many percent of it that is: they compare the quotient of the two
  -- with 1. (The quotient of a number by a larger one above 0 is below 1.)
  pub moderate_no_signal :
      (q : FloatQuotient F) (b : Option (CandleBuffer F)) (md : MarketData F) (now symbol : ℕ)
      (s : V3Strategy F)
      → needs_atr s.kind ≡ true
      → IsModerate b
      → scan b md now symbol s ≡ none
  unfolding scan scan_bounce scan_reversal
  moderate_no_signal q b md now symbol s kind m =
      let e = moderate-reaches q b m in ground (arith, e)
