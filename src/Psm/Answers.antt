-- ===== src/Psm/Answers.antt =====
-- What the machine of server/src/position/state_machine.py is answered during one evaluation by the
-- feature engine, the candle manager, the score calculator, the risk engine and the risk overlay, and
-- the market data that it takes from there.
use stock_test.Base.{
  ℕ, Bool, true, false, Option, none, some, List, [], ◌∷◌, ltb, if◌then◌else◌, length,
}
use mathlib.Core.Option
use stock_test.Float.{FloatOps, fmin, fmax, fle}
use stock_test.Psm.State.{Side, long, short}
use stock_test.Psm.Policies.{Market}

-- The trend that `check_btc_regime` reports
pub data Regime : Type 0 where
  volatile bearish bullish neutral : Regime

abbrev pub is_regime : Regime → Regime → Bool
is_regime volatile volatile = true
is_regime bearish bearish = true
is_regime bullish bullish = true
is_regime neutral neutral = true
is_regime _ _ = false

-- The fields of the overlay's decision that are read here
pub record Decision (F : Type 0) : Type 0 where
  pub dd_tier : ℕ
  pub is_soft_dd : Bool
  pub is_hard_dd : Bool
  pub is_reducing : Bool
  pub reduce_pct : F

-- The low and the high of a 5-minute candle
pub record Candle (F : Type 0) : Type 0 where
  pub low : F
  pub high : F

-- The features of a symbol that are read here
pub record Features (F : Type 0) : Type 0 where
  pub vwap_5m : F
  pub atr_14_5m : F

-- What `get_dd_adjusted_threshold` is asked to adjust
pub data Adjustment : Type 0 where
  stop tp other : Adjustment

abbrev pub is_adjusted : Adjustment → Bool
is_adjusted stop = true
is_adjusted tp = true
is_adjusted other = false

-- What one evaluation is answered. `risk_mode_normal` is `none` without a risk engine that has a
-- mode, `decision` is `none` without an overlay or its decision, `last_close` is that of the latest
-- candle, and `candles` are the last three, or fewer.
pub record Answers (F : Type 0) : Type 0 where
  pub now : ℕ
  pub is_volatile : Bool
  pub regime : Regime
  pub risk_mode_normal : Option Bool
  pub decision : Option (Decision F)
  pub structure_break : Bool
  pub overheat : Bool
  pub total_score : F
  pub features : Option (Features F)
  pub last_close : Option F
  pub candles : List (Candle F)

module _ {F : Type 0} ⦃fl : FloatOps F⦄ where
  -- `min` of the lows, and `max` of the highs
  unfoldable pub lowest : F → List (Candle F) → F
  lowest low [] = low
  lowest low (c ∷ cs) = lowest (fmin low c.low) cs

  unfoldable pub highest : F → List (Candle F) → F
  highest high [] = high
  highest high (c ∷ cs) = highest (fmax high c.high) cs

  -- `_get_swing_low`
  unfoldable pub get_swing_low : Side → List (Candle F) → Option F
  get_swing_low sd [] = none
  get_swing_low sd (c ∷ cs) =
      if ltb (length cs) 2
      then none
      else elim sd [ long ↦ some (lowest c.low cs) | short ↦ some (highest c.high cs) ]

  -- `_get_vwap`, `_get_atr` and `_get_swing_low` of `evaluate`
  abbrev pub market_of : Answers F → Side → Market F
  market_of a sd = record {
    vwap = Option.map (λ (f : Features F). f.vwap_5m) a.features;
    atr = Option.map (λ (f : Features F). f.atr_14_5m) a.features;
    swing_low = get_swing_low sd a.candles;
  }

  -- Whether the last close has come back to the VWAP, where both are known.
  abbrev pub has_recovered : Answers F → Bool
  has_recovered a = elim a.features [
    | none ↦ false
    | some f ↦ elim a.last_close [ none ↦ false | some c ↦ fle f.vwap_5m c ]
  ]
