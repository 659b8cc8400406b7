-- ===== src/Correlation.antt =====
-- server/src/risk/correlation.py: the guard against alt coins that move together. The closing prices
-- of the candle manager are a parameter, `closes symbol n`, as is `root`, Python's `x ** 0.5`;
-- numbers stand for the symbols. A price is taken not to be 0 where the source divides by it.
use stock_test.Base.{
  ℕ, ◌+◌, ◌-◌, Bool, false, ◌&&◌, ◌||◌, Option, some, List, [], ◌∷◌, ◌++◌, ltb, leb, if◌then◌else◌,
  length, map, reverse, take, take_last, drop,
}
use stock_test.Float.{FloatOps, of_dec, of_ℕ, fzero, sub, mul, div, feq, flt, fle, fabs}
use stock_test.ExecHealth.{sum, mean_or_zero}

pub data GuardAction : Type 0 where
  nothing warn reduce block hedge : GuardAction

-- `CorrelationState`
pub record CorrelationState (F : Type 0) : Type 0 where
  pub avg_correlation : F
  pub btc_return_1h : F
  pub btc_volatility_ratio : F
  pub is_spike : Bool
  pub is_btc_shock : Bool
  pub action : GuardAction

-- The settings of `RiskOverlayConfig` that are read here
pub record GuardLimits (F : Type 0) : Type 0 where
  pub corr_warn_threshold : F
  pub corr_action_threshold : F
  pub corr_lookback_bars : ℕ
  pub corr_btc_drop_pct : F
  pub corr_btc_volatility_spike : F

-- `CorrelationGuard`
pub record CorrelationGuard (F : Type 0) : Type 0 where
  pub config : GuardLimits F
  pub last_state : Option (CorrelationState F)

-- `ALT_SYMBOLS` and `BTC_SYMBOL`
abbrev pub btc_symbol : ℕ
btc_symbol = 0

abbrev pub alt_symbols : List ℕ
alt_symbols = 1 ∷ 2 ∷ 3 ∷ 4 ∷ []

-- The action for the two levels of correlation and the shock.
unfoldable pub action_of : Bool → Bool → Bool → GuardAction
action_of action_level warn_level shock =
    if action_level && shock
    then hedge
    else if action_level
    then reduce
    else if warn_level && shock
    then block
    else if shock
    then block
    else if warn_level
    then warn
    else nothing

module _ {F : Type 0} ⦃fl : FloatOps F⦄ where
  -- The returns from each price to the next
  unfoldable pub returns : List F → List F
  returns [] = []
  returns (x ∷ []) = []
  returns (x ∷ y ∷ ys) = div (sub y x) x ∷ returns (y ∷ ys)

  unfoldable pub covariance : F → F → List F → List F → List F
  covariance mx my [] ys = []
  covariance mx my (x ∷ xs) [] = []
  covariance mx my (x ∷ xs) (y ∷ ys) = mul (sub x mx) (sub y my) ∷ covariance mx my xs ys

  -- `(x - mean) ** 2` for each entry
  abbrev pub squares : F → List F → List F
  squares mean xs = map (λ x. mul (sub x mean) (sub x mean)) xs

  module _ (root : F → F) where
    unfoldable pub pearson_of : ℕ → List F → List F → F
    pearson_of n x y =
        let mx = div (sum fzero x) (of_ℕ n) in
        let my = div (sum fzero y) (of_ℕ n) in
        let dx = root (sum fzero (squares mx x)) in
        let dy = root (sum fzero (squares my y)) in
        if feq dx fzero || feq dy fzero
        then fzero
        else div (sum fzero (covariance mx my x y)) (mul dx dy)

    unfoldable pub pearson_correlation : List F → List F → F
    unfolding pearson_of
    pearson_correlation x y =
        let n = if ltb (length y) (length x) then length y else length x in
        if ltb n 2 then fzero else pearson_of n (take n x) (take n y)

    -- The sizes of the correlations of one series with the later ones, and of all pairs
    unfoldable pub row : List F → List (List F) → List F
    row x [] = []
    row x (y ∷ ys) = fabs (pearson_correlation x y) ∷ row x ys

    unfoldable pub pairs : List (List F) → List F
    pairs [] = []
    pairs (x ∷ xs) = row x xs ++ pairs xs

    unfoldable pub calc_volatility : List F → F
    calc_volatility prices =
        let rs = returns prices in
        let mean = mean_or_zero rs in
        if ltb (length prices) 2 then fzero else root (mean_or_zero (squares mean rs))

    module _ (closes : ℕ → ℕ → List F) where
      -- The return series of the symbols that have enough candles
      unfoldable pub series : ℕ → List ℕ → List (List F)
      series window [] = []
      series window (s ∷ ss) =
          let rest = series window ss in
          let cs = closes s (window + 1) in
          if ltb (length cs) (window + 1)
          then rest
          else if leb window (length (returns cs))
          then take_last window (returns cs) ∷ rest
          else rest

      unfoldable pub calculate_rolling_correlation : ℕ → List ℕ → F
      calculate_rolling_correlation window symbols =
          let ss = series window symbols in
          if ltb (length ss) 2 then fzero else mean_or_zero (pairs ss)

      -- The last return, from the prices with the latest first
      unfoldable pub last_return : List F → F
      last_return [] = fzero
      last_return (c ∷ []) = fzero
      last_return (c ∷ p ∷ ps) = if flt fzero p then div (sub c p) p else fzero

      -- `check_btc_shock`: whether there is one, the return and the ratio of the volatilities
      unfoldable pub check_btc_shock : GuardLimits F → Bool × F × F
      check_btc_shock c =
          let cs = closes btc_symbol 25 in
          let return = last_return (reverse cs) in
          let recent = calc_volatility (take_last 5 cs) in
          let before = calc_volatility (drop (length cs - 25) (take (length cs - 5) cs)) in
          let ratio = if flt fzero before then div recent before else of_dec 1 0 in
          if ltb (length cs) 25 then (false, fzero, of_dec 1 0) else (
            fle return c.corr_btc_drop_pct || fle c.corr_btc_volatility_spike ratio,
            return,
            ratio,
          )

      -- What `get_guard_action` answers.
      unfoldable pub guard_state : GuardLimits F → CorrelationState F
      guard_state c =
          let avg = calculate_rolling_correlation c.corr_lookback_bars alt_symbols in
          let action_level = fle c.corr_action_threshold avg in
          let (shock, return, ratio) = check_btc_shock c in
          record {
            avg_correlation = avg;
            btc_return_1h = return;
            btc_volatility_ratio = ratio;
            is_spike = action_level;
            is_btc_shock = shock;
            action = action_of action_level (fle c.corr_warn_threshold avg) shock;
          }

      unfoldable pub get_guard_action : CorrelationGuard F → CorrelationState F × CorrelationGuard F
      get_guard_action g =
          (guard_state g.config, record g { last_state = some (guard_state g.config) })

      unfoldable pub get_exposure_multiplier : CorrelationGuard F → F
      get_exposure_multiplier g = elim (guard_state g.config).action [
        | hedge ↦ fzero
        | block ↦ fzero
        | reduce ↦ of_dec 3 1
        | warn ↦ of_dec 7 1
        | nothing ↦ of_dec 1 0
      ]
