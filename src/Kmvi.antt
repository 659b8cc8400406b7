-- ===== src/Kmvi.antt =====
-- server/src/risk/kmvi.py: the index of the volatility of the market. `buffer s` is the 5-minute
-- buffer of the candle manager for a symbol, and `floor` is Python's `int` of a number; numbers stand
-- for the symbols, and the texts and the log are left out.
pub mod Tiers
mod Tests
use stock_test.Base.{
  ℕ, ◌+◌, ◌-◌, ◌*◌, ◌/◌, Bool, true, false, ◌&&◌, Option, none, some, List, [], ◌∷◌, ◌++◌, ltb, leb,
  ◌==◌, if◌then◌else◌, length, map, take, take_last, filter, get_or, drop,
}
use stock_test.Float.{FloatOps, of_dec, of_ℕ, fzero, add, sub, mul, div, flt, fle, fabs, fmax, neg}
use stock_test.ExecHealth.{sum, mean_or_zero, is_empty}
use stock_test.Candles.{Candle, CandleBuffer, get_latest}

pub data KmviTier : Type 0 where
  normal elevated high crisis : KmviTier

-- `KMVIState`
pub record KmviState (F : Type 0) : Type 0 where
  pub value : F
  pub value_pct : F
  pub tier : KmviTier
  pub micro_scalper_allowed : Bool
  pub new_entry_allowed : Bool
  pub sizing_multiplier : F
  pub top_coins : List (ℕ × F)
  pub timestamp : ℕ

-- `KMVICalculator`, with its three thresholds
pub record KmviCalculator (F : Type 0) : Type 0 where
  pub t1 : F
  pub t2 : F
  pub t3 : F
  pub top_n : ℕ
  pub percentile : F
  pub atr_period : ℕ
  pub last_state : Option (KmviState F)
  pub last_update : Option ℕ
  pub update_interval : ℕ
  pub kept : List (ℕ × F)
  pub max_history : ℕ

-- The answer of `_determine_tier`
pub record Policy (F : Type 0) : Type 0 where
  pub tier : KmviTier
  pub micro_allowed : Bool
  pub entry_allowed : Bool
  pub sizing : F

-- The answer of `get_trend`
pub data Trend : Type 0 where
  rising falling stable : Trend

module _ {F : Type 0} ⦃fl : FloatOps F⦄ where
  unfoldable pub determine_tier : KmviCalculator F → F → Policy F
  determine_tier k v =
      if fle k.t3 v
      then record {
        tier = crisis;
        micro_allowed = false;
        entry_allowed = false;
        sizing = of_dec 3 1;
      }
      else if fle k.t2 v
      then record { tier = high; micro_allowed = false; entry_allowed = true; sizing = of_dec 6 1 }
      else if fle k.t1 v
      then record {
        tier = elevated;
        micro_allowed = true;
        entry_allowed = true;
        sizing = of_dec 8 1;
      }
      else record { tier = normal; micro_allowed = true; entry_allowed = true; sizing = of_dec 1 0 }

  unfoldable pub true_ranges : List (Candle F) → List F
  true_ranges [] = []
  true_ranges (c ∷ []) = []
  true_ranges (c ∷ d ∷ ds) =
      fmax (fmax (sub d.high d.low) (fabs (sub d.high c.close))) (fabs (sub d.low c.close))
      ∷ true_ranges (d ∷ ds)

  unfoldable pub calc_atr : List (Candle F) → F
  calc_atr cs = mean_or_zero (true_ranges cs)

  -- The close of the last candle, 0 if there is none
  unfoldable pub last_close : List (Candle F) → F
  last_close [] = fzero
  last_close (c ∷ []) = c.close
  last_close (c ∷ d ∷ ds) = last_close (d ∷ ds)

  unfoldable pub default_state : ℕ → KmviState F
  default_state now = record {
    value = of_dec 1 2;
    value_pct = of_dec 1 0;
    tier = normal;
    micro_scalper_allowed = true;
    new_entry_allowed = true;
    sizing_multiplier = of_dec 1 0;
    top_coins = [];
    timestamp = now;
  }

  -- `sorted(xs)`
  unfoldable pub insert : F → List F → List F
  insert x [] = x ∷ []
  insert x (y ∷ ys) = let rest = insert x ys in if flt y x then y ∷ rest else x ∷ y ∷ ys

  unfoldable pub sorted : List F → List F
  sorted [] = []
  sorted (x ∷ xs) = insert x (sorted xs)

  -- `xs[i]`, for an index in range
  unfoldable pub item : List F → ℕ → F
  item [] i = fzero
  item (x ∷ xs) ℕ.zero = x
  item (x ∷ xs) (ℕ.suc i) = item xs i

  -- The state within the interval after an update
  unfoldable pub cached : ℕ → KmviCalculator F → Option (KmviState F)
  cached now k = elim k.last_update [
    | none ↦ none
    | some t ↦ if ltb now (t + k.update_interval) then k.last_state else none
  ]

  unfoldable pub trim : ℕ → List (ℕ × F) → List (ℕ × F)
  trim n xs = if ltb n (length xs) then take_last n xs else xs

  module _ (buffer : ℕ → Option (CandleBuffer F)) where
    -- The share of the price that a symbol moves, if it has enough candles and moves at all
    unfoldable pub atr_pct : KmviCalculator F → ℕ → Option F
    atr_pct k symbol = elim (buffer symbol) [
      | none ↦ none
      | some b ↦
          let cs = get_latest (k.atr_period + 1) b in
          let atr = calc_atr cs in
          let price = last_close cs in
          if ltb (length b.candles) (k.atr_period + 1)
          then none
          else if ltb (length cs) (k.atr_period + 1)
          then none
          else if flt fzero price && flt fzero atr
          then some (div atr price)
          else none
    ]

    -- The loop over the symbols, with what it has found; it stops at `top_n`.
    unfoldable pub collect : KmviCalculator F → List ℕ → List (ℕ × F) → List (ℕ × F)
    collect k [] found = found
    collect k (s ∷ ss) found =
        let rest =
          collect k ss (elim (atr_pct k s) [ none ↦ found | some p ↦ found ++ (s, p) ∷ [] ]) in
        if leb k.top_n (length found) then found else rest

  module _ (floor : F → ℕ) where
    -- The percentile of what has been found
    unfoldable pub percentile_of : KmviCalculator F → List (ℕ × F) → F
    percentile_of k found =
        let values = sorted (map (λ p. p.1) found) in
        let i = floor (mul (of_ℕ (length values)) k.percentile) in
        item values (if ltb (length values - 1) i then length values - 1 else i)

    unfoldable pub measured : ℕ → KmviCalculator F → List (ℕ × F) → KmviState F
    measured now k found =
        let v = percentile_of k found in
        let policy = determine_tier k v in
        record {
          value = v;
          value_pct = mul v (of_ℕ 100);
          tier = policy.tier;
          micro_scalper_allowed = policy.micro_allowed;
          new_entry_allowed = policy.entry_allowed;
          sizing_multiplier = policy.sizing;
          top_coins = take k.top_n found;
          timestamp = now;
        }

    -- A new measurement, if there are enough symbols
    unfoldable pub measure : ℕ → List (ℕ × F) → KmviCalculator F → KmviState F × KmviCalculator F
    measure now found k =
        let s = measured now k found in
        if ltb (length found) 5 then (get_or k.last_state (default_state now), k) else (
          s,
          record k {
            last_state = some s;
            last_update = some now;
            kept = trim k.max_history (k.kept ++ (now, s.value) ∷ []);
          },
        )

    unfoldable pub update :
        (ℕ → Option (CandleBuffer F))
        → ℕ
        → List ℕ
        → KmviCalculator F
        → KmviState F × KmviCalculator F
    update buffer now symbols k = elim (cached now k) [
      | some s ↦ (s, k)
      | none ↦ measure now (collect buffer k (take (k.top_n * 2) symbols) []) k
    ]

  -- `get_trend`, from the time before which the history is old
  unfoldable pub get_trend : ℕ → KmviCalculator F → Option Trend
  get_trend cutoff k =
      let recent = map (λ e. e.1) (filter (λ e. leb cutoff e.0) k.kept) in
      let half = length recent / 2 in
      let first = div (sum fzero (take half recent)) (of_ℕ half) in
      let second = div (sum fzero (drop half recent)) (of_ℕ (length recent - half)) in
      let change = if flt fzero first then div (sub second first) first else fzero in
      if ltb (length k.kept) 2
      then none
      else if ltb (length recent) 2
      then none
      else if flt (of_dec 1 1) change
      then some rising
      else if flt change (neg (of_dec 1 1))
      then some falling
      else some stable
