-- ===== src/Trading/Slots.antt =====
-- Theorems on the trading of server/src/engine/core.py.
use stock_test.Base.{
  leb, Bool-cases, inl, inr, ℕ, suc, ◌≤◌, ◌≡◌, refl, true, Option, List, [], ◌∷◌, arith, length,
}
use stock_test.Float.{FloatOps}
use stock_test.Dict.{Dict, put}
use stock_test.Candles.{CandleBuffer}
use stock_test.Overlay.{RiskDecision, Inputs}
use stock_test.Executor.{OrderResult, Result, ok, raised}
use stock_test.Strategies.{V3Signal, V3Strategy, track_position, record_entry}
use stock_test.Trading.{Balance, Market, Names, total_positions}
use stock_test.Trading.Entries.{
  Floor, track_first, after_buy, buy_with, execute_v3_signal, execute_signals, trade_on, trade_with,
  execute_strategies, new_position, nonzero_or,
}

length-put : {V : Type 0} (k : ℕ) (v : V) (d : Dict V) → length (put k v d) ≤ suc (length d)
length-put k v [] = ground arith
length-put k v (e ∷ d) = ground (arith, length-put k v d)

module _ {F : Type 0} ⦃fl : FloatOps F⦄ where
  track-total :
      (g : V3Signal F) (price qty : F) (t u : ℕ) (ss : List (V3Strategy F))
      → total_positions (track_first g price qty t u ss) ≤ suc (total_positions ss)
  unfolding track_first total_positions track_position record_entry
  track-total g price qty t u [] = ground arith
  track-total g price qty t u (s ∷ ss) =
      let p = new_position g price qty u s in
      ground (arith, track-total g price qty t u ss, length-put p.symbol p s.positions)

  -- How a step of the engine may change the positions
  abbrev AddsOne : {X : Type 0} → Floor F X → Floor F X → Type 0
  AddsOne d r =
      (total_positions r.engine.v3_strategies ≤ suc (total_positions d.engine.v3_strategies))
      × (r.engine.v3_max_positions ≡ d.engine.v3_max_positions)

  module _ {X : Type 0} (w : Market F X) (n : Names) where
    after_buy-AddsOne :
        (g : V3Signal F) (qty : F) (r : Result (OrderResult F)) (d : Floor F X)
        → AddsOne d (after_buy w n g qty r d)
    unfolding after_buy
    after_buy-AddsOne g qty (raised e) d = ground arith
    after_buy-AddsOne g qty (ok r) d =
        let (t, x) = w.now d.outside in
        let (u, y) = w.now x in
        ground (
          arith,
          track-total g (nonzero_or r.avg_price g.entry_price) (nonzero_or r.filled_qty qty) t u
              d.engine.v3_strategies,
        )

    buy_with-AddsOne :
        (g : V3Signal F) (krw qty : F) (b : Result (Option (Balance F))) (d : Floor F X)
        → AddsOne d (buy_with w n g krw qty b d)
    unfolding buy_with
    buy_with-AddsOne g krw qty (raised e) d = ground arith
    buy_with-AddsOne g krw qty (ok b) d =
        let (r, x) = w.place_order true g.symbol qty d.outside in
        ground (arith, after_buy-AddsOne g qty r (record d { outside = x }))

    signal-AddsOne :
        (sizing equity : F) (g : V3Signal F) (d : Floor F X)
        → AddsOne d (execute_v3_signal w n sizing equity g d)
    unfolding execute_v3_signal
    signal-AddsOne sizing equity g d = grind (arith, buy_with-AddsOne)

    signals_bounded :
        (bound : ℕ) (sizing equity : F) (count : ℕ) (gs : List (V3Signal F)) (d : Floor F X)
        → total_positions d.engine.v3_strategies ≤ count
        → d.engine.v3_max_positions ≤ bound
        → total_positions d.engine.v3_strategies ≤ bound
        → (total_positions (execute_signals w n sizing equity count gs d).engine.v3_strategies
            ≤ bound)
          × ((execute_signals w n sizing equity count gs d).engine.v3_max_positions
              ≡ d.engine.v3_max_positions)
    unfolding execute_signals
    signals_bounded bound sizing equity count [] d c b m = (m, refl)
    signals_bounded bound sizing equity count (g ∷ gs) d c k m =
        let e = execute_v3_signal w n sizing equity g d in
        let (a, b) = signal-AddsOne sizing equity g d in
        elim (Bool-cases (leb d.engine.v3_max_positions count)) [
          | inl full ↦ ground (arith, full, m)
          | inr room ↦
              let rest =
                signals_bounded bound sizing equity (suc count) gs e (omega (arith, a, c))
                  (ground (arith, b, k)) (ground (arith, a, c, k, room)) in
              ground (arith, b, rest, room)
        ]

    module _ (buffer : ℕ → Option (CandleBuffer F)) where
      -- Two decisions with the same mode and the same sizing multiplier are traded the same, whatever
      -- else they say: that satellite or core entries are not allowed, or how much exposure is.
      pub limits_ignored :
          (equity : F) (r r' : RiskDecision F) (d : Floor F X)
          → r.mode ≡ r'.mode
          → r.sizing_multiplier ≡ r'.sizing_multiplier
          → trade_on w n buffer equity r d ≡ trade_on w n buffer equity r' d
      unfolding trade_on
      limits_ignored equity r r' d m s = ground (arith, m, s)

      -- The positions after a step are within the bound, and the limit of the engine stays.
      abbrev Bounded : ℕ → Floor F X → Floor F X → Type 0
      Bounded bound d r =
          (total_positions r.engine.v3_strategies ≤ bound)
          × (r.engine.v3_max_positions ≡ d.engine.v3_max_positions)

      trade_on-Bounded :
          (bound : ℕ) (equity : F) (r : RiskDecision F) (d : Floor F X)
          → d.engine.v3_max_positions ≤ bound
          → total_positions d.engine.v3_strategies ≤ bound
          → Bounded bound d (trade_on w n buffer equity r d)
      unfolding trade_on
      trade_on-Bounded bound equity r d k m = grind (arith, signals_bounded bound)

      module _ (root : F → F) (closes : ℕ → ℕ → List F) where
        trade_with-Bounded :
            (bound : ℕ) (i : Inputs F) (b : Option (Balance F)) (bs : List (Balance F))
            (d : Floor F X)
            → d.engine.v3_max_positions ≤ bound
            → total_positions d.engine.v3_strategies ≤ bound
            → Bounded bound d (trade_with w n buffer root closes i b bs d)
        unfolding trade_with
        trade_with-Bounded bound i b bs d k m = grind (arith, trade_on-Bounded bound)

        -- The entries of a round never bring the positions of all strategies together above a bound that
        -- they are within and that is not below the limit of the engine, which stays as it is.
        pub entries_bounded :
            (bound : ℕ) (i : Inputs F) (d : Floor F X)
            → d.engine.v3_max_positions ≤ bound
            → total_positions d.engine.v3_strategies ≤ bound
            → (total_positions (execute_strategies w n buffer root closes i d).engine.v3_strategies
                ≤ bound)
              × ((execute_strategies w n buffer root closes i d).engine.v3_max_positions
                  ≡ d.engine.v3_max_positions)
        unfolding execute_strategies
        entries_bounded bound i d k m = grind (arith, trade_with-Bounded bound)
