-- ===== src/Trading/Rounds.antt =====
-- The rounds of the loop of server/src/engine/core.py, as far as they trade, and theorems on the exits.
use stock_test.Base.{
  Bool-cases, ◌⊎◌, leb, ℕ, ◌≤◌, ◌≡◌, refl, Bool, true, false, Option, none, some, List, [], ◌∷◌,
  arith, length, is_some, Option-cases, inl, inr, if◌then◌else◌,
}
use stock_test.Float.{FloatOps}
use stock_test.Dict.{Dict, lookup, put, remove}
use stock_test.Candles.{CandleBuffer}
use stock_test.Overlay.{Inputs}
use stock_test.UserMode.{UserModeManager, should_execute_trades}
use stock_test.Executor.{OrderResult, Result, ok, raised}
use stock_test.Strategies.{
  V3Position, V3Strategy, MarketData, ExitType, check_exit, close_position, follow_price,
}
use stock_test.Trading.{Balance, Market, Names, total_positions}
use stock_test.Trading.Entries.{Floor, execute_strategies}
use stock_test.Trading.Exits.{
  Exiting, sold, sell, leave, exit_position, exit_positions, exit_strategies, manage_v3_exits,
  price_of, sell_quantity,
}
use stock_test.Trading.Slots.{entries_bounded}

-- What a round finds: whether the risk engine allows positions, the market, the 5-minute candles and
-- the inputs of the overlay
pub record Round (F : Type 0) : Type 0 where
  pub can_open : Bool
  pub market : Dict (MarketData F)
  pub buffer : ℕ → Option (CandleBuffer F)
  pub inputs : Inputs F

module _ {V : Type 0} where
  length-put_old :
      (k : ℕ) (v : V) (d : Dict V) → is_some (lookup k d) ≡ true → length (put k v d) ≡ length d
  length-put_old k v [] h = ground (arith, h)
  length-put_old k v (e ∷ d) h = ground (arith, h, length-put_old k v d)

  length-remove : (k : ℕ) (d : Dict V) → length (remove k d) ≤ length d
  length-remove k [] = ground arith
  length-remove k (e ∷ d) = ground (arith, length-remove k d)

module _ {F : Type 0} ⦃fl : FloatOps F⦄ where
  pub check_exit-length :
      (symbol : ℕ) (price : F) (now : ℕ) (s : V3Strategy F)
      → length (check_exit symbol price now s).1.positions ≡ length s.positions
  unfolding check_exit
  check_exit-length symbol price now s = elim (Option-cases (lookup symbol s.positions)) [
    | inl e ↦ ground (arith, e)
    | inr (p, e) ↦ ground (arith, e, length-put_old symbol (follow_price price p) s.positions)
  ]

  -- A pass over a strategy leaves it with at most its positions, and in PAPER mode with all of them
  -- and the outside not asked.
  abbrev Keeps : {X : Type 0} → UserModeManager F → V3Strategy F → X → Exiting F X → Type 0
  Keeps mode s x r =
      (length r.strategy.positions ≤ length s.positions)
      × (should_execute_trades mode ≡ false
          → (r.outside ≡ x) × (length r.strategy.positions ≡ length s.positions) × (r.over ≡ false))

  module _ {X : Type 0} (w : Market F X) (n : Names) (mode : UserModeManager F) where
    sold-length :
        (symbol : ℕ) (r : Result (OrderResult F)) (s : V3Strategy F) (x : X)
        → length (sold w n mode symbol r s x).strategy.positions ≤ length s.positions
    unfolding sold close_position
    sold-length symbol (raised e) s x = ground arith
    sold-length symbol (ok r) s x = ground (arith, length-remove symbol s.positions)

    sell-length :
        (symbol : ℕ) (p : V3Position F) (b : Result (Option (Balance F))) (s : V3Strategy F) (x : X)
        → length (sell w n mode symbol p b s x).strategy.positions ≤ length s.positions
    unfolding sell
    sell-length symbol p (raised e) s x = ground arith
    sell-length symbol p (ok b) s x =
        let (r, y) = w.place_order false symbol (sell_quantity p.quantity b) x in
        sold-length symbol r s y

    leave-Keeps :
        (symbol : ℕ) (p : V3Position F) (e : Option ExitType) (s : V3Strategy F) (x : X)
        → Keeps mode s x (leave w n mode symbol p e s x)
    unfolding leave
    leave-Keeps symbol p none s x = (ground arith, λ h. (refl, refl, refl))
    leave-Keeps symbol p (some e) s x =
        let (b, y) = w.get_balance (n.base_of symbol) x in
        (ground (arith, sell-length symbol p b s y), λ h. ground (arith, h))

    position-Keeps :
        (mds : Dict (MarketData F)) (now symbol : ℕ) (p : V3Position F) (s : V3Strategy F) (x : X)
        → Keeps mode s x (exit_position w n mode mds now symbol p s x)
    unfolding exit_position
    position-Keeps mds now symbol p s x =
        let c = check_exit symbol (price_of w n mode symbol mds) now s in
        let l = leave-Keeps symbol p c.0 c.1 x in
        let k = check_exit-length symbol (price_of w n mode symbol mds) now s in
        (ground (arith, l.0, k), λ h. let q = l.1 h in ground (arith, q, k))

    positions-Keeps :
        (mds : Dict (MarketData F)) (now : ℕ) (es : Dict (V3Position F)) (s : V3Strategy F) (x : X)
        → Keeps mode s x (exit_positions w n mode mds now es s x)
    unfolding exit_positions
    positions-Keeps mds now [] s x = (ground arith, λ h. (refl, refl, refl))
    positions-Keeps mds now (e ∷ es) s x =
        let a = exit_position w n mode mds now e.0 e.1 s x in
        let f = position-Keeps mds now e.0 e.1 s x in
        let r = positions-Keeps mds now es a.strategy a.outside in
        (ground (arith, f.0, r.0), λ h. let u = f.1 h in let v = r.1 h in ground (arith, u, v))

    strategies-Keeps :
        (mds : Dict (MarketData F)) (now : ℕ) (ss : List (V3Strategy F)) (x : X)
        → (total_positions (exit_strategies w n mode mds now ss x).strategies ≤ total_positions ss)
          × (should_execute_trades mode ≡ false
              → ((exit_strategies w n mode mds now ss x).outside ≡ x)
                × (total_positions (exit_strategies w n mode mds now ss x).strategies
                    ≡ total_positions ss))
    unfolding exit_strategies total_positions
    strategies-Keeps mds now [] x = (ground arith, λ h. (refl, refl))
    strategies-Keeps mds now (s ∷ ss) x =
        let a = exit_positions w n mode mds now s.positions s x in
        let f = positions-Keeps mds now s.positions s x in
        let r = strategies-Keeps mds now ss a.outside in
        (ground (arith, f.0, r.0), λ h. let u = f.1 h in let v = r.1 h in ground (arith, u, v))

  module _ {X : Type 0} (w : Market F X) (n : Names) where
    -- In PAPER mode the exits close no position and ask the exchange for nothing: only the clock has
    -- been read.
    pub exits_on_paper :
        (d : Floor F X)
        → should_execute_trades d.engine.mode_manager ≡ false
        → ((manage_v3_exits w n d).outside ≡ (w.now d.outside).1)
          × (total_positions (manage_v3_exits w n d).engine.v3_strategies
              ≡ total_positions d.engine.v3_strategies)
    unfolding manage_v3_exits
    exits_on_paper d h =
        let e = d.engine in
        let (now, x) = w.now d.outside in
        (strategies-Keeps w n e.mode_manager e.market_data now e.v3_strategies x).1 h

    exits_shrink :
        (d : Floor F X)
        → total_positions (manage_v3_exits w n d).engine.v3_strategies
          ≤ total_positions d.engine.v3_strategies
    unfolding manage_v3_exits
    exits_shrink d =
        let e = d.engine in
        let (now, x) = w.now d.outside in
        (strategies-Keeps w n e.mode_manager e.market_data now e.v3_strategies x).0

    module _ (root : F → F) (closes : ℕ → ℕ → List F) where
      -- The trading of a round of the loop
      unfoldable pub trade_round : Round F → Floor F X → Floor F X
      trade_round r d =
          let e : Floor F X = record d { engine = record d.engine { market_data = r.market } } in
          let opened = execute_strategies w n r.buffer root closes r.inputs e in
          manage_v3_exits w n (if r.can_open then opened else e)

      unfoldable pub trade_rounds : List (Round F) → Floor F X → Floor F X
      trade_rounds [] d = d
      trade_rounds (r ∷ rs) d = trade_rounds rs (trade_round r d)

      round_bounded :
          (bound : ℕ) (r : Round F) (d : Floor F X)
          → d.engine.v3_max_positions ≤ bound
          → total_positions d.engine.v3_strategies ≤ bound
          → (total_positions (trade_round r d).engine.v3_strategies ≤ bound)
            × ((trade_round r d).engine.v3_max_positions ≡ d.engine.v3_max_positions)
      unfolding trade_round manage_v3_exits
      round_bounded bound r d k m =
          let e : Floor F X = record d { engine = record d.engine { market_data = r.market } } in
          let opened = execute_strategies w n r.buffer root closes r.inputs e in
          let b = entries_bounded w n r.buffer root closes bound r.inputs e k m in
          let s = exits_shrink (if r.can_open then opened else e) in ground (arith, b, s, m)

      rounds_within :
          (bound : ℕ) (rs : List (Round F)) (d : Floor F X)
          → d.engine.v3_max_positions ≤ bound
          → total_positions d.engine.v3_strategies ≤ bound
          → total_positions (trade_rounds rs d).engine.v3_strategies ≤ bound
      unfolding trade_rounds
      rounds_within bound [] d k m = m
      rounds_within bound (r ∷ rs) d k m =
          let b = round_bounded bound r d k m in
          rounds_within bound rs (trade_round r d) (ground (arith, b, k)) b.0

      -- After any number of rounds, however the market moves and whatever the exchange answers, the
      -- positions of all strategies together are at most the limit of the engine, or, where there
      -- were more at the start, as after a restart that restores them, at most as many as then.
      pub rounds_bounded :
          (rs : List (Round F)) (d : Floor F X)
          → (total_positions (trade_rounds rs d).engine.v3_strategies ≤ d.engine.v3_max_positions)
            ⊎ (total_positions (trade_rounds rs d).engine.v3_strategies
                ≤ total_positions d.engine.v3_strategies)
      rounds_bounded rs d =
          let limit = d.engine.v3_max_positions in
          let start = total_positions d.engine.v3_strategies in
          elim (Bool-cases (leb start limit)) [
            | inl h ↦ inl (rounds_within limit rs d (ground arith) (ground (arith, h)))
            | inr h ↦ inr (rounds_within start rs d (ground (arith, h)) (ground arith))
          ]
