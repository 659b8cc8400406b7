-- ===== src/Trading/Sales.antt =====
-- How many positions a pass over the exits of server/src/engine/core.py can close
use stock_test.Base.{
  ℕ, suc, ◌≤◌, ◌≡◌, refl, false, Option, none, some, List, [], ◌∷◌, arith, length, Option-cases,
  All, inl, inr, Bool-cases, ◌==◌,
}
use stock_test.Float.{FloatOps}
use stock_test.Dict.{Dict, lookup, put, remove, lookup-put}
use stock_test.UserMode.{UserModeManager}
use stock_test.Executor.{OrderResult, Result, ok, raised}
use stock_test.Strategies.{
  V3Position, V3Strategy, MarketData, ExitType, check_exit, close_position, follow_price,
}
use stock_test.Trading.{Balance, Market, Names, total_positions}
use stock_test.Trading.Entries.{Floor}
use stock_test.Trading.Exits.{
  Exiting, sold, sell, leave, exit_position, exit_positions, exit_strategies, manage_v3_exits,
  price_of, sell_quantity,
}
use stock_test.Trading.Rounds.{check_exit-length}

-- Every key stands once, as in every `dict`.
unfoldable pub IsDistinct : {V : Type 0} → Dict V → Type 0
IsDistinct [] = Unit
IsDistinct (e ∷ d) = (lookup e.0 d ≡ none) × IsDistinct d

module _ {V : Type 0} where
  length-remove_absent : (k : ℕ) (d : Dict V) → lookup k d ≡ none → length (remove k d) ≡ length d
  length-remove_absent k [] h = refl
  length-remove_absent k (e ∷ d) h = ground (arith, h, length-remove_absent k d)

  length-remove_distinct :
      (k : ℕ) (d : Dict V) → IsDistinct d → length d ≤ suc (length (remove k d))
  unfolding IsDistinct
  length-remove_distinct k [] h = ground arith
  length-remove_distinct k (e ∷ d) (a, b) = elim (Bool-cases (e.0 == k)) [
    | inl c ↦ ground (arith, c, a, length-remove_absent e.0 d a, length-remove_absent k d)
    | inr c ↦ ground (arith, c, length-remove_distinct k d b)
  ]

  put-IsDistinct : (k : ℕ) (v : V) (d : Dict V) → IsDistinct d → IsDistinct (put k v d)
  unfolding IsDistinct
  put-IsDistinct k v [] h = (refl, tt)
  put-IsDistinct k v (e ∷ d) (a, b) = elim (Bool-cases (e.0 == k)) [
    | inl c ↦ ground (arith, c, a, b)
    | inr c ↦ ground (arith, c, a, put-IsDistinct k v d b, lookup-put k e.0 v d)
  ]

module _ {F : Type 0} ⦃fl : FloatOps F⦄ where
  abbrev IsSound : V3Strategy F → Type 0
  IsSound s = IsDistinct s.positions

  check_exit-IsSound :
      (symbol : ℕ) (price : F) (now : ℕ) (s : V3Strategy F)
      → IsSound s
      → IsSound (check_exit symbol price now s).1
  unfolding check_exit
  check_exit-IsSound symbol price now s h = elim (Option-cases (lookup symbol s.positions)) [
    | inl e ↦ ground (arith, e, h)
    | inr (p, e) ↦ ground (arith, e, h, put-IsDistinct symbol (follow_price price p) s.positions h)
  ]

  -- A part of a pass closes one position if an exception has ended the pass, and none otherwise.
  abbrev ClosesOne : {X : Type 0} → V3Strategy F → Exiting F X → Type 0
  ClosesOne s r =
      (length s.positions ≤ suc (length r.strategy.positions))
      × (r.over ≡ false → (length r.strategy.positions ≡ length s.positions) × IsSound r.strategy)

  module _ {X : Type 0} (w : Market F X) (n : Names) (mode : UserModeManager F) where
    sold-ClosesOne :
        (symbol : ℕ) (r : Result (OrderResult F)) (s : V3Strategy F) (x : X)
        → IsSound s
        → ClosesOne s (sold w n mode symbol r s x)
    unfolding sold close_position
    sold-ClosesOne symbol (raised e) s x d = (ground arith, λ h. ground (arith, h))
    sold-ClosesOne symbol (ok r) s x d =
        (ground (arith, length-remove_distinct symbol s.positions d), λ h. ground (arith, h, d))

    sell-ClosesOne :
        (symbol : ℕ) (p : V3Position F) (b : Result (Option (Balance F))) (s : V3Strategy F) (x : X)
        → IsSound s
        → ClosesOne s (sell w n mode symbol p b s x)
    unfolding sell
    sell-ClosesOne symbol p (raised e) s x d = (ground arith, λ h. ground (arith, h))
    sell-ClosesOne symbol p (ok b) s x d =
        let (r, y) = w.place_order false symbol (sell_quantity p.quantity b) x in
        sold-ClosesOne symbol r s y d

    leave-ClosesOne :
        (symbol : ℕ) (p : V3Position F) (e : Option ExitType) (s : V3Strategy F) (x : X)
        → IsSound s
        → ClosesOne s (leave w n mode symbol p e s x)
    unfolding leave
    leave-ClosesOne symbol p none s x d = (ground arith, λ h. (refl, d))
    leave-ClosesOne symbol p (some e) s x d =
        let (b, y) = w.get_balance (n.base_of symbol) x in
        let c = sell-ClosesOne symbol p b s y d in (ground (arith, c), λ h. ground (arith, h, c, d))

    position-ClosesOne :
        (mds : Dict (MarketData F)) (now symbol : ℕ) (p : V3Position F) (s : V3Strategy F) (x : X)
        → IsSound s
        → ClosesOne s (exit_position w n mode mds now symbol p s x)
    unfolding exit_position
    position-ClosesOne mds now symbol p s x d =
        let price = price_of w n mode symbol mds in
        let c = check_exit symbol price now s in
        let k = check_exit-length symbol price now s in
        let l = leave-ClosesOne symbol p c.0 c.1 x (check_exit-IsSound symbol price now s d) in
        (ground (arith, l, k), λ h. ground (arith, h, l, k, d))

    positions-ClosesOne :
        (mds : Dict (MarketData F)) (now : ℕ) (es : Dict (V3Position F)) (s : V3Strategy F) (x : X)
        → IsSound s
        → ClosesOne s (exit_positions w n mode mds now es s x)
    unfolding exit_positions
    positions-ClosesOne mds now [] s x d = (ground arith, λ h. (refl, d))
    positions-ClosesOne mds now (e ∷ es) s x d =
        let a = exit_position w n mode mds now e.0 e.1 s x in
        let f = position-ClosesOne mds now e.0 e.1 s x d in
        elim (Bool-cases a.over) [
          | inl c ↦ (ground (arith, c, f), λ h. ground (arith, c, f, h))
          | inr c ↦
              let g = f.1 c in
              let r = positions-ClosesOne mds now es a.strategy a.outside g.1 in
              (ground (arith, c, g, r), λ h. ground (arith, c, g, r, h))
        ]

    strategies-ClosesOne :
        (mds : Dict (MarketData F)) (now : ℕ) (ss : List (V3Strategy F)) (x : X)
        → All IsSound ss
        → total_positions ss
          ≤ suc (total_positions (exit_strategies w n mode mds now ss x).strategies)
    unfolding exit_strategies total_positions
    strategies-ClosesOne mds now [] x d = ground arith
    strategies-ClosesOne mds now (s ∷ ss) x (d, ds) =
        let a = exit_positions w n mode mds now s.positions s x in
        let f = positions-ClosesOne mds now s.positions s x d in
        let r = strategies-ClosesOne mds now ss a.outside ds in
        elim (Bool-cases a.over) [
          | inl c ↦ ground (arith, c, f)
          | inr c ↦ let g = f.1 c in ground (arith, c, g, r)
        ]

  -- A pass over the exits closes one position at most, however many have to be left. (In the positions
  -- of each strategy, every symbol stands once.)
  pub exits_close_one :
      {X : Type 0} (w : Market F X) (n : Names) (d : Floor F X)
      → All (λ (s : V3Strategy F). IsDistinct s.positions) d.engine.v3_strategies
      → total_positions d.engine.v3_strategies
        ≤ suc (total_positions (manage_v3_exits w n d).engine.v3_strategies)
  unfolding manage_v3_exits
  exits_close_one w n d h =
      let e = d.engine in
      let (now, x) = w.now d.outside in
      strategies-ClosesOne w n e.mode_manager e.market_data now e.v3_strategies x h
