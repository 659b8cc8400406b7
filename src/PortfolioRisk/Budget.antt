-- ===== src/PortfolioRisk/Budget.antt =====
-- The limits that hold while positions are opened only where `can_open_position` allows it.
use stock_test.Base.{
  ℕ, suc, ◌≤◌, ◌≡◌, refl, Bool, true, false, List, [], ◌∷◌, arith, length, if◌then◌else◌,
  Bool-cases, Option-cases, ap, inl, inr, is_some,
}
use stock_test.Float.{FloatOps, fzero, fle}
use stock_test.Dict.{Dict, lookup, has_key, put, remove}
use stock_test.Psm.State.{Side}
use stock_test.PortfolioRisk.{
  MarketCondition, RiskLimits, PortfolioRiskManager, OpenCheck, allowed, update_equity,
  set_market_condition, remove_position_risk, update_position_price, add_position_risk,
  can_open_position,
}

-- An order that has been filled, or another call
pub data Call (F : Type 0) : Type 0 where
  opening : ℕ → ℕ → Side → F → F → F → ℕ → Call F
  closing : ℕ → Call F
  pricing : ℕ → F → Call F
  funding : F → Call F
  judging : MarketCondition → Call F

length-put-le {ℓ} : {V : Type ℓ} (k : ℕ) (v : V) (d : Dict V) → length (put k v d) ≤ suc (length d)
length-put-le k v [] = omega arith
length-put-le k v (e ∷ d) = ground (arith, length-put-le k v d)

length-put-has {ℓ} :
    {V : Type ℓ} (k : ℕ) (v : V) (d : Dict V) → has_key k d ≡ true → length (put k v d) ≡ length d
length-put-has k v [] h = absurd (ground (arith, h))
length-put-has k v (e ∷ d) h = ground (arith, h, length-put-has k v d)

length-remove-le {ℓ} : {V : Type ℓ} (k : ℕ) (d : Dict V) → length (remove k d) ≤ length d
length-remove-le k [] = omega arith
length-remove-le k (e ∷ d) = ground (arith, length-remove-le k d)

abbrev is_allowed : OpenCheck → Bool
is_allowed allowed = true
is_allowed _ = false

module _ {F : Type 0} ⦃fl : FloatOps F⦄ where
  -- A position is added only where `can_open_position` allows it, for which the check is there.
  unfoldable pub apply : Call F → PortfolioRiskManager F → PortfolioRiskManager F
  apply (opening now symbol side entry quantity stop strategy) m =
      if is_allowed (can_open_position symbol m)
      then (add_position_risk now symbol side entry quantity stop strategy m).1
      else m
  apply (closing symbol) m = remove_position_risk symbol m
  apply (pricing symbol price) m = update_position_price symbol price m
  apply (funding equity) m = update_equity equity m
  apply (judging condition) m = set_market_condition condition m

  unfoldable pub run : List (Call F) → PortfolioRiskManager F → PortfolioRiskManager F
  run [] m = m
  run (c ∷ cs) m = run cs (apply c m)

  allowed_room :
      (symbol : ℕ) (m : PortfolioRiskManager F)
      → is_allowed (can_open_position symbol m) ≡ true
      → suc (length m.position_risks) ≤ m.config.max_concurrent_positions
  unfolding can_open_position
  allowed_room symbol m h = ground (arith, h)

  add-length :
      (now symbol : ℕ) (side : Side) (entry quantity stop : F) (strategy : ℕ)
      (m : PortfolioRiskManager F)
      → let m' = (add_position_risk now symbol side entry quantity stop strategy m).1 in
        (length m'.position_risks ≤ suc (length m.position_risks)) × (m'.config ≡ m.config)
  unfolding add_position_risk
  add-length now symbol side entry quantity stop strategy m =
      elim (Bool-cases (fle m.equity fzero)) [
        | inl b ↦ rw b (omega arith, refl)
        | inr b ↦ rw b (length-put-le symbol _ m.position_risks, refl)
      ]

  apply-count :
      (c : Call F) (m : PortfolioRiskManager F)
      → length m.position_risks ≤ m.config.max_concurrent_positions
      → (length (apply c m).position_risks ≤ m.config.max_concurrent_positions)
        × ((apply c m).config ≡ m.config)
  unfolding apply remove_position_risk update_position_price update_equity set_market_condition
      add_position_risk can_open_position
  apply-count (opening now symbol side entry quantity stop strategy) m h =
      let added = add-length now symbol side entry quantity stop strategy m in
      elim (Bool-cases (is_allowed (can_open_position symbol m))) [
        | inl b ↦ rw b (omega (arith, added.0, allowed_room symbol m b), added.1)
        | inr b ↦ rw b (h, refl)
      ]
  apply-count (closing symbol) m h =
      (omega (arith, h, length-remove-le symbol m.position_risks), refl)
  apply-count (pricing symbol price) m h = elim (Option-cases (lookup symbol m.position_risks)) [
    | inl f ↦ rw (f, update_position_price) (h, refl)
    | inr (p, f) ↦
        rw (f, update_position_price)
          (
            omega (
              arith,
              h,
              length-put-has symbol (record p { current_price = price }) m.position_risks
                  (ap (λ o. is_some o) f),
            ),
            refl,
          )
  ]
  apply-count (funding equity) m h = (h, refl)
  apply-count (judging condition) m h = (h, refl)

  -- From at most as many positions as the settings allow at once: after any calls, where a position is
  -- added only if `can_open_position` allows it, as no caller in the server does, it is still so.
  pub run-length :
      (cs : List (Call F)) (m : PortfolioRiskManager F)
      → length m.position_risks ≤ m.config.max_concurrent_positions
      → length (run cs m).position_risks ≤ m.config.max_concurrent_positions
  unfolding run
  run-length [] m h = h
  run-length (c ∷ cs) m h =
      let (count, same) = apply-count c m h in
      let most = ap (λ (x : RiskLimits F). x.max_concurrent_positions) same in
      omega (arith, run-length cs (apply c m) (omega (arith, count, most)), most)
