-- ===== src/CapitalProfile/Bounds.antt =====
-- How much a trade may risk.
use stock_test.Base.{ℕ, ◌≡◌, ◌⊎◌, true, false, arith}
use stock_test.Float.{FloatOps, FloatOrder, FloatScale, of_ℕ, fzero, add, mul, div, fle}
use stock_test.CapitalProfile.{
  AttackMode, MarketRegime, CapitalProfileConfig, CapitalProfileManager, get_config,
  get_risk_per_trade, dd_multiplier_of, regime_multiplier_of, base_risk_of,
}

module _ {F : Type 0} ⦃fl : FloatOps F⦄ where
  -- A configuration whose risks are in order
  pub record IsOrdered (c : CapitalProfileConfig F) : Type 0 where
    pub least : fle fzero c.risk_per_trade_min ≡ true
    pub span : fle c.risk_per_trade_min c.risk_per_trade_max ≡ true

  abbrev IsUnit : F → Type 0
  IsUnit x = (fle fzero x ≡ true) × (fle x (of_ℕ 1) ≡ true)

  dd_multiplier-IsUnit : (k : FloatScale F) (tier : ℕ) → IsUnit (dd_multiplier_of tier)
  unfolding dd_multiplier_of
  dd_multiplier-IsUnit k tier =
      ground (arith, k.tenths 8, k.tenths 6, k.tenths 3, k.tenths 1, k.zero_unit, k.one_unit)

  regime_multiplier-IsUnit : (k : FloatScale F) (r : MarketRegime) → IsUnit (regime_multiplier_of r)
  unfolding regime_multiplier_of
  regime_multiplier-IsUnit k r = ground (arith, k.tenths 5, k.tenths 3, k.one_unit)

  base_risk_bounds :
      (o : FloatOrder F) (k : FloatScale F) (c : CapitalProfileConfig F) (mode : AttackMode)
      (level : ℕ)
      → IsOrdered c
      → (fle fzero (base_risk_of c mode level) ≡ true)
        × (fle (base_risk_of c mode level) c.risk_per_trade_max ≡ true)
  unfolding base_risk_of
  base_risk_bounds o k c mode level h =
      let lo = c.risk_per_trade_min in
      let hi = c.risk_per_trade_max in
      let (above, below) = k.mean lo hi h.span in
      ground (
        arith,
        h.least,
        h.span,
        above,
        below,
        o.leb_trans fzero lo hi h.least h.span,
        o.leb_trans fzero lo (div (add lo hi) (of_ℕ 2)) h.least above,
        o.leb_refl hi,
      )

  -- With a configuration whose risks are in order, whatever tier, mode, level and regime, the risk
  -- of a trade is neither above the most that the profile allows for a trade, nor above the limit of
  -- the total risk, and it is below 0 only if that limit is. (Numbers in a total order, with
  -- products that shrink by factors from 0 to 1.)
  pub risk_cap_bounds :
      (o : FloatOrder F) (k : FloatScale F) (dd_tier : ℕ) (mode : AttackMode) (level : ℕ)
      (regime : MarketRegime) (m : CapitalProfileManager F)
      → IsOrdered (get_config m)
      → let cap = (get_risk_per_trade dd_tier mode level regime m).risk_cap in
        (fle cap (get_config m).risk_per_trade_max ≡ true)
        × (fle cap (get_config m).total_risk_limit ≡ true)
        × ((fle fzero cap ≡ true) ⊎ (fle fzero (get_config m).total_risk_limit ≡ false))
  unfolding get_risk_per_trade
  risk_cap_bounds o k dd_tier mode level regime m h =
      let c = get_config m in
      let base = base_risk_of c mode level in
      let d = dd_multiplier_of dd_tier in
      let r = regime_multiplier_of regime in
      let (low, high) = base_risk_bounds o k c mode level h in
      let ud = dd_multiplier-IsUnit k dd_tier in
      let ur = regime_multiplier-IsUnit k regime in
      let once = k.mul_shrinks base d low ud.0 ud.1 in
      let twice = k.mul_shrinks (mul base d) r once.0 ur.0 ur.1 in
      let to_base = o.leb_trans (mul (mul base d) r) (mul base d) base twice.1 once.1 in
      let to_max = o.leb_trans (mul (mul base d) r) base c.risk_per_trade_max to_base high in
      ground (
        arith,
        to_max,
        twice.0,
        o.leb_refl (mul (mul base d) r),
        o.leb_refl c.total_risk_limit,
        o.ltb-not-leb c.total_risk_limit (mul (mul base d) r),
        o.leb_total c.total_risk_limit (mul (mul base d) r),
        o.leb_trans c.total_risk_limit (mul (mul base d) r) c.risk_per_trade_max,
      )
