-- ===== src/Drawdown/Tiers.antt =====
-- The six tiers of the drawdown and the triggers, for a configuration whose thresholds are in order.
use stock_test.Base.{ℕ, zero, suc, ◌+◌, ◌-◌, ◌≤◌, ◌≡◌, ◌↔◌, true, arith, if◌then◌else◌}
use mathlib.Core.Path.{subst}
use native.Mathlib.Nat.{zero-add, suc-add}
use stock_test.Float.{FloatOps, FloatOrder, fle, flt, sub}
use stock_test.Drawdown.{
  RiskConfig, DrawdownTracker, calc_sizing_multiplier, change_from, assess, update, is_new_day,
  get_dd_tier, in_hard_dd, in_soft_dd, should_enter_safe, should_halt,
}

module _ {F : Type 0} ⦃fl : FloatOps F⦄ where
  -- The thresholds of the tiers do not decrease.
  pub record IsOrdered (cfg : RiskConfig F) : Type 0 where
    pub one_two : fle cfg.dd_tier1_threshold cfg.dd_tier2_threshold ≡ true
    pub two_three : fle cfg.dd_tier2_threshold cfg.dd_tier3_threshold ≡ true
    pub three_four : fle cfg.dd_tier3_threshold cfg.dd_tier4_threshold ≡ true
    pub four_five : fle cfg.dd_tier4_threshold cfg.dd_tier5_threshold ≡ true

  -- A threshold that is passed stays passed at a larger drawdown.
  passed :
      (o : FloatOrder F) (dd dd' t : F) → fle dd dd' ≡ true → fle t dd ≡ true → fle t dd' ≡ true
  passed o dd dd' t h p = o.leb_trans t dd dd' p h

  -- A larger drawdown is never in a lower tier. (Numbers in a total order.)
  tier_mono :
      (o : FloatOrder F) (cfg : RiskConfig F) (dd dd' : F)
      → fle dd dd' ≡ true
      → (calc_sizing_multiplier cfg dd).1 ≤ (calc_sizing_multiplier cfg dd').1
  unfolding calc_sizing_multiplier
  tier_mono o cfg dd dd' h = ground (
    arith,
    passed o dd dd' cfg.dd_tier1_threshold h,
    passed o dd dd' cfg.dd_tier2_threshold h,
    passed o dd dd' cfg.dd_tier3_threshold h,
    passed o dd dd' cfg.dd_tier4_threshold h,
    passed o dd dd' cfg.dd_tier5_threshold h,
  )

  -- With thresholds in ascending order, the tier is above k exactly when the drawdown has reached
  -- the k-th threshold. (Numbers in a total order.)
  pub tier_bands :
      (o : FloatOrder F) (cfg : RiskConfig F) (dd : F)
      → IsOrdered cfg
      → ((2 ≤ (calc_sizing_multiplier cfg dd).1) ↔ (fle cfg.dd_tier1_threshold dd ≡ true))
        × ((3 ≤ (calc_sizing_multiplier cfg dd).1) ↔ (fle cfg.dd_tier2_threshold dd ≡ true))
        × ((4 ≤ (calc_sizing_multiplier cfg dd).1) ↔ (fle cfg.dd_tier3_threshold dd ≡ true))
        × ((5 ≤ (calc_sizing_multiplier cfg dd).1) ↔ (fle cfg.dd_tier4_threshold dd ≡ true))
        × ((6 ≤ (calc_sizing_multiplier cfg dd).1) ↔ (fle cfg.dd_tier5_threshold dd ≡ true))
  unfolding calc_sizing_multiplier
  tier_bands o cfg dd h =
      let r1 = o.leb_trans cfg.dd_tier1_threshold cfg.dd_tier2_threshold dd h.one_two in
      let r2 = o.leb_trans cfg.dd_tier2_threshold cfg.dd_tier3_threshold dd h.two_three in
      let r3 = o.leb_trans cfg.dd_tier3_threshold cfg.dd_tier4_threshold dd h.three_four in
      let r4 = o.leb_trans cfg.dd_tier4_threshold cfg.dd_tier5_threshold dd h.four_five in
      ground (arith, r1, r2, r3, r4)

  -- The multiplier of a tier.
  multiplier_of : RiskConfig F → ℕ → F
  multiplier_of cfg zero = cfg.dd_tier1_multiplier
  multiplier_of cfg (suc zero) = cfg.dd_tier1_multiplier
  multiplier_of cfg (suc (suc zero)) = cfg.dd_tier2_multiplier
  multiplier_of cfg (suc (suc (suc zero))) = cfg.dd_tier3_multiplier
  multiplier_of cfg (suc (suc (suc (suc zero)))) = cfg.dd_tier4_multiplier
  multiplier_of cfg (suc (suc (suc (suc (suc zero))))) = cfg.dd_tier5_multiplier
  multiplier_of cfg (suc (suc (suc (suc (suc (suc n)))))) = cfg.dd_tier6_multiplier

  calc-eq-multiplier_of :
      (cfg : RiskConfig F) (dd : F)
      → (calc_sizing_multiplier cfg dd).0 ≡ multiplier_of cfg (calc_sizing_multiplier cfg dd).1
  unfolding calc_sizing_multiplier multiplier_of
  calc-eq-multiplier_of cfg dd = ground arith

  -- The multipliers of the tiers do not increase.
  pub record IsTapered (cfg : RiskConfig F) : Type 0 where
    pub two_one : fle cfg.dd_tier2_multiplier cfg.dd_tier1_multiplier ≡ true
    pub three_two : fle cfg.dd_tier3_multiplier cfg.dd_tier2_multiplier ≡ true
    pub four_three : fle cfg.dd_tier4_multiplier cfg.dd_tier3_multiplier ≡ true
    pub five_four : fle cfg.dd_tier5_multiplier cfg.dd_tier4_multiplier ≡ true
    pub six_five : fle cfg.dd_tier6_multiplier cfg.dd_tier5_multiplier ≡ true

  multiplier_step :
      (o : FloatOrder F) (cfg : RiskConfig F) (n : ℕ)
      → IsTapered cfg
      → fle (multiplier_of cfg (suc n)) (multiplier_of cfg n) ≡ true
  unfolding multiplier_of
  multiplier_step o cfg zero h = o.leb_refl cfg.dd_tier1_multiplier
  multiplier_step o cfg (suc zero) h = h.two_one
  multiplier_step o cfg (suc (suc zero)) h = h.three_two
  multiplier_step o cfg (suc (suc (suc zero))) h = h.four_three
  multiplier_step o cfg (suc (suc (suc (suc zero)))) h = h.five_four
  multiplier_step o cfg (suc (suc (suc (suc (suc zero))))) h = h.six_five
  multiplier_step o cfg (suc (suc (suc (suc (suc (suc n)))))) h = o.leb_refl cfg.dd_tier6_multiplier

  multiplier_antitone :
      (o : FloatOrder F) (cfg : RiskConfig F) (m k : ℕ)
      → IsTapered cfg
      → fle (multiplier_of cfg (k + m)) (multiplier_of cfg m) ≡ true
  multiplier_antitone o cfg m zero h = rw zero-add (o.leb_refl (multiplier_of cfg m))
  multiplier_antitone o cfg m (suc k) h = rw suc-add (
      o.leb_trans (multiplier_of cfg (suc (k + m))) (multiplier_of cfg (k + m))
        (multiplier_of cfg m) (multiplier_step o cfg (k + m) h) (multiplier_antitone o cfg m k h))

  -- With tapered multipliers a larger drawdown never has a larger sizing multiplier. (Numbers in a
  -- total order.)
  pub sizing_antitone :
      (o : FloatOrder F) (cfg : RiskConfig F) (dd dd' : F)
      → IsTapered cfg
      → fle dd dd' ≡ true
      → fle (calc_sizing_multiplier cfg dd').0 (calc_sizing_multiplier cfg dd).0 ≡ true
  sizing_antitone o cfg dd dd' t h =
      let m = (calc_sizing_multiplier cfg dd).1 in
      let n = (calc_sizing_multiplier cfg dd').1 in
      let e : (n - m) + m ≡ n = omega (arith, tier_mono o cfg dd dd' h) in
      rw (calc-eq-multiplier_of cfg dd, calc-eq-multiplier_of cfg dd')
        (subst (λ k. fle (multiplier_of cfg k) (multiplier_of cfg m) ≡ true) e
          (multiplier_antitone o cfg m (n - m) t))

  assess_nested :
      (o : FloatOrder F) (cfg : RiskConfig F) (top equity dd pct pnl pnl_pct : F)
      → fle cfg.risk_dd_safe_threshold cfg.risk_dd_reduce_threshold ≡ true
      → fle cfg.risk_dd_reduce_threshold cfg.risk_dd_halt_threshold ≡ true
      → cfg.risk_dd_halt_threshold ≡ cfg.dd_tier5_threshold
      → let s = assess cfg top equity (dd, pct) (pnl, pnl_pct) in
        (s.is_hard_dd ≡ true → (s.is_soft_dd ≡ true) × (s.is_halt_trigger ≡ true))
        × (s.is_soft_dd ≡ true → s.is_safe_trigger ≡ true)
        × ((s.is_hard_dd ≡ true) ↔ (s.dd_tier ≡ 6))
  unfolding assess calc_sizing_multiplier
  assess_nested o cfg top equity dd pct pnl pnl_pct h k e =
      let soft = o.leb_trans cfg.risk_dd_reduce_threshold cfg.risk_dd_halt_threshold pct k in
      let safe = o.leb_trans cfg.risk_dd_safe_threshold cfg.risk_dd_reduce_threshold pct h in
      ground (arith, soft, safe)

  -- With the thresholds safe ≤ reduce ≤ halt, and the halt threshold that of the sixth tier, after
  -- an update: a hard drawdown is a soft one and triggers HALT, a soft one triggers SAFE, and the
  -- drawdown is hard exactly in the sixth tier. (Numbers in a total order.)
  pub triggers_nested :
      (o : FloatOrder F) (now : ℕ) (equity : F) (t : DrawdownTracker F)
      → fle t.config.risk_dd_safe_threshold t.config.risk_dd_reduce_threshold ≡ true
      → fle t.config.risk_dd_reduce_threshold t.config.risk_dd_halt_threshold ≡ true
      → t.config.risk_dd_halt_threshold ≡ t.config.dd_tier5_threshold
      → let t' = update now equity t in
        (in_hard_dd t' ≡ true → (in_soft_dd t' ≡ true) × (should_halt t' ≡ true))
        × (in_soft_dd t' ≡ true → should_enter_safe t' ≡ true)
        × ((in_hard_dd t' ≡ true) ↔ (get_dd_tier t' ≡ 6))
  unfolding update in_hard_dd in_soft_dd should_halt should_enter_safe get_dd_tier change_from
  triggers_nested o now equity t h k e =
      let top = if flt t.peak equity then equity else t.peak in
      let start = if is_new_day now t.last_reset_date then equity else t.day_start_equity in
      let dd = change_from top (sub top equity) in
      let pnl = change_from start (sub equity start) in
      assess_nested o t.config top equity dd.0 dd.1 pnl.0 pnl.1 h k e
