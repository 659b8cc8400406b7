-- ===== src/RiskEngine/Controls.antt =====
-- The kill switch for the week, and what a manual resume can undo.
use Prim.Native.String.{String}
use stock_test.Base.{
  ℕ, ◌≡◌, refl, ap, ◌∙◌, ◌↔◌, Bool, true, false, Option, none, some, arith, if◌then◌else◌,
  Bool-cases, Option-cases, inl, inr,
}
use stock_test.Float.{FloatOps, fzero, fle}
use stock_test.TradingMode.{
  TradingMode, normal, safe, halt, ModeManager, mode_eq, to_safe, to_halt, to_normal,
}
use stock_test.RiskEngine.{
  RiskEngine, Limits, Cause, get_summary, get_weekly_pnl_pct, touch_ledger, halt_cause, safe_cause,
  check_kill_switch, check_ws_high_latency, early_safe_cause,
}
use stock_test.RiskEngine.Actions.{
  tell, check_halt_conditions, check_safe_conditions, check_all_conditions, resume,
}

module _ {F L W : Type 0} ⦃fl : FloatOps F⦄ (call : L → TradingMode → String → W → Bool × W)
    (text : Cause → String) where
  abbrev is_halt : RiskEngine F L → Bool
  is_halt e = mode_eq e.mode_manager.mode halt

  told_rest :
      (method : String → ℕ → ModeManager L → W → Bool × ModeManager L × W)
      → (now : ℕ) (cause : Option Cause) (e : RiskEngine F L) (w : W)
      → let e' = (tell call text method now cause e w).0 in
        (e'.satellite_disabled_by_weekly_loss ≡ e.satellite_disabled_by_weekly_loss)
        × (e'.limits ≡ e.limits)
  told_rest method now none e w = (refl, refl)
  told_rest method now (some c) e w = (refl, refl)

  safe_cause_rest :
      (now today : ℕ) (volatile : Option Bool) (e : RiskEngine F L)
      → let e' = (safe_cause now today volatile e).1 in
        (e'.satellite_disabled_by_weekly_loss ≡ e.satellite_disabled_by_weekly_loss)
        × (e'.limits ≡ e.limits)
  unfolding safe_cause check_ws_high_latency
  safe_cause_rest now today volatile e = elim (Option-cases (early_safe_cause now today e)) [
    | inl f ↦ rw (f, safe_cause) (refl, refl)
    | inr (c, f) ↦ rw (f, safe_cause) (refl, refl)
  ]

  kill_switch_idle :
      (today : ℕ) (e : RiskEngine F L)
      → fle fzero e.limits.weekly_loss_limit ≡ false
      → check_kill_switch today e ≡ e
  unfolding check_kill_switch get_weekly_pnl_pct get_summary
  kill_switch_idle today e below = elim (Option-cases e.ledger) [
    | inl f ↦ rw f refl
    | inr (l, f) ↦ rw f (rw below refl)
  ]

  -- The summary of the ledger has no entry for the week, so its result counts as 0: with a limit
  -- below 0, no check ever disables the satellite strategies.
  pub weekly_loss_ignored :
      (now today : ℕ) (volatile : Option Bool) (e : RiskEngine F L) (w : W)
      → fle fzero e.limits.weekly_loss_limit ≡ false
      → (check_all_conditions call text now today volatile e w).0.satellite_disabled_by_weekly_loss
        ≡ e.satellite_disabled_by_weekly_loss
  unfolding check_all_conditions check_halt_conditions check_safe_conditions touch_ledger
  weekly_loss_ignored now today volatile e w below =
      let (e₁, w₁) = check_halt_conditions call text now today e w in
      let (kept₁, limits₁) =
        told_rest (to_halt call) now (halt_cause today e) (touch_ledger today e) w in
      let (cause, after) = safe_cause now today volatile (touch_ledger today e₁) in
      let (kept₂, limits₂) = safe_cause_rest now today volatile (touch_ledger today e₁) in
      let (kept₃, limits₃) = told_rest (to_safe call) now cause after w₁ in
      let e₂ = (check_safe_conditions call text now today volatile e₁ w₁).0 in
      let idle = kill_switch_idle today e₂ (
        ap (λ (x : Limits F). fle fzero x.weekly_loss_limit) (limits₃ ∙ (limits₂ ∙ limits₁))
        ∙ below) in
      elim (Bool-cases (is_halt e₁)) [
        | inl b ↦ rw b kept₁
        | inr b ↦ rw b (
            ap (λ (x : RiskEngine F L). x.satellite_disabled_by_weekly_loss) idle
            ∙ (kept₃ ∙ (kept₂ ∙ kept₁)))
      ]

  -- A resume takes effect exactly in SAFE, and with no failed reconciliation or authentication left
  -- on the counters. The mode is NORMAL then, and as before otherwise.
  pub resume_iff :
      (why : String) (now : ℕ) (e : RiskEngine F L) (w : W)
      → let (done, e', w') = resume call text why now e w in
        ((done ≡ true) ↔ (
          (e.mode_manager.mode ≡ safe)
          × (e.reconcile_failure_count ≡ 0)
          × (e.auth_failure_count ≡ 0)))
        × (e'.mode_manager.mode ≡ (if done then normal else e.mode_manager.mode))
  unfolding resume to_normal
  resume_iff why now e w = ground arith
