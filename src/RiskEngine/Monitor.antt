-- ===== src/RiskEngine/Monitor.antt =====
-- What a check of all conditions makes of the mode.
use Prim.Native.String.{String}
use stock_test.Base.{
  ℕ, ◌≡◌, refl, sym, ap, ◌∙◌, Bool, false, ◌||◌, Option, none, some, is_some, arith, if◌then◌else◌,
  Bool-cases, Option-cases, inl, inr,
}
use stock_test.Float.{FloatOps}
use stock_test.TradingMode.{TradingMode, safe, halt, mode_eq, to_safe, to_halt}
use stock_test.RiskEngine.{
  RiskEngine, Cause, get_weekly_pnl_pct, ledger_at_most, touch_ledger, halt_cause, safe_cause,
  check_kill_switch, check_ws_high_latency, early_safe_cause,
}
use stock_test.RiskEngine.Actions.{
  tell, check_halt_conditions, check_safe_conditions, check_all_conditions,
}
use stock_test.RiskEngine.Asked.{safe_cause-touched}

-- The mode after the conditions for SAFE have been looked at, and after all of them
abbrev pub mode_after_safe : TradingMode → Bool → TradingMode
mode_after_safe m cause = if mode_eq m halt then halt else if cause then safe else m

abbrev pub mode_after_all : TradingMode → Bool → Bool → TradingMode
mode_after_all m halting saving =
    if mode_eq m halt || halting then halt else mode_after_safe m saving

module _ {F L W : Type 0} ⦃fl : FloatOps F⦄ (call : L → TradingMode → String → W → Bool × W)
    (text : Cause → String) where
  abbrev pub is_halt : RiskEngine F L → Bool
  is_halt e = mode_eq e.mode_manager.mode halt

  told_halt :
      (now : ℕ) (cause : Option Cause) (e : RiskEngine F L) (w : W)
      → (tell call text (to_halt call) now cause e w).0.mode_manager.mode
        ≡ (if is_halt e || is_some cause then halt else e.mode_manager.mode)
  unfolding to_halt
  told_halt now none e w = ground arith
  told_halt now (some c) e w = ground arith

  told_safe :
      (now : ℕ) (cause : Option Cause) (e : RiskEngine F L) (w : W)
      → (tell call text (to_safe call) now cause e w).0.mode_manager.mode
        ≡ mode_after_safe e.mode_manager.mode (is_some cause)
  unfolding to_safe
  told_safe now none e w = ground arith
  told_safe now (some c) e w = ground arith

  halt_step :
      (now today : ℕ) (e : RiskEngine F L) (w : W)
      → (check_halt_conditions call text now today e w).0.mode_manager.mode
        ≡ (if is_halt e || is_some (halt_cause today e) then halt else e.mode_manager.mode)
  unfolding check_halt_conditions touch_ledger
  halt_step now today e w = told_halt now (halt_cause today e) (touch_ledger today e) w

  safe_cause-mode :
      (now today : ℕ) (volatile : Option Bool) (e : RiskEngine F L)
      → (safe_cause now today volatile e).1.mode_manager.mode ≡ e.mode_manager.mode
  unfolding safe_cause check_ws_high_latency
  safe_cause-mode now today volatile e = elim (Option-cases (early_safe_cause now today e)) [
    | inl f ↦ rw (f, safe_cause) refl
    | inr (c, f) ↦ rw (f, safe_cause) refl
  ]

  safe_step :
      (now today : ℕ) (volatile : Option Bool) (e : RiskEngine F L) (w : W)
      → (check_safe_conditions call text now today volatile e w).0.mode_manager.mode
        ≡ mode_after_safe e.mode_manager.mode (is_some (safe_cause now today volatile e).0)
  unfolding check_safe_conditions touch_ledger
  safe_step now today volatile e w =
      let e' = touch_ledger today e in
      let (cause, after) = safe_cause now today volatile e' in
      told_safe now cause after w
      ∙ (ap (λ m. mode_after_safe m (is_some cause)) (safe_cause-mode now today volatile e')
          ∙ ap (λ c. mode_after_safe e.mode_manager.mode (is_some c))
              (safe_cause-touched now today volatile e))

  kill_switch-mode :
      (today : ℕ) (e : RiskEngine F L)
      → (check_kill_switch today e).mode_manager.mode ≡ e.mode_manager.mode
  unfolding check_kill_switch
  kill_switch-mode today e =
      ground
        (arith, Bool-cases (ledger_at_most get_weekly_pnl_pct e.limits.weekly_loss_limit today e))

  halt_check-none :
      (now today : ℕ) (e : RiskEngine F L) (w : W)
      → halt_cause today e ≡ none
      → check_halt_conditions call text now today e w ≡ (touch_ledger today e, w)
  unfolding check_halt_conditions
  halt_check-none now today e w f = rw f refl

  all_step :
      (now today : ℕ) (volatile : Option Bool) (e : RiskEngine F L) (w : W)
      → let e₁ = (check_halt_conditions call text now today e w).0 in
        (check_all_conditions call text now today volatile e w).0.mode_manager.mode
        ≡ mode_after_all e₁.mode_manager.mode false (is_some (safe_cause now today volatile e₁).0)
  unfolding check_all_conditions
  all_step now today volatile e w =
      let (e₁, w₁) = check_halt_conditions call text now today e w in
      let e₂ = (check_safe_conditions call text now today volatile e₁ w₁).0 in
      ground (arith, safe_step now today volatile e₁ w₁, kill_switch-mode today e₂)

  -- A check of all conditions leaves HALT where the mode was HALT or a condition for HALT holds, else
  -- SAFE where the mode was SAFE or a condition for SAFE holds, else NORMAL.
  pub check_table :
      (now today : ℕ) (volatile : Option Bool) (e : RiskEngine F L) (w : W)
      → (check_all_conditions call text now today volatile e w).0.mode_manager.mode
        ≡ mode_after_all e.mode_manager.mode
            (is_some (halt_cause today e))
            (is_some (safe_cause now today volatile e).0)
  unfolding touch_ledger
  check_table now today volatile e w =
      let m = e.mode_manager.mode in
      elim (Option-cases (halt_cause today e)) [
        | inl f ↦
            all_step now today volatile e w
            ∙ (ap
                  (λ (p : RiskEngine F L × W).
                    mode_after_all p.0.mode_manager.mode false
                      (is_some (safe_cause now today volatile p.0).0))
                  (halt_check-none now today e w f)
                ∙ (ap (λ c. mode_after_all m false (is_some c))
                      (safe_cause-touched now today volatile e)
                    ∙ ap
                        (λ c.
                          mode_after_all m (is_some c)
                            (is_some (safe_cause now today volatile e).0))
                        (sym f)))
        | inr (c, f) ↦
            let before : (check_halt_conditions call text now today e w).0.mode_manager.mode
                ≡ halt =
              halt_step now today e w
              ∙ (ap (λ c'. if is_halt e || is_some c' then halt else m) f ∙ ground arith) in
            all_step now today volatile e w
            ∙ (ap
                  (λ x. mode_after_all x false (
                    is_some
                      (safe_cause now today volatile
                        (check_halt_conditions call text now today e w).0).0))
                  before
                ∙ sym (
                    ap
                      (λ c'.
                        mode_after_all m (is_some c') (is_some (safe_cause now today volatile e).0))
                      f
                    ∙ ground arith))
      ]
