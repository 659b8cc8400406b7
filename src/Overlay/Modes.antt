-- ===== src/Overlay/Modes.antt =====
-- Theorems on server/src/risk/risk_overlay.py: the tail risk, the mode and what is asked of it.
use stock_test.Base.{
  ℕ, ◌≡◌, refl, ap, Option-cases, inl, inr, Bool, true, false, ◌||◌, Option, none, some, List,
  arith, if◌then◌else◌,
}
use stock_test.Float.{FloatOps, fle, fzero}
use stock_test.Drawdown.{DrawdownState}
use stock_test.ExecHealth.{should_enter_safe}
use stock_test.Correlation.{CorrelationState}
use stock_test.Overlay.{RiskMode, TailAction, RiskDecision, RiskOverlay, OverlayConfig, Inputs}
use stock_test.Overlay.Decision.{
  config_stage, drawdown_stage, soft_stage, reducer_stage, system_stage, check_tail_risk,
  drawdown_tail, daily_tail, correlation_tail, tail_stage, kmvi_stage, regime_stage, core_stage,
  correlation_stage, portfolio_stage,
}
use stock_test.Overlay.Evaluate.{
  finish, tracker_after, corr_state, tail_of, portfolio_after, reducer_after, start, tail_part,
  market_part, book_part, decide, evaluate, condition_of, fresh_dd,
}
use stock_test.Overlay.Entries.{
  satellite_answer, latest, can_open_satellite, without_equity, force_mode,
}
use stock_test.Overlay.Chain.{all_clear, satellite_iff}

abbrev pub halts : TailAction → Bool
halts TailAction.halt = true
halts _ = false

abbrev pub mode_of : Bool → TailAction → RiskMode
mode_of unsafe TailAction.halt = RiskMode.halt
mode_of unsafe TailAction.safe = RiskMode.safe
mode_of unsafe TailAction.ok = if unsafe then RiskMode.safe else RiskMode.normal

module _ {F : Type 0} ⦃fl : FloatOps F⦄ where
  -- Only a hard drawdown or a daily loss at its second limit halts; correlations never do.
  pub tail_halts_iff :
      (c : OverlayConfig F) (s : DrawdownState F) (corr : Option (CorrelationState F))
      → halts (check_tail_risk c (some s) corr).action
        ≡ (s.is_hard_dd || fle s.daily_pnl_pct c.daily_loss_halt)
  unfolding check_tail_risk drawdown_tail daily_tail correlation_tail
  tail_halts_iff c s corr = ground arith

  -- Between the first and the soft limit of the drawdown, and while the loss of the day is above
  -- its limits, a drawdown that is a SAFE trigger is a tail risk exactly if the day has not lost
  -- enough for the combined trigger: the combined trigger switches the risk off.
  pub combined_masks :
      (c : OverlayConfig F) (s : DrawdownState F)
      → s.is_hard_dd ≡ false
      → s.is_soft_dd ≡ false
      → s.is_safe_trigger ≡ true
      → fle s.daily_pnl_pct c.daily_loss_halt ≡ false
      → fle s.daily_pnl_pct c.daily_loss_safe ≡ false
      → (check_tail_risk c (some s) none).action
        ≡ (if s.is_combined_safe then TailAction.ok else TailAction.safe)
  unfolding check_tail_risk drawdown_tail daily_tail correlation_tail
  combined_masks c s hard soft trigger day safe = ground arith

  module _ (root : F → F) (closes : ℕ → ℕ → List F) where
    start-mode :
        (i : Inputs F) (o : RiskOverlay F)
        → (start root closes i o).mode
          ≡ (if (should_enter_safe o.exec_health).0.0 then RiskMode.safe else RiskMode.normal)
    unfolding start system_stage config_stage
    start-mode i o = ground arith

    tail-mode :
        (i : Inputs F) (o : RiskOverlay F) (d : RiskDecision F)
        → (tail_part root closes i o d).mode ≡ (tail_stage (tail_of root closes i o) d).mode
    unfolding tail_part soft_stage tail_stage drawdown_stage
    tail-mode i o d = ground arith

    later-mode :
        (i : Inputs F) (o : RiskOverlay F) (d : RiskDecision F)
        → (book_part root closes i o (market_part root closes i o d)).mode ≡ d.mode
    unfolding book_part portfolio_stage reducer_stage correlation_stage market_part core_stage
        regime_stage kmvi_stage
    later-mode i o d = ground arith

    -- The mode of a decision, and of the overlay after it whatever it was before, is that of the
    -- tail risk; without a tail risk it is SAFE exactly if the execution is not healthy.
    pub mode_table :
        (i : Inputs F) (o : RiskOverlay F)
        → ((evaluate root closes i o).0.mode
            ≡ mode_of (should_enter_safe o.exec_health).0.0 (tail_of root closes i o).action)
          × ((evaluate root closes i o).1.current_mode
              ≡ mode_of (should_enter_safe o.exec_health).0.0 (tail_of root closes i o).action)
    unfolding evaluate decide finish tail_stage
    mode_table i o =
        let d = start root closes i o in
        ground
          (arith, start-mode i o, tail-mode i o d, later-mode i o (tail_part root closes i o d))

    decide-force :
        (now : ℕ) (mode : RiskMode) (i : Inputs F) (o : RiskOverlay F)
        → decide root closes i (force_mode now mode o) ≡ decide root closes i o
    unfolding decide force_mode start tail_part market_part book_part tracker_after corr_state
        tail_of portfolio_after reducer_after condition_of fresh_dd
    decide-force now mode i o = refl

    latest-force :
        (now : ℕ) (mode : RiskMode) (i : Inputs F) (o : RiskOverlay F)
        → (latest root closes i (force_mode now mode o)).0 ≡ (latest root closes i o).0
    unfolding latest force_mode evaluate
    latest-force now mode i o = elim (Option-cases o.last_decision) [
      | inl e ↦ rw (e, latest) (decide-force now mode (without_equity i) o)
      | inr (d, e) ↦ rw (e, latest) refl
    ]

    -- A mode that is forced, HALT included, changes no answer on new entries.
    pub force_ignored :
        (now : ℕ) (mode : RiskMode) (i : Inputs F) (o : RiskOverlay F)
        → (can_open_satellite root closes i (force_mode now mode o)).0
          ≡ (can_open_satellite root closes i o).0
    unfolding can_open_satellite
    force_ignored now mode i o = ap satellite_answer (latest-force now mode i o)

    -- If new entries are open after a decision, all its checks were passed and the size is above 0.
    pub opened-all_clear :
        (i j : Inputs F) (o : RiskOverlay F)
        → (can_open_satellite root closes j (evaluate root closes i o).1).0.0 ≡ true
        → (all_clear root closes i o ≡ true)
          × (fle (evaluate root closes i o).0.sizing_multiplier fzero ≡ false)
    unfolding can_open_satellite latest satellite_answer evaluate
    opened-all_clear i j o h = ground (arith, satellite_iff root closes i o)
