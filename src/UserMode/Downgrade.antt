-- ===== src/UserMode/Downgrade.antt =====
-- The decision of the effective mode, and what it keeps over any sequence of calls.
use stock_test.Base.{
  ℕ, ◌≤◌, ◌≡◌, ◌↔◌, Bool, true, false, none, some, List, [], ◌∷◌, ◌||◌, arith, if◌then◌else◌,
}
use stock_test.Float.{FloatOps, FloatOrder, of_dec, flt, fle}
use stock_test.Drawdown.{DrawdownState, DrawdownTracker}
use stock_test.UserMode.{
  UserMode, safe, balanced, aggressive, paper, mode_code, UserModeManager, daily_loss_of,
  evaluate_effective_mode, set_mode, update_risk_state, should_execute_trades, mode_config,
}

-- The calls of the two methods that evaluate, each with its time and the tracker as it is then.
pub data Call (F : Type 0) : Type 0 where
  call_set : ℕ → DrawdownTracker F → UserMode → Call F
  call_update : ℕ → DrawdownTracker F → Call F

module _ {F : Type 0} ⦃fl : FloatOps F⦄ where
  -- Whether a drawdown and a daily loss are too high for AGGRESSIVE, and for BALANCED.
  abbrev pub too_high_for_aggressive : DrawdownState F → Bool
  too_high_for_aggressive s = flt (of_dec 3 2) s.drawdown_pct || flt (of_dec 2 2) (daily_loss_of s)

  abbrev pub too_high_for_balanced : DrawdownState F → Bool
  too_high_for_balanced s = flt (of_dec 4 2) s.drawdown_pct || flt (of_dec 15 3) (daily_loss_of s)

  -- The documented table: which mode a requested one becomes.
  abbrev pub expected_mode : UserMode → DrawdownState F → UserMode
  expected_mode safe s = safe
  expected_mode paper s = paper
  expected_mode balanced s = if too_high_for_balanced s then safe else balanced
  expected_mode aggressive s =
      if too_high_for_aggressive s
      then if too_high_for_balanced s then safe else balanced
      else aggressive

  -- With a drawdown state the effective mode is the one of the table, and a reason is stored
  -- exactly when it differs from the requested one; without a state it is the requested one, with
  -- no reason.
  pub evaluate_table :
      (now : ℕ) (t : DrawdownTracker F) (m : UserModeManager F)
      → let m' = evaluate_effective_mode now t m in
        (m'.requested_mode ≡ m.requested_mode)
        × (m'.effective_mode ≡ elim t.last_state [
          | none ↦ m.requested_mode
          | some s ↦ expected_mode m.requested_mode s
        ])
        × ((m'.downgrade_reason ≡ none) ↔ (m'.effective_mode ≡ m.requested_mode))
  unfolding evaluate_effective_mode
  evaluate_table now t m = ground arith

  -- Where the literals 1.5 % and 2 % are in order and the tracker has a state: with a daily loss
  -- above 2 %, a request of AGGRESSIVE takes effect as SAFE, never as BALANCED. (Numbers in a
  -- total order.)
  pub aggressive_loss :
      (o : FloatOrder F) (now : ℕ) (t : DrawdownTracker F) (s : DrawdownState F)
      (m : UserModeManager F)
      → fle {F = F} (of_dec 15 3) (of_dec 2 2) ≡ true
      → t.last_state ≡ some s
      → flt (of_dec 2 2) (daily_loss_of s) ≡ true
      → (set_mode now t aggressive m).effective_mode ≡ safe
  unfolding set_mode
  aggressive_loss o now t s m lits e h =
      let loss = daily_loss_of s in
      let back : fle loss (of_dec 15 3) ≡ true → fle loss (of_dec 2 2) ≡ true =
        (λ p. o.leb_trans loss (of_dec 15 3) (of_dec 2 2) p lits) in
      ground (arith, back, o.ltb-not-leb (of_dec 15 3) loss, o.ltb-not-leb (of_dec 2 2) loss)

  -- The effective mode risks no more than the requested one, and is simulated exactly with it.
  abbrev pub IsWithin : UserModeManager F → Type 0
  IsWithin m =
      let a = mode_config {F = F} m.effective_mode in
      let b = mode_config {F = F} m.requested_mode in
      ((m.effective_mode ≡ paper) ↔ (m.requested_mode ≡ paper))
      × (a.max_concurrent_positions ≤ b.max_concurrent_positions)
      × (a.leverage_max ≤ b.leverage_max)
      × (mode_code m.effective_mode ≤ mode_code m.requested_mode)

  apply : Call F → UserModeManager F → UserModeManager F
  apply (call_set now t mode) m = set_mode now t mode m
  apply (call_update now t) m = update_risk_state now t m

  unfoldable pub run : List (Call F) → UserModeManager F → UserModeManager F
  unfolding apply
  run [] m = m
  run (c ∷ cs) m = run cs (apply c m)

  apply-IsWithin : (c : Call F) (m : UserModeManager F) → IsWithin (apply c m)
  unfolding apply set_mode update_risk_state mode_config
  apply-IsWithin (call_set now t mode) m = ground arith
  apply-IsWithin (call_update now t) m = ground arith

  -- From a manager in which it holds, and after any calls of `set_mode` and `update_risk_state`,
  -- whatever the tracker reported: the effective mode allows no more positions and no more
  -- leverage than the requested one, and is PAPER exactly when that is.
  pub run-IsWithin : (cs : List (Call F)) (m : UserModeManager F) → IsWithin m → IsWithin (run cs m)
  unfolding run
  run-IsWithin [] m h = h
  run-IsWithin (c ∷ cs) m h = run-IsWithin cs (apply c m) (apply-IsWithin c m)

  -- From a manager whose effective mode is within the requested one, and after any calls: trades
  -- are executed exactly if the user's own mode is not PAPER; no downgrade stops them, and none
  -- starts them.
  pub trades_unless_paper :
      (cs : List (Call F)) (m : UserModeManager F)
      → IsWithin m
      → (should_execute_trades (run cs m) ≡ false) ↔ ((run cs m).requested_mode ≡ paper)
  unfolding should_execute_trades
  trades_unless_paper cs m h = ground (arith, run-IsWithin cs m h)
