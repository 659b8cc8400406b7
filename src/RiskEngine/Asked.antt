-- ===== src/RiskEngine/Asked.antt =====
-- To ask the ledger for the result of the day changes no answer of the risk engine.

use stock_test.Base.{
  ℕ, ◌≡◌, refl, sym, ap, ◌∙◌, Bool, Option, none, some, arith, Option-cases, inl, inr,
}
use stock_test.Float.{FloatOps, fzero, fle}
use stock_test.Dict.{lookup-put}
use stock_test.Ledger.{Ledger, today_stats, with_stats, pnl_pct}
use stock_test.RiskEngine.{
  RiskEngine, Cause, get_summary, get_daily_pnl_pct, get_weekly_pnl_pct, ledger_at_most,
  touch_ledger, safe_cause, check_ws_high_latency, early_safe_cause, late_safe_cause, high_latency,
}

abbrev first_of : Option Cause → Option Cause → Option Cause
first_of none late = late
first_of (some c) late = some c

module _ {F : Type 0} ⦃fl : FloatOps F⦄ where
  today-touched :
      (today : ℕ) (l : Ledger F) → today_stats today (get_summary today l).0 ≡ today_stats today l
  unfolding today_stats get_summary with_stats
  today-touched today l =
      rw (lookup-put today today (today_stats today l) l.daily_stats) (ground arith)

  daily-touched :
      (today : ℕ) (l : Ledger F)
      → get_daily_pnl_pct today (get_summary today l).0 ≡ get_daily_pnl_pct today l
  unfolding get_daily_pnl_pct get_summary
  daily-touched today l = ap (λ s. pnl_pct s) (today-touched today l)

  no_weekly : (today : ℕ) (l : Ledger F) → get_weekly_pnl_pct today l ≡ fzero
  unfolding get_weekly_pnl_pct get_summary
  no_weekly today l = refl

module _ {F L : Type 0} ⦃fl : FloatOps F⦄ where
  -- To ask the ledger changes no answer.
  at_most-touched :
      (limit : F) (today : ℕ) (e : RiskEngine F L)
      → ledger_at_most get_daily_pnl_pct limit today (touch_ledger today e)
        ≡ ledger_at_most get_daily_pnl_pct limit today e
  unfolding touch_ledger
  at_most-touched limit today e = elim (Option-cases e.ledger) [
    | inl f ↦ rw f refl
    | inr (l, f) ↦ rw f (ap (λ x. fle x limit) (daily-touched today l))
  ]

  early-touched :
      (now today : ℕ) (e : RiskEngine F L)
      → early_safe_cause now today (touch_ledger today e) ≡ early_safe_cause now today e
  unfolding early_safe_cause touch_ledger
  early-touched now today e = rw (at_most-touched e.limits.daily_loss_limit_safe today e) refl

  safe_cause-first_of :
      (now today : ℕ) (volatile : Option Bool) (e : RiskEngine F L)
      → (safe_cause now today volatile e).0
        ≡ first_of
            (early_safe_cause now today e)
            (late_safe_cause now (high_latency now e).0 volatile e)
  unfolding safe_cause check_ws_high_latency late_safe_cause
  safe_cause-first_of now today volatile e =
      ground (arith, Option-cases (early_safe_cause now today e))

  pub safe_cause-touched :
      (now today : ℕ) (volatile : Option Bool) (e : RiskEngine F L)
      → (safe_cause now today volatile (touch_ledger today e)).0
        ≡ (safe_cause now today volatile e).0
  unfolding touch_ledger late_safe_cause high_latency
  safe_cause-touched now today volatile e =
      let late = late_safe_cause now (high_latency now e).0 volatile e in
      safe_cause-first_of now today volatile (touch_ledger today e)
      ∙ (ap (λ c. first_of c late) (early-touched now today e)
          ∙ sym (safe_cause-first_of now today volatile e))
