-- ===== src/Psm/Climax.antt =====
-- The counter of EXTREME evaluations: since an overheated market makes a hard rule apply, the branch
-- of the score that counts them is never reached.
use stock_test.Base.{
  ℕ, ◌≡◌, ◌≢◌, refl, ◌∙◌, false, Option, none, some, List, [], ◌∷◌, All, arith, inl, inr,
  Option-cases,
}
use stock_test.Float.{FloatOps}
use stock_test.Psm.State.{
  PositionState, weak, normal, strong, extreme, ManagedPosition, PsmConfig, OrderIntent,
  extreme_exit, extreme_tp, normal_tp1, normal_tp2, strong_tp1, strong_tp2, TransitionReason,
  hard_rule, by_score, update_extremes,
}
use stock_test.Psm.Policies.{
  Market, both, hold, tighten, trail, partial_profits, weak_action, normal_action, strong_action,
  extreme_action, get_action,
}
use stock_test.Psm.Answers.{Answers, market_of}
use stock_test.Psm.Machine.{
  check_hard_rules, transition_state, score_to_state, force_state, record_score, follow_score,
  advance, evaluate_position,
}

module _ {F : Type 0} ⦃fl : FloatOps F⦄ where
  -- Evaluations in turn, each with its answers and its price: the intents.
  unfoldable pub intents :
      PsmConfig F → List (Answers F × F) → ManagedPosition F → List (OrderIntent F)
  intents cfg [] p = []
  intents cfg ((a, price) ∷ es) p =
      let (p', i) = evaluate_position cfg a price p in i ∷ intents cfg es p'

  transition_count :
      (now : ℕ) (next : PositionState) (why : TransitionReason F) (p : ManagedPosition F)
      → (transition_state now next why p).consecutive_extreme_count ≡ p.consecutive_extreme_count
  unfolding transition_state
  transition_count now next why p = ground arith

  score_count :
      (cfg : PsmConfig F) (a : Answers F) (p : ManagedPosition F)
      → a.overheat ≡ false
      → p.consecutive_extreme_count ≡ 0
      → (score_to_state cfg a a.total_score p).1.consecutive_extreme_count ≡ 0
  unfolding score_to_state
  score_count cfg a p cool z = ground arith

  follow_count :
      (cfg : PsmConfig F) (a : Answers F) (forced : Option PositionState) (p : ManagedPosition F)
      → (forced ≡ none → a.overheat ≡ false)
      → p.consecutive_extreme_count ≡ 0
      → (follow_score cfg a forced p).consecutive_extreme_count ≡ 0
  unfolding follow_score
  follow_count cfg a (some s) p cool z = z
  follow_count cfg a none p cool z =
      let r = score_to_state cfg a a.total_score p in
      transition_count a.now r.0 (by_score a.total_score) r.1 ∙ score_count cfg a p (cool refl) z

  force_count :
      (a : Answers F) (forced : Option PositionState) (p : ManagedPosition F)
      → (record_score a (force_state a forced p)).consecutive_extreme_count
        ≡ p.consecutive_extreme_count
  unfolding record_score force_state
  force_count a none p = refl
  force_count a (some s) p = transition_count a.now s hard_rule p

  unforced_cool :
      (a : Answers F) (p : ManagedPosition F) (price : F)
      → check_hard_rules a p price ≡ none
      → a.overheat ≡ false
  unfolding check_hard_rules
  unforced_cool a p price h = ground arith

  advance_count :
      (cfg : PsmConfig F) (a : Answers F) (price : F) (p : ManagedPosition F)
      → p.consecutive_extreme_count ≡ 0
      → (advance cfg a price p).consecutive_extreme_count ≡ 0
  unfolding advance update_extremes
  advance_count cfg a price p z =
      let p₀ = update_extremes price p in
      let forced = check_hard_rules a p₀ price in
      follow_count cfg a forced (record_score a (force_state a forced p₀))
        (unforced_cool a p₀ price) (force_count a forced p₀ ∙ z)

  -- What an intent of EXTREME can be while the counter is 0.
  abbrev pub IsFirstClimax : PsmConfig F → OrderIntent F → Type 0
  IsFirstClimax cfg i =
      (i.reason ≢ some extreme_exit)
      × ((pct : F) → i.reason ≡ some (extreme_tp pct) → pct ≡ cfg.psm_extreme_tp_pct)

  tighten_reason :
      (p : ManagedPosition F) (n : F) (i : OrderIntent F) → (tighten p n i).reason ≡ i.reason
  unfolding tighten
  tighten_reason p n i = ground arith

  weak_climax :
      (cfg : PsmConfig F) (now : ℕ) (p : ManagedPosition F) (price : F) (m : Market F)
      → IsFirstClimax cfg (weak_action cfg now p price m)
  unfolding weak_action tighten both
  weak_climax cfg now p price m = (ground arith, λ pct h. ground arith)

  trail_reason :
      (p : ManagedPosition F) (m : Market F) (k : F) (i : OrderIntent F)
      → (trail p m k i).reason ≡ i.reason
  unfolding trail both
  trail_reason p m k i = elim (Option-cases (both m.swing_low m.atr)) [
    | inl missing ↦ rw (missing, trail)
    | inr ((swing, atr), q) ↦ rw (q, trail) (tighten_reason p _ i)
  ]

  extreme_climax :
      (cfg : PsmConfig F) (p : ManagedPosition F) (price : F) (m : Market F)
      → p.consecutive_extreme_count ≡ 0
      → IsFirstClimax cfg (extreme_action cfg p price m)
  unfolding extreme_action tighten both
  extreme_climax cfg p price m z = (ground arith, λ pct h. ground arith)

  normal_climax :
      (cfg : PsmConfig F) (now : ℕ) (p : ManagedPosition F) (price : F) (m : Market F)
      → IsFirstClimax cfg (normal_action cfg now p price m)
  unfolding normal_action partial_profits
  normal_climax cfg now p price m =
      let i =
        partial_profits cfg.psm_tp1_r cfg.psm_tp1_pct_normal cfg.psm_tp2_r cfg.psm_tp2_pct
          normal_tp1 normal_tp2 p price (hold p false) in
      let t = trail_reason p m cfg.psm_normal_trailing_atr i in
      (ground (arith, t), λ pct h. ground (arith, t))

  strong_climax :
      (cfg : PsmConfig F) (p : ManagedPosition F) (price : F) (m : Market F)
      → IsFirstClimax cfg (strong_action cfg p price m)
  unfolding strong_action partial_profits
  strong_climax cfg p price m =
      let i =
        partial_profits cfg.psm_tp1_r cfg.psm_tp1_pct_strong cfg.psm_tp2_strong_r cfg.psm_tp2_pct
          strong_tp1 strong_tp2 p price (hold p false) in
      let t = trail_reason p m cfg.psm_strong_trailing_atr i in
      (ground (arith, t), λ pct h. ground (arith, t))

  action_climax :
      (cfg : PsmConfig F) (s : PositionState) (now : ℕ) (p : ManagedPosition F) (price : F)
      (m : Market F)
      → p.consecutive_extreme_count ≡ 0
      → IsFirstClimax cfg (get_action cfg s now p price m)
  unfolding get_action
  action_climax cfg weak now p price m z = weak_climax cfg now p price m
  action_climax cfg normal now p price m z = normal_climax cfg now p price m
  action_climax cfg strong now p price m z = strong_climax cfg p price m
  action_climax cfg extreme now p price m z = extreme_climax cfg p price m z

  -- Whatever the market answers, a position whose EXTREME counter is 0, as it is at its entry,
  -- never gets the full exit of a second EXTREME in a row, nor the larger take-profit: each
  -- take-profit of EXTREME is of the configured share.
  pub extreme_never_exits :
      (cfg : PsmConfig F) (es : List (Answers F × F)) (p : ManagedPosition F)
      → p.consecutive_extreme_count ≡ 0
      → All (IsFirstClimax cfg) (intents cfg es p)
  unfolding intents evaluate_position
  extreme_never_exits cfg [] p z = tt
  extreme_never_exits cfg ((a, price) ∷ es) p z =
      let p' = advance cfg a price p in
      let z' = advance_count cfg a price p z in
      (
        action_climax cfg p'.current_state a.now p' price (market_of a p'.side) z',
        extreme_never_exits cfg es p' z',
      )
