-- ===== src/Psm/Transitions.antt =====
-- The state that an evaluation leaves, against a description of it that does not go through the
-- steps of the code, and the bounds on the recorded histories.
use stock_test.Base.{
  ℕ, ◌≤◌, ◌≡◌, sym, ◌∙◌, ◌⊎◌, Bool, true, false, not, Option, none, some, [], ◌∷◌, ◌++◌, ◌&&◌, ◌||◌,
  ◌==◌, leb, arith, Bool-cases, inl, inr, if◌then◌else◌, length, length-take_last,
}
use mathlib.Core.Path.{subst}
use stock_test.Float.{FloatOps, FloatOrder, flt, fle}
use stock_test.Psm.State.{
  PositionState, weak, normal, strong, extreme, state_code, ManagedPosition, PsmConfig,
  StateTransition, TransitionReason, hard_rule, by_score, update_extremes,
}
use stock_test.Psm.Answers.{Answers, has_recovered}
use stock_test.Psm.Machine.{
  check_weak_hard_rules, check_hard_rules, transition_state, score_to_state, force_state,
  record_score, follow_score, advance,
}

module _ {F : Type 0} ⦃fl : FloatOps F⦄ where
  -- The state after an evaluation: a hard rule first, then the score; STRONG at the second score
  -- in a row or from STRONG, and out of WEAK only by that or with the VWAP regained.
  abbrev pub expected_state : PsmConfig F → Answers F → Bool → PositionState → ℕ → PositionState
  expected_state cfg a hard_weak current strong_count =
      if hard_weak
      then weak
      else if a.overheat
      then extreme
      else if flt a.total_score cfg.psm_weak_threshold
      then weak
      else if fle cfg.psm_strong_threshold a.total_score
          && (leb 1 strong_count || state_code current == state_code strong)
      then strong
      else if state_code current == state_code weak && not (has_recovered a)
      then weak
      else normal

  transition_to_state :
      (now : ℕ) (next : PositionState) (why : TransitionReason F) (p : ManagedPosition F)
      → (transition_state now next why p).current_state ≡ next
  unfolding transition_state
  transition_to_state now next why p = ground arith

  score_state :
      (o : FloatOrder F) (cfg : PsmConfig F) (a : Answers F) (p : ManagedPosition F)
      → a.overheat ≡ false
      → (score_to_state cfg a a.total_score p).0
        ≡ expected_state cfg a false p.current_state p.consecutive_strong_count
  unfolding score_to_state
  score_state o cfg a p cool = ground (arith, o.ltb-not-leb a.total_score cfg.psm_weak_threshold)

  forced_state :
      (cfg : PsmConfig F) (a : Answers F) (s : PositionState) (p : ManagedPosition F)
      → (follow_score cfg a (some s) (record_score a (force_state a (some s) p))).current_state ≡ s
  unfolding follow_score record_score force_state
  forced_state cfg a s p = transition_to_state a.now s hard_rule p

  free_state :
      (o : FloatOrder F) (cfg : PsmConfig F) (a : Answers F) (price : F) (p : ManagedPosition F)
      → a.overheat ≡ false
      → (follow_score cfg a none
          (record_score a (force_state a none (update_extremes price p)))).current_state
        ≡ expected_state cfg a false p.current_state p.consecutive_strong_count
  unfolding follow_score record_score force_state update_extremes
  free_state o cfg a price p cool =
      let q = record_score a (update_extremes price p) in
      let r = score_to_state cfg a a.total_score q in
      transition_to_state a.now r.0 (by_score a.total_score) r.1 ∙ score_state o cfg a q cool

  pub advance_state :
      (o : FloatOrder F) (cfg : PsmConfig F) (a : Answers F) (price : F) (p : ManagedPosition F)
      → (advance cfg a price p).current_state
        ≡ expected_state cfg a
            (check_weak_hard_rules a (update_extremes price p) price)
            p.current_state
            p.consecutive_strong_count
  unfolding advance check_hard_rules
  advance_state o cfg a price p =
      let p₀ = update_extremes price p in
      let hard = check_weak_hard_rules a p₀ price in
      let goal = expected_state cfg a hard p.current_state p.consecutive_strong_count in
      let Ends = λ (f : Option PositionState).
        (follow_score cfg a f (record_score a (force_state a f p₀))).current_state ≡ goal in
      elim (Bool-cases hard) [
        | inl h ↦
            let found : some weak ≡ check_hard_rules a p₀ price = ground arith in
            let same : weak ≡ goal = ground arith in
            subst Ends found (forced_state cfg a weak p₀ ∙ same)
        | inr h ↦ elim (Bool-cases a.overheat) [
          | inl hot ↦
              let found : some extreme ≡ check_hard_rules a p₀ price = ground arith in
              let same : extreme ≡ goal = ground arith in
              subst Ends found (forced_state cfg a extreme p₀ ∙ same)
          | inr cool ↦
              let found : none ≡ check_hard_rules a p₀ price = ground arith in
              let same : expected_state cfg a false p.current_state p.consecutive_strong_count
                  ≡ goal =
                rw h in
              subst Ends found (free_state o cfg a price p cool ∙ same)
        ]
      ]

  -- At most 20 transitions and 20 scores are recorded.
  abbrev pub IsBounded : ManagedPosition F → Type 0
  IsBounded p = (length p.state_history ≤ 20) × (length p.score_history ≤ 20)

  -- A position is STRONG after an evaluation only if the score reaches its threshold, and if it
  -- was STRONG before or had already counted such a score. (Numbers in a total order.)
  pub strong_needs_two :
      (o : FloatOrder F) (cfg : PsmConfig F) (a : Answers F) (price : F) (p : ManagedPosition F)
      → (advance cfg a price p).current_state ≡ strong
      → (fle cfg.psm_strong_threshold a.total_score ≡ true)
        × ((1 ≤ p.consecutive_strong_count) ⊎ (p.current_state ≡ strong))
  strong_needs_two o cfg a price p h = ground (arith, sym (advance_state o cfg a price p) ∙ h)

  transition-IsBounded :
      (now : ℕ) (next : PositionState) (why : TransitionReason F) (p : ManagedPosition F)
      → IsBounded p
      → IsBounded (transition_state now next why p)
  unfolding transition_state
  transition-IsBounded now next why p b =
      elim (Bool-cases (state_code next == state_code p.current_state)) [
        | inl same ↦ rw (same, transition_state) b
        | inr moved ↦
            let entry : StateTransition F = record {
              from_state = p.current_state;
              to_state = next;
              timestamp = now;
              score = p.last_score;
              reason = why;
            } in
            rw (moved, transition_state)
              (length-take_last 20 (p.state_history ++ entry ∷ []) (omega arith), b.1)
      ]

  score-IsBounded :
      (cfg : PsmConfig F) (a : Answers F) (p : ManagedPosition F)
      → IsBounded p
      → IsBounded (score_to_state cfg a a.total_score p).1
  unfolding score_to_state
  score-IsBounded cfg a p b = ground arith

  record-IsBounded :
      (a : Answers F) (p : ManagedPosition F) → IsBounded p → IsBounded (record_score a p)
  unfolding record_score
  record-IsBounded a p b =
      (b.0, length-take_last 20 (p.score_history ++ a.total_score ∷ []) (omega arith))

  follow-IsBounded :
      (cfg : PsmConfig F) (a : Answers F) (forced : Option PositionState) (p : ManagedPosition F)
      → IsBounded p
      → IsBounded (follow_score cfg a forced p)
  unfolding follow_score
  follow-IsBounded cfg a (some s) p b = b
  follow-IsBounded cfg a none p b =
      let r = score_to_state cfg a a.total_score p in
      transition-IsBounded a.now r.0 (by_score a.total_score) r.1 (score-IsBounded cfg a p b)

  force-IsBounded :
      (a : Answers F) (forced : Option PositionState) (p : ManagedPosition F)
      → IsBounded p
      → IsBounded (force_state a forced p)
  unfolding force_state
  force-IsBounded a none p b = b
  force-IsBounded a (some s) p b = transition-IsBounded a.now s hard_rule p b

  -- An evaluation of a position with at most 20 transitions and at most 20 scores leaves it with
  -- no more.
  pub advance-IsBounded :
      (cfg : PsmConfig F) (a : Answers F) (price : F) (p : ManagedPosition F)
      → IsBounded p
      → IsBounded (advance cfg a price p)
  unfolding advance update_extremes
  advance-IsBounded cfg a price p b =
      let p₀ = update_extremes price p in
      let forced = check_hard_rules a p₀ price in
      follow-IsBounded cfg a forced (record_score a (force_state a forced p₀))
        (record-IsBounded a (force_state a forced p₀) (force-IsBounded a forced p₀ b))
