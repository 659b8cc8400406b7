-- ===== src/Psm/Machine.antt =====
-- server/src/position/state_machine.py: the evaluation of a managed position.
use stock_test.Base.{
  ℕ, ◌+◌, Bool, false, not, Option, none, some, [], ◌∷◌, ◌++◌, ◌&&◌, ◌||◌, leb, ◌==◌, if◌then◌else◌,
  take_last,
}
use stock_test.Float.{FloatOps, of_dec, of_ℕ, fzero, neg, fabs, add, sub, mul, flt, fle}
use stock_test.Psm.State.{
  PositionState, weak, normal, strong, extreme, state_code, Side, long, short, TransitionReason,
  hard_rule, by_score, ManagedPosition, OrderIntent, PsmConfig, calc_r_pnl, update_extremes,
}
use stock_test.Psm.Policies.{get_action}
use stock_test.Psm.Answers.{
  volatile, bearish, bullish, is_regime, Decision, Answers, market_of, has_recovered,
}

module _ {F : Type 0} ⦃fl : FloatOps F⦄ where
  -- `create_position`, for the position
  unfoldable pub create_position : PsmConfig F → ℕ → ℕ → Side → F → F → F → ManagedPosition F
  create_position cfg now sym sd entry qty atr =
      let distance = mul atr cfg.psm_initial_stop_atr in
      let stop : F = (elim sd [ long ↦ sub entry distance | short ↦ add entry distance ]) in
      record {
        symbol = sym;
        side = sd;
        entry_price = entry;
        quantity = qty;
        entry_time = now;
        initial_stop = stop;
        r_value = fabs (sub entry stop);
        highest_price = entry;
        lowest_price = entry;
        current_stop = stop;
        current_state = normal;
        state_history = [];
        consecutive_weak_count = 0;
        consecutive_strong_count = 0;
        consecutive_extreme_count = 0;
        tp_30_triggered = false;
        tp_60_triggered = false;
        last_score = of_ℕ 50;
        score_history = [];
      }

  -- The third rule of `_check_weak_hard_rules`
  abbrev pub drawdown_rule : Option (Decision F) → F → Bool
  drawdown_rule none r_pnl = false
  drawdown_rule (some d) r_pnl =
      leb 4 d.dd_tier
      || (d.is_soft_dd && flt r_pnl fzero)
      || (leb 3 d.dd_tier && fle r_pnl (neg (of_dec 5 1)))

  -- `_check_weak_hard_rules`, for whether it gives a reason
  unfoldable pub check_weak_hard_rules : Answers F → ManagedPosition F → F → Bool
  check_weak_hard_rules a p price =
      let against : Bool = (elim p.side [
        | long ↦ is_regime a.regime bearish
        | short ↦ is_regime a.regime bullish
      ]) in
      let risk_off : Bool = (elim a.risk_mode_normal [ none ↦ false | some ok ↦ not ok ]) in
      a.is_volatile
      || is_regime a.regime volatile
      || against
      || risk_off
      || drawdown_rule a.decision (calc_r_pnl p price)
      || a.structure_break
      || fle (calc_r_pnl p price) (neg (of_dec 8 1))

  -- `_check_hard_rules`
  unfoldable pub check_hard_rules : Answers F → ManagedPosition F → F → Option PositionState
  check_hard_rules a p price =
      if check_weak_hard_rules a p price
      then some weak
      else if a.overheat
      then some extreme
      else none

  -- `_transition_state`
  unfoldable pub transition_state :
      ℕ → PositionState → TransitionReason F → ManagedPosition F → ManagedPosition F
  transition_state now next why p =
      if state_code next == state_code p.current_state then p else record p {
        current_state = next;
        state_history = take_last 20 (
            p.state_history
            ++ record {
              from_state = p.current_state;
              to_state = next;
              timestamp = now;
              score = p.last_score;
              reason = why;
            }
              ∷ []);
      }

  -- The end of `_score_to_state`, for a score below STRONG or a first score above it.
  unfoldable pub settle :
      PsmConfig F → Answers F → F → ManagedPosition F → PositionState × ManagedPosition F
  settle cfg a score p =
      if state_code p.current_state == state_code weak
      then (if fle cfg.psm_weak_threshold score
          then (if has_recovered a then normal else weak, record p { consecutive_weak_count = 0 })
          else (weak, p))
      else (
        normal,
        record p {
          consecutive_strong_count =
              if flt score cfg.psm_strong_threshold then 0 else p.consecutive_strong_count;
          consecutive_extreme_count =
              if flt score cfg.psm_extreme_threshold then 0 else p.consecutive_extreme_count;
        },
      )

  -- `_score_to_state`: the state, and the position with its counters
  unfoldable pub score_to_state :
      PsmConfig F → Answers F → F → ManagedPosition F → PositionState × ManagedPosition F
  unfolding settle
  score_to_state cfg a score p =
      if flt score cfg.psm_weak_threshold
      then (
        weak,
        record p {
          consecutive_strong_count = 0;
          consecutive_extreme_count = 0;
          consecutive_weak_count = p.consecutive_weak_count + 1;
        },
      )
      else if fle cfg.psm_extreme_threshold score && a.overheat
      then (
        extreme,
        record p {
          consecutive_weak_count = 0;
          consecutive_strong_count = 0;
          consecutive_extreme_count = p.consecutive_extreme_count + 1;
        },
      )
      else if fle cfg.psm_strong_threshold score
      then (let q = record p {
        consecutive_weak_count = 0;
        consecutive_extreme_count = 0;
        consecutive_strong_count = p.consecutive_strong_count + 1;
      } in
          if leb 2 q.consecutive_strong_count || state_code p.current_state == state_code strong
          then (strong, q)
          else settle cfg a score q)
      else settle cfg a score p

  -- Step 1 of `evaluate`: the state that a hard rule forces.
  unfoldable pub force_state :
      Answers F → Option PositionState → ManagedPosition F → ManagedPosition F
  force_state a none p = p
  force_state a (some s) p = transition_state a.now s hard_rule p

  -- Step 2: the score is recorded.
  unfoldable pub record_score : Answers F → ManagedPosition F → ManagedPosition F
  record_score a p = record p {
    last_score = a.total_score;
    score_history = take_last 20 (p.score_history ++ a.total_score ∷ []);
  }

  -- Step 3: the state by the score, unless a hard rule has applied. A transition to the state that
  -- the position has does nothing.
  unfoldable pub follow_score :
      PsmConfig F → Answers F → Option PositionState → ManagedPosition F → ManagedPosition F
  follow_score cfg a (some s) p = p
  follow_score cfg a none p =
      let (next, p') = score_to_state cfg a a.total_score p in
      transition_state a.now next (by_score a.total_score) p'

  -- Steps 1 to 3 of `evaluate`, after the update of the extremes.
  unfoldable pub advance : PsmConfig F → Answers F → F → ManagedPosition F → ManagedPosition F
  advance cfg a price p =
      let p₀ = update_extremes price p in
      let forced = check_hard_rules a p₀ price in
      follow_score cfg a forced (record_score a (force_state a forced p₀))

  -- `evaluate`, on the position of the symbol
  unfoldable pub evaluate_position :
      PsmConfig F → Answers F → F → ManagedPosition F → ManagedPosition F × OrderIntent F
  evaluate_position cfg a price p =
      let p' = advance cfg a price p in
      (p', get_action cfg p'.current_state a.now p' price (market_of a p'.side))
