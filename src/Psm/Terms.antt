-- ===== src/Psm/Terms.antt =====
-- What an evaluation leaves of the terms of a position, and the stop that it orders.
use stock_test.Base.{ℕ, ◌≡◌, sym, ◌∙◌, true, Option, none, some, arith}
use mathlib.Core.Path.{subst}
use stock_test.Float.{FloatOps, FloatOrder, fle}
use stock_test.Psm.State.{
  PositionState, Side, ManagedPosition, PsmConfig, update_extremes, TransitionReason, hard_rule,
  by_score,
}
use stock_test.Psm.Policies.{get_action}
use stock_test.Psm.Answers.{Answers, market_of}
use stock_test.Psm.Machine.{
  advance, evaluate_position, score_to_state, check_hard_rules, transition_state, follow_score,
  record_score, force_state,
}
use stock_test.Psm.Stops.{Protects, lt-le, get_action-Protects}

module _ {F : Type 0} ⦃fl : FloatOps F⦄ where
  -- What an evaluation leaves as it is, once the extremes are updated.
  pub record SameTerms (p q : ManagedPosition F) : Type 0 where
    pub side : q.side ≡ p.side
    pub stop : q.current_stop ≡ p.current_stop
    pub quantity : q.quantity ≡ p.quantity
    pub entry : q.entry_price ≡ p.entry_price
    pub high : q.highest_price ≡ p.highest_price
    pub low : q.lowest_price ≡ p.lowest_price

  SameTerms-trans : {p q r : ManagedPosition F} → SameTerms p q → SameTerms q r → SameTerms p r
  SameTerms-trans h k = record {
    side = k.side ∙ h.side;
    stop = k.stop ∙ h.stop;
    quantity = k.quantity ∙ h.quantity;
    entry = k.entry ∙ h.entry;
    high = k.high ∙ h.high;
    low = k.low ∙ h.low;
  }

  transition_same :
      (now : ℕ) (next : PositionState) (why : TransitionReason F) (p : ManagedPosition F)
      → SameTerms p (transition_state now next why p)
  unfolding transition_state
  transition_same now next why p = ground arith

  score_same :
      (cfg : PsmConfig F) (a : Answers F) (score : F) (p : ManagedPosition F)
      → SameTerms p (score_to_state cfg a score p).1
  unfolding score_to_state
  score_same cfg a score p = ground arith

  follow_same :
      (cfg : PsmConfig F) (a : Answers F) (forced : Option PositionState) (p : ManagedPosition F)
      → SameTerms p (follow_score cfg a forced p)
  unfolding follow_score
  follow_same cfg a (some s) p = ground arith
  follow_same cfg a none p =
      let r = score_to_state cfg a a.total_score p in
      SameTerms-trans (score_same cfg a a.total_score p)
        (transition_same a.now r.0 (by_score a.total_score) r.1)

  force_same :
      (a : Answers F) (forced : Option PositionState) (p : ManagedPosition F)
      → SameTerms p (record_score a (force_state a forced p))
  unfolding record_score force_state
  force_same a none p = ground arith
  force_same a (some s) p =
      let t = transition_same a.now s hard_rule p in
      record {
        side = t.side;
        stop = t.stop;
        quantity = t.quantity;
        entry = t.entry;
        high = t.high;
        low = t.low;
      }

  advance_same :
      (cfg : PsmConfig F) (a : Answers F) (price : F) (p : ManagedPosition F)
      → SameTerms (update_extremes price p) (advance cfg a price p)
  unfolding advance
  advance_same cfg a price p =
      let p₀ = update_extremes price p in
      let forced = check_hard_rules a p₀ price in
      SameTerms-trans (force_same a forced p₀)
        (follow_same cfg a forced (record_score a (force_state a forced p₀)))

  extremes_enclose :
      (o : FloatOrder F) (price : F) (p : ManagedPosition F)
      → let q = update_extremes price p in
        (fle q.lowest_price price ≡ true)
        × (fle price q.highest_price ≡ true)
        × (fle q.lowest_price p.lowest_price ≡ true)
        × (fle p.highest_price q.highest_price ≡ true)
  unfolding update_extremes
  extremes_enclose o price p = ground (
    arith,
    o.leb_refl price,
    o.leb_refl p.highest_price,
    o.leb_refl p.lowest_price,
    lt-le o price p.lowest_price,
    lt-le o p.highest_price price,
    o.ltb-not-leb price p.lowest_price,
    o.ltb-not-leb p.highest_price price,
  )

  -- An evaluation orders a stop that protects the position no less than its current stop, whatever
  -- the market answers; it leaves side, quantity and entry as they are, and the recorded extremes
  -- widen to enclose the price. (Numbers in a total order.)
  pub evaluate-Protects :
      (o : FloatOrder F) (s : Side) (cfg : PsmConfig F) (a : Answers F) (price : F)
      (p : ManagedPosition F)
      → p.side ≡ s
      → let (p', intent) = evaluate_position cfg a price p in
        Protects s p.current_stop intent.desired_stop_price
        × ((p'.side ≡ p.side) × (p'.quantity ≡ p.quantity) × (p'.entry_price ≡ p.entry_price))
        × ((fle p'.lowest_price price ≡ true)
            × (fle price p'.highest_price ≡ true)
            × (fle p'.lowest_price p.lowest_price ≡ true)
            × (fle p.highest_price p'.highest_price ≡ true))
  unfolding evaluate_position update_extremes
  evaluate-Protects o s cfg a price p e =
      let p' = advance cfg a price p in
      let k = advance_same cfg a price p in
      let x = extremes_enclose o price p in
      let stop =
        get_action-Protects o s cfg p'.current_state a.now p' price (market_of a p'.side)
          (k.side ∙ e) in
      let intent = get_action cfg p'.current_state a.now p' price (market_of a p'.side) in
      (
        subst (λ c. Protects s c intent.desired_stop_price) k.stop stop,
        (k.side, k.quantity, k.entry),
        (
          subst (λ c. fle c price ≡ true) (sym k.low) x.0,
          subst (λ c. fle price c ≡ true) (sym k.high) x.1,
          subst (λ c. fle c p.lowest_price ≡ true) (sym k.low) x.2,
          subst (λ c. fle p.highest_price c ≡ true) (sym k.high) x.3,
        ),
      )
