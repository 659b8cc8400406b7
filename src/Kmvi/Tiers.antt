-- ===== src/Kmvi/Tiers.antt =====
-- Theorems on server/src/risk/kmvi.py: what is known of the state and the history after updates.
use stock_test.Base.{
  ℕ, ◌≤◌, ◌≡◌, refl, true, Option, none, some, List, arith, length, ltb, length-take_last, inl, inr,
  Option-cases, Bool-cases,
}
use stock_test.Float.{FloatOps, FloatOrder, fle}
use stock_test.Candles.{CandleBuffer}
use stock_test.Kmvi.{
  KmviTier, normal, elevated, high, crisis, KmviState, KmviCalculator, determine_tier, measured,
  cached, trim, measure, update,
}

abbrev pub tier_code : KmviTier → ℕ
tier_code normal = 0
tier_code elevated = 1
tier_code high = 2
tier_code crisis = 3

module _ {F : Type 0} ⦃fl : FloatOps F⦄ where
  -- A state is the policy of its value.
  abbrev pub Agrees : KmviCalculator F → Option (KmviState F) → Type 0
  Agrees k none = Unit
  Agrees k (some s) =
      (s.tier ≡ (determine_tier k s.value).tier)
      × (s.micro_scalper_allowed ≡ (determine_tier k s.value).micro_allowed)
      × (s.new_entry_allowed ≡ (determine_tier k s.value).entry_allowed)
      × (s.sizing_multiplier ≡ (determine_tier k s.value).sizing)

  -- The state is the policy of its value, it is known since the last update, and the history is
  -- bounded.
  pub record IsCurrent (k : KmviCalculator F) : Type 0 where
    pub agrees : Agrees k k.last_state
    pub sized : 1 ≤ k.max_history
    pub bounded : length k.kept ≤ k.max_history

  trim_bounds : (n : ℕ) (xs : List (ℕ × F)) → 1 ≤ n → length (trim n xs) ≤ n
  unfolding trim
  trim_bounds n xs h = ground (arith, length-take_last n xs h)

  measure-IsCurrent :
      (floor : F → ℕ) (now : ℕ) (found : List (ℕ × F)) (k : KmviCalculator F)
      → IsCurrent k
      → IsCurrent (measure floor now found k).1
  unfolding measure measured determine_tier
  measure-IsCurrent floor now found k c = elim (Bool-cases (ltb (length found) 5)) [
    | inl few ↦ rw few c
    | inr enough ↦ rw enough record {
      agrees = (refl, refl, refl, refl);
      sized = c.sized;
      bounded = trim_bounds k.max_history _ c.sized;
    }
  ]

  pub update-IsCurrent :
      (floor : F → ℕ) (buffer : ℕ → Option (CandleBuffer F)) (now : ℕ) (symbols : List ℕ)
      (k : KmviCalculator F)
      → IsCurrent k
      → IsCurrent (update floor buffer now symbols k).1
  unfolding update
  update-IsCurrent floor buffer now symbols k c = elim (Option-cases (cached now k)) [
    | inl e ↦ rw (e, update) (measure-IsCurrent floor now _ k c)
    | inr (s, e) ↦ rw (e, update) c
  ]

  -- A worse market never has a milder policy. (Numbers in a total order.)
  pub determine_tier_mono :
      (o : FloatOrder F) (k : KmviCalculator F) (v w : F)
      → fle v w ≡ true
      → tier_code (determine_tier k v).tier ≤ tier_code (determine_tier k w).tier
  unfolding determine_tier
  determine_tier_mono o k v w h =
      ground (arith, o.leb_trans k.t3 v w, o.leb_trans k.t2 v w, o.leb_trans k.t1 v w)
