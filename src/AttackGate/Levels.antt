-- ===== src/AttackGate/Levels.antt =====
-- The level that the gate lets through.
use stock_test.Base.{
  ℕ, ◌≤◌, ◌<◌, ◌≡◌, true, false, ◌||◌, none, List, [], ◌∷◌, arith, any, ltb, leb, if◌then◌else◌,
  is_some,
}
use mathlib.Core.Path.{subst}
use stock_test.Float.{FloatOps, fle}
use stock_test.CapitalProfile.{
  attack_mode_eq, has_level, get_config, can_use_attack_level, can_use_attack_mode,
}
use stock_test.AttackGate.{
  AttackGate, AttackSignal, AttackGateResult, Cap, min_ℕ, max_of, mode_max_level, hard_gate,
  profile_cap, overheat_cap, soft_gate, decide, check, can_enter,
}

has_level-le : (level : ℕ) (xs : List ℕ) → has_level level xs ≡ true → level ≤ max_of xs
unfolding max_of
has_level-le level [] h = cc
has_level-le level (x ∷ xs) h = ground (arith, has_level-le level xs)

decide_lem :
    (level : ℕ) (c : Cap)
    → (decide level c).allowed ≡ true
    → (1 ≤ (decide level c).final_level) × ((decide level c).final_level ≡ min_ℕ level c.0)
unfolding decide
decide_lem level c h = ground arith

module _ {F : Type 0} ⦃fl : FloatOps F⦄ where
  profile_cap-le : (g : AttackGate F) (s : AttackSignal F) (c : Cap) → (profile_cap g s c).0 ≤ c.0
  unfolding profile_cap
  profile_cap-le g s c = ground arith

  overheat_cap-le : (g : AttackGate F) (s : AttackSignal F) (c : Cap) → (overheat_cap g s c).0 ≤ c.0
  unfolding overheat_cap
  overheat_cap-le g s c = ground arith

  -- A level of the profile, or no more than the highest of them.
  profile_cap-max :
      (g : AttackGate F) (s : AttackSignal F) (c : Cap)
      → min_ℕ s.attack_level (profile_cap g s c).0
        ≤ max_of (get_config g.capital_profile).allowed_attack_levels
  unfolding profile_cap can_use_attack_level
  profile_cap-max g s c =
      ground
        (arith, has_level-le s.attack_level (get_config g.capital_profile).allowed_attack_levels)

  -- What the drawdown and the day's change leave of the levels.
  abbrev pub ceiling : AttackGate F → AttackSignal F → ℕ
  ceiling g s =
      if ltb g.max_dd_tier s.dd_tier
      then 1
      else if leb 2 s.dd_tier || fle g.overheat_threshold s.change_rate
      then 2
      else 3

  soft_gate-le :
      (g : AttackGate F) (s : AttackSignal F)
      → ((soft_gate g s).0 ≤ mode_max_level s.attack_mode)
        × ((soft_gate g s).0 ≤ ceiling g s)
        × (min_ℕ s.attack_level (soft_gate g s).0
            ≤ max_of (get_config g.capital_profile).allowed_attack_levels)
  unfolding soft_gate
  soft_gate-le g s =
      let start : Cap = (min_ℕ 3 (mode_max_level s.attack_mode), []) in
      let p = profile_cap g s start in
      ground (arith, profile_cap-le g s start, profile_cap-max g s start, overheat_cap-le g s p)

  hard_gate-open :
      (g : AttackGate F) (s : AttackSignal F)
      → hard_gate g s ≡ none
      → (any (attack_mode_eq s.attack_mode) (get_config g.capital_profile).allowed_attack_modes
          ≡ true)
        × (s.dd_tier < 3)
  unfolding hard_gate can_use_attack_mode
  hard_gate-open g s h = ground arith

  check-allowed :
      (g : AttackGate F) (s : AttackSignal F)
      → (check s g).1.allowed ≡ true
      → (hard_gate g s ≡ none) × ((check s g).1 ≡ decide s.attack_level (soft_gate g s))
  unfolding check
  check-allowed g s h = ground arith

  -- A signal is let through only where the user's mode is one of the capital profile's and the
  -- drawdown is below tier 3, and only with a level from 1 up to each of: its own level, the limit
  -- of the mode, the highest level of the capital profile, and what tier and overheating leave (1
  -- above the gate's tier, else 2 from tier 2 on or overheated).
  pub check_bounds :
      (g : AttackGate F) (s : AttackSignal F)
      → (check s g).1.allowed ≡ true
      → let level = (check s g).1.final_level in
        let profile = get_config g.capital_profile in
        (any (attack_mode_eq s.attack_mode) profile.allowed_attack_modes ≡ true)
        × (s.dd_tier < 3)
        × ((1 ≤ level)
            × (level ≤ s.attack_level)
            × (level ≤ mode_max_level s.attack_mode)
            × (level ≤ max_of profile.allowed_attack_levels)
            × (level ≤ ceiling g s))
  check_bounds g s h =
      let (open_, same) = check-allowed g s h in
      let r = decide s.attack_level (soft_gate g s) in
      let ok : r.allowed ≡ true = subst (λ (q : AttackGateResult). q.allowed ≡ true) same h in
      rw same (
        ground (
          arith,
          hard_gate-open g s open_,
          decide_lem s.attack_level (soft_gate g s) ok,
          soft_gate-le g s,
        ))

  -- A signal that a hard gate blocks leaves no trace: the status keeps saying what it said, that
  -- entries are allowed included.
  pub blocked_unseen :
      (g : AttackGate F) (s : AttackSignal F)
      → is_some (hard_gate g s) ≡ true
      → ((check s g).1.allowed ≡ false) × (can_enter (check s g).0 ≡ can_enter g)
  unfolding check
  blocked_unseen g s h = ground arith
