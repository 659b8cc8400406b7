-- ===== src/AttackGate.antt =====
-- server/src/risk/attack_gate.py: the gate in front of the attack strategy, with the capital profile
-- and the quick check of server/src/risk/pump_dump_filter.py.
pub mod Levels
pub mod Preserve
mod Tests
use stock_test.Base.{
  ℕ, Bool, true, false, ◌&&◌, ◌||◌, Option, none, some, List, [], ◌∷◌, ◌++◌, ltb, leb, ◌==◌,
  if◌then◌else◌,
}
use stock_test.Float.{FloatOps, of_dec, neg, flt, fle}
use stock_test.CapitalProfile.{
  AttackMode, off, normal, plus, max_mode, other, MarketRegime, bearish, is_volatile_regime,
  is_risk_off, CapitalProfileManager, get_config, can_use_attack_level, can_use_attack_mode,
  check_overheat_restriction,
}

pub data AttackGateAction : Type 0 where
  allow downgrade block : AttackGateAction

-- The texts of `reasons`: those of a refusal, and those of a lower level
pub data GateReason : Type 0 where
  profile_mode pump_dump mode_off dd_tier_blocked daily_loss_blocked : GateReason
  volatile_blocked risk_off_blocked no_signal : GateReason
  profile_level no_levels_allowed profile_overheat dd_tier_2 over_max_dd_tier overheat : GateReason

pub record AttackGateResult : Type 0 where
  pub allowed : Bool
  pub action : AttackGateAction
  pub max_level : ℕ
  pub original_level : ℕ
  pub final_level : ℕ
  pub reasons : List GateReason

pub record PumpDumpFilter (F : Type 0) : Type 0 where
  pub enabled : Bool
  pub rvol_threshold : F
  pub price_spike_1h : F

-- `AttackGate`. The class `Settings` does not define what the constructor reads, so this is a gate
-- whose attributes are given to it.
pub record AttackGate (F : Type 0) : Type 0 where
  pub max_dd_tier : ℕ
  pub disable_if_safe : Bool
  pub disable_if_risk_off : Bool
  pub disable_if_volatile : Bool
  pub overheat_threshold : F
  pub capital_profile : CapitalProfileManager F
  pub pump_dump_filter : PumpDumpFilter F
  pub last_result : Option AttackGateResult

-- The arguments of `check`; a level is 1 to 3, or 0.
pub record AttackSignal (F : Type 0) : Type 0 where
  pub attack_level : ℕ
  pub dd_tier : ℕ
  pub regime : MarketRegime
  pub daily_loss : F
  pub is_volatile : Bool
  pub change_rate : F
  pub attack_mode : AttackMode
  pub rvol : F
  pub change_rate_1h : F

-- `mode_max_level`, 1 for an unknown mode
unfoldable pub mode_max_level : AttackMode → ℕ
mode_max_level off = 0
mode_max_level normal = 1
mode_max_level plus = 2
mode_max_level max_mode = 3
mode_max_level other = 1

abbrev pub is_bearish : MarketRegime → Bool
is_bearish bearish = true
is_bearish _ = false

abbrev pub min_ℕ : ℕ → ℕ → ℕ
min_ℕ a b = if ltb b a then b else a

-- `max(levels)`, 0 for no levels
unfoldable pub max_of : List ℕ → ℕ
max_of [] = 0
max_of (x ∷ xs) = let rest = max_of xs in if ltb x rest then rest else x

-- A level so far, with the reasons for it
abbrev pub Cap : Type 0
Cap = ℕ × List GateReason

abbrev pub cap_at : Bool → ℕ → GateReason → Cap → Cap
cap_at test limit why c = if test && ltb limit c.0 then (limit, c.1 ++ why ∷ []) else c

-- The end of `check`
unfoldable pub decide : ℕ → Cap → AttackGateResult
decide level c =
    let final = min_ℕ level c.0 in
    if final == 0
    then record {
      allowed = false;
      action = block;
      max_level = c.0;
      original_level = level;
      final_level = 0;
      reasons = elim c.1 [ [] ↦ no_signal ∷ [] | (r ∷ rs) ↦ r ∷ rs ];
    }
    else record {
      allowed = true;
      action = if ltb final level then downgrade else allow;
      max_level = c.0;
      original_level = level;
      final_level = final;
      reasons = c.1;
    }

module _ {F : Type 0} ⦃fl : FloatOps F⦄ where
  unfoldable pub quick_check : F → F → F → PumpDumpFilter F → Bool
  quick_check rvol change_1h change_24h f =
      f.enabled
      && ((fle f.rvol_threshold rvol && fle f.price_spike_1h change_1h)
          || fle (of_dec 40 2) change_24h)

  -- Steps 0 to 2 of `check`: the first reason to block, if there is one
  unfoldable pub hard_gate : AttackGate F → AttackSignal F → Option GateReason
  hard_gate g s = elim (can_use_attack_mode s.attack_mode g.capital_profile) [
    | some why ↦ some profile_mode
    | none ↦
        if quick_check s.rvol s.change_rate_1h s.change_rate g.pump_dump_filter
        then some pump_dump
        else if mode_max_level s.attack_mode == 0
        then some mode_off
        else if leb 3 s.dd_tier
        then some dd_tier_blocked
        else if g.disable_if_safe && fle s.daily_loss (neg (of_dec 1 2))
        then some daily_loss_blocked
        else if g.disable_if_volatile && (s.is_volatile || is_volatile_regime s.regime)
        then some volatile_blocked
        else if g.disable_if_risk_off && (is_bearish s.regime || is_risk_off s.regime)
        then some risk_off_blocked
        else none
  ]

  -- Step 3.0: the levels of the capital profile
  unfoldable pub profile_cap : AttackGate F → AttackSignal F → Cap → Cap
  profile_cap g s c =
      elim (can_use_attack_level s.attack_level s.dd_tier s.regime g.capital_profile) [
        | none ↦ c
        | some why ↦ elim (get_config g.capital_profile).allowed_attack_levels [
          | [] ↦ (0, c.1 ++ no_levels_allowed ∷ [])
          | (x ∷ xs) ↦ (min_ℕ c.0 (max_of (x ∷ xs)), c.1 ++ profile_level ∷ [])
        ]
      ]

  -- Step 3.0.1
  unfoldable pub overheat_cap : AttackGate F → AttackSignal F → Cap → Cap
  overheat_cap g s c =
      elim (check_overheat_restriction s.change_rate s.attack_level g.capital_profile) [
        | none ↦ c
        | some why ↦
            if s.attack_level == 3 && leb 3 c.0
            then (2, c.1 ++ profile_overheat ∷ [])
            else if s.attack_level == 2 && leb 2 c.0
            then (1, c.1 ++ profile_overheat ∷ [])
            else c
      ]

  -- Step 3 of `check`, from the level of the user's mode
  unfoldable pub soft_gate : AttackGate F → AttackSignal F → Cap
  soft_gate g s =
      let c₁ = profile_cap g s (min_ℕ 3 (mode_max_level s.attack_mode), []) in
      let c₂ = overheat_cap g s c₁ in
      let c₃ = cap_at (leb 2 s.dd_tier) 2 dd_tier_2 c₂ in
      let c₄ = cap_at (ltb g.max_dd_tier s.dd_tier) 1 over_max_dd_tier c₃ in
      cap_at (fle g.overheat_threshold s.change_rate) 2 overheat c₄

  -- `check`: the gate, which keeps the result only of signals that pass the hard gates, and the
  -- result. No reasons stand for the text that the attack is allowed.
  unfoldable pub check : AttackSignal F → AttackGate F → AttackGate F × AttackGateResult
  check s g = elim (hard_gate g s) [
    | some why ↦ (
      g,
      record {
        allowed = false;
        action = block;
        max_level = 0;
        original_level = s.attack_level;
        final_level = 0;
        reasons = why ∷ [];
      },
    )
    | none ↦ let r = decide s.attack_level (soft_gate g s) in (record g { last_result = some r }, r)
  ]

  -- `can_enter` of `get_status`
  unfoldable pub can_enter : AttackGate F → Bool
  can_enter g = elim g.last_result [ none ↦ true | some r ↦ r.allowed ]
