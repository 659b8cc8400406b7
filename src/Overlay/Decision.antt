-- ===== src/Overlay/Decision.antt =====
-- The stages of `RiskOverlay.evaluate` (server/src/risk/risk_overlay.py), each as a function of the
-- decision so far; the reasons are appended to the decision at once.
use stock_test.Base.{
  ℕ, Bool, true, false, not, ◌&&◌, Option, none, some, List, [], ◌∷◌, ◌++◌, leb, if◌then◌else◌,
  length,
}
use stock_test.Float.{FloatOps, of_dec, fzero, mul, fle, fmin}
use stock_test.Drawdown.{DrawdownState}
use stock_test.ExecHealth.{HealthReason}
use stock_test.Correlation.{CorrelationState, GuardAction, nothing, warn, reduce, block, hedge}
use stock_test.Kmvi.{KmviState}
use stock_test.PortfolioRisk.{
  PortfolioRiskManager, OpenCheck, already_holding, allowed, can_open_position, get_total_risk_pct,
  get_available_risk_pct,
}
use stock_test.Reducer.{PositionReducer}
use stock_test.Overlay.{
  RiskMode, MarketRegime, risk_on, neutral, risk_off, BtcRegime, volatile, bearish, bullish, other,
  TailAction, TailReason, Reason, RiskDecision, OverlayConfig,
}

abbrev pub is_halt : RiskMode → Bool
is_halt RiskMode.halt = true
is_halt _ = false

abbrev pub is_ok : TailAction → Bool
is_ok TailAction.ok = true
is_ok _ = false

-- `if action != "HALT": action = "SAFE"`
abbrev pub raise_safe : TailAction → TailAction
raise_safe TailAction.halt = TailAction.halt
raise_safe _ = TailAction.safe

abbrev pub is_risk_off : MarketRegime → Bool
is_risk_off risk_off = true
is_risk_off _ = false

abbrev pub is_blocking : GuardAction → Bool
is_blocking block = true
is_blocking hedge = true
is_blocking _ = false

-- `_check_market_regime`: the regime, and whether it is well
unfoldable pub check_market_regime : Option (BtcRegime × Bool) → MarketRegime × Bool
check_market_regime none = (neutral, true)
check_market_regime (some (r, unstable)) = if unstable then (risk_off, false) else elim r [
  | volatile ↦ (risk_off, false)
  | bearish ↦ (risk_off, false)
  | bullish ↦ (risk_on, true)
  | other ↦ (neutral, true)
]

abbrev pub add_reason : Bool → Reason → List Reason → List Reason
add_reason b r rs = if b then rs ++ r ∷ [] else rs

-- `get_state().can_open_new` of the portfolio risk: that the symbol is held does not count.
abbrev pub can_open_new : OpenCheck → Bool
can_open_new allowed = true
can_open_new already_holding = true
can_open_new _ = false

-- A check of the tail risk so far
pub record Tail : Type 0 where
  pub action : TailAction
  pub reasons : List TailReason

module _ {F : Type 0} where
  -- `V3_ENABLED`
  unfoldable pub config_stage : Bool → RiskDecision F → RiskDecision F
  config_stage enabled d = record d {
    satellite_allowed = if enabled then d.satellite_allowed else false;
    all_reasons = add_reason (not enabled) Reason.config d.all_reasons;
  }

  -- The state of the drawdown tracker is copied into the decision.
  unfoldable pub drawdown_stage : Option (DrawdownState F) → RiskDecision F → RiskDecision F
  drawdown_stage none d = d
  drawdown_stage (some s) d = record d {
    dd_tier = s.dd_tier;
    is_soft_dd = s.is_soft_dd;
    is_hard_dd = s.is_hard_dd;
    is_combined_safe = s.is_combined_safe;
    sizing_multiplier = s.sizing_multiplier;
  }

  -- Satellite entries stop at a soft drawdown.
  unfoldable pub soft_stage : RiskDecision F → RiskDecision F
  soft_stage d =
      let soft = d.is_soft_dd && not d.is_hard_dd in
      record d {
        satellite_allowed = if soft then false else d.satellite_allowed;
        all_reasons = add_reason soft Reason.soft_dd d.all_reasons;
      }

  -- The state of the reducer before its stay period is checked, and whether the position may grow
  unfoldable pub reducer_stage : PositionReducer F → Bool → RiskDecision F → RiskDecision F
  reducer_stage r can_expand d =
      let stays = r.state.is_reducing && not can_expand in
      record d {
        is_reducing = r.state.is_reducing;
        reduce_pct = r.state.reduce_pct;
        satellite_allowed = if stays then false else d.satellite_allowed;
        all_reasons = add_reason stays Reason.reducer d.all_reasons;
      }

module _ {F : Type 0} ⦃fl : FloatOps F⦄ where
  -- `RiskDecision()`
  abbrev pub fresh_decision : RiskDecision F
  fresh_decision = record {
    mode = RiskMode.normal;
    regime = neutral;
    satellite_allowed = true;
    core_allowed = true;
    max_exposure_pct = of_dec 1 0;
    sizing_multiplier = of_dec 1 0;
    core_allocation_pct = of_dec 50 2;
    hedge_required = false;
    all_reasons = [];
    primary_reason = none;
    system_safety_ok = true;
    tail_risk_ok = true;
    regime_ok = true;
    dd_tier = 1;
    is_soft_dd = false;
    is_hard_dd = false;
    is_combined_safe = false;
    open_positions = 0;
    max_positions = 5;
    total_risk_pct = fzero;
    available_risk_pct = of_dec 15 3;
    is_reducing = false;
    reduce_pct = fzero;
    hard_dd_phase = 0;
    kmvi_tier = stock_test.Kmvi.KmviTier.normal;
    kmvi_value_pct = fzero;
    kmvi_micro_scalper_allowed = true;
    kmvi_new_entry_allowed = true;
    ignition_allowed = true;
    ignition_sizing = of_dec 1 0;
  }

  unfoldable pub system_stage : Bool → List HealthReason → RiskDecision F → RiskDecision F
  system_stage fine why d = record d {
    system_safety_ok = fine;
    mode = if fine then d.mode else RiskMode.safe;
    satellite_allowed = if fine then d.satellite_allowed else false;
    core_allowed = if fine then d.core_allowed else false;
    max_exposure_pct = if fine then d.max_exposure_pct else fzero;
    sizing_multiplier = if fine then d.sizing_multiplier else fzero;
    all_reasons = add_reason (not fine) (Reason.system why) d.all_reasons;
  }

  -- `_check_tail_risk` on the drawdown
  unfoldable pub drawdown_tail : DrawdownState F → Tail
  drawdown_tail s =
      if s.is_hard_dd
      then record { action = TailAction.halt; reasons = TailReason.hard_dd ∷ [] }
      else if s.is_soft_dd
      then record { action = TailAction.safe; reasons = TailReason.soft_dd ∷ [] }
      else if s.is_safe_trigger && not s.is_combined_safe
      then record { action = TailAction.safe; reasons = TailReason.dd ∷ [] }
      else record { action = TailAction.ok; reasons = [] }

  -- `_check_tail_risk` on the loss of the day
  unfoldable pub daily_tail : OverlayConfig F → F → Tail → Tail
  daily_tail c pnl_pct t =
      if fle pnl_pct c.daily_loss_halt
      then record { action = TailAction.halt; reasons = t.reasons ++ TailReason.daily_halt ∷ [] }
      else if fle pnl_pct c.daily_loss_safe
      then elim t.action [
        | TailAction.halt ↦ t
        | _ ↦ record { action = TailAction.safe; reasons = t.reasons ++ TailReason.daily_safe ∷ [] }
      ]
      else t

  -- `_check_tail_risk` on the correlations, with the drawdown where one was computed
  unfoldable pub correlation_tail : OverlayConfig F → Option F → CorrelationState F → Tail → Tail
  correlation_tail c pct g t =
      let deep : Bool = elim pct [
        | none ↦ false
        | some p ↦ fle c.risk_dd_safe_combined_threshold p
      ] in
      if g.is_spike && g.is_btc_shock
      then record {
        action = raise_safe t.action;
        reasons = t.reasons ++ TailReason.spike_and_shock ∷ [];
      }
      else if g.is_spike && deep
      then record { action = raise_safe t.action; reasons = t.reasons ++ TailReason.combined ∷ [] }
      else t

  -- `_check_tail_risk`, from the new state of the tracker if an equity was given
  unfoldable pub check_tail_risk :
      OverlayConfig F → Option (DrawdownState F) → Option (CorrelationState F) → Tail
  check_tail_risk c dd corr =
      let t : Tail = elim dd [
        | none ↦ record { action = TailAction.ok; reasons = [] }
        | some s ↦ daily_tail c s.daily_pnl_pct (drawdown_tail s)
      ] in
      let pct : Option F = elim dd [ none ↦ none | some s ↦ some s.drawdown_pct ] in
      elim corr [ none ↦ t | some g ↦ correlation_tail c pct g t ]

  unfoldable pub tail_stage : Tail → RiskDecision F → RiskDecision F
  tail_stage t d = record d {
    tail_risk_ok = is_ok t.action;
    mode = elim t.action [
      | TailAction.ok ↦ d.mode
      | TailAction.safe ↦ if is_halt d.mode then d.mode else RiskMode.safe
      | TailAction.halt ↦ RiskMode.halt
    ];
    satellite_allowed = if is_ok t.action then d.satellite_allowed else false;
    core_allowed = elim t.action [ TailAction.halt ↦ false | _ ↦ d.core_allowed ];
    max_exposure_pct = elim t.action [ TailAction.halt ↦ fzero | _ ↦ d.max_exposure_pct ];
    sizing_multiplier = elim t.action [ TailAction.halt ↦ fzero | _ ↦ d.sizing_multiplier ];
    all_reasons = add_reason (not (is_ok t.action)) (Reason.tail t.reasons) d.all_reasons;
  }

  unfoldable pub kmvi_stage : Option (KmviState F) → RiskDecision F → RiskDecision F
  kmvi_stage none d = d
  kmvi_stage (some k) d = record d {
    kmvi_tier = k.tier;
    kmvi_value_pct = k.value_pct;
    kmvi_micro_scalper_allowed = k.micro_scalper_allowed;
    kmvi_new_entry_allowed = k.new_entry_allowed;
    satellite_allowed =
        if not k.new_entry_allowed
        then false
        else if not k.micro_scalper_allowed
        then false
        else d.satellite_allowed;
    ignition_allowed = if k.new_entry_allowed then d.ignition_allowed else false;
    all_reasons =
        if not k.new_entry_allowed
        then d.all_reasons ++ Reason.kmvi_crisis ∷ []
        else if not k.micro_scalper_allowed
        then d.all_reasons ++ Reason.kmvi_high ∷ []
        else d.all_reasons;
    sizing_multiplier = mul d.sizing_multiplier k.sizing_multiplier;
    ignition_sizing = k.sizing_multiplier;
  }

  unfoldable pub regime_stage :
      OverlayConfig F → MarketRegime → Bool → RiskDecision F → RiskDecision F
  regime_stage c r fine d = record d {
    regime = r;
    regime_ok = fine;
    all_reasons = add_reason (not fine) Reason.regime d.all_reasons;
    satellite_allowed = if is_risk_off r then false else d.satellite_allowed;
    max_exposure_pct = elim r [
      | risk_off ↦ of_dec 3 1
      | neutral ↦ of_dec 7 1
      | risk_on ↦ d.max_exposure_pct
    ];
    hedge_required = if is_risk_off r then true else d.hedge_required;
    sizing_multiplier = elim r [
      | neutral ↦ fmin d.sizing_multiplier (of_dec 7 1)
      | _ ↦ d.sizing_multiplier
    ];
    core_allocation_pct = elim r [
      | risk_off ↦ c.core_allocation_min
      | neutral ↦ c.core_allocation_default
      | risk_on ↦ c.core_allocation_max
    ];
  }

  -- The share of the core strategy by the tier of the drawdown
  unfoldable pub core_stage : OverlayConfig F → RiskDecision F → RiskDecision F
  core_stage c d = record d {
    core_allocation_pct =
        if leb 4 d.dd_tier
        then fmin d.core_allocation_pct c.core_allocation_min
        else if leb 3 d.dd_tier
        then fmin d.core_allocation_pct c.core_allocation_default
        else d.core_allocation_pct;
  }

  unfoldable pub correlation_stage : Option (CorrelationState F) → RiskDecision F → RiskDecision F
  correlation_stage none d = d
  correlation_stage (some g) d = record d {
    satellite_allowed = if is_blocking g.action then false else d.satellite_allowed;
    hedge_required = if is_blocking g.action then true else d.hedge_required;
    max_exposure_pct = elim g.action [
      | reduce ↦ fmin d.max_exposure_pct (of_dec 3 1)
      | _ ↦ d.max_exposure_pct
    ];
    all_reasons = elim g.action [
      | nothing ↦ d.all_reasons
      | warn ↦ d.all_reasons
      | reduce ↦ d.all_reasons ++ Reason.corr_reduce ∷ []
      | block ↦ d.all_reasons ++ Reason.corr block ∷ []
      | hedge ↦ d.all_reasons ++ Reason.corr hedge ∷ []
    ];
  }

  unfoldable pub portfolio_stage : ℕ → PortfolioRiskManager F → RiskDecision F → RiskDecision F
  portfolio_stage symbol m d =
      let answer = can_open_position symbol m in
      record d {
        open_positions = length m.position_risks;
        max_positions = m.config.max_concurrent_positions;
        total_risk_pct = get_total_risk_pct m;
        available_risk_pct = get_available_risk_pct m;
        satellite_allowed = if can_open_new answer then d.satellite_allowed else false;
        all_reasons =
            add_reason (not (can_open_new answer)) (Reason.portfolio answer) d.all_reasons;
      }
