-- ===== src/Overlay/Entries.antt =====
-- The questions that the strategies ask of the overlay (server/src/risk/risk_overlay.py), and its
-- manual controls. Each question takes the last decision, or makes one without an equity.
use stock_test.Base.{ℕ, Bool, true, false, not, Option, none, some, List, leb, if◌then◌else◌}
use stock_test.Float.{FloatOps, of_dec, fzero, add, mul, fle, fmin}
use stock_test.Dict.{Dict}
use stock_test.Drawdown.{in_hard_dd}
use stock_test.Kmvi.{KmviState, KmviCalculator}
use stock_test.Candles.{CandleBuffer}
use stock_test.Kmvi
use stock_test.Reducer.{ReduceTrigger, ReduceOrder}
use stock_test.Reducer
use stock_test.Overlay.{RiskMode, Reason, RiskDecision, RiskOverlay, Inputs}
use stock_test.Overlay.Decision.{is_halt}
use stock_test.Overlay.Evaluate.{evaluate}

-- Why an entry is refused
pub data Refusal : Type 0 where
  halted zero_sizing ignition_blocked kmvi_crisis : Refusal
  decided : Option Reason → Refusal
  tier_too_high : ℕ → Refusal

abbrev pub Answer : Type 0
Answer = Bool × Option Refusal

-- The inputs of a call without an equity
abbrev pub without_equity : {F : Type 0} → Inputs F → Inputs F
without_equity i = record i { current_equity = none }

module _ {F : Type 0} where
  unfoldable pub force_mode : ℕ → RiskMode → RiskOverlay F → RiskOverlay F
  force_mode now mode o = record o { current_mode = mode; mode_change_time = some now }

  unfoldable pub get_hard_dd_phase : RiskOverlay F → ℕ
  get_hard_dd_phase o = elim o.last_decision [ none ↦ 0 | some d ↦ d.hard_dd_phase ]

  -- What `can_open_core` answers to a decision.
  unfoldable pub core_answer : RiskDecision F → Answer
  core_answer d =
      if is_halt d.mode
      then (false, some halted)
      else if not d.core_allowed
      then (false, some (decided d.primary_reason))
      else (true, none)

module _ {F : Type 0} ⦃fl : FloatOps F⦄ where
  -- What `can_open_satellite` answers to a decision.
  unfoldable pub satellite_answer : RiskDecision F → Answer
  satellite_answer d =
      if is_halt d.mode
      then (false, some halted)
      else if not d.satellite_allowed
      then (false, some (decided d.primary_reason))
      else if fle d.sizing_multiplier fzero
      then (false, some zero_sizing)
      else (true, none)

  -- What `can_open_ignition` answers, and its size; `pump` is whether the pump setup passed, where
  -- its arguments were given.
  unfoldable pub ignition_answer : Option Bool → Option (KmviState F) → RiskDecision F → Answer × F
  ignition_answer pump kmvi d =
      let crisis : Bool = elim kmvi [ none ↦ false | some k ↦ not k.new_entry_allowed ] in
      let sizing = mul d.ignition_sizing d.sizing_multiplier in
      let passed : Bool = elim pump [ none ↦ false | some p ↦ p ] in
      if is_halt d.mode
      then ((false, some halted), fzero)
      else if not d.ignition_allowed
      then ((false, some ignition_blocked), fzero)
      else if crisis
      then ((false, some kmvi_crisis), fzero)
      else if leb 4 d.dd_tier
      then ((false, some (tier_too_high d.dd_tier)), fzero)
      else ((true, none), if passed then fmin (of_dec 1 0) (add sizing (of_dec 2 1)) else sizing)

  -- `trigger_reduce` passes the call on to the reducer.
  unfoldable pub trigger_reduce :
      ℕ → ReduceTrigger → Dict F → F → RiskOverlay F → List (ReduceOrder F) × RiskOverlay F
  trigger_reduce now trigger positions severity o =
      let (orders, r) = Reducer.trigger_reduce now trigger positions severity o.position_reducer in
      (orders, record o { position_reducer = r })

  -- `should_force_close`: whether to close, and the phase
  unfoldable pub should_force_close : RiskOverlay F → Bool × ℕ
  should_force_close o =
      let lost : Bool = elim o.dd_tracker.last_state [
        | none ↦ false
        | some s ↦ fle s.daily_pnl_pct o.config.daily_loss_halt
      ] in
      if lost
      then (true, 0)
      else if in_hard_dd o.dd_tracker
      then (if o.config.hard_dd_gradual_close_enabled then (true, 1) else (true, 0))
      else (false, 0)

  -- `update_kmvi` with a candle manager, the index itself being a state of its own; an exception in
  -- the index is caught and leaves the overlay as it was.
  unfoldable pub update_kmvi :
      (F → ℕ)
      → (ℕ → Option (CandleBuffer F))
      → ℕ
      → List ℕ
      → KmviCalculator F
      → RiskOverlay F
      → KmviCalculator F × RiskOverlay F
  update_kmvi floor buffer now symbols k o =
      let (s, k') = Kmvi.update floor buffer now symbols k in (k', record o { last_kmvi = some s })

  module _ (root : F → F) (closes : ℕ → ℕ → List F) where
    -- The last decision, or a new one
    unfoldable pub latest : Inputs F → RiskOverlay F → RiskDecision F × RiskOverlay F
    latest i o = elim o.last_decision [
      | some d ↦ (d, o)
      | none ↦ evaluate root closes (without_equity i) o
    ]

    unfoldable pub can_open_satellite : Inputs F → RiskOverlay F → Answer × RiskOverlay F
    can_open_satellite i o = let (d, o') = latest i o in (satellite_answer d, o')

    unfoldable pub can_open_core : Inputs F → RiskOverlay F → Answer × RiskOverlay F
    can_open_core i o = let (d, o') = latest i o in (core_answer d, o')

    unfoldable pub can_open_ignition :
        Option Bool → Inputs F → RiskOverlay F → (Answer × F) × RiskOverlay F
    can_open_ignition pump i o =
        let (d, o') = latest i o in (ignition_answer pump o'.last_kmvi d, o')

    unfoldable pub get_sizing_multiplier : Inputs F → RiskOverlay F → F
    get_sizing_multiplier i o = (latest i o).0.sizing_multiplier

    unfoldable pub get_max_exposure : Inputs F → RiskOverlay F → F
    get_max_exposure i o = (latest i o).0.max_exposure_pct

    unfoldable pub get_core_allocation : Inputs F → RiskOverlay F → F
    get_core_allocation i o = (latest i o).0.core_allocation_pct

    unfoldable pub is_hedge_required : Inputs F → RiskOverlay F → Bool
    is_hedge_required i o = (latest i o).0.hedge_required
