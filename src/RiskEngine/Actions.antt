-- ===== src/RiskEngine/Actions.antt =====
-- The checks of the risk engine once a second, the events that it counts and its manual controls.
use Prim.Native.String.{String}
use stock_test.Base.{
  ℕ, ◌+◌, Bool, false, not, Option, none, some, List, [], ◌∷◌, ◌++◌, ltb, if◌then◌else◌, get_or,
  take_last,
}
use stock_test.Float.{FloatOps, fzero, add, div, flt, fle}
use stock_test.Dict.{Dict, lookup}
use stock_test.TradingMode.{
  TradingMode, ModeManager, halt, mode_eq, to_safe, to_halt, to_normal, safe_to_normal_from_halt,
}
use stock_test.RiskEngine.{
  RiskEngine, Cause, touch_ledger, halt_cause, safe_cause, check_kill_switch,
}

-- `deque(maxlen=n)`: an append drops the oldest beyond it.
abbrev pub push {ℓ} : {A : Type ℓ} → ℕ → A → List A → List A
push n x xs = take_last n (xs ++ x ∷ [])

module _ {F L W : Type 0} ⦃fl : FloatOps F⦄ (call : L → TradingMode → String → W → Bool × W)
    (text : Cause → String) where
  -- The end of a check: the cause, if any, goes to the mode manager.
  abbrev pub tell :
      (String → ℕ → ModeManager L → W → Bool × ModeManager L × W)
      → ℕ
      → Option Cause
      → RiskEngine F L
      → W
      → RiskEngine F L × W
  tell method now none e w = (e, w)
  tell method now (some c) e w =
      let (changed, m, w') = method (text c) now e.mode_manager w in
      (record e { mode_manager = m }, w')

  unfoldable pub check_halt_conditions : ℕ → ℕ → RiskEngine F L → W → RiskEngine F L × W
  check_halt_conditions now today e w =
      tell (to_halt call) now (halt_cause today e) (touch_ledger today e) w

  unfoldable pub check_safe_conditions :
      ℕ → ℕ → Option Bool → RiskEngine F L → W → RiskEngine F L × W
  check_safe_conditions now today volatile e w =
      let (cause, e') = safe_cause now today volatile (touch_ledger today e) in
      tell (to_safe call) now cause e' w

  unfoldable pub check_all_conditions :
      ℕ → ℕ → Option Bool → RiskEngine F L → W → RiskEngine F L × W
  check_all_conditions now today volatile e w =
      let (e₁, w₁) = check_halt_conditions now today e w in
      let (e₂, w₂) = check_safe_conditions now today volatile e₁ w₁ in
      if mode_eq e₁.mode_manager.mode halt then (e₁, w₁) else (check_kill_switch today e₂, w₂)

  unfoldable pub on_hedge_failure : String → ℕ → RiskEngine F L → W → RiskEngine F L × W
  on_hedge_failure why now e w =
      let (changed, m, w') = to_safe call why now e.mode_manager w in
      (record e { mode_manager = m }, w')

  unfoldable pub pause : String → ℕ → RiskEngine F L → W → Bool × RiskEngine F L × W
  pause why now e w =
      let (changed, m, w') = to_safe call why now e.mode_manager w in
      (changed, record e { mode_manager = m }, w')

  unfoldable pub resume : String → ℕ → RiskEngine F L → W → Bool × RiskEngine F L × W
  resume why now e w =
      let (changed, m, w') = to_normal call why now e.mode_manager w in
      if ltb 0 e.reconcile_failure_count
      then (false, e, w)
      else if ltb 0 e.auth_failure_count
      then (false, e, w)
      else (changed, record e { mode_manager = m }, w')

  unfoldable pub safe_resume_from_halt : String → ℕ → RiskEngine F L → W → Bool × RiskEngine F L × W
  safe_resume_from_halt why now e w =
      let (changed, m, w') = safe_to_normal_from_halt call why now e.mode_manager w in
      (
        changed,
        record e { auth_failure_count = 0; reconcile_failure_count = 0; mode_manager = m },
        w',
      )

module _ {F L : Type 0} where
  unfoldable pub on_order : ℕ → Bool → RiskEngine F L → RiskEngine F L
  on_order now success e = record e {
    order_events = push 1000 (record { timestamp = now; success = success }) e.order_events;
  }

  unfoldable pub on_ws_disconnect : RiskEngine F L → RiskEngine F L
  on_ws_disconnect e = record e { ws_disconnect_count = e.ws_disconnect_count + 1 }

  unfoldable pub on_ws_reconnect : RiskEngine F L → RiskEngine F L
  on_ws_reconnect e = record e { ws_disconnect_count = 0; ws_high_latency_start = none }

  unfoldable pub on_auth_failure : RiskEngine F L → RiskEngine F L
  on_auth_failure e = record e { auth_failure_count = e.auth_failure_count + 1 }

  unfoldable pub on_reconcile_success : ℕ → RiskEngine F L → RiskEngine F L
  on_reconcile_success now e = record e {
    last_reconcile_success = some now;
    reconcile_failure_count = 0;
  }

  unfoldable pub on_reconcile_failure : RiskEngine F L → RiskEngine F L
  on_reconcile_failure e = record e { reconcile_failure_count = e.reconcile_failure_count + 1 }

  unfoldable pub reset_counters : RiskEngine F L → RiskEngine F L
  reset_counters e = record e {
    ws_disconnect_count = 0;
    order_events = [];
    ws_latency_events = [];
    ws_high_latency_start = none;
    auth_failure_count = 0;
    reconcile_failure_count = 0;
    satellite_disabled_by_weekly_loss = false;
  }

  unfoldable pub enable_satellite : RiskEngine F L → RiskEngine F L
  enable_satellite e = record e { satellite_disabled_by_weekly_loss = false }

module _ {F L : Type 0} ⦃fl : FloatOps F⦄ where
  unfoldable pub on_ws_message : ℕ → F → RiskEngine F L → RiskEngine F L
  on_ws_message now latency e =
      let heard : RiskEngine F L = record e {
        ws_last_message = some now;
        ws_disconnect_count = 0;
      } in
      if flt fzero latency
      then record heard {
        ws_latency_events =
            push 100 (record { timestamp = now; latency_seconds = latency }) e.ws_latency_events;
      }
      else heard

  unfoldable pub update_exposure : F → F → Dict F → RiskEngine F L → RiskEngine F L
  update_exposure equity gross symbols e = record e {
    exposure_info = record {
      gross_exposure = gross;
      equity = equity;
      gross_exposure_ratio = if flt fzero equity then div gross equity else fzero;
      symbol_exposures = symbols;
    };
  }

  -- Whether the exposure may grow; `core` says that the strategy is the core one.
  unfoldable pub check_exposure_limit : ℕ → F → Bool → RiskEngine F L → Bool
  check_exposure_limit symbol more core e =
      let info = e.exposure_info in
      let max =
        if core then e.limits.max_symbol_exposure_core else e.limits.max_symbol_exposure_sat in
      if fle info.equity fzero
      then false
      else if flt e.limits.max_gross_exposure (div (add info.gross_exposure more) info.equity)
      then false
      else not (
          flt max (div (add (get_or (lookup symbol info.symbol_exposures) fzero) more) info.equity))
