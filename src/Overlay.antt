-- ===== src/Overlay.antt =====
-- server/src/risk/risk_overlay.py: the decision that the execution, the drawdown, the market, the
-- correlations, the reducer and the portfolio make together. What the BTC regime is comes from the
-- feature engine and is an argument, as are the setting `v3_enabled` and the readings of the clock;
-- `closes` and `root` are those of the correlation guard. A reason is its kind, not its text.
pub mod Decision
pub mod Evaluate
pub mod Entries
pub mod Chain
pub mod Modes
pub mod Limits
pub mod Sample
mod Tests
use stock_test.Base.{ℕ, Bool, Option, List}
use stock_test.Drawdown.{DrawdownTracker}
use stock_test.ExecHealth.{ExecHealthMonitor, HealthReason}
use stock_test.Correlation.{CorrelationGuard, GuardAction}
use stock_test.Kmvi.{KmviState, KmviTier}
use stock_test.PortfolioRisk.{PortfolioRiskManager, OpenCheck}
use stock_test.Reducer.{PositionReducer}

pub data RiskMode : Type 0 where
  normal safe halt : RiskMode

pub data MarketRegime : Type 0 where
  risk_on neutral risk_off : MarketRegime

-- What the feature engine says of BTC: the text of its regime and whether it is volatile.
pub data BtcRegime : Type 0 where
  volatile bearish bullish other : BtcRegime

-- The action of `_check_tail_risk`, and its reasons
pub data TailAction : Type 0 where
  ok safe halt : TailAction

pub data TailReason : Type 0 where
  hard_dd soft_dd dd daily_halt daily_safe spike_and_shock combined : TailReason

pub data Reason : Type 0 where
  config soft_dd kmvi_crisis kmvi_high regime corr_reduce reducer : Reason
  system : List HealthReason → Reason
  tail : List TailReason → Reason
  corr : GuardAction → Reason
  portfolio : OpenCheck → Reason

-- `RiskDecision`; `hard_dd_phase` is never assigned.
pub record RiskDecision (F : Type 0) : Type 0 where
  pub mode : RiskMode
  pub regime : MarketRegime
  pub satellite_allowed : Bool
  pub core_allowed : Bool
  pub max_exposure_pct : F
  pub sizing_multiplier : F
  pub core_allocation_pct : F
  pub hedge_required : Bool
  pub all_reasons : List Reason
  pub primary_reason : Option Reason
  pub system_safety_ok : Bool
  pub tail_risk_ok : Bool
  pub regime_ok : Bool
  pub dd_tier : ℕ
  pub is_soft_dd : Bool
  pub is_hard_dd : Bool
  pub is_combined_safe : Bool
  pub open_positions : ℕ
  pub max_positions : ℕ
  pub total_risk_pct : F
  pub available_risk_pct : F
  pub is_reducing : Bool
  pub reduce_pct : F
  pub hard_dd_phase : ℕ
  pub kmvi_tier : KmviTier
  pub kmvi_value_pct : F
  pub kmvi_micro_scalper_allowed : Bool
  pub kmvi_new_entry_allowed : Bool
  pub ignition_allowed : Bool
  pub ignition_sizing : F

-- The settings of `RiskOverlayConfig` that are read here
pub record OverlayConfig (F : Type 0) : Type 0 where
  pub daily_loss_safe : F
  pub daily_loss_halt : F
  pub risk_dd_safe_combined_threshold : F
  pub core_allocation_min : F
  pub core_allocation_default : F
  pub core_allocation_max : F
  pub hard_dd_gradual_close_enabled : Bool

-- `RiskOverlay`
pub record RiskOverlay (F : Type 0) : Type 0 where
  pub config : OverlayConfig F
  pub exec_health : ExecHealthMonitor F
  pub dd_tracker : DrawdownTracker F
  pub correlation_guard : Option (CorrelationGuard F)
  pub portfolio_risk : PortfolioRiskManager F
  pub position_reducer : PositionReducer F
  pub last_kmvi : Option (KmviState F)
  pub current_mode : RiskMode
  pub last_decision : Option (RiskDecision F)
  pub mode_change_time : Option ℕ

-- What a call of `evaluate` reads: the clock in the drawdown tracker, in the reducer and at the end,
-- the setting, the equity, the BTC regime (`none` without a feature engine), and the number that
-- stands for the symbol "_CHECK_".
pub record Inputs (F : Type 0) : Type 0 where
  pub dd_now : ℕ
  pub reduce_now : ℕ
  pub mode_now : ℕ
  pub v3_enabled : Bool
  pub current_equity : Option F
  pub btc : Option (BtcRegime × Bool)
  pub check_symbol : ℕ
