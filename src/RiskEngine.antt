-- ===== src/RiskEngine.antt =====
-- server/src/risk/risk_engine.py: the conditions that take the trading mode to SAFE or HALT, and what
-- is counted for them. The mode manager is the module TradingMode, the ledger the module Ledger.
-- `text` gives the text of a cause, and `call` calls a listener of the mode manager.
pub mod Actions
pub mod Asked
pub mod Monitor
pub mod Controls
mod Tests
use Prim.Native.String.{String}
use stock_test.Base.{
  ℕ, ◌+◌, ◌-◌, ◌*◌, ◌≡◌, Bool, true, false, not, ◌&&◌, ◌||◌, Option, none, some, List, [], ◌∷◌,
  ◌++◌, ltb, leb, ◌==◌, if◌then◌else◌, get_or, length, filter, take_last,
}
use stock_test.Float.{FloatOps, of_dec, of_ℕ, fzero, add, div, flt, fle}
use stock_test.Clock.{total_seconds}
use stock_test.Dict.{Dict, lookup}
use stock_test.TradingMode.{
  TradingMode, ModeManager, halt, normal, mode_eq, can_open_new_position, to_safe, to_halt,
  to_normal, safe_to_normal_from_halt,
}
use stock_test.Ledger.{Ledger, DailyStats, today_stats, with_stats, pnl_pct, drawdown}

pub record OrderEvent : Type 0 where
  pub timestamp : ℕ
  pub success : Bool

pub record WsLatencyEvent (F : Type 0) : Type 0 where
  pub timestamp : ℕ
  pub latency_seconds : F

pub record ExposureInfo (F : Type 0) : Type 0 where
  pub gross_exposure : F
  pub equity : F
  pub gross_exposure_ratio : F
  pub symbol_exposures : Dict F

-- The limits that the constructor stores, and the settings that are read elsewhere
pub record Limits (F : Type 0) : Type 0 where
  pub daily_loss_limit_safe : F
  pub daily_loss_limit_halt : F
  pub weekly_loss_limit : F
  pub max_order_failure_rate : F
  pub ws_latency_threshold : F
  pub ws_latency_duration : F
  pub ws_timeout_seconds : F
  pub max_ws_disconnect : ℕ
  pub max_auth_failures : ℕ
  pub max_reconcile_failures : ℕ
  pub min_liquidation_distance : F
  pub max_gross_exposure : F
  pub max_symbol_exposure_core : F
  pub max_symbol_exposure_sat : F

pub record RiskEngine (F L : Type 0) : Type 0 where
  pub limits : Limits F
  pub mode_manager : ModeManager L
  pub ledger : Option (Ledger F)
  pub ws_last_message : Option ℕ
  pub ws_disconnect_count : ℕ
  pub auth_failure_count : ℕ
  pub last_reconcile_success : Option ℕ
  pub reconcile_failure_count : ℕ
  pub order_events : List OrderEvent
  pub ws_latency_events : List (WsLatencyEvent F)
  pub ws_high_latency_start : Option ℕ
  pub exposure_info : ExposureInfo F
  pub satellite_disabled_by_weekly_loss : Bool

pub data Cause : Type 0 where
  daily_loss_halt reconcile_failures auth_failures liquidation_distance : Cause
  daily_loss_safe ws_disconnects ws_timeout ws_high_latency order_failure_rate : Cause
  btc_volatility gross_exposure_exceeded : Cause

-- The keys of `Ledger.get_summary`, and those that are asked for
pub data SummaryKey : Type 0 where
  key_equity key_starting_equity key_pnl_today key_pnl_today_pct key_core_pnl : SummaryKey
  key_satellite_pnl key_fees_today key_trades_today key_drawdown key_max_equity : SummaryKey
  key_pnl_week_pct : SummaryKey

abbrev pub key_code : SummaryKey → ℕ
key_code key_equity = 0
key_code key_starting_equity = 1
key_code key_pnl_today = 2
key_code key_pnl_today_pct = 3
key_code key_core_pnl = 4
key_code key_satellite_pnl = 5
key_code key_fees_today = 6
key_code key_trades_today = 7
key_code key_drawdown = 8
key_code key_max_equity = 9
key_code key_pnl_week_pct = 10

-- The second of a time in microseconds
abbrev pub seconds : ℕ → ℕ
seconds n = n * 1000000

module _ {F : Type 0} ⦃fl : FloatOps F⦄ where
  -- `get_summary`: the ledger, which has the statistics of the day from then on, and the dictionary
  unfoldable pub get_summary : ℕ → Ledger F → Ledger F × Dict F
  get_summary today l =
      let s = today_stats today l in
      (
        with_stats today (λ x. x) l,
        (key_code key_equity, l.current_equity)
            ∷ (key_code key_starting_equity, s.starting_equity)
            ∷ (key_code key_pnl_today, s.pnl)
            ∷ (key_code key_pnl_today_pct, pnl_pct s)
            ∷ (key_code key_core_pnl, s.core_pnl)
            ∷ (key_code key_satellite_pnl, s.satellite_pnl)
            ∷ (key_code key_fees_today, s.fees)
            ∷ (key_code key_trades_today, of_ℕ s.trades_count)
            ∷ (key_code key_drawdown, drawdown s)
            ∷ (key_code key_max_equity, s.max_equity)
            ∷ [],
      )

  abbrev pub summary_value : SummaryKey → ℕ → Ledger F → F
  summary_value key today l = get_or (lookup (key_code key) (get_summary today l).1) fzero

  unfoldable pub get_daily_pnl_pct : ℕ → Ledger F → F
  get_daily_pnl_pct today l = summary_value key_pnl_today_pct today l

  unfoldable pub get_weekly_pnl_pct : ℕ → Ledger F → F
  get_weekly_pnl_pct today l = summary_value key_pnl_week_pct today l

  abbrev pub all_high : F → List (WsLatencyEvent F) → Bool
  all_high threshold [] = true
  all_high threshold (x ∷ xs) = flt threshold x.latency_seconds && all_high threshold xs

  unfoldable pub get_recent_order_failure_rate : ℕ → List OrderEvent → F
  get_recent_order_failure_rate now events =
      let recent = filter (λ (x : OrderEvent). ltb now (x.timestamp + seconds 60)) events in
      if ltb (length recent) 5
      then fzero
      else div (of_ℕ (length (filter (λ (x : OrderEvent). not x.success) recent)))
          (of_ℕ (length recent))

module _ {F L : Type 0} ⦃fl : FloatOps F⦄ where
  -- Whether a value of the ledger, if there is one, is at or below a limit
  abbrev pub ledger_at_most : (ℕ → Ledger F → F) → F → ℕ → RiskEngine F L → Bool
  ledger_at_most value limit today e = elim e.ledger [
    | none ↦ false
    | some l ↦ fle (value today l) limit
  ]

  -- The ledger after it has been asked
  unfoldable pub touch_ledger : ℕ → RiskEngine F L → RiskEngine F L
  touch_ledger today e = record e {
    ledger = elim e.ledger [ none ↦ none | some l ↦ some (get_summary today l).0 ];
  }

  unfoldable pub get_min_liquidation_distance : RiskEngine F L → Option F
  get_min_liquidation_distance e = none

  -- The first condition of `_check_halt_conditions` that holds
  unfoldable pub halt_cause : ℕ → RiskEngine F L → Option Cause
  halt_cause today e =
      if ledger_at_most get_daily_pnl_pct e.limits.daily_loss_limit_halt today e
      then some daily_loss_halt
      else if leb e.limits.max_reconcile_failures e.reconcile_failure_count
      then some reconcile_failures
      else if leb e.limits.max_auth_failures e.auth_failure_count
      then some auth_failures
      else elim (get_min_liquidation_distance e) [
        | none ↦ none
        | some d ↦
            if flt d e.limits.min_liquidation_distance then some liquidation_distance else none
      ]

  abbrev pub recent_latencies : ℕ → RiskEngine F L → List (WsLatencyEvent F)
  recent_latencies now e =
      filter (λ (x : WsLatencyEvent F). ltb now (x.timestamp + seconds 10)) e.ws_latency_events

  -- The answer of `_check_ws_high_latency`, and the start of the high latency that it leaves
  unfoldable pub high_latency : ℕ → RiskEngine F L → Bool × Option ℕ
  high_latency now e = elim (recent_latencies now e) [
    | [] ↦ (false, none)
    | (x ∷ xs) ↦
        if all_high e.limits.ws_latency_threshold (x ∷ xs)
        then (let start = get_or e.ws_high_latency_start x.timestamp in
            (fle e.limits.ws_latency_duration (total_seconds now start), some start))
        else (false, none)
  ]

  unfoldable pub check_ws_high_latency : ℕ → RiskEngine F L → Bool × RiskEngine F L
  check_ws_high_latency now e =
      let (high, start) = high_latency now e in (high, record e { ws_high_latency_start = start })

  -- The first three conditions of `_check_safe_conditions`
  unfoldable pub early_safe_cause : ℕ → ℕ → RiskEngine F L → Option Cause
  early_safe_cause now today e =
      if ledger_at_most get_daily_pnl_pct e.limits.daily_loss_limit_safe today e
      then some daily_loss_safe
      else if leb e.limits.max_ws_disconnect e.ws_disconnect_count
      then some ws_disconnects
      else elim e.ws_last_message [
        | none ↦ none
        | some t ↦
            if flt e.limits.ws_timeout_seconds (total_seconds now t) then some ws_timeout else none
      ]

  -- The others, from whether the latency is high. `volatile` is the answer of the feature engine, if
  -- there is one.
  unfoldable pub late_safe_cause : ℕ → Bool → Option Bool → RiskEngine F L → Option Cause
  late_safe_cause now high volatile e =
      if high
      then some ws_high_latency
      else if fle e.limits.max_order_failure_rate (get_recent_order_failure_rate now e.order_events)
      then some order_failure_rate
      else if get_or volatile false
      then some btc_volatility
      else if flt e.limits.max_gross_exposure e.exposure_info.gross_exposure_ratio
      then some gross_exposure_exceeded
      else none

  -- The first condition of `_check_safe_conditions` that holds. The latency is looked at only where
  -- none of the early ones does.
  unfoldable pub safe_cause : ℕ → ℕ → Option Bool → RiskEngine F L → Option Cause × RiskEngine F L
  safe_cause now today volatile e = elim (early_safe_cause now today e) [
    | some c ↦ (some c, e)
    | none ↦
        let (high, e') = check_ws_high_latency now e in (late_safe_cause now high volatile e', e')
  ]

  unfoldable pub check_kill_switch : ℕ → RiskEngine F L → RiskEngine F L
  check_kill_switch today e =
      if ledger_at_most get_weekly_pnl_pct e.limits.weekly_loss_limit today e
      then record e { satellite_disabled_by_weekly_loss = true }
      else e
