-- ===== src/Executor.antt =====
-- server/src/execution/executor.py: the orders that are sent to the exchanges. The order is that of
-- the module Order, the risk engine that of RiskEngine and the execution health that of ExecHealth.
-- The exchanges, the clock and the new ids are outside the file: a `World` says what they answer, for
-- a state `X` of theirs. An exception is a value; what was assigned before it stays assigned. The log
-- is left out.
pub mod Calls
pub mod Place
pub mod Submit
pub mod Hedge
pub mod Book
pub mod Maker
pub mod Success
pub mod Pairs
mod Tests
use Prim.Native.String.{String}
use text.Mathlib.Text
use text.Mathlib.Text.{◌==◌ as ◌=str◌}
use stock_test.Ledger.{strategy_named, strategy_members, strategy_code}
use stock_test.Base.{
  any, ◌==◌, ℕ, Bool, true, false, Option, none, some, List, [], ◌∷◌, ◌++◌, if◌then◌else◌, get_or,
  length, ltb, take_last,
}
use stock_test.Float.{FloatOps, of_dec, of_ℕ, fzero, sub, mul, div, fle}
use stock_test.Order.{
  StrategyType, OrderStatus, OrderSide, buy, sell, OrderType, OrderStateError, Order, Outcome,
}
use stock_test.ExecHealth.{ExecHealthMonitor, mean_or_zero}
use stock_test.RiskEngine.{RiskEngine}

-- `OrderResult` of the exchange, the fields that are read
pub record OrderResult (F : Type 0) : Type 0 where
  pub success : Bool
  pub exchange_order_id : Option String
  pub status : OrderStatus
  pub filled_qty : F
  pub avg_price : F

-- What `get_order` says of an order; an entry may be missing, and it may be `None`.
pub record OrderInfo (F : Type 0) : Type 0 where
  pub filled_qty : Option (Option F)
  pub avg_price : Option (Option F)

-- What an operation raises: an error of the order, one of the exchange, a name that does not exist,
-- or arithmetic on `None`.
pub data Raised : Type 0 where
  order_error : OrderStateError → Raised
  exchange_error missing_attribute type_error : Raised

pub data Result (A : Type 0) : Type 0 where
  ok : A → Result A
  raised : Raised → Result A

-- What is outside; the flag says whether it is the spot exchange. An order is placed with its side,
-- type, quantity, price and whether it is post-only.
pub record World (F X : Type 0) : Type 0 where
  pub now : X → ℕ × X
  pub elapsed : X → F × X
  pub new_id : X → String × X
  pub place_order :
      Bool → String → OrderSide → OrderType → F → Option F → Bool → X → Result (OrderResult F) × X
  pub cancel_order : Bool → String → String → X → Result Bool × X
  pub get_order_status : Bool → String → String → X → Result (Option OrderStatus) × X
  pub get_order : Bool → String → String → X → Result (Option (OrderInfo F)) × X
  pub get_ticker : Bool → String → X → Result (Option (Option F)) × X

pub data OrderUrgency : Type 0 where
  low high : OrderUrgency

-- `OrderPolicy`
pub record OrderPolicy (F : Type 0) : Type 0 where
  pub urgency : OrderUrgency
  pub timeout_sec : F
  pub max_price_chase : ℕ
  pub max_slippage_bps : F
  pub use_post_only : Bool

-- `HedgeRecoveryResult`
pub record HedgeRecoveryResult (F : Type 0) : Type 0 where
  pub success : Bool
  pub attempts : ℕ
  pub spot_rollback_executed : Bool
  pub rollback_quantity : F
  pub total_slippage_bps : F
  pub final_perp_order_id : Option String

-- A dictionary with text keys, in insertion order
abbrev pub Named : Type 0 → Type 0
Named V = List (String × V)

-- `ExecutionEngine`; an order is one object however many hold it, and its id is unique.
pub record ExecutionEngine (F L : Type 0) : Type 0 where
  pub risk : RiskEngine F L
  pub health : ExecHealthMonitor F
  pub active_orders : List (Order F)
  pub order_history : List (Order F)
  pub hedge_pairs : Named String
  pub hedge_recovery_history : List (HedgeRecoveryResult F)
  pub slippage_history : Named (List F)

-- What one execution works on: the order, the outside and the slippages.
pub record Exec (F X : Type 0) : Type 0 where
  pub order : Order F
  pub outside : X
  pub slippage : Named (List F)

-- The names that the class `Settings` of server/src/config.py defines
abbrev setting_names : List String
setting_names =
    "exchange_type" ∷ "upbit_access_key" ∷ "upbit_secret_key" ∷ "enable_live_trading"
    ∷ "database_url" ∷ "telegram_bot_token" ∷ "telegram_chat_id" ∷ "openai_api_key" ∷ "host"
    ∷ "port" ∷ "log_level" ∷ "daily_loss_limit_safe" ∷ "daily_loss_limit_halt"
    ∷ "reconcile_interval_sec" ∷ "max_order_failure_rate" ∷ "min_liquidity_krw" ∷ "max_spread_bps"
    ∷ "slack_webhook_url" ∷ "slack_channel" ∷ "v3_enabled" ∷ "v3_max_positions"
    ∷ "capital_profile_enabled" ∷ "capital_profile_threshold_krw"
    ∷ "capital_profile_growth_lower_krw" ∷ "capital_profile_preserve_days"
    ∷ "capital_profile_growth_days" ∷ "capital_risk_growth_min" ∷ "capital_risk_growth_max"
    ∷ "capital_growth_total_risk_limit" ∷ "capital_risk_preserve_min" ∷ "capital_risk_preserve_max"
    ∷ "capital_preserve_total_risk_limit" ∷ "kmvi_enabled" ∷ "kmvi_top_n" ∷ "kmvi_percentile"
    ∷ "kmvi_t1" ∷ "kmvi_t2" ∷ "kmvi_t3" ∷ "stop_watchdog_enabled" ∷ "stop_watchdog_loop_ms"
    ∷ "stop_watchdog_ws_timeout_sec" ∷ "stop_watchdog_fast_crash_pct"
    ∷ "stop_watchdog_fast_crash_window_sec" ∷ "anti_chase_gate_threshold" ∷ "is_paper_mode"
    ∷ "is_upbit" ∷ "upbit_api_key" ∷ "upbit_secret" ∷ []

-- `settings`: the value of a name, of the names that the class defines
pub record Settings (F : Type 0) : Type 0 where
  pub value : String → F

-- `settings.name`
unfoldable pub read_setting : {F : Type 0} → Settings F → String → Result F
read_setting s name =
    if any (λ n. n =str name) setting_names then ok (s.value name) else raised missing_attribute

-- `d.get(k)` and `d[k] = v`
abbrev pub find : {V : Type 0} → String → Named V → Option V
find k [] = none
find k (e ∷ d) = if Text.◌==◌ e.0 k then some e.1 else find k d

abbrev pub assign : {V : Type 0} → String → V → Named V → Named V
assign k v [] = (k, v) ∷ []
assign k v (e ∷ d) = if Text.◌==◌ e.0 k then (k, v) ∷ d else e ∷ assign k v d

module _ {F : Type 0} ⦃fl : FloatOps F⦄ where
  -- The limit of the slippage for an order that is not urgent: `StrategyType.CORE` is looked up first.
  unfoldable pub slippage_limit : Settings F → StrategyType → Result F
  slippage_limit s strategy = elim (strategy_named "CORE" strategy_members) [
    | none ↦ raised missing_attribute
    | some core ↦
        if strategy_code strategy == strategy_code core
        then read_setting s "max_slippage_core_bps"
        else read_setting s "max_slippage_sat_bps"
  ]

  unfoldable pub get_policy_for_strategy :
      Settings F → StrategyType → OrderUrgency → Result (OrderPolicy F)
  get_policy_for_strategy s strategy high = elim (read_setting s "max_slippage_sat_bps") [
    | raised e ↦ raised e
    | ok bps ↦ ok record {
      urgency = high;
      timeout_sec = of_dec 2 0;
      max_price_chase = 0;
      max_slippage_bps = bps;
      use_post_only = false;
    }
  ]
  get_policy_for_strategy s strategy low = elim (slippage_limit s strategy) [
    | raised e ↦ raised e
    | ok bps ↦ ok record {
      urgency = low;
      timeout_sec = of_dec 5 0;
      max_price_chase = 1;
      max_slippage_bps = bps;
      use_post_only = true;
    }
  ]

  unfoldable pub calculate_slippage_bps : F → F → OrderSide → F
  calculate_slippage_bps expected actual side =
      if fle expected fzero
      then fzero
      else mul
          (elim side [
            | buy ↦ div (sub actual expected) expected
            | sell ↦ div (sub expected actual) expected
          ])
          (of_ℕ 10000)

  unfoldable pub record_slippage : String → F → Named (List F) → Named (List F)
  record_slippage symbol bps d =
      let all = get_or (find symbol d) [] ++ bps ∷ [] in
      assign symbol (if ltb 100 (length all) then take_last 100 all else all) d

  unfoldable pub get_avg_slippage_bps : {L : Type 0} → String → ExecutionEngine F L → F
  get_avg_slippage_bps symbol e = mean_or_zero (get_or (find symbol e.slippage_history) [])
